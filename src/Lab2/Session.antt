-- ===== src/Lab2/Session.antt =====
-- A session of LAB2: what the user types, and what the server prints.
use comp_net.Prelude.{
  ℕ, ◌<◌, ◌≡◌, refl, true, false, Option, none, some, [], ◌∷◌, ◌++◌, append_assoc, ◌==◌, lt→ltb,
  ==_iff, length, replicate, length-replicate,
}
use comp_net.Text.{Text, codes, text_eq, text_eq_refl}
use comp_net.Text.CString.{c_str}
use comp_net.Message.{msg_text, msg_bye}
use comp_net.Message.Sealed.{FitsArray}
use comp_net.Lab3.{blank}
use comp_net.Lab3.Overheard.{strcpy-c_str}
use comp_net.Lab4.{Message, max_payload}
use comp_net.Lab2.{
  Server, Client, show, print, dispatch, say, count, post, hello, ignore, lines_behind, handle_line,
  next_answer, input_loop, run,
}

-- A text that is no command, as it is sent.
text-sent :
    (line : Text) (incoming : Option Message) (c : Client)
    → text_eq line (codes "/ping") ≡ false
    → text_eq line (codes "/quit") ≡ false
    → FitsArray max_payload line
    → (msg : Message) × (handle_line line incoming c ≡ some (false, post msg c))
      × (msg.type ≡ msg_text)
      × (c_str msg.payload ≡ line)
unfolding handle_line blank count
text-sent line incoming c not_ping not_quit (whole, fits) =
    let room : length {A = ℕ} (replicate max_payload 0) ≡ max_payload =
      length-replicate {A = ℕ} max_payload 0 in
    let (out, copied, read) = strcpy-c_str (replicate max_payload 0) line whole (rw room fits) in
    (
      count (record (blank msg_text) { payload = out }),
      rw (handle_line, not_ping, not_quit, whole, copied) refl,
      refl,
      read,
    )

quit_no_ping : text_eq (codes "/quit") (codes "/ping") ≡ false
unfolding codes text_eq
quit_no_ping = refl

quits :
    (incoming : Option Message) (c : Client)
    → handle_line (codes "/quit") incoming c
      ≡ some (true, say (codes "Disconnected\n") (post (blank msg_bye) c))
unfolding handle_line
quits incoming c = rw (handle_line, quit_no_ping, text_eq_refl (codes "/quit")) refl

-- The first line behind the nickname reaches the server without its first character: if what is
-- left is no command, has no NUL and fits the payload, and the nickname fits it too, then a user who types the line and `/quit`
-- sends, behind the greeting, that rest and the farewell, and the server prints the rest.
pub run-dispatch :
    (nickname line : Text) (x : ℕ) (welcome : Option Message) (c : Client) (s : Server)
    → text_eq line (codes "/ping") ≡ false
    → text_eq line (codes "/quit") ≡ false
    → FitsArray max_payload line
    → length nickname < max_payload
    → (end : Client) × (msg : Message) × (run nickname welcome
          ((x ∷ line) ∷ codes "/quit" ∷ [])
          []
          c
        ≡ some end)
      × (end.outbox ≡ (hello nickname welcome c).outbox ++ msg ∷ blank msg_bye ∷ [])
      × (dispatch msg s
          ≡ (true, print (codes "[" ++ s.peer ++ codes "]: " ++ line ++ codes "\n") s))
unfolding run lines_behind ignore input_loop next_answer dispatch show say post
run-dispatch nickname line x welcome c s not_ping not_quit fits name_fits =
    let c1 = say (codes "> ") (hello nickname welcome c) in
    let (msg, done, type, read) = text-sent line none c1 not_ping not_quit fits in
    let text : (msg.type == msg_text) ≡ true = (==_iff msg.type msg_text).1 type in
    let c2 = post (blank msg_bye) (say (codes "> ") (post msg c1)) in
    (
      say (codes "Disconnected\n") c2,
      msg,
      rw
          (
            run,
            lines_behind,
            lt→ltb (length nickname) max_payload name_fits,
            ignore,
            input_loop,
            not_ping,
            next_answer,
            done,
            input_loop,
            quit_no_ping,
            next_answer,
            quits none (say (codes "> ") (post msg c1)),
          )
          refl,
      append_assoc (hello nickname welcome c).outbox (msg ∷ []) (blank msg_bye ∷ []),
      rw (dispatch, text, show, read) refl,
    )
