-- ===== src/Lab3/Overheard.antt =====
-- A line of text of LAB3, from the one who types it to those who read it.
use comp_net.Prelude.{
  ℕ, ◌<◌, ◌≡◌, refl, sym, ap, ◌∙◌, true, false, some, List, [], ◌∷◌, ◌++◌, map, map-append,
  append-nil, append_assoc, arith, ◌==◌, ==_iff, length, replicate, length-replicate,
}
use comp_net.Text.{Text, codes, text_eq}
use comp_net.Text.CString.{c_str, IsCString, IsCString-tail}
use comp_net.Message.{msg_text}
use comp_net.Message.Sealed.{FitsArray}
use comp_net.Lab4.{Message, Sent, max_payload}
use comp_net.Lab3.{Server, blank, send_to, broadcast_loop, broadcast, dispatch}
use comp_net.Lab3.ChatClient.{
  ChatClient, strcpy, with_text, handle_line, receive, print, send_to as client_send,
}

-- A text that is shorter than the array is copied, and read back.
pub strcpy-c_str :
    (dst src : Text)
    → IsCString src
    → length src < length dst
    → (out : Text) × (strcpy dst src ≡ some out) × (c_str out ≡ src)
unfolding strcpy c_str
strcpy-c_str [] src whole l = absurd (omega arith)
strcpy-c_str (d ∷ dst) [] whole l = (0 ∷ dst, refl, refl)
strcpy-c_str (d ∷ dst) (c ∷ src) whole l =
    let (not_end, rest) = IsCString-tail c src whole in
    let (out, copied, read) = strcpy-c_str dst src rest (omega arith) in
    (c ∷ out, rw copied refl, rw not_end (ap (◌∷◌ c) read))

with_text-c_str :
    (type : ℕ) (text : Text)
    → FitsArray max_payload text
    → (msg : Message) × (with_text type text ≡ some msg)
      × (msg.type ≡ type)
      × (c_str msg.payload ≡ text)
unfolding with_text blank
with_text-c_str type text (whole, fits) =
    let room : length {A = ℕ} (replicate max_payload 0) ≡ max_payload =
      length-replicate {A = ℕ} max_payload 0 in
    let (out, copied, read) = strcpy-c_str (replicate max_payload 0) text whole (rw room fits) in
    (record (blank type) { payload = out }, rw (with_text, whole, copied) refl, refl, read)

-- To which sockets messages went, and which.
abbrev pub addressed : List Sent → List (ℕ × Message)
addressed sents = map (λ sent. (sent.sock, sent.msg)) sents

broadcast_loop-addressed :
    (socks : List ℕ) (msg : Message) (s : Server)
    → addressed (broadcast_loop socks msg s).outbox
      ≡ addressed s.outbox ++ map (λ sock. (sock, msg)) socks
unfolding broadcast_loop send_to
broadcast_loop-addressed [] msg s = sym (append-nil (addressed s.outbox))
broadcast_loop-addressed (sock ∷ socks) msg s =
    let rest = map (λ to. (to, msg)) socks in
    broadcast_loop-addressed socks msg (send_to sock msg s)
    ∙ ap (λ front. front ++ rest) (map-append (λ sent. (sent.sock, sent.msg)) s.outbox _)
    ∙ append_assoc (addressed s.outbox) ((sock, msg) ∷ []) rest

-- A line that is no command, has no NUL and is shorter than the payload does not overflow it: the
-- client goes on and has sent one message; a server that gets it whole sends it to all its
-- clients, the one who typed it among them, and to nobody else; and a client that gets it whole
-- prints the line.
pub handle_line-overheard :
    (line : Text) (c : ChatClient) (sock : ℕ) (s : Server) (reader : ChatClient)
    → text_eq line (codes "/ping") ≡ false
    → text_eq line (codes "/quit") ≡ false
    → FitsArray max_payload line
    → (msg : Message) × (handle_line line c ≡ some (false, client_send msg c))
      × (addressed (dispatch sock msg s).1.outbox
          ≡ addressed s.outbox ++ map (λ sock. (sock, msg)) s.clients)
      × (receive msg reader ≡ print (line ++ codes "\n") reader)
unfolding handle_line dispatch broadcast receive
handle_line-overheard line c sock s reader not_ping not_quit fits =
    let (msg, built, type, read) = with_text-c_str msg_text line fits in
    let text : (msg.type == msg_text) ≡ true = (==_iff msg.type msg_text).1 type in
    (
      msg,
      rw (not_ping, not_quit, built) refl,
      rw (dispatch, text) (broadcast_loop-addressed s.clients msg s),
      rw (receive, text, read) refl,
    )
