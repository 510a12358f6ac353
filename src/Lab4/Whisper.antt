-- ===== src/Lab4/Whisper.antt =====
-- A private message of LAB4, from the line of the user to the socket of the one it is for.
use comp_net.Prelude.{
  ℕ, ◌≡◌, refl, ap, ◌∙◌, Bool, true, false, none, some, [], ◌∷◌, ◌++◌, append_assoc, arith, ◌==◌,
  is_empty, take-append_length,
}
use comp_net.Text.{Text, codes, text_eq}
use comp_net.Text.Trim.{trim}
use comp_net.Text.Search.{starts_with, find_char, find_char-append, drop_behind}
use comp_net.Text.CString.{c_str}
use comp_net.Message.{msg_private, msg_text}
use comp_net.Lab4.{
  Server, Message, Sent, max_payload, make_message, end_payload, send_message,
  find_client_by_nickname,
}
use comp_net.Lab4.Session.{parse_private, private_answer, handle_private, dispatch}
use comp_net.Message.Sealed.{FitsArray, c_str-set-buffer}
use comp_net.Lab4.ChatClient.{
  ChatClient, send_message as client_send, whisper, parse_whisper, finish, print, run_command,
  handle_line,
}

-- What the server reads in a payload `nickname:text`.
parse_private_lem :
    (nickname text : Text)
    → find_char b':' nickname ≡ none
    → trim nickname ≡ nickname
    → trim text ≡ text
    → parse_private (nickname ++ b':' ∷ text) ≡ some (nickname, text)
unfolding parse_private
parse_private_lem nickname text no_colon tn trimmed =
    rw
      (
        find_char-append b':' nickname text no_colon,
        parse_private,
        take-append_length nickname (b':' ∷ text),
        drop_behind b':' nickname text,
        tn,
        trimmed,
      )
      refl

parse_whisper_lem :
    (nickname text : Text)
    → find_char b' ' nickname ≡ none
    → is_empty nickname ≡ false
    → is_empty text ≡ false
    → parse_whisper (nickname ++ b' ' ∷ text) ≡ some (nickname, text)
unfolding parse_whisper
parse_whisper_lem nickname text one_word some_name some_text =
    rw
      (
        find_char-append b' ' nickname text one_word,
        parse_whisper,
        take-append_length nickname (b' ' ∷ text),
        drop_behind b' ' nickname text,
        some_name,
        some_text,
      )
      refl

finish-outbox : (b : Bool) (c : ChatClient) → (finish (b, c)).1.outbox ≡ c.outbox
unfolding finish print
finish-outbox true c = refl
finish-outbox false c = refl

whisper-handle_private :
    (nickname text sender : Text) (c : ChatClient) (sock ref : ℕ) (s : Server)
    → find_char b' ' nickname ≡ none
    → find_char b':' nickname ≡ none
    → trim nickname ≡ nickname
    → trim text ≡ text
    → is_empty nickname ≡ false
    → is_empty text ≡ false
    → FitsArray max_payload (nickname ++ b':' ∷ text)
    → find_client_by_nickname nickname s ≡ some ref
    → (sent : Sent) × ((whisper (nickname ++ b' ' ∷ text) c).1.outbox ≡ c.outbox ++ sent ∷ [])
      × (sent.msg.type ≡ msg_private)
      × (handle_private sock sender (c_str (end_payload sent.msg).payload) s
          ≡ (send_message
              (s.heap ref).sock
              (make_message msg_private (codes "[PRIVATE][" ++ sender ++ codes "]: " ++ text))
              s).1)
unfolding whisper client_send make_message end_payload private_answer codes handle_private
    send_message
whisper-handle_private nickname text sender c sock ref s one_word no_colon tn trimmed some_name
      some_text fits found =
    let msg = make_message msg_private (nickname ++ codes ":" ++ text) in
    let sent : Sent = record { sock = c.sock; msg = msg; ok = (client_send msg c).0 } in
    let line = parse_whisper_lem nickname text one_word some_name some_text in
    let joined : nickname ++ codes ":" ++ text ≡ nickname ++ b':' ∷ text =
      append_assoc nickname (codes ":") text in
    let read : c_str (end_payload sent.msg).payload ≡ nickname ++ b':' ∷ text =
      ap (λ t. c_str (end_payload (make_message msg_private t)).payload) joined
      ∙ c_str-set-buffer 1023 (nickname ++ b':' ∷ text) fits in
    (
      sent,
      rw (whisper, line) (finish-outbox _ _),
      refl,
      rw
          (
            read,
            handle_private,
            parse_private_lem nickname text no_colon tn trimmed,
            some_name,
            some_text,
            found,
          )
          refl,
    )

handle_line-whisper :
    (rest : Text) (c : ChatClient) → handle_line (codes "/w " ++ rest) c ≡ whisper rest c
unfolding handle_line run_command codes text_eq starts_with
handle_line-whisper rest c = refl

-- A private message goes to its handler, as it stands behind `recvMessage`.
dispatch-private :
    (sock : ℕ) (sender : Text) (msg : Message) (s : Server)
    → msg.type ≡ msg_private
    → dispatch sock sender (end_payload msg) s
      ≡ (true, handle_private sock sender (c_str (end_payload msg).payload) s)
unfolding dispatch end_payload
dispatch-private sock sender msg s private =
    let not_text : (msg.type == msg_text) ≡ false = ground (arith, private) in
    let is_private : (msg.type == msg_private) ≡ true = ground (arith, private) in
    rw (not_text, is_private) refl

-- From the line to the receiver: the line `/w`, a nickname, a space and a text sends one message to
-- the server, and a server that gets it whole from the client with the name `sender` sends the text,
-- marked as private and with that name, to the socket of the client it finds under the nickname, and
-- sends nothing else, and goes on. The nickname is to have no space and no colon; nickname and text
-- are not to be empty and to have no white space at their ends, and together, with the colon, no NUL
-- and room in the payload.
pub handle_line-dispatch :
    (nickname text sender : Text) (c : ChatClient) (sock ref : ℕ) (s : Server)
    → find_char b' ' nickname ≡ none
    → find_char b':' nickname ≡ none
    → trim nickname ≡ nickname
    → trim text ≡ text
    → is_empty nickname ≡ false
    → is_empty text ≡ false
    → FitsArray max_payload (nickname ++ b':' ∷ text)
    → find_client_by_nickname nickname s ≡ some ref
    → (sent : Sent) × ((handle_line (codes "/w " ++ (nickname ++ b' ' ∷ text)) c).1.outbox
        ≡ c.outbox ++ sent ∷ [])
      × (dispatch sock sender (end_payload sent.msg) s ≡ (
        true,
        (send_message
            (s.heap ref).sock
            (make_message msg_private (codes "[PRIVATE][" ++ sender ++ codes "]: " ++ text))
            s).1,
      ))
handle_line-dispatch nickname text sender c sock ref s one_word no_colon tn trimmed some_name
      some_text fits found =
    let (sent, outbox, private, answered) =
      whisper-handle_private nickname text sender c sock ref s one_word no_colon tn trimmed
        some_name some_text fits found in
    (
      sent,
      ap (λ r. r.1.outbox) (handle_line-whisper (nickname ++ b' ' ∷ text) c) ∙ outbox,
      dispatch-private sock sender sent.msg s private ∙ ap (λ t. (true, t)) answered,
    )
