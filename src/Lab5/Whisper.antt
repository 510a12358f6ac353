-- ===== src/Lab5/Whisper.antt =====
-- A private message of LAB5, from the line that the user types to what the server reads in it.
use comp_net.Prelude.{ℕ, ◌≡◌, refl, ap, ◌∙◌, Bool, true, false, none, some, [], ◌∷◌, ◌++◌, is_empty}
use comp_net.Text.{Text, codes, is_space, text_eq}
use comp_net.Text.Search.{find_char, starts_with}
use comp_net.Text.Trim.{trim}
use comp_net.Text.Trim.Joined.{trim-append, append-IsClosed, trimmed-IsClosed, trim-words}
use comp_net.Message.Sealed.{FitsArray, c_str-set-buffer}
use comp_net.Message.{fill_message, max_name, max_payload, msg_private}
use comp_net.ChatClient.{Sent}
use comp_net.ChatClient.Commands.{parse_whisper as parse_whisper_lab6}
use comp_net.ChatClient.Commands.Lines.{parse_whisper_lem}
use comp_net.Lab5.Io.{end_arrays}
use comp_net.Lab5.Session.{parse_private}
use comp_net.Lab5.ChatClient.{ChatClient, make_message, send_message, print}
use comp_net.Lab5.ChatClient.Commands.{
  finish, send_built, whisper, parse_whisper, run_command, handle_line,
}

-- What the server reads in a message whose receiver has no white space at its ends.
parse_private-fill_message :
    (sender nickname text : Text) (id time : ℕ)
    → FitsArray max_name nickname
    → FitsArray max_payload text
    → trim nickname ≡ nickname
    → is_empty nickname ≡ false
    → parse_private (end_arrays (fill_message msg_private sender nickname text id time))
      ≡ (nickname, text)
unfolding parse_private end_arrays fill_message
parse_private-fill_message sender nickname text id time hn ht tn some_name =
    rw (c_str-set-buffer 31 nickname hn, c_str-set-buffer 255 text ht, tn, some_name) refl

parse_whisper_same : (rest : Text) → parse_whisper rest ≡ parse_whisper_lab6 rest
unfolding parse_whisper parse_whisper_lab6
parse_whisper_same rest = refl

finish-outbox : (b : Bool) (c : ChatClient) → (finish (b, c)).1.outbox ≡ c.outbox
unfolding finish print
finish-outbox true c = refl
finish-outbox false c = refl

whisper-parse_private :
    (nickname text : Text) (c : ChatClient)
    → find_char b' ' nickname ≡ none
    → trim nickname ≡ nickname
    → trim text ≡ text
    → is_empty nickname ≡ false
    → is_empty text ≡ false
    → FitsArray max_name nickname
    → FitsArray max_payload text
    → (sent : Sent) × ((whisper (nickname ++ b' ' ∷ text) c).1.outbox ≡ c.outbox ++ sent ∷ [])
      × (sent.msg.type ≡ msg_private)
      × (parse_private (end_arrays sent.msg) ≡ (nickname, text))
unfolding whisper send_built send_message make_message fill_message
whisper-parse_private nickname text c one_word tn trimmed some_name some_text hn ht =
    let parsed : parse_whisper (nickname ++ b' ' ∷ text) ≡ some (nickname, text) =
      parse_whisper_same (nickname ++ b' ' ∷ text)
      ∙ parse_whisper_lem nickname text one_word tn trimmed some_name some_text in
    let read =
      parse_private-fill_message c.nickname nickname text c.next_local_id (c.os.time c.calls) hn ht
        tn some_name in
    let (msg, s1) = make_message msg_private text nickname c in
    let sent : Sent = record { msg = msg; ok = (send_message msg s1).0 } in
    (sent, rw (whisper, parsed) (finish-outbox _ _), refl, read)

-- The line, as it stands.
abbrev pub whisper_line : Text → Text → Text
whisper_line nickname text = codes "/w " ++ (nickname ++ b' ' ∷ text)

trim-whisper_line :
    (nickname text : Text)
    → trim nickname ≡ nickname
    → trim text ≡ text
    → is_empty nickname ≡ false
    → is_empty text ≡ false
    → trim (whisper_line nickname text) ≡ whisper_line nickname text
unfolding codes trim is_space
trim-whisper_line nickname text tn trimmed some_name some_text =
    trim-append (codes "/w") (b' ' ∷ nickname ++ b' ' ∷ text) refl refl (
      append-IsClosed (b' ' ∷ nickname) (b' ' ∷ text)
        (append-IsClosed (b' ' ∷ []) text (trimmed-IsClosed text trimmed some_text)))

run_command-whisper :
    (rest : Text) (c : ChatClient) → run_command (codes "/w " ++ rest) c ≡ whisper (trim rest) c
unfolding run_command codes text_eq starts_with
run_command-whisper rest c = refl

handle_line-whisper :
    (nickname text : Text) (c : ChatClient)
    → trim nickname ≡ nickname
    → trim text ≡ text
    → is_empty nickname ≡ false
    → is_empty text ≡ false
    → handle_line (whisper_line nickname text) c ≡ whisper (nickname ++ b' ' ∷ text) c
unfolding handle_line
handle_line-whisper nickname text c tn trimmed some_name some_text =
    rw (trim-whisper_line nickname text tn trimmed some_name some_text) (
      unfold codes in
      run_command-whisper (nickname ++ b' ' ∷ text) c
      ∙ ap (λ rest. whisper rest c) (trim-words nickname text tn some_name trimmed some_text))

-- From the line to the server: the line `/w`, a nickname without spaces, a space and a text sends one
-- message, a private one, and a server that receives it whole reads that nickname and that text in
-- it. Both are to have no NUL and no white space at their ends, not to be empty, and to fit their
-- arrays.
pub handle_line-parse_private :
    (nickname text : Text) (c : ChatClient)
    → find_char b' ' nickname ≡ none
    → trim nickname ≡ nickname
    → trim text ≡ text
    → is_empty nickname ≡ false
    → is_empty text ≡ false
    → FitsArray max_name nickname
    → FitsArray max_payload text
    → (sent : Sent) × ((handle_line (whisper_line nickname text) c).1.outbox
        ≡ c.outbox ++ sent ∷ [])
      × (sent.msg.type ≡ msg_private)
      × (parse_private (end_arrays sent.msg) ≡ (nickname, text))
handle_line-parse_private nickname text c one_word tn trimmed some_name some_text hn ht =
    rw (handle_line-whisper nickname text c tn trimmed some_name some_text)
      (whisper-parse_private nickname text c one_word tn trimmed some_name some_text hn ht)
