-- ===== src/Lab5/ChatClient/Commands.antt =====
-- `connectAndAuthorize` and `main` of LAB5/client.cpp.
use comp_net.Prelude.{
  ℕ, ◌+◌, ◌⊎◌, inl, inr, Bool, true, false, ◌||◌, Option, none, some, List, [], ◌∷◌, ◌++◌, ◌==◌,
  if◌then◌else◌, take, drop, is_empty,
}
use comp_net.Text.{Text, codes, text_eq}
use comp_net.Text.Search.{find_char, starts_with}
use comp_net.Text.Trim.{trim}
use comp_net.Text.CString.{c_str}
use comp_net.Message.{
  MessageEx, msg_hello, msg_welcome, msg_auth, msg_error, msg_server_info, msg_text, msg_private,
  msg_list, msg_history, msg_bye, msg_ping,
}
use comp_net.ChatClient.Connect.{Attempt, no_socket, refused, connected}
use comp_net.Lab5.Io.{end_arrays}
use comp_net.Lab5.ChatClient.{ChatClient, print, print_help, make_message, send_message}

unfoldable pub close_socket : ChatClient → ChatClient
close_socket s = record s { closed = s.closed ++ s.sock ∷ [] }

-- The loop, with the answers that the system will give; `none` if it still goes on after them. A
-- descriptor below 0 is not written to `sock`: the next round overwrites it before any use.
unfoldable pub connect_loop : List Attempt → ChatClient → Option ChatClient
connect_loop [] s = none
connect_loop (no_socket ∷ attempts) s = connect_loop attempts (print (codes "socket() error\n") s)
connect_loop (refused fd ∷ attempts) s =
    connect_loop attempts (close_socket (record s { sock = fd }))
connect_loop (connected fd ∷ attempts) s =
    some (print (codes "Connected\n") (record s { sock = fd }))

-- `close(sock); return false;`
unfoldable pub fail : ChatClient → Option (List MessageEx) × ChatClient
fail s = (none, close_socket s)

-- The answer to MSG_AUTH: the messages still to come, or `none` if authorization failed.
unfoldable pub await_answer : List MessageEx → ChatClient → Option (List MessageEx) × ChatClient
await_answer [] s = fail (print (codes "Authentication failed\n") s)
await_answer (raw ∷ frames) s =
    let response = end_arrays raw in
    if response.type == msg_error
    then fail (print (codes "[ERROR]: " ++ c_str response.payload ++ codes "\n") s)
    else if response.type == msg_server_info
    then (some frames, print (codes "[SERVER]: " ++ c_str response.payload ++ codes "\n") s)
    else (some frames, s)

unfoldable pub authenticate : List MessageEx → ChatClient → Option (List MessageEx) × ChatClient
authenticate frames s =
    let (auth, s1) = make_message msg_auth s.nickname [] s in
    let (ok, s2) = send_message auth s1 in if ok then await_answer frames s2 else fail s2

unfoldable pub await_welcome : List MessageEx → ChatClient → Option (List MessageEx) × ChatClient
await_welcome [] s = fail (print (codes "Handshake failed\n") s)
await_welcome (raw ∷ frames) s =
    if (end_arrays raw).type == msg_welcome
    then authenticate frames s
    else fail (print (codes "Handshake failed\n") s)

-- What follows the loop.
unfoldable pub authorize : List MessageEx → ChatClient → Option (List MessageEx) × ChatClient
authorize frames s =
    let (hello, s1) = make_message msg_hello (codes "HELLO") [] s in
    let (ok, s2) = send_message hello s1 in if ok then await_welcome frames s2 else fail s2

-- `none` outside: no attempt has succeeded yet. `none` inside: the result is `false`.
unfoldable pub connect_and_authorize :
    List Attempt → List MessageEx → ChatClient → Option (Option (List MessageEx) × ChatClient)
connect_and_authorize attempts frames s = elim (connect_loop attempts s) [
  | none ↦ none
  | some s1 ↦ some (authorize frames s1)
]

-- What becomes of `main` after a line: the next line, the way to a new connection, or the end.
pub data Next : Type 0 where
  stays : Next
  reconnects : Next
  quits : Next

-- The end of the round: `ok` is the result of sending.
unfoldable pub finish : Bool × ChatClient → Next × ChatClient
finish (true, s) = (stays, s)
finish (false, s) =
    (reconnects, record (print (codes "Send error. Reconnecting...\n") s) { running = false })

unfoldable pub send_built : ℕ → Text → Text → ChatClient → Next × ChatClient
send_built type payload receiver s =
    let (msg, s1) = make_message type payload receiver s in finish (send_message msg s1)

-- The nickname and the text behind `/w `.
unfoldable pub parse_whisper : Text → Option (Text × Text)
parse_whisper rest = elim (find_char b' ' rest) [
  | none ↦ none
  | some at ↦
      let target = trim (take at rest) in
      let text = trim (drop (at + 1) rest) in
      if is_empty target || is_empty text then none else some (target, text)
]

unfoldable pub whisper : Text → ChatClient → Next × ChatClient
whisper rest s = elim (parse_whisper rest) [
  | none ↦ (stays, print (codes "Usage: /w <nick> <message>\n") s)
  | some (target, text) ↦ send_built msg_private text target s
]

unfoldable pub history_command : Text → ChatClient → Next × ChatClient
history_command count s =
    if is_empty count
    then (stays, print (codes "Usage: /history N\n") s)
    else send_built msg_history count [] s

unfoldable pub quit : ChatClient → Next × ChatClient
quit s =
    let (msg, s1) = make_message msg_bye (codes "BYE") [] s in
    let (_, s2) = send_message msg s1 in (quits, close_socket (record s2 { running = false }))

-- The `if` chain on a line that was trimmed and is not empty.
unfoldable pub run_command : Text → ChatClient → Next × ChatClient
run_command input s =
    if text_eq input (codes "/help")
    then (stays, print_help s)
    else if text_eq input (codes "/ping")
    then send_built msg_ping (codes "PING") [] s
    else if text_eq input (codes "/list")
    then send_built msg_list [] [] s
    else if text_eq input (codes "/history")
    then send_built msg_history [] [] s
    else if starts_with (codes "/history ") input
    then history_command (trim (drop 9 input)) s
    else if text_eq input (codes "/quit")
    then quit s
    else if starts_with (codes "/w ") input
    then whisper (trim (drop 3 input)) s
    else send_built msg_text input [] s

unfoldable pub handle_line : Text → ChatClient → Next × ChatClient
handle_line line s =
    let input = trim line in if is_empty input then (stays, s) else run_command input s

-- The inner loop, over the lines that the user will type; their end is a failure of `getline`. The
-- lines that are left, and whether the program ends.
unfoldable pub input_loop : List Text → ChatClient → Bool × List Text × ChatClient
input_loop [] s = (false, [], record s { running = false })
input_loop (line ∷ lines) s =
    let (next, s1) = handle_line line s in
    let more = input_loop lines s1 in
    if s.running
    then elim next [ stays ↦ more | reconnects ↦ (false, lines, s1) | quits ↦ (true, lines, s1) ]
    else (false, line ∷ lines, s)

-- The end of a round of the outer loop.
unfoldable pub reconnect :
    List Attempt → List MessageEx → ChatClient → Option (Option (List MessageEx) × ChatClient)
reconnect attempts frames s = connect_and_authorize attempts frames (close_socket s)

-- `main` up to its loop, from the nickname that the user types: `inl` is the exit code, and `none` a
-- client that is still trying to connect.
unfoldable pub start :
    Text → List Attempt → List MessageEx → ChatClient → Option (ℕ ⊎ (List MessageEx × ChatClient))
start line attempts frames s =
    let nickname = trim line in
    let named = record (print (codes "Enter nickname: ") s) { nickname = nickname } in
    if is_empty nickname then some (inl 1) else elim (connect_and_authorize attempts frames named) [
      | none ↦ none
      | some (none, s1) ↦ some (inl 1)
      | some (some left, s1) ↦ some (inr (left, s1))
    ]
