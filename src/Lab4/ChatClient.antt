-- ===== src/Lab4/ChatClient.antt =====
-- LAB4/client.cpp: `makeMessage` to `main`. Its messages are those of LAB4/server.cpp.
use comp_net.Prelude.{
  ℕ, ◌+◌, ◌⊎◌, inl, inr, Bool, true, false, ◌||◌, Option, none, some, List, [], ◌∷◌, ◌++◌, ◌==◌,
  if◌then◌else◌, take, drop, is_empty,
}
use comp_net.Text.{Text, codes, text_eq}
use comp_net.Text.Search.{find_char, starts_with}
use comp_net.Text.CString.{c_str}
use comp_net.Message.{
  msg_hello, msg_welcome, msg_text, msg_ping, msg_pong, msg_bye, msg_auth, msg_private, msg_error,
  msg_server_info,
}
use comp_net.ChatClient.Connect.{Attempt, no_socket, refused, connected}
use comp_net.Lab4.{Message, Os, Sent, make_message, is_positive, end_payload}

-- The global variables, and what has gone out: the messages, the console, the descriptors closed.
pub record ChatClient : Type 0 where
  pub os : Os
  pub calls : ℕ
  pub sock : ℕ
  pub running : Bool
  pub nickname : Text
  pub outbox : List Sent
  pub console : Text
  pub closed : List ℕ

unfoldable pub print : Text → ChatClient → ChatClient
print text s = record s { console = s.console ++ text }

unfoldable pub send_message : Message → ChatClient → Bool × ChatClient
send_message msg s =
    let ok = is_positive ((s.os.socket s.sock).send s.calls s.os.size) in
    (
      ok,
      record s {
        calls = s.calls + 1;
        outbox = s.outbox ++ record { sock = s.sock; msg = msg; ok = ok } ∷ [];
      },
    )

-- The `if` chain of `receiveLoop`.
unfoldable pub receive : Message → ChatClient → ChatClient
receive msg s =
    if (msg.type == msg_text) || (msg.type == msg_private)
    then print (c_str msg.payload ++ codes "\n") s
    else if msg.type == msg_server_info
    then print (codes "[SERVER]: " ++ c_str msg.payload ++ codes "\n") s
    else if msg.type == msg_error
    then print (codes "[ERROR]: " ++ c_str msg.payload ++ codes "\n") s
    else if msg.type == msg_pong
    then print (codes "PONG\n") s
    else s

-- The structure after each successful `recv`; the end of the list is its failure.
unfoldable pub receive_loop : List Message → ChatClient → ChatClient
receive_loop [] s =
    if s.running
    then record (print (codes "Disconnected. Reconnecting...\n") s) { running = false }
    else s
receive_loop (raw ∷ frames) s =
    let rest = receive_loop frames (receive (end_payload raw) s) in if s.running then rest else s

unfoldable pub close_socket : ChatClient → ChatClient
close_socket s = record s { closed = s.closed ++ s.sock ∷ [] }

-- The loop of `connectAndAuthorize`, with the answers that the system will give; `none` if it still
-- goes on after them.
unfoldable pub connect_loop : List Attempt → ChatClient → Option ChatClient
connect_loop [] s = none
connect_loop (no_socket ∷ attempts) s = connect_loop attempts (print (codes "socket() error\n") s)
connect_loop (refused fd ∷ attempts) s =
    connect_loop attempts (close_socket (record s { sock = fd }))
connect_loop (connected fd ∷ attempts) s =
    some (print (codes "Connected\n") (record s { sock = fd }))

-- `close(sock); return false;`
unfoldable pub fail : ChatClient → Option (List Message) × ChatClient
fail s = (none, close_socket s)

-- The answer to MSG_AUTH: the messages still to come, or `none` if authorization failed.
unfoldable pub await_answer : List Message → ChatClient → Option (List Message) × ChatClient
await_answer [] s = fail (print (codes "Authentication failed\n") s)
await_answer (raw ∷ frames) s =
    let answer = end_payload raw in
    if answer.type == msg_error
    then fail (print (codes "[ERROR]: " ++ c_str answer.payload ++ codes "\n") s)
    else if answer.type == msg_server_info
    then (some frames, print (codes "[SERVER]: " ++ c_str answer.payload ++ codes "\n") s)
    else fail (print (codes "Unexpected server response\n") s)

unfoldable pub authenticate : List Message → ChatClient → Option (List Message) × ChatClient
authenticate frames s =
    let (ok, s1) = send_message (make_message msg_auth s.nickname) s in
    if ok then await_answer frames s1 else fail s1

unfoldable pub await_welcome : List Message → ChatClient → Option (List Message) × ChatClient
await_welcome [] s = fail (print (codes "Handshake failed\n") s)
await_welcome (raw ∷ frames) s =
    if (end_payload raw).type == msg_welcome
    then authenticate frames s
    else fail (print (codes "Handshake failed\n") s)

unfoldable pub authorize : List Message → ChatClient → Option (List Message) × ChatClient
authorize frames s =
    let (ok, s1) = send_message (make_message msg_hello s.nickname) s in
    if ok then await_welcome frames s1 else fail s1

unfoldable pub connect_and_authorize :
    List Attempt → List Message → ChatClient → Option (Option (List Message) × ChatClient)
connect_and_authorize attempts frames s = elim (connect_loop attempts s) [
  | none ↦ none
  | some s1 ↦ some (authorize frames s1)
]

-- What becomes of `main` after a line: the next line, the way to a new connection, or the end.
pub data Next : Type 0 where
  stays : Next
  reconnects : Next
  quits : Next

-- The end of the round: `ok` is the result of sending.
unfoldable pub finish : Bool × ChatClient → Next × ChatClient
finish (true, s) = (Next.stays, s)
finish (false, s) =
    (Next.reconnects, record (print (codes "Send error. Reconnecting...\n") s) { running = false })

-- The nickname and the text behind `/w `, as they stand.
unfoldable pub parse_whisper : Text → Option (Text × Text)
parse_whisper rest = elim (find_char b' ' rest) [
  | none ↦ none
  | some at ↦
      (let target = take at rest in
        let text = drop (at + 1) rest in
        if is_empty target || is_empty text then none else some (target, text))
]

unfoldable pub whisper : Text → ChatClient → Next × ChatClient
whisper rest s = elim (parse_whisper rest) [
  | none ↦ (Next.stays, print (codes "Usage: /w <nick> <message>\n") s)
  | some (target, text) ↦
      finish (send_message (make_message msg_private (target ++ codes ":" ++ text)) s)
]

unfoldable pub quit : ChatClient → Next × ChatClient
quit s =
    let (_, s1) = send_message (make_message msg_bye (codes "BYE")) s in
    (Next.quits, close_socket (record s1 { running = false }))

-- The `if` chain on a line that is not empty. Nothing is trimmed.
unfoldable pub run_command : Text → ChatClient → Next × ChatClient
run_command input s =
    if text_eq input (codes "/ping")
    then finish (send_message (make_message msg_ping (codes "PING")) s)
    else if text_eq input (codes "/quit")
    then quit s
    else if starts_with (codes "/w ") input
    then whisper (drop 3 input) s
    else finish (send_message (make_message msg_text input) s)

unfoldable pub handle_line : Text → ChatClient → Next × ChatClient
handle_line input s = if is_empty input then (Next.stays, s) else run_command input s

-- The inner loop, over the lines that the user will type; their end is a failure of `getline`. The
-- lines that are left, and whether the program ends.
unfoldable pub input_loop : List Text → ChatClient → Bool × List Text × ChatClient
input_loop [] s = (false, [], record s { running = false })
input_loop (line ∷ lines) s =
    let (next, s1) = handle_line line s in
    let more = input_loop lines s1 in
    if s.running
    then elim next [
      | Next.stays ↦ more
      | Next.reconnects ↦ (false, lines, s1)
      | Next.quits ↦ (true, lines, s1)
    ]
    else (false, line ∷ lines, s)

-- The end of a round of the outer loop.
unfoldable pub reconnect :
    List Attempt → List Message → ChatClient → Option (Option (List Message) × ChatClient)
reconnect attempts frames s = connect_and_authorize attempts frames (close_socket s)

-- `main` up to its loop, from the nickname that the user types: `inl` is the exit code, and `none` a
-- client that is still trying to connect.
unfoldable pub start :
    Text → List Attempt → List Message → ChatClient → Option (ℕ ⊎ (List Message × ChatClient))
start line attempts frames s =
    let named = record (print (codes "Enter nickname: ") s) { nickname = line } in
    if is_empty line then some (inl 1) else elim (connect_and_authorize attempts frames named) [
      | none ↦ none
      | some (none, s1) ↦ some (inl 1)
      | some (some left, s1) ↦ some (inr (left, s1))
    ]
