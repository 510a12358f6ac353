-- ===== src/Lab2.antt =====
-- LAB2/server.cpp and LAB2/client.cpp: one client, which sends texts that the server prints. The
-- structure of the messages is that of LAB4.
pub mod Session
use comp_net.Prelude.{
  ℕ, ◌+◌, ◌-◌, ◌/◌, ◌%◌, Bool, true, false, Option, none, some, List, [], ◌∷◌, ◌++◌, ◌==◌,
  if◌then◌else◌, length, replicate, take, ltb,
}
use comp_net.Text.{Text, codes, text_eq}
use comp_net.Text.CString.{c_str}
use comp_net.Message.{word, msg_hello, msg_welcome, msg_text, msg_ping, msg_pong, msg_bye}
use comp_net.Lab4.{Message, max_payload}
use comp_net.Lab3.{blank}
use comp_net.Lab3.ChatClient.{strcpy}

-- What the server has printed and sent. `peer` is the address of the client as it is printed.
pub record Server : Type 0 where
  pub peer : Text
  pub console : Text
  pub outbox : List Message

unfoldable pub print : Text → Server → Server
print text s = record s { console = s.console ++ text }

-- `Message m{}; m.type = type; m.length = sizeof(m.type); send(...);`
unfoldable pub answer : ℕ → Server → Server
answer type s = record s { outbox = s.outbox ++ record (blank type) { length = 1 } ∷ [] }

unfoldable pub show : Message → Server → Server
show msg s = print (codes "[" ++ s.peer ++ codes "]: " ++ c_str msg.payload ++ codes "\n") s

-- The first message; after a failure of `recv` the structure is still zeroed.
unfoldable pub greet : Option Message → Server → Server
greet none s = s
greet (some msg) s = if msg.type == msg_hello then answer msg_welcome (show msg s) else s

-- The `if` chain of the loop, and whether it goes on.
unfoldable pub dispatch : Message → Server → Bool × Server
dispatch msg s =
    if msg.type == msg_text
    then (true, show msg s)
    else if msg.type == msg_ping
    then (true, answer msg_pong s)
    else if msg.type == msg_bye
    then (false, print (codes "Client disconnected\n") s)
    else (true, s)

-- What stands in the structure after each successful `recv`; the end of the list is its failure.
unfoldable pub serve_loop : List Message → Server → Server
serve_loop [] s = print (codes "Client disconnected\n") s
serve_loop (msg ∷ frames) s =
    let (stay, s1) = dispatch msg s in let more = serve_loop frames s1 in if stay then more else s1

-- `main` once a client is there.
unfoldable pub serve : Option Message → List Message → Server → Server
serve hello frames s = serve_loop frames (greet hello (print (codes "Client connected\n") s))

-- What the client has printed and sent, and the last message that came in.
pub record Client : Type 0 where
  pub console : Text
  pub outbox : List Message
  pub msg : Message

unfoldable pub say : Text → Client → Client
say text c = record c { console = c.console ++ text }

-- `recv(sock, &msg, sizeof(msg), 0)`, whose failure leaves the structure as it is.
unfoldable pub receive : Option Message → Client → Client
receive none c = c
receive (some msg) c = record c { msg = msg }

-- The length of the payload and of the type.
unfoldable pub count : Message → Message
count msg = record msg { length = (length (c_str msg.payload) + 1) % word }

unfoldable pub post : Message → Client → Client
post msg c = record c { outbox = c.outbox ++ msg ∷ [] }

-- The answer to a ping.
unfoldable pub await_pong : Option Message → Client → Client
await_pong incoming c =
    let c1 = receive incoming c in if c1.msg.type == msg_pong then say (codes "PONG\n") c1 else c1

-- `cin.getline(msg.payload, MAX_PAYLOAD)`, which stores what fits, and the handshake.
unfoldable pub hello : Text → Option Message → Client → Client
hello nickname incoming c =
    let stored = take (max_payload - 1) nickname in
    let typed = record (blank msg_hello) {
      payload = stored ++ replicate (max_payload - length stored) 0;
    } in
    let c1 = say (codes "Connected\nEnter nickname: ") c in
    let c2 = receive incoming (post (count typed) (record c1 { msg = count typed })) in
    if c2.msg.type == msg_welcome then say (codes "Welcome\n") c2 else c2

-- `std::cin.ignore()` drops one character, be it the end of a line.
unfoldable pub ignore : List Text → List Text
ignore [] = []
ignore ([] ∷ lines) = lines
ignore ((c ∷ line) ∷ lines) = line ∷ lines

-- What the later reads of `std::cin` get. A nickname that does not fit leaves the stream failed:
-- then `ignore` and every `getline` read nothing, as at the end of the lines.
unfoldable pub lines_behind : Text → List Text → List Text
unfolding ignore
lines_behind nickname lines = if ltb (length nickname) max_payload then ignore lines else []

-- A line of the user, with the answer to a ping: the client and whether the loop ends, or `none` for
-- a text that `strcpy` writes behind the array.
unfoldable pub handle_line : Text → Option Message → Client → Option (Bool × Client)
handle_line input incoming c =
    if text_eq input (codes "/ping")
    then some (false, await_pong incoming (post (count (blank msg_ping)) c))
    else if text_eq input (codes "/quit")
    then some (true, say (codes "Disconnected\n") (post (blank msg_bye) c))
    else elim (strcpy (blank msg_text).payload (c_str input)) [
      | none ↦ none
      | some payload ↦ some (false, post (count (record (blank msg_text) { payload = payload })) c)
    ]

-- Only a ping waits for an answer.
unfoldable pub next_answer : Bool → List (Option Message) → Option Message × List (Option Message)
next_answer false answers = (none, answers)
next_answer true [] = (none, [])
next_answer true (incoming ∷ answers) = (incoming, answers)

-- The loop over the lines, with the answers to the pings; `none` as above, or when the lines end: then
-- `getline` fails each time, and the loop sends empty texts for ever.
unfoldable pub input_loop : List Text → List (Option Message) → Client → Option Client
input_loop [] answers c = none
input_loop (line ∷ lines) answers c =
    let (incoming, left) = next_answer (text_eq line (codes "/ping")) answers in
    elim (handle_line line incoming (say (codes "> ") c)) [
      | none ↦ none
      | some (true, c1) ↦ some c1
      | some (false, c1) ↦ input_loop lines left c1
    ]

-- `main` from the nickname on.
unfoldable pub run :
    Text → Option Message → List Text → List (Option Message) → Client → Option Client
run nickname welcome lines answers c =
    input_loop (lines_behind nickname lines) answers (hello nickname welcome c)
