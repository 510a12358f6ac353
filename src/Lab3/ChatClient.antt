-- ===== src/Lab3/ChatClient.antt =====
-- LAB3/client.cpp.
use comp_net.Prelude.{
  ℕ, ◌+◌, Bool, true, false, Option, none, some, List, [], ◌∷◌, ◌++◌, ◌==◌, if◌then◌else◌,
}
use comp_net.Text.{Text, codes, text_eq}
use comp_net.Text.CString.{c_str}
use comp_net.Message.{msg_hello, msg_text, msg_ping, msg_pong, msg_bye}
use comp_net.Lab4.{Message, Os, Sent, is_positive}
use comp_net.Lab3.{blank}

-- The global variables, and what has gone out.
pub record ChatClient : Type 0 where
  pub os : Os
  pub calls : ℕ
  pub sock : ℕ
  pub running : Bool
  pub nickname : Text
  pub outbox : List Sent
  pub console : Text
  pub closed : List ℕ

unfoldable pub print : Text → ChatClient → ChatClient
print text s = record s { console = s.console ++ text }

unfoldable pub send_to : Message → ChatClient → ChatClient
send_to msg s = record s {
  calls = s.calls + 1;
  outbox =
      s.outbox
      ++ record {
        sock = s.sock;
        msg = msg;
        ok = is_positive ((s.os.socket s.sock).send s.calls s.os.size);
      }
        ∷ [];
}

-- `strcpy(dst, src)`, on a text without NUL: `none` is a write behind the array.
unfoldable pub strcpy : Text → Text → Option Text
strcpy [] src = none
strcpy (d ∷ dst) [] = some (0 ∷ dst)
strcpy (d ∷ dst) (c ∷ src) = elim (strcpy dst src) [ none ↦ none | some rest ↦ some (c ∷ rest) ]

-- A message of a type with a text.
unfoldable pub with_text : ℕ → Text → Option Message
with_text type text = elim (strcpy (blank type).payload (c_str text)) [
  | none ↦ none
  | some payload ↦ some (record (blank type) { payload = payload })
]

-- The `if` chain of `receiveLoop`.
unfoldable pub receive : Message → ChatClient → ChatClient
receive msg s =
    if msg.type == msg_text
    then print (c_str msg.payload ++ codes "\n") s
    else if msg.type == msg_pong
    then print (codes "PONG\n") s
    else s

unfoldable pub receive_loop : List Message → ChatClient → ChatClient
receive_loop [] s =
    if s.running
    then record (print (codes "Disconnected. Reconnecting...\n") s) { running = false }
    else s
receive_loop (msg ∷ frames) s =
    let rest = receive_loop frames (receive msg s) in if s.running then rest else s

-- The loop of `connectToServer`, over the descriptors of `socket` with the result of `connect`;
-- `none` if it still goes on after them. A descriptor that failed is not closed.
unfoldable pub connect_loop : List (ℕ × Bool) → ChatClient → Option ChatClient
connect_loop [] s = none
connect_loop ((fd, connected) ∷ attempts) s =
    let s1 = record s { sock = fd } in
    let more = connect_loop attempts s1 in
    if connected then some (print (codes "Connected\n") s1) else more

-- `none`: it still tries to connect, or the nickname does not fit the array. The answer to MSG_HELLO
-- is read and not looked at.
unfoldable pub connect_to_server : List (ℕ × Bool) → ChatClient → Option ChatClient
connect_to_server attempts s = elim (connect_loop attempts s) [
  | none ↦ none
  | some s1 ↦ elim (with_text msg_hello s1.nickname) [
    | none ↦ none
    | some hello ↦ some (send_to hello s1)
  ]
]

-- A line of the user: the client and whether the program ends, or `none` for a write behind the
-- array. `getline` is not checked: when it fails, the line is empty.
unfoldable pub handle_line : Text → ChatClient → Option (Bool × ChatClient)
handle_line input s =
    if text_eq input (codes "/ping")
    then some (false, send_to (blank msg_ping) s)
    else if text_eq input (codes "/quit")
    then (let s1 = send_to (blank msg_bye) s in
        some (true, record s1 { closed = s1.closed ++ s1.sock ∷ [] }))
    else elim (with_text msg_text input) [ none ↦ none | some msg ↦ some (false, send_to msg s) ]

-- The inner loop, over the lines: what is left of them, and whether the program ends.
unfoldable pub input_loop : List Text → ChatClient → Option (Bool × List Text × ChatClient)
input_loop [] s = some (false, [], s)
input_loop (line ∷ lines) s =
    if s.running
    then elim (handle_line line s) [
      | none ↦ none
      | some (true, s1) ↦ some (true, lines, s1)
      | some (false, s1) ↦ input_loop lines s1
    ]
    else some (false, line ∷ lines, s)

-- The end of a round of the outer loop.
unfoldable pub reconnect : List (ℕ × Bool) → ChatClient → Option ChatClient
reconnect attempts s = connect_to_server attempts (record s { closed = s.closed ++ s.sock ∷ [] })
