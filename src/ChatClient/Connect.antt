-- ===== src/ChatClient/Connect.antt =====
-- `connectAndAuthorize` of LAB6/client.cpp. The messages that come in are a list, as for
-- `receiveLoop`; those that are left over go on to it.
use comp_net.Prelude.{ℕ, Option, none, some, List, [], ◌∷◌, ◌++◌, ◌==◌, if◌then◌else◌}
use comp_net.Text.{codes}
use comp_net.Text.CString.{c_str}
use comp_net.Message.{
  MessageEx, seal_message, msg_hello, msg_welcome, msg_auth, msg_error, msg_server_info,
}
use comp_net.ChatClient.{ChatClient}
use comp_net.ChatClient.Output.{print}
use comp_net.ChatClient.Sending.{make_message, send_raw_message}

-- What `socket` and `connect` answer in one round: no descriptor, or one that `connect` failed or
-- succeeded on.
pub data Attempt : Type 0 where
  no_socket : Attempt
  refused : ℕ → Attempt
  connected : ℕ → Attempt

unfoldable pub close_socket : ChatClient → ChatClient
close_socket s = record s { closed = s.closed ++ s.sock ∷ [] }

-- The loop, with the answers that the system will give; `none` if it still goes on after them. A
-- descriptor below 0 is not written to `sock`: the next round overwrites it before any use.
unfoldable pub connect_loop : List Attempt → ChatClient → Option ChatClient
connect_loop [] s = none
connect_loop (no_socket ∷ attempts) s = connect_loop attempts (print (codes "socket() error\n") s)
connect_loop (refused fd ∷ attempts) s =
    connect_loop attempts (close_socket (record s { sock = fd }))
connect_loop (connected fd ∷ attempts) s =
    some (print (codes "Connected\n") (record s { sock = fd }))

-- `close(sock); return false;`
unfoldable pub fail : ChatClient → Option (List MessageEx) × ChatClient
fail s = (none, close_socket s)

-- The answer to MSG_AUTH: the messages still to come, or `none` if authorization failed.
unfoldable pub await_answer : List MessageEx → ChatClient → Option (List MessageEx) × ChatClient
await_answer [] s = fail (print (codes "Authentication failed\n") s)
await_answer (raw ∷ frames) s =
    let response = seal_message raw in
    if response.type == msg_error
    then fail (print (codes "[ERROR]: " ++ c_str response.payload ++ codes "\n") s)
    else if response.type == msg_server_info
    then (some frames, print (codes "[SERVER]: " ++ c_str response.payload ++ codes "\n") s)
    else (some frames, s)

unfoldable pub authenticate : List MessageEx → ChatClient → Option (List MessageEx) × ChatClient
authenticate frames s =
    let (auth, s1) = make_message msg_auth s.nickname [] s in
    let (ok, s2) = send_raw_message auth s1 in if ok then await_answer frames s2 else fail s2

unfoldable pub await_welcome : List MessageEx → ChatClient → Option (List MessageEx) × ChatClient
await_welcome [] s = fail (print (codes "Handshake failed\n") s)
await_welcome (raw ∷ frames) s =
    if (seal_message raw).type == msg_welcome
    then authenticate frames s
    else fail (print (codes "Handshake failed\n") s)

-- What follows the loop.
unfoldable pub authorize : List MessageEx → ChatClient → Option (List MessageEx) × ChatClient
authorize frames s =
    let (hello, s1) = make_message msg_hello (codes "HELLO") [] s in
    let (ok, s2) = send_raw_message hello s1 in if ok then await_welcome frames s2 else fail s2

-- `none` outside: no attempt has succeeded yet. `none` inside: the result is `false`.
unfoldable pub connect_and_authorize :
    List Attempt → List MessageEx → ChatClient → Option (Option (List MessageEx) × ChatClient)
connect_and_authorize attempts frames s = elim (connect_loop attempts s) [
  | none ↦ none
  | some s1 ↦ some (authorize frames s1)
]
