-- ===== src/Lab4/Session.antt =====
-- `handleClient` of LAB4/server.cpp. What the connection brings in is the list of what stands in
-- the structure after each successful `recv`, which may have filled only a part of it; the end of
-- the list is its failure.
use comp_net.Prelude.{
  ℕ, ◌+◌, Bool, true, false, ◌||◌, Option, none, some, List, [], ◌∷◌, ◌++◌, leb, ◌==◌,
  if◌then◌else◌, length, take, drop, is_empty,
}
use comp_net.Text.{Text, codes}
use comp_net.Text.Trim.{trim}
use comp_net.Text.Search.{find_char}
use comp_net.Text.CString.{c_str, buffer}
use comp_net.Message.{
  msg_hello, msg_welcome, msg_text, msg_ping, msg_pong, msg_bye, msg_auth, msg_private, msg_error,
  msg_server_info,
}
use comp_net.Lab4.{
  Server, Client, Message, max_nickname, make_message, send_message, end_payload, is_nickname_used,
  add_client, remove_client, find_client_by_nickname, broadcast_to_all, close_socket,
  send_error_and_close,
}

-- `Message m = makeMessage(type, text); sendMessage(sock, m);`
unfoldable pub reply : ℕ → ℕ → Text → Server → Server
reply sock type text s = (send_message sock (make_message type text) s).1

-- The answer to a good MSG_HELLO: the messages that are still to come, or `none` if the connection
-- is over.
unfoldable pub welcome : ℕ → List Message → Server → Option (List Message) × Server
welcome sock frames s =
    let (ok, s1) = send_message sock (make_message msg_welcome (codes "WELCOME")) s in
    if ok then (some frames, s1) else (none, close_socket sock s1)

abbrev pub hello_error : Text
hello_error = codes "Handshake error: expected MSG_HELLO"

unfoldable pub handshake : ℕ → List Message → Server → Option (List Message) × Server
handshake sock [] s = (none, send_error_and_close sock hello_error s)
handshake sock (raw ∷ frames) s =
    if (end_payload raw).type == msg_hello
    then welcome sock frames s
    else (none, send_error_and_close sock hello_error s)

-- The tests of the nickname, in their order: the answer to the client if one fails.
unfoldable pub nickname_error : Text → Server → Option Text
nickname_error nickname s =
    if is_empty nickname
    then some (codes "Nickname cannot be empty")
    else if leb max_nickname (length nickname)
    then some (codes "Nickname is too long")
    else if is_nickname_used nickname s
    then some (codes "Nickname already in use")
    else none

-- `make_shared<Client>()`, the writes to it, and `addClient`.
unfoldable pub admit : ℕ → Text → Server → Server
admit sock nickname s =
    let client : Client = record {
      sock = sock;
      nickname = buffer max_nickname nickname;
      authenticated = true;
    } in
    add_client s.next_ref (record s {
      heap = λ ref. if ref == s.next_ref then client else s.heap ref;
      next_ref = s.next_ref + 1;
    })

-- What follows the tests: the nickname and the messages to come, or the connection is over.
unfoldable pub confirm : ℕ → Text → List Message → Server → Option (Text × List Message) × Server
confirm sock nickname frames s =
    let info = make_message msg_server_info (codes "Authentication successful") in
    let (ok, s1) = send_message sock info (admit sock nickname s) in
    if ok then (some (nickname, frames), s1) else (none, close_socket sock (remove_client sock s1))

unfoldable pub check_nickname :
    ℕ → Text → List Message → Server → Option (Text × List Message) × Server
check_nickname sock nickname frames s = elim (nickname_error nickname s) [
  | some text ↦ (none, send_error_and_close sock text s)
  | none ↦ confirm sock nickname frames s
]

unfoldable pub authenticate : ℕ → List Message → Server → Option (Text × List Message) × Server
authenticate sock [] s = (none, close_socket sock s)
authenticate sock (raw ∷ frames) s =
    let msg = end_payload raw in
    if msg.type == msg_auth
    then check_nickname sock (trim (c_str msg.payload)) frames s
    else (none, send_error_and_close sock (codes "Authentication required") s)

unfoldable pub handle_text : Text → Text → Server → Server
handle_text nickname payload s =
    broadcast_to_all (make_message msg_text (codes "[" ++ nickname ++ codes "]: " ++ payload)) s

-- The two parts of `target_nick:message`; `none` if there is no colon.
unfoldable pub parse_private : Text → Option (Text × Text)
parse_private payload = elim (find_char b':' payload) [
  | none ↦ none
  | some at ↦ some (trim (take at payload), trim (drop (at + 1) payload))
]

-- What is sent for a private message, and to which socket.
unfoldable pub private_answer : ℕ → Text → Text → Text → Server → ℕ × Message
private_answer sock nickname target text s =
    if is_empty target || is_empty text
    then (sock, make_message msg_error (codes "Private message must contain recipient and text"))
    else elim (find_client_by_nickname target s) [
      | none ↦ (sock, make_message msg_error (codes "User [" ++ target ++ codes "] not found"))
      | some ref ↦ (
        (s.heap ref).sock,
        make_message msg_private (codes "[PRIVATE][" ++ nickname ++ codes "]: " ++ text),
      )
    ]

unfoldable pub handle_private : ℕ → Text → Text → Server → Server
handle_private sock nickname payload s = elim (parse_private payload) [
  | none ↦ reply sock msg_error (codes "Private message format: target_nick:message") s
  | some (target, text) ↦
      (let (to, msg) = private_answer sock nickname target text s in (send_message to msg s).1)
]

-- The `if` chain on the type, and whether the loop goes on.
unfoldable pub dispatch : ℕ → Text → Message → Server → Bool × Server
dispatch sock nickname msg s =
    if msg.type == msg_text
    then (true, handle_text nickname (c_str msg.payload) s)
    else if msg.type == msg_private
    then (true, handle_private sock nickname (c_str msg.payload) s)
    else if msg.type == msg_ping
    then (true, reply sock msg_pong (codes "PONG") s)
    else if msg.type == msg_bye
    then (false, s)
    else (true, reply sock msg_error (codes "Unknown or forbidden message type") s)

unfoldable pub serve_loop : ℕ → Text → List Message → Server → Server
serve_loop sock nickname [] s = s
serve_loop sock nickname (raw ∷ frames) s =
    let (stay, s1) = dispatch sock nickname (end_payload raw) s in
    let more = serve_loop sock nickname frames s1 in if stay then more else s1

unfoldable pub leave : ℕ → Text → Server → Server
leave sock nickname s =
    let left =
      make_message msg_server_info (codes "User [" ++ nickname ++ codes "] disconnected") in
    close_socket sock (broadcast_to_all left (remove_client sock s))

unfoldable pub serve_authenticated : ℕ → Option (Text × List Message) → Server → Server
serve_authenticated sock none s = s
serve_authenticated sock (some (nickname, frames)) s =
    let joined = make_message msg_server_info (codes "User [" ++ nickname ++ codes "] connected") in
    leave sock nickname (serve_loop sock nickname frames (broadcast_to_all joined s))

unfoldable pub serve_welcomed : ℕ → Option (List Message) → Server → Server
serve_welcomed sock none s = s
serve_welcomed sock (some frames) s =
    let (session, s1) = authenticate sock frames s in serve_authenticated sock session s1

unfoldable pub handle_client : ℕ → List Message → Server → Server
handle_client sock frames s =
    let (opened, s1) = handshake sock frames s in serve_welcomed sock opened s1
