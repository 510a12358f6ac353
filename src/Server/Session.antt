-- ===== src/Server/Session.antt =====
-- `handleClient` of LAB6/server.cpp: the handshake, the authentication, the loop over the messages
-- of one connection, and its end. What the connection brings in is the list of the messages that
-- `recvAll` fills; the end of the list is its failure.
use comp_net.Prelude.{
  ℕ, Bool, true, false, ◌&&◌, ◌||◌, Option, none, some, List, [], ◌∷◌, ◌++◌, leb, ◌==◌,
  if◌then◌else◌, length, is_empty,
}
use comp_net.Text.{Text, codes}
use comp_net.Text.Trim.{trim}
use comp_net.Text.CString.{c_str, buffer}
use comp_net.Message.{
  MessageEx, seal_message, max_name, msg_hello, msg_welcome, msg_text, msg_ping, msg_pong, msg_bye,
  msg_auth, msg_private, msg_list, msg_history,
}
use comp_net.Server.{Server, null_client}
use comp_net.Server.Io.{
  now, fetch_msg_id, make_message, send_message, send_server_info, send_error, send_ack,
  broadcast_server_info, server_name,
}
use comp_net.Server.History.{append_history}
use comp_net.Server.Registry.{
  is_nickname_used, new_client, add_client, remove_client, has_seen, remember,
}
use comp_net.Server.Offline.{deliver_offline_messages}
use comp_net.Server.NetSim.{apply_network_simulation}
use comp_net.Server.Handlers.{
  handle_history_request, handle_list_request, handle_broadcast_text, handle_private_text,
}

unfoldable pub close_socket : ℕ → Server → Server
close_socket sock s = record s { closed = s.closed ++ sock ∷ [] }

-- An error to the client, and the end of the connection.
unfoldable pub refuse : ℕ → Text → Server → Server
refuse sock text s = close_socket sock (send_error sock text s)

-- The answer to a good MSG_HELLO. The messages that are still to come, or `none` if the connection
-- is over.
unfoldable pub welcome : ℕ → List MessageEx → Server → Option (List MessageEx) × Server
welcome sock frames s =
    let (msg, s1) = make_message msg_welcome server_name [] (codes "WELCOME") 0 0 s in
    let (ok, s2) = send_message sock msg s1 in
    if ok then (some frames, s2) else (none, close_socket sock s2)

abbrev pub hello_error : Text
hello_error = codes "Handshake error: expected MSG_HELLO"

unfoldable pub handshake : ℕ → List MessageEx → Server → Option (List MessageEx) × Server
handshake sock [] s = (none, refuse sock hello_error s)
handshake sock (raw ∷ frames) s =
    if (seal_message raw).type == msg_hello
    then welcome sock frames s
    else (none, refuse sock hello_error s)

-- The tests of the nickname, in their order: the answer to the client if one fails.
unfoldable pub nickname_error : Text → Server → Option Text
nickname_error nickname s =
    if is_empty nickname
    then some (codes "Nickname cannot be empty")
    else if leb max_name (length nickname)
    then some (codes "Nickname is too long")
    else if is_nickname_used nickname s
    then some (codes "Nickname already in use")
    else none

-- The client object, entered into the registry.
unfoldable pub admit : ℕ → Text → Server → ℕ × Server
admit sock nickname s =
    let (ref, s1) =
      new_client
        (record null_client {
          sock = sock;
          nickname = buffer max_name nickname;
          authenticated = true;
        })
        s in
    (ref, add_client ref s1)

-- The checks of MSG_AUTH: the client, its nickname and the messages to come, or the connection is
-- over.
unfoldable pub check_nickname :
    ℕ → Text → List MessageEx → Server → Option (ℕ × Text × List MessageEx) × Server
check_nickname sock nickname frames s = elim (nickname_error nickname s) [
  | some text ↦ (none, refuse sock text s)
  | none ↦ (let (ref, s1) = admit sock nickname s in (some (ref, nickname, frames), s1))
]

unfoldable pub authenticate :
    ℕ → List MessageEx → Server → Option (ℕ × Text × List MessageEx) × Server
authenticate sock [] s = (none, close_socket sock s)
authenticate sock (raw ∷ frames) s =
    let msg = seal_message raw in
    if msg.type == msg_auth
    then check_nickname sock (trim (c_str msg.payload)) frames s
    else (none, refuse sock (codes "Authentication required") s)

-- A record of the server's own.
unfoldable pub append_server_record : Text → Server → Server
append_server_record text s =
    let (id, s1) = fetch_msg_id s in
    let (time, s2) = now s1 in
    append_history
      (record {
        msg_id = id;
        timestamp = time;
        sender = server_name;
        receiver = [];
        type = codes "MSG_SERVER_INFO";
        text = text;
        delivered = true;
        is_offline = false;
      })
      s2

-- What follows a good MSG_AUTH.
unfoldable pub greet : ℕ → ℕ → Text → Server → Server
greet sock ref nickname s =
    let joined = codes "User [" ++ nickname ++ codes "] connected" in
    broadcast_server_info joined (
      deliver_offline_messages ref
        (append_server_record joined (send_server_info sock (codes "Authentication successful") s)))

abbrev pub is_reliable : ℕ → Bool
is_reliable type = type == msg_text || type == msg_private || type == msg_ping

unfoldable pub handle_ping : ℕ → ℕ → MessageEx → Server → Server
handle_ping sock ref msg s =
    let s1 = send_ack sock (c_str (s.heap ref).nickname) msg.msg_id s in
    let (time, s2) = now s1 in
    let (pong, s3) =
      make_message msg_pong server_name (c_str (s2.heap ref).nickname) (codes "PONG") msg.msg_id
        time s2 in
    (send_message sock pong s3).1

unfoldable pub ack_client : ℕ → ℕ → ℕ → Server → Server
ack_client sock ref msg_id s = send_ack sock (c_str (s.heap ref).nickname) msg_id s

-- The `if` chain on the type, and whether the loop goes on.
unfoldable pub dispatch : ℕ → ℕ → MessageEx → Server → Bool × Server
dispatch sock ref msg s =
    if msg.type == msg_text
    then (
      true,
      ack_client sock ref msg.msg_id (handle_broadcast_text ref msg (remember ref msg.msg_id s)),
    )
    else if msg.type == msg_private
    then (
      true,
      ack_client sock ref msg.msg_id (handle_private_text ref msg (remember ref msg.msg_id s)),
    )
    else if msg.type == msg_list
    then (true, handle_list_request sock s)
    else if msg.type == msg_history
    then (true, handle_history_request sock (c_str msg.payload) s)
    else if msg.type == msg_ping
    then (true, handle_ping sock ref msg (remember ref msg.msg_id s))
    else if msg.type == msg_bye
    then (false, s)
    else if msg.type == msg_auth || msg.type == msg_hello
    then (true, send_error sock (codes "Protocol state error") s)
    else (true, send_error sock (codes "Unsupported message type") s)

-- A message that has passed the simulation: a duplicate is acknowledged and nothing else.
unfoldable pub accept_message : ℕ → ℕ → MessageEx → Server → Bool × Server
accept_message sock ref msg s =
    if is_reliable msg.type && has_seen ref msg.msg_id s
    then (true, ack_client sock ref msg.msg_id s)
    else dispatch sock ref msg s

-- One round of the loop, from a message that has come in.
unfoldable pub handle_message : ℕ → ℕ → MessageEx → Server → Bool × Server
handle_message sock ref raw s =
    let (result, s1) = apply_network_simulation (seal_message raw) s in
    elim result [ none ↦ (true, s1) | some msg ↦ accept_message sock ref msg s1 ]

unfoldable pub serve_loop : ℕ → ℕ → List MessageEx → Server → Server
serve_loop sock ref [] s = s
serve_loop sock ref (raw ∷ frames) s =
    let (stay, s1) = handle_message sock ref raw s in
    let more = serve_loop sock ref frames s1 in if stay then more else s1

-- The end of a connection that was authenticated.
unfoldable pub leave : ℕ → Text → Server → Server
leave sock nickname s =
    let left = codes "User [" ++ nickname ++ codes "] disconnected" in
    broadcast_server_info left
      (append_server_record left (close_socket sock (remove_client sock s)))

unfoldable pub serve_authenticated : ℕ → Option (ℕ × Text × List MessageEx) → Server → Server
serve_authenticated sock none s = s
serve_authenticated sock (some (ref, nickname, frames)) s =
    leave sock nickname (serve_loop sock ref frames (greet sock ref nickname s))

unfoldable pub serve_welcomed : ℕ → Option (List MessageEx) → Server → Server
serve_welcomed sock none s = s
serve_welcomed sock (some frames) s =
    let (session, s1) = authenticate sock frames s in serve_authenticated sock session s1

unfoldable pub handle_client : ℕ → List MessageEx → Server → Server
handle_client sock frames s =
    let (opened, s1) = handshake sock frames s in serve_welcomed sock opened s1
