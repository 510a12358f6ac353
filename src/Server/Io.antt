-- ===== src/Server/Io.antt =====
-- The part of LAB6/server.cpp that builds and sends messages: `makeMessage`, `sendMessage`,
-- `sendServerInfo`, `sendError`, `sendAck`, `broadcastMessage`, `broadcastServerInfo`. The log lines
-- on the console are left out.
use comp_net.Prelude.{ℕ, ◌+◌, ◌%◌, Bool, List, [], ◌∷◌, ◌++◌, ◌==◌, if◌then◌else◌}
use comp_net.Text.{Text, codes}
use comp_net.Message.{MessageEx, fill_message, word, msg_server_info, msg_error, msg_ack}
use comp_net.Transport.{send_all, transfer_ok, transfer_calls}
use comp_net.Server.{Server}

-- `std::time(nullptr)`.
unfoldable pub now : Server → ℕ × Server
now s = (s.os.time s.calls, record s { calls = s.calls + 1 })

-- `nextMsgId.fetch_add(1)` on 32 bits.
unfoldable pub fetch_msg_id : Server → ℕ × Server
fetch_msg_id s = (s.next_msg_id, record s { next_msg_id = (s.next_msg_id + 1) % word })

-- `forced == 0 ? fresh : forced`, where `fresh` is a call.
abbrev pub or_fresh : ℕ → (Server → ℕ × Server) → Server → ℕ × Server
or_fresh forced fresh s = if forced == 0 then fresh s else (forced, s)

unfoldable pub make_message : ℕ → Text → Text → Text → ℕ → ℕ → Server → MessageEx × Server
make_message type sender receiver payload forced_id forced_timestamp s =
    let (id, s1) = or_fresh forced_id fetch_msg_id s in
    let (timestamp, s2) = or_fresh forced_timestamp now s1 in
    (fill_message type sender receiver payload id timestamp, s2)

-- Whether the bytes of a message would all be taken by a socket, in a state.
unfoldable pub sends : Server → ℕ → MessageEx → Bool
sends s sock msg = transfer_ok (send_all (s.os.socket sock) s.calls (s.os.layout msg))

unfoldable pub send_message : ℕ → MessageEx → Server → Bool × Server
send_message sock msg s =
    let ok = sends s sock msg in
    (
      ok,
      record s {
        calls = transfer_calls s.calls (send_all (s.os.socket sock) s.calls (s.os.layout msg));
        outbox = s.outbox ++ record { sock = sock; msg = msg; ok = ok } ∷ [];
      },
    )

abbrev pub server_name : Text
server_name = codes "SERVER"

unfoldable pub send_server_info : ℕ → Text → Server → Server
send_server_info sock text s =
    let (msg, s1) = make_message msg_server_info server_name [] text 0 0 s in
    (send_message sock msg s1).1

unfoldable pub send_error : ℕ → Text → Server → Server
send_error sock text s =
    let (msg, s1) = make_message msg_error server_name [] text 0 0 s in (send_message sock msg s1).1

unfoldable pub send_ack : ℕ → Text → ℕ → Server → Server
send_ack sock receiver msg_id s =
    let (time, s1) = now s in
    let (ack, s2) = make_message msg_ack server_name receiver (codes "ACK") msg_id time s1 in
    (send_message sock ack s2).1

-- The loop over `clients`.
unfoldable pub broadcast_loop : List ℕ → MessageEx → Server → Server
broadcast_loop [] msg s = s
broadcast_loop (ref ∷ refs) msg s =
    let client = s.heap ref in
    broadcast_loop refs msg (if client.authenticated then (send_message client.sock msg s).1 else s)

unfoldable pub broadcast_message : MessageEx → Server → Server
broadcast_message msg s = broadcast_loop s.clients msg s

unfoldable pub broadcast_server_info : Text → Server → Server
broadcast_server_info text s =
    let (msg, s1) = make_message msg_server_info server_name [] text 0 0 s in
    broadcast_message msg s1
