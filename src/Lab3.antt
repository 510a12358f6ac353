-- ===== src/Lab3.antt =====
-- LAB3/server.cpp: a chat without names, on a pool of threads. The structure of its messages is that
-- of LAB4. Nothing that comes in is checked or ended by NUL, and no result of `send` is looked at.
pub mod ChatClient
pub mod Connection
pub mod Overheard
use comp_net.Prelude.{
  ℕ, ◌+◌, Bool, true, false, Option, none, some, List, [], ◌∷◌, ◌++◌, ◌==◌, if◌then◌else◌, length,
  replicate,
}
use comp_net.Text.{Text}
use comp_net.Message.{msg_welcome, msg_text, msg_ping, msg_pong, msg_bye}
use comp_net.Lab4.{Message, Os, Sent, max_payload, is_positive}

-- The global variables, the calls of the system, and what was sent and closed. A socket in the
-- queue is `none` if it is negative: the result of `accept` is not looked at.
pub record Server : Type 0 where
  pub os : Os
  pub calls : ℕ
  pub client_queue : List (Option ℕ)
  pub clients : List ℕ
  pub outbox : List Sent
  pub closed : List ℕ

-- `Message m{}; m.type = type;`
unfoldable pub blank : ℕ → Message
blank type = record { length = 0; type = type; payload = replicate max_payload 0 }

-- `send(sock, &msg, sizeof(msg), 0);`
unfoldable pub send_to : ℕ → Message → Server → Server
send_to sock msg s = record s {
  calls = s.calls + 1;
  outbox =
      s.outbox
      ++ record {
        sock = sock;
        msg = msg;
        ok = is_positive ((s.os.socket sock).send s.calls s.os.size);
      }
        ∷ [];
}

unfoldable pub broadcast_loop : List ℕ → Message → Server → Server
broadcast_loop [] msg s = s
broadcast_loop (sock ∷ socks) msg s = broadcast_loop socks msg (send_to sock msg s)

unfoldable pub broadcast : Message → Server → Server
broadcast msg s = broadcast_loop s.clients msg s

unfoldable pub remove_loop : ℕ → List ℕ → List ℕ
remove_loop sock [] = []
remove_loop sock (c ∷ cs) = let rest = remove_loop sock cs in if c == sock then rest else c ∷ rest

unfoldable pub remove_client : ℕ → Server → Server
remove_client sock s = record s { clients = remove_loop sock s.clients }

-- The `if` chain of the main loop, and whether the loop goes on.
unfoldable pub dispatch : ℕ → Message → Server → Bool × Server
dispatch sock msg s =
    if msg.type == msg_text
    then (true, broadcast msg s)
    else if msg.type == msg_ping
    then (true, send_to sock (blank msg_pong) s)
    else if msg.type == msg_bye
    then (false, s)
    else (true, s)

-- What stands in the structure after each successful `recv`; the end of the list is its failure.
unfoldable pub serve_loop : ℕ → List Message → Server → Server
serve_loop sock [] s = s
serve_loop sock (msg ∷ frames) s =
    let (stay, s1) = dispatch sock msg s in
    let more = serve_loop sock frames s1 in if stay then more else s1

unfoldable pub close_socket : ℕ → Server → Server
close_socket sock s = record s { closed = s.closed ++ sock ∷ [] }

-- A round of `worker` on a socket. The first message may be any.
unfoldable pub handle_client : ℕ → List Message → Server → Server
handle_client sock [] s = close_socket sock s
handle_client sock (hello ∷ frames) s =
    let s1 = send_to sock (blank msg_welcome) s in
    let s2 = record s1 { clients = s1.clients ++ sock ∷ [] } in
    close_socket sock (remove_client sock (serve_loop sock frames s2))

-- A round of the loop of `main`, from the result of `accept`.
unfoldable pub accept_client : Option ℕ → Server → Server
accept_client sock s = record s { client_queue = s.client_queue ++ sock ∷ [] }

-- A round of `worker`, from the front of the queue. On a negative socket `recv` fails, and `close`
-- does nothing.
unfoldable pub serve_front : (ℕ → List Message) → List (Option ℕ) → Server → Server
serve_front frames [] s = s
serve_front frames (none ∷ rest) s = record s { client_queue = rest }
serve_front frames (some sock ∷ rest) s =
    handle_client sock (frames sock) (record s { client_queue = rest })

unfoldable pub worker_round : (ℕ → List Message) → Server → Server
worker_round frames s = serve_front frames s.client_queue s
