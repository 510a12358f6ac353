-- ===== src/Lab4/Workers.antt =====
-- `worker` and `main` of LAB4/server.cpp, with the queue of sockets between them.
use comp_net.Prelude.{ℕ, Bool, Option, none, some, List, [], ◌∷◌, ◌++◌, if◌then◌else◌}
use comp_net.Lab4.{Server, Message}
use comp_net.Lab4.Session.{handle_client}

-- How `main` gets on: its exit code, or the loop of `accept` on a socket.
pub data Started : Type 0 where
  exited : ℕ → Server → Started
  listening : ℕ → Server → Started

-- `main` up to its loop, from the results of `socket` (`none` is a negative one), `bind` and
-- `listen`.
unfoldable pub main : Option ℕ → Bool → Bool → Server → Started
main none bound listens s = Started.exited 1 s
main (some sock) bound listens s =
    let shut = Started.exited 1 (record s { closed = s.closed ++ sock ∷ [] }) in
    if bound then (if listens then Started.listening sock s else shut) else shut

-- A round of the loop of `accept`: `none` is a negative descriptor.
unfoldable pub accept_client : Option ℕ → Server → Server
accept_client none s = s
accept_client (some sock) s = record s { client_queue = s.client_queue ++ sock ∷ [] }

take_front : List ℕ → Server → Option ℕ × Server
take_front [] s = (none, s)
take_front (sock ∷ socks) s = (some sock, record s { client_queue = socks })

-- The locked section of `worker`: `none` is the wait for a signal.
unfoldable pub take_client : Server → Option ℕ × Server
unfolding take_front
take_client s = take_front s.client_queue s

-- A round of `worker`, with what each socket brings.
unfoldable pub worker_round : (ℕ → List Message) → Server → Server
worker_round frames s =
    let (taken, s1) = take_client s in
    elim taken [ none ↦ s1 | some sock ↦ handle_client sock (frames sock) s1 ]
