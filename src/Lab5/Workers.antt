-- ===== src/Lab5/Workers.antt =====
-- `main` of LAB5/server.cpp, and the queue between it and the threads of `worker`.
use comp_net.Prelude.{ℕ, Bool, Option, none, some, List, [], ◌∷◌, ◌++◌, if◌then◌else◌}
use comp_net.Text.{codes}
use comp_net.Message.{MessageEx}
use comp_net.Lab5.{Server}
use comp_net.Lab5.Session.{handle_client}

-- A round of `main`'s loop, from the result of `accept`: `none` is a negative descriptor.
unfoldable pub accept_client : Option ℕ → Server → Server
accept_client none s = s
accept_client (some sock) s = record s { client_queue = s.client_queue ++ sock ∷ [] }

take_front : List ℕ → Server → Option ℕ × Server
take_front [] s = (none, s)
take_front (sock ∷ socks) s = (some sock, record s { client_queue = socks })

-- The locked section of `worker`: `none` is the wait for a signal.
unfoldable pub take_client : Server → Option ℕ × Server
unfolding take_front
take_client s = take_front s.client_queue s

-- A round of `worker`'s loop, with the messages that each socket brings.
unfoldable pub worker_round : (ℕ → List MessageEx) → Server → Server
worker_round frames s =
    let (taken, s1) = take_client s in
    elim taken [ none ↦ s1 | some sock ↦ handle_client sock (frames sock) s1 ]

-- How `main` gets on: its exit code, or the loop of `accept` on a socket.
pub data Started : Type 0 where
  exited : ℕ → Server → Started
  listening : ℕ → Server → Started

-- `main` up to its loop, from the results of `socket` (`none` is a negative one), `bind` and
-- `listen`. The history file is emptied, whatever it held; `loadHistoryFromFile` is not called.
unfoldable pub main : Option ℕ → Bool → Bool → Server → Started
main socket bound listens s =
    let s1 = record s { history_file = codes "[]\n" } in
    elim socket [
      | none ↦ Started.exited 1 s1
      | some sock ↦
          (let shut = Started.exited 1 (record s1 { closed = s1.closed ++ sock ∷ [] }) in
            if bound then (if listens then Started.listening sock s1 else shut) else shut)
    ]
