-- ===== src/Server/Workers.antt =====
-- The queue between `main` and the threads of `worker` in LAB6/server.cpp.
use comp_net.Prelude.{ℕ, ◌≡◌, ap, Option, none, some, List, [], ◌∷◌, ◌++◌}
use comp_net.Message.{MessageEx}
use comp_net.Server.{Server}
use comp_net.Server.Session.{handle_client}

-- A round of `main`'s loop, from the result of `accept`: `none` is a negative descriptor.
unfoldable pub accept_client : Option ℕ → Server → Server
accept_client none s = s
accept_client (some sock) s = record s { client_queue = s.client_queue ++ sock ∷ [] }

take_front : List ℕ → Server → Option ℕ × Server
take_front [] s = (none, s)
take_front (sock ∷ socks) s = (some sock, record s { client_queue = socks })

-- The locked section of `worker`: `none` is the wait for a signal.
unfoldable pub take_client : Server → Option ℕ × Server
unfolding take_front
take_client s = take_front s.client_queue s

pub take_client_lem :
    (sock : ℕ) (queue : List ℕ) (s : Server)
    → s.client_queue ≡ sock ∷ queue
    → take_client s ≡ (some sock, record s { client_queue = queue })
unfolding take_client
take_client_lem sock queue s e = ap (λ socks. take_front socks s) e

-- A round of `worker`'s loop, with the messages that each socket brings.
unfoldable pub worker_round : (ℕ → List MessageEx) → Server → Server
worker_round frames s =
    let (taken, s1) = take_client s in
    elim taken [ none ↦ s1 | some sock ↦ handle_client sock (frames sock) s1 ]
