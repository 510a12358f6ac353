-- ===== src/Server/Fifo.antt =====
-- The queue of LAB6/server.cpp between `main` and the workers is first in, first out.
use comp_net.Prelude.{
  ℕ, zero, suc, ◌≡◌, refl, sym, ap, ◌∙◌, Option, none, some, List, [], ◌∷◌, ◌++◌, map, append-nil,
  append_assoc, length,
}
use comp_net.Server.{Server}
use comp_net.Server.Workers.{accept_client, take_client, take_client_lem}

-- `main` goes through a number of results of `accept`.
pub accept_all : List (Option ℕ) → Server → Server
accept_all [] s = s
accept_all (r ∷ results) s = accept_all results (accept_client r s)

-- The descriptors among them.
abbrev pub sockets : List (Option ℕ) → List ℕ
sockets [] = []
sockets (none ∷ results) = sockets results
sockets (some sock ∷ results) = sock ∷ sockets results

-- Workers take a number of sockets.
pub take_all_clients : ℕ → Server → List (Option ℕ) × Server
take_all_clients zero s = ([], s)
take_all_clients (suc n) s =
    let (taken, s1) = take_client s in let (rest, s2) = take_all_clients n s1 in (taken ∷ rest, s2)

queue-accept_all :
    (results : List (Option ℕ)) (s : Server)
    → (accept_all results s).client_queue ≡ s.client_queue ++ sockets results
unfolding accept_all accept_client
queue-accept_all [] s = sym (append-nil _)
queue-accept_all (none ∷ results) s = queue-accept_all results s
queue-accept_all (some sock ∷ results) s =
    queue-accept_all results (accept_client (some sock) s)
    ∙ append_assoc s.client_queue (sock ∷ []) (sockets results)

take_all_clients-suc :
    (n : ℕ) (taken : Option ℕ) (s s1 : Server)
    → take_client s ≡ (taken, s1)
    → take_all_clients (suc n) s ≡ (taken ∷ (take_all_clients n s1).0, (take_all_clients n s1).1)
unfolding take_all_clients
take_all_clients-suc n taken s s1 e =
    ap (λ r. (r.0 ∷ (take_all_clients n r.1).0, (take_all_clients n r.1).1)) e

take_none :
    (s : Server)
    → s.client_queue ≡ []
    → ((take_all_clients 0 s).0 ≡ []) × ((take_all_clients 0 s).1.client_queue ≡ [])
unfolding take_all_clients
take_none s e = (refl, e)

take_all-queue :
    (queue : List ℕ) (s : Server)
    → s.client_queue ≡ queue
    → ((take_all_clients (length queue) s).0 ≡ map some queue)
      × ((take_all_clients (length queue) s).1.client_queue ≡ [])
take_all-queue [] s e = take_none s e
take_all-queue (sock ∷ queue) s e =
    let s1 = record s { client_queue = queue } in
    let (taken, left) = take_all-queue queue s1 refl in
    let step =
      take_all_clients-suc (length queue) (some sock) s s1 (take_client_lem sock queue s e) in
    (
      ap (λ r. r.0) step ∙ ap (λ rest. some sock ∷ rest) taken,
      ap (λ r. r.1.client_queue) step ∙ left,
    )

-- The workers get the sockets that `accept` gave, each once, in the order in which they came and
-- behind those that waited; failures of `accept` leave no trace, and then the queue is empty.
pub accept-take :
    (results : List (Option ℕ)) (s : Server)
    → let queue = s.client_queue ++ sockets results in
      ((take_all_clients (length queue) (accept_all results s)).0 ≡ map some queue)
      × ((take_all_clients (length queue) (accept_all results s)).1.client_queue ≡ [])
accept-take results s =
    take_all-queue (s.client_queue ++ sockets results) (accept_all results s)
      (queue-accept_all results s)
