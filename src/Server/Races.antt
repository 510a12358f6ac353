-- ===== src/Server/Races.antt =====
-- Two threads of LAB6/server.cpp between whose critical sections another one comes.
use comp_net.Prelude.{
  ℕ, ◌+◌, ◌≡◌, refl, ◌≢◌, true, false, none, List, [], ◌∷◌, ◌++◌, append_assoc, arith, ◌==◌,
}
use comp_net.Text.{Text}
use comp_net.Server.{Server, Client, OfflineMsg, Sent}
use comp_net.Server.Registry.{new_client, add_client}
use comp_net.Server.Offline.{for_delivery, keep_queue, write_back}
use comp_net.Server.Users.Connection.{accepted_nickname, stored_nickname}
use comp_net.Text.CString.{c_str, IsCString}
use comp_net.Server.Session.{nickname_error, admit}
use comp_net.Server.Steps.{push_offline}
use comp_net.Server.Delivery.{undelivered, delivered, queue-perm, sent-perm}
use mathlib.Core.Logic.Or
use mathlib.Core.HLevel.{⊥_prop}
use mathlib.Core.List.{Mem, mem-append, mem-append_left, mem-append_right}
use mathlib.Core.List.Perm

-- A client object that was admitted under a nickname.
pub record IsAdmittedAs (nickname : Text) (sock : ℕ) (client : Client) : Type 0 where
  pub named : c_str client.nickname ≡ nickname
  pub authenticated : client.authenticated ≡ true
  pub socket : client.sock ≡ sock

-- The test of a nickname and the entry into the registry are two critical sections. If two threads
-- both find no fault with the same nickname, one without NUL, before either enters it, both clients
-- are admitted: the registry ends with two different clients, one for each socket, and both are
-- authenticated and have that nickname.
pub admit_twice :
    (sock sock' : ℕ) (nickname : Text) (s : Server)
    → nickname_error nickname s ≡ none
    → IsCString nickname
    → let (ref, s1) = admit sock nickname s in
      let (ref', s2) = admit sock' nickname s1 in
      (s2.clients ≡ s.clients ++ ref ∷ ref' ∷ [])
      × (ref ≢ ref')
      × IsAdmittedAs nickname sock (s2.heap ref)
      × IsAdmittedAs nickname sock' (s2.heap ref')
unfolding admit new_client add_client
admit_twice sock sock' nickname s e whole =
    let n = s.next_ref in
    let stored = stored_nickname nickname whole (accepted_nickname nickname s e).1 in
    let first : (n == n) ≡ true = ground arith in
    let second : (n + 1 == n + 1) ≡ true = ground arith in
    let apart : (n == n + 1) ≡ false = ground arith in
    (
      append_assoc s.clients (n ∷ []) ((n + 1) ∷ []),
      λ same. omega (arith, same),
      rw (apart, first) (record { named = stored; authenticated = refl; socket = refl }),
      rw second (record { named = stored; authenticated = refl; socket = refl }),
    )

-- `deliverOfflineMessages` reads the queue in one critical section and writes it back in another. A
-- message that a thread stores between the two is lost, whatever was delivered: it is neither in the
-- queue afterwards nor was it one of those that were read.
pub stored_meanwhile :
    (client : Client) (s s1 : Server) (sent : List Sent) (item : OfflineMsg)
    → ¬ Mem item s.offline_queue
    → ¬ Mem item
        (write_back
          (keep_queue client s.offline_queue)
          (undelivered (for_delivery client s.offline_queue) sent)
          (push_offline item s1)).offline_queue
unfolding write_back
stored_meanwhile client s s1 sent item fresh m =
    let items = for_delivery client s.offline_queue in
    let kept = keep_queue client s.offline_queue in
    let whole = Perm.symm (queue-perm client s.offline_queue) in
    let from_items =
      λ (h : Mem item items). fresh (Perm.subset whole item (mem-append_left kept h)) in
    Or.elim ⊥_prop (mem-append.0 m) (λ h. fresh (Perm.subset whole item (mem-append_right items h)))
      (λ h. from_items (
        Perm.subset (Perm.symm (sent-perm items sent)) item
          (mem-append_right (delivered items sent) h)))
