-- ===== src/ChatClient/Patience/Deadline.antt =====
-- How many rounds of `retryLoop` in LAB6/client.cpp a message waits for that nobody acknowledges.
use comp_net.Prelude.{
  ℕ, suc, ◌+◌, ◌-◌, ◌≤◌, ◌<◌, ◌≡◌, refl, subst, ◌∙◌, inl, inr, true, none, some, List, [], ◌∷◌,
  arith, ltb, ltb→lt, Bool-cases,
}
use comp_net.SortedMap.{Map, find, erase, IsSorted, erase-IsSorted}
use comp_net.ChatClient.{ChatClient, PendingMsg, ack_timeout_ms, max_retries}
use comp_net.ChatClient.Sending.{now_ms}
use comp_net.ChatClient.Retry.{verdict, bump, retry_round}
use comp_net.ChatClient.Patience.{expired, erase_all, retry_round-pending}
use comp_net.ChatClient.Patience.Fate.{reschedule, reschedule-IsSorted, fate, retry_round-find}

erase_all-IsSorted : (ids : List ℕ) (m : Map PendingMsg) → IsSorted m → IsSorted (erase_all ids m)
unfolding erase_all
erase_all-IsSorted [] m h = h
erase_all-IsSorted (id ∷ ids) m h = erase_all-IsSorted ids (erase id m) (erase-IsSorted id m h)

round-IsSorted :
    (s : ChatClient) → s.running ≡ true → IsSorted s.pending → IsSorted (retry_round s).pending
round-IsSorted s on h = rw (retry_round-pending s on) (
    erase_all-IsSorted (expired (now_ms s).0 s.pending) (reschedule (now_ms s).0 s.pending)
      (reschedule-IsSorted (now_ms s).0 s.pending h))

-- How long ago the message was sent last, when the round reads the clock.
abbrev pub age : ChatClient → PendingMsg → ℕ
age s p = (now_ms s).0 - p.send_time_ms

-- Rounds while the message waits and the client is connected; `n` of them find that the time for its
-- acknowledgement is over.
pub data Rounds (id : ℕ) : ℕ → ChatClient → ChatClient → Type 0 where
  stop : {s : ChatClient} → Rounds id 0 s s
  early :
      {n : ℕ} {s t : ChatClient} (p : PendingMsg)
      → s.running ≡ true
      → find id s.pending ≡ some p
      → age s p < ack_timeout_ms
      → Rounds id n (retry_round s) t
      → Rounds id n s t
  late :
      {n : ℕ} {s t : ChatClient} (p : PendingMsg)
      → s.running ≡ true
      → find id s.pending ≡ some p
      → ack_timeout_ms ≤ age s p
      → Rounds id n (retry_round s) t
      → Rounds id (suc n) s t

-- Where a message is after `n` late rounds, from `retries` on.
pub record IsPatient (id n retries : ℕ) (t : ChatClient) : Type 0 where
  pub bound : n + retries ≤ max_retries + 1
  pub gone : n + retries ≡ max_retries + 1 → find id t.pending ≡ none
  pub there :
      n + retries ≤ max_retries
      → (q : PendingMsg) × (find id t.pending ≡ some q) × (q.retries ≡ n + retries)

fate_early :
    (s : ChatClient) (p : PendingMsg) → age s p < ack_timeout_ms → fate (now_ms s).0 p ≡ some p
unfolding fate verdict
fate_early s p h = ground arith

fate_resends :
    (s : ChatClient) (p : PendingMsg)
    → ack_timeout_ms ≤ age s p
    → p.retries < max_retries
    → fate (now_ms s).0 p ≡ some (bump (now_ms s).0 p)
unfolding fate verdict
fate_resends s p h k = ground arith

fate_expires :
    (s : ChatClient) (p : PendingMsg)
    → ack_timeout_ms ≤ age s p
    → max_retries ≤ p.retries
    → fate (now_ms s).0 p ≡ none
unfolding fate verdict
fate_expires s p h k = ground arith

Rounds-none :
    (id n : ℕ) (s t : ChatClient)
    → find id s.pending ≡ none
    → Rounds id n s t
    → (n ≡ 0) × (find id t.pending ≡ none)
Rounds-none id _ s _ h stop = (refl, h)
Rounds-none id n s t h (early p on found young rest) = ground (arith, h, found)
Rounds-none id _ s t h (late p on found old rest) = ground (arith, h, found)

same_entry :
    (id : ℕ) (p q : PendingMsg) (m : Map PendingMsg)
    → find id m ≡ some p
    → find id m ≡ some q
    → p.retries ≡ q.retries
same_entry id p q m h k = ground (arith, h, k)

bump-retries : (time : ℕ) (p : PendingMsg) → (bump time p).retries ≡ p.retries + 1
unfolding bump
bump-retries time p = refl

-- One late round more, that has sent the message again.
IsPatient-resent :
    (id n retries : ℕ) (t : ChatClient)
    → IsPatient id n (retries + 1) t
    → IsPatient id (suc n) retries t
IsPatient-resent id n retries t h = record {
  bound = omega (arith, h.bound);
  gone = λ e. h.gone (omega (arith, e));
  there =
      λ e. let (q, found, count) = h.there (omega (arith, e)) in (q, found, omega (arith, count));
}

-- The late round that has given the message up is the last one.
IsPatient-expired :
    (id n retries : ℕ) (s t : ChatClient)
    → retries ≡ max_retries
    → find id s.pending ≡ none
    → Rounds id n s t
    → IsPatient id (suc n) retries t
IsPatient-expired id n retries s t full h rest =
    let (over, none_there) = Rounds-none id n s t h rest in
    record {
      bound = omega (arith, over, full);
      gone = λ _. none_there;
      there = λ e. absurd (omega (arith, e, full));
    }

-- A waiting message that nobody acknowledges takes part in late rounds, those that come two seconds
-- or more after it was sent last, until their number and that of its earlier repetitions make four.
-- Then it waits no more; before, it waits, and its count is one higher for each of them. Rounds that
-- come earlier change nothing of this. The map must be in the order of its keys.
pub gives_up :
    (id n : ℕ) (p : PendingMsg) (s t : ChatClient)
    → IsSorted s.pending
    → find id s.pending ≡ some p
    → p.retries ≤ max_retries
    → Rounds id n s t
    → IsPatient id n p.retries t
unfolding bump
gives_up id _ p s _ sorted there few stop = record {
  bound = omega (arith, few);
  gone = λ e. absurd (omega (arith, e, few));
  there = λ _. (p, there, omega arith);
}
gives_up id n p s t sorted there few (early q on found young rest) =
    let same = same_entry id q p s.pending found there in
    let next = retry_round-find id q s on sorted found ∙ fate_early s q young in
    subst (λ retries. IsPatient id n retries t) same
      (gives_up id n q (retry_round s) t (round-IsSorted s on sorted) next
        (omega (arith, few, same)) rest)
gives_up id _ p s t sorted there few (late {n = n} q on found old rest) =
    let same = same_entry id q p s.pending found there in
    let after = round-IsSorted s on sorted in
    let found_after = retry_round-find id q s on sorted found in
    subst (λ retries. IsPatient id (suc n) retries t) same
      (elim (Bool-cases (ltb q.retries max_retries)) [
        | inl more ↦
            let again = bump (now_ms s).0 q in
            let left = ltb→lt q.retries max_retries more in
            IsPatient-resent id n q.retries t (
              gives_up id n again (retry_round s) t after (found_after ∙ fate_resends s q old left)
                (omega (arith, left, bump-retries (now_ms s).0 q)) rest)
        | inr full ↦
            let all : q.retries ≡ max_retries = ground (arith, few, same) in
            IsPatient-expired id n q.retries (retry_round s) t all
              (found_after ∙ fate_expires s q old (omega (arith, all))) rest
      ])
