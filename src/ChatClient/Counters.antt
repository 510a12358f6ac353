-- ===== src/ChatClient/Counters.antt =====
-- The counters of the pings of LAB6/client.cpp agree with the states of the pings.
mod Retries
pub mod Series
pub mod Lasting
use comp_net.Prelude.{
  ℕ, zero, suc, ◌+◌, ◌-◌, ◌*◌, ◌/◌, ◌%◌, ◌^◌, ◌≤◌, ◌<◌, min, String, ◌≡◌, refl, sym, ap, subst, ◌∙◌,
  ◌≢◌, ◌↔◌, ◌⊎◌, inl, inr, Bool, true, false, not, ◌&&◌, ◌||◌, Option, none, some, List, [], ◌∷◌,
  ◌++◌, map, map-append, append-nil, append_assoc, arith, ltb, leb, ◌==◌, if◌then◌else◌, ltb→lt,
  lt→ltb, leb→le, ==_iff, tests, Bool-cases, Option-cases, length, get_or, set, take, drop,
  replicate, is_empty, All, length-append, length-set, length-take, length-drop, length-replicate,
  take-append-drop, take-append_length, drop-append_length, take_all, get_or-append_length,
  take-suc, get_or-drop, All-append, All-map, set-append_length, take-set, drop-get_or,
  drop-append_le, drop-drop,
}
use comp_net.Text.Number.{ℤ, pos, negsuc}
use comp_net.Message.{MessageEx}
use comp_net.SortedMap.{
  Map, find, insert, erase, adjust, AllEntries, adjust-AllEntries, insert-AllEntries, adjust-none,
  adjust_found-AllEntries, length-adjust, length-insert, find_fresh,
}
use comp_net.ChatClient.{
  ChatClient, PendingMsg, PingState, Diag, difference, distance, is_nonnegative,
}
use comp_net.ChatClient.Output.{print, print_chat_message}
use comp_net.ChatClient.Sending.{
  now_ms, make_message, send_raw_message, send_reliable_message, announce, register, touch,
}
use comp_net.ChatClient.Ping.{
  is_open, find_open, complete, count_success, on_ping_success, expire, count_loss, on_ping_timeout,
  handle_ack, series_diag, first_state, send_ping, ping_loop, start_ping_series,
}
use comp_net.ChatClient.Receive.{receive}
use comp_net.ChatClient.Retry.{
  Verdict, waits, expires, resends, verdict, touch_ping, pending_ping, Scan, scan_entry, scan,
  resend, resend_loop, abandon, give_up, timeout_loop, retry_round,
}

-- How many pings have a property.
unfoldable pub tally : (PingState → Bool) → Map PingState → ℕ
tally f [] = 0
tally f (e ∷ m) = let rest = tally f m in if f e.1 then suc rest else rest

abbrev one_if : Bool → ℕ
one_if b = if b then 1 else 0

tally-adjust :
    (f : PingState → Bool) (key : ℕ) (g : PingState → PingState) (state : PingState)
    (m : Map PingState)
    → find key m ≡ some state
    → tally f (adjust key g m) + one_if (f state) ≡ tally f m + one_if (f (g state))
unfolding tally adjust find
tally-adjust f key g state [] h = ground arith
tally-adjust f key g state (e ∷ m) h = elim (Bool-cases (e.0 == key)) [
  | inl same ↦ let value : e.1 ≡ state = ground arith in rw (same, value) (ground arith)
  | inr other ↦
      let h' : find key m ≡ some state = ground arith in
      rw other (ground (arith, tally-adjust f key g state m h'))
]

tally-adjust_same :
    (f : PingState → Bool) (key : ℕ) (g : PingState → PingState) (m : Map PingState)
    → ((state : PingState) → f (g state) ≡ f state)
    → tally f (adjust key g m) ≡ tally f m
unfolding tally adjust
tally-adjust_same f key g [] h = refl
tally-adjust_same f key g (e ∷ m) h = ground (arith, h e.1, tally-adjust_same f key g m h)

find_open-some :
    (key : ℕ) (state : PingState) (m : Map PingState)
    → find_open key m ≡ some state
    → (find key m ≡ some state) × (state.completed ≡ false) × (state.timed_out ≡ false)
unfolding find_open is_open
find_open-some key state m h = elim (Option-cases (find key m)) [
  | inl e ↦ ground (arith, e)
  | inr (st, e) ↦ ground (arith, e)
]

if_keeps {κ} :
    {x y : ChatClient} (P : ChatClient → Type κ) (b : Bool) → P x → P y → P (if b then x else y)
if_keeps P true px py = px
if_keeps P false px py = py

-- A ping is not both answered and given up.
abbrev IsDecided : ℕ → PingState → Type 0
IsDecided key state = (state.completed && state.timed_out) ≡ false

-- The counters count the pings that were answered and those that were given up; each round trip is
-- kept, and there is a jitter for each at most. No more pings are known than were requested.
pub record Counts (states : Map PingState) (d : Diag) : Type 0 where
  pub received : d.received ≡ tally (λ p. p.completed) states
  pub lost : d.lost ≡ tally (λ p. p.timed_out) states
  pub rtts : length d.rtts ≡ d.received
  pub jitters : length d.jitters ≤ d.received
  pub decided : AllEntries IsDecided states
  pub short : length states ≤ d.requested

abbrev pub IsCounted : ChatClient → Type 0
IsCounted s = Counts s.ping_states s.diag

complete-Counts :
    (key current : ℕ) (state : PingState) (rtt : ℤ) (states : Map PingState) (d : Diag)
    → find_open key states ≡ some state
    → Counts states d
    → Counts (adjust key (complete current) states) (count_success rtt d)
unfolding complete count_success
complete-Counts key current state rtt states d found c =
    let (there, fresh, waiting) = find_open-some key state states found in
    record {
      received = ground (
        arith,
        fresh,
        c.received,
        tally-adjust (λ p. p.completed) key (complete current) state states there,
      );
      lost =
          c.lost
          ∙ sym (tally-adjust_same (λ p. p.timed_out) key (complete current) states (λ _. refl));
      rtts = ground (arith, c.rtts, length-append d.rtts (rtt ∷ []));
      jitters =
          ground
            (arith, c.jitters, length-append d.jitters (distance rtt d.last_successful_rtt ∷ []));
      decided =
          adjust_found-AllEntries IsDecided key (complete current) state states there (λ _. waiting)
            c.decided;
      short = omega (arith, c.short, length-adjust key (complete current) states);
    }

expire-Counts :
    (key : ℕ) (state : PingState) (states : Map PingState) (d : Diag)
    → find_open key states ≡ some state
    → Counts states d
    → Counts (adjust key expire states) (count_loss d)
unfolding expire count_loss
expire-Counts key state states d found c =
    let (there, fresh, waiting) = find_open-some key state states found in
    record {
      received =
          c.received ∙ sym (tally-adjust_same (λ p. p.completed) key expire states (λ _. refl));
      lost =
          ground
            (arith, waiting, c.lost, tally-adjust (λ p. p.timed_out) key expire state states there);
      rtts = c.rtts;
      jitters = c.jitters;
      decided =
          adjust_found-AllEntries IsDecided key expire state states there (λ _. rw fresh refl)
            c.decided;
      short = omega (arith, c.short, length-adjust key expire states);
    }

on_ping_success-IsCounted :
    (key : ℕ) (s : ChatClient) → IsCounted s → IsCounted (on_ping_success key s)
unfolding on_ping_success print now_ms
on_ping_success-IsCounted key s c = elim (Option-cases (find_open key s.ping_states)) [
  | inl e ↦ rw (e, on_ping_success) c
  | inr (state, e) ↦
      rw (e, on_ping_success)
        (complete-Counts key (now_ms s).0 state (difference (now_ms s).0 state.last_send_ms)
          s.ping_states s.diag e c)
]

on_ping_timeout-IsCounted :
    (key : ℕ) (s : ChatClient) → IsCounted s → IsCounted (on_ping_timeout key s)
unfolding on_ping_timeout print
on_ping_timeout-IsCounted key s c = elim (Option-cases (find_open key s.ping_states)) [
  | inl e ↦ rw (e, on_ping_timeout) c
  | inr (state, e) ↦ rw (e, on_ping_timeout) (expire-Counts key state s.ping_states s.diag e c)
]

handle_ack-IsCounted : (key : ℕ) (s : ChatClient) → IsCounted s → IsCounted (handle_ack key s)
unfolding handle_ack print
handle_ack-IsCounted key s c = elim (Option-cases (find key s.pending)) [
  | inl e ↦ rw (e, handle_ack) c
  | inr (p, e) ↦ rw (e, handle_ack) c
]

-- A new time of sending changes no count.
touch-Counts :
    (key time : ℕ) (states : Map PingState) (d : Diag)
    → Counts states d
    → Counts (adjust key (touch time) states) d
unfolding touch
touch-Counts key time states d c = record {
  received =
      c.received ∙ sym (tally-adjust_same (λ p. p.completed) key (touch time) states (λ _. refl));
  lost = c.lost ∙ sym (tally-adjust_same (λ p. p.timed_out) key (touch time) states (λ _. refl));
  rtts = c.rtts;
  jitters = c.jitters;
  decided = adjust-AllEntries IsDecided key (touch time) states (λ _ _ h. h) c.decided;
  short = omega (arith, c.short, length-adjust key (touch time) states);
}
