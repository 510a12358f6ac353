-- ===== src/ChatClient/Patience.antt =====
-- What a round of `retryLoop` in LAB6/client.cpp leaves in `pendingMessages`.
pub mod Fate
pub mod Round
pub mod Deadline
use comp_net.Prelude.{
  ℕ, zero, suc, ◌+◌, ◌-◌, ◌*◌, ◌/◌, ◌%◌, ◌^◌, ◌≤◌, ◌<◌, min, String, ◌≡◌, refl, sym, ap, subst, ◌∙◌,
  ◌≢◌, ◌↔◌, ◌⊎◌, inl, inr, Bool, true, false, not, ◌&&◌, ◌||◌, Option, none, some, List, [], ◌∷◌,
  ◌++◌, map, map-append, append-nil, append_assoc, arith, ltb, leb, ◌==◌, if◌then◌else◌, ltb→lt,
  lt→ltb, leb→le, ==_iff, tests, Bool-cases, Option-cases, length, get_or, set, take, drop,
  replicate, is_empty, All, length-append, length-set, length-take, length-drop, length-replicate,
  take-append-drop, take-append_length, drop-append_length, take_all, get_or-append_length,
  take-suc, get_or-drop, All-append, All-map, set-append_length, take-set, drop-get_or,
  drop-append_le, drop-drop,
}
use comp_net.Message.{MessageEx}
use comp_net.SortedMap.{
  Map, find, erase, IsSorted, AllEntries, find-erase, find-erase_other, erase-IsSorted,
}
use comp_net.ChatClient.{ChatClient, PendingMsg, PingState, ack_timeout_ms, max_retries}
use comp_net.ChatClient.Output.{print}
use comp_net.ChatClient.Sending.{now_ms, send_raw_message}
use comp_net.ChatClient.Ping.{find_open, on_ping_timeout}
use comp_net.ChatClient.Retry.{
  Verdict, waits, expires, resends, verdict, bump, touch_ping, Scan, scan_entry, scan, resend,
  resend_loop, pending_ping, abandon, give_up, timeout_loop, retry_round,
}

-- What a scan leaves of an entry.
unfoldable pub rescheduled : ℕ → PendingMsg → PendingMsg
rescheduled current p = elim (verdict current p) [
  | waits ↦ p
  | expires ↦ p
  | resends ↦ bump current p
]

scan_entry-pending :
    (current key : ℕ) (p : PendingMsg) (states : Map PingState) (rest : Map PingState → Scan)
    → (after : Map PendingMsg) → ((states : Map PingState) → (rest states).pending ≡ after)
    → (v : Verdict) → verdict current p ≡ v
    → (scan_entry current key p states rest).pending ≡ (key, rescheduled current p) ∷ after
unfolding scan_entry rescheduled
scan_entry-pending current key p states rest after h waits e =
    rw (e, scan_entry, rescheduled) (ap (λ m. (key, p) ∷ m) (h states))
scan_entry-pending current key p states rest after h expires e =
    rw (e, scan_entry, rescheduled) (ap (λ m. (key, p) ∷ m) (h states))
scan_entry-pending current key p states rest after h resends e =
    rw (e, scan_entry, rescheduled)
      (ap (λ m. (key, bump current p) ∷ m) (h (touch_ping current p states)))

-- A scan reschedules every entry on its own.
scan-pending :
    (current : ℕ) (m : Map PendingMsg) (states : Map PingState)
    → (scan current m states).pending ≡ map (λ e. (e.0, rescheduled current e.1)) m
unfolding scan
scan-pending current [] states = refl
scan-pending current (e ∷ m) states =
    scan_entry-pending current e.0 e.1 states (λ states. scan current m states)
      (map (λ e. (e.0, rescheduled current e.1)) m) (scan-pending current m) (verdict current e.1)
      refl

-- The ids that a scan finds to be given up.
unfoldable pub expired : ℕ → Map PendingMsg → List ℕ
expired current [] = []
expired current (e ∷ m) =
    let rest = expired current m in
    elim (verdict current e.1) [ waits ↦ rest | expires ↦ e.0 ∷ rest | resends ↦ rest ]

scan_entry-to_timeout :
    (current : ℕ) (e : ℕ × PendingMsg) (m : Map PendingMsg) (states : Map PingState)
    (rest : Map PingState → Scan)
    → ((states : Map PingState) → (rest states).to_timeout ≡ expired current m)
    → (v : Verdict) → verdict current e.1 ≡ v
    → (scan_entry current e.0 e.1 states rest).to_timeout ≡ expired current (e ∷ m)
unfolding scan_entry expired
scan_entry-to_timeout current e m states rest h waits v = rw (v, scan_entry, expired) (h states)
scan_entry-to_timeout current e m states rest h expires v =
    rw (v, scan_entry, expired) (ap (λ ids. e.0 ∷ ids) (h states))
scan_entry-to_timeout current e m states rest h resends v =
    rw (v, scan_entry, expired) (h (touch_ping current e.1 states))

scan-to_timeout :
    (current : ℕ) (m : Map PendingMsg) (states : Map PingState)
    → (scan current m states).to_timeout ≡ expired current m
unfolding scan expired
scan-to_timeout current [] states = refl
scan-to_timeout current (e ∷ m) states =
    scan_entry-to_timeout current e m states (λ states. scan current m states)
      (scan-to_timeout current m) (verdict current e.1) refl

-- What giving up does to the map.
unfoldable pub erase_all : List ℕ → Map PendingMsg → Map PendingMsg
erase_all [] m = m
erase_all (id ∷ ids) m = erase_all ids (erase id m)

pending-on_ping_timeout : (id : ℕ) (s : ChatClient) → (on_ping_timeout id s).pending ≡ s.pending
unfolding on_ping_timeout print
pending-on_ping_timeout id s = elim (Option-cases (find_open id s.ping_states)) [
  | inl e ↦ rw (e, on_ping_timeout) refl
  | inr (state, e) ↦ rw (e, on_ping_timeout) refl
]

pending-give_up : (id : ℕ) (s : ChatClient) → (give_up id s).pending ≡ erase id s.pending
unfolding give_up abandon print
pending-give_up id s = elim (Bool-cases (pending_ping id s.pending)) [
  | inl e ↦ rw (e, give_up) (pending-on_ping_timeout id (abandon id s))
  | inr e ↦ rw (e, give_up) refl
]

pending-timeout_loop :
    (ids : List ℕ) (s : ChatClient) → (timeout_loop ids s).pending ≡ erase_all ids s.pending
unfolding timeout_loop erase_all
pending-timeout_loop [] s = refl
pending-timeout_loop (id ∷ ids) s =
    pending-timeout_loop ids (give_up id s) ∙ ap (erase_all ids) (pending-give_up id s)

pending-resend_loop :
    (items : List (MessageEx × ℕ)) (s : ChatClient) → (resend_loop items s).pending ≡ s.pending
unfolding resend_loop resend send_raw_message print
pending-resend_loop [] s = refl
pending-resend_loop (item ∷ items) s = pending-resend_loop items (resend item.0 item.1 s)

-- The map after a round.
retry_round-pending :
    (s : ChatClient)
    → s.running ≡ true
    → let current = (now_ms s).0 in
      (retry_round s).pending
      ≡ erase_all (expired current s.pending) (map (λ e. (e.0, rescheduled current e.1)) s.pending)
unfolding now_ms retry_round
retry_round-pending s on =
    let current = (now_ms s).0 in
    let s1 = (now_ms s).1 in
    let r = scan current s.pending s.ping_states in
    let s2 = record s1 { pending = r.pending; ping_states = r.ping_states } in
    let t = timeout_loop r.to_timeout (resend_loop r.to_resend s2) in
    ap (λ b. (if b then t else s).pending) on
    ∙ pending-timeout_loop r.to_timeout (resend_loop r.to_resend s2)
    ∙ ap (erase_all r.to_timeout) (pending-resend_loop r.to_resend s2)
    ∙ ap (λ ids. erase_all ids r.pending) (scan-to_timeout current s.pending s.ping_states)
    ∙ ap (erase_all (expired current s.pending)) (scan-pending current s.pending s.ping_states)
