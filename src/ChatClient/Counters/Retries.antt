-- ===== src/ChatClient/Counters/Retries.antt =====
-- The retry thread of LAB6/client.cpp and the counters of the pings.
use comp_net.Prelude.{ℕ, ◌≡◌, refl, inl, inr, List, [], ◌∷◌, Bool-cases}
use comp_net.Message.{MessageEx}
use comp_net.SortedMap.{Map}
use comp_net.ChatClient.{ChatClient, PendingMsg, PingState, Diag}
use comp_net.ChatClient.Output.{print}
use comp_net.ChatClient.Sending.{now_ms, send_raw_message}
use comp_net.ChatClient.Retry.{
  Verdict, waits, expires, resends, verdict, touch_ping, pending_ping, Scan, scan_entry, scan,
  resend, resend_loop, abandon, give_up, timeout_loop, retry_round,
}
use comp_net.ChatClient.Counters.{
  Counts, IsCounted, touch-Counts, on_ping_timeout-IsCounted, if_keeps,
}

touch_ping-Counts :
    (current : ℕ) (p : PendingMsg) (states : Map PingState) (d : Diag)
    → Counts states d
    → Counts (touch_ping current p states) d
unfolding touch_ping
touch_ping-Counts current p states d c = elim (Bool-cases p.is_ping) [
  | inl e ↦ rw (e, touch_ping) (touch-Counts p.msg.msg_id current states d c)
  | inr e ↦ rw (e, touch_ping) c
]

scan_entry-Counts :
    (current key : ℕ) (p : PendingMsg) (states : Map PingState) (rest : Map PingState → Scan)
    (d : Diag)
    → ((states : Map PingState) → Counts states d → Counts (rest states).ping_states d)
    → Counts states d
    → (v : Verdict) → verdict current p ≡ v
    → Counts (scan_entry current key p states rest).ping_states d
unfolding scan_entry
scan_entry-Counts current key p states rest d h c waits e = rw (e, scan_entry) (h states c)
scan_entry-Counts current key p states rest d h c expires e = rw (e, scan_entry) (h states c)
scan_entry-Counts current key p states rest d h c resends e =
    rw (e, scan_entry) (h (touch_ping current p states) (touch_ping-Counts current p states d c))

scan-Counts :
    (current : ℕ) (m : Map PendingMsg) (states : Map PingState) (d : Diag)
    → Counts states d
    → Counts (scan current m states).ping_states d
unfolding scan
scan-Counts current [] states d c = c
scan-Counts current (e ∷ m) states d c =
    scan_entry-Counts current e.0 e.1 states (λ states. scan current m states) d
      (λ states c. scan-Counts current m states d c) c (verdict current e.1) refl

resend_loop-IsCounted :
    (items : List (MessageEx × ℕ)) (s : ChatClient) → IsCounted s → IsCounted (resend_loop items s)
unfolding resend_loop resend send_raw_message print
resend_loop-IsCounted [] s c = c
resend_loop-IsCounted (item ∷ items) s c = resend_loop-IsCounted items (resend item.0 item.1 s) c

abandon-IsCounted : (key : ℕ) (s : ChatClient) → IsCounted s → IsCounted (abandon key s)
unfolding abandon print
abandon-IsCounted key s c = c

timeout_loop-IsCounted :
    (ids : List ℕ) (s : ChatClient) → IsCounted s → IsCounted (timeout_loop ids s)
unfolding timeout_loop give_up
timeout_loop-IsCounted [] s c = c
timeout_loop-IsCounted (key ∷ ids) s c = timeout_loop-IsCounted ids (give_up key s) (
    if_keeps IsCounted (pending_ping key s.pending)
      (on_ping_timeout-IsCounted key (abandon key s) (abandon-IsCounted key s c))
      (abandon-IsCounted key s c))

scanned-IsCounted :
    (current : ℕ) (s : ChatClient)
    → IsCounted s
    → let r = scan current s.pending s.ping_states in
      IsCounted (record s { pending = r.pending; ping_states = r.ping_states })
scanned-IsCounted current s c = scan-Counts current s.pending s.ping_states s.diag c

-- A round of the retry thread keeps the counters right.
pub retry_round-IsCounted : (s : ChatClient) → IsCounted s → IsCounted (retry_round s)
unfolding retry_round now_ms
retry_round-IsCounted s c =
    let s1 = (now_ms s).1 in
    let r = scan (now_ms s).0 s1.pending s1.ping_states in
    let s2 = record s1 { pending = r.pending; ping_states = r.ping_states } in
    if_keeps IsCounted s.running
      (timeout_loop-IsCounted r.to_timeout (resend_loop r.to_resend s2)
        (resend_loop-IsCounted r.to_resend s2 (scanned-IsCounted (now_ms s).0 s1 c)))
      c
