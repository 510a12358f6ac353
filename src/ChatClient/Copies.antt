-- ===== src/ChatClient/Copies.antt =====
-- How often LAB6/client.cpp sends a message that must be acknowledged.
pub mod Events
use comp_net.Prelude.{
  ℕ, suc, ◌+◌, ◌-◌, ◌≤◌, ◌<◌, ◌≡◌, refl, ap, ◌∙◌, inl, inr, Bool, false, List, [], ◌∷◌, ◌++◌, arith,
  ◌==◌, if◌then◌else◌, Option-cases,
}
use comp_net.Message.{MessageEx}
use comp_net.SortedMap.{Map, find, insert, erase}
use comp_net.ChatClient.{ChatClient, PendingMsg, PingState, Sent, max_retries}
use comp_net.ChatClient.Output.{print, print_chat_message}
use comp_net.ChatClient.Sending.{
  now_ms, send_raw_message, send_reliable_message, announce, first_pending, register,
}
use comp_net.ChatClient.Ping.{on_ping_success, on_ping_timeout, handle_ack, find_open}
use comp_net.ChatClient.Receive.{receive}
use comp_net.ChatClient.Retry.{
  Verdict, waits, expires, resends, verdict, bump, touch_ping, Scan, scan_entry, scan, resend,
  resend_loop, abandon, give_up, timeout_loop, retry_round,
}

-- How often a message with the id has been sent.
unfoldable pub copies : ℕ → List Sent → ℕ
copies id [] = 0
copies id (sent ∷ outbox) =
    let rest = copies id outbox in if sent.msg.msg_id == id then suc rest else rest

-- How often the entries for the id may still be sent again.
unfoldable pub budget : ℕ → Map PendingMsg → ℕ
budget id [] = 0
budget id (e ∷ m) =
    let rest = budget id m in
    if e.1.msg.msg_id == id then (max_retries - e.1.retries) + rest else rest

-- The messages with the id among those to be sent again.
unfoldable pub requests : ℕ → List (MessageEx × ℕ) → ℕ
requests id [] = 0
requests id (item ∷ items) =
    let rest = requests id items in if item.0.msg_id == id then suc rest else rest

copies-append : (id : ℕ) (xs ys : List Sent) → copies id (xs ++ ys) ≡ copies id xs + copies id ys
unfolding copies
copies-append id [] ys = omega arith
copies-append id (x ∷ xs) ys = ground (arith, copies-append id xs ys)

-- What a scan requests, and what is left of the budget.
abbrev cost : ℕ → Scan → ℕ
cost id r = requests id r.to_resend + budget id r.pending

abbrev own : ℕ → PendingMsg → ℕ
own id p = if p.msg.msg_id == id then max_retries - p.retries else 0

resends-retries :
    (current : ℕ) (p : PendingMsg) → verdict current p ≡ resends → p.retries < max_retries
unfolding verdict
resends-retries current p h = ground arith

scan_entry-budget :
    (id current key : ℕ) (p : PendingMsg) (states : Map PingState) (rest : Map PingState → Scan)
    (n : ℕ)
    → ((states : Map PingState) → cost id (rest states) ≤ n)
    → (v : Verdict) → verdict current p ≡ v
    → cost id (scan_entry current key p states rest) ≤ own id p + n
unfolding scan_entry requests budget bump
scan_entry-budget id current key p states rest n h waits e =
    rw (e, scan_entry) (ground (arith, h states))
scan_entry-budget id current key p states rest n h expires e =
    rw (e, scan_entry) (ground (arith, h states))
scan_entry-budget id current key p states rest n h resends e =
    rw (e, scan_entry)
      (ground (arith, h (touch_ping current p states), resends-retries current p e))

-- What a scan requests is paid for by the budget.
scan-budget :
    (id current : ℕ) (m : Map PendingMsg) (states : Map PingState)
    → cost id (scan current m states) ≤ budget id m
unfolding scan requests budget
scan-budget id current [] states = omega arith
scan-budget id current (e ∷ m) states = ground (
  arith,
  scan_entry-budget id current e.0 e.1 states (λ states. scan current m states) (budget id m)
      (scan-budget id current m) (verdict current e.1) refl,
)

-- Sending once more.
copies-send_raw_message :
    (id : ℕ) (msg : MessageEx) (s : ChatClient)
    → copies id (send_raw_message msg s).1.outbox
      ≡ copies id s.outbox + (if msg.msg_id == id then 1 else 0)
unfolding send_raw_message copies
copies-send_raw_message id msg s = copies-append id s.outbox _

copies-resend :
    (id retry_no : ℕ) (msg : MessageEx) (s : ChatClient)
    → copies id (resend msg retry_no s).outbox
      ≡ copies id s.outbox + (if msg.msg_id == id then 1 else 0)
unfolding resend print
copies-resend id retry_no msg s = copies-send_raw_message id msg (print _ s)

pending-resend :
    (retry_no : ℕ) (msg : MessageEx) (s : ChatClient) → (resend msg retry_no s).pending ≡ s.pending
unfolding resend print send_raw_message
pending-resend retry_no msg s = refl

pending-resend_loop :
    (items : List (MessageEx × ℕ)) (s : ChatClient) → (resend_loop items s).pending ≡ s.pending
unfolding resend_loop
pending-resend_loop [] s = refl
pending-resend_loop (item ∷ items) s =
    pending-resend_loop items (resend item.0 item.1 s) ∙ pending-resend item.1 item.0 s

copies-resend_loop :
    (id : ℕ) (items : List (MessageEx × ℕ)) (s : ChatClient)
    → copies id (resend_loop items s).outbox ≡ copies id s.outbox + requests id items
unfolding resend_loop requests
copies-resend_loop id [] s = omega arith
copies-resend_loop id (item ∷ items) s =
    ground (
      arith,
      copies-resend_loop id items (resend item.0 item.1 s),
      copies-resend id item.1 item.0 s,
    )

budget-erase : (id key : ℕ) (m : Map PendingMsg) → budget id (erase key m) ≤ budget id m
unfolding budget erase
budget-erase id key [] = omega arith
budget-erase id key (e ∷ m) = ground (arith, budget-erase id key m)

budget-insert :
    (id key : ℕ) (p : PendingMsg) (m : Map PendingMsg)
    → budget id (insert key p m) ≤ own id p + budget id m
unfolding budget insert
budget-insert id key p [] = ground arith
budget-insert id key p (e ∷ m) = ground (arith, budget-insert id key p m)

-- What may still be sent of a message, in all.
abbrev pub total : ℕ → ChatClient → ℕ
total id s = copies id s.outbox + budget id s.pending

on_ping_timeout-total :
    (id key : ℕ) (s : ChatClient) → total id (on_ping_timeout key s) ≡ total id s
unfolding on_ping_timeout print
on_ping_timeout-total id key s = elim (Option-cases (find_open key s.ping_states)) [
  | inl e ↦ rw (e, on_ping_timeout) refl
  | inr (state, e) ↦ rw (e, on_ping_timeout) refl
]

on_ping_success-total :
    (id key : ℕ) (s : ChatClient) → total id (on_ping_success key s) ≡ total id s
unfolding on_ping_success print now_ms
on_ping_success-total id key s = elim (Option-cases (find_open key s.ping_states)) [
  | inl e ↦ rw (e, on_ping_success) refl
  | inr (state, e) ↦ rw (e, on_ping_success) refl
]

handle_ack-total : (id key : ℕ) (s : ChatClient) → total id (handle_ack key s) ≤ total id s
unfolding handle_ack print
handle_ack-total id key s = elim (Option-cases (find key s.pending)) [
  | inl e ↦ rw (e, handle_ack) (omega arith)
  | inr (p, e) ↦ rw (e, handle_ack) (omega (arith, budget-erase id key s.pending))
]

receive-total : (id : ℕ) (msg : MessageEx) (s : ChatClient) → total id (receive msg s) ≤ total id s
unfolding receive print print_chat_message
receive-total id msg s = ground (
  arith,
  handle_ack-total id msg.msg_id s,
  on_ping_success-total id msg.msg_id (handle_ack msg.msg_id s),
)

abandon-total : (id key : ℕ) (s : ChatClient) → total id (abandon key s) ≤ total id s
unfolding abandon print
abandon-total id key s = omega (arith, budget-erase id key s.pending)

give_up-total : (id key : ℕ) (s : ChatClient) → total id (give_up key s) ≤ total id s
unfolding give_up
give_up-total id key s =
    ground (arith, abandon-total id key s, on_ping_timeout-total id key (abandon key s))

timeout_loop-total :
    (id : ℕ) (ids : List ℕ) (s : ChatClient) → total id (timeout_loop ids s) ≤ total id s
unfolding timeout_loop
timeout_loop-total id [] s = omega arith
timeout_loop-total id (key ∷ ids) s =
    omega (arith, give_up-total id key s, timeout_loop-total id ids (give_up key s))

-- The scan, with its results written to the maps.
abbrev scanned : Scan → ChatClient → ChatClient
scanned r s = record s { pending = r.pending; ping_states = r.ping_states }

retry_round-total : (id : ℕ) (s : ChatClient) → total id (retry_round s) ≤ total id s
unfolding retry_round now_ms
retry_round-total id s =
    let s1 = (now_ms s).1 in
    let r = scan (now_ms s).0 s1.pending s1.ping_states in
    let s2 = scanned r s1 in
    ground (
      arith,
      timeout_loop-total id r.to_timeout (resend_loop r.to_resend s2),
      copies-resend_loop id r.to_resend s2,
      ap (budget id) (pending-resend_loop r.to_resend s2),
      scan-budget id (now_ms s).0 s1.pending s1.ping_states,
    )

register-total :
    (id : ℕ) (msg : MessageEx) (is_ping : Bool) (time : ℕ) (s : ChatClient)
    → total id (register msg is_ping time s)
      ≤ total id s + (if msg.msg_id == id then max_retries else 0)
unfolding register first_pending
register-total id msg is_ping time s =
    omega (arith, budget-insert id msg.msg_id (first_pending msg is_ping time) s.pending)

total-announce :
    (id : ℕ) (msg : MessageEx) (s : ChatClient) → total id (announce msg s) ≡ total id s
unfolding announce print
total-announce id msg s = refl

total-send_raw_message :
    (id : ℕ) (msg : MessageEx) (s : ChatClient)
    → total id (send_raw_message msg s).1 ≡ total id s + (if msg.msg_id == id then 1 else 0)
unfolding send_raw_message copies
total-send_raw_message id msg s =
    omega (
      arith,
      copies-append id s.outbox (record { msg = msg; ok = (send_raw_message msg s).0 } ∷ []),
    )

total-now_ms : (id : ℕ) (s : ChatClient) → total id (now_ms s).1 ≡ total id s
unfolding now_ms
total-now_ms id s = refl

-- Sending reliably adds one copy and three more to come, for the id of the message only.
send_reliable-total :
    (id : ℕ) (msg : MessageEx) (is_ping : Bool) (s : ChatClient)
    → total id (send_reliable_message msg is_ping s).1
      ≤ total id s + (if msg.msg_id == id then 1 + max_retries else 0)
unfolding send_reliable_message
send_reliable-total id msg is_ping s =
    let r = send_raw_message msg (announce msg s) in
    let (time, s2) = now_ms r.1 in
    ground (
      arith,
      total-announce id msg s,
      total-send_raw_message id msg (announce msg s),
      total-now_ms id r.1,
      register-total id msg is_ping time s2,
    )
