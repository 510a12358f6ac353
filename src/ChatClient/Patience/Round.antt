-- ===== src/ChatClient/Patience/Round.antt =====
-- What one round of `retryLoop` in LAB6/client.cpp does to the messages that wait, and what it sends.
use comp_net.Prelude.{
  ℕ, ◌+◌, ◌-◌, ◌≡◌, refl, sym, ap, ◌∙◌, Bool, true, false, ◌&&◌, Option, none, some, List, [], ◌∷◌,
  ◌++◌, map, map-append, append-nil, append_assoc, arith, ltb, leb, if◌then◌else◌,
}
use comp_net.Message.{MessageEx}
use comp_net.SortedMap.{Map, find, IsSorted}
use comp_net.ChatClient.{ChatClient, PendingMsg, PingState, Sent}
use comp_net.ChatClient.Output.{print}
use comp_net.ChatClient.Sending.{now_ms, send_raw_message}
use comp_net.ChatClient.Ping.{on_ping_timeout}
use comp_net.ChatClient.Retry.{
  Verdict, waits, expires, resends, verdict, bump, touch_ping, Scan, scan_entry, scan, resend,
  resend_loop, abandon, give_up, timeout_loop, retry_round,
}
use comp_net.ChatClient.Patience.Fate.{fate, retry_round-find}

-- The message was sent two seconds ago or earlier.
abbrev pub is_late : ℕ → PendingMsg → Bool
is_late current p = leb 2000 (current - p.send_time_ms)

-- What is to become of a message: it waits on as it is, it waits with its count one higher and its
-- time set to now, or it is given up.
abbrev pub decision : ℕ → PendingMsg → Option PendingMsg
decision current p =
    if is_late current p
    then if ltb p.retries 3
      then some (record p { retries = p.retries + 1; send_time_ms = current })
      else none
    else some p

-- The messages that are to be sent again.
abbrev pub due : ℕ → Map PendingMsg → List MessageEx
due current [] = []
due current (e ∷ m) =
    let rest = due current m in
    if is_late current e.1 && ltb e.1.retries 3 then e.1.msg ∷ rest else rest

abbrev pub messages : List Sent → List MessageEx
messages = map (λ sent. sent.msg)

fate-decision : (current : ℕ) (p : PendingMsg) → fate current p ≡ decision current p
unfolding fate verdict bump
fate-decision current p = ground arith

abbrev requested : Scan → List MessageEx
requested r = map (λ item. item.0) r.to_resend

scan_entry-due :
    (current : ℕ) (e : ℕ × PendingMsg) (m : Map PendingMsg) (states : Map PingState)
    (rest : Map PingState → Scan)
    → ((states : Map PingState) → requested (rest states) ≡ due current m)
    → (v : Verdict) → verdict current e.1 ≡ v
    → requested (scan_entry current e.0 e.1 states rest) ≡ due current (e ∷ m)
unfolding scan_entry verdict
scan_entry-due current e m states rest h waits v =
    let not_due : (is_late current e.1 && ltb e.1.retries 3) ≡ false = ground arith in
    rw (v, scan_entry, not_due) (h states)
scan_entry-due current e m states rest h expires v =
    let not_due : (is_late current e.1 && ltb e.1.retries 3) ≡ false = ground arith in
    rw (v, scan_entry, not_due) (h states)
scan_entry-due current e m states rest h resends v =
    let is_due : (is_late current e.1 && ltb e.1.retries 3) ≡ true = ground arith in
    rw (v, scan_entry, is_due) (ap (◌∷◌ e.1.msg) (h (touch_ping current e.1 states)))

scan-due :
    (current : ℕ) (m : Map PendingMsg) (states : Map PingState)
    → requested (scan current m states) ≡ due current m
unfolding scan
scan-due current [] states = refl
scan-due current (e ∷ m) states =
    scan_entry-due current e m states (λ states. scan current m states) (scan-due current m)
      (verdict current e.1) refl

messages-resend :
    (msg : MessageEx) (retry_no : ℕ) (s : ChatClient)
    → messages (resend msg retry_no s).outbox ≡ messages s.outbox ++ msg ∷ []
unfolding resend send_raw_message print
messages-resend msg retry_no s = map-append _ s.outbox _

messages-resend_loop :
    (items : List (MessageEx × ℕ)) (s : ChatClient)
    → messages (resend_loop items s).outbox ≡ messages s.outbox ++ map (λ item. item.0) items
unfolding resend_loop
messages-resend_loop [] s = sym (append-nil _)
messages-resend_loop (item ∷ items) s =
    messages-resend_loop items (resend item.0 item.1 s)
    ∙ ap (λ sent. sent ++ map (λ item. item.0) items) (messages-resend item.0 item.1 s)
    ∙ append_assoc (messages s.outbox) (item.0 ∷ []) _

outbox-give_up : (msg_id : ℕ) (s : ChatClient) → (give_up msg_id s).outbox ≡ s.outbox
unfolding give_up abandon print on_ping_timeout
outbox-give_up msg_id s = ground arith

outbox-timeout_loop : (ids : List ℕ) (s : ChatClient) → (timeout_loop ids s).outbox ≡ s.outbox
unfolding timeout_loop
outbox-timeout_loop [] s = refl
outbox-timeout_loop (msg_id ∷ ids) s =
    outbox-timeout_loop ids (give_up msg_id s) ∙ outbox-give_up msg_id s

messages-retry_round :
    (s : ChatClient)
    → s.running ≡ true
    → messages (retry_round s).outbox ≡ messages s.outbox ++ due (now_ms s).0 s.pending
unfolding retry_round now_ms
messages-retry_round s on =
    let current = s.os.now_ms s.calls in
    let s1 = (now_ms s).1 in
    let r = scan current s1.pending s1.ping_states in
    let s2 = record s1 { pending = r.pending; ping_states = r.ping_states } in
    let end = timeout_loop r.to_timeout (resend_loop r.to_resend s2) in
    ap (λ (running : Bool). messages (if running then end else s).outbox) on
    ∙ ap messages (outbox-timeout_loop r.to_timeout (resend_loop r.to_resend s2))
    ∙ messages-resend_loop r.to_resend s2
    ∙ ap (λ more. messages s.outbox ++ more) (scan-due current s.pending s.ping_states)

-- A round of the retry thread decides on each waiting message by its own age and count. One that was
-- sent less than two seconds ago waits on as it is. An older one that was sent again less than three
-- times waits with its count one higher and its time set to now, and any other older one is given
-- up. What the round sends is exactly the messages that wait with a higher count, once each, in the
-- order of their ids. The client must be connected, and the map be in the order of its keys.
pub retry_round-decision :
    (id : ℕ) (p : PendingMsg) (s : ChatClient)
    → s.running ≡ true
    → IsSorted s.pending
    → find id s.pending ≡ some p
    → (find id (retry_round s).pending ≡ decision (now_ms s).0 p)
      × (messages (retry_round s).outbox ≡ messages s.outbox ++ due (now_ms s).0 s.pending)
retry_round-decision id p s on sorted h =
    (retry_round-find id p s on sorted h ∙ fate-decision _ p, messages-retry_round s on)
