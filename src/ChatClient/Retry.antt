-- ===== src/ChatClient/Retry.antt =====
-- A round of `retryLoop` in LAB6/client.cpp: the scan of `pendingMessages`, the messages that are
-- sent again, and those that are given up. The sleeps are left out.
use comp_net.Prelude.{
  ℕ, ◌+◌, ◌-◌, Bool, false, none, some, List, [], ◌∷◌, ◌++◌, ltb, leb, if◌then◌else◌,
}
use comp_net.Text.{codes}
use comp_net.Text.Number.{print_nat}
use comp_net.Message.{MessageEx}
use comp_net.SortedMap.{Map, find, erase, adjust}
use comp_net.ChatClient.{ChatClient, PendingMsg, PingState, ack_timeout_ms, max_retries}
use comp_net.ChatClient.Output.{print}
use comp_net.ChatClient.Sending.{now_ms, send_raw_message, touch}
use comp_net.ChatClient.Ping.{on_ping_timeout}

-- What the scan decides on an entry.
pub data Verdict : Type 0 where
  waits : Verdict
  expires : Verdict
  resends : Verdict

-- A clock that is behind the time of sending gives a negative difference, which is below the bound
-- too.
unfoldable pub verdict : ℕ → PendingMsg → Verdict
verdict current pending =
    if ltb (current - pending.send_time_ms) ack_timeout_ms
    then waits
    else if leb max_retries pending.retries
    then expires
    else resends

unfoldable pub bump : ℕ → PendingMsg → PendingMsg
bump current pending = record pending { retries = pending.retries + 1; send_time_ms = current }

-- What the scan has found: the map, the states of the pings, `toResend` and `toTimeout`.
pub record Scan : Type 0 where
  pub pending : Map PendingMsg
  pub ping_states : Map PingState
  pub to_resend : List (MessageEx × ℕ)
  pub to_timeout : List ℕ

unfoldable pub touch_ping : ℕ → PendingMsg → Map PingState → Map PingState
touch_ping current pending states =
    if pending.is_ping then adjust pending.msg.msg_id (touch current) states else states

-- One entry, in front of what the rest of the scan finds with the states as they are then.
unfoldable pub scan_entry : ℕ → ℕ → PendingMsg → Map PingState → (Map PingState → Scan) → Scan
scan_entry current id pending states rest = elim (verdict current pending) [
  | waits ↦ (let r = rest states in record r { pending = (id, pending) ∷ r.pending })
  | expires ↦
      (let r = rest states in
        record r { pending = (id, pending) ∷ r.pending; to_timeout = id ∷ r.to_timeout })
  | resends ↦
      (let r = rest (touch_ping current pending states) in
        record r {
          pending = (id, bump current pending) ∷ r.pending;
          to_resend = (pending.msg, pending.retries + 1) ∷ r.to_resend;
        })
]

unfoldable pub scan : ℕ → Map PendingMsg → Map PingState → Scan
scan current [] states = record {
  pending = [];
  ping_states = states;
  to_resend = [];
  to_timeout = [];
}
scan current (e ∷ m) states = scan_entry current e.0 e.1 states (λ states. scan current m states)

-- The line that is printed, and the message.
unfoldable pub resend : MessageEx → ℕ → ChatClient → ChatClient
resend msg retry_no s =
    let line =
      codes "[Transport][RETRY] wait ACK timeout\n"
      ++ codes "[Transport][RETRY] resend "
      ++ print_nat retry_no
      ++ codes "/"
      ++ print_nat max_retries
      ++ codes " (id="
      ++ print_nat msg.msg_id
      ++ codes ")\n" in
    (send_raw_message msg (print line s)).1

unfoldable pub resend_loop : List (MessageEx × ℕ) → ChatClient → ChatClient
resend_loop [] s = s
resend_loop (item ∷ items) s = resend_loop items (resend item.0 item.1 s)

-- `isPing` of the entry, if it is still there.
unfoldable pub pending_ping : ℕ → Map PendingMsg → Bool
pending_ping msg_id pending = elim (find msg_id pending) [ none ↦ false | some p ↦ p.is_ping ]

-- The entry goes, and the user is told.
unfoldable pub abandon : ℕ → ChatClient → ChatClient
abandon msg_id s =
    print
      (codes "[Transport][RETRY] delivery failed after "
        ++ print_nat max_retries
        ++ codes " retries (id="
        ++ print_nat msg_id
        ++ codes ")\n")
      (record s { pending = erase msg_id s.pending })

unfoldable pub give_up : ℕ → ChatClient → ChatClient
give_up msg_id s =
    if pending_ping msg_id s.pending
    then on_ping_timeout msg_id (abandon msg_id s)
    else abandon msg_id s

unfoldable pub timeout_loop : List ℕ → ChatClient → ChatClient
timeout_loop [] s = s
timeout_loop (msg_id ∷ ids) s = timeout_loop ids (give_up msg_id s)

unfoldable pub retry_round : ChatClient → ChatClient
retry_round s =
    let (current, s1) = now_ms s in
    let r = scan current s1.pending s1.ping_states in
    let s2 = record s1 { pending = r.pending; ping_states = r.ping_states } in
    if s.running then timeout_loop r.to_timeout (resend_loop r.to_resend s2) else s
