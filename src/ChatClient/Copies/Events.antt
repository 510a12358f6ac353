-- ===== src/ChatClient/Copies/Events.antt =====
-- What the threads of LAB6/client.cpp do while a message waits for its answer.
use comp_net.Prelude.{ℕ, ◌+◌, ◌≤◌, ◌≡◌, Bool, false, arith, ◌==◌}
use comp_net.Message.{MessageEx}
use comp_net.ChatClient.{ChatClient, max_retries}
use comp_net.ChatClient.Sending.{send_reliable_message}
use comp_net.ChatClient.Receive.{receive}
use comp_net.ChatClient.Retry.{retry_round}
use comp_net.ChatClient.Copies.{
  copies, budget, total, receive-total, retry_round-total, send_reliable-total,
}

-- What the threads may do while a message is waiting: a round of the retry thread, a message that is
-- received, another message that is sent.
pub data Event (id : ℕ) : ChatClient → ChatClient → Type 0 where
  retries : (s : ChatClient) → Event id s (retry_round s)
  receives : (msg : MessageEx) (s : ChatClient) → Event id s (receive msg s)
  sends :
      (msg : MessageEx) (is_ping : Bool) (s : ChatClient)
      → (msg.msg_id == id) ≡ false
      → Event id s (send_reliable_message msg is_ping s).1

pub data Events (id : ℕ) : ChatClient → ChatClient → Type 0 where
  done : {s : ChatClient} → Events id s s
  next : {s t u : ChatClient} → Event id s t → Events id t u → Events id s u

Event-total : (id : ℕ) (s t : ChatClient) → Event id s t → total id t ≤ total id s
Event-total id _ _ (retries s) = retry_round-total id s
Event-total id _ _ (receives msg s) = receive-total id msg s
Event-total id _ _ (sends msg is_ping s h) = ground (arith, send_reliable-total id msg is_ping s)

Events-total : (id : ℕ) (s t : ChatClient) → Events id s t → total id t ≤ total id s
Events-total id s _ done = omega arith
Events-total id s u (next {t = t} e es) =
    omega (arith, Event-total id s t e, Events-total id t u es)

-- A message under a fresh id is sent at most four times, once and then three times more, whatever
-- the retry thread, the receiving thread and the other messages of the main thread do afterwards.
pub sent_at_most :
    (msg : MessageEx) (is_ping : Bool) (s t : ChatClient)
    → budget msg.msg_id s.pending ≡ 0
    → Events msg.msg_id (send_reliable_message msg is_ping s).1 t
    → copies msg.msg_id t.outbox ≤ copies msg.msg_id s.outbox + (1 + max_retries)
sent_at_most msg is_ping s t fresh es = ground (
  arith,
  Events-total msg.msg_id (send_reliable_message msg is_ping s).1 t es,
  send_reliable-total msg.msg_id msg is_ping s,
)
