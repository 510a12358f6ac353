-- ===== src/ChatClient/Acks.antt =====
-- What an answer of the server does to the messages of LAB6/client.cpp that wait for one.
use comp_net.Prelude.{
  ℕ, suc, ◌≡◌, refl, ap, ◌∙◌, inl, inr, true, false, ◌||◌, none, some, arith, ◌==◌, ==_iff,
  Bool-cases, Option-cases,
}
use comp_net.Message.{MessageEx, msg_ack, msg_pong}
use comp_net.SortedMap.{Map, find, adjust, IsSorted, find-erase, find-erase_other, find-adjust}
use comp_net.ChatClient.{ChatClient, PendingMsg, PingState}
use comp_net.ChatClient.Output.{print}
use comp_net.ChatClient.Sending.{now_ms}
use comp_net.ChatClient.Ping.{
  is_open, find_open, on_ping_success, expire, count_loss, on_ping_timeout, handle_ack,
}
use comp_net.ChatClient.Receive.{receive}

-- The entries after an answer to `id`: its own is gone, the others are there.
pub record IsSettled (id : ℕ) (before after : Map PendingMsg) : Type 0 where
  pub gone : find id after ≡ none
  pub others : (other : ℕ) → (id == other) ≡ false → find other after ≡ find other before

handle_ack-IsSettled :
    (id : ℕ) (s : ChatClient)
    → IsSorted s.pending
    → IsSettled id s.pending (handle_ack id s).pending
unfolding handle_ack print
handle_ack-IsSettled id s h = elim (Option-cases (find id s.pending)) [
  | inl e ↦ rw (e, handle_ack) (record { gone = e; others = λ _ _. refl })
  | inr (p, e) ↦
      rw (e, handle_ack)
        (record {
          gone = find-erase id s.pending h;
          others = λ other n. find-erase_other id other s.pending n;
        })
]

pending-on_ping_success : (id : ℕ) (s : ChatClient) → (on_ping_success id s).pending ≡ s.pending
unfolding on_ping_success print now_ms
pending-on_ping_success id s = elim (Option-cases (find_open id s.ping_states)) [
  | inl e ↦ rw (e, on_ping_success) refl
  | inr (state, e) ↦ rw (e, on_ping_success) refl
]

-- An acknowledgement or a pong settles the message with its id and no other one: the message is
-- waiting no more, if it was, and all other messages wait as before. The entries are in the order of
-- their keys, as in a `std::map`.
pub receive-IsSettled :
    (msg : MessageEx) (s : ChatClient)
    → IsSorted s.pending
    → ((msg.type == msg_ack) || (msg.type == msg_pong)) ≡ true
    → IsSettled msg.msg_id s.pending (receive msg s).pending
unfolding receive
receive-IsSettled msg s h answer =
    let settled = handle_ack-IsSettled msg.msg_id s h in
    elim (Bool-cases (msg.type == msg_ack)) [
      | inl e ↦
          let type : msg.type ≡ msg_ack = (==_iff msg.type msg_ack).0 e in
          rw (type, receive) settled
      | inr n ↦
          let type : msg.type ≡ msg_pong = ground (arith, ==_iff msg.type msg_pong) in
          rw (type, receive)
            (rw (pending-on_ping_success msg.msg_id (handle_ack msg.msg_id s)) settled)
    ]

find_open_closed :
    (id : ℕ) (state : PingState) (states : Map PingState)
    → find id states ≡ some state
    → is_open state ≡ false
    → find_open id states ≡ none
unfolding find_open
find_open_closed id state states there closed = rw (there, find_open, closed) refl

find_open_there :
    (id : ℕ) (state : PingState) (states : Map PingState)
    → find_open id states ≡ some state
    → find id states ≡ some state
unfolding find_open
find_open_there id state states h = elim (Option-cases (find id states)) [
  | inl e ↦ ground (arith, e)
  | inr (st, e) ↦ ground (arith, e)
]

on_ping_success_closed :
    (id : ℕ) (s : ChatClient)
    → find_open id s.ping_states ≡ none
    → on_ping_success id s ≡ (now_ms s).1
unfolding on_ping_success now_ms
on_ping_success_closed id s e = rw (e, on_ping_success) refl

on_ping_timeout_open :
    (id : ℕ) (state : PingState) (s : ChatClient)
    → find_open id s.ping_states ≡ some state
    → ((on_ping_timeout id s).ping_states ≡ adjust id expire s.ping_states)
      × ((on_ping_timeout id s).diag ≡ count_loss s.diag)
unfolding on_ping_timeout print
on_ping_timeout_open id state s e = rw (e, on_ping_timeout) (refl, refl)

expire_closed : (state : PingState) → is_open (expire state) ≡ false
unfolding is_open expire
expire_closed state = ground arith

now_ms_keeps :
    (s : ChatClient) → ((now_ms s).1.diag ≡ s.diag) × ((now_ms s).1.ping_states ≡ s.ping_states)
unfolding now_ms
now_ms_keeps s = (refl, refl)

-- A ping that was given up is lost for good: a pong that comes later changes neither the states of
-- the pings nor the counters.
pub late_pong :
    (id : ℕ) (state : PingState) (s : ChatClient)
    → find_open id s.ping_states ≡ some state
    → let t = on_ping_timeout id s in
      (t.diag.lost ≡ suc s.diag.lost)
      × ((on_ping_success id t).diag ≡ t.diag)
      × ((on_ping_success id t).ping_states ≡ t.ping_states)
unfolding count_loss
late_pong id state s e =
    let t = on_ping_timeout id s in
    let (states, diag) = on_ping_timeout_open id state s e in
    let closed : find_open id t.ping_states ≡ none = rw states (
      find_open_closed id (expire state) (adjust id expire s.ping_states)
        (find-adjust id expire state s.ping_states (find_open_there id state s.ping_states e))
        (expire_closed state)) in
    let late = on_ping_success_closed id t closed in
    let (same_diag, same_states) = now_ms_keeps t in
    (
      omega (arith, ap (λ d. d.lost) diag),
      ap (λ t. t.diag) late ∙ same_diag,
      ap (λ t. t.ping_states) late ∙ same_states,
    )
