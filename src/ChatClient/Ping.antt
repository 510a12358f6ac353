-- ===== src/ChatClient/Ping.antt =====
-- The pings of LAB6/client.cpp: `onPingSuccess`, `onPingTimeout`, `handleAck`, `startPingSeries`.
use comp_net.Prelude.{
  ℕ, zero, suc, ◌+◌, Bool, true, false, not, ◌&&◌, Option, none, some, [], ◌∷◌, ◌++◌, if◌then◌else◌,
}
use comp_net.Text.{Text, codes}
use comp_net.Text.Number.{ℤ, pos, negsuc, print_nat}
use comp_net.Message.{MessageEx, msg_ping}
use comp_net.SortedMap.{Map, find, insert, erase, adjust}
use comp_net.ChatClient.{
  ChatClient, PingState, Diag, Quotient, difference, is_nonnegative, distance,
}
use comp_net.ChatClient.Output.{print}
use comp_net.ChatClient.Sending.{now_ms, make_message, send_reliable_message}

-- `!it->second.completed && !it->second.timed_out`
unfoldable pub is_open : PingState → Bool
is_open state = not state.completed && not state.timed_out

-- The state at the iterator, if there is one and it is still open.
unfoldable pub find_open : ℕ → Map PingState → Option PingState
find_open msg_id states = elim (find msg_id states) [
  | none ↦ none
  | some state ↦ if is_open state then some state else none
]

unfoldable pub complete : ℕ → PingState → PingState
complete current state = record state {
  completed = true;
  rtt_ms = difference current state.last_send_ms;
}

-- The section under `diagMutex` of `onPingSuccess`.
unfoldable pub count_success : ℤ → Diag → Diag
count_success rtt d = record d {
  received = d.received + 1;
  rtts = d.rtts ++ rtt ∷ [];
  jitters =
      if is_nonnegative d.last_successful_rtt
      then d.jitters ++ distance rtt d.last_successful_rtt ∷ []
      else d.jitters;
  last_successful_rtt = rtt;
}

whole : ℤ → Quotient
whole n = record { numerator = n; denominator = 1 }

-- The line of a ping that was answered; `previous` is the round trip before it.
unfoldable pub success_line : (ℕ → Quotient → Text) → ℕ → ℤ → ℤ → Text
unfolding whole
success_line fixed index rtt previous =
    codes "PING "
    ++ print_nat index
    ++ codes " -> RTT="
    ++ fixed 1 (whole rtt)
    ++ codes "ms"
    ++ (if is_nonnegative previous
        then codes " | Jitter=" ++ fixed 1 (whole (pos (distance rtt previous))) ++ codes "ms"
        else [])
    ++ codes "\n"

unfoldable pub on_ping_success : ℕ → ChatClient → ChatClient
on_ping_success msg_id s =
    let (current, s1) = now_ms s in
    elim (find_open msg_id s1.ping_states) [
      | none ↦ s1
      | some state ↦
          let rtt = difference current state.last_send_ms in
          print (success_line s1.os.fixed state.index rtt s1.diag.last_successful_rtt) (record s1 {
            ping_states = adjust msg_id (complete current) s1.ping_states;
            diag = count_success rtt s1.diag;
          })
    ]

unfoldable pub expire : PingState → PingState
expire state = record state { timed_out = true }

unfoldable pub count_loss : Diag → Diag
count_loss d = record d { lost = d.lost + 1 }

unfoldable pub on_ping_timeout : ℕ → ChatClient → ChatClient
on_ping_timeout msg_id s = elim (find_open msg_id s.ping_states) [
  | none ↦ s
  | some state ↦
      print (codes "PING " ++ print_nat state.index ++ codes " -> timeout\n")
        (record s { ping_states = adjust msg_id expire s.ping_states; diag = count_loss s.diag })
]

unfoldable pub handle_ack : ℕ → ChatClient → ChatClient
handle_ack msg_id s = elim (find msg_id s.pending) [
  | none ↦ s
  | some _ ↦
      print (codes "[Transport][ACK] ACK received (id=" ++ print_nat msg_id ++ codes ")\n")
        (record s { pending = erase msg_id s.pending })
]

-- The variables at the start of a series.
unfoldable pub series_diag : ℕ → Diag
series_diag count = record {
  requested = count;
  received = 0;
  lost = 0;
  last_successful_rtt = negsuc 0;
  rtts = [];
  jitters = [];
  active = true;
}

unfoldable pub first_state : ℕ → ℕ → PingState
first_state index time = record {
  index = index;
  first_send_ms = time;
  last_send_ms = time;
  completed = false;
  timed_out = false;
  rtt_ms = pos 0;
}

-- A ping and its state, before it is sent.
unfoldable pub open_ping : ℕ → ChatClient → MessageEx × ChatClient
open_ping index s =
    let (ping, s1) = make_message msg_ping (codes "PING") [] s in
    let (time, s2) = now_ms s1 in
    (ping, record s2 { ping_states = insert ping.msg_id (first_state index time) s2.ping_states })

-- One round of the loop of a series.
unfoldable pub send_ping : ℕ → ChatClient → ChatClient
send_ping index s =
    let (ping, s1) = open_ping index s in
    let (ok, s2) = send_reliable_message ping true s1 in
    if ok
    then s2
    else on_ping_timeout ping.msg_id (print (codes "Send error during ping series\n") s2)

-- `rounds` more pings, the first of them with the given number.
unfoldable pub ping_loop : ℕ → ℕ → ChatClient → ChatClient
ping_loop zero index s = s
ping_loop (suc rounds) index s = ping_loop rounds (index + 1) (send_ping index s)

unfoldable pub start_ping_series : ℤ → ChatClient → ChatClient
start_ping_series (negsuc n) s = print (codes "Ping count must be > 0\n") s
start_ping_series (pos zero) s = print (codes "Ping count must be > 0\n") s
start_ping_series (pos (suc n)) s =
    ping_loop (suc n) 1 (record s { diag = series_diag (suc n); ping_states = [] })
