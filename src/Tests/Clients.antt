-- ===== src/Tests/Clients.antt =====
-- The theorems on the client at concrete data.
use comp_net.Prelude.{
  ℕ, ◌+◌, ◌*◌, ◌≤◌, ◌≡◌, refl, true, false, none, some, List, [], ◌∷◌, ◌++◌, arith, is_empty,
}
use comp_net.Text.{codes}
use comp_net.Text.Trim.{trim}
use comp_net.Text.Search.{find_char}
use comp_net.Text.Number.{pos}
use comp_net.Message.{seal_message, MessageEx, fill_message, msg_text, msg_ack, msg_pong}
use comp_net.SortedMap.{find}
use comp_net.ChatClient.{ChatClient, PendingMsg, Os, no_diag, max_retries, ack_timeout_ms}
use comp_net.ChatClient.Sending.{now_ms, send_reliable_message}
use comp_net.ChatClient.Ping.{
  is_open, find_open, on_ping_success, on_ping_timeout, start_ping_series, first_state,
}
use comp_net.ChatClient.Receive.{receive}
use comp_net.ChatClient.Retry.{retry_round}
use comp_net.ChatClient.Copies.{copies, budget}
use comp_net.ChatClient.Copies.Events.{retries, receives, done, next, sent_at_most}
use comp_net.ChatClient.Counters.{IsCounted}
use comp_net.ChatClient.Counters.Lasting.{series_adds_up}
use comp_net.ChatClient.Acks.{IsSettled, receive-IsSettled, late_pong}
use comp_net.ChatClient.Patience.Round.{decision, due, messages, retry_round-decision}
use comp_net.ChatClient.Patience.Deadline.{age, IsPatient, late, stop, gives_up}
use comp_net.Server.Outbox.{addressed}
use comp_net.Server.Session.{accept_message}
use comp_net.Dialogue.{answer_settles}
use comp_net.Tests.{two_clients, open_socket, message}

abbrev pub client_os : Os
client_os = record {
  time = λ call. 1000 + call;
  now_ms = λ call. 5000 * call;
  format_time = λ _. codes "now";
  fixed = λ _ _. codes "1.0";
  socket = λ _. open_socket;
  layout = λ msg. msg.payload;
}

abbrev waiting : PendingMsg
waiting = record {
  msg = message msg_text [] (codes "hi");
  send_time_ms = 100;
  retries = 1;
  is_ping = false;
}

abbrev pub client : ChatClient
client = record {
  os = client_os;
  calls = 1;
  sock = 4;
  running = true;
  next_local_id = 9;
  nickname = codes "bob";
  pending = (8, waiting) ∷ [];
  ping_states = (7, first_state 1 50) ∷ [];
  diag = no_diag;
  outbox = [];
  console = [];
  diag_file = [];
  closed = [];
}

abbrev letter : MessageEx
letter = fill_message msg_text (codes "bob") [] (codes "hello") 9 950

letter-IsNew : budget letter.msg_id client.pending ≡ 0
unfolding budget fill_message
letter-IsNew = refl

abbrev posted : ChatClient
posted = (send_reliable_message letter false client).1

copies_example :
    copies letter.msg_id (receive (message msg_ack [] []) (retry_round posted)).outbox
    ≤ copies letter.msg_id [] + (1 + max_retries)
copies_example =
    sent_at_most letter false client (receive (message msg_ack [] []) (retry_round posted))
      letter-IsNew
      (next (retries posted) (next (receives (message msg_ack [] []) (retry_round posted)) done))

abbrev pinged : ChatClient
pinged = start_ping_series (pos 2) client

abbrev answered : ChatClient
answered = retry_round (receive (message msg_pong [] []) pinged)

series_example :
    IsCounted answered × (answered.diag.received + answered.diag.lost ≤ answered.diag.requested)
series_example = series_adds_up 1 0 client answered (omega arith) (
    next (receives (message msg_pong [] []) pinged)
      (next (retries (receive (message msg_pong [] []) pinged)) done))

ack_example :
    IsSettled
      (message msg_ack [] []).msg_id
      client.pending
      (receive (message msg_ack [] []) client).pending
unfolding fill_message
ack_example = receive-IsSettled (message msg_ack [] []) client (tt, tt) refl

ping_open : find_open 7 client.ping_states ≡ some (first_state 1 50)
unfolding find_open find is_open first_state
ping_open = refl

late_example :
    ((on_ping_timeout 7 client).diag.lost ≡ 1)
    × ((on_ping_success 7 (on_ping_timeout 7 client)).diag ≡ (on_ping_timeout 7 client).diag)
    × ((on_ping_success 7 (on_ping_timeout 7 client)).ping_states
        ≡ (on_ping_timeout 7 client).ping_states)
late_example = late_pong 7 (first_state 1 50) client ping_open

waiting-found : find 8 client.pending ≡ some waiting
unfolding find
waiting-found = refl

round_example :
    (find 8 (retry_round client).pending ≡ decision (now_ms client).0 waiting)
    × (messages (retry_round client).outbox ≡ [] ++ due (now_ms client).0 client.pending)
round_example = retry_round-decision 8 waiting client refl (tt, tt) waiting-found

waiting-IsLate : ack_timeout_ms ≤ age client waiting
unfolding now_ms
waiting-IsLate = omega arith

patience_example : IsPatient 8 1 1 (retry_round client)
patience_example =
    gives_up 8 1 waiting client (retry_round client) (tt, tt) waiting-found (omega arith)
      (late waiting refl waiting-found waiting-IsLate stop)

pub amy_one_word : find_char b' ' (codes "amy") ≡ none
unfolding find_char codes
amy_one_word = refl

pub amy_trimmed : trim (codes "amy") ≡ codes "amy"
unfolding trim codes
amy_trimmed = refl

pub text_trimmed : trim (codes "how are you") ≡ codes "how are you"
unfolding trim codes
text_trimmed = refl

pub amy_there : is_empty (codes "amy") ≡ false
unfolding codes
amy_there = refl

pub text_there : is_empty (codes "how are you") ≡ false
unfolding codes
text_there = refl

dialogue_example :
    (answer : MessageEx) × (front : List (ℕ × MessageEx)) × (addressed
        (accept_message 5 0 waiting.msg two_clients).1.outbox
      ≡ front ++ (5, answer) ∷ [])
    × IsSettled waiting.msg.msg_id client.pending (receive (seal_message answer) client).pending
unfolding fill_message
dialogue_example = answer_settles 5 0 waiting.msg two_clients client refl refl (tt, tt)
