-- ===== src/Dialogue.antt =====
-- LAB6/server.cpp and LAB6/client.cpp together: the server's answer to a message of the client, and
-- what the client makes of it.
use comp_net.Prelude.{
  ℕ, ◌≡◌, refl, subst, ◌∙◌, inl, inr, true, false, ◌&&◌, ◌||◌, List, [], ◌∷◌, ◌++◌, arith, ◌==◌,
  Bool-cases,
}
use comp_net.Text.{Text, codes}
use comp_net.Message.{
  MessageEx, fill_message, seal_message, msg_text, msg_private, msg_ping, msg_list, msg_history,
  msg_ack, msg_pong,
}
use comp_net.Text.CString.{c_str}
use comp_net.SortedMap.{IsSorted}
use comp_net.Server.{Server}
use comp_net.Server.Io.{now, make_message, server_name, send_message, send_ack}
use comp_net.Server.Registry.{has_seen, remember}
use comp_net.Server.Handlers.{handle_broadcast_text, handle_private_text}
use comp_net.Server.Session.{is_reliable, ack_client, handle_ping, dispatch, accept_message}
use comp_net.Server.Outbox.{addressed, addressed-send_message}
use comp_net.ChatClient.{ChatClient}
use comp_net.ChatClient.Receive.{receive}
use comp_net.ChatClient.Acks.{IsSettled, receive-IsSettled}

-- The last message that was sent is an answer to the id, on the socket.
record IsAnswered (sock id : ℕ) (s : Server) : Type 0 where
  answer : MessageEx
  front : List (ℕ × MessageEx)
  outbox : addressed s.outbox ≡ front ++ (sock, answer) ∷ []
  same_id : answer.msg_id ≡ id
  answers : ((answer.type == msg_ack) || (answer.type == msg_pong)) ≡ true

make_message_header :
    (type : ℕ) (sender receiver payload : Text) (id timestamp : ℕ) (s : Server)
    → (id == 0) ≡ false
    → ((make_message type sender receiver payload id timestamp s).0.msg_id ≡ id)
      × ((make_message type sender receiver payload id timestamp s).0.type ≡ type)
unfolding make_message fill_message
make_message_header type sender receiver payload id timestamp s h = (rw h refl, refl)

-- A message with the id and the type of an answer, as the server builds and sends it.
sent-IsAnswered :
    (sock type id timestamp : ℕ) (sender receiver payload : Text) (s : Server)
    → (id == 0) ≡ false
    → ((type == msg_ack) || (type == msg_pong)) ≡ true
    → let (msg, s1) = make_message type sender receiver payload id timestamp s in
      IsAnswered sock id (send_message sock msg s1).1
sent-IsAnswered sock type id timestamp sender receiver payload s h answers =
    let (msg, s1) = make_message type sender receiver payload id timestamp s in
    let (same_id, same_type) = make_message_header type sender receiver payload id timestamp s h in
    record {
      answer = msg;
      front = addressed s1.outbox;
      outbox = addressed-send_message sock msg s1;
      same_id = same_id;
      answers = rw same_type answers;
    }

ack_client-IsAnswered :
    (sock ref id : ℕ) (s : Server)
    → (id == 0) ≡ false
    → IsAnswered sock id (ack_client sock ref id s)
unfolding ack_client send_ack
ack_client-IsAnswered sock ref id s h =
    sent-IsAnswered sock msg_ack id (now s).0 server_name (c_str (s.heap ref).nickname)
      (codes "ACK") (now s).1 h refl

handle_ping-IsAnswered :
    (sock ref : ℕ) (msg : MessageEx) (s : Server)
    → (msg.msg_id == 0) ≡ false
    → IsAnswered sock msg.msg_id (handle_ping sock ref msg s)
unfolding handle_ping
handle_ping-IsAnswered sock ref msg s h =
    let s1 = send_ack sock (c_str (s.heap ref).nickname) msg.msg_id s in
    let (time, s2) = now s1 in
    sent-IsAnswered sock msg_pong msg.msg_id time server_name (c_str (s2.heap ref).nickname)
      (codes "PONG") s2 h refl

dispatch-IsAnswered :
    (sock ref : ℕ) (msg : MessageEx) (s : Server)
    → is_reliable msg.type ≡ true
    → (msg.msg_id == 0) ≡ false
    → IsAnswered sock msg.msg_id (dispatch sock ref msg s).1
unfolding dispatch
dispatch-IsAnswered sock ref msg s reliable h =
    let seen = remember ref msg.msg_id s in
    elim (Bool-cases (msg.type == msg_text)) [
      | inl text ↦
          rw (text, dispatch)
            (ack_client-IsAnswered sock ref msg.msg_id (handle_broadcast_text ref msg seen) h)
      | inr not_text ↦ elim (Bool-cases (msg.type == msg_private)) [
        | inl private ↦
            rw (not_text, dispatch, private)
              (ack_client-IsAnswered sock ref msg.msg_id (handle_private_text ref msg seen) h)
        | inr not_private ↦
            let ping : (msg.type == msg_ping) ≡ true = ground (arith, not_text, not_private) in
            let not_list : (msg.type == msg_list) ≡ false = ground (arith, ping) in
            let not_history : (msg.type == msg_history) ≡ false = ground (arith, ping) in
            rw (not_text, dispatch, not_private, not_list, not_history, ping)
              (handle_ping-IsAnswered sock ref msg seen h)
      ]
    ]

accept_message-IsAnswered :
    (sock ref : ℕ) (msg : MessageEx) (s : Server)
    → is_reliable msg.type ≡ true
    → (msg.msg_id == 0) ≡ false
    → IsAnswered sock msg.msg_id (accept_message sock ref msg s).1
unfolding accept_message
accept_message-IsAnswered sock ref msg s reliable h =
    elim (Bool-cases (is_reliable msg.type && has_seen ref msg.msg_id s)) [
      | inl copy ↦ rw (copy, accept_message) (ack_client-IsAnswered sock ref msg.msg_id s h)
      | inr new ↦ rw (new, accept_message) (dispatch-IsAnswered sock ref msg s reliable h)
    ]

seal_message_header :
    (msg : MessageEx)
    → ((seal_message msg).type ≡ msg.type) × ((seal_message msg).msg_id ≡ msg.msg_id)
unfolding seal_message
seal_message_header msg = (refl, refl)

-- Every text, private message or ping that the server accepts, a copy as well as a new one, is
-- answered last of all on the socket that it came from; and a client that receives the answer has
-- settled its message: it waits no more, and all others wait as before. The id must not be 0, and the
-- client's map be in the order of its keys.
pub answer_settles :
    (sock ref : ℕ) (msg : MessageEx) (s : Server) (c : ChatClient)
    → is_reliable msg.type ≡ true
    → (msg.msg_id == 0) ≡ false
    → IsSorted c.pending
    → (answer : MessageEx) × (front : List (ℕ × MessageEx)) × (addressed
          (accept_message sock ref msg s).1.outbox
        ≡ front ++ (sock, answer) ∷ [])
      × IsSettled msg.msg_id c.pending (receive (seal_message answer) c).pending
answer_settles sock ref msg s c reliable h sorted =
    let a = accept_message-IsAnswered sock ref msg s reliable h in
    let (same_type, same_id) = seal_message_header a.answer in
    let settled = receive-IsSettled (seal_message a.answer) c sorted (rw same_type a.answers) in
    (
      a.answer,
      a.front,
      a.outbox,
      subst (λ id. IsSettled id c.pending (receive (seal_message a.answer) c).pending)
          (same_id ∙ a.same_id) settled,
    )
