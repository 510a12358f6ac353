-- ===== src/Server/Frame.antt =====
-- What the operations of LAB6/server.cpp that only send, draw or ask the time leave alone: all but
-- the counters and the messages that they add to what was sent.
use comp_net.Prelude.{
  ℕ, ◌+◌, ◌%◌, ◌≡◌, refl, sym, ap, ◌∙◌, inl, inr, Bool, true, false, List, [], ◌∷◌, ◌++◌,
  append-nil, append_assoc, arith, ◌==◌, if◌then◌else◌, Bool-cases, Option-cases,
}
use comp_net.Text.{Text}
use comp_net.Message.{MessageEx, word}
use comp_net.Server.{Server, HistoryRecord, Sent}
use comp_net.Server.Io.{
  now, fetch_msg_id, or_fresh, make_message, send_message, sends, send_server_info, send_error,
  send_ack, broadcast_loop, broadcast_message, broadcast_server_info,
}
use comp_net.Server.NetSim.{
  draw01, draw_index, hits, corrupt_hits, corrupt, apply_network_simulation,
}
use comp_net.Server.Handlers.{
  history_count, send_history_loop, send_last, handle_history_request, list_loop,
  handle_list_request,
}
use comp_net.Server.Session.{ack_client, handle_ping}

-- From `s` to `t` only messages were sent, ids and draws were taken, and time passed.
pub record Quiet (s t : Server) : Type 0 where
  pub sent : List Sent
  pub outbox : t.outbox ≡ s.outbox ++ sent
  pub os : t.os ≡ s.os
  pub sim : t.sim ≡ s.sim
  pub client_queue : t.client_queue ≡ s.client_queue
  pub heap : t.heap ≡ s.heap
  pub next_ref : t.next_ref ≡ s.next_ref
  pub clients : t.clients ≡ s.clients
  pub offline_queue : t.offline_queue ≡ s.offline_queue
  pub history_records : t.history_records ≡ s.history_records
  pub history_file : t.history_file ≡ s.history_file
  pub closed : t.closed ≡ s.closed

-- Whatever the counters become.
counters-Quiet :
    (calls id : ℕ) (s : Server) → Quiet s (record s { calls = calls; next_msg_id = id })
counters-Quiet calls id s = record {
  sent = [];
  outbox = sym (append-nil _);
  os = refl;
  sim = refl;
  client_queue = refl;
  heap = refl;
  next_ref = refl;
  clients = refl;
  offline_queue = refl;
  history_records = refl;
  history_file = refl;
  closed = refl;
}

pub Quiet-refl : (s : Server) → Quiet s s
Quiet-refl s = counters-Quiet s.calls s.next_msg_id s

pub Quiet-trans : {s t u : Server} → Quiet s t → Quiet t u → Quiet s u
Quiet-trans p q = record {
  sent = p.sent ++ q.sent;
  outbox = q.outbox ∙ ap (◌++ q.sent) p.outbox ∙ append_assoc _ p.sent q.sent;
  os = q.os ∙ p.os;
  sim = q.sim ∙ p.sim;
  client_queue = q.client_queue ∙ p.client_queue;
  heap = q.heap ∙ p.heap;
  next_ref = q.next_ref ∙ p.next_ref;
  clients = q.clients ∙ p.clients;
  offline_queue = q.offline_queue ∙ p.offline_queue;
  history_records = q.history_records ∙ p.history_records;
  history_file = q.history_file ∙ p.history_file;
  closed = q.closed ∙ p.closed;
}

pub Quiet-if : (b : Bool) {s t u : Server} → Quiet s t → Quiet s u → Quiet s (if b then t else u)
Quiet-if true p q = p
Quiet-if false p q = q

pub now-Quiet : (s : Server) → Quiet s (now s).1
unfolding now
now-Quiet s = counters-Quiet (s.calls + 1) s.next_msg_id s

pub fetch_msg_id-Quiet : (s : Server) → Quiet s (fetch_msg_id s).1
unfolding fetch_msg_id
fetch_msg_id-Quiet s = counters-Quiet s.calls ((s.next_msg_id + 1) % word) s

or_fresh-Quiet :
    (forced : ℕ) (fresh : Server → ℕ × Server) (s : Server)
    → Quiet s (fresh s).1
    → Quiet s (or_fresh forced fresh s).1
or_fresh-Quiet forced fresh s h = elim (Bool-cases (forced == 0)) [
  | inl e ↦ rw e h
  | inr e ↦ rw e (Quiet-refl s)
]

pub make_message-Quiet :
    (type : ℕ) (sender receiver payload : Text) (id timestamp : ℕ) (s : Server)
    → Quiet s (make_message type sender receiver payload id timestamp s).1
unfolding make_message
make_message-Quiet type sender receiver payload id timestamp s =
    Quiet-trans (or_fresh-Quiet id fetch_msg_id s (fetch_msg_id-Quiet s))
      (or_fresh-Quiet timestamp now _ (now-Quiet _))

pub send_message-Quiet :
    (sock : ℕ) (msg : MessageEx) (s : Server) → Quiet s (send_message sock msg s).1
unfolding send_message
send_message-Quiet sock msg s = record {
  sent = record { sock = sock; msg = msg; ok = sends s sock msg } ∷ [];
  outbox = refl;
  os = refl;
  sim = refl;
  client_queue = refl;
  heap = refl;
  next_ref = refl;
  clients = refl;
  offline_queue = refl;
  history_records = refl;
  history_file = refl;
  closed = refl;
}

pub send_server_info-Quiet :
    (sock : ℕ) (text : Text) (s : Server) → Quiet s (send_server_info sock text s)
unfolding send_server_info
send_server_info-Quiet sock text s =
    Quiet-trans (make_message-Quiet _ _ _ _ _ _ s) (send_message-Quiet sock _ _)

pub send_error-Quiet : (sock : ℕ) (text : Text) (s : Server) → Quiet s (send_error sock text s)
unfolding send_error
send_error-Quiet sock text s =
    Quiet-trans (make_message-Quiet _ _ _ _ _ _ s) (send_message-Quiet sock _ _)

pub send_ack-Quiet :
    (sock : ℕ) (receiver : Text) (id : ℕ) (s : Server) → Quiet s (send_ack sock receiver id s)
unfolding send_ack
send_ack-Quiet sock receiver id s =
    Quiet-trans (now-Quiet s)
      (Quiet-trans (make_message-Quiet _ _ _ _ _ _ _) (send_message-Quiet sock _ _))

pub broadcast_loop-Quiet :
    (refs : List ℕ) (msg : MessageEx) (s : Server) → Quiet s (broadcast_loop refs msg s)
unfolding broadcast_loop
broadcast_loop-Quiet [] msg s = Quiet-refl s
broadcast_loop-Quiet (ref ∷ refs) msg s =
    Quiet-trans (Quiet-if _ (send_message-Quiet _ msg s) (Quiet-refl s))
      (broadcast_loop-Quiet refs msg _)

pub broadcast_message-Quiet : (msg : MessageEx) (s : Server) → Quiet s (broadcast_message msg s)
unfolding broadcast_message
broadcast_message-Quiet msg s = broadcast_loop-Quiet s.clients msg s

pub broadcast_server_info-Quiet :
    (text : Text) (s : Server) → Quiet s (broadcast_server_info text s)
unfolding broadcast_server_info
broadcast_server_info-Quiet text s =
    Quiet-trans (make_message-Quiet _ _ _ _ _ _ s) (broadcast_message-Quiet _ _)

send_history_loop-Quiet :
    (sock : ℕ) (recs : List HistoryRecord) (s : Server) → Quiet s (send_history_loop sock recs s)
unfolding send_history_loop
send_history_loop-Quiet sock [] s = Quiet-refl s
send_history_loop-Quiet sock (rec ∷ recs) s =
    Quiet-trans (make_message-Quiet _ _ _ _ _ _ s)
      (Quiet-trans (send_message-Quiet sock _ _) (send_history_loop-Quiet sock recs _))

send_last-Quiet :
    (sock : ℕ) (recs : List HistoryRecord) (s : Server) → Quiet s (send_last sock recs s)
unfolding send_last
send_last-Quiet sock [] s = send_server_info-Quiet sock _ s
send_last-Quiet sock (rec ∷ recs) s = send_history_loop-Quiet sock (rec ∷ recs) s

pub handle_history_request-Quiet :
    (sock : ℕ) (payload : Text) (s : Server) → Quiet s (handle_history_request sock payload s)
unfolding handle_history_request
handle_history_request-Quiet sock payload s = elim (Option-cases (history_count payload)) [
  | inl e ↦ rw (e, handle_history_request) (send_error-Quiet sock _ s)
  | inr (n, e) ↦ rw (e, handle_history_request) (send_last-Quiet sock _ s)
]

list_loop-Quiet : (sock : ℕ) (refs : List ℕ) (s : Server) → Quiet s (list_loop sock refs s)
unfolding list_loop
list_loop-Quiet sock [] s = Quiet-refl s
list_loop-Quiet sock (ref ∷ refs) s =
    Quiet-trans (Quiet-if _ (send_server_info-Quiet sock _ s) (Quiet-refl s))
      (list_loop-Quiet sock refs _)

pub handle_list_request-Quiet : (sock : ℕ) (s : Server) → Quiet s (handle_list_request sock s)
unfolding handle_list_request
handle_list_request-Quiet sock s =
    Quiet-trans (send_server_info-Quiet sock _ s) (list_loop-Quiet sock _ _)

pub ack_client-Quiet : (sock ref id : ℕ) (s : Server) → Quiet s (ack_client sock ref id s)
unfolding ack_client
ack_client-Quiet sock ref id s = send_ack-Quiet sock _ id s

pub handle_ping-Quiet :
    (sock ref : ℕ) (msg : MessageEx) (s : Server) → Quiet s (handle_ping sock ref msg s)
unfolding handle_ping
handle_ping-Quiet sock ref msg s = Quiet-trans (send_ack-Quiet sock _ _ s) (
    Quiet-trans (now-Quiet _)
      (Quiet-trans (make_message-Quiet _ _ _ _ _ _ _) (send_message-Quiet sock _ _)))

pub apply_network_simulation-Quiet :
    (msg : MessageEx) (s : Server) → Quiet s (apply_network_simulation msg s).1
unfolding apply_network_simulation hits corrupt_hits corrupt draw01 draw_index
apply_network_simulation-Quiet msg s = record {
  sent = [];
  outbox = ground (arith, append-nil s.outbox);
  os = ground arith;
  sim = ground arith;
  client_queue = ground arith;
  heap = ground arith;
  next_ref = ground arith;
  clients = ground arith;
  offline_queue = ground arith;
  history_records = ground arith;
  history_file = ground arith;
  closed = ground arith;
}
