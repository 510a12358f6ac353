-- ===== src/Server/Duplicates.antt =====
-- A message that comes in twice: the second copy is acknowledged and has no other effect.
use comp_net.Prelude.{
  ℕ, ◌≡◌, ◌∙◌, inl, inr, true, false, ◌||◌, arith, ◌==◌, Bool-cases, Option-cases, is_empty,
}
use comp_net.Text.{Text}
use comp_net.Message.{MessageEx, msg_text, msg_private, msg_ping, msg_list, msg_history}
use comp_net.Server.{Server}
use comp_net.Server.Dedup.Window.{IsWindow, has_seen-remember}
use comp_net.Server.History.{save_history_locked, append_history}
use comp_net.Server.Registry.{has_seen, remember, find_client_by_nickname}
use comp_net.Server.Offline.{store_offline_message}
use comp_net.Server.Handlers.{
  handle_broadcast_text, handle_private_text, send_private, store_private, parse_private,
}
use comp_net.Server.Session.{is_reliable, ack_client, dispatch, accept_message, handle_ping}
use comp_net.Server.Frame.{
  Quiet, make_message-Quiet, send_message-Quiet, send_server_info-Quiet, send_error-Quiet,
  broadcast_message-Quiet, ack_client-Quiet, handle_ping-Quiet,
}

heap-handle_broadcast_text :
    (ref : ℕ) (msg : MessageEx) (s : Server) → (handle_broadcast_text ref msg s).heap ≡ s.heap
unfolding handle_broadcast_text append_history save_history_locked
heap-handle_broadcast_text ref msg s =
    (broadcast_message-Quiet _ _).heap ∙ (make_message-Quiet _ _ _ _ _ _ s).heap

heap-send_private :
    (ref target : ℕ) (receiver text : Text) (msg : MessageEx) (s : Server)
    → (send_private ref target receiver text msg s).heap ≡ s.heap
unfolding send_private append_history save_history_locked
heap-send_private ref target receiver text msg s =
    (send_server_info-Quiet _ _ _).heap
    ∙ (send_message-Quiet _ _ _).heap
    ∙ (make_message-Quiet _ _ _ _ _ _ s).heap

heap-store_private :
    (ref : ℕ) (receiver text : Text) (msg : MessageEx) (s : Server)
    → (store_private ref receiver text msg s).heap ≡ s.heap
unfolding store_private store_offline_message append_history save_history_locked
heap-store_private ref receiver text msg s = (send_server_info-Quiet _ _ _).heap

heap-handle_private_text :
    (ref : ℕ) (msg : MessageEx) (s : Server) → (handle_private_text ref msg s).heap ≡ s.heap
unfolding handle_private_text
heap-handle_private_text ref msg s =
    elim (Bool-cases (is_empty (parse_private msg).0 || is_empty (parse_private msg).1)) [
      | inl e ↦ rw (e, handle_private_text) (send_error-Quiet _ _ s).heap
      | inr e ↦ elim (Option-cases (find_client_by_nickname (parse_private msg).0 s)) [
        | inl f ↦ rw (e, f, handle_private_text) (heap-store_private ref _ _ msg s)
        | inr (target, f) ↦ rw (e, f, handle_private_text) (heap-send_private ref target _ _ msg s)
      ]
    ]

-- The window of a client after its message has been dispatched.
seen-remember :
    (ref id : ℕ) (s : Server) → IsWindow (s.heap ref) → has_seen ref id (remember ref id s) ≡ true
unfolding has_seen remember
seen-remember ref id s v =
    let self : (ref == ref) ≡ true = ground arith in rw self (has_seen-remember (s.heap ref) id v)

has_seen-same :
    (ref id : ℕ) (s t : Server)
    → t.heap ≡ s.heap
    → has_seen ref id s ≡ true
    → has_seen ref id t ≡ true
unfolding has_seen
has_seen-same ref id s t e h = rw e h

-- A message of a type that the clients repeat has been seen once it was dispatched.
seen-dispatch :
    (sock ref : ℕ) (msg : MessageEx) (s : Server)
    → IsWindow (s.heap ref)
    → is_reliable msg.type ≡ true
    → has_seen ref msg.msg_id (dispatch sock ref msg s).1 ≡ true
unfolding dispatch
seen-dispatch sock ref msg s v reliable =
    let s1 = remember ref msg.msg_id s in
    let seen = seen-remember ref msg.msg_id s v in
    let id = msg.msg_id in
    let after_text = handle_broadcast_text ref msg s1 in
    let after_private = handle_private_text ref msg s1 in
    let text : has_seen ref id (ack_client sock ref id after_text) ≡ true =
      has_seen-same ref id s1 (ack_client sock ref id after_text)
        ((ack_client-Quiet sock ref id after_text).heap ∙ heap-handle_broadcast_text ref msg s1)
        seen in
    let private : has_seen ref id (ack_client sock ref id after_private) ≡ true =
      has_seen-same ref id s1 (ack_client sock ref id after_private)
        ((ack_client-Quiet sock ref id after_private).heap ∙ heap-handle_private_text ref msg s1)
        seen in
    let ping : has_seen ref id (handle_ping sock ref msg s1) ≡ true =
      has_seen-same ref id s1 (handle_ping sock ref msg s1) (handle_ping-Quiet sock ref msg s1).heap
        seen in
    elim (Bool-cases (msg.type == msg_text)) [
      | inl a ↦ rw a text
      | inr a ↦ elim (Bool-cases (msg.type == msg_private)) [
        | inl b ↦ rw (a, b) private
        | inr b ↦
            let c : (msg.type == msg_ping) ≡ true = ground arith in
            let d : (msg.type == msg_list) ≡ false = ground arith in
            let e : (msg.type == msg_history) ≡ false = ground arith in rw (a, b, d, e, c) ping
      ]
    ]

seen-accept_message :
    (sock ref : ℕ) (msg : MessageEx) (s : Server)
    → IsWindow (s.heap ref)
    → is_reliable msg.type ≡ true
    → has_seen ref msg.msg_id (accept_message sock ref msg s).1 ≡ true
unfolding accept_message
seen-accept_message sock ref msg s v reliable = elim (Bool-cases (has_seen ref msg.msg_id s)) [
  | inl e ↦
      rw (reliable, e)
        (has_seen-same ref msg.msg_id s _ (ack_client-Quiet sock ref msg.msg_id s).heap e)
  | inr e ↦ rw (reliable, e) (seen-dispatch sock ref msg s v reliable)
]

-- Whatever the first copy of a text message, a private message or a ping has led to, the second
-- copy is acknowledged, and changes neither the registry, the objects, the queue, the history nor
-- its file. The client object must have its window of ids.
pub accept_twice :
    (sock ref : ℕ) (msg : MessageEx) (s : Server)
    → IsWindow (s.heap ref)
    → is_reliable msg.type ≡ true
    → let t = (accept_message sock ref msg s).1 in
      (accept_message sock ref msg t ≡ (true, ack_client sock ref msg.msg_id t))
      × Quiet t (accept_message sock ref msg t).1
accept_twice sock ref msg s v reliable =
    second (accept_message sock ref msg s).1 (seen-accept_message sock ref msg s v reliable)
  where
    second :
        (t : Server)
        → has_seen ref msg.msg_id t ≡ true
        → (accept_message sock ref msg t ≡ (true, ack_client sock ref msg.msg_id t))
          × Quiet t (accept_message sock ref msg t).1
    second t seen =
        let again : accept_message sock ref msg t ≡ (true, ack_client sock ref msg.msg_id t) =
          unfold accept_message in rw (reliable, seen) in
        (again, rw again (ack_client-Quiet sock ref msg.msg_id t))
