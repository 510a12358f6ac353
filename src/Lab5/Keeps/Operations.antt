-- ===== src/Lab5/Keeps/Operations.antt =====
-- The operations of LAB5/server.cpp keep what the few steps on ids and history bear.
use comp_net.Prelude.{ℕ, refl, inl, inr, List, [], ◌∷◌, ◌++◌, Bool-cases, Option-cases, is_empty}
use comp_net.Text.{Text, codes}
use comp_net.Text.CString.{c_str}
use comp_net.Message.{
  MessageEx, msg_text, msg_private, msg_server_info, msg_error, msg_history_data,
}
use comp_net.Server.{HistoryRecord, OfflineMsg}
use comp_net.Lab5.{Server, Client}
use comp_net.Lab5.Io.{
  now, fetch_msg_id, make_message, send_message, send_server_info, send_error, broadcast_loop,
  broadcast_message, broadcast_server_info, server_name,
}
use comp_net.Lab5.History.{get_last_history, format_history_line}
use comp_net.Lab5.Registry.{find_client_by_nickname}
use comp_net.Lab5.Offline.{
  store_offline_message, for_delivery, keep_queue, deliver_item, deliver_loop, write_back,
  deliver_offline_messages,
}
use comp_net.Lab5.Handlers.{
  history_count, send_history_loop, send_last, handle_history_request, list_loop,
  handle_list_request, record_of, handle_broadcast_text, send_private, store_private,
  handle_private_text,
}
use comp_net.Lab5.Keeps.{
  Keeps, now-kept, make_message-held, make_message_forced-held, make_message-kept,
}

module _ {P : Server → Type 0} {H : ℕ → Server → Type 0} (k : Keeps P H) where
  pub send_message-kept :
      (sock : ℕ) (msg : MessageEx) (s : Server) → P s → P (send_message sock msg s).1
  unfolding send_message
  send_message-kept sock msg s h =
      k.same _ _ (record { next_msg_id = refl; ids_taken = refl; history_records = refl }) h

  pub send_server_info-kept :
      (sock : ℕ) (text : Text) (s : Server) → P s → P (send_server_info sock text s)
  unfolding send_server_info
  send_server_info-kept sock text s h =
      send_message-kept sock _ _ (make_message-kept k msg_server_info server_name [] text 0 0 s h)

  pub send_error-kept : (sock : ℕ) (text : Text) (s : Server) → P s → P (send_error sock text s)
  unfolding send_error
  send_error-kept sock text s h =
      send_message-kept sock _ _ (make_message-kept k msg_error server_name [] text 0 0 s h)

  broadcast_loop-kept :
      (refs : List ℕ) (msg : MessageEx) (s : Server) → P s → P (broadcast_loop refs msg s)
  unfolding broadcast_loop
  broadcast_loop-kept [] msg s h = h
  broadcast_loop-kept (ref ∷ refs) msg s h = elim (Bool-cases (s.heap ref).authenticated) [
    | inl e ↦
        rw (broadcast_loop, e)
          (broadcast_loop-kept refs msg _ (send_message-kept (s.heap ref).sock msg s h))
    | inr e ↦ rw (broadcast_loop, e) (broadcast_loop-kept refs msg s h)
  ]

  pub broadcast_message-kept : (msg : MessageEx) (s : Server) → P s → P (broadcast_message msg s)
  unfolding broadcast_message
  broadcast_message-kept msg s = broadcast_loop-kept s.clients msg s

  pub broadcast_server_info-kept :
      (text : Text) (s : Server) → P s → P (broadcast_server_info text s)
  unfolding broadcast_server_info
  broadcast_server_info-kept text s h =
      broadcast_message-kept _ _ (make_message-kept k msg_server_info server_name [] text 0 0 s h)

  store_offline_message-kept :
      (sender receiver text : Text) (time id : ℕ) (s : Server)
      → H id s
      → P (store_offline_message sender receiver text time id s)
  unfolding store_offline_message
  store_offline_message-kept sender receiver text time id s h = k.appends _ _ (
      k.same_held _ _ _ (record { next_msg_id = refl; ids_taken = refl; history_records = refl }) h)

  deliver_item-kept :
      (client : Client) (item : OfflineMsg) (s : Server) → P s → P (deliver_item client item s).1
  unfolding deliver_item
  deliver_item-kept client item s h =
      let (msg, s1) =
        make_message msg_private (c_str item.sender) (c_str item.receiver)
          (codes "[OFFLINE] " ++ c_str item.text) item.msg_id item.timestamp s in
      let (ok, s2) = send_message client.sock msg s1 in
      let sent = send_message-kept client.sock _ _ (
        make_message-kept k msg_private (c_str item.sender) (c_str item.receiver)
          (codes "[OFFLINE] " ++ c_str item.text) item.msg_id item.timestamp s h) in
      elim (Bool-cases ok) [
        | inl e ↦ rw (deliver_item, e) (k.marks item.msg_id s2 sent)
        | inr e ↦ rw (deliver_item, e) sent
      ]

  deliver_loop-kept :
      (client : Client) (items failed : List OfflineMsg) (s : Server)
      → P s
      → P (deliver_loop client items failed s).1
  unfolding deliver_loop
  deliver_loop-kept client [] failed s h = h
  deliver_loop-kept client (item ∷ items) failed s h =
      deliver_loop-kept client items _ _ (deliver_item-kept client item s h)

  write_back-kept :
      (kept failed : List OfflineMsg) (s : Server) → P s → P (write_back kept failed s)
  unfolding write_back
  write_back-kept kept failed s h =
      k.same _ _ (record { next_msg_id = refl; ids_taken = refl; history_records = refl }) h

  pub deliver_offline_messages-kept :
      (ref : ℕ) (s : Server) → P s → P (deliver_offline_messages ref s)
  unfolding deliver_offline_messages
  deliver_offline_messages-kept ref s h =
      let client = s.heap ref in
      let delivery = for_delivery client s.offline_queue in
      let kept = keep_queue client s.offline_queue in
      elim (Bool-cases (is_empty delivery)) [
        | inl e ↦ rw (deliver_offline_messages, e) (send_server_info-kept client.sock _ s h)
        | inr e ↦
            rw (deliver_offline_messages, e)
              (send_server_info-kept client.sock _ _
                (write_back-kept kept _ _ (deliver_loop-kept client delivery [] s h)))
      ]

  send_history_loop-kept :
      (sock : ℕ) (recs : List HistoryRecord) (s : Server) → P s → P (send_history_loop sock recs s)
  unfolding send_history_loop
  send_history_loop-kept sock [] s h = h
  send_history_loop-kept sock (rec ∷ recs) s h = send_history_loop-kept sock recs _ (
      send_message-kept sock _ _
        (make_message-kept k msg_history_data server_name [] (format_history_line s rec) 0 0 s h))

  send_last-kept :
      (sock : ℕ) (recs : List HistoryRecord) (s : Server) → P s → P (send_last sock recs s)
  unfolding send_last
  send_last-kept sock [] s h = send_server_info-kept sock _ s h
  send_last-kept sock (rec ∷ recs) s h = send_history_loop-kept sock (rec ∷ recs) s h

  pub handle_history_request-kept :
      (sock : ℕ) (payload : Text) (s : Server) → P s → P (handle_history_request sock payload s)
  unfolding handle_history_request
  handle_history_request-kept sock payload s h = elim (Option-cases (history_count payload)) [
    | inl e ↦ rw (handle_history_request, e) (send_error-kept sock _ s h)
    | inr (count, e) ↦
        rw (handle_history_request, e) (send_last-kept sock (get_last_history count s) s h)
  ]

  list_loop-kept : (sock : ℕ) (refs : List ℕ) (s : Server) → P s → P (list_loop sock refs s)
  unfolding list_loop
  list_loop-kept sock [] s h = h
  list_loop-kept sock (ref ∷ refs) s h = elim (Bool-cases (s.heap ref).authenticated) [
    | inl e ↦
        rw (list_loop, e)
          (list_loop-kept sock refs _
            (send_server_info-kept sock (c_str (s.heap ref).nickname) s h))
    | inr e ↦ rw (list_loop, e) (list_loop-kept sock refs s h)
  ]

  pub handle_list_request-kept : (sock : ℕ) (s : Server) → P s → P (handle_list_request sock s)
  unfolding handle_list_request
  handle_list_request-kept sock s h = list_loop-kept sock _ _ (send_server_info-kept sock _ s h)

  pub handle_broadcast_text-kept :
      (ref : ℕ) (text : Text) (s : Server) → P s → P (handle_broadcast_text ref text s)
  unfolding handle_broadcast_text record_of
  handle_broadcast_text-kept ref text s h =
      broadcast_message-kept _ _
        (k.appends _ _ (make_message-held k msg_text (c_str (s.heap ref).nickname) [] text 0 s h))

  send_private-kept :
      (ref target : ℕ) (receiver text : Text) (time id : ℕ) (s : Server)
      → H id s
      → P (send_private ref target receiver text time id s)
  unfolding send_private record_of
  send_private-kept ref target receiver text time id s h = send_server_info-kept _ _ _ (
      send_message-kept _ _ _ (
        k.appends _ _ (
          make_message_forced-held k msg_private (c_str (s.heap ref).nickname) receiver text id time
            s h)))

  store_private-kept :
      (ref : ℕ) (receiver text : Text) (time id : ℕ) (s : Server)
      → H id s
      → P (store_private ref receiver text time id s)
  unfolding store_private
  store_private-kept ref receiver text time id s h =
      send_server_info-kept _ _ _
        (store_offline_message-kept (c_str (s.heap ref).nickname) receiver text time id s h)

  pub handle_private_text-kept :
      (ref : ℕ) (receiver text : Text) (s : Server)
      → P s
      → P (handle_private_text ref receiver text s)
  unfolding handle_private_text
  handle_private_text-kept ref receiver text s h =
      let (time, s1) = now s in
      let (msg_id, s2) = fetch_msg_id s1 in
      let held = k.takes s1 (now-kept k s h) in
      elim (Option-cases (find_client_by_nickname receiver s2)) [
        | inl e ↦
            rw (handle_private_text, e) (store_private-kept ref receiver text time msg_id s2 held)
        | inr (target, e) ↦
            rw (handle_private_text, e)
              (send_private-kept ref target receiver text time msg_id s2 held)
      ]
