-- ===== src/Server/Messages.antt =====
-- What `handleBroadcastText` and `handlePrivateText` of LAB6/server.cpp do on each branch.
use comp_net.Prelude.{
  ℕ, ◌≡◌, refl, ap, ◌∙◌, true, false, ◌||◌, none, some, [], ◌∷◌, ◌++◌, map, ◌==◌, is_empty,
}
use comp_net.Text.{Text, codes}
use comp_net.Text.CString.{c_str, buffer}
use comp_net.Message.{
  MessageEx, fill_message, msg_text, msg_private, msg_server_info, max_name, max_payload,
}
use comp_net.Server.{Server, Client, OfflineMsg, HistoryRecord}
use comp_net.Server.Io.{make_message, send_message}
use comp_net.Server.History.{save_history_locked, append_history}
use comp_net.Server.Registry.{find_client_by_nickname}
use comp_net.Server.Offline.{store_offline_message}
use comp_net.Server.Handlers.{
  record_of, handle_broadcast_text, parse_private, send_private, store_private, handle_private_text,
}
use comp_net.Server.Frame.{
  Quiet, broadcast_message-Quiet, send_message-Quiet, send_server_info-Quiet, send_error-Quiet,
  Quiet-trans,
}
use comp_net.Server.Outbox.{
  addressed, make_message_forced, audience, broadcast_message-addressed, info_message,
  error_message, addressed-send_message, addressed-send_server_info, addressed-send_error,
}

-- The message carries an id and a time, so that `makeMessage` makes neither anew.
pub record IsStamped (msg : MessageEx) : Type 0 where
  pub id : (msg.msg_id == 0) ≡ false
  pub time : (msg.timestamp == 0) ≡ false

-- The message that goes out for an incoming one: from the client's nickname, with its id and time.
unfoldable pub outgoing : ℕ → Client → Text → Text → MessageEx → MessageEx
outgoing type client receiver text msg =
    fill_message type (c_str client.nickname) receiver text msg.msg_id msg.timestamp

-- The record of a message that goes out at once.
unfoldable pub live_record : Text → Client → Text → Text → MessageEx → HistoryRecord
live_record type client receiver text msg = record {
  msg_id = msg.msg_id;
  timestamp = msg.timestamp;
  sender = c_str (buffer max_name (c_str client.nickname));
  receiver = receiver;
  type = type;
  text = c_str (buffer max_payload text);
  delivered = true;
  is_offline = false;
}

-- A line of the server itself.
pub record IsNote (text : Text) (note : MessageEx) : Type 0 where
  pub kind : note.type ≡ msg_server_info
  pub from_server : note.sender ≡ buffer max_name (codes "SERVER")
  pub says : note.payload ≡ buffer max_payload text

info_message-IsNote : (text : Text) (s : Server) → IsNote text (info_message text s)
unfolding make_message fill_message
info_message-IsNote text s = record { kind = refl; from_server = refl; says = refl }

-- A text message with an id and a time is sent to every authenticated client once, in the order of
-- the registry, under the nickname of its sender, and to nobody else; one record of it, marked
-- as delivered, is added to the history. The queue, the registry and the client objects stay as they are.
pub handle_broadcast_text_lem :
    (ref : ℕ) (msg : MessageEx) (s : Server)
    → IsStamped msg
    → let t = handle_broadcast_text ref msg s in
      let out = outgoing msg_text (s.heap ref) [] (c_str msg.payload) msg in
      (addressed t.outbox
        ≡ addressed s.outbox ++ map (λ sock. (sock, out)) (audience s.heap s.clients))
      × (t.history_records
          ≡ s.history_records
            ++ live_record (codes "MSG_TEXT") (s.heap ref) [] (c_str msg.payload) msg ∷ [])
      × (t.offline_queue ≡ s.offline_queue)
      × (t.clients ≡ s.clients)
      × (t.heap ≡ s.heap)
unfolding handle_broadcast_text append_history save_history_locked outgoing live_record record_of
    fill_message
handle_broadcast_text_lem ref msg s v =
    let made =
      make_message_forced msg_text (c_str (s.heap ref).nickname) [] (c_str msg.payload) msg.msg_id
        msg.timestamp s v.id v.time in
    let out = outgoing msg_text (s.heap ref) [] (c_str msg.payload) msg in
    let stored = append_history (record_of out [] (codes "MSG_TEXT")) s in
    let q = broadcast_message-Quiet out stored in
    rw made (
      broadcast_message-addressed out stored,
      q.history_records,
      q.offline_queue,
      q.clients,
      q.heap,
    )

-- What a private message to a receiver who is online does.
pub record IsSent (ref target : ℕ) (receiver text : Text) (msg : MessageEx) (s t : Server)
    : Type 0 where
  pub told : MessageEx
  pub note : IsNote (codes "private message sent to " ++ receiver) told
  pub outbox :
      addressed t.outbox
      ≡ addressed s.outbox
        ++ ((s.heap target).sock, outgoing msg_private (s.heap ref) receiver text msg) ∷ []
        ++ ((s.heap ref).sock, told) ∷ []
  pub history :
      t.history_records
      ≡ s.history_records
        ++ live_record
            (codes "MSG_PRIVATE")
            (s.heap ref)
            (c_str (buffer max_name receiver))
            text
            msg
          ∷ []
  pub queue : t.offline_queue ≡ s.offline_queue

send_private-IsSent :
    (ref target : ℕ) (receiver text : Text) (msg : MessageEx) (s : Server)
    → IsStamped msg
    → IsSent ref target receiver text msg s (send_private ref target receiver text msg s)
unfolding send_private append_history save_history_locked outgoing live_record record_of
    fill_message
send_private-IsSent ref target receiver text msg s v =
    let made =
      make_message_forced msg_private (c_str (s.heap ref).nickname) receiver text msg.msg_id
        msg.timestamp s v.id v.time in
    let out = outgoing msg_private (s.heap ref) receiver text msg in
    let s2 = append_history (record_of out (c_str out.receiver) (codes "MSG_PRIVATE")) s in
    let s3 = (send_message (s.heap target).sock out s2).1 in
    let note = codes "private message sent to " ++ receiver in
    let sent = send_message-Quiet (s.heap target).sock out s2 in
    let q = Quiet-trans sent (send_server_info-Quiet (s.heap ref).sock note s3) in
    rw (made, sent.heap)
      (record {
        told = info_message note s3;
        note = info_message-IsNote note s3;
        outbox =
            addressed-send_server_info (s.heap ref).sock note s3
            ∙ ap (λ o. o ++ ((s.heap ref).sock, info_message note s3) ∷ [])
                (addressed-send_message (s.heap target).sock out s2);
        history = q.history_records;
        queue = q.offline_queue;
      })

-- A private message with an id and a time, to somebody who is online: it is sent once, to that
-- client's socket, then a line of the server tells the sender so, and nothing else is sent; one
-- record of it, marked as delivered and not as offline, is added to the history, and the queue stays
-- as it is.
pub private_online :
    (ref target : ℕ) (msg : MessageEx) (s : Server)
    → IsStamped msg
    → (is_empty (parse_private msg).0 || is_empty (parse_private msg).1) ≡ false
    → find_client_by_nickname (parse_private msg).0 s ≡ some target
    → IsSent ref target
        (parse_private msg).0
        (parse_private msg).1
        msg
        s
        (handle_private_text ref msg s)
unfolding handle_private_text
private_online ref target msg s v full found =
    rw (full, found, handle_private_text) (send_private-IsSent ref target _ _ msg s v)

-- The item and the record of a private message for later.
unfoldable pub stored_item : Client → Text → Text → MessageEx → OfflineMsg
stored_item client receiver text msg = record {
  sender = buffer max_name (c_str client.nickname);
  receiver = buffer max_name receiver;
  text = buffer max_payload text;
  timestamp = msg.timestamp;
  msg_id = msg.msg_id;
}

unfoldable pub stored_record : Client → Text → Text → MessageEx → HistoryRecord
stored_record client receiver text msg = record {
  msg_id = msg.msg_id;
  timestamp = msg.timestamp;
  sender = c_str client.nickname;
  receiver = receiver;
  type = codes "MSG_PRIVATE";
  text = text;
  delivered = false;
  is_offline = true;
}

-- A private message to somebody who is not online: nothing is sent but a note to the sender; the
-- message goes to the end of the queue, and one record that is not delivered to the history.
pub private_offline :
    (ref : ℕ) (msg : MessageEx) (s : Server)
    → (is_empty (parse_private msg).0 || is_empty (parse_private msg).1) ≡ false
    → find_client_by_nickname (parse_private msg).0 s ≡ none
    → let t = handle_private_text ref msg s in
      let (receiver, text) = parse_private msg in
      ((told : MessageEx) × (addressed t.outbox
          ≡ addressed s.outbox ++ ((s.heap ref).sock, told) ∷ [])
        × IsNote (codes "receiver " ++ receiver ++ codes " is offline, message stored") told)
      × (t.offline_queue ≡ s.offline_queue ++ stored_item (s.heap ref) receiver text msg ∷ [])
      × (t.history_records ≡ s.history_records ++ stored_record (s.heap ref) receiver text msg ∷ [])
unfolding handle_private_text store_private store_offline_message append_history save_history_locked
    stored_item stored_record
private_offline ref msg s full missing =
    let client = s.heap ref in
    let (receiver, text) = parse_private msg in
    let stored =
      store_offline_message (c_str client.nickname) receiver text msg.timestamp msg.msg_id s in
    let note = codes "receiver " ++ receiver ++ codes " is offline, message stored" in
    let q = send_server_info-Quiet client.sock note stored in
    rw (full, missing, handle_private_text)
      (
        (
          info_message note stored,
          addressed-send_server_info client.sock note stored,
          info_message-IsNote note stored,
        ),
        q.offline_queue,
        q.history_records,
      )

-- A private message without receiver or text: the sender gets an error, and nothing else happens.
pub private_usage :
    (ref : ℕ) (msg : MessageEx) (s : Server)
    → (is_empty (parse_private msg).0 || is_empty (parse_private msg).1) ≡ true
    → let t = handle_private_text ref msg s in
      ((told : MessageEx) × (addressed t.outbox
          ≡ addressed s.outbox ++ ((s.heap ref).sock, told) ∷ []))
      × Quiet s t
unfolding handle_private_text
private_usage ref msg s bad =
    let usage = codes "Usage: /w <nick> <message>" in
    rw (bad, handle_private_text)
      (
        (error_message usage s, addressed-send_error (s.heap ref).sock usage s),
        send_error-Quiet _ _ s,
      )
