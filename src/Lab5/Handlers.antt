-- ===== src/Lab5/Handlers.antt =====
-- The handlers of LAB5/server.cpp: `handleHistoryRequest`, `handleListRequest`,
-- `handleBroadcastText`, `handlePrivateText`.
use comp_net.Prelude.{
  ℕ, zero, suc, true, false, Option, none, some, List, [], ◌∷◌, ◌++◌, if◌then◌else◌, is_empty,
}
use comp_net.Text.{Text, codes}
use comp_net.Text.Trim.{trim}
use comp_net.Text.CString.{c_str}
use comp_net.Text.Number.{stoi, pos, negsuc, ℤ}
use comp_net.Message.{MessageEx, msg_history_data, msg_text, msg_private}
use comp_net.Server.{HistoryRecord}
use comp_net.Lab5.{Server}
use comp_net.Lab5.Io.{
  now, fetch_msg_id, make_message, send_message, send_server_info, send_error, broadcast_message,
  server_name,
}
use comp_net.Lab5.History.{append_history, get_last_history, format_history_line}
use comp_net.Lab5.Registry.{find_client_by_nickname}
use comp_net.Lab5.Offline.{store_offline_message}

-- `parsed <= 0` throws as well.
positive_count : Option ℤ → Option ℕ
positive_count none = none
positive_count (some (negsuc n)) = none
positive_count (some (pos zero)) = none
positive_count (some (pos (suc n))) = some (suc n)

-- The number of records that the payload asks for; `none` is the `catch` branch.
unfoldable pub history_count : Text → Option ℕ
unfolding positive_count
history_count payload =
    let trimmed = trim payload in
    if is_empty trimmed then some 10 else positive_count (stoi trimmed)

unfoldable pub send_history_loop : ℕ → List HistoryRecord → Server → Server
send_history_loop sock [] s = s
send_history_loop sock (rec ∷ recs) s =
    let (msg, s1) =
      make_message msg_history_data server_name [] (format_history_line s rec) 0 0 s in
    send_history_loop sock recs (send_message sock msg s1).1

unfoldable pub send_last : ℕ → List HistoryRecord → Server → Server
send_last sock [] s = send_server_info sock (codes "History is empty") s
send_last sock (rec ∷ recs) s = send_history_loop sock (rec ∷ recs) s

unfoldable pub handle_history_request : ℕ → Text → Server → Server
handle_history_request sock payload s = elim (history_count payload) [
  | none ↦ send_error sock (codes "Invalid history count") s
  | some count ↦ send_last sock (get_last_history count s) s
]

unfoldable pub list_loop : ℕ → List ℕ → Server → Server
list_loop sock [] s = s
list_loop sock (ref ∷ refs) s =
    let client = s.heap ref in
    list_loop sock refs
      (if client.authenticated then send_server_info sock (c_str client.nickname) s else s)

unfoldable pub handle_list_request : ℕ → Server → Server
handle_list_request sock s =
    let s1 = send_server_info sock (codes "Online users") s in list_loop sock s1.clients s1

-- The record of a message that has been built for its receiver.
unfoldable pub record_of : MessageEx → Text → Text → HistoryRecord
record_of out receiver type = record {
  msg_id = out.msg_id;
  timestamp = out.timestamp;
  sender = c_str out.sender;
  receiver = receiver;
  type = type;
  text = c_str out.payload;
  delivered = true;
  is_offline = false;
}

unfoldable pub handle_broadcast_text : ℕ → Text → Server → Server
handle_broadcast_text ref text s =
    let (out, s1) = make_message msg_text (c_str (s.heap ref).nickname) [] text 0 0 s in
    broadcast_message out (append_history (record_of out [] (codes "MSG_TEXT")) s1)

-- The branch of a receiver who is there.
unfoldable pub send_private : ℕ → ℕ → Text → Text → ℕ → ℕ → Server → Server
send_private ref target receiver text time msg_id s =
    let (out, s1) =
      make_message msg_private (c_str (s.heap ref).nickname) receiver text msg_id time s in
    let s2 = append_history (record_of out (c_str out.receiver) (codes "MSG_PRIVATE")) s1 in
    let (_, s3) = send_message (s2.heap target).sock out s2 in
    send_server_info (s3.heap ref).sock (codes "private message sent to " ++ receiver) s3

-- The branch of a receiver who is not.
unfoldable pub store_private : ℕ → Text → Text → ℕ → ℕ → Server → Server
store_private ref receiver text time msg_id s =
    let s1 = store_offline_message (c_str (s.heap ref).nickname) receiver text time msg_id s in
    send_server_info (s1.heap ref).sock
      (codes "receiver " ++ receiver ++ codes " is offline, message stored") s1

unfoldable pub handle_private_text : ℕ → Text → Text → Server → Server
handle_private_text ref receiver text s =
    let (time, s1) = now s in
    let (msg_id, s2) = fetch_msg_id s1 in
    elim (find_client_by_nickname receiver s2) [
      | none ↦ store_private ref receiver text time msg_id s2
      | some target ↦ send_private ref target receiver text time msg_id s2
    ]
