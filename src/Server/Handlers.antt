-- ===== src/Server/Handlers.antt =====
-- The handlers of LAB6/server.cpp: `handleHistoryRequest`, `handleListRequest`,
-- `handleBroadcastText`, `handlePrivateText`.
use comp_net.Prelude.{
  ℕ, zero, suc, ◌+◌, true, false, ◌||◌, Option, none, some, List, [], ◌∷◌, ◌++◌, if◌then◌else◌,
  take, drop, is_empty,
}
use comp_net.Text.{Text, codes}
use comp_net.Text.Search.{find_char}
use comp_net.Text.Trim.{trim}
use comp_net.Text.CString.{c_str}
use comp_net.Text.Number.{stoi, pos, negsuc, ℤ}
use comp_net.Message.{MessageEx, msg_history_data, msg_text, msg_private}
use comp_net.Server.{Server, HistoryRecord}
use comp_net.Server.Io.{
  make_message, send_message, send_server_info, send_error, broadcast_message, server_name,
}
use comp_net.Server.History.{append_history, get_last_history, format_history_line}
use comp_net.Server.Registry.{find_client_by_nickname}
use comp_net.Server.Offline.{store_offline_message}

-- `parsed <= 0` throws as well.
positive_count : Option ℤ → Option ℕ
positive_count none = none
positive_count (some (negsuc n)) = none
positive_count (some (pos zero)) = none
positive_count (some (pos (suc n))) = some (suc n)

-- The number of records that the payload asks for; `none` is the `catch` branch.
unfoldable pub history_count : Text → Option ℕ
unfolding positive_count
history_count payload =
    let trimmed = trim payload in
    if is_empty trimmed then some 10 else positive_count (stoi trimmed)

unfoldable pub send_history_loop : ℕ → List HistoryRecord → Server → Server
send_history_loop sock [] s = s
send_history_loop sock (rec ∷ recs) s =
    let (msg, s1) =
      make_message msg_history_data server_name [] (format_history_line s rec) 0 0 s in
    send_history_loop sock recs (send_message sock msg s1).1

unfoldable pub send_last : ℕ → List HistoryRecord → Server → Server
send_last sock [] s = send_server_info sock (codes "History is empty") s
send_last sock (rec ∷ recs) s = send_history_loop sock (rec ∷ recs) s

unfoldable pub handle_history_request : ℕ → Text → Server → Server
handle_history_request sock payload s = elim (history_count payload) [
  | none ↦ send_error sock (codes "Invalid history count") s
  | some count ↦ send_last sock (get_last_history count s) s
]

unfoldable pub list_loop : ℕ → List ℕ → Server → Server
list_loop sock [] s = s
list_loop sock (ref ∷ refs) s =
    let client = s.heap ref in
    list_loop sock refs
      (if client.authenticated then send_server_info sock (c_str client.nickname) s else s)

unfoldable pub handle_list_request : ℕ → Server → Server
handle_list_request sock s =
    let s1 = send_server_info sock (codes "Online users") s in list_loop sock s1.clients s1

-- The record of a message that has been built for its receiver.
unfoldable pub record_of : MessageEx → Text → Text → HistoryRecord
record_of out receiver type = record {
  msg_id = out.msg_id;
  timestamp = out.timestamp;
  sender = c_str out.sender;
  receiver = receiver;
  type = type;
  text = c_str out.payload;
  delivered = true;
  is_offline = false;
}

unfoldable pub handle_broadcast_text : ℕ → MessageEx → Server → Server
handle_broadcast_text ref incoming s =
    let (out, s1) =
      make_message msg_text (c_str (s.heap ref).nickname) [] (c_str incoming.payload)
        incoming.msg_id incoming.timestamp s in
    broadcast_message out (append_history (record_of out [] (codes "MSG_TEXT")) s1)

-- The receiver and the text of a private message: from the fields, or, with no receiver there, from
-- a payload `receiver:text`.
unfoldable pub parse_private : MessageEx → Text × Text
parse_private incoming =
    let payload = c_str incoming.payload in
    let receiver = trim (c_str incoming.receiver) in
    let split : Text × Text = elim (find_char b':' payload) [
      | none ↦ (receiver, payload)
      | some at ↦ (trim (take at payload), trim (drop (at + 1) payload))
    ] in
    if is_empty receiver then split else (receiver, payload)

unfoldable pub send_private : ℕ → ℕ → Text → Text → MessageEx → Server → Server
send_private ref target receiver text incoming s =
    let (out, s1) =
      make_message msg_private (c_str (s.heap ref).nickname) receiver text incoming.msg_id
        incoming.timestamp s in
    let s2 = append_history (record_of out (c_str out.receiver) (codes "MSG_PRIVATE")) s1 in
    let (_, s3) = send_message (s2.heap target).sock out s2 in
    send_server_info (s3.heap ref).sock (codes "private message sent to " ++ receiver) s3

unfoldable pub store_private : ℕ → Text → Text → MessageEx → Server → Server
store_private ref receiver text incoming s =
    let s1 =
      store_offline_message (c_str (s.heap ref).nickname) receiver text incoming.timestamp
        incoming.msg_id s in
    send_server_info (s1.heap ref).sock
      (codes "receiver " ++ receiver ++ codes " is offline, message stored") s1

unfoldable pub handle_private_text : ℕ → MessageEx → Server → Server
handle_private_text ref incoming s =
    let (receiver, text) = parse_private incoming in
    let usage = send_error (s.heap ref).sock (codes "Usage: /w <nick> <message>") s in
    let deliver : Server = elim (find_client_by_nickname receiver s) [
      | none ↦ store_private ref receiver text incoming s
      | some target ↦ send_private ref target receiver text incoming s
    ] in
    if is_empty receiver || is_empty text then usage else deliver
