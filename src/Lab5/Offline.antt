-- ===== src/Lab5/Offline.antt =====
-- The offline queue of LAB5/server.cpp: `storeOfflineMessage`, `deliverOfflineMessages`.
use comp_net.Prelude.{ℕ, Bool, true, false, List, [], ◌∷◌, ◌++◌, if◌then◌else◌, is_empty}
use comp_net.Text.{Text, codes, text_eq}
use comp_net.Text.CString.{c_str, buffer}
use comp_net.Message.{max_name, max_payload, msg_private}
use comp_net.Server.{OfflineMsg}
use comp_net.Lab5.{Server, Client}
use comp_net.Lab5.Io.{make_message, send_message, send_server_info}
use comp_net.Lab5.History.{append_history, mark_history_delivered}

unfoldable pub store_offline_message : Text → Text → Text → ℕ → ℕ → Server → Server
store_offline_message sender receiver text timestamp msg_id s =
    let item : OfflineMsg = record {
      sender = buffer max_name sender;
      receiver = buffer max_name receiver;
      text = buffer max_payload text;
      timestamp = timestamp;
      msg_id = msg_id;
    } in
    append_history
      (record {
        msg_id = msg_id;
        timestamp = timestamp;
        sender = sender;
        receiver = receiver;
        type = codes "MSG_PRIVATE";
        text = text;
        delivered = false;
        is_offline = true;
      })
      (record s { offline_queue = s.offline_queue ++ item ∷ [] })

-- `std::string(item.receiver) == client->nickname`
unfoldable pub is_for : Client → OfflineMsg → Bool
is_for client item = text_eq (c_str item.receiver) (c_str client.nickname)

-- The first loop: `forDelivery`, and `keepQueue`.
unfoldable pub for_delivery : Client → List OfflineMsg → List OfflineMsg
for_delivery client [] = []
for_delivery client (item ∷ items) =
    let rest = for_delivery client items in if is_for client item then item ∷ rest else rest

unfoldable pub keep_queue : Client → List OfflineMsg → List OfflineMsg
keep_queue client [] = []
keep_queue client (item ∷ items) =
    let rest = keep_queue client items in if is_for client item then rest else item ∷ rest

-- One round of the second loop: whether `sendMessage` took the item.
unfoldable pub deliver_item : Client → OfflineMsg → Server → Bool × Server
deliver_item client item s =
    let (msg, s1) =
      make_message msg_private (c_str item.sender) (c_str item.receiver)
        (codes "[OFFLINE] " ++ c_str item.text) item.msg_id item.timestamp s in
    let (ok, s2) = send_message client.sock msg s1 in
    (ok, if ok then mark_history_delivered item.msg_id s2 else s2)

-- The second loop, with `failedDelivery`.
unfoldable pub deliver_loop :
    Client → List OfflineMsg → List OfflineMsg → Server → List OfflineMsg × Server
deliver_loop client [] failed s = (failed, s)
deliver_loop client (item ∷ items) failed s =
    let (ok, s1) = deliver_item client item s in
    deliver_loop client items (if ok then failed else failed ++ item ∷ []) s1

-- The last section: the queue that was kept before the loop, and what failed, replace the queue.
unfoldable pub write_back : List OfflineMsg → List OfflineMsg → Server → Server
write_back kept failed s = record s { offline_queue = kept ++ failed }

unfoldable pub deliver_offline_messages : ℕ → Server → Server
deliver_offline_messages ref s =
    let client = s.heap ref in
    let delivery = for_delivery client s.offline_queue in
    let kept = keep_queue client s.offline_queue in
    let (failed, s1) = deliver_loop client delivery [] s in
    if is_empty delivery
    then send_server_info client.sock (codes "no offline messages for " ++ c_str client.nickname) s
    else send_server_info client.sock (codes "message delivered (maybe)")
        (write_back kept failed s1)
