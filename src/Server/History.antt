-- ===== src/Server/History.antt =====
-- The history of LAB6/server.cpp: `saveHistoryLocked`, `appendHistory`, `markHistoryDelivered`,
-- `getLastHistory`, `formatHistoryLine`.
use comp_net.Prelude.{
  ℕ, ◌-◌, ◌^◌, Bool, true, List, [], ◌∷◌, ◌++◌, ltb, ◌==◌, if◌then◌else◌, length, drop, is_empty,
}
use comp_net.Text.{Text, codes, text_eq}
use comp_net.Text.Json.{json_escape}
use comp_net.Text.Number.{print_nat}
use comp_net.Server.{Server, HistoryRecord}

unfoldable pub bool_text : Bool → Text
bool_text b = if b then codes "true" else codes "false"

-- `<<` of a `long long`, from its word.
unfoldable pub print_time : ℕ → Text
print_time time = if ltb time (2 ^ 63) then print_nat time else b'-' ∷ print_nat (2 ^ 64 - time)

-- One object of the file; `last` tells that no comma follows.
unfoldable pub render_record : HistoryRecord → Bool → Text
unfolding bool_text print_time
render_record rec last =
    codes "  {\n"
    ++ codes "    \"msg_id\": "
    ++ print_nat rec.msg_id
    ++ codes ",\n"
    ++ codes "    \"timestamp\": "
    ++ print_time rec.timestamp
    ++ codes ",\n"
    ++ codes "    \"sender\": \""
    ++ json_escape rec.sender
    ++ codes "\",\n"
    ++ codes "    \"receiver\": \""
    ++ json_escape rec.receiver
    ++ codes "\",\n"
    ++ codes "    \"type\": \""
    ++ json_escape rec.type
    ++ codes "\",\n"
    ++ codes "    \"text\": \""
    ++ json_escape rec.text
    ++ codes "\",\n"
    ++ codes "    \"delivered\": "
    ++ bool_text rec.delivered
    ++ codes ",\n"
    ++ codes "    \"is_offline\": "
    ++ bool_text rec.is_offline
    ++ codes "\n"
    ++ codes "  }"
    ++ (if last then [] else codes ",")
    ++ codes "\n"

unfoldable pub render_records : List HistoryRecord → Text
unfolding render_record
render_records [] = []
render_records (rec ∷ recs) = render_record rec (is_empty recs) ++ render_records recs

-- The text that `saveHistoryLocked` writes over the file.
unfoldable pub render_history : List HistoryRecord → Text
unfolding render_records
render_history recs = codes "[\n" ++ render_records recs ++ codes "]\n"

unfoldable pub save_history_locked : Server → Server
save_history_locked s = record s { history_file = render_history s.history_records }

unfoldable pub append_history : HistoryRecord → Server → Server
append_history rec s =
    save_history_locked (record s { history_records = s.history_records ++ rec ∷ [] })

-- The loop of `markHistoryDelivered`, which stops at the first record with the id.
unfoldable pub mark_first : ℕ → List HistoryRecord → List HistoryRecord
mark_first msg_id [] = []
mark_first msg_id (rec ∷ recs) =
    if rec.msg_id == msg_id
    then record rec { delivered = true } ∷ recs
    else rec ∷ mark_first msg_id recs

unfoldable pub mark_history_delivered : ℕ → Server → Server
mark_history_delivered msg_id s =
    save_history_locked (record s { history_records = mark_first msg_id s.history_records })

unfoldable pub get_last_history : ℕ → Server → List HistoryRecord
get_last_history count s =
    let size = length s.history_records in
    let start = if ltb count size then size - count else 0 in drop start s.history_records

unfoldable pub format_history_line : Server → HistoryRecord → Text
format_history_line s rec =
    codes "["
    ++ s.os.format_time rec.timestamp
    ++ codes "]"
    ++ codes "[id="
    ++ print_nat rec.msg_id
    ++ codes "]"
    ++ (if text_eq rec.type (codes "MSG_TEXT")
        then codes "[" ++ rec.sender ++ codes "]: " ++ rec.text
        else if text_eq rec.type (codes "MSG_PRIVATE")
        then if rec.is_offline
          then codes "[OFFLINE]["
            ++ rec.sender
            ++ codes " -> "
            ++ rec.receiver
            ++ codes "]: "
            ++ rec.text
          else codes "[PRIVATE]["
            ++ rec.sender
            ++ codes " -> "
            ++ rec.receiver
            ++ codes "]: "
            ++ rec.text
        else codes "[SERVER]: " ++ rec.text)
