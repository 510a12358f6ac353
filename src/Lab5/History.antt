-- ===== src/Lab5/History.antt =====
-- The history of LAB5/server.cpp: `saveHistoryLocked`, `appendHistory`, `markHistoryDelivered`,
-- `getLastHistory`, `formatHistoryLine`.
use comp_net.Prelude.{ℕ, ◌-◌, List, [], ◌∷◌, ◌++◌, ltb, if◌then◌else◌, length, drop}
use comp_net.Text.{Text, codes, text_eq}
use comp_net.Text.Number.{print_nat}
use comp_net.Server.{HistoryRecord}
use comp_net.Server.History.{render_history, mark_first}
use comp_net.Lab5.{Server}

unfoldable pub save_history_locked : Server → Server
save_history_locked s = record s { history_file = render_history s.history_records }

unfoldable pub append_history : HistoryRecord → Server → Server
append_history rec s =
    save_history_locked (record s { history_records = s.history_records ++ rec ∷ [] })

unfoldable pub mark_history_delivered : ℕ → Server → Server
mark_history_delivered msg_id s =
    save_history_locked (record s { history_records = mark_first msg_id s.history_records })

unfoldable pub get_last_history : ℕ → Server → List HistoryRecord
get_last_history count s =
    let size = length s.history_records in
    let start = if ltb count size then size - count else 0 in drop start s.history_records

unfoldable pub format_history_line : Server → HistoryRecord → Text
format_history_line s rec =
    codes "["
    ++ s.os.format_time rec.timestamp
    ++ codes "]"
    ++ codes "[id="
    ++ print_nat rec.msg_id
    ++ codes "]"
    ++ (if text_eq rec.type (codes "MSG_TEXT")
        then codes "[" ++ rec.sender ++ codes "]: " ++ rec.text
        else if text_eq rec.type (codes "MSG_PRIVATE")
        then if rec.is_offline
          then codes "[OFFLINE]["
            ++ rec.sender
            ++ codes " -> "
            ++ rec.receiver
            ++ codes "]: "
            ++ rec.text
          else codes "[PRIVATE]["
            ++ rec.sender
            ++ codes " -> "
            ++ rec.receiver
            ++ codes "]: "
            ++ rec.text
        else codes "[SERVER]: " ++ rec.text)
