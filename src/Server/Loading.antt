-- ===== src/Server/Loading.antt =====
-- `loadHistoryFromFile` of LAB6/server.cpp: the history file is read by a regular expression, and
-- the messages that were not delivered go back into the offline queue.
pub mod Fields
pub mod Objects
pub mod Search
pub mod Restart
use comp_net.Prelude.{
  ℕ, ◌+◌, ◌%◌, Bool, not, ◌&&◌, Option, none, some, List, [], ◌∷◌, ◌++◌, ltb, if◌then◌else◌, length,
  ◌>>=◌,
}
use comp_net.Text.{Text, codes, text_eq}
use comp_net.Text.CString.{buffer}
use comp_net.Text.Json.{json_unescape}
use comp_net.Text.Number.{stoul, stoll}
use comp_net.Text.Regex.{Regex, space, digit, any, not_quote, plus, regex_matches}
use comp_net.Message.{max_name, max_payload, word}
use comp_net.Server.{Server, HistoryRecord, OfflineMsg}

-- `\s*"name":\s*`, and then the value.
abbrev pub field : Text → Regex → Regex
field name value =
    Regex.seq (Regex.star space) (Regex.seq (Regex.lit name) (Regex.seq (Regex.star space) value))

-- `(\d+)`
abbrev pub number : Regex
number = Regex.group (plus digit)

-- `\\.`
abbrev pub escape : Regex
escape = Regex.seq (Regex.lit (92 ∷ [])) any

-- `\\.|[^"]`
abbrev pub unit : Regex
unit = Regex.alt escape not_quote

-- `"((?:\\.|[^"])*)"`
abbrev pub string : Regex
string =
    let quote = Regex.lit (34 ∷ []) in
    Regex.seq quote (Regex.seq (Regex.group (Regex.star unit)) quote)

-- `(true|false)`
abbrev pub boolean : Regex
boolean = Regex.group (Regex.alt (Regex.lit (codes "true")) (Regex.lit (codes "false")))

abbrev pub comma : Regex
comma = Regex.lit (codes ",")

unfoldable pub record_pattern : Regex
record_pattern = Regex.seq (Regex.lit (codes "{")) (
    Regex.seq (field (codes "\"msg_id\":") number) (
      Regex.seq comma (
        Regex.seq (field (codes "\"timestamp\":") number) (
          Regex.seq comma (
            Regex.seq (field (codes "\"sender\":") string) (
              Regex.seq comma (
                Regex.seq (field (codes "\"receiver\":") string) (
                  Regex.seq comma (
                    Regex.seq (field (codes "\"type\":") string) (
                      Regex.seq comma (
                        Regex.seq (field (codes "\"text\":") string) (
                          Regex.seq comma (
                            Regex.seq (field (codes "\"delivered\":") boolean) (
                              Regex.seq comma (
                                Regex.seq (field (codes "\"is_offline\":") boolean) (
                                  Regex.seq (Regex.star space)
                                    (Regex.lit (codes "}"))))))))))))))))))

-- The record of one match, whose groups come the last first. `none` is the exception of a number
-- that is out of range; a match has eight groups.
unfoldable pub read_record : List Text → Option HistoryRecord
read_record (offline ∷ delivered ∷ text ∷ type ∷ receiver ∷ sender ∷ timestamp ∷ msg_id ∷ []) = do
  id ← stoul msg_id
  time ← stoll timestamp
  some (record {
    msg_id = id % word;
    timestamp = time;
    sender = json_unescape sender;
    receiver = json_unescape receiver;
    type = json_unescape type;
    text = json_unescape text;
    delivered = text_eq delivered (codes "true");
    is_offline = text_eq offline (codes "true");
  })
read_record _ = none

-- `rec.type == "MSG_PRIVATE" && rec.is_offline && !rec.delivered`
unfoldable pub is_pending : HistoryRecord → Bool
is_pending rec = text_eq rec.type (codes "MSG_PRIVATE") && rec.is_offline && not rec.delivered

unfoldable pub offline_item : HistoryRecord → OfflineMsg
offline_item rec = record {
  sender = buffer max_name rec.sender;
  receiver = buffer max_name rec.receiver;
  text = buffer max_payload rec.text;
  timestamp = rec.timestamp;
  msg_id = rec.msg_id;
}

-- One round, after the record is read.
unfoldable pub load_record : HistoryRecord → ℕ → Server → ℕ × Server
load_record rec max_id s =
    let s1 = record s { history_records = s.history_records ++ rec ∷ [] } in
    (
      if ltb max_id rec.msg_id then rec.msg_id else max_id,
      if is_pending rec
          then record s1 { offline_queue = s1.offline_queue ++ offline_item rec ∷ [] }
          else s1,
    )

unfoldable pub load_loop : List (List Text) → ℕ → Server → Option (ℕ × Server)
unfolding read_record load_record
load_loop [] max_id s = some (max_id, s)
load_loop (match ∷ matches) max_id s = elim (read_record match) [
  | none ↦ none
  | some rec ↦ (let (max_id1, s1) = load_record rec max_id s in load_loop matches max_id1 s1)
]

-- The file is missing, or it is there with its text. `none` is an exception that nobody catches.
unfoldable pub load_history_from_file : Option Text → Server → Option Server
load_history_from_file none s = some (record s { history_file = codes "[]\n" })
load_history_from_file (some content) s =
    elim (load_loop (regex_matches record_pattern (length content) content) 0
      (record s { history_file = content })) [
        | none ↦ none
        | some (max_id, s1) ↦ some (record s1 { next_msg_id = (max_id + 1) % word })
      ]
