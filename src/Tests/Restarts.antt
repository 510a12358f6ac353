-- ===== src/Tests/Restarts.antt =====
-- The theorems on the start of the server at concrete data.
use comp_net.Prelude.{
  ◌+◌, ◌-◌, ◌^◌, ◌<◌, ◌≡◌, refl, true, some, List, [], ◌∷◌, arith, ◌==◌, if◌then◌else◌, length, All,
}
use comp_net.Text.{Text, codes}
use comp_net.Server.{Server, HistoryRecord, Double}
use comp_net.Server.History.{render_history}
use comp_net.Server.Offline.{store_offline_message}
use comp_net.Server.Loading.{record_pattern, load_history_from_file}
use comp_net.Server.Loading.Restart.{Fits, next_msg_id-load_history_from_file}
use comp_net.Text.Regex.{regex_matches}
use comp_net.Text.{is_space}
use comp_net.Text.Number.{print_nat, is_digit}
use comp_net.Text.Json.{json_escape}
use comp_net.Server.Startup.{one, parse_args}
use comp_net.Server.Startup.Options.{InRange, parse_args-InRange}
use comp_net.Tests.{two_clients, old_record}

abbrev fresh : Server
fresh = record two_clients { history_records = []; offline_queue = []; next_msg_id = 1 }

-- A text with a quote, a backslash and a line feed.
abbrev hard_record : HistoryRecord
hard_record = record old_record { msg_id = 12; text = 34 ∷ 92 ∷ 10 ∷ 125 ∷ []; delivered = true }

abbrev two_records : List HistoryRecord
two_records = old_record ∷ hard_record ∷ []

two_records-Fits : All Fits two_records
two_records-Fits = ((omega arith, omega arith), ((omega arith, omega arith), tt))

-- The search finds nothing in an empty list.
no_matches : regex_matches record_pattern 3 (codes "[]\n") ≡ []
unfolding regex_matches record_pattern codes
no_matches = refl

next_id_example :
    (t : Server) × (load_history_from_file (some (render_history two_records)) fresh ≡ some t)
    × All (λ rec. rec.msg_id < t.next_msg_id) two_records
next_id_example =
    next_msg_id-load_history_from_file two_records fresh two_records-Fits
      (omega arith, (omega arith, tt))

abbrev saving : Server
saving = store_offline_message (codes "bob") (codes "amy") (codes "hi") 950 8 two_clients

-- Every option, the rates out of range.
abbrev options : List Text
options = codes "--delay=20" ∷ codes "--drop=7" ∷ codes "--corrupt=-1" ∷ []

abbrev read_rate : Text → Double
read_rate [] = Double.nan
read_rate (c ∷ s) = if c == b'-' then Double.below else Double.units (one + 1)

options_example : InRange read_rate (parse_args read_rate options two_clients.sim)
options_example =
    parse_args-InRange read_rate options two_clients.sim (omega arith, omega arith, omega arith)

-- A message with the time -1 is written, and not read again: its id does not count.
abbrev lost_record : HistoryRecord
lost_record = record old_record { timestamp = 2 ^ 64 - 1 }

abbrev lost_matches : List (List Text)
lost_matches =
    regex_matches record_pattern (length (render_history (lost_record ∷ [])))
      (render_history (lost_record ∷ []))

negative_time-lost : lost_matches ≡ []
unfolding regex_matches record_pattern codes render_history is_space print_nat json_escape is_digit
negative_time-lost = refl
