-- ===== src/Tests/Deliveries.antt =====
-- The theorems on what clients get at concrete data.
use comp_net.Prelude.{
  ◌≡◌, refl, ap, true, false, ◌||◌, none, some, List, [], ◌∷◌, ◌++◌, map, arith, length, is_empty,
}
use comp_net.Text.{Text, codes, text_eq}
use comp_net.Text.Trim.{trim}
use comp_net.Text.Number.{stoi}
use comp_net.Text.CString.{c_str, buffer}
use comp_net.Text.Search.{find_char}
use comp_net.Message.{MessageEx, fill_message, msg_text, msg_private}
use comp_net.Server.{Server, HistoryRecord}
use comp_net.Server.Registry.{find_client_by_nickname, find_loop, is_user}
use comp_net.Server.Offline.{for_delivery, keep_queue, write_back}
use comp_net.Server.Handlers.{
  history_count, handle_history_request, handle_broadcast_text, parse_private, handle_private_text,
}
use comp_net.Server.Steps.{push_offline}
use comp_net.Server.Outbox.{addressed, audience}
use comp_net.Server.Delivery.{IsStamped as IsStampedItem, undelivered}
use comp_net.Server.Messages.{
  IsStamped, outgoing, live_record, IsNote, handle_broadcast_text_lem, IsSent, private_online,
  stored_item, stored_record, private_offline,
}
use comp_net.Server.Replies.{told, line, history_reply}
use comp_net.Server.Races.{stored_meanwhile}
use mathlib.Core.List.{Mem, eq-or-mem_of_mem-cons, not-mem-nil}
use mathlib.Core.Logic.Or
use mathlib.Core.HLevel.{⊥_prop}
use comp_net.Tests.{stored, two_clients, two_users, old_record, message}

abbrev greeting : MessageEx
greeting = message msg_text [] (codes "hi")

greeting-IsStamped : IsStamped greeting
unfolding fill_message
greeting-IsStamped = record { id = refl; time = refl }

abbrev spoken : Server
spoken = handle_broadcast_text 0 greeting two_clients

abbrev spoken_out : MessageEx
spoken_out = outgoing msg_text (two_users 0) [] (c_str greeting.payload) greeting

broadcast_text_example :
    (addressed spoken.outbox
      ≡ [] ++ map (λ sock. (sock, spoken_out)) (audience two_users (0 ∷ 1 ∷ [])))
    × (spoken.history_records
        ≡ two_clients.history_records
          ++ live_record (codes "MSG_TEXT") (two_users 0) [] (c_str greeting.payload) greeting ∷ [])
    × (spoken.offline_queue ≡ two_clients.offline_queue)
    × (spoken.clients ≡ two_clients.clients)
    × (spoken.heap ≡ two_clients.heap)
broadcast_text_example = handle_broadcast_text_lem 0 greeting two_clients greeting-IsStamped

abbrev letter : Text → MessageEx
letter receiver = message msg_private receiver (codes "hi")

letter-IsStamped : IsStamped (letter (codes "amy"))
unfolding fill_message
letter-IsStamped = record { id = refl; time = refl }

abbrev to_amy : MessageEx
to_amy = letter (codes "amy")

to_amy-parse : (is_empty (parse_private to_amy).0 || is_empty (parse_private to_amy).1) ≡ false
unfolding parse_private fill_message find_char trim codes buffer c_str
to_amy-parse = refl

to_amy-found : find_client_by_nickname (parse_private to_amy).0 two_clients ≡ some 1
unfolding find_client_by_nickname find_loop is_user parse_private fill_message find_char trim codes
    buffer c_str text_eq
to_amy-found = refl

private_online_example :
    IsSent 0 1
      (parse_private to_amy).0
      (parse_private to_amy).1
      to_amy
      two_clients
      (handle_private_text 0 to_amy two_clients)
private_online_example =
    private_online 0 1 to_amy two_clients letter-IsStamped to_amy-parse to_amy-found

abbrev to_zoe : MessageEx
to_zoe = letter (codes "zoe")

to_zoe-parse : (is_empty (parse_private to_zoe).0 || is_empty (parse_private to_zoe).1) ≡ false
unfolding parse_private fill_message find_char trim codes buffer c_str
to_zoe-parse = refl

to_zoe-found : find_client_by_nickname (parse_private to_zoe).0 two_clients ≡ none
unfolding find_client_by_nickname find_loop is_user parse_private fill_message find_char trim codes
    buffer c_str text_eq
to_zoe-found = refl

abbrev kept : Server
kept = handle_private_text 0 to_zoe two_clients

private_offline_example :
    ((told : MessageEx) × (addressed kept.outbox ≡ [] ++ (5, told) ∷ [])
      × IsNote
          (codes "receiver " ++ (parse_private to_zoe).0 ++ codes " is offline, message stored")
          told)
    × (kept.offline_queue
        ≡ stored
          ∷ stored_item (two_users 0) (parse_private to_zoe).0 (parse_private to_zoe).1 to_zoe
          ∷ [])
    × (kept.history_records
        ≡ old_record
          ∷ stored_record (two_users 0) (parse_private to_zoe).0 (parse_private to_zoe).1 to_zoe
          ∷ [])
private_offline_example = private_offline 0 to_zoe two_clients to_zoe-parse to_zoe-found

abbrev to_nobody : MessageEx
to_nobody = letter (codes " ")

to_nobody-parse :
    (is_empty (parse_private to_nobody).0 || is_empty (parse_private to_nobody).1) ≡ true
unfolding parse_private fill_message find_char trim codes buffer c_str
to_nobody-parse = refl

abbrev refused : Server
refused = handle_private_text 0 to_nobody two_clients

five : history_count (codes " 5") ≡ some 5
unfolding history_count trim codes stoi
five = refl

history_example :
    (front last : List HistoryRecord) × (two_clients.history_records ≡ front ++ last)
    × (length last ≡ 1)
    × (told (handle_history_request 5 (codes " 5") two_clients).outbox
        ≡ [] ++ map (line 5 two_clients) last)
history_example = history_reply 5 5 (codes " 5") two_clients five refl

fresh-NotMem : ¬ Mem (record stored { msg_id = 77 }) two_clients.offline_queue
fresh-NotMem m =
    Or.elim ⊥_prop (eq-or-mem_of_mem-cons m)
      (λ e. let same = ap (λ item. item.msg_id) e in absurd (omega arith)) not-mem-nil

stored_meanwhile_example :
    ¬ Mem
      (record stored { msg_id = 77 })
      (write_back
        (keep_queue (two_users 0) two_clients.offline_queue)
        (undelivered (for_delivery (two_users 0) two_clients.offline_queue) [])
        (push_offline (record stored { msg_id = 77 }) two_clients)).offline_queue
stored_meanwhile_example =
    stored_meanwhile (two_users 0) two_clients two_clients [] (record stored { msg_id = 77 })
      fresh-NotMem
