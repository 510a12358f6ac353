-- ===== src/Tests/Connections.antt =====
-- The theorems on whole connections at concrete data.
use comp_net.Prelude.{◌≡◌, refl, ◌≢◌, true, false, none, some, List, [], ◌∷◌, ◌++◌, arith}
use comp_net.Text.{codes, text_eq}
use comp_net.Text.CString.{IsCString, c_str, buffer}
use comp_net.Text.Trim.{trim}
use comp_net.Message.{seal_message, fill_message, MessageEx, msg_hello, msg_auth, msg_text}
use comp_net.Server.{Server, HistoryRecord}
use comp_net.Server.History.{save_history_locked, mark_history_delivered}
use comp_net.Server.Marks.{mark_history_delivered_lem}
use comp_net.Server.Registry.{new_client, is_nickname_used, used_loop, is_user}
use comp_net.Server.Session.{
  handle_client, nickname_error, admit, authenticate, check_nickname, greet, serve_loop,
}
use comp_net.Server.Saved.{IsSaved, handle_client-IsSaved}
use comp_net.Server.Growth.{Grows, handle_client-Grows}
use comp_net.Server.Users.{IsEntry, IsRegistry}
use comp_net.Server.Users.Login.{authenticate-IsRegistry}
use comp_net.Server.Ends.{IsOver}
use comp_net.Server.Ends.Connection.{handle_client-IsOver}
use comp_net.Server.Races.{IsAdmittedAs, admit_twice}
use comp_net.Tests.{old_record, two_clients, two_users, message}

-- A connection that authenticates and says something.
abbrev frames : List MessageEx
frames =
    message msg_hello [] (codes "HELLO")
    ∷ message msg_auth [] (codes "zoe")
    ∷ message msg_text [] (codes "hi")
    ∷ []

abbrev saved : Server
saved = save_history_locked two_clients

saved-IsSaved : IsSaved saved
unfolding save_history_locked
saved-IsSaved = record { file = refl }

saved_example : IsSaved (handle_client 9 frames saved)
saved_example = handle_client-IsSaved 9 frames saved saved-IsSaved

history_after_example :
    Grows two_clients.history_records (handle_client 9 frames two_clients).history_records
history_after_example = handle_client-Grows 9 frames two_clients

bob-IsEntry : IsEntry 2 two_users 0
unfolding codes buffer c_str
bob-IsEntry = record {
  made = omega arith;
  authenticated = refl;
  named = λ e. ground arith;
  window = record { size = refl; count = omega arith };
}

amy-IsEntry : IsEntry 2 two_users 1
unfolding codes buffer c_str
amy-IsEntry = record {
  made = omega arith;
  authenticated = refl;
  named = λ e. ground arith;
  window = record { size = refl; count = omega arith };
}

bob-Differs : c_str (two_users 0).nickname ≢ c_str (two_users 1).nickname
unfolding codes buffer c_str
bob-Differs = λ e. ground arith

two_clients-IsRegistry : IsRegistry two_clients
two_clients-IsRegistry = record {
  entries = (bob-IsEntry, (bob-Differs, tt), (amy-IsEntry, tt, tt));
}

-- Zoe logs in.
abbrev logged_in : Server
logged_in = (authenticate 9 (message msg_auth [] (codes "zoe") ∷ []) two_clients).1

zoe_logs_in :
    authenticate 9 (message msg_auth [] (codes "zoe") ∷ []) two_clients
    ≡ (some (2, codes "zoe", []), logged_in)
unfolding authenticate check_nickname nickname_error is_nickname_used used_loop is_user codes buffer
    c_str text_eq admit trim seal_message fill_message new_client
zoe_logs_in = refl

registered_example :
    let u =
      serve_loop 9 2 (message msg_text [] (codes "hi") ∷ []) (greet 9 2 (codes "zoe") logged_in) in
    IsRegistry u
    × (u.clients ≡ two_clients.clients ++ 2 ∷ [])
    × (c_str (u.heap 2).nickname ≡ codes "zoe")
registered_example =
    authenticate-IsRegistry 9 2 (codes "zoe") (message msg_auth [] (codes "zoe") ∷ []) []
      (message msg_text [] (codes "hi") ∷ []) two_clients logged_in two_clients-IsRegistry
      zoe_logs_in

closed_once_example : IsOver 9 two_clients (handle_client 9 frames two_clients)
closed_once_example =
    handle_client-IsOver 9 frames two_clients (
      record { made = omega arith; other = refl },
      (record { made = omega arith; other = refl }, tt),
    )

zoe_accepted : nickname_error (codes "zoe") two_clients ≡ none
unfolding nickname_error is_nickname_used used_loop is_user codes buffer c_str text_eq
zoe_accepted = refl

zoe-IsCString : IsCString (codes "zoe")
unfolding codes c_str
zoe-IsCString = refl

admit_twice_example :
    let (ref, s1) = admit 7 (codes "zoe") two_clients in
    let (ref', s2) = admit 8 (codes "zoe") s1 in
    (s2.clients ≡ two_clients.clients ++ ref ∷ ref' ∷ [])
    × (ref ≢ ref')
    × IsAdmittedAs (codes "zoe") 7 (s2.heap ref)
    × IsAdmittedAs (codes "zoe") 8 (s2.heap ref')
admit_twice_example = admit_twice 7 8 (codes "zoe") two_clients zoe_accepted zoe-IsCString

-- A message of another client that has the same id by chance.
abbrev chance : HistoryRecord
chance = record old_record { text = codes "all"; type = codes "MSG_TEXT"; delivered = false }

abbrev same_ids : Server
same_ids = record two_clients { history_records = chance ∷ old_record ∷ [] }

marked_example :
    (mark_history_delivered 3 same_ids).history_records
    ≡ record chance { delivered = true } ∷ old_record ∷ []
marked_example = mark_history_delivered_lem 3 [] chance (old_record ∷ []) same_ids refl tt refl
