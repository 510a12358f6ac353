-- ===== src/Tests/Windows.antt =====
-- The theorems on the window of ids at concrete data.
use comp_net.Prelude.{ℕ, ◌≡◌, refl, true, List, [], ◌∷◌, ◌++◌, arith, replicate}
use comp_net.Text.{codes}
use comp_net.Message.{MessageEx, fill_message, msg_private}
use comp_net.Server.{Server, dedup_window}
use comp_net.Server.Dedup.{has_seen_message_id}
use comp_net.Server.Dedup.Window.{
  IsWindow, contains, last_of, window, remember_all, has_seen-remember_all,
}
use comp_net.Server.Session.{accept_message, ack_client}
use comp_net.Server.Frame.{Quiet}
use comp_net.Server.Duplicates.{accept_twice}
use comp_net.Tests.{user, two_clients, message}

user-IsWindow : IsWindow (user 5 (codes "bob"))
user-IsWindow = record { size = refl; count = omega arith }

-- More ids than the window holds.
abbrev many_ids : List ℕ
many_ids = replicate 32 4 ++ 5 ∷ 6 ∷ []

window_example :
    has_seen_message_id (remember_all (user 5 (codes "bob")) many_ids) 5
    ≡ contains (last_of dedup_window (window (user 5 (codes "bob")) ++ many_ids)) 5
window_example = has_seen-remember_all (user 5 (codes "bob")) many_ids 5 user-IsWindow

abbrev letter : MessageEx
letter = message msg_private (codes "amy") (codes "hi")

abbrev after : Server
after = (accept_message 5 0 letter two_clients).1

accept_twice_example :
    (accept_message 5 0 letter after ≡ (true, ack_client 5 0 letter.msg_id after))
    × Quiet after (accept_message 5 0 letter after).1
unfolding fill_message
accept_twice_example = accept_twice 5 0 letter two_clients user-IsWindow refl
