-- ===== src/Server/Dedup.antt =====
-- `hasSeenMessageId` and `rememberMessageId` of LAB6/server.cpp, on the client object.
pub mod Window
use comp_net.Prelude.{
  ℕ, zero, suc, ◌+◌, ◌-◌, Bool, true, false, List, ◌==◌, ltb, if◌then◌else◌, get_or, set,
}
use comp_net.Server.{Client, dedup_window}

-- The loop over `last_ids[i]`, for as many rounds as are left.
seen_loop : List ℕ → ℕ → ℕ → ℕ → Bool
seen_loop ids zero i id = false
seen_loop ids (suc rounds) i id =
    if get_or ids i 0 == id then true else seen_loop ids rounds (i + 1) id

unfoldable pub has_seen_message_id : Client → ℕ → Bool
unfolding seen_loop
has_seen_message_id client id = seen_loop client.last_ids client.last_ids_count 0 id

-- `for (i = 1; i < DEDUP_WINDOW; ++i) last_ids[i - 1] = last_ids[i];`
unfoldable pub shift_loop : List ℕ → ℕ → ℕ → List ℕ
shift_loop ids zero i = ids
shift_loop ids (suc rounds) i = shift_loop (set ids (i - 1) (get_or ids i 0)) rounds (i + 1)

unfoldable pub remember_message_id : Client → ℕ → Client
remember_message_id client id =
    if ltb client.last_ids_count dedup_window
    then record client {
      last_ids = set client.last_ids client.last_ids_count id;
      last_ids_count = client.last_ids_count + 1;
    }
    else record client {
      last_ids = set (shift_loop client.last_ids (dedup_window - 1) 1) (dedup_window - 1) id;
    }
