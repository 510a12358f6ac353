-- ===== src/Server/Registry.antt =====
-- The registry of clients of LAB6/server.cpp: `isNicknameUsed`, `addClient`, `removeClient`,
-- `findClientByNickname`, and `hasSeenMessageId` and `rememberMessageId` through the pointer.
use comp_net.Prelude.{
  ℕ, ◌+◌, Bool, true, false, ◌&&◌, Option, none, some, List, [], ◌∷◌, ◌++◌, ◌==◌, if◌then◌else◌,
}
use comp_net.Text.{Text, text_eq}
use comp_net.Text.CString.{c_str}
use comp_net.Server.{Server, Client}
use comp_net.Server.Dedup.{has_seen_message_id, remember_message_id}

-- `client->authenticated && nickname == client->nickname`
unfoldable pub is_user : Text → Client → Bool
is_user nickname client = client.authenticated && text_eq nickname (c_str client.nickname)

-- The loop that both searches make: the first client that fits.
unfoldable pub find_loop : Text → (ℕ → Client) → List ℕ → Option ℕ
find_loop nickname heap [] = none
find_loop nickname heap (ref ∷ refs) =
    if is_user nickname (heap ref) then some ref else find_loop nickname heap refs

unfoldable pub used_loop : Text → (ℕ → Client) → List ℕ → Bool
used_loop nickname heap [] = false
used_loop nickname heap (ref ∷ refs) =
    if is_user nickname (heap ref) then true else used_loop nickname heap refs

unfoldable pub is_nickname_used : Text → Server → Bool
is_nickname_used nickname s = used_loop nickname s.heap s.clients

unfoldable pub find_client_by_nickname : Text → Server → Option ℕ
find_client_by_nickname nickname s = find_loop nickname s.heap s.clients

-- `make_shared<Client>()` and the writes to the new object.
unfoldable pub new_client : Client → Server → ℕ × Server
new_client client s = (
  s.next_ref,
  record s {
    heap = λ ref. if ref == s.next_ref then client else s.heap ref;
    next_ref = s.next_ref + 1;
  },
)

unfoldable pub add_client : ℕ → Server → Server
add_client ref s = record s { clients = s.clients ++ ref ∷ [] }

-- `remove_if` and `erase`: every client on the socket goes.
unfoldable pub remove_loop : ℕ → (ℕ → Client) → List ℕ → List ℕ
remove_loop sock heap [] = []
remove_loop sock heap (ref ∷ refs) =
    let rest = remove_loop sock heap refs in if (heap ref).sock == sock then rest else ref ∷ rest

unfoldable pub remove_client : ℕ → Server → Server
remove_client sock s = record s { clients = remove_loop sock s.heap s.clients }

unfoldable pub has_seen : ℕ → ℕ → Server → Bool
has_seen ref id s = has_seen_message_id (s.heap ref) id

unfoldable pub remember : ℕ → ℕ → Server → Server
remember ref id s = record s {
  heap = λ r. if r == ref then remember_message_id (s.heap ref) id else s.heap r;
}
