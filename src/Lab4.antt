-- ===== src/Lab4.antt =====
-- LAB4/message.h, the state of LAB4/server.cpp, and the functions on it below `handleClient`. Its
-- `trim` and the names of its types are those of the model of LAB6.
pub mod Session
pub mod Workers
pub mod Closing
pub mod ChatClient
pub mod Whisper
use comp_net.Prelude.{
  ℕ, zero, suc, ◌+◌, ◌-◌, ◌%◌, Bool, true, false, ◌&&◌, Option, none, some, List, [], ◌∷◌, ◌++◌,
  ◌==◌, if◌then◌else◌, length, set,
}
use comp_net.Text.{Text, text_eq}
use comp_net.Text.CString.{c_str, buffer}
use comp_net.Message.{word, msg_error}
use comp_net.Transport.{Socket}

abbrev pub max_payload : ℕ
max_payload = 1024

abbrev pub max_nickname : ℕ
max_nickname = 32

pub record Message : Type 0 where
  pub length : ℕ
  pub type : ℕ
  pub payload : Text

-- `makeMessage`, which counts the byte of the type too.
unfoldable pub make_message : ℕ → Text → Message
make_message type payload =
    let text = buffer max_payload payload in
    record { length = (1 + length (c_str text)) % word; type = type; payload = text }

pub record Client : Type 0 where
  pub sock : ℕ
  pub nickname : Text
  pub authenticated : Bool

-- What the program takes from the system: the sockets, and `sizeof(Message)`.
pub record Os : Type 0 where
  pub socket : ℕ → Socket
  pub size : ℕ

-- One call of `sendMessage`.
pub record Sent : Type 0 where
  pub sock : ℕ
  pub msg : Message
  pub ok : Bool

-- The global variables, with the heap of the clients, the calls of the system, and what was sent
-- and closed, as in the model of LAB6.
pub record Server : Type 0 where
  pub os : Os
  pub calls : ℕ
  pub client_queue : List ℕ
  pub heap : ℕ → Client
  pub next_ref : ℕ
  pub clients : List ℕ
  pub outbox : List Sent
  pub closed : List ℕ

-- `rc > 0`
unfoldable pub is_positive : Option ℕ → Bool
is_positive none = false
is_positive (some zero) = false
is_positive (some (suc n)) = true

-- `send(...) > 0`: one call, whose result may be less than the size.
unfoldable pub send_message : ℕ → Message → Server → Bool × Server
send_message sock msg s =
    let ok = is_positive ((s.os.socket sock).send s.calls s.os.size) in
    (
      ok,
      record s {
        calls = s.calls + 1;
        outbox = s.outbox ++ record { sock = sock; msg = msg; ok = ok } ∷ [];
      },
    )

-- What `recvMessage` makes of the structure after one successful `recv`.
unfoldable pub end_payload : Message → Message
end_payload msg = record msg { payload = set msg.payload (max_payload - 1) 0 }

-- `client->authenticated && nickname == client->nickname`
unfoldable pub is_user : Text → Client → Bool
is_user nickname client = client.authenticated && text_eq nickname (c_str client.nickname)

unfoldable pub used_loop : Text → (ℕ → Client) → List ℕ → Bool
used_loop nickname heap [] = false
used_loop nickname heap (ref ∷ refs) =
    if is_user nickname (heap ref) then true else used_loop nickname heap refs

unfoldable pub is_nickname_used : Text → Server → Bool
is_nickname_used nickname s = used_loop nickname s.heap s.clients

unfoldable pub add_client : ℕ → Server → Server
add_client ref s = record s { clients = s.clients ++ ref ∷ [] }

-- `remove_if` and `erase`.
unfoldable pub remove_loop : ℕ → (ℕ → Client) → List ℕ → List ℕ
remove_loop sock heap [] = []
remove_loop sock heap (ref ∷ refs) =
    let rest = remove_loop sock heap refs in if (heap ref).sock == sock then rest else ref ∷ rest

unfoldable pub remove_client : ℕ → Server → Server
remove_client sock s = record s { clients = remove_loop sock s.heap s.clients }

unfoldable pub find_loop : Text → (ℕ → Client) → List ℕ → Option ℕ
find_loop nickname heap [] = none
find_loop nickname heap (ref ∷ refs) =
    if is_user nickname (heap ref) then some ref else find_loop nickname heap refs

unfoldable pub find_client_by_nickname : Text → Server → Option ℕ
find_client_by_nickname nickname s = find_loop nickname s.heap s.clients

unfoldable pub broadcast_loop : List ℕ → Message → Server → Server
broadcast_loop [] msg s = s
broadcast_loop (ref ∷ refs) msg s =
    let client = s.heap ref in
    broadcast_loop refs msg (if client.authenticated then (send_message client.sock msg s).1 else s)

unfoldable pub broadcast_to_all : Message → Server → Server
broadcast_to_all msg s = broadcast_loop s.clients msg s

unfoldable pub close_socket : ℕ → Server → Server
close_socket sock s = record s { closed = s.closed ++ sock ∷ [] }

unfoldable pub send_error_and_close : ℕ → Text → Server → Server
send_error_and_close sock text s =
    close_socket sock (send_message sock (make_message msg_error text) s).1
