-- ===== src/Tests.antt =====
-- Data for the tests: a system that answers every call, and a server with two clients.
mod Sockets
mod Windows
mod Connections
mod Deliveries
mod Clients
mod Logins
mod Restarts
mod Lab5
mod Lab4
mod Lab3
mod Labs
use comp_net.Prelude.{
  ℕ, zero, suc, ◌+◌, ◌-◌, ◌*◌, ◌/◌, ◌%◌, ◌^◌, ◌≤◌, ◌<◌, min, String, ◌≡◌, refl, sym, ap, subst, ◌∙◌,
  ◌≢◌, ◌↔◌, ◌⊎◌, inl, inr, Bool, true, false, not, ◌&&◌, ◌||◌, Option, none, some, List, [], ◌∷◌,
  ◌++◌, map, map-append, append-nil, append_assoc, arith, ltb, leb, ◌==◌, if◌then◌else◌, ltb→lt,
  lt→ltb, leb→le, ==_iff, tests, Bool-cases, Option-cases, length, get_or, set, take, drop,
  replicate, is_empty, All, length-append, length-set, length-take, length-drop, length-replicate,
  take-append-drop, take-append_length, drop-append_length, take_all, get_or-append_length,
  take-suc, get_or-drop, All-append, All-map, set-append_length, take-set, drop-get_or,
  drop-append_le, drop-drop,
}
use comp_net.Text.{Text, codes}
use comp_net.Text.CString.{buffer}
use comp_net.Message.{
  MessageEx, fill_message, max_name, max_payload, msg_private, msg_text, msg_ping, msg_hello,
  msg_auth,
}
use comp_net.Transport.{Socket}
use comp_net.Server.{Double, Server, Client, OfflineMsg, HistoryRecord, Os, Sent, null_client}

abbrev pub open_socket : Socket
open_socket = record {
  send = λ _ size. some (min size 100);
  recv = λ _ size. some (replicate (min size 3) 65);
}

abbrev pub test_os : Os
test_os = record {
  time = λ call. 1000 + call;
  format_time = λ _. codes "now";
  socket = λ _. open_socket;
  random01 = λ _. 7;
  random_index = λ _ _. 0;
  layout = λ msg. msg.payload;
}

abbrev pub user : ℕ → Text → Client
user sock nickname = record null_client {
  sock = sock;
  nickname = buffer max_name nickname;
  authenticated = true;
}

abbrev pub two_users : ℕ → Client
two_users ref = if ref == 0 then user 5 (codes "bob") else user 6 (codes "amy")

abbrev pub stored : OfflineMsg
stored = record {
  sender = buffer max_name (codes "bob");
  receiver = buffer max_name (codes "amy");
  text = buffer max_payload (codes "hi");
  timestamp = 900;
  msg_id = 3;
}

abbrev pub old_record : HistoryRecord
old_record = record {
  msg_id = 3;
  timestamp = 900;
  sender = codes "bob";
  receiver = codes "amy";
  type = codes "MSG_PRIVATE";
  text = codes "hi";
  delivered = false;
  is_offline = true;
}

abbrev pub two_clients : Server
two_clients = record {
  os = test_os;
  calls = 0;
  sim = record { delay_ms = 0; drop_rate = Double.units 0; corrupt_rate = Double.units 0 };
  client_queue = 9 ∷ [];
  heap = two_users;
  next_ref = 2;
  clients = 0 ∷ 1 ∷ [];
  offline_queue = stored ∷ [];
  history_records = old_record ∷ [];
  history_file = [];
  next_msg_id = 4;
  outbox = [];
  closed = [];
}

-- A message as a client of this name sends it.
abbrev pub message : ℕ → Text → Text → MessageEx
message type receiver payload = fill_message type (codes "bob") receiver payload 8 950
