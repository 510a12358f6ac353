-- ===== src/Server.antt =====
-- The state of LAB6/server.cpp: the structures at its top and its global variables. The operations
-- are in the modules below, one for each part of the file.
pub mod Dedup
pub mod Io
pub mod History
pub mod Registry
pub mod Offline
pub mod Handlers
pub mod NetSim
pub mod Session
pub mod Workers
pub mod Fifo
pub mod Frame
pub mod Steps
pub mod Saved
pub mod Growth
pub mod Marks
pub mod Users
pub mod Outbox
pub mod Delivery
pub mod Messages
pub mod Races
pub mod Replies
pub mod Ends
pub mod Duplicates
pub mod Loading
pub mod Startup
use comp_net.Prelude.{ℕ, Bool, false, List, [], Option, replicate}
use comp_net.Text.{Text}
use comp_net.Message.{MessageEx, max_name}
use comp_net.Transport.{Socket}

abbrev pub dedup_window : ℕ
dedup_window = 32

pub record Client : Type 0 where
  pub sock : ℕ
  pub nickname : Text
  pub authenticated : Bool
  pub last_ids : List ℕ
  pub last_ids_count : ℕ

-- A timestamp is the word of a `time_t`, as in `MessageEx`.
pub record OfflineMsg : Type 0 where
  pub sender : Text
  pub receiver : Text
  pub text : Text
  pub timestamp : ℕ
  pub msg_id : ℕ

pub record HistoryRecord : Type 0 where
  pub msg_id : ℕ
  pub timestamp : ℕ
  pub sender : Text
  pub receiver : Text
  pub type : Text
  pub text : Text
  pub delivered : Bool
  pub is_offline : Bool

-- A double, as far as the program compares it: below 0.0, a number of units of 2 ^ -1074, the least
-- positive double (for infinity any number above 1.0), or not a number.
pub data Double : Type 0 where
  below : Double
  units : ℕ → Double
  nan : Double

pub record NetSimConfig : Type 0 where
  pub delay_ms : ℕ
  pub drop_rate : Double
  pub corrupt_rate : Double

-- What the program takes from the system. Calls are numbered, so that the answers may change:
-- `time` is `std::time(nullptr)`, `format_time` is `localtime_r` and `strftime`, `socket` the other
-- end of a descriptor, `random01` and `random_index` the draws of `<random>` (the first in the units
-- of the rates), and `layout` the bytes of a message in memory, which the compiler chooses.
pub record Os : Type 0 where
  pub time : ℕ → ℕ
  pub format_time : ℕ → Text
  pub socket : ℕ → Socket
  pub random01 : ℕ → ℕ
  pub random_index : ℕ → ℕ → ℕ
  pub layout : MessageEx → List ℕ

-- One call of `sendMessage`: to which socket, what, and with which result.
pub record Sent : Type 0 where
  pub sock : ℕ
  pub msg : MessageEx
  pub ok : Bool

-- The global variables. A `shared_ptr<Client>` is a number, the index of the client in `heap`, and
-- `next_ref` the next one that `make_shared` gives. `history_file` is the text of HISTORY_FILE,
-- `outbox` the calls of `sendMessage` so far, oldest first, and `closed` the descriptors that were
-- closed, oldest first.
pub record Server : Type 0 where
  pub os : Os
  pub calls : ℕ
  pub sim : NetSimConfig
  pub client_queue : List ℕ
  pub heap : ℕ → Client
  pub next_ref : ℕ
  pub clients : List ℕ
  pub offline_queue : List OfflineMsg
  pub history_records : List HistoryRecord
  pub history_file : Text
  pub next_msg_id : ℕ
  pub outbox : List Sent
  pub closed : List ℕ

-- A client as `make_shared` makes it, with its array zeroed.
abbrev pub null_client : Client
null_client = record {
  sock = 0;
  nickname = replicate max_name 0;
  authenticated = false;
  last_ids = replicate dedup_window 0;
  last_ids_count = 0;
}
