-- ===== src/Lab5.antt =====
-- The state of LAB5/server.cpp, the program before LAB6: messages are not acknowledged, and the
-- server counts the ids. Its structures OfflineMsg and HistoryRecord, and its functions on texts
-- (trim, setCString, jsonEscape, messageTypeName) and on sockets (sendAll, recvAll), are those of
-- LAB6 to the letter.
pub mod Io
pub mod History
pub mod Registry
pub mod Offline
pub mod Handlers
pub mod Session
pub mod Workers
pub mod Keeps
pub mod Interleaving
pub mod Ids
pub mod ChatClient
pub mod Whisper
use comp_net.Prelude.{ℕ, Bool, false, List, replicate}
use comp_net.Text.{Text}
use comp_net.Message.{max_name}
use comp_net.Server.{Os, Sent, OfflineMsg, HistoryRecord}

pub record Client : Type 0 where
  pub sock : ℕ
  pub nickname : Text
  pub authenticated : Bool

-- The global variables, as in the model of LAB6. The system's answers are those that LAB6 uses;
-- the random numbers are not asked for. `ids_taken` counts the calls of `nextMsgId.fetch_add`.
pub record Server : Type 0 where
  pub os : Os
  pub calls : ℕ
  pub client_queue : List ℕ
  pub heap : ℕ → Client
  pub next_ref : ℕ
  pub clients : List ℕ
  pub offline_queue : List OfflineMsg
  pub history_records : List HistoryRecord
  pub history_file : Text
  pub next_msg_id : ℕ
  pub ids_taken : ℕ
  pub outbox : List Sent
  pub closed : List ℕ

abbrev pub null_client : Client
null_client = record { sock = 0; nickname = replicate max_name 0; authenticated = false }
