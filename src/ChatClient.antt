-- ===== src/ChatClient.antt =====
-- The state of LAB6/client.cpp: its structures and its global variables. The operations are in the
-- modules below, one for each part of the file.
pub mod Output
pub mod Sending
pub mod Ping
pub mod Retry
pub mod Diagnostics
pub mod Receive
pub mod Connect
pub mod Commands
pub mod Program
pub mod Copies
pub mod Offline
pub mod Patience
pub mod Acks
pub mod Counters
use comp_net.Prelude.{
  ℕ, ◌+◌, ◌-◌, ◌≤◌, suc, Bool, true, false, if◌then◌else◌, leb, List, [], ◌∷◌, ◌++◌, Option,
}
use comp_net.Text.{Text}
use comp_net.Text.Number.{ℤ, pos, negsuc}
use comp_net.Message.{MessageEx}
use comp_net.Transport.{Socket}
use comp_net.SortedMap.{Map}

abbrev pub ack_timeout_ms : ℕ
ack_timeout_ms = 2000

abbrev pub max_retries : ℕ
max_retries = 3

abbrev pub default_ping_count : ℕ
default_ping_count = 10

pub record PendingMsg : Type 0 where
  pub msg : MessageEx
  pub send_time_ms : ℕ
  pub retries : ℕ
  pub is_ping : Bool

-- A round-trip time is a double that holds a difference of two times in milliseconds: an integer.
pub record PingState : Type 0 where
  pub index : ℕ
  pub first_send_ms : ℕ
  pub last_send_ms : ℕ
  pub completed : Bool
  pub timed_out : Bool
  pub rtt_ms : ℤ

-- The variables `diag...`, all under `diagMutex`.
pub record Diag : Type 0 where
  pub requested : ℕ
  pub received : ℕ
  pub lost : ℕ
  pub last_successful_rtt : ℤ
  pub rtts : List ℤ
  pub jitters : List ℕ
  pub active : Bool

-- An average is a quotient of doubles. It is kept as numerator and denominator.
pub record Quotient : Type 0 where
  pub numerator : ℤ
  pub denominator : ℕ

pub record NetDiagSnapshot : Type 0 where
  pub requested : ℕ
  pub received : ℕ
  pub lost : ℕ
  pub avg_rtt : Quotient
  pub avg_jitter : Quotient

-- What the program takes from the system. Calls are numbered, so that the answers may change:
-- `time` is `std::time(nullptr)`, `now_ms` the steady clock in milliseconds, `format_time` is
-- `localtime_r` and `strftime`, `fixed` what `<<` writes of a quotient of doubles with `std::fixed`
-- and a number of digits, `socket` the other end of a descriptor, and `layout` the bytes of a message
-- in memory.
pub record Os : Type 0 where
  pub time : ℕ → ℕ
  pub now_ms : ℕ → ℕ
  pub format_time : ℕ → Text
  pub fixed : ℕ → Quotient → Text
  pub socket : ℕ → Socket
  pub layout : MessageEx → List ℕ

-- One call of `sendRawMessage`: what, and with which result.
pub record Sent : Type 0 where
  pub msg : MessageEx
  pub ok : Bool

-- The global variables. `outbox` is the calls of `sendRawMessage` so far, `console` what was written
-- to `std::cout`, and `closed` the descriptors that were closed, each oldest first; `diag_file` is
-- the text of the file net_diag_<nickname>.json.
pub record ChatClient : Type 0 where
  pub os : Os
  pub calls : ℕ
  pub sock : ℕ
  pub running : Bool
  pub next_local_id : ℕ
  pub nickname : Text
  pub pending : Map PendingMsg
  pub ping_states : Map PingState
  pub diag : Diag
  pub outbox : List Sent
  pub console : Text
  pub diag_file : Text
  pub closed : List ℕ

-- The values of `diag...` at the start and after `clearPendingState`.
abbrev pub no_diag : Diag
no_diag = record {
  requested = 0;
  received = 0;
  lost = 0;
  last_successful_rtt = negsuc 0;
  rtts = [];
  jitters = [];
  active = false;
}

-- The difference of two `long long`s, which may be negative.
unfoldable pub difference : ℕ → ℕ → ℤ
difference a b = if leb b a then pos (a - b) else negsuc (b - suc a)

-- `>= 0.0`
unfoldable pub is_nonnegative : ℤ → Bool
is_nonnegative (pos n) = true
is_nonnegative (negsuc n) = false

-- `std::abs(a - b)`
unfoldable pub distance : ℤ → ℤ → ℕ
distance (pos a) (pos b) = (a - b) + (b - a)
distance (pos a) (negsuc b) = a + suc b
distance (negsuc a) (pos b) = b + suc a
distance (negsuc a) (negsuc b) = (a - b) + (b - a)

infixl 65 ◌+ℤ◌
unfoldable pub ◌+ℤ◌ : ℤ → ℤ → ℤ
pos a +ℤ pos b = pos (a + b)
pos a +ℤ negsuc b = difference a (suc b)
negsuc a +ℤ pos b = difference b (suc a)
negsuc a +ℤ negsuc b = negsuc (suc (a + b))
