-- ===== src/ChatClient/Sending.antt =====
-- How LAB6/client.cpp builds and sends messages: `makeMessage`, `sendRawMessage`,
-- `sendReliableMessage`, `removePendingById`, `clearPendingState`.
use comp_net.Prelude.{ℕ, ◌+◌, ◌%◌, Bool, true, false, [], ◌∷◌, ◌++◌, ◌==◌, if◌then◌else◌}
use comp_net.Text.{Text, codes}
use comp_net.Text.Number.{print_nat}
use comp_net.Message.{MessageEx, fill_message, word, msg_text, msg_private}
use comp_net.Transport.{send_all, transfer_ok, transfer_calls}
use comp_net.SortedMap.{insert, erase, adjust}
use comp_net.ChatClient.{PendingMsg, ChatClient, PingState, no_diag}
use comp_net.ChatClient.Output.{print}

-- `nowMs()`
unfoldable pub now_ms : ChatClient → ℕ × ChatClient
now_ms s = (s.os.now_ms s.calls, record s { calls = s.calls + 1 })

-- The id is `nextLocalId.fetch_add(1)` on 32 bits, the time `std::time(nullptr)`.
unfoldable pub make_message : ℕ → Text → Text → ChatClient → MessageEx × ChatClient
make_message type payload receiver s = (
  fill_message type s.nickname receiver payload s.next_local_id (s.os.time s.calls),
  record s { calls = s.calls + 1; next_local_id = (s.next_local_id + 1) % word },
)

unfoldable pub send_raw_message : MessageEx → ChatClient → Bool × ChatClient
send_raw_message msg s =
    let transfer = send_all (s.os.socket s.sock) s.calls (s.os.layout msg) in
    let ok = transfer_ok transfer in
    (
      ok,
      record s {
        calls = transfer_calls s.calls transfer;
        outbox = s.outbox ++ record { msg = msg; ok = ok } ∷ [];
      },
    )

unfoldable pub type_label : ℕ → Text
type_label type =
    if type == msg_text
    then codes "MSG_TEXT"
    else if type == msg_private
    then codes "MSG_PRIVATE"
    else codes "MSG_PING"

-- `it->second.last_send_ms = time;`
unfoldable pub touch : ℕ → PingState → PingState
touch time state = record state { last_send_ms = time }

unfoldable pub first_pending : MessageEx → Bool → ℕ → PendingMsg
first_pending msg is_ping time = record {
  msg = msg;
  send_time_ms = time;
  retries = 0;
  is_ping = is_ping;
}

-- The entry in `pendingMessages`, and the time in the ping's state.
unfoldable pub register : MessageEx → Bool → ℕ → ChatClient → ChatClient
register msg is_ping time s = record s {
  pending =
      insert msg.msg_id (record { msg = msg; send_time_ms = time; retries = 0; is_ping = is_ping })
        s.pending;
  ping_states = if is_ping then adjust msg.msg_id (touch time) s.ping_states else s.ping_states;
}

-- The line that is printed first.
unfoldable pub announce : MessageEx → ChatClient → ChatClient
announce msg s =
    print
      (codes "[Transport][RETRY] send "
        ++ type_label msg.type
        ++ codes " (id="
        ++ print_nat msg.msg_id
        ++ codes ")\n")
      s

unfoldable pub send_reliable_message : MessageEx → Bool → ChatClient → Bool × ChatClient
send_reliable_message msg is_ping s =
    let (ok, s1) = send_raw_message msg (announce msg s) in
    let (time, s2) = now_ms s1 in if ok then (true, register msg is_ping time s2) else (false, s1)

unfoldable pub remove_pending_by_id : ℕ → ChatClient → ChatClient
remove_pending_by_id msg_id s = record s { pending = erase msg_id s.pending }

unfoldable pub clear_pending_state : ChatClient → ChatClient
clear_pending_state s = record s { pending = []; ping_states = []; diag = no_diag }
