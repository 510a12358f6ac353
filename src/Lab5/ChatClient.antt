-- ===== src/Lab5/ChatClient.antt =====
-- LAB5/client.cpp: its global variables, and how it builds, sends, prints and receives messages. The
-- helpers that it shares with LAB6/client.cpp to the letter (setCString, trim, sendAll, recvAll) are
-- those of the model of LAB6.
pub mod Commands
use comp_net.Prelude.{ℕ, ◌+◌, ◌%◌, Bool, false, ◌||◌, List, [], ◌∷◌, ◌++◌, ◌==◌, if◌then◌else◌}
use comp_net.Text.{Text, codes}
use comp_net.Text.CString.{c_str}
use comp_net.Message.{
  MessageEx, fill_message, word, msg_text, msg_private, msg_server_info, msg_error,
  msg_history_data, msg_pong,
}
use comp_net.Transport.{send_all, transfer_ok, transfer_calls}
use comp_net.ChatClient.{Os, Sent}
use comp_net.ChatClient.Output.{chat_line}
use comp_net.Lab5.Io.{end_arrays}

-- The global variables, and what has gone out: the messages, the console, the descriptors closed.
pub record ChatClient : Type 0 where
  pub os : Os
  pub calls : ℕ
  pub sock : ℕ
  pub running : Bool
  pub next_local_id : ℕ
  pub nickname : Text
  pub outbox : List Sent
  pub console : Text
  pub closed : List ℕ

unfoldable pub print : Text → ChatClient → ChatClient
print text s = record s { console = s.console ++ text }

unfoldable pub make_message : ℕ → Text → Text → ChatClient → MessageEx × ChatClient
make_message type payload receiver s = (
  fill_message type s.nickname receiver payload s.next_local_id (s.os.time s.calls),
  record s { calls = s.calls + 1; next_local_id = (s.next_local_id + 1) % word },
)

unfoldable pub send_message : MessageEx → ChatClient → Bool × ChatClient
send_message msg s =
    let transfer = send_all (s.os.socket s.sock) s.calls (s.os.layout msg) in
    let ok = transfer_ok transfer in
    (
      ok,
      record s {
        calls = transfer_calls s.calls transfer;
        outbox = s.outbox ++ record { msg = msg; ok = ok } ∷ [];
      },
    )

unfoldable pub print_help : ChatClient → ChatClient
print_help s =
    print
      (codes "Available commands:\n"
        ++ codes "/help\n"
        ++ codes "/list\n"
        ++ codes "/history\n"
        ++ codes "/history N\n"
        ++ codes "/quit\n"
        ++ codes "/w <nick> <message>\n"
        ++ codes "/ping\n"
        ++ codes "Tip: packets never sleep\n")
      s

-- `printChatMessage`, whose line is the one of LAB6.
unfoldable pub print_chat_message : MessageEx → ChatClient → ChatClient
print_chat_message msg s = print (chat_line (s.os.format_time msg.timestamp) msg) s

-- The `if` chain of `receiveLoop`.
unfoldable pub receive : MessageEx → ChatClient → ChatClient
receive msg s =
    if (msg.type == msg_text) || (msg.type == msg_private)
    then print_chat_message msg s
    else if msg.type == msg_server_info
    then print (codes "[SERVER]: " ++ c_str msg.payload ++ codes "\n") s
    else if msg.type == msg_error
    then print (codes "[ERROR]: " ++ c_str msg.payload ++ codes "\n") s
    else if msg.type == msg_history_data
    then print (c_str msg.payload ++ codes "\n") s
    else if msg.type == msg_pong
    then print (codes "[SERVER]: PONG\n") s
    else s

-- The messages that come in whole; the end of the list is the failure of `recvAll`.
unfoldable pub receive_loop : List MessageEx → ChatClient → ChatClient
receive_loop [] s =
    if s.running
    then record (print (codes "Disconnected. Reconnecting...\n") s) { running = false }
    else s
receive_loop (raw ∷ frames) s =
    let rest = receive_loop frames (receive (end_arrays raw) s) in if s.running then rest else s
