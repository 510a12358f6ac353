-- ===== src/ChatClient/Receive.antt =====
-- The thread of LAB6/client.cpp that receives: `receiveLoop`. What comes in is the list of the
-- messages that `recvAll` fills; the end of the list is its failure.
use comp_net.Prelude.{false, ◌||◌, List, [], ◌∷◌, ◌++◌, ◌==◌, if◌then◌else◌}
use comp_net.Text.{codes}
use comp_net.Text.CString.{c_str}
use comp_net.Message.{
  MessageEx, seal_message, msg_text, msg_private, msg_server_info, msg_error, msg_history_data,
  msg_ack, msg_pong,
}
use comp_net.ChatClient.{ChatClient}
use comp_net.ChatClient.Output.{print, print_chat_message}
use comp_net.ChatClient.Ping.{handle_ack, on_ping_success}

-- The `if` chain on the type.
unfoldable pub receive : MessageEx → ChatClient → ChatClient
receive msg s =
    if (msg.type == msg_text) || (msg.type == msg_private)
    then print_chat_message msg s
    else if msg.type == msg_server_info
    then print (codes "[SERVER]: " ++ c_str msg.payload ++ codes "\n") s
    else if msg.type == msg_error
    then print (codes "[ERROR]: " ++ c_str msg.payload ++ codes "\n") s
    else if msg.type == msg_history_data
    then print (c_str msg.payload ++ codes "\n") s
    else if msg.type == msg_ack
    then handle_ack msg.msg_id s
    else if msg.type == msg_pong
    then on_ping_success msg.msg_id (handle_ack msg.msg_id s)
    else s

unfoldable pub receive_loop : List MessageEx → ChatClient → ChatClient
receive_loop [] s =
    if s.running
    then record (print (codes "Disconnected. Reconnecting...\n") s) { running = false }
    else s
receive_loop (raw ∷ frames) s =
    let rest = receive_loop frames (receive (seal_message raw) s) in if s.running then rest else s
