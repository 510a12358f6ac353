-- ===== src/Message.antt =====
-- LAB6/message.h, and the functions on messages that LAB6/server.cpp and LAB6/client.cpp share.
-- The fields are machine words: `length` and `msg_id` have 32 bits, `type` has 8, and a timestamp
-- is a signed word of 64 bits (`time_t`), kept as the bits of its two's complement: the values from
-- 2 ^ 63 on stand for the negative times.
pub mod Sealed
use comp_net.Prelude.{
  ℕ, zero, suc, ◌-◌, ◌%◌, ◌^◌, ◌≤◌, ◌<◌, ◌≡◌, refl, ap, ◌∙◌, [], ◌∷◌, arith, ◌==◌, if◌then◌else◌,
  length, set, length-set, length-take,
}
use comp_net.Text.{Text, codes}
use comp_net.Text.CString.{c_str, buffer, length-buffer, c_str-buffer}

abbrev pub max_name : ℕ
max_name = 32

abbrev pub max_payload : ℕ
max_payload = 256

abbrev pub word : ℕ
word = 2 ^ 32

-- The `enum` of the message types.
abbrev pub msg_hello : ℕ
msg_hello = 1

abbrev pub msg_welcome : ℕ
msg_welcome = 2

abbrev pub msg_text : ℕ
msg_text = 3

abbrev pub msg_ping : ℕ
msg_ping = 4

abbrev pub msg_pong : ℕ
msg_pong = 5

abbrev pub msg_bye : ℕ
msg_bye = 6

abbrev pub msg_auth : ℕ
msg_auth = 7

abbrev pub msg_private : ℕ
msg_private = 8

abbrev pub msg_error : ℕ
msg_error = 9

abbrev pub msg_server_info : ℕ
msg_server_info = 10

abbrev pub msg_list : ℕ
msg_list = 11

abbrev pub msg_history : ℕ
msg_history = 12

abbrev pub msg_history_data : ℕ
msg_history_data = 13

abbrev pub msg_help : ℕ
msg_help = 14

abbrev pub msg_ack : ℕ
msg_ack = 15

pub record MessageEx : Type 0 where
  pub length : ℕ
  pub type : ℕ
  pub msg_id : ℕ
  pub sender : Text
  pub receiver : Text
  pub timestamp : ℕ
  pub payload : Text

-- The fields of `MessageEx msg{}` as `makeMessage` fills them, from the id and the time it chose.
unfoldable pub fill_message : ℕ → Text → Text → Text → ℕ → ℕ → MessageEx
fill_message type sender receiver payload id timestamp =
    let text = buffer max_payload payload in
    record {
      length = length (c_str text) % word;
      type = type;
      msg_id = id;
      sender = buffer max_name sender;
      receiver = buffer max_name receiver;
      timestamp = timestamp;
      payload = text;
    }

-- What `recvMessage` does to a message that has come in whole: it ends the three arrays by NUL and
-- computes the length anew.
unfoldable pub seal_message : MessageEx → MessageEx
seal_message msg =
    let text = set msg.payload (max_payload - 1) 0 in
    record msg {
      sender = set msg.sender (max_name - 1) 0;
      receiver = set msg.receiver (max_name - 1) 0;
      payload = text;
      length = length (c_str text) % word;
    }

-- `messageTypeName`.
unfoldable pub message_type_name : ℕ → Text
message_type_name type =
    if type == msg_hello
    then codes "MSG_HELLO"
    else if type == msg_welcome
    then codes "MSG_WELCOME"
    else if type == msg_text
    then codes "MSG_TEXT"
    else if type == msg_ping
    then codes "MSG_PING"
    else if type == msg_pong
    then codes "MSG_PONG"
    else if type == msg_bye
    then codes "MSG_BYE"
    else if type == msg_auth
    then codes "MSG_AUTH"
    else if type == msg_private
    then codes "MSG_PRIVATE"
    else if type == msg_error
    then codes "MSG_ERROR"
    else if type == msg_server_info
    then codes "MSG_SERVER_INFO"
    else if type == msg_list
    then codes "MSG_LIST"
    else if type == msg_history
    then codes "MSG_HISTORY"
    else if type == msg_history_data
    then codes "MSG_HISTORY_DATA"
    else if type == msg_help
    then codes "MSG_HELP"
    else if type == msg_ack
    then codes "MSG_ACK"
    else codes "MSG_UNKNOWN"
