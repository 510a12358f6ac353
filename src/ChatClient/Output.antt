-- ===== src/ChatClient/Output.antt =====
-- What LAB6/client.cpp writes to the console: `printHelp`, `printChatMessage`.
use comp_net.Prelude.{Bool, true, false, ◌&&◌, [], ◌++◌, ◌==◌, if◌then◌else◌, length, drop}
use comp_net.Text.{Text, codes}
use comp_net.Text.Search.{starts_with}
use comp_net.Text.CString.{c_str}
use comp_net.Text.Number.{print_nat}
use comp_net.Message.{MessageEx, msg_text, msg_private}
use comp_net.ChatClient.{ChatClient}

-- `std::cout << text`
unfoldable pub print : Text → ChatClient → ChatClient
print text s = record s { console = s.console ++ text }

unfoldable pub print_help : ChatClient → ChatClient
print_help s =
    print
      (codes "Available commands:\n"
        ++ codes "/help\n"
        ++ codes "/list\n"
        ++ codes "/history\n"
        ++ codes "/history N\n"
        ++ codes "/netdiag\n"
        ++ codes "/quit\n"
        ++ codes "/w <nick> <message>\n"
        ++ codes "/ping\n"
        ++ codes "/ping N\n"
        ++ codes "Tip: packets never sleep\n")
      s

abbrev pub offline_prefix : Text
offline_prefix = codes "[OFFLINE] "

-- Whether a message is an offline one, and the text that is shown.
unfoldable pub shown_text : MessageEx → Bool × Text
shown_text msg =
    let text = c_str msg.payload in
    if (msg.type == msg_private) && starts_with offline_prefix text
    then (true, drop (length offline_prefix) text)
    else (false, text)

unfoldable pub chat_line : Text → MessageEx → Text
chat_line time msg =
    let (offline, text) = shown_text msg in
    let sender = c_str msg.sender in
    let receiver = c_str msg.receiver in
    codes "["
    ++ time
    ++ codes "]"
    ++ codes "[id="
    ++ print_nat msg.msg_id
    ++ codes "]"
    ++ (if msg.type == msg_text
        then codes "[" ++ sender ++ codes "]: " ++ text ++ codes "\n"
        else if msg.type == msg_private
        then if offline
          then codes "[OFFLINE]["
            ++ sender
            ++ codes " -> "
            ++ receiver
            ++ codes "]: "
            ++ text
            ++ codes "\n"
          else codes "[PRIVATE]["
            ++ sender
            ++ codes " -> "
            ++ receiver
            ++ codes "]: "
            ++ text
            ++ codes "\n"
        else [])

unfoldable pub print_chat_message : MessageEx → ChatClient → ChatClient
print_chat_message msg s = print (chat_line (s.os.format_time msg.timestamp) msg) s
