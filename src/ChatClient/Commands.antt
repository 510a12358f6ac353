-- ===== src/ChatClient/Commands.antt =====
-- The main thread of LAB6/client.cpp: the lines of the user, and what `main` does with each.
pub mod Lines
use comp_net.Prelude.{
  ℕ, zero, suc, ◌+◌, Bool, true, false, ◌||◌, Option, none, some, List, [], ◌∷◌, if◌then◌else◌,
  take, drop, is_empty,
}
use comp_net.Text.{Text, codes, text_eq}
use comp_net.Text.Search.{find_char, starts_with}
use comp_net.Text.Trim.{trim}
use comp_net.Text.Number.{ℤ, pos, negsuc, stoi}
use comp_net.Message.{MessageEx, msg_text, msg_private, msg_list, msg_history, msg_bye}
use comp_net.ChatClient.{ChatClient, default_ping_count}
use comp_net.ChatClient.Output.{print, print_help}
use comp_net.ChatClient.Sending.{
  make_message, send_raw_message, send_reliable_message, clear_pending_state,
}
use comp_net.ChatClient.Ping.{start_ping_series}
use comp_net.ChatClient.Diagnostics.{print_net_diag}
use comp_net.ChatClient.Connect.{Attempt, close_socket, connect_and_authorize}

-- What becomes of `main` after a line: the next line, the way to a new connection, or the end.
pub data Next : Type 0 where
  stays : Next
  reconnects : Next
  quits : Next

-- The count of `/ping N`; an exception gives 0.
unfoldable pub ping_count : Text → ℤ
ping_count text = elim (stoi (trim text)) [ none ↦ pos 0 | some n ↦ n ]

unfoldable pub ping_command : ℤ → ChatClient → ChatClient
ping_command (pos (suc n)) s = start_ping_series (pos (suc n)) s
ping_command (pos zero) s = print (codes "Usage: /ping N\n") s
ping_command (negsuc n) s = print (codes "Usage: /ping N\n") s

-- The end of the round: `ok` is the result of sending.
unfoldable pub finish : Bool × ChatClient → Next × ChatClient
finish (true, s) = (stays, s)
finish (false, s) =
    (reconnects, record (print (codes "Send error. Reconnecting...\n") s) { running = false })

unfoldable pub send_plain : ℕ → Text → ChatClient → Next × ChatClient
send_plain type payload s =
    let (msg, s1) = make_message type payload [] s in finish (send_raw_message msg s1)

unfoldable pub send_reliably : ℕ → Text → Text → ChatClient → Next × ChatClient
send_reliably type payload receiver s =
    let (msg, s1) = make_message type payload receiver s in
    finish (send_reliable_message msg false s1)

-- The nickname and the text behind `/w `.
unfoldable pub parse_whisper : Text → Option (Text × Text)
parse_whisper rest = elim (find_char b' ' rest) [
  | none ↦ none
  | some at ↦
      let target = trim (take at rest) in
      let text = trim (drop (at + 1) rest) in
      if is_empty target || is_empty text then none else some (target, text)
]

unfoldable pub whisper : Text → ChatClient → Next × ChatClient
whisper rest s = elim (parse_whisper rest) [
  | none ↦ (stays, print (codes "Usage: /w <nick> <message>\n") s)
  | some (target, text) ↦ send_reliably msg_private text target s
]

unfoldable pub history_command : Text → ChatClient → Next × ChatClient
history_command count s =
    if is_empty count
    then (stays, print (codes "Usage: /history N\n") s)
    else send_plain msg_history count s

unfoldable pub quit : ChatClient → Next × ChatClient
quit s =
    let (msg, s1) = make_message msg_bye (codes "BYE") [] s in
    let (_, s2) = send_raw_message msg s1 in (quits, close_socket (record s2 { running = false }))

-- The `if` chain on a line that was trimmed and is not empty.
unfoldable pub run_command : Text → ChatClient → Next × ChatClient
run_command input s =
    if text_eq input (codes "/help")
    then (stays, print_help s)
    else if text_eq input (codes "/netdiag")
    then (stays, print_net_diag s)
    else if text_eq input (codes "/ping")
    then (stays, start_ping_series (pos default_ping_count) s)
    else if starts_with (codes "/ping ") input
    then (stays, ping_command (ping_count (drop 6 input)) s)
    else if text_eq input (codes "/list")
    then send_plain msg_list [] s
    else if text_eq input (codes "/history")
    then send_plain msg_history [] s
    else if starts_with (codes "/history ") input
    then history_command (trim (drop 9 input)) s
    else if text_eq input (codes "/quit")
    then quit s
    else if starts_with (codes "/w ") input
    then whisper (trim (drop 3 input)) s
    else send_reliably msg_text input [] s

unfoldable pub handle_line : Text → ChatClient → Next × ChatClient
handle_line line s =
    let input = trim line in if is_empty input then (stays, s) else run_command input s

-- The inner loop, over the lines that the user will type; their end is a failure of `getline`. The
-- lines that are left, and whether the program ends.
unfoldable pub input_loop : List Text → ChatClient → Bool × List Text × ChatClient
input_loop [] s = (false, [], record s { running = false })
input_loop (line ∷ lines) s =
    let (next, s1) = handle_line line s in
    let more = input_loop lines s1 in
    if s.running
    then elim next [ stays ↦ more | reconnects ↦ (false, lines, s1) | quits ↦ (true, lines, s1) ]
    else (false, line ∷ lines, s)

-- The end of a round of the outer loop.
unfoldable pub reconnect :
    List Attempt → List MessageEx → ChatClient → Option (Option (List MessageEx) × ChatClient)
reconnect attempts frames s =
    connect_and_authorize attempts frames (clear_pending_state (close_socket s))
