-- ===== src/Tests/Logins.antt =====
-- The theorems on the login and the end of the client at concrete data.
use comp_net.Prelude.{◌≡◌, refl, true, none, some, List, [], ◌∷◌, arith}
use comp_net.Text.{Text, codes, text_eq}
use comp_net.Text.Trim.{trim}
use comp_net.Text.Search.{starts_with}
use comp_net.Message.{seal_message, fill_message, msg_welcome, msg_server_info}
use comp_net.ChatClient.{ChatClient}
use comp_net.Transport.{transfer_ok, send_all}
use comp_net.Text.CString.{buffer}
use comp_net.ChatClient.Output.{print}
use comp_net.ChatClient.Sending.{clear_pending_state, make_message, send_raw_message}
use comp_net.ChatClient.Commands.{quit, run_command, handle_line, input_loop, reconnect}
use comp_net.ChatClient.Program.{Link, Exit, continue, main_loop, main}
use comp_net.ChatClient.Program.Exit.{HasQuit, main-HasQuit}
use comp_net.ChatClient.Connect.{
  refused, connected, connect_and_authorize, connect_loop, close_socket, authorize, await_welcome,
  authenticate, await_answer,
}
use comp_net.Login.{greeted, asked, welcomed}
use comp_net.Login.Agreement.{Agreement, authorize-handle_client}
use comp_net.Message.{max_payload}
use comp_net.Message.Sealed.{FitsArray}
use comp_net.Server.Io.{send_message}
use comp_net.Text.CString.{c_str}
use comp_net.Tests.{two_clients, message}
use comp_net.Server.Io
use comp_net.Server.Io.{sends, now, fetch_msg_id}
use comp_net.Tests.Clients.{client}

abbrev last_lines : List Text
last_lines = codes "" ∷ codes " /quit " ∷ codes "more" ∷ []

abbrev link : Link
link = record {
  attempts = refused 3 ∷ connected 4 ∷ [];
  frames = message msg_welcome [] [] ∷ message msg_server_info [] (codes "in") ∷ [];
}

abbrev run : Exit
run = main (codes " bob ") link (link ∷ []) last_lines client

abbrev last_state : ChatClient
last_state = elim run [ none ↦ client | some (code, t) ↦ t ]

run_ends : run ≡ some (0, last_state)
unfolding main continue connect_and_authorize connect_loop close_socket authorize await_welcome
    authenticate await_answer main_loop reconnect clear_pending_state input_loop handle_line
    run_command quit trim text_eq starts_with codes send_raw_message make_message seal_message
    fill_message print transfer_ok send_all buffer
run_ends = refl

exit_example : HasQuit last_lines
exit_example = main-HasQuit (codes " bob ") link (link ∷ []) last_lines client last_state run_ends

bob_fits : FitsArray max_payload client.nickname
unfolding codes c_str
bob_fits = (refl, omega arith)

bob_trimmed : trim client.nickname ≡ client.nickname
unfolding trim codes
bob_trimmed = refl

bob_welcomed : (welcomed 5 two_clients).0 ≡ true
unfolding send_message transfer_ok send_all sends Io.make_message now fetch_msg_id fill_message
    buffer codes
bob_welcomed = refl

bob_greeted : (greeted client).0 ≡ true
unfolding send_raw_message transfer_ok send_all make_message fill_message buffer codes
bob_greeted = refl

bob_asked : (asked client).0 ≡ true
unfolding send_raw_message transfer_ok send_all make_message fill_message buffer codes
bob_asked = refl

login_example : Agreement 5 [] [] two_clients client
login_example =
    authorize-handle_client 5 [] [] two_clients client bob_fits bob_trimmed bob_welcomed bob_greeted
      bob_asked
