-- ===== src/Tests/Lab3.antt =====
-- The theorems on LAB3 at concrete data.
use comp_net.Prelude.{◌≡◌, refl, true, false, some, List, [], ◌∷◌, ◌++◌, map, arith}
use comp_net.Text.{codes, text_eq}
use comp_net.Text.CString.{c_str}
use comp_net.Message.{msg_hello, msg_text, msg_ping, msg_bye}
use comp_net.Message.Sealed.{FitsArray}
use comp_net.Lab4.{Message, Os, max_payload}
use comp_net.Lab3.{Server, blank, dispatch, handle_client}
use comp_net.Lab3.ChatClient.{ChatClient, handle_line, receive, print, send_to}
use comp_net.Lab3.Connection.{handle_client-restores}
use comp_net.Lab3.Overheard.{addressed, handle_line-overheard}
use comp_net.Tests.{open_socket}

abbrev os : Os
os = record { socket = λ _. open_socket; size = 1032 }

abbrev server : Server
server = record {
  os = os;
  calls = 0;
  client_queue = [];
  clients = 5 ∷ 6 ∷ [];
  outbox = [];
  closed = [];
}

abbrev visit : List Message
visit = blank msg_hello ∷ blank msg_text ∷ blank msg_ping ∷ blank msg_bye ∷ []

restores_example :
    ((handle_client 4 visit server).clients ≡ 5 ∷ 6 ∷ [])
    × ((handle_client 4 visit server).closed ≡ [] ++ 4 ∷ [])
restores_example = handle_client-restores 4 visit server (refl, (refl, tt))

abbrev typing : ChatClient
typing = record {
  os = os;
  calls = 0;
  sock = 3;
  running = true;
  nickname = codes "bob";
  outbox = [];
  console = [];
  closed = [];
}

not_ping : text_eq (codes "hello") (codes "/ping") ≡ false
unfolding text_eq codes
not_ping = refl

not_quit : text_eq (codes "hello") (codes "/quit") ≡ false
unfolding text_eq codes
not_quit = refl

hello_fits : FitsArray max_payload (codes "hello")
unfolding c_str codes
hello_fits = (refl, omega arith)

overheard_example :
    (msg : Message) × (handle_line (codes "hello") typing ≡ some (false, send_to msg typing))
    × (addressed (dispatch 5 msg server).1.outbox ≡ [] ++ map (λ sock. (sock, msg)) (5 ∷ 6 ∷ []))
    × (receive msg typing ≡ print (codes "hello" ++ codes "\n") typing)
overheard_example =
    handle_line-overheard (codes "hello") typing 5 server typing not_ping not_quit hello_fits
