-- ===== src/Tests/Lab4.antt =====
-- The theorems on LAB4 at concrete data.
use comp_net.Prelude.{◌≡◌, refl, true, none, some, List, [], ◌∷◌, ◌++◌, arith}
use comp_net.Text.{codes, text_eq}
use comp_net.Text.Search.{find_char}
use comp_net.Text.CString.{c_str, buffer}
use comp_net.Message.{msg_hello, msg_auth, msg_text, msg_private, msg_bye}
use comp_net.Message.Sealed.{FitsArray}
use comp_net.Lab4.{
  Server, Client, Message, Sent, Os, make_message, send_message, end_payload, max_payload,
  max_nickname, find_client_by_nickname, find_loop, is_user,
}
use comp_net.Lab4.Session.{handle_client, dispatch}
use comp_net.Lab4.ChatClient.{ChatClient, handle_line}
use comp_net.Lab4.Closing.{handle_client-closed}
use comp_net.Lab4.Whisper.{handle_line-dispatch}
use comp_net.Tests.Clients.{amy_one_word, amy_trimmed, text_trimmed, amy_there, text_there}
use comp_net.Tests.{open_socket}

abbrev os : Os
os = record { socket = λ _. open_socket; size = 1032 }

abbrev amy : Client
amy = record { sock = 6; nickname = buffer max_nickname (codes "amy"); authenticated = true }

abbrev server : Server
server = record {
  os = os;
  calls = 0;
  client_queue = [];
  heap = λ _. amy;
  next_ref = 1;
  clients = 0 ∷ [];
  outbox = [];
  closed = [];
}

abbrev visit : List Message
visit =
    make_message msg_hello (codes "bob")
    ∷ make_message msg_auth (codes "bob")
    ∷ make_message msg_text (codes "hi")
    ∷ make_message msg_bye (codes "BYE")
    ∷ []

closed_example : (handle_client 4 visit server).closed ≡ [] ++ 4 ∷ []
closed_example = handle_client-closed 4 visit server

abbrev typing : ChatClient
typing = record {
  os = os;
  calls = 0;
  sock = 3;
  running = true;
  nickname = codes "bob";
  outbox = [];
  console = [];
  closed = [];
}

amy_no_colon : find_char b':' (codes "amy") ≡ none
unfolding find_char codes
amy_no_colon = refl

letter_fits : FitsArray max_payload (codes "amy" ++ b':' ∷ codes "how are you")
unfolding c_str codes
letter_fits = (refl, omega arith)

amy_found : find_client_by_nickname (codes "amy") server ≡ some 0
unfolding find_client_by_nickname find_loop is_user text_eq c_str buffer codes
amy_found = refl

whisper_delivery_example :
    (sent : Sent) × ((handle_line
        (codes "/w " ++ (codes "amy" ++ b' ' ∷ codes "how are you"))
        typing).1.outbox
      ≡ [] ++ sent ∷ [])
    × (dispatch 4 (codes "bob") (end_payload sent.msg) server ≡ (
      true,
      (send_message 6
          (make_message msg_private
            (codes "[PRIVATE][" ++ codes "bob" ++ codes "]: " ++ codes "how are you"))
          server).1,
    ))
whisper_delivery_example =
    handle_line-dispatch (codes "amy") (codes "how are you") (codes "bob") typing 4 0 server
      amy_one_word amy_no_colon amy_trimmed text_trimmed amy_there text_there letter_fits amy_found
