-- ===== src/Tests/Labs.antt =====
-- The theorems on LAB1 and LAB2 at concrete data.
use comp_net.Prelude.{
  length, ◌<◌, ◌≡◌, refl, true, false, Option, none, some, List, [], ◌∷◌, ◌++◌, arith,
  if◌then◌else◌, is_empty, All,
}
use comp_net.Text.{Text, codes, text_eq}
use comp_net.Text.CString.{c_str}
use comp_net.Message.{msg_welcome, msg_bye}
use comp_net.Message.Sealed.{FitsArray}
use comp_net.Lab4.{Message, max_payload}
use comp_net.Lab3.{blank}
use comp_net.Lab1 as Udp
use comp_net.Lab1.Setup.{options, prompt, main}
use comp_net.Lab1.Session.{rounds, responses, main-rounds}
use comp_net.Text.Number.{pos}
use comp_net.Lab2.{Server, Client, print, dispatch, hello, run}
use comp_net.Lab2.Session.{run-dispatch}

abbrev echo_server : Udp.Server
echo_server = record { console = []; errors = 0; outbox = [] }

abbrev echo_client : Udp.Client
echo_client = record { console = []; errors = 0; outbox = [] }

-- `inet_pton`, as far as it is needed here.
abbrev to_addr : Text → Option Text
to_addr ip = if text_eq ip (codes "10.0.0.1") then some (10 ∷ 0 ∷ 0 ∷ 1 ∷ []) else none

abbrev echo_lines : List Text
echo_lines = codes "hello" ∷ codes "how are you" ∷ []

echo_args : options (codes "10.0.0.1" ∷ []) ≡ some (codes "10.0.0.1", pos 9000)
unfolding options
echo_args = refl

echo_addr : to_addr (codes "10.0.0.1") ≡ some (10 ∷ 0 ∷ 0 ∷ 1 ∷ [])
unfolding text_eq codes
echo_addr = refl

echo_texts : All (λ line. is_empty line ≡ false) echo_lines
unfolding codes
echo_texts = (refl, (refl, tt))

echo_example :
    (client : Udp.Client) × (main to_addr
        (codes "10.0.0.1" ∷ [])
        (some 3)
        (λ _. rounds (codes "127.0.0.1:40000") echo_lines echo_server)
        echo_client
      ≡ some (record { code = 0; closed = 3 ∷ []; client = client }))
    × (client.console ≡ ([] ++ prompt) ++ responses echo_lines)
echo_example =
    main-rounds to_addr (codes "10.0.0.1" ∷ []) (codes "10.0.0.1") (10 ∷ 0 ∷ 0 ∷ 1 ∷ []) (pos 9000)
      3 echo_lines (codes "127.0.0.1:40000") echo_client echo_server echo_args echo_addr echo_texts

abbrev server : Server
server = record { peer = codes "127.0.0.1:40000"; console = []; outbox = [] }

abbrev client : Client
client = record { console = []; outbox = []; msg = blank 0 }

not_ping : text_eq (codes "ping") (codes "/ping") ≡ false
unfolding text_eq codes
not_ping = refl

not_quit : text_eq (codes "ping") (codes "/quit") ≡ false
unfolding text_eq codes
not_quit = refl

ping_fits : FitsArray max_payload (codes "ping")
unfolding c_str codes
ping_fits = (refl, omega arith)

bob_short : length (codes "bob") < max_payload
unfolding codes
bob_short = omega arith

lost_character_example :
    (end : Client) × (msg : Message) × (run
        (codes "bob")
        (some (blank msg_welcome))
        ((b'/' ∷ codes "ping") ∷ codes "/quit" ∷ [])
        []
        client
      ≡ some end)
    × (end.outbox
        ≡ (hello (codes "bob") (some (blank msg_welcome)) client).outbox
          ++ msg ∷ blank msg_bye ∷ [])
    × (dispatch msg server ≡ (
      true,
      print
          (codes "[" ++ codes "127.0.0.1:40000" ++ codes "]: " ++ codes "ping" ++ codes "\n")
          server,
    ))
lost_character_example =
    run-dispatch (codes "bob") (codes "ping") b'/' (some (blank msg_welcome)) client server not_ping
      not_quit ping_fits bob_short
