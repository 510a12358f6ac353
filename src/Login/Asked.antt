-- ===== src/Login/Asked.antt =====
-- What `connectAndAuthorize` of LAB6/client.cpp sends, and makes of the answers.
use comp_net.Prelude.{
  ◌≡◌, refl, subst, Bool, true, false, Option, none, some, List, [], ◌∷◌, ◌++◌, append_assoc, arith,
  leb, if◌then◌else◌, length, is_empty,
}
use comp_net.Text.{Text, codes}
use comp_net.Text.CString.{c_str}
use comp_net.Message.{MessageEx, fill_message, seal_message, max_name, max_payload}
use comp_net.Message.Sealed.{FitsArray, c_str-set-buffer}
use comp_net.Server.{Server}
use comp_net.Server.Io.{server_name, send_server_info}
use comp_net.Server.Io
use comp_net.Server.Registry.{is_nickname_used}
use comp_net.Server.Session.{nickname_error}
use comp_net.Server.Outbox.{info_message, error_message}
use comp_net.ChatClient.{ChatClient}
use comp_net.ChatClient.Output.{print}
use comp_net.ChatClient.Sending.{make_message, send_raw_message}
use comp_net.ChatClient.Connect
use comp_net.ChatClient.Connect.{fail, await_answer, authenticate, await_welcome, authorize}
use comp_net.Login.{hello, greeted, auth, asked, welcoming}
use comp_net.Login.Served.{success}

-- What the client makes of the two answers, if it could send both messages.
pub authorize-welcomed :
    (s : Server) (answer : MessageEx) (frames : List MessageEx) (c : ChatClient)
    → (greeted c).0 ≡ true
    → (asked c).0 ≡ true
    → authorize ((welcoming s).0 ∷ answer ∷ frames) c ≡ await_answer (answer ∷ frames) (asked c).1
unfolding authorize await_welcome authenticate Io.make_message fill_message seal_message
    make_message send_raw_message await_answer
authorize-welcomed s answer frames c g a = rw (g, a)

pub outbox-asked :
    (c : ChatClient)
    → (asked c).1.outbox
      ≡ c.outbox
        ++ record { msg = (hello c).0; ok = (greeted c).0 }
          ∷ record { msg = (auth c).0; ok = (asked c).0 }
          ∷ []
unfolding make_message send_raw_message
outbox-asked c = append_assoc c.outbox _ _

fits_in_turn :
    (test : Bool) (here text : Text) (rest : Option Text)
    → FitsArray max_payload here
    → (rest ≡ some text → FitsArray max_payload text)
    → (if test then some here else rest) ≡ some text
    → FitsArray max_payload text
fits_in_turn true here text rest fits later e =
    let same : here ≡ text = ground arith in subst (FitsArray max_payload) same fits
fits_in_turn false here text rest fits later e = later e

pub nickname_error-FitsArray :
    (nickname text : Text) (s : Server)
    → nickname_error nickname s ≡ some text
    → FitsArray max_payload text
unfolding nickname_error codes c_str
nickname_error-FitsArray nickname text s e =
    fits_in_turn (is_empty nickname) (codes "Nickname cannot be empty") text _ (refl, omega arith)
      (fits_in_turn (leb max_name (length nickname)) (codes "Nickname is too long") text _
        (refl, omega arith)
        (fits_in_turn (is_nickname_used nickname s) (codes "Nickname already in use") text none
          (refl, omega arith) (λ e. ground arith)))
      e

-- The client reads the reason of the refusal.
pub await_answer-refused :
    (text : Text) (s : Server) (frames : List MessageEx) (c : ChatClient)
    → FitsArray max_payload text
    → (let (left, c1) = await_answer (error_message text s ∷ frames) c in
        (left ≡ none) × (c1.console ≡ c.console ++ (codes "[ERROR]: " ++ text ++ codes "\n")))
unfolding await_answer Io.make_message fill_message seal_message fail print Connect.close_socket
await_answer-refused text s frames c fits = (refl, rw (c_str-set-buffer 255 text fits))

pub await_answer-admitted :
    (s : Server) (frames : List MessageEx) (c : ChatClient)
    → (await_answer (info_message success s ∷ frames) c).0 ≡ some frames
unfolding await_answer Io.make_message fill_message seal_message
await_answer-admitted s frames c = refl

pub await_answer-outbox :
    (frames : List MessageEx) (c : ChatClient) → (await_answer frames c).1.outbox ≡ c.outbox
unfolding await_answer fail print Connect.close_socket
await_answer-outbox [] c = refl
await_answer-outbox (raw ∷ frames) c = ground arith

pub console-asked : (c : ChatClient) → (asked c).1.console ≡ c.console
unfolding make_message send_raw_message
console-asked c = refl
