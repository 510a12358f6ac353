-- ===== src/Login/Served.antt =====
-- What `handleClient` of LAB6/server.cpp sends to a client that logs in.
use comp_net.Prelude.{ℕ, ◌≡◌, ap, ◌∙◌, true, none, some, List, [], ◌∷◌, ◌++◌, append_assoc}
use comp_net.Text.{Text, codes}
use comp_net.Text.Trim.{trim}
use comp_net.Message.{MessageEx, fill_message, seal_message, max_payload}
use comp_net.Message.Sealed.{FitsArray, c_str-set-buffer}
use comp_net.Server.{Server}
use comp_net.Server.Io.{send_server_info}
use comp_net.Server.Registry.{is_nickname_used, add_client, new_client}
use comp_net.Server.Session.{
  close_socket, refuse, welcome, handshake, nickname_error, admit, check_nickname, greet, leave,
  serve_loop, serve_authenticated, serve_welcomed, handle_client,
}
use comp_net.Server.Session
use comp_net.Server.Frame.{Quiet, Quiet-trans, make_message-Quiet, send_message-Quiet}
use comp_net.Server.Steps.{lift, ◌▸◌}
use comp_net.Server.Steps.Connection.{greet_answered-Trace, serve_loop-Trace, leave-Trace}
use comp_net.Server.Steps.Sent.{Trace-Sends, addressed-Sends}
use comp_net.Server.Outbox.{
  addressed, info_message, error_message, addressed-send_message, addressed-send_server_info,
  addressed-send_error, outbox-make_message,
}
use comp_net.ChatClient.{ChatClient}
use comp_net.ChatClient.Sending.{make_message}
use comp_net.Login.{hello, auth, welcoming, welcomed}

welcomed-Quiet : (sock : ℕ) (s : Server) → Quiet s (welcomed sock s).1
welcomed-Quiet sock s = Quiet-trans (make_message-Quiet _ _ _ _ _ _ s) (send_message-Quiet sock _ _)

-- A nickname that is free before the welcome is free after it, and the other way round.
pub nickname_error-welcomed :
    (sock : ℕ) (nickname : Text) (s : Server)
    → nickname_error nickname (welcomed sock s).1 ≡ nickname_error nickname s
unfolding nickname_error is_nickname_used
nickname_error-welcomed sock nickname s = let q = welcomed-Quiet sock s in rw (q.heap, q.clients)

-- The connection, from the nickname that the client sent.
pub handle_client-opened :
    (sock : ℕ) (later : List MessageEx) (s : Server) (c : ChatClient)
    → FitsArray max_payload c.nickname
    → trim c.nickname ≡ c.nickname
    → (welcomed sock s).0 ≡ true
    → handle_client sock ((hello c).0 ∷ (auth c).0 ∷ later) s ≡ (
        let (session, s1) = check_nickname sock c.nickname later (welcomed sock s).1 in
        serve_authenticated sock session s1)
unfolding handle_client handshake serve_welcomed Session.authenticate make_message fill_message
    seal_message welcome
handle_client-opened sock later s c fits trimmed ok =
    rw (ok, c_str-set-buffer 255 c.nickname fits, trimmed)

pub addressed-welcomed :
    (sock : ℕ) (s : Server)
    → addressed (welcomed sock s).1.outbox ≡ addressed s.outbox ++ (sock, (welcoming s).0) ∷ []
addressed-welcomed sock s =
    addressed-send_message sock _ _
    ∙ ap (λ sent. addressed sent ++ (sock, (welcoming s).0) ∷ [])
        (outbox-make_message _ _ _ _ 0 0 s)

-- Behind the welcome stand the answer and whatever comes after it.
pub record Answered (sock : ℕ) (answer : MessageEx) (s t : Server) : Type 0 where
  pub more : List (ℕ × MessageEx)
  pub outbox : addressed t.outbox ≡ addressed s.outbox ++ (sock, answer) ∷ more

pub refused-Answered :
    (sock : ℕ) (nickname text : Text) (later : List MessageEx) (s : Server)
    → nickname_error nickname s ≡ some text
    → Answered sock (error_message text s) s (
        let (session, s1) = check_nickname sock nickname later s in
        serve_authenticated sock session s1)
unfolding check_nickname serve_authenticated refuse close_socket
refused-Answered sock nickname text later s e = record {
  more = [];
  outbox = rw (e, check_nickname) (addressed-send_error sock text s);
}

abbrev pub success : Text
success = codes "Authentication successful"

pub admitted-Answered :
    (sock : ℕ) (nickname : Text) (later : List MessageEx) (s : Server)
    → nickname_error nickname s ≡ none
    → Answered sock (info_message success (admit sock nickname s).1) s (
        let (session, s1) = check_nickname sock nickname later s in
        serve_authenticated sock session s1)
unfolding check_nickname serve_authenticated admit add_client new_client
admitted-Answered sock nickname later s e =
    let (ref, s1) = admit sock nickname s in
    let u = send_server_info sock success s1 in
    let served = serve_loop sock ref later (greet sock ref nickname s1) in
    let h = Trace-Sends u (leave sock nickname served) (
      lift (greet_answered-Trace sock ref nickname s1 ▸ serve_loop-Trace sock ref later _)
      ▸ leave-Trace sock nickname served) in
    record {
      more = addressed h.sent;
      outbox =
          rw (e, check_nickname)
            (addressed-Sends u (leave sock nickname served) h
              ∙ ap (◌++ addressed h.sent) (addressed-send_server_info sock success s1)
              ∙ append_assoc (addressed s1.outbox) _ _);
    }
