-- ===== src/Server/Steps/Connection.antt =====
-- `handleClient` of LAB6/server.cpp as a path of critical sections.
use comp_net.Prelude.{
  ℕ, inl, inr, Bool, true, ◌&&◌, ◌||◌, Option, none, some, List, [], ◌∷◌, ◌==◌, Bool-cases,
  Option-cases,
}
use comp_net.Text.{Text, codes}
use comp_net.Server.Io.{send_server_info}
use comp_net.Text.CString.{IsCString, c_str-c_str, trim-IsCString}
use comp_net.Message.{
  MessageEx, seal_message, msg_text, msg_private, msg_list, msg_history, msg_ping, msg_bye,
  msg_auth, msg_hello,
}
use comp_net.Server.{Server}
use comp_net.Server.Registry.{has_seen}
use comp_net.Server.NetSim.{apply_network_simulation}
use comp_net.Server.Session.{
  refuse, welcome, handshake, nickname_error, check_nickname, authenticate, append_server_record,
  greet, is_reliable, dispatch, accept_message, handle_message, serve_loop, leave,
  serve_authenticated, serve_welcomed, handle_client,
}
use comp_net.Server.Frame.{
  now-Quiet, fetch_msg_id-Quiet, make_message-Quiet, send_message-Quiet, send_server_info-Quiet,
  send_error-Quiet, broadcast_server_info-Quiet, handle_history_request-Quiet,
  handle_list_request-Quiet, ack_client-Quiet, handle_ping-Quiet, apply_network_simulation-Quiet,
}
use comp_net.Server.Steps.{
  Work, Step, Trace, lift, here, one, calm, ◌▸◌, Trace-if, Runs, Runs-if, ends, appends, remembers,
  admits, removes, closes, deliver_offline-Trace, handle_broadcast-Trace, handle_private-Trace,
}

dispatch-Runs :
    (sock ref : ℕ) (msg : MessageEx) (s : Server) → Runs Work s (dispatch sock ref msg s)
unfolding dispatch
dispatch-Runs sock ref msg s =
    let seen = one (remembers ref msg.msg_id s) in
    Runs-if (msg.type == msg_text)
      (ends
        (seen ▸ handle_broadcast-Trace ref msg _ ▸ calm (ack_client-Quiet sock ref msg.msg_id _)))
      (Runs-if (msg.type == msg_private)
        (ends
          (seen ▸ handle_private-Trace ref msg _ ▸ calm (ack_client-Quiet sock ref msg.msg_id _)))
        (Runs-if (msg.type == msg_list) (ends (calm (handle_list_request-Quiet sock s))) (
          Runs-if (msg.type == msg_history) (ends (calm (handle_history_request-Quiet sock _ s))) (
            Runs-if (msg.type == msg_ping) (ends (seen ▸ calm (handle_ping-Quiet sock ref msg _))) (
              Runs-if (msg.type == msg_bye) (ends here) (
                Runs-if (msg.type == msg_auth || msg.type == msg_hello)
                  (ends (calm (send_error-Quiet sock _ s)))
                  (ends (calm (send_error-Quiet sock _ s)))))))))

accept_message-Trace :
    (sock ref : ℕ) (msg : MessageEx) (s : Server) → Trace Work s (accept_message sock ref msg s).1
unfolding accept_message
accept_message-Trace sock ref msg s =
    elim (Bool-cases (is_reliable msg.type && has_seen ref msg.msg_id s)) [
      | inl e ↦ rw (e, accept_message) (calm (ack_client-Quiet sock ref msg.msg_id s))
      | inr e ↦ rw (e, accept_message) (dispatch-Runs sock ref msg s).path
    ]

handle_message-Trace :
    (sock ref : ℕ) (raw : MessageEx) (s : Server) → Trace Work s (handle_message sock ref raw s).1
unfolding handle_message
handle_message-Trace sock ref raw s =
    let (result, s1) = apply_network_simulation (seal_message raw) s in
    calm (apply_network_simulation-Quiet (seal_message raw) s) ▸ after result s1
  where
    after :
        (result : Option MessageEx) (s1 : Server)
        → Trace Work s1 (
            let r : Bool × Server = elim result [
              | none ↦ (true, s1)
              | some msg ↦ accept_message sock ref msg s1
            ] in
            r.1)
    after none s1 = here
    after (some msg) s1 = accept_message-Trace sock ref msg s1

pub serve_loop-Trace :
    (sock ref : ℕ) (frames : List MessageEx) (s : Server)
    → Trace Work s (serve_loop sock ref frames s)
unfolding serve_loop
serve_loop-Trace sock ref [] s = here
serve_loop-Trace sock ref (raw ∷ frames) s =
    handle_message-Trace sock ref raw s ▸ Trace-if _ (serve_loop-Trace sock ref frames _) here

pub append_server_record-Trace :
    (text : Text) (s : Server) → Trace Work s (append_server_record text s)
unfolding append_server_record
append_server_record-Trace text s =
    calm (fetch_msg_id-Quiet s) ▸ calm (now-Quiet _) ▸ one (appends _ _)

-- What follows the answer to a good MSG_AUTH.
pub greet_answered-Trace :
    (sock ref : ℕ) (nickname : Text) (s : Server)
    → Trace Work
        (send_server_info sock (codes "Authentication successful") s)
        (greet sock ref nickname s)
unfolding greet
greet_answered-Trace sock ref nickname s =
    append_server_record-Trace _ _
    ▸ deliver_offline-Trace ref _
    ▸ calm (broadcast_server_info-Quiet _ _)

pub greet-Trace :
    (sock ref : ℕ) (nickname : Text) (s : Server) → Trace Work s (greet sock ref nickname s)
greet-Trace sock ref nickname s =
    calm (send_server_info-Quiet sock _ s) ▸ greet_answered-Trace sock ref nickname s

pub leave-Trace : (sock : ℕ) (nickname : Text) (s : Server) → Trace Step s (leave sock nickname s)
unfolding leave
leave-Trace sock nickname s =
    one (removes sock s)
    ▸ one (closes sock _)
    ▸ lift (append_server_record-Trace _ _ ▸ calm (broadcast_server_info-Quiet _ _))

refuse-Trace : (sock : ℕ) (text : Text) (s : Server) → Trace Step s (refuse sock text s)
unfolding refuse
refuse-Trace sock text s = lift (calm (send_error-Quiet sock text s)) ▸ one (closes sock _)

welcome-Trace :
    (sock : ℕ) (frames : List MessageEx) (s : Server) → Trace Step s (welcome sock frames s).1
unfolding welcome
welcome-Trace sock frames s =
    lift (calm (make_message-Quiet _ _ _ _ _ _ s) ▸ calm (send_message-Quiet sock _ _))
    ▸ (Runs-if _ (ends here) (ends (one (closes sock _)))).path

handshake-Trace :
    (sock : ℕ) (frames : List MessageEx) (s : Server) → Trace Step s (handshake sock frames s).1
unfolding handshake
handshake-Trace sock [] s = refuse-Trace sock _ s
handshake-Trace sock (raw ∷ frames) s =
    (Runs-if _ (record { path = welcome-Trace sock frames s }) (ends (refuse-Trace sock _ s))).path

check_nickname-Trace :
    (sock : ℕ) (nickname : Text) (frames : List MessageEx) (s : Server)
    → IsCString nickname
    → Trace Step s (check_nickname sock nickname frames s).1
unfolding check_nickname
check_nickname-Trace sock nickname frames s h = elim (Option-cases (nickname_error nickname s)) [
  | inl e ↦ rw (e, check_nickname) (one (admits sock nickname s e h))
  | inr (text, e) ↦ rw (e, check_nickname) (refuse-Trace sock text s)
]

pub authenticate-Trace :
    (sock : ℕ) (frames : List MessageEx) (s : Server) → Trace Step s (authenticate sock frames s).1
unfolding authenticate
authenticate-Trace sock [] s = one (closes sock s)
authenticate-Trace sock (raw ∷ frames) s =
    (Runs-if _
      (record {
        path =
            check_nickname-Trace sock _ frames s
              (trim-IsCString _ (c_str-c_str (seal_message raw).payload));
      })
      (ends (refuse-Trace sock _ s))).path

serve_authenticated-Trace :
    (sock : ℕ) (session : Option (ℕ × Text × List MessageEx)) (s : Server)
    → Trace Step s (serve_authenticated sock session s)
unfolding serve_authenticated
serve_authenticated-Trace sock none s = here
serve_authenticated-Trace sock (some (ref, nickname, frames)) s =
    lift (greet-Trace sock ref nickname s ▸ serve_loop-Trace sock ref frames _)
    ▸ leave-Trace sock nickname _

serve_welcomed-Trace :
    (sock : ℕ) (opened : Option (List MessageEx)) (s : Server)
    → Trace Step s (serve_welcomed sock opened s)
unfolding serve_welcomed
serve_welcomed-Trace sock none s = here
serve_welcomed-Trace sock (some frames) s =
    authenticate-Trace sock frames s
    ▸ serve_authenticated-Trace sock (authenticate sock frames s).0 _

-- All that `handleClient` does to the shared data is a path of critical sections.
pub handle_client-Trace :
    (sock : ℕ) (frames : List MessageEx) (s : Server) → Trace Step s (handle_client sock frames s)
unfolding handle_client
handle_client-Trace sock frames s =
    handshake-Trace sock frames s ▸ serve_welcomed-Trace sock (handshake sock frames s).0 _
