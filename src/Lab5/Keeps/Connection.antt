-- ===== src/Lab5/Keeps/Connection.antt =====
-- A whole connection of LAB5/server.cpp keeps what the few steps on ids and history bear.
use comp_net.Prelude.{
  ℕ, refl, inl, inr, Bool, true, false, ◌||◌, Option, none, some, List, [], ◌∷◌, ◌==◌,
  if◌then◌else◌, Bool-cases, Option-cases, is_empty,
}
use comp_net.Text.{Text, codes}
use comp_net.Text.Trim.{trim}
use comp_net.Text.CString.{c_str}
use comp_net.Message.{
  MessageEx, msg_hello, msg_welcome, msg_text, msg_ping, msg_pong, msg_bye, msg_auth, msg_private,
  msg_list, msg_history,
}
use comp_net.Lab5.{Server}
use comp_net.Lab5.Io.{make_message, send_message, server_name, end_arrays}
use comp_net.Lab5.Registry.{add_client, new_client, remove_client}
use comp_net.Lab5.Session.{
  close_socket, refuse, welcome, handshake, hello_error, nickname_error, admit, check_nickname,
  authenticate, append_server_record, greet, parse_private, handle_private, handle_ping, dispatch,
  serve_loop, leave, serve_authenticated, serve_welcomed, handle_client,
}
use comp_net.Lab5.Keeps.{Keeps, now-held, make_message-kept}
use comp_net.Lab5.Keeps.Operations.{
  send_message-kept, send_server_info-kept, send_error-kept, broadcast_server_info-kept,
  deliver_offline_messages-kept, handle_history_request-kept, handle_list_request-kept,
  handle_broadcast_text-kept, handle_private_text-kept,
}

module _ {P : Server → Type 0} {H : ℕ → Server → Type 0} (k : Keeps P H) where
  close_socket-kept : (sock : ℕ) (s : Server) → P s → P (close_socket sock s)
  unfolding close_socket
  close_socket-kept sock s h =
      k.same _ _ (record { next_msg_id = refl; ids_taken = refl; history_records = refl }) h

  refuse-kept : (sock : ℕ) (text : Text) (s : Server) → P s → P (refuse sock text s)
  unfolding refuse
  refuse-kept sock text s h = close_socket-kept sock _ (send_error-kept k sock text s h)

  welcome-kept :
      (sock : ℕ) (frames : List MessageEx) (s : Server) → P s → P (welcome sock frames s).1
  unfolding welcome
  welcome-kept sock frames s h =
      let (msg, s1) = make_message msg_welcome server_name [] (codes "WELCOME") 0 0 s in
      let sent =
        send_message-kept k sock msg s1
          (make_message-kept k msg_welcome server_name [] (codes "WELCOME") 0 0 s h) in
      elim (Bool-cases (send_message sock msg s1).0) [
        | inl e ↦ rw (welcome, e) sent
        | inr e ↦ rw (welcome, e) (close_socket-kept sock _ sent)
      ]

  handshake-kept :
      (sock : ℕ) (frames : List MessageEx) (s : Server) → P s → P (handshake sock frames s).1
  unfolding handshake
  handshake-kept sock [] s h = refuse-kept sock hello_error s h
  handshake-kept sock (raw ∷ frames) s h = elim (Bool-cases ((end_arrays raw).type == msg_hello)) [
    | inl e ↦ rw (handshake, e) (welcome-kept sock frames s h)
    | inr e ↦ rw (handshake, e) (refuse-kept sock hello_error s h)
  ]

  admit-kept : (sock : ℕ) (nickname : Text) (s : Server) → P s → P (admit sock nickname s).1
  unfolding admit add_client new_client
  admit-kept sock nickname s h =
      k.same _ _ (record { next_msg_id = refl; ids_taken = refl; history_records = refl }) h

  check_nickname-kept :
      (sock : ℕ) (nickname : Text) (frames : List MessageEx) (s : Server)
      → P s
      → P (check_nickname sock nickname frames s).1
  unfolding check_nickname
  check_nickname-kept sock nickname frames s h = elim (Option-cases (nickname_error nickname s)) [
    | inl e ↦ rw (check_nickname, e) (admit-kept sock nickname s h)
    | inr (text, e) ↦ rw (check_nickname, e) (refuse-kept sock text s h)
  ]

  authenticate-kept :
      (sock : ℕ) (frames : List MessageEx) (s : Server) → P s → P (authenticate sock frames s).1
  unfolding authenticate
  authenticate-kept sock [] s h = close_socket-kept sock s h
  authenticate-kept sock (raw ∷ frames) s h =
      let nickname = trim (c_str (end_arrays raw).payload) in
      elim (Bool-cases ((end_arrays raw).type == msg_auth)) [
        | inl e ↦ rw (authenticate, e) (check_nickname-kept sock nickname frames s h)
        | inr e ↦ rw (authenticate, e) (refuse-kept sock _ s h)
      ]

  append_server_record-kept : (text : Text) (s : Server) → P s → P (append_server_record text s)
  unfolding append_server_record
  append_server_record-kept text s h = k.appends _ _ (now-held k _ _ (k.takes s h))

  greet-kept : (sock ref : ℕ) (nickname : Text) (s : Server) → P s → P (greet sock ref nickname s)
  unfolding greet
  greet-kept sock ref nickname s h = broadcast_server_info-kept k _ _ (
      deliver_offline_messages-kept k ref _
        (append_server_record-kept _ _ (send_server_info-kept k sock _ s h)))

  handle_private-kept :
      (sock ref : ℕ) (msg : MessageEx) (s : Server) → P s → P (handle_private sock ref msg s)
  unfolding handle_private
  handle_private-kept sock ref msg s h =
      let (receiver, text) = parse_private msg in
      elim (Bool-cases (is_empty receiver || is_empty text)) [
        | inl e ↦ rw (handle_private, e) (send_error-kept k sock _ s h)
        | inr e ↦ rw (handle_private, e) (handle_private_text-kept k ref receiver text s h)
      ]

  handle_ping-kept : (sock ref : ℕ) (s : Server) → P s → P (handle_ping sock ref s)
  unfolding handle_ping
  handle_ping-kept sock ref s h = send_message-kept k sock _ _ (
      make_message-kept k msg_pong server_name (c_str (s.heap ref).nickname) (codes "PONG") 0 0 s h)

  if-kept : (b : Bool) (x y : Bool × Server) → P x.1 → P y.1 → P (if b then x else y).1
  if-kept true x y hx hy = hx
  if-kept false x y hx hy = hy

  dispatch-kept :
      (sock ref : ℕ) (msg : MessageEx) (s : Server) → P s → P (dispatch sock ref msg s).1
  unfolding dispatch
  dispatch-kept sock ref msg s h =
      if-kept (msg.type == msg_text) _ _ (handle_broadcast_text-kept k ref (c_str msg.payload) s h)
        (if-kept (msg.type == msg_private) _ _ (handle_private-kept sock ref msg s h) (
          if-kept (msg.type == msg_list) _ _ (handle_list_request-kept k sock s h) (
            if-kept (msg.type == msg_history) _ _
              (handle_history_request-kept k sock (c_str msg.payload) s h)
              (if-kept (msg.type == msg_ping) _ _ (handle_ping-kept sock ref s h)
                (if-kept (msg.type == msg_bye) _ _ h (send_error-kept k sock _ s h))))))

  serve_loop-kept :
      (sock ref : ℕ) (frames : List MessageEx) (s : Server) → P s → P (serve_loop sock ref frames s)
  unfolding serve_loop
  serve_loop-kept sock ref [] s h = h
  serve_loop-kept sock ref (raw ∷ frames) s h =
      let done = dispatch-kept sock ref (end_arrays raw) s h in
      elim (Bool-cases (dispatch sock ref (end_arrays raw) s).0) [
        | inl e ↦ rw (serve_loop, e) (serve_loop-kept sock ref frames _ done)
        | inr e ↦ rw (serve_loop, e) done
      ]

  remove_client-kept : (sock : ℕ) (s : Server) → P s → P (remove_client sock s)
  unfolding remove_client
  remove_client-kept sock s h =
      k.same _ _ (record { next_msg_id = refl; ids_taken = refl; history_records = refl }) h

  leave-kept : (sock : ℕ) (nickname : Text) (s : Server) → P s → P (leave sock nickname s)
  unfolding leave
  leave-kept sock nickname s h =
      broadcast_server_info-kept k _ _
        (append_server_record-kept _ _ (close_socket-kept sock _ (remove_client-kept sock s h)))

  serve_authenticated-kept :
      (sock : ℕ) (session : Option (ℕ × Text × List MessageEx)) (s : Server)
      → P s
      → P (serve_authenticated sock session s)
  unfolding serve_authenticated
  serve_authenticated-kept sock none s h = h
  serve_authenticated-kept sock (some (ref, nickname, frames)) s h =
      leave-kept sock nickname _
        (serve_loop-kept sock ref frames _ (greet-kept sock ref nickname s h))

  serve_welcomed-kept :
      (sock : ℕ) (opened : Option (List MessageEx)) (s : Server)
      → P s
      → P (serve_welcomed sock opened s)
  unfolding serve_welcomed
  serve_welcomed-kept sock none s h = h
  serve_welcomed-kept sock (some frames) s h =
      serve_authenticated-kept sock _ _ (authenticate-kept sock frames s h)

  pub handle_client-kept :
      (sock : ℕ) (frames : List MessageEx) (s : Server) → P s → P (handle_client sock frames s)
  unfolding handle_client
  handle_client-kept sock frames s h = serve_welcomed-kept sock _ _ (handshake-kept sock frames s h)
