-- ===== src/Lab4/Closing.antt =====
-- How a connection of LAB4/server.cpp ends.
use comp_net.Prelude.{
  ℕ, ◌≡◌, refl, ap, ◌∙◌, inl, inr, Option, none, some, List, [], ◌∷◌, ◌++◌, arith, ◌==◌, Bool-cases,
  Option-cases,
}
use comp_net.Text.{Text, codes}
use comp_net.Text.Trim.{trim}
use comp_net.Text.CString.{c_str}
use comp_net.Message.{msg_hello, msg_welcome, msg_text, msg_auth, msg_server_info}
use comp_net.Lab4.{
  Server, Message, make_message, send_message, end_payload, add_client, remove_client,
  broadcast_loop, broadcast_to_all, close_socket, send_error_and_close,
}
use comp_net.Lab4.Session.{
  reply, welcome, handshake, hello_error, nickname_error, admit, confirm, check_nickname,
  authenticate, handle_text, parse_private, handle_private, dispatch, serve_loop, leave,
  serve_authenticated, serve_welcomed, handle_client,
}

send_message-closed :
    (sock : ℕ) (msg : Message) (s : Server) → (send_message sock msg s).1.closed ≡ s.closed
unfolding send_message
send_message-closed sock msg s = refl

broadcast_loop-closed :
    (refs : List ℕ) (msg : Message) (s : Server) → (broadcast_loop refs msg s).closed ≡ s.closed
unfolding broadcast_loop
broadcast_loop-closed [] msg s = refl
broadcast_loop-closed (ref ∷ refs) msg s = elim (Bool-cases (s.heap ref).authenticated) [
  | inl e ↦
      rw (broadcast_loop, e)
        (broadcast_loop-closed refs msg _ ∙ send_message-closed (s.heap ref).sock msg s)
  | inr e ↦ rw (broadcast_loop, e) (broadcast_loop-closed refs msg s)
]

broadcast_to_all-closed : (msg : Message) (s : Server) → (broadcast_to_all msg s).closed ≡ s.closed
unfolding broadcast_to_all
broadcast_to_all-closed msg s = broadcast_loop-closed s.clients msg s

handle_private-closed :
    (sock : ℕ) (nickname payload : Text) (s : Server)
    → (handle_private sock nickname payload s).closed ≡ s.closed
unfolding handle_private reply send_message
handle_private-closed sock nickname payload s = elim (Option-cases (parse_private payload)) [
  | inl e ↦ rw (handle_private, e) refl
  | inr (parts, e) ↦ rw (handle_private, e) refl
]

dispatch-closed :
    (sock : ℕ) (nickname : Text) (msg : Message) (s : Server)
    → (dispatch sock nickname msg s).1.closed ≡ s.closed
unfolding dispatch reply send_message handle_text
dispatch-closed sock nickname msg s = ground (
  arith,
  broadcast_to_all-closed
      (make_message msg_text (codes "[" ++ nickname ++ codes "]: " ++ c_str msg.payload)) s,
  handle_private-closed sock nickname (c_str msg.payload) s,
)

serve_loop-closed :
    (sock : ℕ) (nickname : Text) (frames : List Message) (s : Server)
    → (serve_loop sock nickname frames s).closed ≡ s.closed
unfolding serve_loop
serve_loop-closed sock nickname [] s = refl
serve_loop-closed sock nickname (raw ∷ frames) s =
    let done = dispatch-closed sock nickname (end_payload raw) s in
    elim (Bool-cases (dispatch sock nickname (end_payload raw) s).0) [
      | inl e ↦ rw (serve_loop, e) (serve_loop-closed sock nickname frames _ ∙ done)
      | inr e ↦ rw (serve_loop, e) done
    ]

send_error_and_close-closed :
    (sock : ℕ) (text : Text) (s : Server)
    → (send_error_and_close sock text s).closed ≡ s.closed ++ sock ∷ []
unfolding send_error_and_close close_socket send_message
send_error_and_close-closed sock text s = refl

-- The connection is over, with its socket closed once since `s`, or it goes on.
Ends : {A : Type 0} → ℕ → Server → Option A × Server → Type 0
Ends sock s (none, t) = t.closed ≡ s.closed ++ sock ∷ []
Ends sock s (some a, t) = t.closed ≡ s.closed

welcome-Ends : (sock : ℕ) (frames : List Message) (s : Server) → Ends sock s (welcome sock frames s)
unfolding welcome Ends send_message close_socket
welcome-Ends sock frames s =
    elim (Bool-cases (send_message sock (make_message msg_welcome (codes "WELCOME")) s).0) [
      | inl e ↦ rw (welcome, e) refl
      | inr e ↦ rw (welcome, e) refl
    ]

handshake-Ends :
    (sock : ℕ) (frames : List Message) (s : Server) → Ends sock s (handshake sock frames s)
unfolding handshake Ends
handshake-Ends sock [] s = send_error_and_close-closed sock hello_error s
handshake-Ends sock (raw ∷ frames) s = elim (Bool-cases ((end_payload raw).type == msg_hello)) [
  | inl e ↦ rw (handshake, e) (welcome-Ends sock frames s)
  | inr e ↦ rw (handshake, e) (send_error_and_close-closed sock hello_error s)
]

confirm-Ends :
    (sock : ℕ) (nickname : Text) (frames : List Message) (s : Server)
    → Ends sock s (confirm sock nickname frames s)
unfolding confirm Ends send_message close_socket remove_client admit add_client
confirm-Ends sock nickname frames s =
    elim (Bool-cases
      (send_message sock (make_message msg_server_info (codes "Authentication successful"))
        (admit sock nickname s)).0) [ inl e ↦ rw (confirm, e) refl | inr e ↦ rw (confirm, e) refl ]

check_nickname-Ends :
    (sock : ℕ) (nickname : Text) (frames : List Message) (s : Server)
    → Ends sock s (check_nickname sock nickname frames s)
unfolding check_nickname Ends
check_nickname-Ends sock nickname frames s = elim (Option-cases (nickname_error nickname s)) [
  | inl e ↦ rw (check_nickname, e) (confirm-Ends sock nickname frames s)
  | inr (text, e) ↦ rw (check_nickname, e) (send_error_and_close-closed sock text s)
]

authenticate-Ends :
    (sock : ℕ) (frames : List Message) (s : Server) → Ends sock s (authenticate sock frames s)
unfolding authenticate Ends close_socket
authenticate-Ends sock [] s = refl
authenticate-Ends sock (raw ∷ frames) s =
    let nickname = trim (c_str (end_payload raw).payload) in
    elim (Bool-cases ((end_payload raw).type == msg_auth)) [
      | inl e ↦ rw (authenticate, e) (check_nickname-Ends sock nickname frames s)
      | inr e ↦ rw (authenticate, e) (send_error_and_close-closed sock _ s)
    ]

leave-closed :
    (sock : ℕ) (nickname : Text) (s : Server)
    → (leave sock nickname s).closed ≡ s.closed ++ sock ∷ []
unfolding leave close_socket remove_client
leave-closed sock nickname s = ap (λ closed. closed ++ sock ∷ []) (broadcast_to_all-closed _ _)

serve_authenticated-closed :
    (sock : ℕ) (session : Option (Text × List Message)) (s t : Server)
    → Ends sock s (session, t)
    → (serve_authenticated sock session t).closed ≡ s.closed ++ sock ∷ []
unfolding serve_authenticated Ends
serve_authenticated-closed sock none s t h = h
serve_authenticated-closed sock (some (nickname, frames)) s t h =
    leave-closed sock nickname _
    ∙ ap (λ closed. closed ++ sock ∷ [])
        (serve_loop-closed sock nickname frames _ ∙ broadcast_to_all-closed _ t ∙ h)

serve_welcomed-closed :
    (sock : ℕ) (opened : Option (List Message)) (s t : Server)
    → Ends sock s (opened, t)
    → (serve_welcomed sock opened t).closed ≡ s.closed ++ sock ∷ []
unfolding serve_welcomed Ends
serve_welcomed-closed sock none s t h = h
serve_welcomed-closed sock (some frames) s t h =
    serve_authenticated-closed sock _ t _ (authenticate-Ends sock frames t)
    ∙ ap (λ closed. closed ++ sock ∷ []) h

-- However a connection of LAB4 goes, from a failed handshake to a good end, `handleClient` closes
-- its socket once, and no other.
pub handle_client-closed :
    (sock : ℕ) (frames : List Message) (s : Server)
    → (handle_client sock frames s).closed ≡ s.closed ++ sock ∷ []
unfolding handle_client
handle_client-closed sock frames s = serve_welcomed-closed sock _ s _ (handshake-Ends sock frames s)
