-- ===== src/Server/Outbox.antt =====
-- What the sending operations of LAB6/server.cpp put on the sockets.
use comp_net.Prelude.{
  ℕ, ◌≡◌, refl, sym, ap, ◌∙◌, inl, inr, false, List, [], ◌∷◌, ◌++◌, map, map-append, append-nil,
  append_assoc, ◌==◌, if◌then◌else◌, Bool-cases,
}
use comp_net.Text.{Text}
use comp_net.Message.{MessageEx, msg_server_info, msg_error, fill_message}
use comp_net.Server.{Server, Client, Sent}
use comp_net.Server.Io.{
  now, fetch_msg_id, or_fresh, make_message, send_message, sends, send_server_info, send_error,
  broadcast_loop, broadcast_message, server_name,
}
use comp_net.Server.Frame.{send_message-Quiet}

-- A message and the socket that it is for, whatever the result.
abbrev pub addressed : List Sent → List (ℕ × MessageEx)
addressed = map (λ sent. (sent.sock, sent.msg))

pub outbox-now : (s : Server) → (now s).1.outbox ≡ s.outbox
unfolding now
outbox-now s = refl

or_fresh-outbox :
    (forced : ℕ) (fresh : Server → ℕ × Server) (s : Server)
    → (fresh s).1.outbox ≡ s.outbox
    → (or_fresh forced fresh s).1.outbox ≡ s.outbox
or_fresh-outbox forced fresh s h = elim (Bool-cases (forced == 0)) [ inl e ↦ rw e h | inr e ↦ rw e ]

pub outbox-make_message :
    (type : ℕ) (sender receiver payload : Text) (id timestamp : ℕ) (s : Server)
    → (make_message type sender receiver payload id timestamp s).1.outbox ≡ s.outbox
unfolding make_message
outbox-make_message type sender receiver payload id timestamp s =
    or_fresh-outbox timestamp now _ (outbox-now _)
    ∙ or_fresh-outbox id fetch_msg_id s (unfold fetch_msg_id in refl)

pub outbox-send_message :
    (sock : ℕ) (msg : MessageEx) (s : Server)
    → (send_message sock msg s).1.outbox
      ≡ s.outbox ++ record { sock = sock; msg = msg; ok = sends s sock msg } ∷ []
unfolding send_message
outbox-send_message sock msg s = refl

-- With an id and a time given, the message does not depend on the state.
pub make_message_forced :
    (type : ℕ) (sender receiver payload : Text) (id timestamp : ℕ) (s : Server)
    → (id == 0) ≡ false
    → (timestamp == 0) ≡ false
    → make_message type sender receiver payload id timestamp s
      ≡ (fill_message type sender receiver payload id timestamp, s)
unfolding make_message
make_message_forced type sender receiver payload id timestamp s i t = rw (i, t)

pub addressed-send_message :
    (sock : ℕ) (msg : MessageEx) (s : Server)
    → addressed (send_message sock msg s).1.outbox ≡ addressed s.outbox ++ (sock, msg) ∷ []
unfolding send_message
addressed-send_message sock msg s = map-append _ s.outbox _

-- The message that `sendServerInfo` builds in a state.
abbrev pub info_message : Text → Server → MessageEx
info_message text s = (make_message msg_server_info server_name [] text 0 0 s).0

abbrev pub error_message : Text → Server → MessageEx
error_message text s = (make_message msg_error server_name [] text 0 0 s).0

pub addressed-send_server_info :
    (sock : ℕ) (text : Text) (s : Server)
    → addressed (send_server_info sock text s).outbox
      ≡ addressed s.outbox ++ (sock, info_message text s) ∷ []
unfolding send_server_info
addressed-send_server_info sock text s =
    addressed-send_message sock _ _
    ∙ ap (λ sent. addressed sent ++ (sock, info_message text s) ∷ [])
        (outbox-make_message _ _ _ _ 0 0 s)

pub addressed-send_error :
    (sock : ℕ) (text : Text) (s : Server)
    → addressed (send_error sock text s).outbox
      ≡ addressed s.outbox ++ (sock, error_message text s) ∷ []
unfolding send_error
addressed-send_error sock text s =
    addressed-send_message sock _ _
    ∙ ap (λ sent. addressed sent ++ (sock, error_message text s) ∷ [])
        (outbox-make_message _ _ _ _ 0 0 s)

-- The sockets of the clients that a broadcast reaches.
unfoldable pub audience : (ℕ → Client) → List ℕ → List ℕ
audience heap [] = []
audience heap (ref ∷ refs) =
    let rest = audience heap refs in
    if (heap ref).authenticated then (heap ref).sock ∷ rest else rest

broadcast_loop-addressed :
    (refs : List ℕ) (msg : MessageEx) (s : Server)
    → addressed (broadcast_loop refs msg s).outbox
      ≡ addressed s.outbox ++ map (λ sock. (sock, msg)) (audience s.heap refs)
unfolding broadcast_loop audience
broadcast_loop-addressed [] msg s = sym (append-nil _)
broadcast_loop-addressed (ref ∷ refs) msg s = elim (Bool-cases (s.heap ref).authenticated) [
  | inl e ↦
      let sock = (s.heap ref).sock in
      rw (e, broadcast_loop)
        (broadcast_loop-addressed refs msg (send_message sock msg s).1
          ∙ rw ((send_message-Quiet sock msg s).heap, addressed-send_message sock msg s)
              (append_assoc (addressed s.outbox) ((sock, msg) ∷ []) _))
  | inr e ↦ rw (e, broadcast_loop) (broadcast_loop-addressed refs msg s)
]

-- A broadcast sends the message once to each client that is authenticated, in the order of the
-- registry, and to nobody else.
pub broadcast_message-addressed :
    (msg : MessageEx) (s : Server)
    → addressed (broadcast_message msg s).outbox
      ≡ addressed s.outbox ++ map (λ sock. (sock, msg)) (audience s.heap s.clients)
unfolding broadcast_message
broadcast_message-addressed msg s = broadcast_loop-addressed s.clients msg s
