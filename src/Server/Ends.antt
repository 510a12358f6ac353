-- ===== src/Server/Ends.antt =====
-- How every connection of LAB6/server.cpp ends: its socket is closed once, and its client is gone from
-- the registry.
pub mod Connection
use comp_net.Prelude.{
  ℕ, ◌<◌, ◌≡◌, refl, sym, ap, subst, ◌∙◌, inl, inr, Bool, true, false, Option, none, some, List, [],
  ◌∷◌, ◌++◌, arith, ltb, ◌==◌, if◌then◌else◌, Bool-cases, Option-cases, All,
}
use comp_net.Text.{Text, codes}
use comp_net.Text.Trim.{trim}
use comp_net.Text.CString.{c_str}
use comp_net.Message.{MessageEx, seal_message, msg_hello, msg_auth, msg_welcome}
use comp_net.Server.{Server, Client, dedup_window}
use comp_net.Server.Dedup.{remember_message_id}
use comp_net.Server.Io.{make_message, send_message, server_name}
use comp_net.Server.History.{save_history_locked, append_history, mark_history_delivered}
use comp_net.Server.Registry.{remember, remove_client, remove_loop, add_client, new_client}
use comp_net.Server.Offline.{write_back}
use comp_net.Server.Session.{
  close_socket, refuse, welcome, handshake, hello_error, nickname_error, admit, check_nickname,
  authenticate, append_server_record, leave, serve_authenticated, serve_welcomed, handle_client,
}
use comp_net.Server.Frame.{
  Quiet, make_message-Quiet, send_message-Quiet, send_error-Quiet, broadcast_server_info-Quiet,
}
use comp_net.Server.Steps.{
  Work, Trace, quiet, appends, marks, queues, rewrites, remembers, Trace-keeps, ◌▸◌,
}
use comp_net.Server.Steps.Connection.{greet-Trace, serve_loop-Trace, append_server_record-Trace}

-- Nobody came or went from `s` to `t`.
pub record Still (s t : Server) : Type 0 where
  pub closed : t.closed ≡ s.closed
  pub clients : t.clients ≡ s.clients
  pub next_ref : t.next_ref ≡ s.next_ref
  pub socks : (ref : ℕ) → (t.heap ref).sock ≡ (s.heap ref).sock

Still-trans : (s t u : Server) → Still s t → Still t u → Still s u
Still-trans s t u p q = record {
  closed = q.closed ∙ p.closed;
  clients = q.clients ∙ p.clients;
  next_ref = q.next_ref ∙ p.next_ref;
  socks = λ ref. q.socks ref ∙ p.socks ref;
}

Still-Quiet : (s t : Server) → Quiet s t → Still s t
Still-Quiet s t q = record {
  closed = q.closed;
  clients = q.clients;
  next_ref = q.next_ref;
  socks = λ ref. ap (λ (h : ℕ → Client). (h ref).sock) q.heap;
}

Still-refl : (s : Server) → Still s s
Still-refl s = record { closed = refl; clients = refl; next_ref = refl; socks = λ ref. refl }

remember-sock : (c : Client) (id : ℕ) → (remember_message_id c id).sock ≡ c.sock
unfolding remember_message_id
remember-sock c id = elim (Bool-cases (ltb c.last_ids_count dedup_window)) [
  | inl e ↦ rw e
  | inr e ↦ rw e
]

remember-socks :
    (ref id : ℕ) (s : Server) (r : ℕ) → ((remember ref id s).heap r).sock ≡ (s.heap r).sock
unfolding remember
remember-socks ref id s r = ground (arith, remember-sock (s.heap ref) id)

Work-Still : (s t : Server) → Work s t → Still s t
unfolding append_history mark_history_delivered save_history_locked write_back
Work-Still s t (quiet q) = Still-Quiet s t q
Work-Still _ _ (appends rec s) = record {
  closed = refl;
  clients = refl;
  next_ref = refl;
  socks = λ ref. refl;
}
Work-Still _ _ (marks id s) = record {
  closed = refl;
  clients = refl;
  next_ref = refl;
  socks = λ ref. refl;
}
Work-Still _ _ (queues item s) = record {
  closed = refl;
  clients = refl;
  next_ref = refl;
  socks = λ ref. refl;
}
Work-Still _ _ (rewrites kept failed s) = record {
  closed = refl;
  clients = refl;
  next_ref = refl;
  socks = λ ref. refl;
}
Work-Still _ _ (remembers ref id s) = record {
  closed = unfold remember in refl;
  clients = unfold remember in refl;
  next_ref = unfold remember in refl;
  socks = remember-socks ref id s;
}

Trace-Still : {s t : Server} → Trace Work s t → Still s t
Trace-Still {s} path =
    Trace-keeps (Still s) (λ t u work p. Still-trans s t u p (Work-Still t u work)) path
      (Still-refl s)

-- The connection on `sock` is over: it was closed once, and the registry is as it was.
pub record IsOver (sock : ℕ) (s t : Server) : Type 0 where
  pub closed : t.closed ≡ s.closed ++ sock ∷ []
  pub clients : t.clients ≡ s.clients

-- What a phase of the connection leaves: the connection is over, or nobody came or went.
abbrev Phase {ℓ} : {A : Type ℓ} → ℕ → Server → Option A × Server → Type 0
Phase sock s (none, t) = IsOver sock s t
Phase sock s (some a, t) = Still s t

IsOver-after : (sock : ℕ) (s t u : Server) → Still s t → IsOver sock t u → IsOver sock s u
IsOver-after sock s t u p q = record {
  closed = q.closed ∙ ap (λ c. c ++ sock ∷ []) p.closed;
  clients = q.clients ∙ p.clients;
}

close-IsOver : (sock : ℕ) (s t : Server) → Still s t → IsOver sock s (close_socket sock t)
unfolding close_socket
close-IsOver sock s t p = record { closed = ap (λ c. c ++ sock ∷ []) p.closed; clients = p.clients }

refuse-IsOver : (sock : ℕ) (text : Text) (s : Server) → IsOver sock s (refuse sock text s)
unfolding refuse
refuse-IsOver sock text s = close-IsOver sock s _ (Still-Quiet _ _ (send_error-Quiet sock text s))

Phase-if {ℓ} :
    {A : Type ℓ} (b : Bool) (sock : ℕ) (s : Server) (x y : Option A × Server)
    → Phase sock s x
    → Phase sock s y
    → Phase sock s (if b then x else y)
Phase-if true sock s x y p q = p
Phase-if false sock s x y p q = q

welcome-Phase :
    (sock : ℕ) (frames : List MessageEx) (s : Server) → Phase sock s (welcome sock frames s)
unfolding welcome
welcome-Phase sock frames s =
    let (msg, s1) = make_message msg_welcome server_name [] (codes "WELCOME") 0 0 s in
    let (ok, s2) = send_message sock msg s1 in
    let calm =
      Still-trans s s1 s2
        (Still-Quiet s s1 (make_message-Quiet msg_welcome server_name [] (codes "WELCOME") 0 0 s))
        (Still-Quiet s1 s2 (send_message-Quiet sock msg s1)) in
    Phase-if ok sock s (some frames, s2) (none, close_socket sock s2) calm
      (close-IsOver sock s s2 calm)

handshake-Phase :
    (sock : ℕ) (frames : List MessageEx) (s : Server) → Phase sock s (handshake sock frames s)
unfolding handshake
handshake-Phase sock [] s = refuse-IsOver sock hello_error s
handshake-Phase sock (raw ∷ frames) s = elim (Bool-cases ((seal_message raw).type == msg_hello)) [
  | inl e ↦ rw e (welcome-Phase sock frames s)
  | inr e ↦ rw e (refuse-IsOver sock hello_error s)
]

-- What a good MSG_AUTH leaves: one new client at the end of the registry, on the socket.
pub record IsAdmitted (sock : ℕ) (s t : Server) : Type 0 where
  pub closed : t.closed ≡ s.closed
  pub clients : t.clients ≡ s.clients ++ s.next_ref ∷ []
  pub own : (t.heap s.next_ref).sock ≡ sock
  pub others : (ref : ℕ) → ref < s.next_ref → (t.heap ref).sock ≡ (s.heap ref).sock

abbrev AuthPhase {ℓ} : {A : Type ℓ} → ℕ → Server → Option A × Server → Type 0
AuthPhase sock s (none, t) = IsOver sock s t
AuthPhase sock s (some a, t) = IsAdmitted sock s t

admit-IsAdmitted :
    (sock : ℕ) (nickname : Text) (s : Server) → IsAdmitted sock s (admit sock nickname s).1
unfolding admit new_client add_client
admit-IsAdmitted sock nickname s = record {
  closed = refl;
  clients = refl;
  own = let e : (s.next_ref == s.next_ref) ≡ true = ground arith in rw e;
  others = λ ref p. let e : (ref == s.next_ref) ≡ false = ground arith in rw e;
}

check_nickname-AuthPhase :
    (sock : ℕ) (nickname : Text) (frames : List MessageEx) (s : Server)
    → AuthPhase sock s (check_nickname sock nickname frames s)
unfolding check_nickname
check_nickname-AuthPhase sock nickname frames s = elim (Option-cases (nickname_error nickname s)) [
  | inl e ↦ rw (e, check_nickname) (admit-IsAdmitted sock nickname s)
  | inr (text, e) ↦ rw (e, check_nickname) (refuse-IsOver sock text s)
]

authenticate-AuthPhase :
    (sock : ℕ) (frames : List MessageEx) (s : Server)
    → AuthPhase sock s (authenticate sock frames s)
unfolding authenticate
authenticate-AuthPhase sock [] s = close-IsOver sock s s (Still-refl s)
authenticate-AuthPhase sock (raw ∷ frames) s =
    elim (Bool-cases ((seal_message raw).type == msg_auth)) [
      | inl e ↦
          rw e (check_nickname-AuthPhase sock (trim (c_str (seal_message raw).payload)) frames s)
      | inr e ↦ rw e (refuse-IsOver sock (codes "Authentication required") s)
    ]
