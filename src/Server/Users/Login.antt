-- ===== src/Server/Users/Login.antt =====
-- The registry of LAB6/server.cpp while a client is logged in.
use comp_net.Prelude.{
  ℕ, ◌≡◌, refl, sym, subst, ◌∙◌, inl, inr, true, Option, none, some, List, [], ◌∷◌, ◌++◌, arith,
  ◌==◌, ==_iff, Bool-cases, Option-cases,
}
use comp_net.Text.{Text}
use comp_net.Text.CString.{trim-IsCString, c_str-c_str, c_str, IsCString}
use comp_net.Message.{MessageEx, seal_message, msg_auth}
use comp_net.Server.{Server}
use comp_net.Server.History.{save_history_locked, append_history, mark_history_delivered}
use comp_net.Server.Registry.{remember, add_client, new_client}
use comp_net.Server.Offline.{write_back}
use comp_net.Server.Session.{admit, nickname_error, check_nickname, authenticate, greet, serve_loop}
use comp_net.Server.Steps.{
  Work, quiet, appends, marks, queues, rewrites, remembers, Trace-keeps, ◌▸◌,
}
use comp_net.Server.Steps.Connection.{authenticate-Trace, greet-Trace, serve_loop-Trace}
use comp_net.Server.Users.{IsRegistry}
use comp_net.Server.Users.Connection.{
  remember_keeps, accepted_nickname, stored_nickname, Work-IsRegistry, Step-IsRegistry,
}

-- What a login has entered.
record Entered (ref : ℕ) (nickname : Text) (s t : Server) : Type 0 where
  clients : t.clients ≡ s.clients ++ ref ∷ []
  named : c_str (t.heap ref).nickname ≡ nickname

admit-Entered :
    (sock : ℕ) (nickname : Text) (s : Server)
    → nickname_error nickname s ≡ none
    → IsCString nickname
    → Entered (admit sock nickname s).0 nickname s (admit sock nickname s).1
unfolding admit new_client add_client
admit-Entered sock nickname s e n =
    let self : (s.next_ref == s.next_ref) ≡ true = ground arith in
    record {
      clients = refl;
      named = rw self (stored_nickname nickname n (accepted_nickname nickname s e).1);
    }

-- What the authentication hands on.
abbrev HasEntered : Server → Option (ℕ × Text × List MessageEx) × Server → Type 0
HasEntered s (none, t) = Unit
HasEntered s (some (ref, nickname, left), t) = Entered ref nickname s t

check_nickname-HasEntered :
    (sock : ℕ) (nickname : Text) (frames : List MessageEx) (s : Server)
    → IsCString nickname
    → HasEntered s (check_nickname sock nickname frames s)
unfolding check_nickname
check_nickname-HasEntered sock nickname frames s n =
    elim (Option-cases (nickname_error nickname s)) [
      | inl e ↦ rw (e, check_nickname) (admit-Entered sock nickname s e n)
      | inr (text, e) ↦ rw (e, check_nickname) tt
    ]

authenticate-HasEntered :
    (sock : ℕ) (frames : List MessageEx) (s : Server) → HasEntered s (authenticate sock frames s)
unfolding authenticate
authenticate-HasEntered sock [] s = tt
authenticate-HasEntered sock (raw ∷ frames) s =
    elim (Bool-cases ((seal_message raw).type == msg_auth)) [
      | inl e ↦
          rw (e, authenticate)
            (check_nickname-HasEntered sock _ frames s
              (trim-IsCString _ (c_str-c_str (seal_message raw).payload)))
      | inr e ↦ rw (e, authenticate) tt
    ]

-- Nobody comes, goes or is renamed while messages are handled.
record Stays (ref : ℕ) (s t : Server) : Type 0 where
  clients : t.clients ≡ s.clients
  nickname : c_str (t.heap ref).nickname ≡ c_str (s.heap ref).nickname

Work-Stays : (ref : ℕ) (start s t : Server) → Work s t → Stays ref start s → Stays ref start t
unfolding append_history mark_history_delivered save_history_locked write_back remember
Work-Stays ref start s t (quiet q) h = record {
  clients = q.clients ∙ h.clients;
  nickname = rw q.heap h.nickname;
}
Work-Stays ref start _ _ (appends rec s) h = record { clients = h.clients; nickname = h.nickname }
Work-Stays ref start _ _ (marks id s) h = record { clients = h.clients; nickname = h.nickname }
Work-Stays ref start _ _ (queues item s) h = record { clients = h.clients; nickname = h.nickname }
Work-Stays ref start _ _ (rewrites kept failed s) h = record {
  clients = h.clients;
  nickname = h.nickname;
}
Work-Stays ref start _ _ (remembers r id s) h = record {
  clients = h.clients;
  nickname = elim (Bool-cases (ref == r)) [
    | inl e ↦ rw (e, (remember_keeps (s.heap r) id).0, sym ((==_iff ref r).0 e)) h.nickname
    | inr e ↦ rw e h.nickname
  ];
}

-- While a client is logged in: if the registry is well formed when `handleClient` comes to the
-- authentication, and the authentication lets the client in under a nickname, then after the
-- greeting and any messages the registry is well formed, its last entry is that client, and the
-- client has that nickname. Well formed means: each entry is authenticated, has a nickname, and
-- shares it with no other entry.
pub authenticate-IsRegistry :
    (sock ref : ℕ) (nickname : Text) (frames left handled : List MessageEx) (s t : Server)
    → IsRegistry s
    → authenticate sock frames s ≡ (some (ref, nickname, left), t)
    → let u = serve_loop sock ref handled (greet sock ref nickname t) in
      IsRegistry u × (u.clients ≡ s.clients ++ ref ∷ []) × (c_str (u.heap ref).nickname ≡ nickname)
authenticate-IsRegistry sock ref nickname frames left handled s t h login =
    let entered = subst (HasEntered s) login (authenticate-HasEntered sock frames s) in
    let worked = greet-Trace sock ref nickname t ▸ serve_loop-Trace sock ref handled _ in
    let stays =
      Trace-keeps (Stays ref t) (Work-Stays ref t) worked
        (record { clients = refl; nickname = refl }) in
    (
      Trace-keeps IsRegistry Work-IsRegistry worked (
          subst (λ r. IsRegistry r.1) login
            (Trace-keeps IsRegistry Step-IsRegistry (authenticate-Trace sock frames s) h)),
      stays.clients ∙ entered.clients,
      stays.nickname ∙ entered.named,
    )
