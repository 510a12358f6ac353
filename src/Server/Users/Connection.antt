-- ===== src/Server/Users/Connection.antt =====
-- No step of LAB6/server.cpp spoils the registry.
use comp_net.Prelude.{
  ℕ, ◌+◌, ◌-◌, ◌<◌, ◌≡◌, refl, ap, subst, ◌∙◌, ◌≢◌, inl, inr, true, false, none, [], arith, ltb,
  ◌==◌, ==_iff, Bool-cases, length, take, take_all,
}
use comp_net.Text.{Text}
use comp_net.Text.CString.{c_str, c_str-buffer, buffer, IsCString}
use comp_net.Message.{max_name}
use comp_net.Server.{Server, Client, dedup_window}
use comp_net.Server.Dedup.{remember_message_id}
use comp_net.Server.Dedup.Window.{IsWindow, remember-IsWindow}
use comp_net.Server.History.{save_history_locked, append_history, mark_history_delivered}
use comp_net.Server.Registry.{
  used_loop, is_nickname_used, remember, remove_client, add_client, new_client,
}
use comp_net.Server.Offline.{write_back}
use comp_net.Server.Session.{close_socket, admit, nickname_error}
use comp_net.Server.Steps.{
  Work, works, Step, quiet, appends, marks, queues, rewrites, remembers, admits, removes, closes,
}
use comp_net.Server.Users.{
  IsRegistry, Entries-remove_loop, Agrees, Entries-Agrees, Entries-append, unused-Differs,
  new-Differs,
}

pub remember_keeps :
    (c : Client) (id : ℕ)
    → ((remember_message_id c id).nickname ≡ c.nickname)
      × ((remember_message_id c id).authenticated ≡ c.authenticated)
unfolding remember_message_id
remember_keeps c id = elim (Bool-cases (ltb c.last_ids_count dedup_window)) [
  | inl e ↦ rw e (refl, refl)
  | inr e ↦ rw e (refl, refl)
]

remember-Agrees :
    (ref id next_ref : ℕ) (s : Server) → Agrees next_ref s.heap (remember ref id s).heap
unfolding remember
remember-Agrees ref id next_ref s = record {
  nickname = λ r _. ground (arith, remember_keeps (s.heap ref) id);
  authenticated = λ r _. ground (arith, remember_keeps (s.heap ref) id);
  window = λ r _ w. elim (Bool-cases (r == ref)) [
    | inl e ↦ rw e (
        remember-IsWindow (s.heap ref) id (subst (λ k. IsWindow (s.heap k)) ((==_iff r ref).0 e) w))
    | inr e ↦ rw e w
  ];
}

admit-Agrees :
    (sock : ℕ) (nickname : Text) (s : Server)
    → Agrees s.next_ref s.heap (admit sock nickname s).1.heap
unfolding admit new_client add_client
admit-Agrees sock nickname s = record {
  nickname = λ r p. let e : (r == s.next_ref) ≡ false = ground arith in rw e;
  authenticated = λ r p. let e : (r == s.next_ref) ≡ false = ground arith in rw e;
  window = λ r p w. let e : (r == s.next_ref) ≡ false = ground arith in rw e w;
}

-- What the tests of the nickname leave.
pub accepted_nickname :
    (nickname : Text) (s : Server)
    → nickname_error nickname s ≡ none
    → (nickname ≢ []) × (length nickname < max_name) × (used_loop nickname s.heap s.clients ≡ false)
unfolding nickname_error is_nickname_used
accepted_nickname nickname s e = ground arith

-- A nickname that was accepted is stored whole.
pub stored_nickname :
    (nickname : Text)
    → IsCString nickname
    → length nickname < max_name
    → c_str (buffer max_name nickname) ≡ nickname
stored_nickname nickname n fits =
    c_str-buffer max_name nickname (omega arith)
    ∙ ap (take (max_name - 1)) n
    ∙ take_all (max_name - 1) nickname (omega arith)

admit-IsRegistry :
    (sock : ℕ) (nickname : Text) (s : Server)
    → nickname_error nickname s ≡ none
    → IsCString nickname
    → IsRegistry s
    → IsRegistry (admit sock nickname s).1
unfolding admit new_client add_client
admit-IsRegistry sock nickname s e n h =
    let (named, fits, unused) = accepted_nickname nickname s e in
    let stored = stored_nickname nickname n fits in
    let self : (s.next_ref == s.next_ref) ≡ true = ground arith in
    let heap = (admit sock nickname s).1.heap in
    let agrees = admit-Agrees sock nickname s in
    let new_name : c_str (heap s.next_ref).nickname ≡ nickname = rw self stored in
    record {
      entries =
          Entries-append s.clients s.next_ref
            (Entries-Agrees (s.next_ref + 1) s.clients agrees (omega arith) h.entries)
            (record {
              made = omega arith;
              authenticated = rw self;
              named = rw new_name named;
              window = rw self (record { size = refl; count = omega arith });
            })
            (new-Differs s.next_ref s.clients agrees new_name h.entries
              (unused-Differs s.next_ref nickname s.heap s.clients h.entries unused));
    }

pub Work-IsRegistry : (s t : Server) → Work s t → IsRegistry s → IsRegistry t
unfolding append_history mark_history_delivered save_history_locked write_back remove_client
    close_socket
Work-IsRegistry s t (quiet q) h = record { entries = rw (q.next_ref, q.heap, q.clients) h.entries }
Work-IsRegistry _ _ (appends rec s) h = record { entries = h.entries }
Work-IsRegistry _ _ (marks id s) h = record { entries = h.entries }
Work-IsRegistry _ _ (queues item s) h = record { entries = h.entries }
Work-IsRegistry _ _ (rewrites kept failed s) h = record { entries = h.entries }
Work-IsRegistry _ _ (remembers ref id s) h = record {
  entries =
      unfold remember in
      Entries-Agrees s.next_ref s.clients (remember-Agrees ref id s.next_ref s) (omega arith)
        h.entries;
}

pub Step-IsRegistry : (s t : Server) → Step s t → IsRegistry s → IsRegistry t
unfolding append_history mark_history_delivered save_history_locked write_back remove_client
    close_socket
Step-IsRegistry s t (works work) h = Work-IsRegistry s t work h
Step-IsRegistry _ _ (admits sock nickname s e n) h = admit-IsRegistry sock nickname s e n h
Step-IsRegistry _ _ (removes sock s) h = record {
  entries = Entries-remove_loop s.next_ref sock s.heap s.clients h.entries;
}
Step-IsRegistry _ _ (closes sock s) h = record { entries = h.entries }
