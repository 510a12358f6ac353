-- ===== src/Server/Users.antt =====
-- The registry of LAB6/server.cpp is well formed: no nickname stands in it twice.
pub mod Connection
pub mod Login
use comp_net.Prelude.{
  ℕ, ◌+◌, ◌-◌, ◌≤◌, ◌<◌, ◌≡◌, refl, ap, subst, ◌∙◌, ◌≢◌, inl, inr, true, false, none, List, [], ◌∷◌,
  ◌++◌, arith, ltb, ◌==◌, ==_iff, Bool-cases, length, take, All, take_all, All-append,
}
use comp_net.Text.{Text, text_eq_iff}
use comp_net.Text.CString.{c_str, c_str-buffer, buffer, IsCString}
use comp_net.Message.{MessageEx, max_name}
use comp_net.Server.{Server, Client, dedup_window}
use comp_net.Server.Dedup.{remember_message_id}
use comp_net.Server.Dedup.Window.{IsWindow, remember-IsWindow}
use comp_net.Server.History.{save_history_locked, append_history, mark_history_delivered}
use comp_net.Server.Registry.{
  is_user, used_loop, is_nickname_used, remember, remove_client, remove_loop, add_client,
  new_client,
}
use comp_net.Server.Offline.{write_back}
use comp_net.Server.Session.{close_socket, admit, nickname_error, handle_client}
use comp_net.Server.Steps.{
  Work, works, Step, quiet, appends, marks, queues, rewrites, remembers, admits, removes, closes,
  Trace-keeps,
}
use comp_net.Server.Steps.Connection.{handle_client-Trace}

-- An entry of the registry: a client made by `make_shared`, authenticated, with a nickname that is
-- not empty and with its window of ids.
pub record IsEntry (next_ref : ℕ) (heap : ℕ → Client) (ref : ℕ) : Type 0 where
  pub made : ref < next_ref
  pub authenticated : (heap ref).authenticated ≡ true
  pub named : c_str (heap ref).nickname ≢ []
  pub window : IsWindow (heap ref)

abbrev pub Differs : (ℕ → Client) → ℕ → ℕ → Type 0
Differs heap a b = c_str (heap a).nickname ≢ c_str (heap b).nickname

-- Every entry is well formed, and has another nickname than all that follow.
abbrev pub Entries : ℕ → (ℕ → Client) → List ℕ → Type 0
Entries next_ref heap [] = Unit
Entries next_ref heap (ref ∷ refs) =
    IsEntry next_ref heap ref × All (Differs heap ref) refs × Entries next_ref heap refs

pub record IsRegistry (s : Server) : Type 0 where
  pub entries : Entries s.next_ref s.heap s.clients

All-remove_loop {κ} :
    (P : ℕ → Type κ) (sock : ℕ) (heap : ℕ → Client) (refs : List ℕ)
    → All P refs
    → All P (remove_loop sock heap refs)
unfolding remove_loop
All-remove_loop P sock heap [] h = h
All-remove_loop P sock heap (ref ∷ refs) h = elim (Bool-cases ((heap ref).sock == sock)) [
  | inl e ↦ rw e (All-remove_loop P sock heap refs h.1)
  | inr e ↦ rw e (h.0, All-remove_loop P sock heap refs h.1)
]

Entries-remove_loop :
    (next_ref sock : ℕ) (heap : ℕ → Client) (refs : List ℕ)
    → Entries next_ref heap refs
    → Entries next_ref heap (remove_loop sock heap refs)
unfolding remove_loop
Entries-remove_loop next_ref sock heap [] h = h
Entries-remove_loop next_ref sock heap (ref ∷ refs) h =
    let rest = Entries-remove_loop next_ref sock heap refs h.2 in
    elim (Bool-cases ((heap ref).sock == sock)) [
      | inl e ↦ rw e rest
      | inr e ↦ rw e (h.0, All-remove_loop (Differs heap ref) sock heap refs h.1, rest)
    ]

-- What the new heap must keep for the entries to stay well formed.
pub record Agrees (next_ref : ℕ) (heap heap' : ℕ → Client) : Type 0 where
  pub nickname : (ref : ℕ) → ref < next_ref → (heap' ref).nickname ≡ (heap ref).nickname
  pub authenticated :
      (ref : ℕ) → ref < next_ref → (heap' ref).authenticated ≡ (heap ref).authenticated
  pub window : (ref : ℕ) → ref < next_ref → IsWindow (heap ref) → IsWindow (heap' ref)

Differs-Agrees :
    {next_ref : ℕ} {heap heap' : ℕ → Client} (ref : ℕ) (refs : List ℕ)
    → Agrees next_ref heap heap'
    → ref < next_ref
    → Entries next_ref heap refs
    → All (Differs heap ref) refs
    → All (Differs heap' ref) refs
Differs-Agrees ref [] a p h d = tt
Differs-Agrees ref (r ∷ refs) a p h d =
    (rw (a.nickname ref p, a.nickname r h.0.made) d.0, Differs-Agrees ref refs a p h.2 d.1)

Entries-Agrees :
    {next_ref : ℕ} {heap heap' : ℕ → Client} (next_ref' : ℕ) (refs : List ℕ)
    → Agrees next_ref heap heap'
    → next_ref ≤ next_ref'
    → Entries next_ref heap refs
    → Entries next_ref' heap' refs
Entries-Agrees next_ref' [] a p h = tt
Entries-Agrees next_ref' (r ∷ refs) a p h =
    let made = h.0.made in
    (
      record {
        made = omega arith;
        authenticated = a.authenticated r made ∙ h.0.authenticated;
        named = rw (a.nickname r made) h.0.named;
        window = a.window r made h.0.window;
      },
      Differs-Agrees r refs a made h.2 h.1,
      Entries-Agrees next_ref' refs a p h.2,
    )

Entries-append :
    {next_ref : ℕ} {heap : ℕ → Client} (refs : List ℕ) (ref : ℕ)
    → Entries next_ref heap refs
    → IsEntry next_ref heap ref
    → All (λ r. Differs heap r ref) refs
    → Entries next_ref heap (refs ++ ref ∷ [])
Entries-append [] ref h e d = (e, tt, tt)
Entries-append {heap = heap} (r ∷ refs) ref h e d = (
  h.0,
  All-append (Differs heap r) refs (ref ∷ []) h.1 (d.0, tt),
  Entries-append refs ref h.2 e d.1,
)

-- What the search in `isNicknameUsed` has found out.
unused-Differs :
    (next_ref : ℕ) (nickname : Text) (heap : ℕ → Client) (refs : List ℕ)
    → Entries next_ref heap refs
    → used_loop nickname heap refs ≡ false
    → All (λ r. c_str (heap r).nickname ≢ nickname) refs
unfolding used_loop is_user
unused-Differs next_ref nickname heap [] h e = tt
unused-Differs next_ref nickname heap (r ∷ refs) h e =
    let auth = h.0.authenticated in
    (
      λ same. ground (arith, text_eq_iff nickname (c_str (heap r).nickname)),
      unused-Differs next_ref nickname heap refs h.2 (ground arith),
    )

new-Differs :
    {next_ref : ℕ} {heap heap' : ℕ → Client} {nickname : Text} (ref : ℕ) (refs : List ℕ)
    → Agrees next_ref heap heap'
    → c_str (heap' ref).nickname ≡ nickname
    → Entries next_ref heap refs
    → All (λ r. c_str (heap r).nickname ≢ nickname) refs
    → All (λ r. Differs heap' r ref) refs
new-Differs ref [] a e h d = tt
new-Differs ref (r ∷ refs) a e h d =
    (rw (a.nickname r h.0.made, e) d.0, new-Differs ref refs a e h.2 d.1)
