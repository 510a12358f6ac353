-- ===== src/Server/Growth.antt =====
-- The history of LAB6/server.cpp only grows.
use comp_net.Prelude.{
  ℕ, ◌≡◌, refl, sym, subst, ◌⊎◌, inl, inr, true, List, [], ◌∷◌, ◌++◌, arith, ◌==◌, Bool-cases,
}
use comp_net.Message.{MessageEx}
use comp_net.Server.{Server, HistoryRecord}
use comp_net.Server.History.{
  save_history_locked, append_history, mark_history_delivered, mark_first,
}
use comp_net.Server.Registry.{remember, remove_client, add_client, new_client}
use comp_net.Server.Offline.{write_back}
use comp_net.Server.Session.{close_socket, admit, handle_client}
use comp_net.Server.Steps.{
  Work, works, Step, quiet, appends, marks, queues, rewrites, remembers, admits, removes, closes,
  Trace-keeps,
}
use comp_net.Server.Steps.Connection.{handle_client-Trace}

-- The same record, or the same but for the flag, which is now set.
abbrev pub Survives : HistoryRecord → HistoryRecord → Type 0
Survives rec later = (later ≡ rec) ⊎ (later ≡ record rec { delivered = true })

-- Each record is still there, at its place.
abbrev pub Grows : List HistoryRecord → List HistoryRecord → Type 0
Grows [] later = Unit
Grows (rec ∷ recs) [] = ⊥
Grows (rec ∷ recs) (rec' ∷ later) = Survives rec rec' × Grows recs later

Grows-refl : (recs : List HistoryRecord) → Grows recs recs
Grows-refl [] = tt
Grows-refl (rec ∷ recs) = (inl refl, Grows-refl recs)

Grows-append : (recs more : List HistoryRecord) → Grows recs (recs ++ more)
Grows-append [] more = tt
Grows-append (rec ∷ recs) more = (inl refl, Grows-append recs more)

Grows-mark_first : (id : ℕ) (recs : List HistoryRecord) → Grows recs (mark_first id recs)
unfolding mark_first
Grows-mark_first id [] = tt
Grows-mark_first id (rec ∷ recs) = elim (Bool-cases (rec.msg_id == id)) [
  | inl e ↦ rw e (inr refl, Grows-refl recs)
  | inr e ↦ rw e (inl refl, Grows-mark_first id recs)
]

Survives-trans : (a b c : HistoryRecord) → Survives a b → Survives b c → Survives a c
Survives-trans a b c p q = ground arith

Grows-trans : (xs ys zs : List HistoryRecord) → Grows xs ys → Grows ys zs → Grows xs zs
Grows-trans [] ys zs p q = tt
Grows-trans (x ∷ xs) [] zs p q = absurd p
Grows-trans (x ∷ xs) (y ∷ ys) [] p q = absurd q
Grows-trans (x ∷ xs) (y ∷ ys) (z ∷ zs) p q =
    (Survives-trans x y z p.0 q.0, Grows-trans xs ys zs p.1 q.1)

Work-Grows : (s t : Server) → Work s t → Grows s.history_records t.history_records
unfolding append_history mark_history_delivered save_history_locked write_back remember admit
    new_client add_client remove_client close_socket
Work-Grows s t (quiet q) =
    subst (Grows s.history_records) (sym q.history_records) (Grows-refl s.history_records)
Work-Grows _ _ (appends rec s) = Grows-append s.history_records (rec ∷ [])
Work-Grows _ _ (marks id s) = Grows-mark_first id s.history_records
Work-Grows _ _ (queues item s) = Grows-refl s.history_records
Work-Grows _ _ (rewrites kept failed s) = Grows-refl s.history_records
Work-Grows _ _ (remembers ref id s) = Grows-refl s.history_records

Step-Grows : (s t : Server) → Step s t → Grows s.history_records t.history_records
unfolding append_history mark_history_delivered save_history_locked write_back remember admit
    new_client add_client remove_client close_socket
Step-Grows s t (works work) = Work-Grows s t work
Step-Grows _ _ (admits sock nickname s e n) = Grows-refl s.history_records
Step-Grows _ _ (removes sock s) = Grows-refl s.history_records
Step-Grows _ _ (closes sock s) = Grows-refl s.history_records

-- No connection takes a record out of the history, moves one or changes one, but that a record may
-- become delivered.
pub handle_client-Grows :
    (sock : ℕ) (frames : List MessageEx) (s : Server)
    → Grows s.history_records (handle_client sock frames s).history_records
handle_client-Grows sock frames s =
    Trace-keeps (λ t. Grows s.history_records t.history_records)
      (λ t u step h.
        Grows-trans s.history_records t.history_records u.history_records h (Step-Grows t u step))
      (handle_client-Trace sock frames s) (Grows-refl s.history_records)
