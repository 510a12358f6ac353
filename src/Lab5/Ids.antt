-- ===== src/Lab5/Ids.antt =====
-- The ids of the records in the history of LAB5/server.cpp.
pub mod Connection
use comp_net.Prelude.{
  ℕ, suc, ◌+◌, ◌-◌, ◌%◌, ◌≤◌, ◌<◌, ◌≡◌, inl, inr, List, [], ◌∷◌, ◌++◌, arith, ◌==◌, Bool-cases,
}
use comp_net.Text.{Text}
use comp_net.Message.{MessageEx, word, fill_message}
use comp_net.Server.{HistoryRecord, OfflineMsg}
use comp_net.Server.History.{mark_first}
use comp_net.Lab5.{Server, Client}
use comp_net.Lab5.Io.{
  now, fetch_msg_id, or_fresh, make_message, send_message, send_server_info, send_error,
  broadcast_loop, broadcast_message, broadcast_server_info,
}
use comp_net.Lab5.Keeps.{Keeps}
use comp_net.Lab5.History.{append_history, save_history_locked, mark_history_delivered}

-- The ids rise from one record to the next, from `low` on, and stay below `next`.
abbrev pub Rises : ℕ → ℕ → List HistoryRecord → Type 0
Rises low next [] = low ≤ next
Rises low next (rec ∷ recs) = (low ≤ rec.msg_id) × Rises (suc rec.msg_id) next recs

Rises-le : (low next : ℕ) (recs : List HistoryRecord) → Rises low next recs → low ≤ next
Rises-le low next [] h = h
Rises-le low next (rec ∷ recs) h = omega (arith, h.0, Rises-le (suc rec.msg_id) next recs h.1)

Rises-later :
    (low next later : ℕ) (recs : List HistoryRecord)
    → next ≤ later
    → Rises low next recs
    → Rises low later recs
Rises-later low next later [] l h = omega (arith, l, h)
Rises-later low next later (rec ∷ recs) l h =
    (h.0, Rises-later (suc rec.msg_id) next later recs l h.1)

Rises-append :
    (low next : ℕ) (recs : List HistoryRecord) (rec : HistoryRecord)
    → rec.msg_id < next
    → Rises low rec.msg_id recs
    → Rises low next (recs ++ rec ∷ [])
Rises-append low next [] rec l h = (h, l)
Rises-append low next (r ∷ recs) rec l h = (h.0, Rises-append (suc r.msg_id) next recs rec l h.1)

Rises-mark_first :
    (low next id : ℕ) (recs : List HistoryRecord)
    → Rises low next recs
    → Rises low next (mark_first id recs)
unfolding mark_first
Rises-mark_first low next id [] h = h
Rises-mark_first low next id (rec ∷ recs) h = elim (Bool-cases (rec.msg_id == id)) [
  | inl e ↦ rw e h
  | inr e ↦ rw e (h.0, Rises-mark_first (suc rec.msg_id) next id recs h.1)
]

-- The counter of the ids is right, and as long as it has not wrapped around the ids in the history
-- rise and stay below the next one.
pub record IsNumbered (s : Server) : Type 0 where
  pub counter : s.next_msg_id ≡ (1 + s.ids_taken) % word
  pub rises : 1 + s.ids_taken < word → Rises 1 s.next_msg_id s.history_records

-- The same, with an id that was taken and is in no record yet: it is above those in the history.
pub record Holds (id : ℕ) (s : Server) : Type 0 where
  pub counter : s.next_msg_id ≡ (1 + s.ids_taken) % word
  pub above : 1 + s.ids_taken < word → Rises 1 id s.history_records × (id < s.next_msg_id)

pub Holds→IsNumbered : (id : ℕ) (s : Server) → Holds id s → IsNumbered s
Holds→IsNumbered id s h = record {
  counter = h.counter;
  rises = λ l.
      Rises-later 1 id s.next_msg_id s.history_records (omega (arith, (h.above l).1)) (h.above l).0;
}

pub fetch_msg_id-Holds : (s : Server) → IsNumbered s → Holds (fetch_msg_id s).0 (fetch_msg_id s).1
unfolding fetch_msg_id
fetch_msg_id-Holds s h = record {
  counter = omega (arith, h.counter);
  above = λ l. (h.rises (omega (arith, l)), omega (arith, h.counter, l));
}

pub append_history-IsNumbered :
    (rec : HistoryRecord) (s : Server) → Holds rec.msg_id s → IsNumbered (append_history rec s)
unfolding append_history save_history_locked
append_history-IsNumbered rec s h = record {
  counter = h.counter;
  rises = λ l. Rises-append 1 s.next_msg_id s.history_records rec (h.above l).1 (h.above l).0;
}

pub mark_history_delivered-IsNumbered :
    (id : ℕ) (s : Server) → IsNumbered s → IsNumbered (mark_history_delivered id s)
unfolding mark_history_delivered save_history_locked
mark_history_delivered-IsNumbered id s h = record {
  counter = h.counter;
  rises = λ l. Rises-mark_first 1 s.next_msg_id id s.history_records (h.rises l);
}

pub numbered : Keeps IsNumbered Holds
numbered = record {
  same = λ s t e h. record {
    counter = rw (e.next_msg_id, e.ids_taken) h.counter;
    rises = rw (e.next_msg_id, e.ids_taken, e.history_records) h.rises;
  };
  same_held = λ id s t e h. record {
    counter = rw (e.next_msg_id, e.ids_taken) h.counter;
    above = rw (e.next_msg_id, e.ids_taken, e.history_records) h.above;
  };
  takes = fetch_msg_id-Holds;
  appends = append_history-IsNumbered;
  marks = mark_history_delivered-IsNumbered;
  frees = Holds→IsNumbered;
}
