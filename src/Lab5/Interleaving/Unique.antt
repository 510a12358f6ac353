-- ===== src/Lab5/Interleaving/Unique.antt =====
-- The ids in the history of LAB5/server.cpp are different from each other and from those that its
-- threads have taken.
use comp_net.Prelude.{
  ℕ, ◌+◌, ◌%◌, ◌≤◌, ◌<◌, ◌≡◌, refl, ap, inl, inr, ◌&&◌, List, [], ◌∷◌, ◌++◌, map, map-append, arith,
  ltb, leb, ◌==◌, if◌then◌else◌, Bool-cases,
}
use comp_net.Message.{MessageEx, word}
use comp_net.Server.{HistoryRecord}
use comp_net.Server.History.{mark_first}
use comp_net.Lab5.Io.{fetch_msg_id}
use comp_net.Lab5.History.{append_history, save_history_locked, mark_history_delivered}
use comp_net.Lab5.{Server}
use comp_net.Lab5.Session.{handle_client}
use comp_net.Lab5.Interleaving.{World, Step, Run, handle_client-Run}

-- How often a number occurs.
unfoldable pub count : ℕ → List ℕ → ℕ
count x [] = 0
count x (y ∷ ys) = (if y == x then 1 else 0) + count x ys

count-append : (x : ℕ) (xs ys : List ℕ) → count x (xs ++ ys) ≡ count x xs + count x ys
unfolding count
count-append x [] ys = omega arith
count-append x (y ∷ xs) ys = omega (arith, count-append x xs ys)

abbrev pub ids : List HistoryRecord → List ℕ
ids recs = map (λ rec. rec.msg_id) recs

ids-mark_first : (id : ℕ) (recs : List HistoryRecord) → ids (mark_first id recs) ≡ ids recs
unfolding mark_first
ids-mark_first id [] = refl
ids-mark_first id (rec ∷ recs) = elim (Bool-cases (rec.msg_id == id)) [
  | inl e ↦ rw e refl
  | inr e ↦ rw e (ap (◌∷◌ rec.msg_id) (ids-mark_first id recs))
]

-- One for a number from 1 on and below `next`, and none for any other.
abbrev pub share : ℕ → ℕ → ℕ
share x next = if leb 1 x && ltb x next then 1 else 0

-- The counter is right; and as long as it has not wrapped around, an id that was given is held or
-- in the history at most once, and one that was not given is nowhere.
pub record IsUnique (w : World) : Type 0 where
  pub counter : w.server.next_msg_id ≡ (1 + w.server.ids_taken) % word
  pub once :
      1 + w.server.ids_taken < word
      → (x : ℕ)
      → count x w.held + count x (ids w.server.history_records) ≤ share x w.server.next_msg_id

-- The next id is given.
share-suc :
    (x next a b : ℕ)
    → 1 ≤ next
    → a + b ≤ share x next
    → (if next == x then 1 else 0) + a + b ≤ share x (next + 1)
share-suc x next a b one le = ground (arith, one, le)

-- A held id goes.
freed :
    (x id : ℕ) (before after : List ℕ) (more most : ℕ)
    → count x (before ++ id ∷ after) + more ≤ most
    → count x (before ++ after) + more ≤ most
unfolding count
freed x id before after more most le =
    omega (arith, le, count-append x before after, count-append x before (id ∷ after))

-- A held id goes into a record.
appended :
    (x : ℕ) (before after : List ℕ) (recs : List HistoryRecord) (rec : HistoryRecord) (most : ℕ)
    → count x (before ++ rec.msg_id ∷ after) + count x (ids recs) ≤ most
    → count x (before ++ after) + count x (ids (recs ++ rec ∷ [])) ≤ most
unfolding count
appended x before after recs rec most le =
    let front = map-append (λ r. r.msg_id) recs (rec ∷ []) in
    rw front (
      omega (
        arith,
        le,
        count-append x before after,
        count-append x before (rec.msg_id ∷ after),
        count-append x (ids recs) (rec.msg_id ∷ []),
      ))

Step-IsUnique : (u v : World) → Step u v → IsUnique u → IsUnique v
unfolding fetch_msg_id append_history mark_history_delivered save_history_locked count
Step-IsUnique _ _ (Step.others held s t e) h = record {
  counter = rw (e.next_msg_id, e.ids_taken) h.counter;
  once = rw (e.next_msg_id, e.ids_taken, e.history_records) h.once;
}
Step-IsUnique _ _ (Step.takes held s) h = record {
  counter = omega (arith, h.counter);
  once = λ l x.
      let room : 1 + s.ids_taken < word = omega (arith, l) in
      let first : s.next_msg_id ≡ 1 + s.ids_taken = omega (arith, h.counter, room) in
      let on : (s.next_msg_id + 1) % word ≡ s.next_msg_id + 1 = omega (arith, first, l) in
      rw on (share-suc x s.next_msg_id _ _ (omega (arith, first)) (h.once room x));
}
Step-IsUnique _ _ (Step.appends before after rec s) h = record {
  counter = h.counter;
  once = λ l x. appended x before after s.history_records rec (share x s.next_msg_id) (h.once l x);
}
Step-IsUnique _ _ (Step.frees before after id s) h = record {
  counter = h.counter;
  once = λ l x.
      freed x id before after (count x (ids s.history_records)) (share x s.next_msg_id)
        (h.once l x);
}
Step-IsUnique _ _ (Step.marks held id s) h = record {
  counter = h.counter;
  once = λ l x. rw (ids-mark_first id s.history_records) (h.once l x);
}

-- Every path of such steps keeps this.
Run-IsUnique : (u v : World) → Run u v → IsUnique u → IsUnique v
Run-IsUnique u _ Run.here h = h
Run-IsUnique u _ (Run.next run step) h = Step-IsUnique _ _ step (Run-IsUnique u _ run h)

-- Whatever a client of LAB5 sends, `handleClient` keeps the ids apart, also from those that other
-- threads hold, that is, have taken before and put into no record yet: if the counter is right and,
-- as long as it has not wrapped around, an id that was given occurs at most once among the records
-- and the held ids together, and an id that was not given does not occur, then this is so after the
-- connection, with the same ids held.
pub handle_client-IsUnique :
    (held : List ℕ) (sock : ℕ) (frames : List MessageEx) (s : Server)
    → IsUnique (record { held = held; server = s })
    → IsUnique (record { held = held; server = handle_client sock frames s })
handle_client-IsUnique held sock frames s h =
    Run-IsUnique _ _ (handle_client-Run (record { held = held; server = s }) sock frames) h
