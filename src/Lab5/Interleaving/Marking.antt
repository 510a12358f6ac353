-- ===== src/Lab5/Interleaving/Marking.antt =====
-- Which records `markHistoryDelivered` of LAB5/server.cpp marks.
use comp_net.Prelude.{
  ℕ, ◌+◌, ◌≤◌, ◌<◌, ◌≡◌, refl, ap, inl, inr, true, List, [], ◌∷◌, arith, ◌==◌, if◌then◌else◌,
  Bool-cases,
}
use comp_net.Message.{word}
use comp_net.Server.{HistoryRecord}
use comp_net.Server.History.{mark_first}
use comp_net.Lab5.History.{save_history_locked, mark_history_delivered}
use comp_net.Lab5.Interleaving.{World}
use comp_net.Lab5.Interleaving.Unique.{IsUnique, count, ids, share}

-- Every record with the id, marked.
unfoldable pub mark_all : ℕ → List HistoryRecord → List HistoryRecord
mark_all id [] = []
mark_all id (rec ∷ recs) =
    let rest = mark_all id recs in
    if rec.msg_id == id then record rec { delivered = true } ∷ rest else rec ∷ rest

mark_all_none :
    (id : ℕ) (recs : List HistoryRecord) → count id (ids recs) ≡ 0 → mark_all id recs ≡ recs
unfolding mark_all count
mark_all_none id [] none_there = refl
mark_all_none id (rec ∷ recs) none_there = elim (Bool-cases (rec.msg_id == id)) [
  | inl e ↦ absurd (ground (arith, e, none_there))
  | inr e ↦
      (let rest : count id (ids recs) ≡ 0 = omega (arith, none_there) in
        rw e (ap (◌∷◌ rec) (mark_all_none id recs rest)))
]

mark_first-mark_all :
    (id : ℕ) (recs : List HistoryRecord)
    → count id (ids recs) ≤ 1
    → mark_first id recs ≡ mark_all id recs
unfolding mark_first mark_all count
mark_first-mark_all id [] once = refl
mark_first-mark_all id (rec ∷ recs) once = elim (Bool-cases (rec.msg_id == id)) [
  | inl e ↦
      (let rest : count id (ids recs) ≡ 0 = ground (arith, e, once) in
        rw (e, mark_all_none id recs rest) refl)
  | inr e ↦
      (let rest : count id (ids recs) ≤ 1 = omega (arith, once) in
        rw e (ap (◌∷◌ rec) (mark_first-mark_all id recs rest)))
]

-- In a server of LAB5 whose ids are unique and have not wrapped around, whatever its threads hold,
-- `markHistoryDelivered`, which stops at the first record with the id, marks all the records with
-- that id.
pub mark_history_delivered-mark_all :
    (id : ℕ) (w : World)
    → IsUnique w
    → 1 + w.server.ids_taken < word
    → (mark_history_delivered id w.server).history_records ≡ mark_all id w.server.history_records
unfolding mark_history_delivered save_history_locked
mark_history_delivered-mark_all id w h l =
    let most : share id w.server.next_msg_id ≤ 1 = ground arith in
    mark_first-mark_all id w.server.history_records (omega (arith, h.once l id, most))
