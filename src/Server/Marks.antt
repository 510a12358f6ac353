-- ===== src/Server/Marks.antt =====
-- Which record `markHistoryDelivered` of LAB6/server.cpp marks.
use comp_net.Prelude.{ℕ, ◌≡◌, refl, ap, ◌∙◌, true, false, List, [], ◌∷◌, ◌++◌, ◌==◌, All}
use comp_net.Server.{Server, HistoryRecord}
use comp_net.Server.History.{save_history_locked, mark_first, mark_history_delivered}

mark_first-append :
    (id : ℕ) (before : List HistoryRecord) (rec : HistoryRecord) (after : List HistoryRecord)
    → All (λ r. (r.msg_id == id) ≡ false) before
    → (rec.msg_id == id) ≡ true
    → mark_first id (before ++ rec ∷ after) ≡ before ++ record rec { delivered = true } ∷ after
unfolding mark_first
mark_first-append id [] rec after h same = rw same refl
mark_first-append id (r ∷ before) rec after (other, h) same =
    rw other (ap (λ recs. r ∷ recs) (mark_first-append id before rec after h same))

-- The first record with the id is marked as delivered, and no other one, whosever it is: a record
-- with the same id that comes later stays as it is, though it may be that of the message that was
-- delivered.
pub mark_history_delivered_lem :
    (id : ℕ) (before : List HistoryRecord) (rec : HistoryRecord) (after : List HistoryRecord)
    (s : Server)
    → s.history_records ≡ before ++ rec ∷ after
    → All (λ r. (r.msg_id == id) ≡ false) before
    → (rec.msg_id == id) ≡ true
    → (mark_history_delivered id s).history_records
      ≡ before ++ record rec { delivered = true } ∷ after
unfolding mark_history_delivered save_history_locked
mark_history_delivered_lem id before rec after s split h same =
    ap (mark_first id) split ∙ mark_first-append id before rec after h same
