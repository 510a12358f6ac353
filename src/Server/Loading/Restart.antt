-- ===== src/Server/Loading/Restart.antt =====
-- What a server has after it is started again: `loadHistoryFromFile` of LAB6/server.cpp on the text
-- that `saveHistoryLocked` has written.
use comp_net.Prelude.{
  ℕ, ◌+◌, ◌-◌, ◌%◌, ◌^◌, ◌≤◌, ◌<◌, ◌≡◌, refl, ap, ◌∙◌, inl, inr, Bool, true, false, some, List, [],
  ◌∷◌, ◌++◌, map, append-nil, append_assoc, arith, ltb, if◌then◌else◌, Bool-cases, length, All,
  All-map,
}
use comp_net.Text.Number.{stoll}
use comp_net.Text.{Text, codes, text_eq}
use comp_net.Text.Json.{json_unescape-json_escape}
use comp_net.Text.Number.Printed.{stoul-print_nat, stoll-print_nat}
use comp_net.Message.{word}
use comp_net.Server.{Server, HistoryRecord, OfflineMsg}
use comp_net.Server.History.{print_time, bool_text, render_history}
use comp_net.Server.Loading.{
  read_record, is_pending, offline_item, load_record, load_loop, load_history_from_file,
}
use comp_net.Server.Loading.Search.{Finds-render_history, IsTimed}
use comp_net.Server.Loading.Objects.{print_time_lem, groups_of}

-- The id of a record has its 32 bits, and its time is not negative.
abbrev pub Fits : HistoryRecord → Type 0
Fits rec = (rec.msg_id < 2 ^ 32) × (rec.timestamp < 2 ^ 63)

bool_text-true : (b : Bool) → text_eq (bool_text b) (codes "true") ≡ b
unfolding bool_text codes text_eq
bool_text-true true = refl
bool_text-true false = refl

read_record-groups_of : (rec : HistoryRecord) → Fits rec → read_record (groups_of rec) ≡ some rec
unfolding read_record
read_record-groups_of rec (hi, ht) =
    let id = stoul-print_nat rec.msg_id (omega arith) in
    let time : stoll (print_time rec.timestamp) ≡ some rec.timestamp =
      ap stoll (print_time_lem rec.timestamp ht) ∙ stoll-print_nat rec.timestamp ht in
    let wraps : rec.msg_id % word ≡ rec.msg_id = omega arith in
    rw
      (
        id,
        time,
        wraps,
        json_unescape-json_escape rec.sender,
        json_unescape-json_escape rec.receiver,
        json_unescape-json_escape rec.type,
        json_unescape-json_escape rec.text,
        bool_text-true rec.delivered,
        bool_text-true rec.is_offline,
      )
      refl

-- The largest id, from `max_id` on, and the messages that are to be delivered.
unfoldable pub largest_id : List HistoryRecord → ℕ → ℕ
largest_id [] max_id = max_id
largest_id (rec ∷ recs) max_id =
    largest_id recs (if ltb max_id rec.msg_id then rec.msg_id else max_id)

unfoldable pub pending : List HistoryRecord → List OfflineMsg
pending [] = []
pending (rec ∷ recs) =
    let rest = pending recs in if is_pending rec then offline_item rec ∷ rest else rest

-- The state after the loop.
abbrev loaded : List HistoryRecord → Server → Server
loaded recs s = record s {
  history_records = s.history_records ++ recs;
  offline_queue = s.offline_queue ++ pending recs;
}

load_loop-groups_of :
    (recs : List HistoryRecord) (max_id : ℕ) (s : Server)
    → All Fits recs
    → load_loop (map groups_of recs) max_id s ≡ some (largest_id recs max_id, loaded recs s)
unfolding load_loop largest_id pending load_record
load_loop-groups_of [] max_id s h =
    rw (append-nil s.history_records, append-nil s.offline_queue) refl
load_loop-groups_of (rec ∷ recs) max_id s h =
    let max_id1 = if ltb max_id rec.msg_id then rec.msg_id else max_id in
    elim (Bool-cases (is_pending rec)) [
      | inl e ↦
          (let more =
              load_loop-groups_of recs max_id1
                (record s {
                  history_records = s.history_records ++ rec ∷ [];
                  offline_queue = s.offline_queue ++ offline_item rec ∷ [];
                })
                h.1 in
            rw (load_loop, read_record-groups_of rec h.0, e, more)
              (rw
                (
                  append_assoc s.history_records (rec ∷ []) recs,
                  append_assoc s.offline_queue (offline_item rec ∷ []) (pending recs),
                )
                refl))
      | inr e ↦
          (let more =
              load_loop-groups_of recs max_id1
                (record s { history_records = s.history_records ++ rec ∷ [] }) h.1 in
            rw (load_loop, read_record-groups_of rec h.0, e, more)
              (rw (append_assoc s.history_records (rec ∷ []) recs) refl))
    ]

pub load_history_from_file-render_history :
    (recs : List HistoryRecord) (s : Server)
    → All Fits recs
    → load_history_from_file (some (render_history recs)) s
      ≡ some (record s {
        history_file = render_history recs;
        history_records = s.history_records ++ recs;
        offline_queue = s.offline_queue ++ pending recs;
        next_msg_id = (largest_id recs 0 + 1) % word;
      })
unfolding load_history_from_file
load_history_from_file-render_history recs s h =
    let content = render_history recs in
    let found =
      Finds-render_history recs (All-map Fits IsTimed recs (λ rec h. h.1) h) (length content)
        (omega arith) in
    rw
      (
        load_history_from_file,
        found,
        load_loop-groups_of recs 0 (record s { history_file = content }) h,
      )
      refl

largest_id-le :
    (recs : List HistoryRecord) (m b : ℕ)
    → m ≤ b
    → All (λ rec. rec.msg_id ≤ b) recs
    → (m ≤ largest_id recs m)
      × (largest_id recs m ≤ b)
      × All (λ rec. rec.msg_id ≤ largest_id recs m) recs
unfolding largest_id
largest_id-le [] m b hm h = (omega arith, hm, tt)
largest_id-le (rec ∷ recs) m b hm h =
    let m1 = if ltb m rec.msg_id then rec.msg_id else m in
    let hm1 : (m ≤ m1) × (rec.msg_id ≤ m1) × (m1 ≤ b) = ground (arith, h.0) in
    let more = largest_id-le recs m1 b hm1.2 h.1 in
    (omega (arith, hm1.0, more.0), more.1, (omega (arith, hm1.1, more.0), more.2))

-- The ids that a restarted server gives are above all of the history that was saved, if no id in it
-- was the largest word and no time in it is negative.
pub next_msg_id-load_history_from_file :
    (recs : List HistoryRecord) (s : Server)
    → All Fits recs
    → All (λ rec. rec.msg_id ≤ 2 ^ 32 - 2) recs
    → (t : Server) × (load_history_from_file (some (render_history recs)) s ≡ some t)
      × All (λ rec. rec.msg_id < t.next_msg_id) recs
next_msg_id-load_history_from_file recs s hf hb =
    let le = largest_id-le recs 0 (2 ^ 32 - 2) (omega arith) hb in
    let next : (largest_id recs 0 + 1) % word ≡ largest_id recs 0 + 1 = omega (arith, le.1) in
    let above =
      All-map (λ rec. rec.msg_id ≤ largest_id recs 0)
        (λ rec. rec.msg_id < (largest_id recs 0 + 1) % word) recs
        (λ rec h. rw next (omega (arith, h))) le.2 in
    (_, load_history_from_file-render_history recs s hf, above)
