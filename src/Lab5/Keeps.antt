-- ===== src/Lab5/Keeps.antt =====
-- What the operations of LAB5/server.cpp do to the ids and the history, for any claim on them: the
-- claim has to bear the few steps that touch them, and then every operation, and a whole
-- connection, keeps it.
pub mod Operations
pub mod Connection
use comp_net.Prelude.{ℕ, ◌-◌, ◌≡◌, refl, inl, inr, ◌==◌, Bool-cases}
use comp_net.Text.{Text}
use comp_net.Message.{fill_message}
use comp_net.Server.{HistoryRecord}
use comp_net.Lab5.{Server}
use comp_net.Lab5.Io.{now, fetch_msg_id, or_fresh, make_message}
use comp_net.Lab5.History.{append_history, mark_history_delivered}

-- The counter of the ids and the history are the same.
pub record Same (s t : Server) : Type 0 where
  pub next_msg_id : t.next_msg_id ≡ s.next_msg_id
  pub ids_taken : t.ids_taken ≡ s.ids_taken
  pub history_records : t.history_records ≡ s.history_records

-- `P` is the claim on a server, and `H id` the claim on one where a thread has taken the id and put
-- it into no record yet.
pub record Keeps (P : Server → Type 0) (H : ℕ → Server → Type 0) : Type 0 where
  pub same : (s t : Server) → Same s t → P s → P t
  pub same_held : (id : ℕ) (s t : Server) → Same s t → H id s → H id t
  pub takes : (s : Server) → P s → H (fetch_msg_id s).0 (fetch_msg_id s).1
  pub appends : (rec : HistoryRecord) (s : Server) → H rec.msg_id s → P (append_history rec s)
  pub marks : (id : ℕ) (s : Server) → P s → P (mark_history_delivered id s)
  pub frees : (id : ℕ) (s : Server) → H id s → P s

now-Same : (s : Server) → Same s (now s).1
unfolding now
now-Same s = record { next_msg_id = refl; ids_taken = refl; history_records = refl }

module _ {P : Server → Type 0} {H : ℕ → Server → Type 0} (k : Keeps P H) where
  pub now-held : (id : ℕ) (s : Server) → H id s → H id (now s).1
  now-held id s = k.same_held id s (now s).1 (now-Same s)

  pub now-kept : (s : Server) → P s → P (now s).1
  now-kept s = k.same s (now s).1 (now-Same s)

  or_fresh-now-held : (id time : ℕ) (s : Server) → H id s → H id (or_fresh time now s).1
  or_fresh-now-held id time s h = elim (Bool-cases (time == 0)) [
    | inl e ↦ rw e (now-held id s h)
    | inr e ↦ rw e h
  ]

  or_fresh-fetch_msg_id-held :
      (id : ℕ) (s : Server)
      → H id s
      → H (or_fresh id fetch_msg_id s).0 (or_fresh id fetch_msg_id s).1
  or_fresh-fetch_msg_id-held id s h = elim (Bool-cases (id == 0)) [
    | inl e ↦ rw e (k.takes s (k.frees id s h))
    | inr e ↦ rw e h
  ]

  -- A message with an id of its own.
  pub make_message-held :
      (type : ℕ) (sender receiver payload : Text) (time : ℕ) (s : Server)
      → P s
      → H
          (make_message type sender receiver payload 0 time s).0.msg_id
          (make_message type sender receiver payload 0 time s).1
  unfolding make_message fill_message
  make_message-held type sender receiver payload time s h = or_fresh-now-held _ time _ (k.takes s h)

  -- A message with an id that was taken before.
  pub make_message_forced-held :
      (type : ℕ) (sender receiver payload : Text) (id time : ℕ) (s : Server)
      → H id s
      → H
          (make_message type sender receiver payload id time s).0.msg_id
          (make_message type sender receiver payload id time s).1
  unfolding make_message fill_message
  make_message_forced-held type sender receiver payload id time s h =
      or_fresh-now-held _ time _ (or_fresh-fetch_msg_id-held id s h)

  or_fresh-now-kept : (time : ℕ) (s : Server) → P s → P (or_fresh time now s).1
  or_fresh-now-kept time s h = elim (Bool-cases (time == 0)) [
    | inl e ↦ rw e (now-kept s h)
    | inr e ↦ rw e h
  ]

  or_fresh-fetch_msg_id-kept : (id : ℕ) (s : Server) → P s → P (or_fresh id fetch_msg_id s).1
  or_fresh-fetch_msg_id-kept id s h = elim (Bool-cases (id == 0)) [
    | inl e ↦ rw e (k.frees _ _ (k.takes s h))
    | inr e ↦ rw e h
  ]

  -- A message that goes into no record.
  pub make_message-kept :
      (type : ℕ) (sender receiver payload : Text) (id time : ℕ) (s : Server)
      → P s
      → P (make_message type sender receiver payload id time s).1
  unfolding make_message
  make_message-kept type sender receiver payload id time s h =
      or_fresh-now-kept time _ (or_fresh-fetch_msg_id-kept id s h)
