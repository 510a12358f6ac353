-- ===== src/Lab5/Interleaving.antt =====
-- The threads of LAB5/server.cpp side by side, as far as the ids and the history are concerned: each
-- step is one call of `nextMsgId.fetch_add` or one critical section, and any thread may take the
-- next one.
pub mod Unique
pub mod Marking
use comp_net.Prelude.{ℕ, ◌+◌, ◌-◌, List, [], ◌∷◌, ◌++◌}
use comp_net.Message.{MessageEx}
use comp_net.Server.{HistoryRecord}
use comp_net.Lab5.{Server}
use comp_net.Lab5.Io.{fetch_msg_id}
use comp_net.Lab5.History.{append_history, mark_history_delivered}
use comp_net.Lab5.Session.{handle_client}
use comp_net.Lab5.Keeps.{Same, Keeps}
use comp_net.Lab5.Keeps.Connection.{handle_client-kept}

-- The server, with the ids that threads have taken and put into no record yet.
pub record World : Type 0 where
  pub held : List ℕ
  pub server : Server

pub data Step : World → World → Type 0 where
  others :
      (held : List ℕ) (s t : Server)
      → Same s t
      → Step (record { held = held; server = s }) (record { held = held; server = t })
  takes :
      (held : List ℕ) (s : Server)
      → Step
          (record { held = held; server = s })
          (record { held = (fetch_msg_id s).0 ∷ held; server = (fetch_msg_id s).1 })
  appends :
      (before after : List ℕ) (rec : HistoryRecord) (s : Server)
      → Step
          (record { held = before ++ rec.msg_id ∷ after; server = s })
          (record { held = before ++ after; server = append_history rec s })
  frees :
      (before after : List ℕ) (id : ℕ) (s : Server)
      → Step
          (record { held = before ++ id ∷ after; server = s })
          (record { held = before ++ after; server = s })
  marks :
      (held : List ℕ) (id : ℕ) (s : Server)
      → Step
          (record { held = held; server = s })
          (record { held = held; server = mark_history_delivered id s })

pub data Run (w : World) : World → Type 0 where
  here : Run w w
  next : {u v : World} → Run w u → Step u v → Run w v

-- From a world, a thread that takes its steps while the others hold the ids in `held`.
alone :
    (w : World) (held : List ℕ)
    → Keeps
        (λ s. Run w (record { held = held; server = s }))
        (λ id s. Run w (record { held = id ∷ held; server = s }))
alone w held = record {
  same = λ s t e run. Run.next run (Step.others held s t e);
  same_held = λ id s t e run. Run.next run (Step.others (id ∷ held) s t e);
  takes = λ s run. Run.next run (Step.takes held s);
  appends = λ rec s run. Run.next run (Step.appends [] held rec s);
  marks = λ id s run. Run.next run (Step.marks held id s);
  frees = λ id s run. Run.next run (Step.frees [] held id s);
}

-- The whole of `handleClient` is such steps.
pub handle_client-Run :
    (w : World) (sock : ℕ) (frames : List MessageEx)
    → Run w (record { held = w.held; server = handle_client sock frames w.server })
handle_client-Run w sock frames = handle_client-kept (alone w w.held) sock frames w.server Run.here
