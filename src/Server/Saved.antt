-- ===== src/Server/Saved.antt =====
-- HISTORY_FILE of LAB6/server.cpp holds the history records.
use comp_net.Prelude.{ℕ, ◌≡◌, refl, sym, ap, ◌∙◌, List}
use comp_net.Message.{MessageEx}
use comp_net.Server.{Server}
use comp_net.Server.History.{
  render_history, save_history_locked, append_history, mark_history_delivered,
}
use comp_net.Server.Registry.{remember, remove_client, add_client, new_client}
use comp_net.Server.Offline.{write_back}
use comp_net.Server.Session.{close_socket, admit, handle_client}
use comp_net.Server.Steps.{
  Work, works, Step, quiet, appends, marks, queues, rewrites, remembers, admits, removes, closes,
  Trace-keeps,
}
use comp_net.Server.Steps.Connection.{handle_client-Trace}

pub record IsSaved (s : Server) : Type 0 where
  pub file : s.history_file ≡ render_history s.history_records

Work-IsSaved : (s t : Server) → Work s t → IsSaved s → IsSaved t
unfolding append_history mark_history_delivered save_history_locked write_back remember admit
    new_client add_client remove_client close_socket
Work-IsSaved _ _ (quiet q) h = record {
  file = q.history_file ∙ h.file ∙ ap render_history (sym q.history_records);
}
Work-IsSaved _ _ (appends rec s) h = record { file = refl }
Work-IsSaved _ _ (marks id s) h = record { file = refl }
Work-IsSaved _ _ (queues item s) h = record { file = h.file }
Work-IsSaved _ _ (rewrites kept failed s) h = record { file = h.file }
Work-IsSaved _ _ (remembers ref id s) h = record { file = h.file }

Step-IsSaved : (s t : Server) → Step s t → IsSaved s → IsSaved t
unfolding append_history mark_history_delivered save_history_locked write_back remember admit
    new_client add_client remove_client close_socket
Step-IsSaved s t (works work) h = Work-IsSaved s t work h
Step-IsSaved _ _ (admits sock nickname s e n) h = record { file = h.file }
Step-IsSaved _ _ (removes sock s) h = record { file = h.file }
Step-IsSaved _ _ (closes sock s) h = record { file = h.file }

-- If the file holds the history records before a connection, it does so after it, whatever the
-- client sends.
pub handle_client-IsSaved :
    (sock : ℕ) (frames : List MessageEx) (s : Server)
    → IsSaved s
    → IsSaved (handle_client sock frames s)
handle_client-IsSaved sock frames s h =
    Trace-keeps IsSaved Step-IsSaved (handle_client-Trace sock frames s) h
