-- ===== src/Server/Steps/Sent.antt =====
-- What LAB6/server.cpp has sent stays sent, in its order: every critical section, and so every path
-- of them, only adds to it.
use comp_net.Prelude.{◌≡◌, refl, sym, ap, ◌∙◌, List, [], ◌++◌, map-append, append-nil, append_assoc}
use comp_net.Server.{Server, Sent}
use comp_net.Server.Registry.{new_client, add_client, remove_client, remember}
use comp_net.Server.History.{append_history, mark_history_delivered, save_history_locked}
use comp_net.Server.Offline.{write_back}
use comp_net.Server.Session.{admit, close_socket}
use comp_net.Server.Steps.{
  Work, quiet, appends, marks, queues, rewrites, remembers, Step, works, admits, removes, closes,
  Trace, Trace-keeps,
}
use comp_net.Server.Outbox.{addressed}

-- From `s` to `t` messages were sent.
pub record Sends (s t : Server) : Type 0 where
  pub sent : List Sent
  pub outbox : t.outbox ≡ s.outbox ++ sent

nothing : (s t : Server) → t.outbox ≡ s.outbox → Sends s t
nothing s t h = record { sent = []; outbox = h ∙ sym (append-nil _) }

Sends-trans : (s t u : Server) → Sends s t → Sends t u → Sends s u
Sends-trans s t u p q = record {
  sent = p.sent ++ q.sent;
  outbox = q.outbox ∙ ap (◌++ q.sent) p.outbox ∙ append_assoc _ p.sent q.sent;
}

Work-Sends : (s t : Server) → Work s t → Sends s t
unfolding append_history mark_history_delivered save_history_locked write_back remember
Work-Sends s t (quiet q) = record { sent = q.sent; outbox = q.outbox }
Work-Sends _ _ (appends rec s) = nothing s _ refl
Work-Sends _ _ (marks id s) = nothing s _ refl
Work-Sends _ _ (queues item s) = nothing s _ refl
Work-Sends _ _ (rewrites kept failed s) = nothing s _ refl
Work-Sends _ _ (remembers ref id s) = nothing s _ refl

Step-Sends : (s t : Server) → Step s t → Sends s t
unfolding admit close_socket remove_client new_client add_client
Step-Sends s t (works w) = Work-Sends s t w
Step-Sends _ _ (admits sock nickname s free whole) = nothing s _ refl
Step-Sends _ _ (removes sock s) = nothing s _ refl
Step-Sends _ _ (closes sock s) = nothing s _ refl

pub Trace-Sends : (s t : Server) → Trace Step s t → Sends s t
Trace-Sends s t path =
    Trace-keeps (Sends s) (λ t u step h. Sends-trans s t u h (Step-Sends t u step)) path
      (nothing s s refl)

-- The same for the sockets and the messages.
pub addressed-Sends :
    (s t : Server) (h : Sends s t) → addressed t.outbox ≡ addressed s.outbox ++ addressed h.sent
addressed-Sends s t h = ap addressed h.outbox ∙ map-append _ s.outbox h.sent
