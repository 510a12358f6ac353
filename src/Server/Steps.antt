-- ===== src/Server/Steps.antt =====
-- The critical sections of LAB6/server.cpp as a step relation: whatever a thread does to the shared
-- data is a path of such steps, and so is every interleaving of threads.
pub mod Connection
pub mod Sent
use comp_net.Prelude.{
  [], ℕ, ◌+◌, ◌-◌, ◌≡◌, Bool, true, false, Option, none, some, List, ◌∷◌, ◌++◌, if◌then◌else◌,
}
use comp_net.Text.{Text}
use comp_net.Text.CString.{IsCString}
use comp_net.Message.{
  MessageEx, seal_message, msg_text, msg_private, msg_list, msg_history, msg_ping, msg_bye,
  msg_auth, msg_hello,
}
use comp_net.Server.{Server, Client, OfflineMsg, HistoryRecord}
use comp_net.Server.Io.{make_message, send_message, now, fetch_msg_id}
use comp_net.Server.History.{append_history, mark_history_delivered}
use comp_net.Server.Registry.{remember, remove_client, has_seen, find_client_by_nickname}
use comp_net.Server.Offline.{
  store_offline_message, write_back, deliver_item, deliver_loop, deliver_offline_messages,
  for_delivery,
}
use comp_net.Server.NetSim.{apply_network_simulation}
use comp_net.Server.Handlers.{
  handle_broadcast_text, handle_private_text, send_private, store_private, parse_private,
}
use comp_net.Server.Session.{
  close_socket, refuse, welcome, handshake, nickname_error, admit, check_nickname, authenticate,
  append_server_record, greet, is_reliable, dispatch, accept_message, handle_message, serve_loop,
  leave, serve_authenticated, serve_welcomed, handle_client,
}
use comp_net.Server.Frame.{
  Quiet, now-Quiet, fetch_msg_id-Quiet, make_message-Quiet, send_message-Quiet,
  send_server_info-Quiet, send_error-Quiet, send_ack-Quiet, broadcast_message-Quiet,
  broadcast_server_info-Quiet, handle_history_request-Quiet, handle_list_request-Quiet,
  ack_client-Quiet, handle_ping-Quiet, apply_network_simulation-Quiet,
}

-- `push_back` on the offline queue.
abbrev pub push_offline : OfflineMsg → Server → Server
push_offline item s = record s { offline_queue = s.offline_queue ++ item ∷ [] }

-- One critical section on the data, or work on nothing shared but the sockets.
pub data Work : Server → Server → Type 0 where
  quiet : {s t : Server} → Quiet s t → Work s t
  appends : (rec : HistoryRecord) (s : Server) → Work s (append_history rec s)
  marks : (id : ℕ) (s : Server) → Work s (mark_history_delivered id s)
  queues : (item : OfflineMsg) (s : Server) → Work s (push_offline item s)
  rewrites : (kept failed : List OfflineMsg) (s : Server) → Work s (write_back kept failed s)
  remembers : (ref id : ℕ) (s : Server) → Work s (remember ref id s)

-- Such work, or a client that comes or goes.
pub data Step : Server → Server → Type 0 where
  works : {s t : Server} → Work s t → Step s t
  admits :
      (sock : ℕ) (nickname : Text) (s : Server)
      → nickname_error nickname s ≡ none
      → IsCString nickname
      → Step s (admit sock nickname s).1
  removes : (sock : ℕ) (s : Server) → Step s (remove_client sock s)
  closes : (sock : ℕ) (s : Server) → Step s (close_socket sock s)

pub data Trace (R : Server → Server → Type 0) (s : Server) : Server → Type 0 where
  here : Trace R s s
  next : {t u : Server} → Trace R s t → R t u → Trace R s u

module _ {R : Server → Server → Type 0} where
  pub Trace-trans : {s t u : Server} → Trace R s t → Trace R t u → Trace R s u
  Trace-trans p here = p
  Trace-trans p (next q step) = next (Trace-trans p q) step

  pub one : {s t : Server} → R s t → Trace R s t
  one step = next here step

  -- What every step keeps, every path keeps.
  pub Trace-keeps {ℓ} :
      (P : Server → Type ℓ)
      → ((s t : Server) → R s t → P s → P t)
      → {s t : Server} → Trace R s t
      → P s
      → P t
  Trace-keeps P keep here h = h
  Trace-keeps P keep (next {t = t} {u = u} path step) h = keep t u step (Trace-keeps P keep path h)

  -- One part after another.
  infixl 20 ◌▸◌
  pub ◌▸◌ : {s t u : Server} → Trace R s t → Trace R t u → Trace R s u
  p ▸ q = Trace-trans p q

  pub Trace-if :
      (b : Bool) {s t u : Server} → Trace R s t → Trace R s u → Trace R s (if b then t else u)
  Trace-if true p q = p
  Trace-if false p q = q

-- The same for a function that returns a result beside the state.
pub record Runs {ℓ} (R : Server → Server → Type 0) {A : Type ℓ} (s : Server) (r : A × Server)
    : Type 0 where
  pub path : Trace R s r.1

module _ {ℓ} {R : Server → Server → Type 0} {A : Type ℓ} where
  pub Runs-if :
      (b : Bool) {s : Server} {x y : A × Server}
      → Runs R s x
      → Runs R s y
      → Runs R s (if b then x else y)
  Runs-if true p q = p
  Runs-if false p q = q

  pub ends : {a : A} {s t : Server} → Trace R s t → Runs R s (a, t)
  ends p = record { path = p }

pub calm : {s t : Server} → Quiet s t → Trace Work s t
calm q = one (quiet q)

pub lift : {s t : Server} → Trace Work s t → Trace Step s t
lift here = here
lift (next path work) = next (lift path) (works work)

pub store_offline-Trace :
    (sender receiver text : Text) (timestamp id : ℕ) (s : Server)
    → Trace Work s (store_offline_message sender receiver text timestamp id s)
unfolding store_offline_message
store_offline-Trace sender receiver text timestamp id s = next (one (queues _ s)) (appends _ _)

deliver_item-Trace :
    (client : Client) (item : OfflineMsg) (s : Server) → Trace Work s (deliver_item client item s).1
unfolding deliver_item
deliver_item-Trace client item s =
    calm (make_message-Quiet _ _ _ _ _ _ s)
    ▸ calm (send_message-Quiet client.sock _ _)
    ▸ Trace-if _ (one (marks item.msg_id _)) here

deliver_loop-Trace :
    (client : Client) (items failed : List OfflineMsg) (s : Server)
    → Trace Work s (deliver_loop client items failed s).1
unfolding deliver_loop
deliver_loop-Trace client [] failed s = here
deliver_loop-Trace client (item ∷ items) failed s =
    deliver_item-Trace client item s ▸ deliver_loop-Trace client items _ _

pub deliver_offline-Trace : (ref : ℕ) (s : Server) → Trace Work s (deliver_offline_messages ref s)
unfolding deliver_offline_messages
deliver_offline-Trace ref s = Trace-if _ (calm (send_server_info-Quiet _ _ s)) (
    deliver_loop-Trace (s.heap ref) _ [] s
    ▸ one (rewrites _ _ _)
    ▸ calm (send_server_info-Quiet _ _ _))

pub handle_broadcast-Trace :
    (ref : ℕ) (msg : MessageEx) (s : Server) → Trace Work s (handle_broadcast_text ref msg s)
unfolding handle_broadcast_text
handle_broadcast-Trace ref msg s =
    calm (make_message-Quiet _ _ _ _ _ _ s) ▸ one (appends _ _) ▸ calm (broadcast_message-Quiet _ _)

send_private-Trace :
    (ref target : ℕ) (receiver text : Text) (msg : MessageEx) (s : Server)
    → Trace Work s (send_private ref target receiver text msg s)
unfolding send_private
send_private-Trace ref target receiver text msg s =
    calm (make_message-Quiet _ _ _ _ _ _ s)
    ▸ one (appends _ _)
    ▸ calm (send_message-Quiet _ _ _)
    ▸ calm (send_server_info-Quiet _ _ _)

store_private-Trace :
    (ref : ℕ) (receiver text : Text) (msg : MessageEx) (s : Server)
    → Trace Work s (store_private ref receiver text msg s)
unfolding store_private
store_private-Trace ref receiver text msg s =
    store_offline-Trace _ _ _ _ _ s ▸ calm (send_server_info-Quiet _ _ _)

pub handle_private-Trace :
    (ref : ℕ) (msg : MessageEx) (s : Server) → Trace Work s (handle_private_text ref msg s)
unfolding handle_private_text
handle_private-Trace ref msg s =
    Trace-if _ (calm (send_error-Quiet _ _ s))
      (deliver (find_client_by_nickname (parse_private msg).0 s))
  where
    deliver :
        (target : Option ℕ)
        → Trace Work s (elim target [
          | none ↦ store_private ref (parse_private msg).0 (parse_private msg).1 msg s
          | some target ↦ send_private ref target (parse_private msg).0 (parse_private msg).1 msg s
        ])
    deliver none = store_private-Trace ref _ _ msg s
    deliver (some target) = send_private-Trace ref target _ _ msg s
