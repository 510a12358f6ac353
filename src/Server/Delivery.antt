-- ===== src/Server/Delivery.antt =====
-- `deliverOfflineMessages` of LAB6/server.cpp: what it sends, what it keeps, and that no message is
-- lost or doubled while nobody else touches the queue.
use comp_net.Prelude.{
  ◌≡◌, refl, inl, inr, false, List, [], ◌∷◌, ◌++◌, map, ◌==◌, if◌then◌else◌, Bool-cases,
}
use comp_net.Text.{codes}
use comp_net.Text.CString.{c_str}
use comp_net.Message.{MessageEx, fill_message, msg_private}
use comp_net.Server.{Server, Client, OfflineMsg, Sent}
use comp_net.Server.Offline.{is_for, for_delivery, keep_queue}
use comp_net.Server.Outbox.{addressed}
use mathlib.Core.List.{Perm, perm_middle}
use mathlib.Core.List.Perm

-- The items that were sent, and those that were not, by the results of the calls.
unfoldable pub delivered : List OfflineMsg → List Sent → List OfflineMsg
delivered [] sent = []
delivered (item ∷ items) [] = []
delivered (item ∷ items) (x ∷ sent) =
    let rest = delivered items sent in if x.ok then item ∷ rest else rest

unfoldable pub undelivered : List OfflineMsg → List Sent → List OfflineMsg
undelivered [] sent = []
undelivered (item ∷ items) [] = item ∷ items
undelivered (item ∷ items) (x ∷ sent) =
    let rest = undelivered items sent in if x.ok then rest else item ∷ rest

-- The message that an item becomes.
unfoldable pub offline_message : OfflineMsg → MessageEx
offline_message item =
    fill_message msg_private (c_str item.sender) (c_str item.receiver)
      (codes "[OFFLINE] " ++ c_str item.text) item.msg_id item.timestamp

-- The item carries an id and a time, so that neither is made anew.
pub record IsStamped (item : OfflineMsg) : Type 0 where
  pub id : (item.msg_id == 0) ≡ false
  pub time : (item.timestamp == 0) ≡ false

-- What the loop does for the items of a client: one call of `sendMessage` for each, in order.
pub record Delivers (client : Client) (items failed : List OfflineMsg) (s : Server)
    (r : List OfflineMsg × Server) : Type 0 where
  pub sent : List Sent
  pub outbox : r.1.outbox ≡ s.outbox ++ sent
  pub copies : addressed sent ≡ map (λ item. (client.sock, offline_message item)) items
  pub failures : r.0 ≡ failed ++ undelivered items sent
  pub heap : r.1.heap ≡ s.heap
  pub clients : r.1.clients ≡ s.clients

pub queue-perm :
    (client : Client) (items : List OfflineMsg)
    → Perm items (for_delivery client items ++ keep_queue client items)
unfolding for_delivery keep_queue
queue-perm client [] = Perm.refl []
queue-perm client (item ∷ items) = elim (Bool-cases (is_for client item)) [
  | inl e ↦ rw e (Perm.cons item (queue-perm client items))
  | inr e ↦
      rw e (Perm.trans (Perm.cons item (queue-perm client items)) (Perm.symm (perm_middle _ _)))
]

pub sent-perm :
    (items : List OfflineMsg) (sent : List Sent)
    → Perm items (delivered items sent ++ undelivered items sent)
unfolding delivered undelivered
sent-perm [] sent = Perm.refl []
sent-perm (item ∷ items) [] = Perm.refl (item ∷ items)
sent-perm (item ∷ items) (x ∷ sent) = elim (Bool-cases x.ok) [
  | inl e ↦ rw e (Perm.cons item (sent-perm items sent))
  | inr e ↦ rw e (Perm.trans (Perm.cons item (sent-perm items sent)) (Perm.symm (perm_middle _ _)))
]

-- How the delivery to a client ends: `sent` are the calls for its items, and `last` the closing
-- message of the server.
pub record Outcome (client : Client) (s t : Server) : Type 0 where
  pub sent : List Sent
  pub last : MessageEx
  pub copies :
      addressed sent
      ≡ map (λ item. (client.sock, offline_message item)) (for_delivery client s.offline_queue)
  pub outbox : addressed t.outbox ≡ addressed s.outbox ++ addressed sent ++ (client.sock, last) ∷ []
  pub queue :
      t.offline_queue
      ≡ keep_queue client s.offline_queue ++ undelivered (for_delivery client s.offline_queue) sent
  pub conserved :
      Perm s.offline_queue (delivered (for_delivery client s.offline_queue) sent ++ t.offline_queue)
