-- ===== src/Node/Delivery.antt =====
-- src/ops.mjs: sending, retrying, dropping and accepting messages over the store of a node. The other
-- machines are a parameter: a state that a message to a peer changes, with the answer. The size of a
-- message as JSON is a parameter too; attachments are their total size, built before.
pub mod Relay
pub mod Lossy
pub mod Laws
pub mod Reach
mod Tests
use dsh_link.Common.{
  ℕ, ◌+◌, Bool, true, false, not, ◌&&◌, ◌||◌, Option, none, some, List, [], ◌∷◌, ◌++◌, Text,
  text_eq, ◌==◌,
}
use dsh_link.Common.{
  is_empty, if◌then◌else◌, any, filter, length, ltb, trim, codes, or_text, or_default, eqb,
}
use dsh_link.Node.Store.{Message, Store, set_delivery, pending_outbox, ids_of, includes}

-- A peer of the configuration, as far as delivery reads it.
pub record Peer : Type 0 where
  pub name : Text
  pub token : Text

pub record LinkNode : Type 0 where
  pub name : Text
  pub relay : Bool
  pub max_message_bytes : ℕ
  pub peers : List Peer
  pub store : Store

-- `isSelf`
abbrev pub is_self : LinkNode → Text → Bool
is_self node name =
    is_empty name || name == node.name || name == codes "self" || name == codes "local"

abbrev pub find_peer : Text → List Peer → Option Peer
find_peer name [] = none
find_peer name (p ∷ peers) = if p.name == name then some p else find_peer name peers

-- `peerOrNull`
unfoldable pub peer_or_null : LinkNode → Text → Option Peer
unfolding trim
peer_or_null node name =
    let wanted = trim name in if is_self node wanted then none else find_peer wanted node.peers

-- Why an operation is refused: the status and the code of the error.
pub data Refusal : Type 0 where
  no_recipient no_content this_node unknown_peer peer_token_missing : Refusal
  too_large : ℕ → Refusal
  no_selection no_id no_message relay_disabled unknown_recipient : Refusal
  remote_failed : Text → Refusal

pub data Result {ℓ} (A : Type ℓ) : Type ℓ where
  ok : A → Result A
  err : Refusal → Result A

-- `requirePeer`
unfoldable pub require_peer : LinkNode → Text → Result Peer
unfolding peer_or_null
require_peer node name = elim (peer_or_null node name) [
  | some peer ↦ ok peer
  | none ↦ if not (is_empty name) && is_self node name then err this_node else err unknown_peer
]

abbrev pub with_token : Result Peer → Result Peer
with_token (err e) = err e
with_token (ok peer) = if is_empty peer.token then err peer_token_missing else ok peer

-- `clientFor`: the peer that is called.
unfoldable pub client_for : LinkNode → Text → Result Peer
unfolding require_peer
client_for node name = with_token (require_peer node name)

-- What a peer answers to a message.
pub data Answer : Type 0 where
  accepted : Answer
  failed : Text → Answer

-- What becomes of a message.
pub data Delivered : Type 0 where
  delivered : Text → Delivered
  pending : Delivered

abbrev pub is_delivered : Delivered → Bool
is_delivered (delivered via) = true
is_delivered pending = false

abbrev pub set_state : Text → Message → Text → LinkNode → LinkNode
set_state now m state node = record node { store = set_delivery now m.id state node.store }

-- `store.append('inbox', …)`
abbrev pub append_inbox : Message → LinkNode → LinkNode
append_inbox m node = record node {
  store = record node.store { inbox = node.store.inbox ++ m ∷ [] };
}

abbrev pub append_outbox : Message → LinkNode → LinkNode
append_outbox m node = record node {
  store = record node.store { outbox = node.store.outbox ++ m ∷ [] };
}

-- The peers that a message is offered to.
abbrev pub candidates_of : LinkNode → Option Peer → List Peer
candidates_of node (some direct) = direct ∷ []
candidates_of node none = if node.relay then node.peers else []

-- The messages of one recipient or, with the empty text, all.
abbrev pub targets_of : Text → List Message → List Message
targets_of to queued = filter (λ m. is_empty to || m.to == to) queued

module _ {W : Type 0} (transmit : Text → Message → W → W × Answer) where
  abbrev pub after_call : Text → W × Answer → W × Option Text
  after_call via (w, accepted) = (w, some via)
  after_call via (w, failed e) = (w, none)

  -- One round of the loop over the peers: the name of the peer that took the message.
  abbrev pub offer_one : LinkNode → Message → Peer → W → W × Option Text
  offer_one node m peer w =
      if is_empty peer.token then (w, none) else elim (client_for node peer.name) [
        | err e ↦ (w, none)
        | ok client ↦ after_call peer.name (transmit client.name m w)
      ]

  abbrev pub or_next : W × Option Text → (W → W × Option Text) → W × Option Text
  or_next (w, some via) next = (w, some via)
  or_next (w, none) next = next w

  -- The loop over the peers.
  unfoldable pub offer : LinkNode → Message → List Peer → W → W × Option Text
  unfolding client_for
  offer node m [] w = (w, none)
  offer node m (peer ∷ peers) w = or_next (offer_one node m peer w) (λ w'. offer node m peers w')

  abbrev pub settled : Text → Message → LinkNode → W × Option Text → LinkNode × W × Delivered
  settled now m node (w, some via) = (set_state now m (codes "delivered") node, w, delivered via)
  settled now m node (w, none) = (set_state now m (codes "pending") node, w, pending)

  -- `deliver`
  unfoldable pub deliver : Text → Message → LinkNode → W → LinkNode × W × Delivered
  unfolding offer set_delivery peer_or_null
  deliver now m node w =
      if is_self node m.to
      then (
        set_state now m (codes "delivered") (append_inbox (record m { via = codes "local" }) node),
        w,
        delivered (codes "local"),
      )
      else settled now m node (offer node m (candidates_of node (peer_or_null node m.to)) w)

  -- What `sendMessage` is given, with the id and the time that it would make.
  pub record Draft : Type 0 where
    pub id : Text
    pub ts : Text
    pub to : Text
    pub body : Text
    pub attachment_bytes : List ℕ
    pub thread : Option Text
    pub reply_to : Option Text

  abbrev pub thread_in : List Message → Text → Option Text
  thread_in [] id = none
  thread_in (m ∷ inbox) id =
      if m.id == id then (if is_empty m.thread then none else some m.thread) else thread_in inbox id

  abbrev replied : LinkNode → Text → Option Text → Text
  replied node id none = id
  replied node id (some reply_to) =
      if is_empty reply_to then id else or_default (thread_in node.store.inbox reply_to) reply_to

  -- `buildMessage`, and the thread that `sendMessage` gives.
  unfoldable pub build_message : LinkNode → Draft → Result Message
  unfolding trim
  build_message node d =
      let to = trim d.to in
      if is_empty to
      then err no_recipient
      else if is_empty d.body && eqb (length d.attachment_bytes) 0
      then err no_content
      else ok (record {
        id = d.id;
        ts = d.ts;
        thread = or_default d.thread (replied node d.id d.reply_to);
        from_name = node.name;
        to = to;
        via = [];
      })

  abbrev sent :
      Text
      → (Message → Draft → ℕ)
      → Draft
      → Message
      → LinkNode
      → W
      → LinkNode × W × Result Delivered
  sent now size d m node w =
      let queued = set_state now m (codes "pending") (append_outbox m node) in
      let (node', w', outcome) = deliver now m queued w in
      if ltb node.max_message_bytes (size m d)
      then (node, w, err (too_large (size m d)))
      else (node', w', ok outcome)

  -- `sendMessage`
  unfoldable pub send_message :
      Text → (Message → Draft → ℕ) → Draft → LinkNode → W → LinkNode × W × Result Delivered
  unfolding build_message deliver
  send_message now size d node w = elim (build_message node d) [
    | err e ↦ (node, w, err e)
    | ok m ↦ sent now size d m node w
  ]

  -- The loop of `flush`.
  unfoldable pub flush_loop : Text → List Message → LinkNode → W → LinkNode × W × List Delivered
  unfolding deliver
  flush_loop now [] node w = (node, w, [])
  flush_loop now (m ∷ targets) node w =
      let (node1, w1, outcome) = deliver now m node w in
      let (node2, w2, more) = flush_loop now targets node1 w1 in (node2, w2, outcome ∷ more)

  -- `flush`, to one recipient or, with the empty text, to all.
  unfoldable pub flush : Text → Text → LinkNode → W → LinkNode × W × List Delivered
  unfolding flush_loop pending_outbox filter
  flush now to node w =
      let (store, queued) = pending_outbox node.store in
      flush_loop now (targets_of to queued) (record node { store = store }) w
