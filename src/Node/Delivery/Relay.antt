-- ===== src/Node/Delivery/Relay.antt =====
-- src/ops.mjs: what a node does with the messages that another node hands it, what an operator drops,
-- and what is fetched from the peers and read. The other machines are parameters.
use dsh_link.Common.{
  ℕ, ◌+◌, Bool, false, not, ◌||◌, Option, none, some, List, [], ◌∷◌, Text, text_eq, ◌==◌,
}
use dsh_link.Common.{is_empty, if◌then◌else◌, filter, length, codes, or_text}
use dsh_link.Node.Store.{
  Box, inbox, outbox, Message, Store, ids_of, includes, pending_outbox, import_messages, mark_read,
}
use dsh_link.Node.Store.Listing.{box_of}
use dsh_link.Node.Delivery.{
  Peer, LinkNode, is_self, peer_or_null, no_selection, no_id, no_message, relay_disabled,
  unknown_recipient, remote_failed, Result, ok, err, require_peer, client_for, Answer, accepted,
  failed, set_state, append_inbox, append_outbox,
}

-- What `acceptMessage` says became of the message.
pub data Stored : Type 0 where
  duplicate in_inbox : Stored
  relayed : Text → Stored

-- A message for this node: one to its name, to everyone or to nobody.
abbrev pub is_for : LinkNode → Text → Bool
is_for node to = is_self node to || to == codes "*" || is_empty to

module _ {W : Type 0} (transmit : Text → Message → W → W × Answer) where
  abbrev pub after_relay : LinkNode → Message → Text → W × Answer → LinkNode × W × Result Stored
  after_relay node m via (w, accepted) =
      (append_outbox (record m { via = via }) node, w, ok (relayed via))
  after_relay node m via (w, failed e) = (node, w, err (remote_failed e))

  abbrev pub relay_to : LinkNode → Message → W → Peer → LinkNode × W × Result Stored
  relay_to node m w target = elim (client_for node target.name) [
    | err e ↦ (node, w, err e)
    | ok client ↦ after_relay node m target.name (transmit client.name m w)
  ]

  -- `acceptMessage`
  unfoldable pub accept_message : LinkNode → Message → W → LinkNode × W × Result Stored
  unfolding client_for peer_or_null
  accept_message node m w =
      if is_empty m.id
      then (node, w, err no_id)
      else if includes (ids_of node.store.inbox) m.id
      then (node, w, ok duplicate)
      else if is_for node m.to
      then (
        append_inbox (record m { to = or_text m.to node.name; via = codes "push" }) node,
        w,
        ok in_inbox,
      )
      else if not node.relay
      then (node, w, err relay_disabled)
      else elim (peer_or_null node m.to) [
        | none ↦ (node, w, err unknown_recipient)
        | some target ↦ relay_to node m w target
      ]

abbrev is_wanted : List Text → Text → Message → Bool
is_wanted [] to m = m.to == to
is_wanted (id ∷ ids) to m = includes (id ∷ ids) m.id

-- The loop of `dropOutbox`.
unfoldable pub drop_loop : Text → List Message → LinkNode → LinkNode
unfolding dsh_link.Node.Store.set_delivery
drop_loop now [] node = node
drop_loop now (m ∷ targets) node = drop_loop now targets (set_state now m (codes "dropped") node)

abbrev lacks_selection : List Text → Text → Bool
lacks_selection [] to = is_empty to
lacks_selection (id ∷ ids) to = false

-- `dropOutbox` of the ids that are not empty, or of a recipient: how many were dropped.
unfoldable pub drop_outbox : Text → List Text → Text → LinkNode → LinkNode × Result ℕ
unfolding drop_loop pending_outbox filter
drop_outbox now ids to node =
    let wanted = filter (λ id. not (is_empty id)) ids in
    let (store, queued) = pending_outbox node.store in
    let targets = filter (is_wanted wanted to) queued in
    if lacks_selection wanted to
    then (node, err no_selection)
    else (drop_loop now targets (record node { store = store }), ok (length targets))

abbrev pub find_message : Text → List Message → Option Message
find_message id [] = none
find_message id (m ∷ ms) = if m.id == id then some m else find_message id ms

abbrev read_marked : Text → Box → Text → LinkNode → LinkNode
read_marked now inbox id node = record node { store = (mark_read now (id ∷ []) node.store).0 }
read_marked now outbox id node = node

-- `readMessage`
unfoldable pub read_message : Text → Box → Text → LinkNode → LinkNode × Result Message
unfolding mark_read
read_message now box id node =
    if is_empty id then (node, err no_id) else elim (find_message id (box_of box node.store)) [
      | none ↦ (node, err no_message)
      | some m ↦ (read_marked now box id node, ok m)
    ]

module _ {W : Type 0} (fetch : Text → W → W × Result (List Message)) where
  -- What one peer gave: how many were imported, or why the call failed.
  abbrev imported_from : Text → LinkNode → W × Result (List Message) → LinkNode × W × Result ℕ
  imported_from name node (w, err e) = (node, w, err e)
  imported_from name node (w, ok messages) =
      let (store, imported) = import_messages name messages node.store in
      (record node { store = store }, w, ok (length imported))

  abbrev sync_one : Text → LinkNode → W → LinkNode × W × Result ℕ
  sync_one name node w = elim (client_for node name) [
    | err e ↦ (node, w, err e)
    | ok client ↦ imported_from name node (fetch client.name w)
  ]

  -- The loop of `sync`.
  unfoldable pub sync_loop : List Peer → LinkNode → W → LinkNode × W × List (Result ℕ)
  unfolding client_for import_messages
  sync_loop [] node w = (node, w, [])
  sync_loop (p ∷ targets) node w =
      let (node1, w1, one) = sync_one p.name node w in
      let (node2, w2, more) = sync_loop targets node1 w1 in (node2, w2, one ∷ more)

  abbrev sync_targets : LinkNode → Text → Result (List Peer)
  sync_targets node [] = ok (filter (λ p. not (is_empty p.token)) node.peers)
  sync_targets node (c ∷ s) = elim (require_peer node (c ∷ s)) [
    | err e ↦ err e
    | ok p ↦ ok (p ∷ [])
  ]

  -- `sync` with one peer or, with the empty text, with all that have a token.
  unfoldable pub sync : Text → LinkNode → W → LinkNode × W × Result (List (Result ℕ))
  unfolding sync_loop require_peer filter
  sync peer node w = elim (sync_targets node peer) [
    | err e ↦ (node, w, err e)
    | ok targets ↦ let (node', w', results) = sync_loop targets node w in (node', w', ok results)
  ]

-- The sum of `imported` of the results.
unfoldable pub imported_total : List (Result ℕ) → ℕ
imported_total [] = 0
imported_total (ok n ∷ results) = n + imported_total results
imported_total (err e ∷ results) = imported_total results
