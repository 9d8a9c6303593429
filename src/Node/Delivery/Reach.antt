-- ===== src/Node/Delivery/Reach.antt =====
-- src/ops.mjs: a flush over a connection that works delivers to every peer that is known.
use dsh_link.Common.{
  ◌≡◌, refl, sym, subst, ap, ◌∙◌, true, false, ◌⊎◌, Option, some, List, [], ◌∷◌, ◌++◌, map, Text,
  text_eq, All,
}
use dsh_link.Common.{is_empty, codes, if◌then◌else◌, trim, Bool-cases, inl, inr, arith}
use dsh_link.Common.Trim.{trim_idempotent}
use dsh_link.Node.Store.{Message, Store, set_delivery, pending_outbox}
use dsh_link.Node.Delivery.{
  LinkNode, Peer, Answer, accepted, failed, ok, offer, deliver, flush_loop, flush, client_for,
  peer_or_null, is_self, find_peer, delivered, set_state, targets_of, settled, require_peer,
  or_next, after_call,
}

find_peer-name :
    (name : Text) (peers : List Peer) (p : Peer) → find_peer name peers ≡ some p → p.name ≡ name
find_peer-name name [] p h = absurd (ground arith)
find_peer-name name (q ∷ peers) p h = ground (arith, find_peer-name name peers p)

peer_or_null-trim :
    (node : LinkNode) (to : Text) → peer_or_null node (trim to) ≡ peer_or_null node to
unfolding peer_or_null
peer_or_null-trim node to = rw (trim_idempotent to) refl

peer_or_null-peer_name :
    (node : LinkNode) (to : Text) (p : Peer) → peer_or_null node to ≡ some p → p.name ≡ trim to
unfolding peer_or_null
peer_or_null-peer_name node to p h = ground (arith, find_peer-name (trim to) node.peers p)

peer_or_null-name :
    (node : LinkNode) (to : Text) (p : Peer)
    → peer_or_null node to ≡ some p
    → peer_or_null node p.name ≡ some p
peer_or_null-name node to p h =
    subst (λ x. peer_or_null node x ≡ some p) (sym (peer_or_null-peer_name node to p h))
      (peer_or_null-trim node to ∙ h)

-- The peer that a recipient names is called under its own name.
client_for-peer_or_null :
    (node : LinkNode) (to : Text) (p : Peer)
    → peer_or_null node to ≡ some p
    → is_empty p.token ≡ false
    → client_for node p.name ≡ ok p
unfolding client_for require_peer
client_for-peer_or_null node to p h t = ground (arith, peer_or_null-name node to p h)

-- A recipient that is this node or a peer whose token is known.
abbrev pub IsKnown : LinkNode → Text → Type 0
IsKnown node to =
    (is_self node to ≡ true)
    ⊎ ((p : Peer) × (peer_or_null node to ≡ some p) × (is_empty p.token ≡ false))

-- Who takes a message: this node or the peer that it is for.
abbrev pub taken_by : LinkNode → Message → Text
taken_by node m = if is_self node m.to then codes "local" else trim m.to

-- The store where the message is marked as delivered; one for this node is in its inbox.
abbrev pub recorded : Text → LinkNode → Message → Store → Store
recorded now node m store = set_delivery now m.id (codes "delivered") (
    if is_self node m.to
    then record store { inbox = store.inbox ++ record m { via = codes "local" } ∷ [] }
    else store)

abbrev pub all_recorded : Text → LinkNode → List Message → Store → Store
all_recorded now node [] store = store
all_recorded now node (m ∷ ms) store = all_recorded now node ms (recorded now node m store)

module _ {W : Type 0} (transmit : Text → Message → W → W × Answer) where
  -- Every call is answered.
  abbrev pub Works : Type 0
  Works = (via : Text) (m : Message) (w : W) → (transmit via m w).1 ≡ accepted

  -- The other machines, after each message that is not for this node was sent, once and in order, to the
  -- peer that it is for.
  abbrev pub all_sent : LinkNode → List Message → W → W
  all_sent node [] w = w
  all_sent node (m ∷ ms) w =
      all_sent node ms (if is_self node m.to then w else (transmit (trim m.to) m w).0)

  settled-or_next :
      (now via : Text) (m : Message) (node : LinkNode) (out : W × Answer)
      (next : W → W × Option Text)
      → out.1 ≡ accepted
      → settled transmit now m node (or_next transmit (after_call transmit via out) next)
        ≡ (set_state now m (codes "delivered") node, out.0, delivered via)
  settled-or_next now via m node (w, accepted) next h = refl
  settled-or_next now via m node (w, failed e) next h = absurd (ground arith)

  deliver-known :
      (now : Text) (m : Message) (node : LinkNode) (w : W)
      → Works
      → IsKnown node m.to
      → deliver transmit now m node w ≡ (
        record node { store = recorded now node m node.store },
        all_sent node (m ∷ []) w,
        delivered (taken_by node m),
      )
  unfolding deliver offer
  deliver-known now m node w works (inl e) = rw e refl
  deliver-known now m node w works (inr (p, e, t)) = elim (Bool-cases (is_self node m.to)) [
    | inl s ↦ rw s refl
    | inr s ↦
        rw (s, e, t, client_for-peer_or_null node m.to p e t)
          (settled-or_next now p.name m node (transmit p.name m w)
              (λ w'. offer transmit node m [] w') (works p.name m w)
            ∙ ap (λ n. (set_state now m (codes "delivered") node, (transmit n m w).0, delivered n))
                (peer_or_null-peer_name node m.to p e))
  ]

  flush_loop-known :
      (now : Text) (ms : List Message) (node : LinkNode) (store : Store) (w : W)
      → Works
      → All (λ m. IsKnown node m.to) ms
      → flush_loop transmit now ms (record node { store = store }) w ≡ (
        record node { store = all_recorded now node ms store },
        all_sent node ms w,
        map (λ m. delivered (taken_by node m)) ms,
      )
  unfolding flush_loop peer_or_null
  flush_loop-known now [] node store w works k = refl
  flush_loop-known now (m ∷ ms) node store w works (k, ks) =
      rw (deliver-known now m (record node { store = store }) w works k) (
        ap (λ out. (out.0, out.1, delivered (taken_by node m) ∷ out.2))
          (flush_loop-known now ms node (recorded now node m store) (all_sent node (m ∷ []) w) works
            ks))

  -- Where every call of a peer is answered, and every message that waits is for this node or for a peer
  -- with a token, one flush delivers them all: each message that is for a peer is sent to that peer, once
  -- and in order, and nothing else is sent; each is marked as delivered at that time (`setDelivery`), and those for this
  -- node are in its inbox; nothing else of this node changes; and for each, in order, it is told who took
  -- it.
  pub flush-is_delivered :
      (now to : Text) (node : LinkNode) (w : W)
      → Works
      → All (λ m. IsKnown node m.to) (targets_of to (pending_outbox node.store).1)
      → let (store, queued) = pending_outbox node.store in
        let ms = targets_of to queued in
        flush transmit now to node w ≡ (
          record node { store = all_recorded now node ms store },
          all_sent node ms w,
          map (λ m. delivered (taken_by node m)) ms,
        )
  unfolding flush
  flush-is_delivered now to node w works known =
      let (store, queued) = pending_outbox node.store in
      flush_loop-known now (targets_of to queued) node store w works known
