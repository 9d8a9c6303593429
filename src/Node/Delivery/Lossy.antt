-- ===== src/Node/Delivery/Lossy.antt =====
-- src/ops.mjs: a connection that loses requests and answers, and what one call over it does. The other
-- node takes messages by `acceptMessage`; what its own peers do is a parameter.
use dsh_link.Common.{◌≡◌, ◌⊎◌, refl, Bool, true, false, not, List, [], ◌∷◌, Text, text_eq, ◌==◌}
use dsh_link.Common.{is_empty, if◌then◌else◌, Bool-cases, Option-cases, inl, inr, arith}
use dsh_link.Node.Store.{Message, ids_of, includes}
use dsh_link.Node.Store.Laws.{Distinct, Distinct-append, includes-append, map-append}
use dsh_link.Node.Delivery.{
  LinkNode, Peer, Answer, accepted, failed, ok, err, Result, Refusal, client_for, peer_or_null,
  append_outbox,
}
use dsh_link.Node.Delivery.Relay.{Stored, accept_message, is_for, after_relay, relay_to}

-- What becomes of one call.
pub data Fate : Type 0 where
  arrives request_lost answer_lost : Fate

-- The other node, the nodes behind it, and what becomes of the next calls; then all arrive.
pub record Network (W : Type 0) : Type 0 where
  pub remote : LinkNode
  pub beyond : W
  pub fates : List Fate

abbrev pub answer_to {ℓ} : {A : Type ℓ} → Result A → Answer
answer_to (ok a) = accepted
answer_to (err e) = failed []

abbrev pub inbox_ids : LinkNode → List Text
inbox_ids node = ids_of node.store.inbox

abbrev pub outbox_ids : LinkNode → List Text
outbox_ids node = ids_of node.store.outbox

-- The node keeps its name, what it has, and distinct ids in its inbox.
pub record Grows (before after : LinkNode) : Type 0 where
  pub named : after.name ≡ before.name
  pub distinct : Distinct (inbox_ids before) → Distinct (inbox_ids after)
  pub keeps :
      (i : Text) → includes (inbox_ids before) i ≡ true → includes (inbox_ids after) i ≡ true
  pub keeps_out :
      (i : Text) → includes (outbox_ids before) i ≡ true → includes (outbox_ids after) i ≡ true

pub Grows-refl : (node : LinkNode) → Grows node node
Grows-refl node = record { named = refl; distinct = λ d. d; keeps = λ i h. h; keeps_out = λ i h. h }

pub Grows-trans : (a b c : LinkNode) → Grows a b → Grows b c → Grows a c
Grows-trans a b c g h = record {
  named = ground (arith, g.named, h.named);
  distinct = λ d. h.distinct (g.distinct d);
  keeps = λ i m. h.keeps i (g.keeps i m);
  keeps_out = λ i m. h.keeps_out i (g.keeps_out i m);
}

-- The message is in the inbox of the node; or it is for another node, and in the outbox of this one.
abbrev pub Holds : LinkNode → Message → Type 0
Holds node m =
    (includes (inbox_ids node) m.id ≡ true)
    ⊎ ((is_for node m.to ≡ false) × (includes (outbox_ids node) m.id ≡ true))

pub Holds-Grows :
    (before after : LinkNode) (m : Message) → Grows before after → Holds before m → Holds after m
Holds-Grows before after m g (inl h) = inl (g.keeps m.id h)
Holds-Grows before after m g (inr (f, h)) = inr (ground (arith, g.named, f), g.keeps_out m.id h)

-- Where a message was taken, the node has it.
abbrev pub Took : Answer → LinkNode → Message → Type 0
Took accepted node m = Holds node m
Took (failed e) node m = Unit

pub Result-cases {ℓ} :
    {A : Type ℓ} (r : Result A) → ((a : A) × (r ≡ ok a)) ⊎ ((e : Refusal) × (r ≡ err e))
Result-cases (ok a) = inl (a, refl)
Result-cases (err e) = inr (e, refl)

module _ {W : Type 0} (onward : Text → Message → W → W × Answer) where
  abbrev pub after_received : List Fate → LinkNode × W × Result Stored → Network W × Answer
  after_received fates (remote, w, result) =
      (record { remote = remote; beyond = w; fates = fates }, answer_to result)

  abbrev pub received : Network W → Message → LinkNode × W × Result Stored
  received net m = accept_message onward net.remote m net.beyond

  abbrev pub after_fate : List Fate → Network W → Message → Network W × Answer
  after_fate [] net m = after_received [] (received net m)
  after_fate (arrives ∷ fates) net m = after_received fates (received net m)
  after_fate (request_lost ∷ fates) net m = (record net { fates = fates }, failed [])
  after_fate (answer_lost ∷ fates) net m = ((after_received fates (received net m)).0, failed [])

  -- A call of a peer: only the one node is reached.
  unfoldable pub transmit_lossy : Text → Message → Network W → Network W × Answer
  unfolding accept_message
  transmit_lossy via m net =
      if via == net.remote.name then after_fate net.fates net m else (net, failed [])

  -- The node is in order after a message came, and has it if it took it.
  abbrev HasTaken : LinkNode → Message → LinkNode × W × Result Stored → Type 0
  HasTaken before m (after, w, result) = Grows before after × Took (answer_to result) after m

  append_inbox-HasTaken :
      (node : LinkNode) (m in_place : Message)
      → in_place.id ≡ m.id
      → includes (inbox_ids node) m.id ≡ false
      → let after = dsh_link.Node.Delivery.append_inbox in_place node in
        Grows node after × Holds after m
  append_inbox-HasTaken node m in_place e fresh =
      let had = inbox_ids node in
      let grown = map-append node.store.inbox (in_place ∷ []) in
      (
        record {
          named = refl;
          distinct = λ d.
              rw grown
                (Distinct-append had (in_place.id ∷ []) d (refl, tt) (λ j h. ground (arith, e)));
          keeps = λ j h. rw grown (ground (arith, includes-append had (in_place.id ∷ []) j));
          keeps_out = λ j h. h;
        },
        inl (rw grown (ground (arith, e, includes-append had (in_place.id ∷ []) m.id))),
      )

  append_outbox-HasTaken :
      (node : LinkNode) (m in_place : Message)
      → in_place.id ≡ m.id
      → is_for node m.to ≡ false
      → let after = append_outbox in_place node in Grows node after × Holds after m
  append_outbox-HasTaken node m in_place e other =
      let had = outbox_ids node in
      let grown = map-append node.store.outbox (in_place ∷ []) in
      (
        record {
          named = refl;
          distinct = λ d. d;
          keeps = λ j h. h;
          keeps_out = λ j h. rw grown (ground (arith, includes-append had (in_place.id ∷ []) j));
        },
        inr (other, rw grown (ground (arith, e, includes-append had (in_place.id ∷ []) m.id))),
      )

  after_relay-HasTaken :
      (node : LinkNode) (m : Message) (via : Text) (out : W × Answer)
      → is_for node m.to ≡ false
      → HasTaken node m (after_relay onward node m via out)
  after_relay-HasTaken node m via (w, accepted) other =
      append_outbox-HasTaken node m (record m { via = via }) refl other
  after_relay-HasTaken node m via (w, failed e) other = (Grows-refl node, tt)

  relay_to-HasTaken :
      (node : LinkNode) (m : Message) (w : W) (target : Peer)
      → is_for node m.to ≡ false
      → HasTaken node m (relay_to onward node m w target)
  relay_to-HasTaken node m w target other = elim (Result-cases (client_for node target.name)) [
    | inl (c, f) ↦
        rw (f, relay_to) (after_relay-HasTaken node m target.name (onward c.name m w) other)
    | inr (x, f) ↦ rw (f, relay_to) (Grows-refl node, tt)
  ]

  if_HasTaken :
      (node : LinkNode) (m : Message) (b : Bool) (x y : LinkNode × W × Result Stored)
      → HasTaken node m x
      → HasTaken node m y
      → HasTaken node m (if b then x else y)
  if_HasTaken node m true x y h k = h
  if_HasTaken node m false x y h k = k

  accept_message-HasTaken :
      (node : LinkNode) (m : Message) (w : W) → HasTaken node m (accept_message onward node m w)
  unfolding accept_message
  accept_message-HasTaken node m w =
      let same = Grows-refl node in
      elim (Bool-cases (is_empty m.id)) [
        | inl e ↦ rw e (same, tt)
        | inr e ↦ elim (Bool-cases (includes (inbox_ids node) m.id)) [
          | inl f ↦ rw (e, f) (same, inl f)
          | inr f ↦ elim (Bool-cases (is_for node m.to)) [
            | inl g ↦ rw (e, f, g) (append_inbox-HasTaken node m _ refl f)
            | inr g ↦
                rw (e, f, g)
                  (if_HasTaken node m (not node.relay) _ _ (same, tt)
                    (elim (Option-cases (peer_or_null node m.to)) [
                      | inl n ↦ rw n (same, tt)
                      | inr (target, n) ↦ rw n (relay_to-HasTaken node m w target g)
                    ]))
          ]
        ]
      ]

  -- A call keeps the inbox of the other node in order, and what it answers for is there.
  abbrev pub Kept : (before after : Network W) → Answer → Message → Type 0
  Kept before after answer m = Grows before.remote after.remote × Took answer after.remote m

  after_fate-Kept :
      (fates : List Fate) (net : Network W) (m : Message)
      → let (after, answer) = after_fate fates net m in Kept net after answer m
  after_fate-Kept [] net m = accept_message-HasTaken net.remote m net.beyond
  after_fate-Kept (arrives ∷ fates) net m = accept_message-HasTaken net.remote m net.beyond
  after_fate-Kept (request_lost ∷ fates) net m = (Grows-refl net.remote, tt)
  after_fate-Kept (answer_lost ∷ fates) net m =
      ((accept_message-HasTaken net.remote m net.beyond).0, tt)

  pub transmit_lossy-Kept :
      (via : Text) (m : Message) (net : Network W)
      → let (after, answer) = transmit_lossy via m net in Kept net after answer m
  unfolding transmit_lossy
  transmit_lossy-Kept via m net = elim (Bool-cases (via == net.remote.name)) [
    | inl e ↦ rw e (after_fate-Kept net.fates net m)
    | inr e ↦ rw e (Grows-refl net.remote, tt)
  ]
