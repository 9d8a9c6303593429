-- ===== src/Node/Delivery/Tests.antt =====
-- Runs of two nodes, `desk` and `lab`, with one message for `lab`.
use dsh_link.Common.{
  ◌≡◌, refl, true, false, Option, none, some, List, [], ◌∷◌, Text, codes, All, inl, inr, text_eq,
}
use dsh_link.Node.Store.{Message, State, pending_outbox}
use dsh_link.Node.Delivery.{LinkNode, Answer, accepted, failed, delivered, flush, peer_or_null}
use dsh_link.Node.Delivery.Lossy.{arrives, answer_lost, Network, transmit_lossy, inbox_ids}
use dsh_link.Node.Delivery.Reach.{all_recorded, flush-is_delivered}

abbrev message : Message
message = record {
  id = codes "m1";
  ts = codes "2026";
  thread = [];
  from_name = codes "desk";
  to = codes "lab";
  via = [];
}

abbrev empty_state : State
empty_state = record { read = []; delivery = [] }

abbrev desk : LinkNode
desk = record {
  name = codes "desk";
  relay = true;
  max_message_bytes = 1000;
  peers = record { name = codes "lab"; token = codes "t" } ∷ [];
  store = record { inbox = []; outbox = message ∷ []; disk = empty_state; memory = none };
}

abbrev lab : LinkNode
lab = record {
  name = codes "lab";
  relay = true;
  max_message_bytes = 1000;
  peers = [];
  store = record { inbox = []; outbox = []; disk = empty_state; memory = none };
}

abbrev unreachable : Text → Message → Unit {0} → Unit {0} × Answer
unreachable via m w = (tt, failed [])

abbrev network : Network (Unit {0})
network = record { remote = lab; beyond = tt; fates = answer_lost ∷ arrives ∷ [] }

-- The answer is lost, the message is sent again, and it is there once.
sent_again :
    let (node1, net1, first) = flush (transmit_lossy unreachable) (codes "1") [] desk network in
    let (node2, net2, second) = flush (transmit_lossy unreachable) (codes "2") [] node1 net1 in
    (inbox_ids net2.remote ≡ codes "m1" ∷ []) × (second ≡ delivered (codes "lab") ∷ [])
unfolding flush pending_outbox transmit_lossy text_eq dsh_link.Common.Dict.lookup
    dsh_link.Common.trim_end dsh_link.Common.trim_start dsh_link.Common.is_space
    dsh_link.Common.Dict.insert dsh_link.Common.text_ltb
sent_again = (refl, refl)

-- A connection that takes every message.
abbrev record_id : Text → Message → List Text → List Text × Answer
record_id via m ids = (m.id ∷ ids, accepted)

flush-is_delivered_example : flush record_id (codes "1") [] desk [] ≡ (
  record desk {
    store = all_recorded (codes "1") desk (message ∷ []) (pending_outbox desk.store).0;
  },
  codes "m1" ∷ [],
  delivered (codes "lab") ∷ [],
)
unfolding pending_outbox peer_or_null text_eq dsh_link.Common.trim dsh_link.Common.Dict.lookup
    dsh_link.Common.trim_end dsh_link.Common.trim_start dsh_link.Common.is_space
flush-is_delivered_example =
    flush-is_delivered record_id (codes "1") [] desk [] (λ via m ids. refl)
      (inr (record { name = codes "lab"; token = codes "t" }, refl, refl), tt)
