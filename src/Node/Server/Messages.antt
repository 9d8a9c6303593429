-- ===== src/Node/Server/Messages.antt =====
-- src/server.mjs: the handlers of the messages, over the store of the node. The body of a request is
-- read before; the other machines are a parameter.
use dsh_link.Common.{ℕ, Bool, true, false, ◌||◌, none, some, List, [], Text, text_eq, ◌==◌}
use dsh_link.Common.{is_empty, if◌then◌else◌, filter, codes, or_default}
use dsh_link.Common.Dict.{Dict, lookup}
use dsh_link.Common.Values.{Value, undefined, str}
use dsh_link.Node.Readers.{to_int}
use dsh_link.Node.Store.{inbox, outbox, Message, Store, mark_read}
use dsh_link.Node.Store.Listing.{Query, Listing, list}
use dsh_link.Node.Delivery.{LinkNode, Answer, Result}
use dsh_link.Node.Delivery.Relay.{Stored, accept_message, find_message}

-- What these handlers send.
pub data Reply : Type 0 where
  stored : Result Stored → Reply
  listed : Listing → Reply
  found : Message → Reply
  not_found : Reply
  marked : ℕ → Reply

-- `toInt(q.get(name), fallback, …)`
abbrev pub number_at : Dict Text → Text → Value
number_at q name = elim (lookup name q) [ none ↦ undefined | some s ↦ str s ]

abbrev pub text_at : Dict Text → Text → Text
text_at q name = or_default (lookup name q) []

-- The query of `GET /messages`.
unfoldable pub messages_query : Dict Text → Query
unfolding lookup to_int
messages_query q = record {
  since = text_at q (codes "since");
  limit = to_int (number_at q (codes "limit")) 50 1 1000;
  unread_only = text_at q (codes "unread") == codes "1";
  read_only = false;
  thread = text_at q (codes "thread");
  peer = [];
  from_name = text_at q (codes "from");
  to = [];
  ascending = text_at q (codes "order") == codes "asc";
  mark_read = false;
}

-- The query of `GET /outbox`.
unfoldable pub outbox_query : Dict Text → Query
unfolding lookup to_int
outbox_query q = record {
  since = text_at q (codes "since");
  limit = to_int (number_at q (codes "limit")) 200 1 1000;
  unread_only = false;
  read_only = false;
  thread = [];
  peer = [];
  from_name = [];
  to = [];
  ascending = if text_at q (codes "order") == codes "desc" then false else true;
  mark_read = false;
}

abbrev pub in_store : (Store → Store × Listing) → LinkNode → LinkNode × Listing
in_store f node = let (store, listing) = f node.store in (record node { store = store }, listing)

-- What is kept for one recipient, and what is for all.
abbrev pub only_to : Text → Listing → Listing
only_to to l =
    if is_empty to
    then l
    else record l { messages = filter (λ m. m.0.to == to || m.0.to == codes "*") l.messages }

module _ (id_le : Text → Text → Bool) where
  -- `GET /messages`
  unfoldable pub on_messages : Text → Dict Text → LinkNode → LinkNode × Reply
  unfolding messages_query list
  on_messages now q node =
      let (node', l) = in_store (list id_le now inbox (messages_query q)) node in (node', listed l)

  -- `GET /outbox`
  unfoldable pub on_outbox : Text → Dict Text → LinkNode → LinkNode × Reply
  unfolding outbox_query list filter
  on_outbox now q node =
      let (node', l) = in_store (list id_le now outbox (outbox_query q)) node in
      (node', listed (only_to (text_at q (codes "to")) l))

-- `GET /messages/:id`
abbrev pub on_message : Text → LinkNode → Reply
on_message id node = elim (find_message id node.store.inbox) [ none ↦ not_found | some m ↦ found m ]

-- `POST /messages/read`, and `POST /messages/:id/read` with one id.
unfoldable pub on_mark : Text → List Text → LinkNode → LinkNode × Reply
unfolding mark_read
on_mark now ids node =
    let (store, changed) = mark_read now ids node.store in
    (record node { store = store }, marked changed)

module _ {W : Type 0} (transmit : Text → Message → W → W × Answer) where
  -- `POST /messages`
  unfoldable pub on_post_message : LinkNode → Message → W → LinkNode × W × Reply
  unfolding accept_message
  on_post_message node m w =
      let (node', w', result) = accept_message transmit node m w in (node', w', stored result)
