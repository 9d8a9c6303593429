-- ===== src/Node/Store/Listing.antt =====
-- src/store.mjs: `list`.
use dsh_link.Common.{
  ℕ, zero, suc, Bool, true, false, not, ◌&&◌, ◌||◌, List, [], ◌∷◌, map, Text, text_eq, ◌==◌,
}
use dsh_link.Common.{is_empty, if◌then◌else◌, filter, length, take, text_ltb, is_digit, eqb, codes}
use dsh_link.Node.Store.{
  Box, inbox, outbox, Message, State, Store, load_state, is_read, mark_read, ids_of,
}

-- The argument of `list`; an empty text is no filter, and a limit of 0 no limit.
pub record Query : Type 0 where
  pub since : Text
  pub limit : ℕ
  pub unread_only : Bool
  pub read_only : Bool
  pub thread : Text
  pub peer : Text
  pub from_name : Text
  pub to : Text
  pub ascending : Bool
  pub mark_read : Bool

-- `/^\d{4}-\d{2}-\d{2}T/`
abbrev pub is_iso : Text → Bool
is_iso (a ∷ (b ∷ (c ∷ (d ∷ (e ∷ (f ∷ (g ∷ (h ∷ (i ∷ (j ∷ (k ∷ s))))))))))) =
    is_digit a
    && is_digit b
    && is_digit c
    && is_digit d
    && eqb e b'-'
    && is_digit f
    && is_digit g
    && eqb h b'-'
    && is_digit i
    && is_digit j
    && eqb k b'T'
is_iso _ = false

-- The filters of `list`, one behind the other.
unfoldable pub is_listed : Query → State → Message → Bool
is_listed q state r =
    (is_empty q.since || (if is_iso q.since then text_ltb q.since r.ts else text_ltb q.since r.id))
    && (is_empty q.thread || r.thread == q.thread)
    && (is_empty q.from_name || r.from_name == q.from_name)
    && (is_empty q.to || r.to == q.to || r.to == codes "*")
    && (is_empty q.peer || r.from_name == q.peer || r.to == q.peer || r.via == q.peer)
    && (not q.unread_only || not (is_read state r.id))
    && (not q.read_only || is_read state r.id)

abbrev pub box_of : Box → Store → List Message
box_of inbox store = store.inbox
box_of outbox store = store.outbox

-- What `list` gives: the messages with their read flags; their delivery is left out.
pub record Listing : Type 0 where
  pub total : ℕ
  pub unread : ℕ
  pub messages : List (Message × Bool)

abbrev pub limited {ℓ} : {A : Type ℓ} → ℕ → List A → List A
limited zero xs = xs
limited (suc n) xs = take (suc n) xs

-- What `list` needs of the platform: the order of ids, `localeCompare`.
module _ (id_le : Text → Text → Bool) where
  unfoldable pub insert_by : Bool → Message → List Message → List Message
  insert_by ascending m [] = m ∷ []
  insert_by ascending m (m' ∷ sorted) =
      let rest = insert_by ascending m sorted in
      if (if ascending then id_le m.id m'.id else id_le m'.id m.id)
      then m ∷ (m' ∷ sorted)
      else m' ∷ rest

  unfoldable pub sort_by : Bool → List Message → List Message
  unfolding insert_by
  sort_by ascending [] = []
  sort_by ascending (m ∷ ms) = insert_by ascending m (sort_by ascending ms)

  -- `list`
  unfoldable pub list : Text → Box → Query → Store → Store × Listing
  unfolding load_state is_listed filter sort_by mark_read
  list now box q store =
      let (loaded, state) = load_state store in
      let records = filter (is_listed q state) (box_of box store) in
      let messages = limited q.limit (sort_by q.ascending records) in
      let (marked, changed) = mark_read now (ids_of messages) loaded in
      let after = load_state marked in
      let unmarked : Store × Listing = (
        loaded,
        record {
          total = length records;
          unread = length (filter (λ r. not (is_read state r.id)) records);
          messages = map (λ r. (r, is_read state r.id)) messages;
        },
      ) in
      if q.mark_read && not (eqb (length messages) 0)
      then (
        after.0,
        record {
          total = length records;
          unread = length (filter (λ r. not (is_read after.1 r.id)) records);
          messages = map (λ r. (r, true)) messages;
        },
      )
      else unmarked
