-- ===== src/Node/Store.antt =====
-- src/store.mjs: the messages of a node and the state of their reading and delivery. The files are
-- lists and a state on disk; another process may change the state on disk between two calls, not
-- within one. Of a message and of the state, what the code reads is kept. `null` is no text.
pub mod Laws
pub mod Listing
pub mod Jsonl
pub mod Marks
pub mod Reading
mod Tests
use dsh_link.Common.{
  ℕ, zero, suc, ◌+◌, ◌-◌, Bool, true, false, not, ◌&&◌, ◌||◌, Option, none, some, List, [], ◌∷◌,
  ◌++◌, map, Text, text_eq, ◌==◌,
}
use dsh_link.Common.{
  is_empty, if◌then◌else◌, any, filter, length, take, text_ltb, or_default, is_some, is_digit, eqb,
  codes,
}
use dsh_link.Common.Dict.{Dict, lookup, insert}

pub record Delivery : Type 0 where
  pub state : Text
  pub updated_at : Text

pub record State : Type 0 where
  pub read : Dict Text
  pub delivery : Dict Delivery

pub record Message : Type 0 where
  pub id : Text
  pub ts : Text
  pub thread : Text
  pub from_name : Text
  pub to : Text
  pub via : Text

pub data Box : Type 0 where
  inbox outbox : Box

pub record Store : Type 0 where
  pub inbox : List Message
  pub outbox : List Message
  pub disk : State
  pub memory : Option State

-- `{ ...under, ...over }`
unfoldable pub spread {ℓ} : {V : Type ℓ} → Dict V → Dict V → Dict V
spread under [] = under
spread under ((key, v) ∷ over) = spread (insert key v under) over

-- The entry that stays: the one with the newest `updatedAt`.
abbrev pub newest : Option Delivery → Delivery → Delivery
newest none mine = mine
newest (some theirs) mine = if text_ltb mine.updated_at theirs.updated_at then theirs else mine

-- The loop over the local deliveries.
unfoldable pub merge_delivery : Dict Delivery → Dict Delivery → Dict Delivery
merge_delivery delivery [] = delivery
merge_delivery delivery ((id, entry) ∷ mine) =
    merge_delivery (insert id (newest (lookup id delivery) entry) delivery) mine

-- `mergeState`
unfoldable pub merge_state : State → State → State
unfolding spread merge_delivery
merge_state mine disk = record {
  read = spread disk.read mine.read;
  delivery = merge_delivery disk.delivery mine.delivery;
}

abbrev pub merged_with : Option State → State → State
merged_with none disk = disk
merged_with (some mine) disk = merge_state mine disk

-- `_loadState`
unfoldable pub load_state : Store → Store × State
unfolding merge_state
load_state store =
    let state = merged_with store.memory store.disk in (record store { memory = some state }, state)

-- `_saveState`, of a state that was changed in memory.
unfoldable pub save_state : State → Store → Store
unfolding merge_state
save_state state store =
    let saved = merge_state state store.disk in record store { memory = some saved; disk = saved }

-- `state.read[id]` is set.
abbrev pub is_read : State → Text → Bool
is_read state id = not (is_empty (or_default (lookup id state.read) []))

-- The loop of `markRead`.
unfoldable pub mark_loop : Text → List Text → State → State × ℕ
mark_loop now [] state = (state, 0)
mark_loop now (id ∷ ids) state =
    let marked = record state { read = insert id now state.read } in
    let (state', changed) = mark_loop now ids marked in
    let rest = mark_loop now ids state in
    if is_empty id || is_read state id then rest else (state', changed + 1)

-- `markRead`
unfoldable pub mark_read : Text → List Text → Store → Store × ℕ
unfolding load_state mark_loop save_state
mark_read now ids store =
    let (loaded, state) = load_state store in
    let (marked, changed) = mark_loop now ids state in
    if eqb changed 0
    then (record loaded { memory = some marked }, 0)
    else (save_state marked loaded, changed)

-- `setDelivery`, of a state at a time.
unfoldable pub set_delivery : Text → Text → Text → Store → Store
unfolding load_state save_state
set_delivery now id state store =
    let (loaded, kept) = load_state store in
    let entry : Delivery = record { state = state; updated_at = now } in
    save_state (record kept { delivery = insert id entry kept.delivery }) loaded

abbrev pub ids_of : List Message → List Text
ids_of = map (λ m. m.id)

abbrev pub includes : List Text → Text → Bool
includes ids id = any (λ i. i == id) ids

-- The loop of `importMessages`, over the ids that are there.
unfoldable pub import_loop : Text → List Text → List Message → List Message
import_loop via ids [] = []
import_loop via ids (r ∷ records) =
    let copy = record r { via = via } in
    let taken = copy ∷ import_loop via (r.id ∷ ids) records in
    let skipped = import_loop via ids records in
    if is_empty r.id || includes ids r.id then skipped else taken

-- `importMessages`
unfoldable pub import_messages : Text → List Message → Store → Store × List Message
unfolding import_loop
import_messages via records store =
    let imported = import_loop via (ids_of store.inbox) records in
    (record store { inbox = store.inbox ++ imported }, imported)

abbrev is_final : Option Delivery → Bool
is_final none = false
is_final (some d) = d.state == codes "delivered" || d.state == codes "dropped"

-- `pendingOutbox`
unfoldable pub pending_outbox : Store → Store × List Message
unfolding load_state filter
pending_outbox store =
    let (loaded, state) = load_state store in
    (loaded, filter (λ r. not (is_final (lookup r.id state.delivery))) store.outbox)
