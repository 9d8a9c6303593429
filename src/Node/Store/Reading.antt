-- ===== src/Node/Store/Reading.antt =====
-- src/store.mjs: marks of reading are never lost, whichever process writes the state.
use dsh_link.Common.{◌≡◌, Bool, true, false, Option, List, [], ◌∷◌, Text, text_eq}
use dsh_link.Common.{is_empty, if◌then◌else◌, eqb, All, Bool-cases, inl, inr}
use dsh_link.Node.Store.{
  State, Store, merge_state, merged_with, load_state, save_state, is_read, mark_loop, mark_read,
  set_delivery,
}
use dsh_link.Node.Store.Marks.{
  AllTimed, IsTimedState, merged_with-AllTimed, spread_keeps, spread-AllTimed, mark_loop-AllTimed,
}

-- What one process does with the store; a query that marks nothing only loads the state.
pub data Op : Type 0 where
  loads : Op
  marks : Text → List Text → Op
  delivers : Text → Text → Text → Op

unfoldable pub act : Op → Store → Store
unfolding load_state mark_read set_delivery
act loads store = (load_state store).0
act (marks now ids) store = (mark_read now ids store).0
act (delivers now id state) store = set_delivery now id state store

-- The times that an operation writes are texts that are not empty.
abbrev pub IsTimed : Op → Type 0
IsTimed loads = Unit
IsTimed (marks now ids) = is_empty now ≡ false
IsTimed (delivers now id state) = Unit

-- What holds of a store after an operation.
record Keeps (store store' : Store) : Type 0 where
  disk_timed : AllTimed store'.disk.read
  memory_timed : IsTimedState store'.memory
  kept : (id : Text) → is_read store.disk id ≡ true → is_read store'.disk id ≡ true

act-Keeps :
    (op : Op) (store : Store)
    → IsTimed op
    → AllTimed store.disk.read
    → IsTimedState store.memory
    → Keeps store (act op store)
unfolding act load_state mark_read set_delivery save_state merge_state
act-Keeps loads store t d m = record {
  disk_timed = d;
  memory_timed = merged_with-AllTimed store.memory store.disk m d;
  kept = λ id h. h;
}
act-Keeps (marks now ids) store t d m =
    let state = merged_with store.memory store.disk in
    let timed = merged_with-AllTimed store.memory store.disk m d in
    let (marked, changed) = mark_loop now ids state in
    let marked_timed = mark_loop-AllTimed now ids state t timed in
    elim (Bool-cases (eqb changed 0)) [
      | inl e ↦
          rw (e, act) (record { disk_timed = d; memory_timed = marked_timed; kept = λ id h. h })
      | inr e ↦
          rw (e, act)
            (record {
              disk_timed = spread-AllTimed store.disk.read marked.read d marked_timed;
              memory_timed = spread-AllTimed store.disk.read marked.read d marked_timed;
              kept = λ id h. spread_keeps id store.disk.read marked.read marked_timed h;
            })
    ]
act-Keeps (delivers now id state) store t d m =
    let kept = merged_with store.memory store.disk in
    let timed = merged_with-AllTimed store.memory store.disk m d in
    record {
      disk_timed = spread-AllTimed store.disk.read kept.read d timed;
      memory_timed = spread-AllTimed store.disk.read kept.read d timed;
      kept = λ i h. spread_keeps i store.disk.read kept.read timed h;
    }

-- Two processes over one directory, each with its own memory.
pub record Shared : Type 0 where
  pub first : Store
  pub second_memory : Option State

-- The store as the second process sees it, and what is shared when it is done.
abbrev swap : Shared → Shared
swap sh = record {
  first = record sh.first { memory = sh.second_memory };
  second_memory = sh.first.memory;
}

abbrev by_first : Op → Shared → Shared
by_first op sh = record sh { first = act op sh.first }

-- The operations of the two processes in any order; `true` marks one of the second process.
unfoldable pub interleave : List (Bool × Op) → Shared → Shared
unfolding act
interleave [] sh = sh
interleave ((second, op) ∷ ops) sh =
    interleave ops (if second then swap (by_first op (swap sh)) else by_first op sh)

-- Whatever two processes do, one call at a time and in any order: what was marked as read on disk
-- stays so, where every time that is written is a text that is not empty.
pub interleave_keeps_read :
    (ops : List (Bool × Op)) (sh : Shared) (id : Text)
    → AllTimed sh.first.disk.read
    → IsTimedState sh.first.memory
    → IsTimedState sh.second_memory
    → All (λ p. IsTimed p.1) ops
    → is_read sh.first.disk id ≡ true
    → is_read (interleave ops sh).first.disk id ≡ true
unfolding interleave
interleave_keeps_read [] sh id d m m' t h = h
interleave_keeps_read ((second, op) ∷ ops) sh id d m m' (t, ts) h = elim (Bool-cases second) [
  | inr e ↦
      let k = act-Keeps op sh.first t d m in
      rw e (
        interleave_keeps_read ops (by_first op sh) id k.disk_timed k.memory_timed m' ts
          (k.kept id h))
  | inl e ↦
      let other : Store = (swap sh).first in
      let k = act-Keeps op other t d m' in
      rw e (
        interleave_keeps_read ops (swap (by_first op (swap sh))) id k.disk_timed m k.memory_timed ts
          (k.kept id h))
]
