-- ===== src/Node/Store/Marks.antt =====
-- src/store.mjs: `markRead` marks, and `mergeState` keeps what is marked.
use dsh_link.Common.{
  ◌≡◌, Bool, true, false, not, ◌||◌, Option, none, some, List, [], ◌∷◌, Text, text_eq, ◌==◌,
}
use dsh_link.Common.{is_empty, eqb, or_default, All, Bool-cases, inl, inr, arith}
use dsh_link.Common.Dict.{Dict, lookup, insert, lookup-insert}
use dsh_link.Node.Store.{
  includes, State, Store, spread, merge_state, merged_with, load_state, save_state, is_read,
  mark_loop, mark_read,
}

abbrev pub is_set : Dict Text → Text → Bool
is_set d id = not (is_empty (or_default (lookup id d) []))

-- Every mark holds a time.
abbrev pub AllTimed : Dict Text → Type 0
AllTimed = All (λ p. is_empty p.1 ≡ false)

pub insert-AllTimed :
    (k v : Text) (d : Dict Text) → is_empty v ≡ false → AllTimed d → AllTimed (insert k v d)
unfolding insert
insert-AllTimed k v [] h t = (h, tt)
insert-AllTimed k v ((j, w) ∷ d) h (t, ts) = elim (Bool-cases (j == k)) [
  | inl e ↦ rw e (h, ts)
  | inr e ↦ rw e (t, insert-AllTimed k v d h ts)
]

insert_keeps :
    (id k v : Text) (d : Dict Text)
    → is_empty v ≡ false
    → is_set d id ≡ true
    → is_set (insert k v d) id ≡ true
insert_keeps id k v d h s = ground (arith, lookup-insert id k v d)

pub spread_keeps :
    (id : Text) (under over : Dict Text)
    → AllTimed over
    → is_set under id ≡ true
    → is_set (spread under over) id ≡ true
unfolding spread
spread_keeps id under [] t h = h
spread_keeps id under ((k, v) ∷ over) (t, ts) h =
    spread_keeps id (insert k v under) over ts (insert_keeps id k v under t h)

spread_over :
    (id : Text) (under over : Dict Text)
    → AllTimed over
    → is_set over id ≡ true
    → is_set (spread under over) id ≡ true
unfolding spread lookup
spread_over id under [] t h = absurd (ground arith)
spread_over id under ((k, v) ∷ over) (t, ts) h = elim (Bool-cases (k == id)) [
  | inl e ↦ spread_keeps id (insert k v under) over ts (ground (arith, lookup-insert id k v under))
  | inr e ↦ spread_over id (insert k v under) over ts (ground arith)
]

pub spread-AllTimed :
    (under over : Dict Text) → AllTimed under → AllTimed over → AllTimed (spread under over)
unfolding spread
spread-AllTimed under [] u t = u
spread-AllTimed under ((k, v) ∷ over) u (t, ts) =
    spread-AllTimed (insert k v under) over (insert-AllTimed k v under t u) ts

pub mark_loop-AllTimed :
    (now : Text) (ids : List Text) (state : State)
    → is_empty now ≡ false
    → AllTimed state.read
    → AllTimed (mark_loop now ids state).0.read
unfolding mark_loop
mark_loop-AllTimed now [] state n t = t
mark_loop-AllTimed now (id ∷ ids) state n t = elim (Bool-cases (is_empty id || is_read state id)) [
  | inl e ↦ rw e (mark_loop-AllTimed now ids state n t)
  | inr e ↦ rw e (
      mark_loop-AllTimed now ids (record state { read = insert id now state.read }) n
        (insert-AllTimed id now state.read n t))
]

pub mark_loop_keeps :
    (now : Text) (ids : List Text) (state : State) (id : Text)
    → is_empty now ≡ false
    → is_read state id ≡ true
    → is_read (mark_loop now ids state).0 id ≡ true
unfolding mark_loop
mark_loop_keeps now [] state id n h = h
mark_loop_keeps now (i ∷ ids) state id n h = elim (Bool-cases (is_empty i || is_read state i)) [
  | inl e ↦ rw e (mark_loop_keeps now ids state id n h)
  | inr e ↦ rw e (
      mark_loop_keeps now ids (record state { read = insert i now state.read }) id n
        (insert_keeps id i now state.read n h))
]

abbrev pub IsTimedState : Option State → Type 0
IsTimedState none = Unit
IsTimedState (some state) = AllTimed state.read

pub merged_with-AllTimed :
    (memory : Option State) (disk : State)
    → IsTimedState memory
    → AllTimed disk.read
    → AllTimed (merged_with memory disk).read
unfolding merge_state
merged_with-AllTimed none disk m d = d
merged_with-AllTimed (some mine) disk m d = spread-AllTimed disk.read mine.read d m

mark_loop_marks :
    (now : Text) (ids : List Text) (state : State) (id : Text)
    → is_empty now ≡ false
    → is_empty id ≡ false
    → includes ids id ≡ true
    → is_read (mark_loop now ids state).0 id ≡ true
unfolding mark_loop
mark_loop_marks now [] state id n h m = absurd (ground arith)
mark_loop_marks now (i ∷ ids) state id n h m =
    let marked : State = record state { read = insert i now state.read } in
    elim (Bool-cases (i == id)) [
      | inr e ↦ elim (Bool-cases (is_empty i || is_read state i)) [
        | inl f ↦ rw f (mark_loop_marks now ids state id n h (ground arith))
        | inr f ↦ rw f (mark_loop_marks now ids marked id n h (ground arith))
      ]
      | inl e ↦ elim (Bool-cases (is_empty i || is_read state i)) [
        | inl f ↦ rw f (mark_loop_keeps now ids state id n (ground arith))
        | inr f ↦ rw f (
            mark_loop_keeps now ids marked id n (ground (arith, lookup-insert id i now state.read)))
      ]
    ]

-- After `markRead` every id that it was given is read, in the state that the next call loads, where
-- the id is not empty and every time that was or is written is a text that is not empty.
pub mark_read_marks :
    (now : Text) (ids : List Text) (store : Store) (id : Text)
    → is_empty now ≡ false
    → is_empty id ≡ false
    → includes ids id ≡ true
    → AllTimed store.disk.read
    → IsTimedState store.memory
    → is_read (load_state (mark_read now ids store).0).1 id ≡ true
unfolding mark_read load_state save_state merge_state
mark_read_marks now ids store id n h m d t =
    let state = merged_with store.memory store.disk in
    let (marked, changed) = mark_loop now ids state in
    let timed =
      mark_loop-AllTimed now ids state n (merged_with-AllTimed store.memory store.disk t d) in
    let read = mark_loop_marks now ids state id n h m in
    elim (Bool-cases (eqb changed 0)) [
      | inl e ↦ rw (e, mark_read) (spread_over id store.disk.read marked.read timed read)
      | inr e ↦
          let saved = spread store.disk.read marked.read in
          rw (e, mark_read)
            (spread_keeps id saved saved (spread-AllTimed store.disk.read marked.read d timed)
              (spread_over id store.disk.read marked.read timed read))
    ]
