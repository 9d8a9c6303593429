-- ===== src/Node/Store/Laws.antt =====
-- src/store.mjs: what is imported from a peer, and what a query lists.
use dsh_link.Common.{◌≡◌, refl, true, false, ◌||◌, List, [], ◌∷◌, ◌++◌, Text, text_eq, ◌==◌}
use dsh_link.Common.{is_empty, Bool-cases, inl, inr, arith}
use dsh_link.Node.Store.{Message, Store, ids_of, includes, import_loop, import_messages}

-- No id is listed twice.
abbrev pub Distinct : List Text → Type 0
Distinct [] = Unit
Distinct (i ∷ ids) = (includes ids i ≡ false) × Distinct ids

pub includes-append :
    (ids more : List Text) (j : Text)
    → includes (ids ++ more) j ≡ (includes ids j || includes more j)
includes-append [] more j = refl
includes-append (x ∷ ids) more j = ground (arith, includes-append ids more j)

-- No imported id is among those that were there, and no two are the same.
import_loop-Distinct :
    (via : Text) (ids : List Text) (records : List Message)
    → Distinct (ids_of (import_loop via ids records))
      × ((i : Text)
          → includes ids i ≡ true
          → includes (ids_of (import_loop via ids records)) i ≡ false)
unfolding import_loop
import_loop-Distinct via ids [] = (tt, λ i h. refl)
import_loop-Distinct via ids (r ∷ records) =
    elim (Bool-cases (is_empty r.id || includes ids r.id)) [
      | inl e ↦ rw e (import_loop-Distinct via ids records)
      | inr e ↦
          let rest = import_loop-Distinct via (r.id ∷ ids) records in
          rw e ((rest.1 r.id (ground arith), rest.0), λ i h. ground (arith, rest.1 i))
    ]

pub Distinct-append :
    (xs ys : List Text)
    → Distinct xs
    → Distinct ys
    → ((i : Text) → includes xs i ≡ true → includes ys i ≡ false)
    → Distinct (xs ++ ys)
Distinct-append [] ys u v apart = v
Distinct-append (x ∷ xs) ys (fresh, u) v apart = (
  ground (arith, includes-append xs ys x, apart x),
  Distinct-append xs ys u v (λ i h. apart i (ground arith)),
)

pub map-append : (xs ys : List Message) → ids_of (xs ++ ys) ≡ ids_of xs ++ ids_of ys
map-append [] ys = refl
map-append (x ∷ xs) ys = ground (arith, map-append xs ys)

-- Every record with an id is covered.
import_loop_covers :
    (via again : Text) (ids more : List Text) (records : List Message)
    → ((i : Text) → includes ids i ≡ true → includes more i ≡ true)
    → ((i : Text)
        → includes (ids_of (import_loop via ids records)) i ≡ true
        → includes more i ≡ true)
    → import_loop again more records ≡ []
unfolding import_loop
import_loop_covers via again ids more [] h k = refl
import_loop_covers via again ids more (r ∷ records) h k =
    elim (Bool-cases (is_empty r.id || includes ids r.id)) [
      | inl e ↦
          let skipped : (is_empty r.id || includes more r.id) ≡ true = ground (arith, h r.id) in
          rw skipped (
            import_loop_covers via again ids more records h (λ i g. k i (rw e (ground (arith, g)))))
      | inr e ↦
          let all : (i : Text)
              → (r.id == i || includes (ids_of (import_loop via (r.id ∷ ids) records)) i) ≡ true
              → includes more i ≡ true =
            λ i g. k i (rw e (ground (arith, g))) in
          let skipped : (is_empty r.id || includes more r.id) ≡ true = ground (arith, all r.id) in
          rw skipped (
            import_loop_covers via again (r.id ∷ ids) more records
              (λ i g. ground (arith, h i, all i)) (λ i g. all i (ground (arith, g))))
    ]

-- An import keeps the inbox free of duplicates: if no id stood in it twice, none does afterwards, whatever
-- the records. And then importing the same records again imports nothing.
pub import_messages_once :
    (via again : Text) (records : List Message) (store : Store)
    → Distinct (ids_of store.inbox)
    → let imported = (import_messages via records store).0 in
      Distinct (ids_of imported.inbox) × ((import_messages again records imported).1 ≡ [])
unfolding import_messages
import_messages_once via again records store u =
    let (distinct, apart) = import_loop-Distinct via (ids_of store.inbox) records in
    let had = ids_of store.inbox in
    let got = ids_of (import_loop via had records) in
    (
      rw (map-append store.inbox (import_loop via had records))
          (Distinct-append had got u distinct apart),
      rw (map-append store.inbox (import_loop via had records)) (
          import_loop_covers via again had (had ++ got) records
            (λ i h. ground (arith, includes-append had got i))
            (λ i h. ground (arith, includes-append had got i))),
    )
