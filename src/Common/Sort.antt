-- ===== src/Common/Sort.antt =====
-- `.sort(...)` of the pairs of an object by their values: `before a b` is what makes `a` stand before
-- a later `b`, so that the sort is stable where `before` holds of equals. With the laws that the
-- callers need: sorting keeps the map.
use Prim.Native.Nat.{suc}
use mathlib.Core.Path.{◌≡◌, refl}
use mathlib.Core.Option.{none, some}
use mathlib.Core.List.{[], ◌∷◌}
use native.Mathlib.Omega.{arith}
use mathlib.Core.Logic.{inl, inr}
use dsh_link.Common.Tests.{Bool-cases, ◌==◌, if◌then◌else◌}
use dsh_link.Common.Texts.{Text, text_eq}
use dsh_link.Common.Lists.{length, All}
use mathlib.Core.Bool.{Bool}
use dsh_link.Common.Dict.{Dict, lookup, NodupKeys}

module _ {ℓ} {V : Type ℓ} (before : V → V → Bool) where
  unfoldable pub insert_sorted : Text → V → Dict V → Dict V
  insert_sorted key v [] = (key, v) ∷ []
  insert_sorted key v ((k, w) ∷ d) =
      let rest = insert_sorted key v d in
      if before v w then (key, v) ∷ ((k, w) ∷ d) else (k, w) ∷ rest

  unfoldable pub sort_dict : Dict V → Dict V
  unfolding insert_sorted
  sort_dict [] = []
  sort_dict ((key, v) ∷ d) = insert_sorted key v (sort_dict d)

  lookup-insert_sorted :
      (k key : Text) (v : V) (d : Dict V)
      → lookup key d ≡ none
      → lookup k (insert_sorted key v d) ≡ (if key == k then some v else lookup k d)
  unfolding insert_sorted lookup
  lookup-insert_sorted k key v [] fresh = refl
  lookup-insert_sorted k key v ((j, w) ∷ d) fresh = ground (arith, lookup-insert_sorted k key v d)

  insert_sorted-NodupKeys :
      (key : Text) (v : V) (d : Dict V)
      → lookup key d ≡ none
      → NodupKeys d
      → NodupKeys (insert_sorted key v d)
  unfolding insert_sorted lookup
  insert_sorted-NodupKeys key v [] fresh u = (fresh, tt)
  insert_sorted-NodupKeys key v ((j, w) ∷ d) fresh (new, u) =
      ground (arith, insert_sorted-NodupKeys key v d, lookup-insert_sorted j key v d)

  pub lookup-sort_dict : (k : Text) (d : Dict V) → NodupKeys d → lookup k (sort_dict d) ≡ lookup k d
  unfolding sort_dict lookup
  lookup-sort_dict k [] _ = refl
  lookup-sort_dict k ((j, v) ∷ d) (fresh, u) = ground (
    arith,
    lookup-sort_dict k d u,
    lookup-sort_dict j d u,
    lookup-insert_sorted k j v (sort_dict d),
  )

  pub sort_dict-NodupKeys : (d : Dict V) → NodupKeys d → NodupKeys (sort_dict d)
  unfolding sort_dict
  sort_dict-NodupKeys [] _ = tt
  sort_dict-NodupKeys ((j, v) ∷ d) (fresh, u) = ground (
    arith,
    sort_dict-NodupKeys d u,
    lookup-sort_dict j d u,
    insert_sorted-NodupKeys j v (sort_dict d),
  )

  length-insert_sorted :
      (key : Text) (v : V) (d : Dict V) → length (insert_sorted key v d) ≡ suc (length d)
  unfolding insert_sorted
  length-insert_sorted key v [] = refl
  length-insert_sorted key v ((j, w) ∷ d) = ground (arith, length-insert_sorted key v d)

  pub length-sort_dict : (d : Dict V) → length (sort_dict d) ≡ length d
  unfolding sort_dict
  length-sort_dict [] = refl
  length-sort_dict ((j, v) ∷ d) =
      omega (arith, length-sort_dict d, length-insert_sorted j v (sort_dict d))

  -- What holds of every pair holds of every pair of the sorted list.
  All-insert_sorted {κ} :
      (P : Text × V → Type κ) (key : Text) (v : V) (d : Dict V)
      → P (key, v)
      → All P d
      → All P (insert_sorted key v d)
  unfolding insert_sorted
  All-insert_sorted P key v [] p _ = (p, tt)
  All-insert_sorted P key v ((j, w) ∷ d) p (q, qs) = elim (Bool-cases (before v w)) [
    | inl e ↦ rw e (p, (q, qs))
    | inr e ↦ rw e (q, All-insert_sorted P key v d p qs)
  ]

  pub All-sort_dict {κ} : (P : Text × V → Type κ) (d : Dict V) → All P d → All P (sort_dict d)
  unfolding sort_dict
  All-sort_dict P [] _ = tt
  All-sort_dict P ((j, v) ∷ d) (p, ps) =
      All-insert_sorted P j v (sort_dict d) p (All-sort_dict P d ps)
