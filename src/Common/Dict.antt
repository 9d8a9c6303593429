-- ===== src/Common/Dict.antt =====
-- Objects used as maps: keys in insertion order. (An engine lists keys that are array indices
-- first; the order of keys is used only where ties are broken.)
use mathlib.Core.Path.{◌≡◌, refl}
use Prim.Native.Nat.{◌+◌}
use mathlib.Core.Logic.{◌≢◌}
use dsh_link.Common.Lists.{length}
use mathlib.Core.Option.{Option, none, some}
use mathlib.Core.List.{List, [], ◌∷◌}
use native.Mathlib.Omega.{arith}
use dsh_link.Common.Tests.{◌==◌, if◌then◌else◌}
use dsh_link.Common.Texts.{Text, text_eq}

abbrev pub Dict {ℓ} : Type ℓ → Type ℓ
Dict V = List (Text × V)

module _ {ℓ} {V : Type ℓ} where
  -- `d[k]`
  unfoldable pub lookup : Text → Dict V → Option V
  lookup k [] = none
  lookup k ((j, v) ∷ d) = let rest = lookup k d in if j == k then some v else rest

  -- `d[k] = v`
  unfoldable pub insert : Text → V → Dict V → Dict V
  insert k v [] = (k, v) ∷ []
  insert k v ((j, w) ∷ d) = let rest = insert k v d in if j == k then (k, v) ∷ d else (j, w) ∷ rest

  -- `delete d[k]`. Every pair of the key goes; an object has at most one.
  unfoldable pub erase : Text → Dict V → Dict V
  erase k [] = []
  erase k ((j, w) ∷ d) = let rest = erase k d in if j == k then rest else (j, w) ∷ rest

  abbrev pub keys : Dict V → List Text
  keys [] = []
  keys ((k, v) ∷ d) = k ∷ keys d

  pub lookup-insert :
      (j k : Text) (v : V) (d : Dict V)
      → lookup j (insert k v d) ≡ (if k == j then some v else lookup j d)
  unfolding lookup insert
  lookup-insert j k v [] = refl
  lookup-insert j k v ((i, w) ∷ d) = ground (arith, lookup-insert j k v d)

  pub lookup-erase :
      (j k : Text) (d : Dict V) → lookup j (erase k d) ≡ (if k == j then none else lookup j d)
  unfolding lookup erase
  lookup-erase j k [] = ground arith
  lookup-erase j k ((i, w) ∷ d) = ground (arith, lookup-erase j k d)

  -- No key is listed twice.
  abbrev pub NodupKeys : Dict V → Type ℓ
  NodupKeys [] = Unit
  NodupKeys ((k, _) ∷ d) = (lookup k d ≡ none) × NodupKeys d

  pub insert-NodupKeys : (k : Text) (v : V) (d : Dict V) → NodupKeys d → NodupKeys (insert k v d)
  unfolding insert lookup
  insert-NodupKeys k v [] _ = (refl, tt)
  insert-NodupKeys k v ((j, _) ∷ d) (fresh, u) =
      ground (arith, insert-NodupKeys k v d u, lookup-insert j k v d)

  pub erase-NodupKeys : (k : Text) (d : Dict V) → NodupKeys d → NodupKeys (erase k d)
  unfolding erase lookup
  erase-NodupKeys k [] _ = tt
  erase-NodupKeys k ((j, _) ∷ d) (fresh, u) =
      ground (arith, erase-NodupKeys k d u, lookup-erase j k d)

  pub erase_absent : (k : Text) (d : Dict V) → lookup k d ≡ none → erase k d ≡ d
  unfolding erase lookup
  erase_absent k [] h = refl
  erase_absent k ((j, w) ∷ d) h = ground (arith, erase_absent k d)

  pub length-erase :
      (k : Text) (d : Dict V) → NodupKeys d → lookup k d ≢ none → length (erase k d) + 1 ≡ length d
  unfolding erase lookup
  length-erase k [] _ h = absurd (h refl)
  length-erase k ((j, w) ∷ d) (fresh, u) h = ground (arith, length-erase k d u, erase_absent k d)

  -- Every key of the list is a key of the dictionary.
  abbrev pub Covers : Dict V → Dict V → Type ℓ
  Covers d list = (k : Text) → lookup k d ≡ none → lookup k list ≡ none

  pub Covers-erase :
      (key : Text) (v : V) (d rest : Dict V)
      → lookup key rest ≡ none
      → Covers d ((key, v) ∷ rest)
      → Covers (erase key d) rest
  unfolding lookup
  Covers-erase key v d rest fresh c k h = ground (arith, lookup-erase k key d, c k)

  pub Covers-head :
      (key : Text) (v : V) (d rest : Dict V) → Covers d ((key, v) ∷ rest) → lookup key d ≢ none
  unfolding lookup
  Covers-head key v d rest c h = ground (arith, c key h)

  -- How many keys a write leaves does not depend on the value.
  pub length-insert_any :
      (k : Text) (v w : V) (d : Dict V) → length (insert k v d) ≡ length (insert k w d)
  unfolding insert
  length-insert_any k v w [] = refl
  length-insert_any k v w ((j, x) ∷ d) = ground (arith, length-insert_any k v w d)
