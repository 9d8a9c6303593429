-- ===== src/Bridge/Topics/Sweep/Phases.antt =====
-- topics.js: what each loop of `sweepPool` does to one key.
use dsh_link.Common.{ℕ, ◌≡◌, refl, Bool, Option, none, some, [], ◌∷◌}
use dsh_link.Common.{Text, text_eq, if◌then◌else◌, arith}
use dsh_link.Common.Int.{ℤ}
use dsh_link.Common.Dict.{lookup, NodupKeys}
use dsh_link.Bridge.Topics.Pool.{Entry, Pool}
use dsh_link.Bridge.Topics.Sweep.{is_quiet, retire, archive_quiet, is_forgotten, forget_old}

abbrev pub retire_if : Bool → ℤ → Option Entry → Option Entry
retire_if quiet at slot = if quiet then retire at slot else slot

-- A value under a key, changed.
abbrev pub map_slot : (Option Entry → Option Entry) → Option (Option Entry) → Option (Option Entry)
map_slot f none = none
map_slot f (some slot) = some (f slot)

module _ (idle : ℕ) (at : ℤ) where
  pub lookup-archive_quiet :
      (k : Text) (store : Pool)
      → lookup k (archive_quiet idle at store).0
        ≡ map_slot (λ s. retire_if (is_quiet idle at s) at s) (lookup k store)
  unfolding archive_quiet lookup
  lookup-archive_quiet k [] = refl
  lookup-archive_quiet k ((j, s) ∷ store) = ground (arith, lookup-archive_quiet k store)

  pub archive_quiet-NodupKeys :
      (store : Pool) → NodupKeys store → NodupKeys (archive_quiet idle at store).0
  unfolding archive_quiet
  archive_quiet-NodupKeys [] u = tt
  archive_quiet-NodupKeys ((j, s) ∷ store) (fresh, u) =
      ground (arith, archive_quiet-NodupKeys store u, lookup-archive_quiet j store)

-- Does the slot go in the second loop?
abbrev pub drop_if : Bool → Option (Option Entry) → Option (Option Entry)
drop_if gone slot = if gone then none else slot

module _ (forgotten : ℕ) (at : ℤ) where
  abbrev pub keep_known : Option (Option Entry) → Option (Option Entry)
  keep_known none = none
  keep_known (some s) = if is_forgotten forgotten at s then none else some s

  pub lookup-forget_old :
      (k : Text) (store : Pool)
      → NodupKeys store
      → lookup k (forget_old forgotten at store).0 ≡ keep_known (lookup k store)
  unfolding forget_old lookup
  lookup-forget_old k [] _ = refl
  lookup-forget_old k ((j, s) ∷ store) (fresh, u) = ground (arith, lookup-forget_old k store u)

  pub forget_old-NodupKeys :
      (store : Pool) → NodupKeys store → NodupKeys (forget_old forgotten at store).0
  unfolding forget_old
  forget_old-NodupKeys [] u = tt
  forget_old-NodupKeys ((j, s) ∷ store) (fresh, u) =
      ground (arith, forget_old-NodupKeys store u, lookup-forget_old j store u)
