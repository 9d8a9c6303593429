-- ===== src/Bridge/Topics/Sweep/Bounds.antt =====
-- topics.js: how many topics a sweep leaves.
use dsh_link.Common.{ℕ, suc, ◌+◌, ◌*◌, ◌-◌, ◌≤◌, max, ◌≡◌, refl, Option, none, some}
use dsh_link.Common.{[], ◌∷◌, Text, text_eq, if◌then◌else◌, arith, length}
use dsh_link.Common.Int.{ℤ}
use dsh_link.Common.Dict.{lookup, NodupKeys, erase-NodupKeys, length-erase, Covers}
use dsh_link.Common.Dict.{Covers-erase, Covers-head}
use dsh_link.Common.Sort.{lookup-sort_dict, sort_dict-NodupKeys, length-sort_dict}
use dsh_link.Common.Values.{Value}
use dsh_link.Bridge.Topics.Readers.{as_number}
use dsh_link.Bridge.Topics.Policy.{RawPolicy, normalize_topic_policy}
use dsh_link.Bridge.Topics.Pool.{Entry, Pool}
use dsh_link.Bridge.Topics.Sweep.{
  is_quiet, archive_quiet, forget_old, is_stuck, evictable, oldest_first, sort_oldest, Swept, evict,
  cap_loop, cap_pool, sweep_pool,
}
use dsh_link.Bridge.Topics.Sweep.Phases.{archive_quiet-NodupKeys, forget_old-NodupKeys}

-- The topics that the third loop may not touch: in use at this instant, or no entry at all.
pub count_stuck : ℤ → Pool → ℕ
count_stuck at [] = 0
count_stuck at ((key, slot) ∷ store) =
    let rest = count_stuck at store in if is_stuck at slot then suc rest else rest

module _ (at : ℤ) where
  abbrev pub keep_evictable : Option (Option Entry) → Option (Option Entry)
  keep_evictable none = none
  keep_evictable (some s) = if is_stuck at s then none else some s

  pub lookup-evictable :
      (k : Text) (store : Pool)
      → NodupKeys store
      → lookup k (evictable at store) ≡ keep_evictable (lookup k store)
  unfolding evictable lookup
  lookup-evictable k [] _ = refl
  lookup-evictable k ((j, s) ∷ store) (fresh, u) = ground (arith, lookup-evictable k store u)

  pub evictable-NodupKeys : (store : Pool) → NodupKeys store → NodupKeys (evictable at store)
  unfolding evictable
  evictable-NodupKeys [] u = tt
  evictable-NodupKeys ((j, s) ∷ store) (fresh, u) =
      ground (arith, evictable-NodupKeys store u, lookup-evictable j store u)

  length-evictable :
      (store : Pool) → length (evictable at store) + count_stuck at store ≡ length store
  unfolding evictable count_stuck
  length-evictable [] = refl
  length-evictable ((j, s) ∷ store) = ground (arith, length-evictable store)

  count_stuck-archive_quiet :
      (idle : ℕ) (store : Pool)
      → count_stuck at (archive_quiet idle at store).0 ≡ count_stuck at store
  unfolding archive_quiet is_quiet count_stuck
  count_stuck-archive_quiet idle [] = refl
  count_stuck-archive_quiet idle ((j, none) ∷ store) =
      ground (arith, count_stuck-archive_quiet idle store)
  count_stuck-archive_quiet idle ((j, some e) ∷ store) =
      ground (arith, count_stuck-archive_quiet idle store)

  count_stuck-forget_old :
      (forgotten : ℕ) (store : Pool)
      → count_stuck at (forget_old forgotten at store).0 ≤ count_stuck at store
  unfolding forget_old count_stuck
  count_stuck-forget_old forgotten [] = omega arith
  count_stuck-forget_old forgotten ((j, s) ∷ store) =
      ground (arith, count_stuck-forget_old forgotten store)

length-cap_loop :
    (most : ℕ) (list : Pool) (size : ℕ) (s : Swept)
    → NodupKeys list
    → NodupKeys s.pool
    → Covers s.pool list
    → size ≡ length s.pool
    → length (cap_loop most list size s).pool ≤ max most (length s.pool - length list)
unfolding cap_loop
length-cap_loop most [] size s _ _ _ e = omega arith
length-cap_loop most ((key, slot) ∷ rest) size s (fresh, u) v c e =
    let present = Covers-head key slot s.pool rest c in
    ground (
      arith,
      length-erase key s.pool v present,
      length-cap_loop most rest (size - 1) (evict key slot s) u (erase-NodupKeys key s.pool v)
          (Covers-erase key slot s.pool rest fresh c),
    )

pub Covers-sort_evictable :
    (at : ℤ) (store : Pool) → NodupKeys store → Covers store (sort_oldest (evictable at store))
unfolding sort_oldest
Covers-sort_evictable at store u k h = rw (
  lookup-sort_dict oldest_first k (evictable at store) (evictable-NodupKeys at store u),
  lookup-evictable at k store u,
  h,
)

length-cap_pool :
    (most : ℕ) (at : ℤ) (s : Swept)
    → NodupKeys s.pool
    → length (cap_pool most at s).pool ≤ max most (count_stuck at s.pool)
unfolding cap_pool sort_oldest
length-cap_pool most at s u =
    let list : Pool = sort_oldest (evictable at s.pool) in
    ground (
      arith,
      length-cap_loop most list (length s.pool) s
          (sort_dict-NodupKeys oldest_first (evictable at s.pool) (evictable-NodupKeys at s.pool u))
          u (Covers-sort_evictable at s.pool u) refl,
      length-sort_dict oldest_first (evictable at s.pool),
      length-evictable at s.pool,
    )

-- After a sweep the pool has at most `maxPoolSize` topics, or at most as many as were in use at
-- this very instant (or were no entries) before the sweep, whichever is more.
pub length-sweep_pool :
    (clock : ℤ) (store : Pool) (now : Value) (policy : Option RawPolicy)
    → NodupKeys store
    → length (sweep_pool clock store now policy).pool
      ≤ max (normalize_topic_policy policy).max_pool_size (count_stuck (as_number now clock) store)
unfolding sweep_pool
length-sweep_pool clock store now policy u =
    let settings = normalize_topic_policy policy in
    let at = as_number now clock in
    let idle : ℕ = settings.archive_idle_seconds * 1000 in
    let (store1, archive) = archive_quiet idle at store in
    let (store2, drop) = forget_old (idle * 2) at store1 in
    omega (
      arith,
      length-cap_pool settings.max_pool_size at
          (record { pool = store2; archive = archive; drop = drop })
          (forget_old-NodupKeys (idle * 2) at store1 (archive_quiet-NodupKeys idle at store u)),
      count_stuck-forget_old at (idle * 2) store1,
      count_stuck-archive_quiet at idle store,
    )
