-- ===== src/Bridge/Topics/Sweep/Fate.antt =====
-- topics.js: what a sweep does to one topic, and what it reports.
use dsh_link.Common.{ℕ, ◌*◌, ◌-◌, ◌≡◌, ◌∙◌, refl, Bool, true, false, not, ◌&&◌, ◌||◌}
use dsh_link.Common.{Option, none, some, List, [], ◌∷◌, ◌++◌, Text, text_eq, ◌==◌}
use dsh_link.Common.{arith, length, is_some}
use dsh_link.Common.Int.{ℤ}
use dsh_link.Common.Dict.{lookup, NodupKeys, lookup-erase, Covers, Covers-erase}
use dsh_link.Common.Dict.{Covers-head}
use dsh_link.Common.Sort.{lookup-sort_dict, sort_dict-NodupKeys}
use dsh_link.Common.Values.{Value}
use dsh_link.Bridge.Topics.Readers.{as_number}
use dsh_link.Bridge.Topics.Policy.{RawPolicy, normalize_topic_policy}
use dsh_link.Bridge.Topics.Pool.{Entry, Pool}
use dsh_link.Bridge.Topics.Sweep.{
  is_quiet, archive_quiet, is_forgotten, forget_old, is_stuck, is_now, evictable, oldest_first,
  sort_oldest, Swept, evict, cap_loop, cap_pool, sweep_pool,
}
use dsh_link.Bridge.Topics.Sweep.Phases.{
  lookup-archive_quiet, archive_quiet-NodupKeys, lookup-forget_old, forget_old-NodupKeys,
}
use dsh_link.Bridge.Topics.Sweep.Bounds.{
  lookup-evictable, evictable-NodupKeys, Covers-sort_evictable,
}

-- Is the key listed?
abbrev pub lists : List Text → Text → Bool
lists [] k = false
lists (j ∷ js) k = j == k || lists js k

lists-append : (xs ys : List Text) (k : Text) → lists (xs ++ ys) k ≡ (lists xs k || lists ys k)
lists-append [] ys k = refl
lists-append (x ∷ xs) ys k = ground (arith, lists-append xs ys k)

lookup-cap_loop_other :
    (k : Text) (most : ℕ) (list : Pool) (size : ℕ) (s : Swept)
    → lookup k list ≡ none
    → lookup k (cap_loop most list size s).pool ≡ lookup k s.pool
unfolding cap_loop lookup
lookup-cap_loop_other k most [] size s h = refl
lookup-cap_loop_other k most ((key, slot) ∷ rest) size s h = ground (
  arith,
  lookup-cap_loop_other k most rest (size - 1) (evict key slot s),
  lookup-erase k key s.pool,
)

lists-cap_loop :
    (k : Text) (most : ℕ) (list : Pool) (size : ℕ) (s : Swept)
    → NodupKeys list
    → Covers s.pool list
    → lists (cap_loop most list size s).drop k ≡ (
        lists s.drop k
        || (is_some (lookup k s.pool) && not (is_some (lookup k (cap_loop most list size s).pool))))
unfolding cap_loop
lists-cap_loop k most [] size s _ _ = ground arith
lists-cap_loop k most ((key, slot) ∷ rest) size s (fresh, u) c = ground (
  arith,
  lists-cap_loop k most rest (size - 1) (evict key slot s) u
      (Covers-erase key slot s.pool rest fresh c),
  lookup-cap_loop_other key most rest (size - 1) (evict key slot s) fresh,
  lookup-erase k key s.pool,
  Covers-head key slot s.pool rest c,
  lists-append s.drop (key ∷ []) k,
)

lists-cap_pool :
    (k : Text) (most : ℕ) (at : ℤ) (s : Swept)
    → NodupKeys s.pool
    → lists (cap_pool most at s).drop k ≡ (
        lists s.drop k
        || (is_some (lookup k s.pool) && not (is_some (lookup k (cap_pool most at s).pool))))
unfolding cap_pool sort_oldest
lists-cap_pool k most at s u = ground (
  arith,
  lists-cap_loop k most (sort_oldest (evictable at s.pool)) (length s.pool) s
      (sort_dict-NodupKeys oldest_first (evictable at s.pool) (evictable-NodupKeys at s.pool u))
      (Covers-sort_evictable at s.pool u),
)

lookup-cap_pool_absent :
    (k : Text) (most : ℕ) (at : ℤ) (s : Swept)
    → NodupKeys s.pool
    → lookup k s.pool ≡ none
    → lookup k (cap_pool most at s).pool ≡ none
unfolding cap_pool sort_oldest
lookup-cap_pool_absent k most at s u h = ground (
  arith,
  lookup-cap_loop_other k most (sort_oldest (evictable at s.pool)) (length s.pool) s
      (Covers-sort_evictable at s.pool u k h),
)

lists-forget_old :
    (k : Text) (forgotten : ℕ) (at : ℤ) (store : Pool)
    → NodupKeys store
    → lists (forget_old forgotten at store).1 k
      ≡ (is_some (lookup k store) && not (is_some (lookup k (forget_old forgotten at store).0)))
unfolding forget_old lookup
lists-forget_old k forgotten at [] _ = refl
lists-forget_old k forgotten at ((j, s) ∷ store) (fresh, u) =
    ground
      (arith, lists-forget_old k forgotten at store u, lookup-forget_old forgotten at j store u)

lookup-cap_pool_stuck :
    (k : Text) (most : ℕ) (at : ℤ) (s : Swept) (slot : Option Entry)
    → NodupKeys s.pool
    → lookup k s.pool ≡ some slot
    → is_stuck at slot ≡ true
    → lookup k (cap_pool most at s).pool ≡ some slot
unfolding cap_pool sort_oldest
lookup-cap_pool_stuck k most at s slot u found stuck =
    let v = evictable-NodupKeys at s.pool u in
    ground (
      arith,
      lookup-cap_loop_other k most (sort_oldest (evictable at s.pool)) (length s.pool) s,
      lookup-sort_dict oldest_first k (evictable at s.pool) v,
      lookup-evictable at k s.pool u,
    )

module _ (clock : ℤ) (store : Pool) (now : Value) (policy : Option RawPolicy)
    (u : NodupKeys store) where
  -- A topic whose `lastUsedAt` is exactly the time of the sweep keeps its entry unchanged, unless
  -- it had been archived before and its archive window has passed twice.
  pub lookup-sweep_pool_in_use :
      (k : Text) (e : Entry)
      → lookup k store ≡ some (some e)
      → is_now e.last_used_at (as_number now clock) ≡ true
      → is_forgotten
          ((normalize_topic_policy policy).archive_idle_seconds * 1000 * 2)
          (as_number now clock)
          (some e)
        ≡ false
      → lookup k (sweep_pool clock store now policy).pool ≡ some (some e)
  unfolding sweep_pool
  lookup-sweep_pool_in_use k e found in_use known =
      let settings = normalize_topic_policy policy in
      let at = as_number now clock in
      let idle : ℕ = settings.archive_idle_seconds * 1000 in
      let (store1, archive) = archive_quiet idle at store in
      let (store2, drop) = forget_old (idle * 2) at store1 in
      let u1 : NodupKeys store1 = archive_quiet-NodupKeys idle at store u in
      let here1 : lookup k store1 ≡ some (some e) =
        lookup-archive_quiet idle at k store ∙ rw found (unfold is_quiet in ground arith) in
      let here2 : lookup k store2 ≡ some (some e) =
        lookup-forget_old (idle * 2) at k store1 u1 ∙ rw (here1, known) in
      lookup-cap_pool_stuck k settings.max_pool_size at
        (record { pool = store2; archive = archive; drop = drop }) (some e)
        (forget_old-NodupKeys (idle * 2) at store1 u1) here2 in_use

  -- The drop list names exactly the topics that were in the pool and are not in it any more.
  pub lists-sweep_pool :
      (k : Text)
      → lists (sweep_pool clock store now policy).drop k ≡ (
          is_some (lookup k store)
          && not (is_some (lookup k (sweep_pool clock store now policy).pool)))
  unfolding sweep_pool
  lists-sweep_pool k =
      let settings = normalize_topic_policy policy in
      let at = as_number now clock in
      let idle : ℕ = settings.archive_idle_seconds * 1000 in
      let (store1, archive) = archive_quiet idle at store in
      let (store2, drop) = forget_old (idle * 2) at store1 in
      let u1 : NodupKeys store1 = archive_quiet-NodupKeys idle at store u in
      let u2 : NodupKeys store2 = forget_old-NodupKeys (idle * 2) at store1 u1 in
      let last : Swept = record { pool = store2; archive = archive; drop = drop } in
      ground (
        arith,
        lists-cap_pool k settings.max_pool_size at last u2,
        lookup-cap_pool_absent k settings.max_pool_size at last u2,
        lists-forget_old k (idle * 2) at store1 u1,
        lookup-forget_old (idle * 2) at k store1 u1,
        lookup-archive_quiet idle at k store,
      )
