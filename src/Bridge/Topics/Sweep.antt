-- ===== src/Bridge/Topics/Sweep.antt =====
-- topics.js: `sweepPool` and `poolSummary`. Each loop of `sweepPool` is a function; an object that is
-- changed in place is returned with what the loop pushes.
pub mod Phases
pub mod Bounds
pub mod Fate
use dsh_link.Common.{ℕ, suc, ◌+◌, ◌*◌, ◌-◌, Bool, true, false, not, ◌&&◌, ◌||◌, Option, none, some}
use dsh_link.Common.{List, [], ◌∷◌, ◌++◌, Text, leb, ltb, if◌then◌else◌, is_empty, length}
use dsh_link.Common.Int.{ℤ, pos, gap_lt, leb_ℤ, eqb_ℤ}
use dsh_link.Common.Dict.{Dict, erase}
use dsh_link.Common.Sort.{sort_dict}
use dsh_link.Common.Values.{Value, num, bool, is_true}
use dsh_link.Bridge.Topics.Readers.{as_text, as_number, as_count}
use dsh_link.Bridge.Topics.Policy.{TopicPolicy, RawPolicy, normalize_topic_policy}
use dsh_link.Bridge.Topics.Pool.{Entry, Pool}
use dsh_link.Bridge.Topics.Plan.{Archived, Reason, archive_idle, pool_cap}

-- `entry.lastUsedAt === at`
abbrev pub is_now : Value → ℤ → Bool
is_now (num n) at = eqb_ℤ n at
is_now _ at = false

-- The conditions of the first loop, all passed.
unfoldable pub is_quiet : ℕ → ℤ → Option Entry → Bool
is_quiet idle at none = false
is_quiet idle at (some e) =
    not (is_true e.archived || is_now e.last_used_at at)
    && not (is_empty (as_text e.session_id))
    && not (gap_lt at (as_number e.last_used_at (pos 0)) idle)

abbrev pub retire : ℤ → Option Entry → Option Entry
retire at none = none
retire at (some e) = some (record e { archived = bool true; archived_at = num at })

abbrev pub session_of : Option Entry → Text
session_of none = []
session_of (some e) = as_text e.session_id

-- 1) Archive what went quiet.
unfoldable pub archive_quiet : ℕ → ℤ → Pool → Pool × List Archived
unfolding is_quiet
archive_quiet idle at [] = ([], [])
archive_quiet idle at ((key, slot) ∷ store) =
    let (store', out) = archive_quiet idle at store in
    if is_quiet idle at slot
    then (
      (key, retire at slot) ∷ store',
      record { key = key; session_id = session_of slot; reason = archive_idle } ∷ out,
    )
    else ((key, slot) ∷ store', out)

-- The conditions of the second loop, all passed.
unfoldable pub is_forgotten : ℕ → ℤ → Option Entry → Bool
is_forgotten forgotten at none = false
is_forgotten forgotten at (some e) =
    is_true e.archived
    && not (gap_lt at (as_number e.archived_at (as_number e.last_used_at at)) forgotten)

-- 2) Forget archived topics.
unfoldable pub forget_old : ℕ → ℤ → Pool → Pool × List Text
unfolding is_forgotten
forget_old forgotten at [] = ([], [])
forget_old forgotten at ((key, slot) ∷ store) =
    let (store', drop) = forget_old forgotten at store in
    if is_forgotten forgotten at slot then (store', key ∷ drop) else ((key, slot) ∷ store', drop)

-- Is the slot left alone by the third loop?
abbrev pub is_stuck : ℤ → Option Entry → Bool
is_stuck at none = true
is_stuck at (some e) = is_now e.last_used_at at

abbrev pub last_used : Option Entry → ℤ
last_used none = pos 0
last_used (some e) = as_number e.last_used_at (pos 0)

-- `.filter(({ entry }) => entry && entry.lastUsedAt !== at)`
unfoldable pub evictable : ℤ → Pool → Pool
evictable at [] = []
evictable at ((key, slot) ∷ store) =
    let rest = evictable at store in if is_stuck at slot then rest else (key, slot) ∷ rest

abbrev pub oldest_first : Option Entry → Option Entry → Bool
oldest_first a b = leb_ℤ (last_used a) (last_used b)

-- `.sort(...)`: oldest first.
unfoldable pub sort_oldest : Pool → Pool
unfolding sort_dict
sort_oldest store = sort_dict oldest_first store

-- What the third loop holds: the store, the archive list and the drop list.
pub record Swept : Type 0 where
  pub pool : Pool
  pub archive : List Archived
  pub drop : List Text

abbrev cap_record : Text → Option Entry → List Archived
cap_record key slot =
    if is_empty (session_of slot)
    then []
    else record { key = key; session_id = session_of slot; reason = pool_cap } ∷ []

abbrev pub evict : Text → Option Entry → Swept → Swept
evict key slot s = record {
  pool = erase key s.pool;
  archive = s.archive ++ cap_record key slot;
  drop = s.drop ++ key ∷ [];
}

-- 3) Cap the pool.
unfoldable pub cap_loop : ℕ → Pool → ℕ → Swept → Swept
cap_loop most [] size s = s
cap_loop most ((key, slot) ∷ oldest) size s =
    let rest = cap_loop most oldest (size - 1) (evict key slot s) in
    if leb size most then s else rest

unfoldable pub cap_pool : ℕ → ℤ → Swept → Swept
unfolding cap_loop sort_oldest evictable
cap_pool most at s =
    if ltb most (length s.pool)
    then cap_loop most (sort_oldest (evictable at s.pool)) (length s.pool) s
    else s

-- `sweepPool` on an object.
unfoldable pub sweep_pool : ℤ → Pool → Value → Option RawPolicy → Swept
sweep_pool clock store now policy =
    let settings = normalize_topic_policy policy in
    let at = as_number now clock in
    let idle = settings.archive_idle_seconds * 1000 in
    let (store1, archive) = archive_quiet idle at store in
    let (store2, drop) = forget_old (idle * 2) at store1 in
    cap_pool settings.max_pool_size at (record { pool = store2; archive = archive; drop = drop })

pub record Summary : Type 0 where
  pub session_id : Text
  pub wakes : ℕ
  pub created_at : ℤ
  pub last_used_at : ℤ
  pub archived : Bool
  pub label : Text

-- `poolSummary`
unfoldable pub pool_summary : Pool → Dict Summary
pool_summary [] = []
pool_summary ((key, none) ∷ store) = pool_summary store
pool_summary ((key, some e) ∷ store) =
    (
      key,
      record {
        session_id = as_text e.session_id;
        wakes = as_count e.wakes;
        created_at = as_number e.created_at (pos 0);
        last_used_at = as_number e.last_used_at (pos 0);
        archived = is_true e.archived;
        label = as_text e.label;
      },
    )
    ∷ pool_summary store
