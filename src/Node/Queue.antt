-- ===== src/Node/Queue.antt =====
-- src/capabilities.mjs: `createCommandQueue`. The directory of command files and the claim files
-- beside them are two dictionaries; a file that holds no command record is `none`. Times are
-- milliseconds. One call runs at a time. In the source `lock` makes this so for `enqueue` and `claim` of
-- one process only: that `complete`, `sweep` or another process runs between the reads and the writes of
-- a call is not modelled.
mod Records
pub mod Laws
pub mod Ended
pub mod Leases
mod Tests
pub mod Bounds
pub mod Results
pub mod Stats
pub mod Sweeping
pub mod Exclusive
pub mod Waiting
pub mod Lifecycle
use dsh_link.Common.{
  ℕ, zero, suc, ◌+◌, ◌*◌, ◌-◌, min, Bool, true, false, not, ◌&&◌, ◌||◌, Option, none, some, List,
  [], ◌∷◌, ◌++◌, Text,
}
use dsh_link.Common.{
  text_eq, ◌==◌, leb, ltb, if◌then◌else◌, length, take, or_default, is_some, trim, is_empty,
  is_digit, codes, eqb,
}
use dsh_link.Common.Dict.{Dict, lookup, insert, erase}
use dsh_link.Common.Sort.{sort_dict}
use dsh_link.Common.Values.{Value, str}
use dsh_link.Node.Readers.{to_int}
use dsh_link.Node.Capabilities.{
  Policy, RawConfig, normalize_capability_config, raw_of, Verdict, allowed, authorize_call,
  status_for_reason,
}
unfoldable pub use Records.*

abbrev pub is_allowed : Verdict → Bool
is_allowed allowed = true
is_allowed _ = false

-- `enqueue`; `id` is what `newId('cmd')` gives.
unfoldable pub enqueue : Queue → Text → ℕ → Text → Value → Queue × Result Command
enqueue q id now peer method =
    let verdict = authorize_call (raw_of q.policy) peer method in
    let active = count_active (records q.files) in
    let c = new_command id method now in
    if not (is_allowed verdict)
    then (q, err (refused (status_for_reason verdict) verdict))
    else if leb q.policy.max_pending active
    then (q, err (too_many active))
    else (record q { files = insert id (some c) q.files }, ok c)

-- Is the lease older than `claimStaleSeconds`?
abbrev pub is_stale : Queue → ℕ → Option Claim → Bool
is_stale q now none = false
is_stale q now (some l) =
    ltb 0 q.policy.claim_stale_seconds && leb (l.at + q.policy.claim_stale_seconds * 1000) now

abbrev pub is_pending : Status → Bool
is_pending pending = true
is_pending _ = false

abbrev pub taken : Text → ℕ → Command → Command
taken owner now c = record c {
  status = claimed;
  claimed_by = some owner;
  claimed_at = some now;
  attempts = c.attempts + 1;
}

-- One round of the loop of `claim`, on one listed record: the command that is taken, if one is.
unfoldable pub claim_one : ℕ → Text → Command → Queue → Queue × Option Command
unfolding command_at
claim_one now owner c q =
    let lease = lookup c.id q.claims in
    let stale = is_stale q now lease in
    let claims = if stale then erase c.id q.claims else q.claims in
    let locked = insert c.id (record { owner = owner; at = now }) claims in
    let fresh = or_default (command_at q c.id) c in
    let updated = taken owner now fresh in
    if is_terminal c.status
    then (q, none)
    else if not (is_pending c.status) && (is_some lease && not stale)
    then (q, none)
    else if is_some (lookup c.id claims)
    then (record q { claims = claims }, none)
    else if is_terminal fresh.status
    then (record q { claims = erase c.id locked }, none)
    else (
      record q { claims = locked; files = insert fresh.id (some updated) q.files },
      some updated,
    )

abbrev pub push : Option Command → Queue × List Command → Queue × List Command
push none r = r
push (some c) (q, out) = (q, c ∷ out)

-- The loop of `claim`; `room` is how many commands may still be taken.
unfoldable pub claim_loop : ℕ → Text → ℕ → Dict Command → Queue → Queue × List Command
unfolding claim_one
claim_loop now owner room [] q = (q, [])
claim_loop now owner zero ((name, c) ∷ listed) q = (q, [])
claim_loop now owner (suc room) ((name, c) ∷ listed) q =
    let (q', got) = claim_one now owner c q in
    push got (claim_loop now owner (if is_some got then room else suc room) listed q')

abbrev pub or_bridge : Text → Text
or_bridge [] = codes "bridge"
or_bridge (c ∷ s) = c ∷ s

-- `complete`, with a result or an error text.
pub data Outcome : Type 0 where
  success : List ℕ → Outcome
  failure : Text → Outcome

abbrev pub finished : Queue → Outcome → ℕ → Command → Command
finished q (success json) now c = record c {
  status = done;
  finished_at = some now;
  result = some (clamp_result json q.policy.max_result_bytes);
  error = none;
}
finished q (failure message) now c = record c {
  status = failed;
  finished_at = some now;
  result = none;
  error = some message;
}

abbrev pub finish : Queue → Text → Outcome → ℕ → Option Command → Queue × Result Command
finish q name outcome now none = (q, err unknown_command)
finish q name outcome now (some c) =
    let next = finished q outcome now c in
    if is_terminal c.status then (q, ok c) else (
      record q { files = insert name (some next) q.files; claims = erase name q.claims },
      ok next,
    )

unfoldable pub complete : Queue → Value → Outcome → ℕ → Queue × Result Command
unfolding command_at clamp_result
complete q id outcome now = elim (safe_id id) [
  | none ↦ (q, err bad_id)
  | some name ↦ finish q name outcome now (command_at q name)
]

-- `ageMs < ttlMs`, where no creation time is an age without bound.
abbrev pub is_young : Queue → ℕ → Option ℕ → Bool
is_young q now none = false
is_young q now (some at) = ltb now (at + q.policy.command_ttl_seconds * 1000)

abbrev pub given_up : ℕ → Command → Command
given_up now c = record c {
  status = expired;
  error = some (codes "expired");
  finished_at = some now;
}

-- The loop of `sweep`, over the listed records.
unfoldable pub sweep_loop : ℕ → Dict Command → Queue → Queue × ℕ
sweep_loop now [] q = (q, 0)
sweep_loop now ((name, c) ∷ listed) q =
    let keep = sweep_loop now listed q in
    let (q', n) = sweep_loop now listed (record q {
      files = insert c.id (some (given_up now c)) q.files;
      claims = erase c.id q.claims;
    }) in
    if is_terminal c.status || is_young q now c.created_at then keep else (q', n + 1)

-- `setConfig`
unfoldable pub set_config : Queue → RawConfig → Queue
set_config q raw = record q { policy = normalize_capability_config raw }

-- What `listRecords` needs of the platform: `a.localeCompare(b) <= 0` on ids.
module _ (id_le : Text → Text → Bool) where
  abbrev pub by_id : Command → Command → Bool
  by_id a b = id_le a.id b.id

  -- `listRecords`: oldest first.
  unfoldable pub list_records : Queue → Dict Command
  list_records q = sort_dict by_id (records q.files)

  -- `claim`
  unfoldable pub claim : Queue → Value → Text → ℕ → Queue × List Command
  unfolding claim_loop list_records
  claim q limit bridge now =
      claim_loop now (or_bridge bridge) (to_int limit 5 0 1000) (list_records q) q

  -- `sweep`
  unfoldable pub sweep : Queue → ℕ → Queue × ℕ
  unfolding sweep_loop list_records
  sweep q now = sweep_loop now (list_records q) q
