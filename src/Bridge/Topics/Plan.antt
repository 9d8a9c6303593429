-- ===== src/Bridge/Topics/Plan.antt =====
-- topics.js: `planSession`.
pub mod Laws
use dsh_link.Common.{ℕ, ◌*◌, Bool, true, false, not, ◌&&◌, ◌||◌, Option, none, some, List, [], ◌∷◌}
use dsh_link.Common.{Text, leb, if◌then◌else◌, is_empty, or_default}
use dsh_link.Common.Int.{ℤ, gap_gt}
use dsh_link.Common.Values.{Value, is_false, is_true}
use dsh_link.Bridge.Topics.Readers.{as_text, as_number, as_count}
use dsh_link.Bridge.Topics.Policy.{TopicPolicy, RawPolicy, normalize_topic_policy}
use dsh_link.Bridge.Topics.Pool.{Entry, Pool, entry_at}

pub data Reason : Type 0 where
  new_topic archived missing idle_reset wake_budget session_age reuse : Reason
  archive_idle pool_cap : Reason

pub data Action : Type 0 where
  create keep : Action

-- The archive record for one retired session.
pub record Archived : Type 0 where
  pub key : Text
  pub session_id : Text
  pub reason : Reason

pub record Plan : Type 0 where
  pub action : Action
  pub session_id : Option Text
  pub reason : Reason
  pub archive : List Archived
  pub entry : Option Entry

-- What the existence probe did.
pub data Probe : Type 0 where
  answered : Value → Probe
  threw : Probe

-- `sessionExists`; `none` is a probe that is no function.
unfoldable pub session_exists : Option (Text → Probe) → Text → Bool
session_exists none id = true
session_exists (some exists) id = elim (exists id) [ answered v ↦ not (is_false v) | threw ↦ true ]

-- `at - since > limit * 1000`
abbrev passed : ℤ → ℤ → ℕ → Bool
passed at since seconds = gap_gt at since (seconds * 1000)

abbrev pub start_over : Reason → Option Entry → Plan
start_over reason entry = record {
  action = create;
  session_id = none;
  reason = reason;
  archive = [];
  entry = entry;
}

abbrev pub rotate : Text → Text → Reason → Entry → Plan
rotate key id reason entry = record {
  action = create;
  session_id = none;
  reason = reason;
  archive = record { key = key; session_id = id; reason = reason } ∷ [];
  entry = some entry;
}

abbrev pub keep_session : Text → Entry → Plan
keep_session id entry = record {
  action = keep;
  session_id = some id;
  reason = reuse;
  archive = [];
  entry = some entry;
}

-- The checks on an entry that is there, in their order.
unfoldable pub plan_entry : TopicPolicy → ℤ → Text → Option (Text → Probe) → Entry → Plan
plan_entry settings at key exists entry =
    let id = as_text entry.session_id in
    if is_true entry.archived
    then start_over archived (some entry)
    else if is_empty id || not (session_exists exists id)
    then start_over missing (some entry)
    else if passed at (as_number entry.last_used_at at) settings.topic_idle_reset_seconds
    then rotate key id idle_reset entry
    else if leb settings.max_session_wakes (as_count entry.wakes)
    then rotate key id wake_budget entry
    else if passed at (as_number entry.created_at at) settings.max_session_age_seconds
    then rotate key id session_age entry
    else keep_session id entry

-- `planSession`. `clock` is `Date.now()`; a pool that is no object counts as empty.
unfoldable pub plan_session :
    ℤ → Option Pool → Value → Value → Option RawPolicy → Option (Text → Probe) → Plan
unfolding plan_entry entry_at
plan_session clock pool key now policy exists = elim (entry_at (or_default pool []) (as_text key)) [
  | none ↦ start_over new_topic none
  | some entry ↦
      plan_entry (normalize_topic_policy policy) (as_number now clock) (as_text key) exists entry
]
