-- ===== src/Bridge/Topics/Budget.antt =====
-- topics.js: `recordUse` and `planSession` together bound how often one session is woken.
use dsh_link.Common.{ℕ, ◌+◌, ◌*◌, ◌≤◌, ◌<◌, ◌≡◌, ◌≢◌, refl, sym, ap, ◌∙◌, true, Text}
use dsh_link.Common.{Option, some, List, [], ◌∷◌, All, arith, text_eq}
use mathlib.Core.Option.{some-injective}
use dsh_link.Common.Int.{ℤ, GapLe}
use dsh_link.Common.Dict.{insert, lookup-insert}
use dsh_link.Common.Values.{Value, num}
use dsh_link.Bridge.Topics.Readers.{as_text, as_number, as_count}
use dsh_link.Bridge.Topics.Policy.{RawPolicy, normalize_topic_policy}
use dsh_link.Bridge.Topics.Pool.{Entry, Pool, entry_at, Use, used_entry, record_use, message_count}
use dsh_link.Bridge.Topics.Plan.{Probe, keep, session_exists, plan_session}
use dsh_link.Bridge.Topics.Plan.Laws.{plan_session-keep_iff, plan_session-keep}

-- The pool after `recordUse` on an object, and after one call for each of a list of uses.
abbrev pub used : ℤ → Value → Pool → Use → Pool
used clock key pool u =
    insert (as_text key) (some (used_entry clock (entry_at pool (as_text key)) u)) pool

abbrev pub use_all : ℤ → Value → Pool → List Use → Pool
use_all clock key pool [] = pool
use_all clock key pool (u ∷ us) = use_all clock key (used clock key pool u) us

abbrev pub total_messages : List Use → ℕ
total_messages [] = 0
total_messages (u ∷ us) = message_count u.messages + total_messages us

pub record_use-used :
    (clock : ℤ) (pool : Pool) (key : Value) (u : Use)
    → (record_use clock (some pool) key u).0 ≡ some (used clock key pool u)
unfolding record_use
record_use-used clock pool key u = refl

pub entry_at-used :
    (clock : ℤ) (key : Value) (pool : Pool) (u : Use)
    → entry_at (used clock key pool u) (as_text key)
      ≡ some (used_entry clock (entry_at pool (as_text key)) u)
unfolding entry_at
entry_at-used clock key pool u = rw (lookup-insert (as_text key) (as_text key)) (ground arith)

used_entry_goes_on :
    (clock : ℤ) (id : Text) (e : Entry) (u : Use)
    → as_text e.session_id ≡ id
    → as_text u.session_id ≡ id
    → (as_text (used_entry clock (some e) u).session_id ≡ id)
      × (as_count (used_entry clock (some e) u).wakes ≡ as_count e.wakes + message_count u.messages)
unfolding used_entry as_text
used_entry_goes_on clock id e u p q = ground arith

-- While the same session is recorded, every message counts.
use_all_counts :
    (clock : ℤ) (key : Value) (id : Text) (us : List Use) (pool : Pool) (e : Entry)
    → entry_at pool (as_text key) ≡ some e
    → as_text e.session_id ≡ id
    → All (λ u. as_text u.session_id ≡ id) us
    → (last : Entry) × (entry_at (use_all clock key pool us) (as_text key) ≡ some last)
      × (as_count last.wakes ≡ as_count e.wakes + total_messages us)
use_all_counts clock key id [] pool e h p _ = (e, h, omega arith)
use_all_counts clock key id (u ∷ us) pool e h p (same, rest) =
    let facts = used_entry_goes_on clock id e u p same in
    let found : entry_at (used clock key pool u) (as_text key)
        ≡ some (used_entry clock (some e) u) =
      entry_at-used clock key pool u ∙ rw h in
    let (last, at_last, count) =
      use_all_counts clock key id us (used clock key pool u) _ found facts.0 rest in
    (last, at_last, omega (arith, facts.1, count))

-- A session that the pool names under a key, and that is recorded again and again by `recordUse`,
-- is not kept by any later `planSession` for that key once its wakes, those before and the messages
-- of all the uses, have reached `maxSessionWakes`.
pub plan_session-use_all :
    (clock later : ℤ) (key now : Value) (policy : Option RawPolicy) (exists : Option (Text → Probe))
    (id : Text) (us : List Use) (pool : Pool) (e : Entry)
    → entry_at pool (as_text key) ≡ some e
    → as_text e.session_id ≡ id
    → All (λ u. as_text u.session_id ≡ id) us
    → (normalize_topic_policy policy).max_session_wakes ≤ as_count e.wakes + total_messages us
    → (plan_session later (some (use_all clock key pool us)) key now policy exists).action ≢ keep
plan_session-use_all clock later key now policy exists id us pool e h p same spent kept =
    let (last, at_last, count) = use_all_counts clock key id us pool e h p same in
    let (e', found, usable) =
      (plan_session-keep_iff later (some (use_all clock key pool us)) key now policy exists).0
        kept in
    let same_entry : last ≡ e' = some-injective last e' (sym at_last ∙ found) in
    let budget = usable.in_budget in
    absurd (omega (arith, count, ap (λ (x : Entry). as_count x.wakes) same_entry, budget))

-- A session that `recordUse` has just stored for a key is kept by `planSession` at the same time,
-- if its name is not empty, the probe does not deny it, and the wakes and the age that the entry
-- now has are within the policy; and the plan names that session.
pub plan_session-record_use :
    (clock later : ℤ) (key : Value) (policy : Option RawPolicy) (exists : Option (Text → Probe))
    (pool : Pool) (u : Use) (at : ℤ)
    → u.now ≡ num at
    → as_text u.session_id ≢ []
    → session_exists exists (as_text u.session_id) ≡ true
    → (let e = (record_use clock (some pool) key u).1 in
        (as_count e.wakes < (normalize_topic_policy policy).max_session_wakes)
        × GapLe at
            (as_number e.created_at at)
            ((normalize_topic_policy policy).max_session_age_seconds * 1000))
    → let p =
        plan_session later (record_use clock (some pool) key u).0 key (num at) policy exists in
      (p.action ≡ keep) × ((p.session_id ≡ some (as_text u.session_id)) × (p.archive ≡ []))
unfolding record_use used_entry as_text
plan_session-record_use clock later key policy exists pool u at now named live within =
    let pool' : Pool = used clock key pool u in
    let e : Entry = used_entry clock (entry_at pool (as_text key)) u in
    let found : entry_at pool' (as_text key) ≡ some e = entry_at-used clock key pool u in
    let kept : (plan_session later (some pool') key (num at) policy exists).action ≡ keep =
      (plan_session-keep_iff later (some pool') key (num at) policy exists).1 (
        e,
        found,
        record {
          not_archived = refl;
          named = named;
          live = live;
          awake = rw now (omega arith);
          in_budget = within.0;
          young = within.1;
        },
      ) in
    (kept, plan_session-keep later (some pool') key (num at) policy exists e found kept)
