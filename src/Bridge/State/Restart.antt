-- ===== src/Bridge/State/Restart.antt =====
-- index.js: what a restart changes and what it does not.
use dsh_link.Common.{
  ℕ, ◌+◌, ◌*◌, ◌<◌, ◌≡◌, ◌≢◌, ◌∙◌, ap, refl, subst, Bool, true, false, Option, none, some, List,
}
use dsh_link.Common.{[], ◌∷◌, Text, codes, text_eq, text_dec, ◌==◌, if◌then◌else◌, arith, is_empty}
use dsh_link.Common.{trim, Option-cases, inl, inr, or_default}
use dsh_link.Common.Int.{gap_gt, ℤ, pos}
use dsh_link.Common.Dict.{lookup, NodupKeys}
use dsh_link.Common.Values.{Value, num, to_number}
use dsh_link.Bridge.Topics.Readers.{as_number, as_text, as_count}
use dsh_link.Bridge.Topics.Policy.{RawPolicy, TopicPolicy, normalize_topic_policy}
use dsh_link.Bridge.Topics.Pool.{Entry, Pool, entry_at}
use dsh_link.Bridge.Topics.Plan.{Plan, Action, Reason, Archived, Probe, plan_entry, plan_session}
use dsh_link.Bridge.Topics.Sweep.{pool_summary}
use dsh_link.Bridge.Routes.{
  RawRoutes, normalize_route_policy, Inbound, route_at, route_for, route_for_reply, route_by_reply,
  answers,
}
use dsh_link.Bridge.Routes.Sweeping.{RoutesSummary, routes_summary}
use dsh_link.Bridge.State.{
  Runtime, save, load, fresh_runtime, entry_of, restored_pool, restored_routes,
}

-- The times of an entry are numbers, as `recordUse` writes them.
abbrev pub IsTimed : Entry → Type 0
IsTimed e = (c : ℤ) × (l : ℤ) × (e.created_at ≡ num c) × (e.last_used_at ≡ num l)

abbrev pub AllTimed : Pool → Type 0
AllTimed [] = Unit
AllTimed ((key, none) ∷ pool) = AllTimed pool
AllTimed ((key, some e) ∷ pool) = IsTimed e × AllTimed pool

-- What a plan decides; the entry that it returns is left out.
pub record Decision : Type 0 where
  pub action : Action
  pub session_id : Option Text
  pub reason : Reason
  pub archive : List Archived

abbrev pub decision : Plan → Decision
decision p = record {
  action = p.action;
  session_id = p.session_id;
  reason = p.reason;
  archive = p.archive;
}

abbrev pub restart_pool : Pool → Pool
restart_pool pool = restored_pool (pool_summary pool)

abbrev back : Entry → Entry
back e = entry_of (record {
  session_id = as_text e.session_id;
  wakes = as_count e.wakes;
  created_at = dsh_link.Bridge.Topics.Readers.as_number e.created_at (pos 0);
  last_used_at = dsh_link.Bridge.Topics.Readers.as_number e.last_used_at (pos 0);
  archived = dsh_link.Common.Values.is_true e.archived;
  label = as_text e.label;
})

abbrev map_back : Option Entry → Option Entry
map_back none = none
map_back (some e) = some (back e)

lookup-restart_pool_absent :
    (k : Text) (pool : Pool) → lookup k pool ≡ none → lookup k (restart_pool pool) ≡ none
unfolding restored_pool pool_summary lookup
lookup-restart_pool_absent k [] h = refl
lookup-restart_pool_absent k ((j, none) ∷ pool) h = lookup-restart_pool_absent k pool (ground arith)
lookup-restart_pool_absent k ((j, some e) ∷ pool) h =
    ground (arith, lookup-restart_pool_absent k pool)

entry_at-restart_pool :
    (k : Text) (pool : Pool)
    → NodupKeys pool
    → entry_at (restart_pool pool) k ≡ map_back (entry_at pool k)
unfolding restored_pool pool_summary lookup entry_at
entry_at-restart_pool k [] u = refl
entry_at-restart_pool k ((j, none) ∷ pool) (fresh, u) =
    ground (arith, entry_at-restart_pool k pool u, lookup-restart_pool_absent j pool fresh)
entry_at-restart_pool k ((j, some e) ∷ pool) (fresh, u) =
    ground (arith, entry_at-restart_pool k pool u)

entry_at-IsTimed :
    (k : Text) (pool : Pool) (e : Entry) → AllTimed pool → entry_at pool k ≡ some e → IsTimed e
unfolding entry_at lookup
entry_at-IsTimed k [] e t h = cc
entry_at-IsTimed k ((j, none) ∷ pool) e t h = entry_at-IsTimed k pool e t (ground arith)
entry_at-IsTimed k ((j, some f) ∷ pool) e (t, ts) h = elim (text_dec j k) [
  | yes p ↦ subst IsTimed {x = f} {y = e} (ground arith) t
  | no p ↦ entry_at-IsTimed k pool e ts (ground arith)
]

-- What is read of an entry is read of what a restart leaves of it.
plan_entry-back :
    (settings : TopicPolicy) (at : ℤ) (key : Text) (exists : Option (Text → Probe)) (e : Entry)
    → IsTimed e
    → decision (plan_entry settings at key exists (back e))
      ≡ decision (plan_entry settings at key exists e)
unfolding plan_entry as_text
plan_entry-back settings at key exists e (c, l, p, q) = rw (p, q) (ground arith)

-- A restart does not change what is decided for a topic: over the pool that is read back from the
-- state file `planSession` has the same action, session, reason and archive list as over the pool
-- that was saved, where the pool's keys are distinct and its times are numbers.
pub plan_session-restart_pool :
    (clock : ℤ) (pool : Pool) (key now : Value) (policy : Option RawPolicy)
    (exists : Option (Text → Probe))
    → NodupKeys pool
    → AllTimed pool
    → decision (plan_session clock (some (restart_pool pool)) key now policy exists)
      ≡ decision (plan_session clock (some pool) key now policy exists)
unfolding plan_session
plan_session-restart_pool clock pool key now policy exists u t =
    elim (Option-cases (entry_at pool (as_text key))) [
      | inl absent ↦ rw (entry_at-restart_pool (as_text key) pool u, absent, plan_session)
      | inr (e, found) ↦
          rw (entry_at-restart_pool (as_text key) pool u, found, plan_session)
            (plan_entry-back (normalize_topic_policy policy) (as_number now clock) (as_text key)
              exists e (entry_at-IsTimed (as_text key) pool e t found))
    ]

restored_routes_dead :
    (s : RoutesSummary) (m : Inbound) (now : ℤ) (policy : Option RawRoutes)
    → gap_gt now (pos 0) ((normalize_route_policy policy).ttl_seconds * 1000) ≡ true
    → (route_for (some (restored_routes s)) (some m) now policy).1 ≡ none
unfolding route_for route_for_reply route_by_reply answers restored_routes route_at lookup to_number
restored_routes_dead s m now policy h = elim (Option-cases s.last) [
  | inl e ↦ rw e (ground arith)
  | inr (l, e) ↦ rw e (ground arith)
]

-- A restart loses every route: over the table that is read back from the state file no message is
-- routed to any session, whatever routes the runtime had, once the clock shows a time later than
-- the time to live (any present time does).
pub route_for-load-save :
    (r : Runtime) (saved_at now : ℤ) (policy : Option RawRoutes) (m : Inbound)
    → gap_gt now (pos 0) ((normalize_route_policy policy).ttl_seconds * 1000) ≡ true
    → (route_for (some (load (save saved_at policy r) fresh_runtime).routes) (some m) now policy).1
      ≡ none
unfolding load save
route_for-load-save r saved_at now policy m h =
    restored_routes_dead (routes_summary r.routes saved_at policy) m now policy h
