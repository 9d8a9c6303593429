-- ===== src/Bridge/Routes/Sweeping.antt =====
-- routes.js: `sweepRoutes`, `forgetRoutesForSession` and `routesSummary`.
pub mod Laws
use dsh_link.Common.{ℕ, suc, ◌+◌, Bool, true, false, not, ◌&&◌, Option, none, some, List, [], ◌∷◌}
use dsh_link.Common.{Text, text_eq, ◌==◌, if◌then◌else◌, is_empty, trim, length}
use dsh_link.Common.Int.{ℤ, pos, leb_ℤ, ltb_ℤ}
use dsh_link.Common.Dict.{Dict}
use dsh_link.Common.Values.{Value}
use dsh_link.Bridge.Routes.{
  RoutePolicy, RawRoutes, normalize_route_policy, Route, Table, as_text, is_valid_entry, expired,
  last_at_of, owner, owner_of, includes, enforce_cap,
}

-- What the loop of `sweepRoutes` holds.
pub record Swept : Type 0 where
  pub table : Table
  pub expired_count : ℕ
  pub malformed : ℕ

abbrev pub is_live : RoutePolicy → ℤ → Option Route → Bool
is_live settings now r = is_valid_entry r && not (expired r settings now)

-- The loop of `sweepRoutes`.
unfoldable pub sweep_loop : RoutePolicy → ℤ → Table → Swept
sweep_loop settings now [] = record { table = []; expired_count = 0; malformed = 0 }
sweep_loop settings now ((key, r) ∷ table) =
    let rest = sweep_loop settings now table in
    if not (is_valid_entry r)
    then record rest { malformed = rest.malformed + 1 }
    else if expired r settings now
    then record rest { expired_count = rest.expired_count + 1 }
    else record rest { table = (key, r) ∷ rest.table }

pub record Counts : Type 0 where
  pub expired : ℕ
  pub malformed : ℕ
  pub overflow : ℕ

-- `sweepRoutes`
unfoldable pub sweep_routes : Option Table → ℤ → Option RawRoutes → Option Table × Counts
sweep_routes none now policy = (none, record { expired = 0; malformed = 0; overflow = 0 })
sweep_routes (some table) now policy =
    let settings = normalize_route_policy policy in
    let swept = sweep_loop settings now table in
    let (table', drop) = enforce_cap swept.table settings in
    (
      some table',
      record { expired = swept.expired_count; malformed = swept.malformed; overflow = length drop },
    )

-- The loop of `forgetRoutesForSession`.
unfoldable pub forget_loop : Text → Table → Table × ℕ
forget_loop id [] = ([], 0)
forget_loop id ((key, r) ∷ table) =
    let (table', removed) = forget_loop id table in
    if owner_of r == id then (table', removed + 1) else ((key, r) ∷ table', removed)

-- `forgetRoutesForSession`
unfoldable pub forget_routes_for_session : Option Table → Value → Option Table × ℕ
forget_routes_for_session none session_id = (none, 0)
forget_routes_for_session (some table) session_id =
    let id = trim (as_text session_id) in
    let (table', removed) = forget_loop id table in
    if is_empty id then (some table, 0) else (some table', removed)

unfoldable pub live_routes : RoutePolicy → ℤ → Table → List Route
live_routes settings now [] = []
live_routes settings now ((key, none) ∷ table) = live_routes settings now table
live_routes settings now ((key, some r) ∷ table) =
    let rest = live_routes settings now table in
    if is_live settings now (some r) then r ∷ rest else rest

-- The first of the routes with the greatest `lastAt`, which a stable sort puts first.
unfoldable pub latest : List Route → Option Route
latest [] = none
latest (r ∷ rs) = elim (latest rs) [
  | none ↦ some r
  | some best ↦ if ltb_ℤ (last_at_of (some r)) (last_at_of (some best)) then some best else some r
]

-- The size of `new Set(...)` over the owners.
unfoldable pub distinct_owners : List Route → List Text → ℕ
distinct_owners [] seen = 0
distinct_owners (r ∷ rs) seen =
    let new = suc (distinct_owners rs (owner r ∷ seen)) in
    let old = distinct_owners rs seen in if includes seen (owner r) then old else new

pub record Last : Type 0 where
  pub thread : Text
  pub session_id : Text
  pub at : ℤ

abbrev summary_of_last : Option Route → Option Last
summary_of_last none = none
summary_of_last (some r) =
    some
      (record { thread = trim (as_text r.thread); session_id = owner r; at = last_at_of (some r) })

pub record RoutesSummary : Type 0 where
  pub enabled : Bool
  pub count : ℕ
  pub sessions : ℕ
  pub ttl_seconds : ℕ
  pub last : Option Last

-- `routesSummary`
unfoldable pub routes_summary : Table → ℤ → Option RawRoutes → RoutesSummary
unfolding live_routes latest distinct_owners
routes_summary table now policy =
    let settings = normalize_route_policy policy in
    let live = live_routes settings now table in
    record {
      enabled = settings.enabled;
      count = length live;
      sessions = distinct_owners live [];
      ttl_seconds = settings.ttl_seconds;
      last = summary_of_last (latest live);
    }
