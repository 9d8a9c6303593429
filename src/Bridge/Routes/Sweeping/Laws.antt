-- ===== src/Bridge/Routes/Sweeping/Laws.antt =====
-- routes.js: what a sweep and the loss of a session leave in the table.
use dsh_link.Common.{◌+◌, ◌≡◌, ◌≢◌, ◌⊎◌, inl, inr, refl, false}
use dsh_link.Common.{Option, none, some, [], ◌∷◌, Text, text_eq, ◌==◌, if◌then◌else◌, arith, length}
use dsh_link.Common.{trim, or_default, Bool-cases, ◌≤◌}
use dsh_link.Common.Int.{ℤ}
use dsh_link.Common.Dict.{lookup, NodupKeys}
use dsh_link.Common.Values.{Value}
use dsh_link.Bridge.Routes.{
  RoutePolicy, RawRoutes, normalize_route_policy, Route, Table, owner, owner_of, as_text,
  enforce_cap, Inbound, Hit, route_for,
}
use dsh_link.Bridge.Routes.Laws.{length-enforce_cap, is_empty_of_ne}
use dsh_link.Bridge.Routes.Sweeping.{
  is_live, sweep_loop, sweep_routes, forget_loop, forget_routes_for_session,
}
use dsh_link.Bridge.Routes.Matching.{Listed, route_for_sound}

-- What a sweep leaves under a key.
abbrev pub keep_live : RoutePolicy → ℤ → Option (Option Route) → Option (Option Route)
keep_live settings now none = none
keep_live settings now (some r) = if is_live settings now r then some r else none

Listed-split :
    (k : Text) (r : Route) (j : Text) (s : Option Route) (table : Table)
    → Listed k r ((j, s) ∷ table)
    → ((j ≡ k) × (s ≡ some r)) ⊎ Listed k r table
Listed-split k r j s table h = h

other_owner :
    (o : Option Route) (r : Route) (id : Text)
    → (owner_of o == id) ≡ false
    → o ≡ some r
    → owner r ≢ id
other_owner o r id e f g = ground arith

-- No route of the session is left.
forget_loop_owner :
    (id k : Text) (r : Route) (table : Table) → Listed k r (forget_loop id table).0 → owner r ≢ id
unfolding forget_loop
forget_loop_owner id k r [] h = absurd h
forget_loop_owner id k r ((j, s) ∷ table) h = elim (Bool-cases (owner_of s == id)) [
  | inl e ↦ forget_loop_owner id k r table (rw e at h)
  | inr e ↦ elim (Listed-split k r j s (forget_loop id table).0 (rw e at h)) [
    | inl here ↦ other_owner s r id e here.1
    | inr later ↦ forget_loop_owner id k r table later
  ]
]

-- After the routes of a session are forgotten, no message is routed to it.
pub route_for-forget_routes :
    (table : Table) (session_id : Value) (m : Inbound) (now : ℤ) (policy : Option RawRoutes)
    (hit : Hit)
    → trim (as_text session_id) ≢ []
    → (route_for (forget_routes_for_session (some table) session_id).0 (some m) now policy).1
      ≡ some hit
    → hit.session_id ≢ trim (as_text session_id)
unfolding forget_routes_for_session
route_for-forget_routes table session_id m now policy hit s h e =
    let id = trim (as_text session_id) in
    let source =
      route_for_sound (forget_loop id table).0 m now policy hit (rw (is_empty_of_ne id s) at h) in
    forget_loop_owner id source.key source.route table source.listed (ground arith)

sweep_loop_counts :
    (settings : RoutePolicy) (now : ℤ) (table : Table)
    → let s = sweep_loop settings now table in
      length s.table + s.expired_count + s.malformed ≡ length table
unfolding sweep_loop
sweep_loop_counts settings now [] = refl
sweep_loop_counts settings now ((j, r) ∷ table) =
    ground (arith, sweep_loop_counts settings now table)

lookup-sweep_loop :
    (settings : RoutePolicy) (now : ℤ) (k : Text) (table : Table)
    → NodupKeys table
    → lookup k (sweep_loop settings now table).table ≡ keep_live settings now (lookup k table)
unfolding sweep_loop lookup
lookup-sweep_loop settings now k [] _ = refl
lookup-sweep_loop settings now k ((j, r) ∷ table) (fresh, u) =
    ground (arith, lookup-sweep_loop settings now k table u)

sweep_loop-NodupKeys :
    (settings : RoutePolicy) (now : ℤ) (table : Table)
    → NodupKeys table
    → NodupKeys (sweep_loop settings now table).table
unfolding sweep_loop
sweep_loop-NodupKeys settings now [] _ = tt
sweep_loop-NodupKeys settings now ((j, r) ∷ table) (fresh, u) =
    ground
      (arith, sweep_loop-NodupKeys settings now table u, lookup-sweep_loop settings now j table u)

-- A sweep of a table with distinct keys accounts for every route: those that are left, those that
-- had expired, those that were malformed and those over the cap add up to the routes before. And at
-- most `max` are left.
pub sweep_routes_counts :
    (table : Table) (now : ℤ) (policy : Option RawRoutes)
    → NodupKeys table
    → let c = (sweep_routes (some table) now policy).1 in
      let left = or_default (sweep_routes (some table) now policy).0 [] in
      (length left + c.expired + c.malformed + c.overflow ≡ length table)
      × (length left ≤ (normalize_route_policy policy).max)
unfolding sweep_routes
sweep_routes_counts table now policy u =
    let settings = normalize_route_policy policy in
    let bound =
      length-enforce_cap (sweep_loop settings now table).table settings
        (sweep_loop-NodupKeys settings now table u) in
    omega (arith, sweep_loop_counts settings now table, bound.0, bound.1)

-- A sweep of a table with distinct keys leaves every live route where it was, unless more than
-- `max` routes are live, and leaves no other route.
pub lookup-sweep_routes :
    (table : Table) (now : ℤ) (policy : Option RawRoutes) (k : Text)
    → NodupKeys table
    → length (sweep_loop (normalize_route_policy policy) now table).table
      ≤ (normalize_route_policy policy).max
    → lookup k (or_default (sweep_routes (some table) now policy).0 [])
      ≡ keep_live (normalize_route_policy policy) now (lookup k table)
unfolding sweep_routes enforce_cap
lookup-sweep_routes table now policy k u h =
    ground (arith, lookup-sweep_loop (normalize_route_policy policy) now k table u)
