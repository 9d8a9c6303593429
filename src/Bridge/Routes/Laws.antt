-- ===== src/Bridge/Routes/Laws.antt =====
-- routes.js: what `registerRoute` remembers is what `routeFor` answers with.
use dsh_link.Common.{ℕ, suc, ◌+◌, ◌*◌, ◌-◌, ◌≤◌, ◌≡◌, ◌≢◌, ◌∙◌, ap, refl, true, false}
use dsh_link.Common.{Option, none, some, [], ◌∷◌, Text, text_eq, arith}
use dsh_link.Common.{trim, length, is_empty, or_default, min}
use dsh_link.Common.Trim.{trim_idempotent}
use dsh_link.Common.Int.{ℤ, GapLe}
use dsh_link.Common.Dict.{
  insert, erase, NodupKeys, lookup-insert, insert-NodupKeys, erase-NodupKeys, length-insert_any,
  length-erase, Covers, Covers-erase, Covers-head,
}
use dsh_link.Common.Sort.{sort_dict, lookup-sort_dict, sort_dict-NodupKeys, length-sort_dict}
use dsh_link.Common.Values.{Value, to_number}
use dsh_link.Bridge.Routes.{
  RoutePolicy, RawRoutes, normalize_route_policy, Route, Table, route_at, owner, as_text,
  last_at_of, oldest_first, drop_first, enforce_cap, registered, register_route, Inbound, by_thread,
  route_for,
}

length-drop_first :
    (n : ℕ) (ordered table : Table)
    → NodupKeys ordered
    → NodupKeys table
    → Covers table ordered
    → n ≤ length ordered
    → (length (drop_first n ordered table).0 + n ≡ length table)
      × (length (drop_first n ordered table).1 ≡ n)
unfolding drop_first
length-drop_first n [] table _ _ _ h = omega arith
length-drop_first ℕ.zero ((key, r) ∷ ordered) table _ _ _ h = omega arith
length-drop_first (suc n) ((key, r) ∷ ordered) table (fresh, u) v c h =
    let (left, dropped) =
      length-drop_first n ordered (erase key table) u (erase-NodupKeys key table v)
        (Covers-erase key r table ordered fresh c) (omega arith) in
    omega (arith, left, dropped, length-erase key table v (Covers-head key r table ordered c))

Covers-sort : (table : Table) → NodupKeys table → Covers table (sort_dict oldest_first table)
Covers-sort table u k h = rw (lookup-sort_dict oldest_first k table u, h)

-- Enforcing the cap keeps at most `max` routes, and drops no more than it must.
pub length-enforce_cap :
    (table : Table) (settings : RoutePolicy)
    → NodupKeys table
    → (length (enforce_cap table settings).0 ≡ min settings.max (length table))
      × (length (enforce_cap table settings).0 + length (enforce_cap table settings).1
          ≡ length table)
unfolding enforce_cap
length-enforce_cap table settings u = ground (
  arith,
  length-sort_dict oldest_first table,
  length-drop_first (length table - settings.max) (sort_dict oldest_first table) table
      (sort_dict-NodupKeys oldest_first table u) u (Covers-sort table u),
)

drop_first-NodupKeys :
    (n : ℕ) (ordered table : Table) → NodupKeys table → NodupKeys (drop_first n ordered table).0
unfolding drop_first
drop_first-NodupKeys n [] table v = v
drop_first-NodupKeys ℕ.zero ((key, r) ∷ ordered) table v = v
drop_first-NodupKeys (suc n) ((key, r) ∷ ordered) table v =
    drop_first-NodupKeys n ordered (erase key table) (erase-NodupKeys key table v)

pub enforce_cap-NodupKeys :
    (table : Table) (settings : RoutePolicy)
    → NodupKeys table
    → NodupKeys (enforce_cap table settings).0
unfolding enforce_cap
enforce_cap-NodupKeys table settings u = ground (
  arith,
  drop_first-NodupKeys (length table - settings.max) (sort_dict oldest_first table) table u,
)

module _ (table : Table) (thread message_id session_id : Value) (now : ℤ)
    (policy : Option RawRoutes) where
  -- A table with distinct keys and at most `max` routes still is one after `registerRoute`.
  pub register_route_bounded :
      NodupKeys table
      → length table ≤ (normalize_route_policy policy).max
      → let left =
          or_default (register_route (some table) thread message_id session_id now policy).0 [] in
        NodupKeys left × (length left ≤ (normalize_route_policy policy).max)
  unfolding register_route
  register_route_bounded u h =
      let settings = normalize_route_policy policy in
      let key = trim (as_text thread) in
      let session = trim (as_text session_id) in
      let entry = registered (route_at table key) key session (trim (as_text message_id)) now in
      let u' = insert-NodupKeys key (some entry) table u in
      ground (
        arith,
        length-enforce_cap (insert key (some entry) table) settings u',
        enforce_cap-NodupKeys (insert key (some entry) table) settings u',
      )

owner-registered :
    (previous : Option Route) (key session id : Text) (now : ℤ)
    → owner (registered previous key (trim session) id now) ≡ trim session
unfolding registered
owner-registered previous key session id now = trim_idempotent session

pub is_empty_of_ne : (t : Text) → t ≢ [] → is_empty t ≡ false
is_empty_of_ne [] h = absurd (h refl)
is_empty_of_ne (c ∷ t) h = refl

route_at-insert :
    (key : Text) (r : Route) (table : Table) → route_at (insert key (some r) table) key ≡ some r
unfolding route_at
route_at-insert key r table = rw (lookup-insert key key) (ground arith)

-- A write that leaves the table within its cap is all that `registerRoute` does.
register_route_stored :
    (table : Table) (thread message_id session_id : Value) (now : ℤ) (policy : Option RawRoutes)
    → (normalize_route_policy policy).enabled ≡ true
    → trim (as_text thread) ≢ []
    → trim (as_text session_id) ≢ []
    → length (insert (trim (as_text thread)) none table) ≤ (normalize_route_policy policy).max
    → (register_route (some table) thread message_id session_id now policy).0
      ≡ some (
          insert
            (trim (as_text thread))
            (some (
              registered
                (route_at table (trim (as_text thread)))
                (trim (as_text thread))
                (trim (as_text session_id))
                (trim (as_text message_id))
                now))
            table)
unfolding register_route enforce_cap
register_route_stored table thread message_id session_id now policy on t s room =
    let key = trim (as_text thread) in
    let session = trim (as_text session_id) in
    let entry = registered (route_at table key) key session (trim (as_text message_id)) now in
    ground (
      arith,
      is_empty_of_ne key t,
      is_empty_of_ne session s,
      length-insert_any key (some entry) none table,
    )

-- A message on the thread of a live route is routed to its owner.
route_for_direct :
    (table : Table) (m : Inbound) (later : ℤ) (policy : Option RawRoutes) (r : Route) (key : Text)
    → (normalize_route_policy policy).enabled ≡ true
    → key ≢ []
    → owner r ≢ []
    → trim (as_text m.thread) ≡ key
    → route_at table key ≡ some r
    → GapLe later (last_at_of (some r)) ((normalize_route_policy policy).ttl_seconds * 1000)
    → (route_for (some table) (some m) later policy).1
      ≡ some (record { session_id = owner r; key = key; matched = by_thread })
unfolding route_for
route_for_direct table m later policy r key on k s same found fresh =
    let direct : route_at table (trim (as_text m.thread)) ≡ some r = rw same found in
    rw (on, direct, same) (ground (arith, is_empty_of_ne key k, is_empty_of_ne (owner r) s))

-- A conversation that has asked on a thread gets the answer: after `registerRoute`, a message on
-- that thread that comes within the time to live is routed to the session that asked, where
-- routing is on, the thread and the session are not blank, and the table does not exceed its cap.
pub route_for-register_route :
    (table : Table) (thread message_id session_id : Value) (now later : ℤ)
    (policy : Option RawRoutes) (m : Inbound)
    → (normalize_route_policy policy).enabled ≡ true
    → trim (as_text thread) ≢ []
    → trim (as_text session_id) ≢ []
    → trim (as_text m.thread) ≡ trim (as_text thread)
    → length (insert (trim (as_text thread)) none table) ≤ (normalize_route_policy policy).max
    → GapLe later now ((normalize_route_policy policy).ttl_seconds * 1000)
    → (route_for
        (register_route (some table) thread message_id session_id now policy).0
        (some m)
        later
        policy).1
      ≡ some (record {
        session_id = trim (as_text session_id);
        key = trim (as_text thread);
        matched = by_thread;
      })
unfolding registered route_at to_number
route_for-register_route table thread message_id session_id now later policy m on t s same room
      fresh =
    let key = trim (as_text thread) in
    let session = trim (as_text session_id) in
    let entry = registered (route_at table key) key session (trim (as_text message_id)) now in
    let named : owner entry ≡ session = trim_idempotent (as_text session_id) in
    rw (register_route_stored table thread message_id session_id now policy on t s room) (
      route_for_direct (insert key (some entry) table) m later policy entry key on t (rw named s)
        same (route_at-insert key entry table) fresh
      ∙ ap (λ (x : Text). some (record { session_id = x; key = key; matched = by_thread })) named)
