-- ===== src/Bridge/Routes.antt =====
-- The table of asking threads, integrations/dsh-link-bridge/lib/routes.js. An object that is changed
-- in place is returned; `none` for a table or a message is a value that is no plain object.
pub mod Matching
mod Policy
pub mod Laws
pub mod Sweeping
mod Tests
use dsh_link.Common.{
  ℕ, suc, ◌+◌, ◌*◌, ◌-◌, min, max, Bool, true, false, not, ◌&&◌, ◌||◌, Option, none,
}
use dsh_link.Common.{some, List, [], ◌∷◌, ◌++◌, Text, text_eq, ◌==◌, if◌then◌else◌, is_empty, trim}
use dsh_link.Common.{codes, length, drop, leb, after_prefix, or_default, or_text, is_some}
use dsh_link.Common.Int.{ℤ, pos, gap_gt, leb_ℤ, pos_part, ◌+ℤ◌}
use dsh_link.Common.Dict.{Dict, lookup, insert, erase}
use dsh_link.Common.Sort.{sort_dict}
use dsh_link.Common.Values.{Value, undefined, num, str, is_false, to_number}
use mathlib.Core.List.{reverse}
unfoldable pub use Policy.*

-- The properties of a route that the code reads; `none` for the ids is a value that is no array.
pub record Route : Type 0 where
  pub thread : Value
  pub session_id : Value
  pub message_ids : Option (List Text)
  pub created_at : Value
  pub last_at : Value
  pub hits : Value

abbrev pub Table : Type 0
Table = Dict (Option Route)

abbrev pub flat : Option (Option Route) → Option Route
flat none = none
flat (some r) = r

unfoldable pub route_at : Table → Text → Option Route
unfolding lookup
route_at table key = flat (lookup key table)

-- The session of a route, trimmed.
abbrev pub owner : Route → Text
owner r = trim (as_text r.session_id)

-- `isValidEntry`
abbrev pub is_valid_entry : Option Route → Bool
is_valid_entry none = false
is_valid_entry (some r) = not (is_empty (owner r))

abbrev pub last_at_of : Option Route → ℤ
last_at_of none = pos 0
last_at_of (some r) = as_number r.last_at (pos 0)

abbrev pub oldest_first : Option Route → Option Route → Bool
oldest_first a b = leb_ℤ (last_at_of a) (last_at_of b)

-- `expired`
abbrev pub expired : Option Route → RoutePolicy → ℤ → Bool
expired r settings now = gap_gt now (last_at_of r) (settings.ttl_seconds * 1000)

-- The keys of the first `n` pairs, deleted from the table.
unfoldable pub drop_first : ℕ → Table → Table → Table × List Text
drop_first n [] table = (table, [])
drop_first ℕ.zero ((key, r) ∷ ordered) table = (table, [])
drop_first (suc n) ((key, r) ∷ ordered) table =
    let (table', drop) = drop_first n ordered (erase key table) in (table', key ∷ drop)

-- `enforceCap`
unfoldable pub enforce_cap : Table → RoutePolicy → Table × List Text
unfolding drop_first sort_dict
enforce_cap table settings =
    if leb (length table) settings.max
    then (table, [])
    else drop_first (length table - settings.max) (sort_dict oldest_first table) table

abbrev pub includes : List Text → Text → Bool
includes [] id = false
includes (x ∷ xs) id = x == id || includes xs id

-- `.slice(-n)`
abbrev pub take_last : ℕ → List Text → List Text
take_last n xs = drop (length xs - n) xs

-- The ids after one more message; an empty id changes nothing.
unfoldable pub add_id : Option (List Text) → Text → Option (List Text)
add_id none id = if is_empty id then none else some (id ∷ [])
add_id (some ids) id =
    if is_empty id || includes ids id then some ids else some (take_last 8 (ids ++ id ∷ []))

-- The route that `registerRoute` goes on with: the one that is there if the session owns it.
unfoldable pub base_route : Option Route → Text → Text → ℤ → Route
base_route none key session now = record {
  thread = str key;
  session_id = str session;
  message_ids = some [];
  created_at = num now;
  last_at = undefined;
  hits = num (pos 0);
}
base_route (some previous) key session now =
    if owner previous == session then previous else record {
      thread = str key;
      session_id = str session;
      message_ids = some [];
      created_at = num now;
      last_at = undefined;
      hits = num (pos 0);
    }

unfoldable pub registered : Option Route → Text → Text → Text → ℤ → Route
unfolding base_route add_id
registered previous key session id now =
    let base = base_route previous key session now in
    record base {
      thread = str key;
      session_id = str session;
      last_at = num now;
      message_ids = add_id base.message_ids id;
    }

-- `registerRoute`
unfoldable pub register_route :
    Option Table → Value → Value → Value → ℤ → Option RawRoutes → Option Table × Option Route
unfolding registered enforce_cap route_at
register_route none thread message_id session_id now policy = (none, none)
register_route (some table) thread message_id session_id now policy =
    let settings = normalize_route_policy policy in
    let key = trim (as_text thread) in
    let session = trim (as_text session_id) in
    let entry = registered (route_at table key) key session (trim (as_text message_id)) now in
    if not settings.enabled || is_empty key || is_empty session
    then (some table, none)
    else (some (enforce_cap (insert key (some entry) table) settings).0, some entry)

-- The properties of an inbound message that routing reads.
pub record Inbound : Type 0 where
  pub thread : Value
  pub reply_to : Value

pub data Matched : Type 0 where
  by_thread by_reply : Matched

pub record Hit : Type 0 where
  pub session_id : Text
  pub key : Text
  pub matched : Matched

-- `hit`: the entry, refreshed.
abbrev pub refresh : ℤ → Route → Route
refresh now r = record r { last_at = num now; hits = num (as_number r.hits (pos 0) +ℤ pos 1) }

-- Does the loop over the table stop at this route?
unfoldable pub answers : RoutePolicy → ℤ → Text → Option Route → Bool
answers settings now reply_to none = false
answers settings now reply_to (some r) =
    not (is_empty (owner r))
    && includes (or_default r.message_ids []) reply_to
    && not (expired (some r) settings now)

abbrev pub key_of : Option Route → Text → Text
key_of none key = key
key_of (some r) key = or_text (trim (as_text r.thread)) key

abbrev pub owner_of : Option Route → Text
owner_of none = []
owner_of (some r) = owner r

abbrev pub refresh_slot : ℤ → Option Route → Option Route
refresh_slot now none = none
refresh_slot now (some r) = some (refresh now r)

-- The loop over the ids of the routes.
unfoldable pub route_by_reply : RoutePolicy → ℤ → Text → Table → Table × Option Hit
route_by_reply settings now reply_to [] = ([], none)
route_by_reply settings now reply_to ((key, r) ∷ table) =
    let (table', found) = route_by_reply settings now reply_to table in
    if answers settings now reply_to r
    then (
      (key, refresh_slot now r) ∷ table,
      some (record { session_id = owner_of r; key = key_of r key; matched = by_reply }),
    )
    else ((key, r) ∷ table', found)

-- The rest of `routeFor` behind the match on the thread.
unfoldable pub route_for_reply : RoutePolicy → ℤ → Text → Table → Table × Option Hit
unfolding route_by_reply
route_for_reply settings now reply_to table =
    if is_empty reply_to then (table, none) else route_by_reply settings now reply_to table

-- Is this the live route of the thread?
abbrev pub is_direct : RoutePolicy → ℤ → Text → Option Route → Bool
is_direct settings now thread r =
    not (is_empty thread) && is_valid_entry r && not (expired r settings now)

-- `routeFor`
unfoldable pub route_for :
    Option Table → Option Inbound → ℤ → Option RawRoutes → Option Table × Option Hit
unfolding route_for_reply route_at
route_for none message now policy = (none, none)
route_for (some table) none now policy = (some table, none)
route_for (some table) (some m) now policy =
    let settings = normalize_route_policy policy in
    let thread = trim (as_text m.thread) in
    let direct = route_at table thread in
    let (table', found) = route_for_reply settings now (trim (as_text m.reply_to)) table in
    if not settings.enabled
    then (some table, none)
    else if is_direct settings now thread direct
    then (
      some (insert thread (refresh_slot now direct) table),
      some (record { session_id = owner_of direct; key = thread; matched = by_thread }),
    )
    else (some table', found)
