-- ===== src/Bridge/State.antt =====
-- integrations/dsh-link-bridge/lib/index.js: what `tick` writes to `state.json` and what
-- `loadStateOnce` reads back after a restart. The fields are those that the models of this library
-- use; the file holds more, for the operator.
pub mod Restart
mod Tests
use dsh_link.Common.{ℕ, Bool, true, false, Option, none, some, List, [], ◌∷◌, Text, codes, is_empty}
use dsh_link.Common.{if◌then◌else◌}
use dsh_link.Common.Int.{ℤ, pos}
use dsh_link.Common.Dict.{Dict}
use dsh_link.Common.Values.{Value, undefined, num, str, bool}
use dsh_link.Bridge.Topics.Pool.{Entry, Pool}
use dsh_link.Bridge.Topics.Sweep.{Summary, pool_summary}
use dsh_link.Bridge.Routes.{RawRoutes, Route, Table}
use dsh_link.Bridge.Routes.Sweeping.{RoutesSummary, Last, routes_summary}
use dsh_link.Bridge.Wake.{Mark, Wakes}

-- The part of `runtime` that outlives a restart.
pub record Runtime : Type 0 where
  pub session_id : Text
  pub watermark : Mark
  pub last_notify_at : ℕ
  pub wakes : Wakes
  pub suppressed : ℕ
  pub pool : Pool
  pub routes : Table
  pub routed : ℕ
  pub sessions_created : ℕ
  pub sessions_archived : ℕ

-- The object that `writeState` is given.
pub record Saved : Type 0 where
  pub session_id : Text
  pub watermark_ts : Text
  pub watermark_id : Text
  pub last_notify_at : ℕ
  pub wakes : Wakes
  pub suppressed : ℕ
  pub pool : Dict Summary
  pub routes : RoutesSummary
  pub route_table : Table
  pub routed : ℕ
  pub sessions_created : ℕ
  pub sessions_archived : ℕ

-- The heartbeat at the end of `tick`, at the time `now`.
unfoldable pub save : ℤ → Option RawRoutes → Runtime → Saved
save now policy r = record {
  session_id = r.session_id;
  watermark_ts = r.watermark.ts;
  watermark_id = r.watermark.id;
  last_notify_at = r.last_notify_at;
  wakes = r.wakes;
  suppressed = r.suppressed;
  pool = pool_summary r.pool;
  routes = routes_summary r.routes now policy;
  route_table = r.routes;
  routed = r.routed;
  sessions_created = r.sessions_created;
  sessions_archived = r.sessions_archived;
}

-- An entry of the saved pool, read as an entry of the pool.
abbrev pub entry_of : Summary → Entry
entry_of s = record {
  session_id = str s.session_id;
  wakes = num (pos s.wakes);
  created_at = num s.created_at;
  last_used_at = num s.last_used_at;
  label = str s.label;
  archived = bool s.archived;
  archived_at = undefined;
}

unfoldable pub restored_pool : Dict Summary → Pool
restored_pool [] = []
restored_pool ((key, s) ∷ d) = (key, some (entry_of s)) ∷ restored_pool d

abbrev last_slot : Option Last → Option Route
last_slot none = none
last_slot (some l) = some (record {
  thread = str l.thread;
  session_id = str l.session_id;
  message_ids = none;
  created_at = undefined;
  last_at = undefined;
  hits = undefined;
})

-- The object under `routes` in the file, read as a table of routes: its properties are keys, and
-- only `last` can hold an object.
unfoldable pub restored_routes : RoutesSummary → Table
restored_routes s =
    (codes "enabled", none)
    ∷ (codes "count", none)
    ∷ (codes "sessions", none)
    ∷ (codes "ttlSeconds", none)
    ∷ (codes "last", last_slot s.last)
    ∷ []

-- `loadStateOnce` over the runtime that `install` makes.
unfoldable pub load : Saved → Runtime → Runtime
load saved r = record {
  session_id = if is_empty r.session_id then saved.session_id else r.session_id;
  watermark =
      if is_empty saved.watermark_ts
      then r.watermark
      else record { ts = saved.watermark_ts; id = saved.watermark_id };
  last_notify_at = saved.last_notify_at;
  wakes = saved.wakes;
  suppressed = saved.suppressed;
  pool = restored_pool saved.pool;
  routes = restored_routes saved.routes;
  routed = saved.routed;
  sessions_created = saved.sessions_created;
  sessions_archived = saved.sessions_archived;
}

-- The runtime of a start with no pinned session.
abbrev pub fresh_runtime : Runtime
fresh_runtime = record {
  session_id = [];
  watermark = record { ts = []; id = [] };
  last_notify_at = 0;
  wakes = record { threads = []; wake_times = [] };
  suppressed = 0;
  pool = [];
  routes = [];
  routed = 0;
  sessions_created = 0;
  sessions_archived = 0;
}
