-- ===== src/Bridge/Tick.antt =====
-- integrations/dsh-link-bridge/lib/index.js: `tick`, from the answers of the node to the prompt. What
-- it saves at the end is in State; the text of the prompt and the log lines are left out.
pub mod Laws
pub mod Moves
pub mod Outcome
mod Tests
use dsh_link.Common.{
  ℕ, ◌+◌, Bool, true, false, not, ◌&&◌, ◌||◌, Option, none, some, List, [], ◌∷◌, ◌++◌, Text,
}
use dsh_link.Common.{
  if◌then◌else◌, is_empty, length, filter, codes, after_prefix, is_some, to_lower, ltb, eqb,
}
use dsh_link.Common.Int.{pos}
use dsh_link.Common.Values.{Value, num, str, is_true}
use dsh_link.Bridge.Topics.Keys.{Message, topic_key_for, topic_label}
use dsh_link.Bridge.Topics.Pool.{record_use, Use}
use dsh_link.Bridge.Routes.{Table, Inbound, Hit, route_for}
use dsh_link.Bridge.Routes.Sweeping.{sweep_routes, forget_routes_for_session}
use dsh_link.Bridge.Wake.{Mark, is_newer_than, Gate, pass, cooldown, wake_gate, record_wake}
use dsh_link.Bridge.State.{Runtime}
use dsh_link.Bridge.Sessions.{
  Bridge, Settings, Host, Reply, returned, threw, call, prompt_session, is_dead, sweep_sessions,
  ensure_session_for,
}

-- A message as the node lists it; `ts` is `String(message.ts ?? '')`.
pub record Incoming : Type 0 where
  pub message : Message
  pub ts : Text
  pub reply_to : Value
  pub read : Value

-- What `fetchJson` gives, or the text of what it throws.
pub data Fetched {ℓ} (A : Type ℓ) : Type ℓ where
  fetched : A → Fetched A
  unreachable : Text → Fetched A

pub data Ending : Type 0 where
  finished : Ending
  failed : Text → Ending

abbrev pub id_text : Value → Text
id_text (str s) = s
id_text _ = []

abbrev is_text : Value → Bool
is_text (str s) = true
is_text _ = false

abbrev pub mark_of : Incoming → Mark
mark_of m = record { ts = m.ts; id = id_text m.message.id }

abbrev pub inbound_of : Incoming → Inbound
inbound_of m = record { thread = m.message.thread; reply_to = m.reply_to }

-- The test of the `filter` on the listed messages.
abbrev pub is_fresh : Mark → Incoming → Bool
is_fresh watermark m =
    is_text m.message.id && not (is_true m.read) && is_newer_than (mark_of m) watermark

unfoldable pub has_part : Text → Text → Bool
unfolding after_prefix
has_part word [] = is_some (after_prefix word [])
has_part word (c ∷ s) = is_some (after_prefix word (c ∷ s)) || has_part word s

-- `/not found|unknown session|no such session/i`
unfoldable pub is_missing_error : Text → Bool
unfolding has_part to_lower
is_missing_error e =
    let s = to_lower e in
    has_part (codes "not found") s
    || has_part (codes "unknown session") s
    || has_part (codes "no such session") s

abbrev pub or_table : Option Table → Table
or_table none = []
or_table (some table) = table

-- The error of a prompt: a session that is missing is not used again.
abbrev pub forget_missing : Text → Text → Bridge → Bridge
forget_missing id e b =
    if is_missing_error e
    then record b {
      dead_sessions = b.dead_sessions ++ id ∷ [];
      runtime = record b.runtime {
        routes = or_table (forget_routes_for_session (some b.runtime.routes) (str id)).0;
      };
    }
    else b

-- The end of a tick whose prompt was admitted.
abbrev pub woken : ℕ → Incoming → ℕ → Text → Bridge → Bridge
woken now newest count thread b = record b {
  notified = b.notified + count;
  runtime = record b.runtime {
    wakes = record_wake b.runtime.wakes thread now;
    watermark = mark_of newest;
    last_notify_at = now;
  };
}

abbrev pub after_prompt : ℕ → Incoming → ℕ → Text → Text → Bridge × Reply → Bridge × Ending
after_prompt now newest count thread id (b, returned _) =
    (woken now newest count thread b, finished)
after_prompt now newest count thread id (b, threw e) = (forget_missing id e b, failed e)

-- The prompt, in the session that was chosen.
abbrev pub prompt : Host → ℕ → Incoming → ℕ → Text → Bridge × Reply → Bridge × Ending
prompt host now newest count thread (b, threw e) = (b, failed e)
prompt host now newest count thread (b, returned id) =
    let request = codes "link-bridge:" ++ id ++ codes ":" ++ id_text newest.message.id in
    after_prompt now newest count thread id (
      call host (prompt_session id request)
        (record b { runtime = record b.runtime { session_id = id } }))

-- The wake of a session of the pool is counted before the prompt.
abbrev pub counted : Settings → ℕ → ℕ → Text → Text → Bridge × Reply → Bridge × Reply
counted s now count key label (b, threw e) = (b, threw e)
counted s now count key label (b, returned id) =
    let last_use : Use = record {
      session_id = str id;
      label = str label;
      now = num (pos now);
      messages = num (pos count);
    } in
    (
      record b {
        runtime = record b.runtime {
          pool = elim (record_use (pos now) (some b.runtime.pool) (str key) last_use).0 [
            | none ↦ b.runtime.pool
            | some pool ↦ pool
          ];
        };
      },
      returned id,
    )

abbrev pub by_topic : Host → Settings → ℕ → ℕ → Text → Text → Bridge → Bridge × Reply
by_topic host s now count key label b =
    counted s now count key label (ensure_session_for host s now key label b)

-- The session that gets the messages: the asking conversation, or that of the topic.
abbrev pub choose : Host → Settings → ℕ → ℕ → Text → Text → Option Hit → Bridge → Bridge × Reply
choose host s now count key label none b = by_topic host s now count key label b
choose host s now count key label (some hit) b =
    if is_dead b hit.session_id then by_topic host s now count key label b else (
      record b { runtime = record b.runtime { routed = b.runtime.routed + 1 } },
      returned hit.session_id,
    )

-- The messages have passed the guard.
unfoldable pub wake : Host → Settings → ℕ → Incoming → ℕ → Text → Bridge → Bridge × Ending
unfolding ensure_session_for route_for record_use record_wake is_missing_error
    forget_routes_for_session
wake host s now newest count key b =
    let (table, hit) =
      route_for (some b.runtime.routes) (some (inbound_of newest)) (pos now) s.routes in
    let routed = record b { runtime = record b.runtime { routes = or_table table } } in
    let label = topic_label (some newest.message) in
    prompt host now newest count key (choose host s now count key label hit routed)

-- What the verdict of the guard leads to.
abbrev pub judged : Host → Settings → ℕ → Incoming → ℕ → Text → Bridge → Gate → Bridge × Ending
judged host s now newest count key b pass = wake host s now newest count key b
judged host s now newest count key b (cooldown left) =
    (record b { runtime = record b.runtime { suppressed = b.runtime.suppressed + 1 } }, finished)
judged host s now newest count key b _ = (
  record b {
    runtime = record b.runtime {
      suppressed = b.runtime.suppressed + 1;
      watermark = mark_of newest;
    };
  },
  finished,
)

-- `now - runtime.lastNotifyAt < cooldownMs`, where both are set.
abbrev pub is_cooling : Settings → ℕ → Bridge → Bool
is_cooling s now b =
    not (eqb s.cooldown_ms 0)
    && not (eqb b.runtime.last_notify_at 0)
    && ltb now (b.runtime.last_notify_at + s.cooldown_ms)

-- `messages[messages.length - 1]`, of a list that is not empty.
abbrev pub newest_of : Incoming → List Incoming → Incoming
newest_of m [] = m
newest_of m (m' ∷ messages) = newest_of m' messages

abbrev pub handle : Host → Settings → ℕ → List Incoming → Bridge → Bridge × Ending
handle host s now [] b = (b, finished)
handle host s now (m ∷ messages) b =
    let newest = newest_of m messages in
    let key = topic_key_for (some newest.message) s.topics in
    let (wakes, gate) = wake_gate s.limits b.runtime.wakes key now in
    let asked = record b { runtime = record b.runtime { wakes = wakes } } in
    if is_cooling s now b
    then (b, finished)
    else judged host s now newest (length (m ∷ messages)) key asked gate

-- The messages are there: the sweeps, then what the messages lead to.
unfoldable pub on_messages : Host → Settings → ℕ → List Incoming → Bridge → Bridge × Ending
unfolding wake wake_gate sweep_sessions sweep_routes topic_key_for
on_messages host s now listed b =
    let messages = filter (is_fresh b.runtime.watermark) listed in
    let swept = sweep_sessions host s now b in
    let table = or_table (sweep_routes (some swept.runtime.routes) (pos now) s.routes).0 in
    handle host s now messages (record swept { runtime = record swept.runtime { routes = table } })

abbrev pub fetch :
    Host → Settings → ℕ → Fetched Text → Fetched (List Incoming) → Bridge → Bridge × Ending
fetch host s now (unreachable e) listed b = (b, failed e)
fetch host s now (fetched info) (unreachable e) b = (b, failed e)
fetch host s now (fetched info) (fetched listed) b = on_messages host s now listed b

abbrev pub ended : Bridge × Ending → Bridge
ended (b, finished) = b
ended (b, failed e) = record b { errors = b.errors + 1; last_error = some e }

-- `tick`, where no other one runs.
unfoldable pub tick : Host → Settings → ℕ → Fetched Text → Fetched (List Incoming) → Bridge → Bridge
unfolding on_messages
tick host s now info listed b =
    ended (fetch host s now info listed (record b { ticks = b.ticks + 1 }))
