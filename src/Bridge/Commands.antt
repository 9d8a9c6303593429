-- ===== src/Bridge/Commands.antt =====
-- The capability worker, integrations/dsh-link-bridge/lib/commands.js. The network is a function that
-- answers a request by the log of all requests sent up to it; the Host handlers are a dictionary.
-- The clock is read once in a tick. Log lines are left out.
mod Errors
pub mod Reports
pub mod Laws
pub mod Tick
mod Tests
use dsh_link.Common.{
  ℕ, suc, ◌+◌, ◌*◌, min, max, Bool, true, false, not, ◌&&◌, ◌||◌, Option, none, some, List, [], ◌∷◌,
  ◌++◌, Text,
}
use dsh_link.Common.{codes, is_empty, or_text, ltb, eqb, if◌then◌else◌, take, or_default}
use dsh_link.Common.Int.{ℤ, pos, pos_part}
use dsh_link.Common.Dict.{Dict, lookup, keys}
use dsh_link.Common.Values.{Value, undefined, null, nan, object, bool, num, str, show_ℤ, number_or}
unfoldable pub use Errors.*

-- `Math.max(1, Math.min(MAX_CLAIM, Number(maxPerTick) || DEFAULTS.maxPerTick))`
unfoldable pub per_tick_of : Value → ℕ
per_tick_of v = max 1 (min 25 (pos_part (number_or v (pos 5))))

-- `Math.max(0, Number(heartbeatMs) || 0)`
unfoldable pub beat_ms_of : Value → ℕ
beat_ms_of v = pos_part (number_or v (pos 0))

module _ (J : Type 0) where
  -- A command of the node; what the worker does not read is in `body`.
  pub record Command : Type 0 where
    pub id : Value
    pub method : Value
    pub body : J

  pub data Report : Type 0 where
    done : Option J → Report
    failed : Fields → Report

  pub record Beat : Type 0 where
    pub capabilities : List Text
    pub sessions : ℤ
    pub at : ℕ

  pub data Request : Type 0 where
    get_commands : ℕ → Request
    post_result : Text → Report → Request
    post_heartbeat : Beat → Request

  -- An answer: the commands that a 2xx body lists (none, where it lists none), or what `request`
  -- throws.
  pub data Answer : Type 0 where
    answered : List (Option Command) → Answer
    refused : Thrown → Answer

  -- What a handler does with a command; `none` is `undefined`.
  pub data Outcome : Type 0 where
    returned : Option J → Outcome
    threw : Thrown → Outcome

  pub record Worker : Type 0 where
    pub ticks : ℕ
    pub executed : ℕ
    pub failed_count : ℕ
    pub last_error : Option Fields
    pub last_error_at : Option ℕ
    pub last_command_at : Option ℕ
    pub last_heartbeat_at : Option ℕ
    pub beat_at : ℕ
    pub sent : List Request

  -- What `createCommandWorker` is given.
  pub record Options : Type 0 where
    pub per_tick : ℕ
    pub beat_ms : ℕ
    pub handlers : Dict (Command → Outcome)
    -- What `describe` gives; `none` where it is no function, throws, or gives no array.
    pub described : Option (List Text)
    -- What the provider of the session count gives; `none` where there is none, it throws, or it
    -- gives no finite number.
    pub counted : Option ℤ
    pub network : List Request → Answer

  -- `request`: the log with the request, and what comes back.
  abbrev pub request : Options → Request → Worker → Worker × Answer
  request o r w = let sent = w.sent ++ r ∷ [] in (record w { sent = sent }, o.network sent)

  -- `recordError`
  abbrev pub record_error : ℕ → Fields → Worker → Worker
  record_error at fields w = record w { last_error = some fields; last_error_at = some at }

  -- The answer to the report of a failure.
  abbrev pub after_failed_report : ℕ → Worker × Answer → Worker
  after_failed_report at (w, answered commands) = w
  after_failed_report at (w, refused e) = record_error at (error_fields e) w

  -- The `catch` of `run`.
  abbrev pub report_failure : Options → ℕ → Text → Thrown → Worker → Worker
  report_failure o at id e w =
      let fields = error_fields e in
      after_failed_report at (
        request o (post_result id (failed fields))
          (record_error at fields (record w { failed_count = w.failed_count + 1 })))

  -- The answer to the report of a result.
  abbrev pub after_report : Options → ℕ → Text → Worker × Answer → Worker
  after_report o at id (w, answered commands) = record w { executed = w.executed + 1 }
  after_report o at id (w, refused e) = report_failure o at id e w

  -- What becomes of the handler's outcome.
  abbrev pub report : Options → ℕ → Text → Outcome → Worker → Worker
  report o at id (returned result) w =
      after_report o at id (request o (post_result id (done result)) w)
  report o at id (threw e) w = report_failure o at id e w

  abbrev pub text_or_empty : Value → Text
  text_or_empty (str s) = s
  text_or_empty _ = []

  -- `throw new Error('unsupported method: ' + method)`
  abbrev pub unsupported : Text → Thrown
  unsupported method =
      error (some (codes "unsupported method: " ++ method)) undefined undefined
        (codes "Error: unsupported method: " ++ method)

  abbrev pub outcome_of : Option (Command → Outcome) → Command → Outcome
  outcome_of none c = threw (unsupported (text_or_empty c.method))
  outcome_of (some handler) c = handler c

  abbrev pub id_of : Option Command → Text
  id_of none = []
  id_of (some c) = text_or_empty c.id

  abbrev no_id : Fields
  no_id = record { message = codes "the node returned a command without an id"; code = none }

  -- `run`
  unfoldable pub run : Options → ℕ → Option Command → Worker → Worker
  unfolding lookup error_fields
  run o at none w = record_error at no_id w
  run o at (some c) w =
      let id = text_or_empty c.id in
      if is_empty id
      then record_error at no_id w
      else report o at id (outcome_of (lookup (text_or_empty c.method) o.handlers) c)
          (record w { last_command_at = some at })

  -- The loop of `runTick`.
  unfoldable pub run_all : Options → ℕ → List (Option Command) → Worker → Worker
  unfolding run
  run_all o at [] w = w
  run_all o at (c ∷ commands) w = run_all o at commands (run o at c w)

  -- Is it too early for a heartbeat?
  abbrev pub is_throttled : Options → ℕ → Worker → Bool
  is_throttled o at w = not (eqb w.beat_at 0) && ltb at (w.beat_at + o.beat_ms)

  abbrev after_beat : ℕ → Worker × Answer → Worker
  after_beat at (w, answered commands) = record w { beat_at = at; last_heartbeat_at = some at }
  after_beat at (w, refused e) = record_error at (error_fields e) w

  abbrev pub beat_now : Options → ℕ → Beat
  beat_now o at = record {
    capabilities = or_default o.described (keys o.handlers);
    sessions = or_default o.counted (pos 0);
    at = at;
  }

  -- `beat`, and the `catch` around it.
  unfoldable pub beat : Options → ℕ → Worker → Worker
  unfolding error_fields
  beat o at w =
      let beaten = after_beat at (request o (post_heartbeat (beat_now o at)) w) in
      if is_throttled o at w then w else beaten

  abbrev after_claim : Options → ℕ → Worker × Answer → Worker
  after_claim o at (w, answered commands) = beat o at (run_all o at (take o.per_tick commands) w)
  after_claim o at (w, refused e) = record_error at (error_fields e) w

  -- `runTick`
  unfoldable pub run_tick : Options → ℕ → Worker → Worker
  unfolding run_all beat error_fields
  run_tick o at w =
      after_claim o at (request o (get_commands o.per_tick) (record w { ticks = w.ticks + 1 }))

  abbrev pub new_worker : Worker
  new_worker = record {
    ticks = 0;
    executed = 0;
    failed_count = 0;
    last_error = none;
    last_error_at = none;
    last_command_at = none;
    last_heartbeat_at = none;
    beat_at = 0;
    sent = [];
  }
