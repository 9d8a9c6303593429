-- ===== src/Bridge/Tick/Tests.antt =====
-- Runs of `tick` over a Host that answers every call.
use dsh_link.Common.{
  ℕ, ◌+◌, ◌≤◌, ◌≡◌, ◌⊎◌, refl, Bool, true, false, Option, none, some, List, [], ◌∷◌, Text, codes,
}
use dsh_link.Common.Values.{str, undefined, bool}
use dsh_link.Bridge.Topics.Keys.{other}
use dsh_link.Bridge.Wake.{is_newer_than}
use dsh_link.Bridge.State.{fresh_runtime}
use dsh_link.Bridge.Sessions.{Bridge, Settings, Host, returned}
use dsh_link.Bridge.Sessions.Laws.{prompts, creations}
use dsh_link.Bridge.Tick.{Incoming, fetched, tick}
use dsh_link.Bridge.Tick.Outcome.{tick-watermark, tick_bounded, tick_outcome}

abbrev host : Host
host calls = returned (codes "s1")

abbrev settings : Settings
settings = record {
  session_id = [];
  archive_sessions = true;
  title_prefix = codes "[dsh-link] ";
  cooldown_ms = 30000;
  limits = record {
    thread_cooldown_seconds = 120;
    max_thread_wakes = 5;
    thread_window_seconds = 3600;
    max_wakes_per_hour = 20;
  };
  topics = none;
  routes = none;
}

abbrev started : Bridge
started = record {
  runtime = fresh_runtime;
  dead_sessions = [];
  archived = [];
  ticks = 0;
  notified = 0;
  errors = 0;
  last_error = none;
  calls = [];
}

abbrev inbox : List Incoming
inbox =
    record {
      message = record {
        id = str (codes "msg_1");
        thread = str (codes "t1");
        subject = str (codes "hello");
        body = str (codes "hi");
        from = other (str (codes "peer"));
      };
      ts = codes "2026-01-01";
      reply_to = undefined;
      read = bool false;
    }
    ∷ []

abbrev after : Bridge
after = tick host settings 1000000 (fetched (codes "node")) (fetched inbox) started

-- The message wakes a new session.
after_notified : after.notified ≡ 1
unfolding tick dsh_link.Common.filter is_newer_than dsh_link.Bridge.Topics.Sweep.cap_pool
    dsh_link.Bridge.Topics.Policy.normalize_topic_policy dsh_link.Bridge.Topics.Sweep.forget_old
    dsh_link.Bridge.Topics.Sweep.archive_quiet dsh_link.Bridge.Routes.normalize_route_policy
    dsh_link.Common.trim_end dsh_link.Common.trim_start dsh_link.Common.is_space
    dsh_link.Bridge.Routes.enforce_cap dsh_link.Bridge.Routes.Sweeping.sweep_loop
after_notified = refl

tick-watermark_example :
    (after.runtime.watermark ≡ started.runtime.watermark)
    ⊎ (is_newer_than after.runtime.watermark started.runtime.watermark ≡ true)
tick-watermark_example =
    tick-watermark host settings 1000000 (fetched (codes "node")) (fetched inbox) started

tick_bounded_example :
    (prompts after.calls ≤ prompts started.calls + 1)
    × (creations after.calls ≤ creations started.calls + 1)
tick_bounded_example =
    tick_bounded host settings 1000000 (fetched (codes "node")) (fetched inbox) started

tick_outcome_example :
    ((after.errors ≡ started.errors + 1)
      × (after.runtime.watermark ≡ started.runtime.watermark)
      × (after.notified ≡ started.notified))
    ⊎ ((after.errors ≡ started.errors) × (after.notified ≡ started.notified))
    ⊎ ((after.errors ≡ started.errors)
        × (prompts after.calls ≡ prompts started.calls + 1)
        × (is_newer_than after.runtime.watermark started.runtime.watermark ≡ true))
tick_outcome_example =
    tick_outcome host settings 1000000 (fetched (codes "node")) (fetched inbox) started
