-- ===== src/Bridge/Wake.antt =====
-- integrations/dsh-link-bridge/lib/index.js: the watermark test and the loop guard. Times are
-- milliseconds, natural numbers; a comparison of differences is written as one of sums.
pub mod Rate
pub mod Guard
mod Tests
use dsh_link.Common.{
  ℕ, suc, ◌+◌, ◌*◌, ◌-◌, ◌/◌, Bool, true, false, Option, none, some, List, [], ◌∷◌, ◌++◌,
}
use dsh_link.Common.{
  Text, text_eq, if◌then◌else◌, is_empty, ltb, leb, length, filter, text_ltb, or_default,
}
use dsh_link.Common.Dict.{Dict, lookup, insert, erase}

-- A timestamp and an id: what the watermark holds, and what a message is compared by.
pub record Mark : Type 0 where
  pub ts : Text
  pub id : Text

-- `isNewerThan`
unfoldable pub is_newer_than : Mark → Mark → Bool
unfolding text_ltb
is_newer_than message watermark =
    if is_empty watermark.ts
    then true
    else if text_ltb watermark.ts message.ts
    then true
    else if text_ltb message.ts watermark.ts
    then false
    else text_ltb watermark.id message.id

pub record ThreadWakes : Type 0 where
  pub wakes : ℕ
  pub window_start : ℕ
  pub last_at : ℕ

pub record Wakes : Type 0 where
  pub threads : Dict ThreadWakes
  pub wake_times : List ℕ

pub record Limits : Type 0 where
  pub thread_cooldown_seconds : ℕ
  pub max_thread_wakes : ℕ
  pub thread_window_seconds : ℕ
  pub max_wakes_per_hour : ℕ

-- The numbers that stand in the reasons: seconds left; wakes and minutes; wakes in the hour.
pub data Gate : Type 0 where
  pass : Gate
  cooldown : ℕ → Gate
  thread_budget : ℕ → ℕ → Gate
  rate_cap : ℕ → Gate

abbrev pub hour : ℕ
hour = 3600000

-- `now - at < 3600_000`
abbrev pub is_recent : ℕ → ℕ → Bool
is_recent now at = ltb now (at + hour)

abbrev pub window_over : Limits → ℕ → Option ThreadWakes → Bool
window_over limits now none = false
window_over limits now (some e) = ltb (e.window_start + limits.thread_window_seconds * 1000) now

-- The verdict on the thread alone. `Math.round` of minutes is to the nearest, halves up.
unfoldable pub thread_gate : Limits → ℕ → Option ThreadWakes → Gate
thread_gate limits now none = pass
thread_gate limits now (some e) =
    if ltb now (e.last_at + limits.thread_cooldown_seconds * 1000)
    then cooldown ((e.last_at + limits.thread_cooldown_seconds * 1000 - now + 999) / 1000)
    else if leb limits.max_thread_wakes e.wakes
    then thread_budget e.wakes ((now - e.window_start + 30000) / 60000)
    else pass

-- `wakeGate`: the state that it leaves, and its verdict.
unfoldable pub wake_gate : Limits → Wakes → Text → ℕ → Wakes × Gate
unfolding thread_gate
wake_gate limits w thread now =
    let threads =
      if window_over limits now (lookup thread w.threads)
      then erase thread w.threads
      else w.threads in
    let times = filter (is_recent now) w.wake_times in
    elim (thread_gate limits now (lookup thread threads)) [
      | pass ↦ (
        record { threads = threads; wake_times = times },
        if leb limits.max_wakes_per_hour (length times) then rate_cap (length times) else pass,
      )
      | other ↦ (record w { threads = threads }, other)
    ]

abbrev pub fresh_wakes : ℕ → ThreadWakes
fresh_wakes now = record { wakes = 0; window_start = now; last_at = 0 }

-- `recordWake`
unfoldable pub record_wake : Wakes → Text → ℕ → Wakes
record_wake w thread now =
    let entry = or_default (lookup thread w.threads) (fresh_wakes now) in
    record {
      threads =
          insert thread
            (record { wakes = entry.wakes + 1; window_start = entry.window_start; last_at = now })
            w.threads;
      wake_times = filter (is_recent now) w.wake_times ++ now ∷ [];
    }

-- One batch of messages that reaches the guard, on a thread, at a time, with what becomes of the
-- prompt where the guard lets it through: the wake is recorded only if the prompt succeeds.
pub record Attempt : Type 0 where
  pub thread : Text
  pub now : ℕ
  pub prompted : Bool

abbrev is_pass : Gate → Bool
is_pass pass = true
is_pass _ = false

-- The part of `tick` that asks the guard and records the wake; and whether it was recorded.
unfoldable pub attempt : Limits → Wakes → Attempt → Wakes × Bool
attempt limits w a =
    let (w', gate) = wake_gate limits w a.thread a.now in
    if is_pass gate
    then (if a.prompted then (record_wake w' a.thread a.now, true) else (w', false))
    else (w', false)
