-- ===== src/Bridge/Wake/Tests.antt =====
-- index.js: the theorems on the loop guard at inputs that meet their hypotheses.
use dsh_link.Common.{ℕ, ◌≤◌, ◌≡◌, refl, true, [], ◌∷◌, codes, text_eq, arith, filter}
use dsh_link.Common.Dict.{lookup, insert, erase}
use dsh_link.Bridge.Wake.{Mark, Wakes, Limits, wake_gate, record_wake, Attempt, attempt}
use dsh_link.Bridge.Wake.Rate.{count, in_window, run, run_hourly_cap}

abbrev limits : Limits
limits = record {
  thread_cooldown_seconds = 120;
  max_thread_wakes = 5;
  thread_window_seconds = 60;
  max_wakes_per_hour = 2;
}

abbrev no_wakes : Wakes
no_wakes = record { threads = []; wake_times = [] }

abbrev batch : ℕ → Attempt
batch at = record { thread = codes "topic:a"; now = at; prompted = true }

run_hourly_cap_example :
    count
      (in_window 900000)
      (run limits no_wakes [] (batch 1000 ∷ batch 300000 ∷ batch 600000 ∷ [])).1
    ≤ 2
run_hourly_cap_example =
    run_hourly_cap limits (batch 1000 ∷ batch 300000 ∷ batch 600000 ∷ []) 900000 (omega arith)

-- The third wake is refused, whatever its thread.
rate_test :
    (run limits no_wakes [] (batch 1000 ∷ batch 300000 ∷ batch 600000 ∷ [])).1 ≡ 1000 ∷ 300000 ∷ []
unfolding run attempt wake_gate record_wake filter lookup insert erase text_eq
rate_test = refl

abbrev woken_once : Wakes
woken_once = record {
  threads = (codes "topic:a", record { wakes = 1; window_start = 1000; last_at = 1000 }) ∷ [];
  wake_times = 1000 ∷ [];
}

abbrev mark : ℕ → Mark
mark n = record { ts = n ∷ []; id = [] }
