-- ===== src/Bridge/Wake/Rate.antt =====
-- index.js: the global rate of the loop guard, over every sequence of attempts.
use dsh_link.Common.{ℕ, ◌+◌, ◌≤◌, ◌<◌, ◌≡◌, refl, Bool, true, ◌&&◌, List, [], ◌∷◌, ◌++◌}
use dsh_link.Common.{if◌then◌else◌, leb, length, filter, arith}
use dsh_link.Bridge.Wake.{Wakes, Limits, is_recent, wake_gate, record_wake, Attempt, attempt}

-- How many elements pass a test.
abbrev pub count : (ℕ → Bool) → List ℕ → ℕ
count p [] = 0
count p (x ∷ xs) = (if p x then 1 else 0) + count p xs

-- The wakes at or before a time, in the hour that ends there.
abbrev pub in_window : ℕ → ℕ → Bool
in_window t at = leb at t && is_recent t at

length-filter_count : (p : ℕ → Bool) (xs : List ℕ) → length (filter p xs) ≡ count p xs
unfolding filter
length-filter_count p [] = refl
length-filter_count p (x ∷ xs) = ground (arith, length-filter_count p xs)

count-append : (p : ℕ → Bool) (xs ys : List ℕ) → count p (xs ++ ys) ≡ count p xs + count p ys
count-append p [] ys = omega arith
count-append p (x ∷ xs) ys = omega (arith, count-append p xs ys)

-- What was filtered out at a time is not recent at any later time.
count-filter_later :
    (now t : ℕ) (xs : List ℕ)
    → now ≤ t
    → count (is_recent t) (filter (is_recent now) xs) ≡ count (is_recent t) xs
unfolding filter
count-filter_later now t [] h = refl
count-filter_later now t (x ∷ xs) h = ground (arith, count-filter_later now t xs h)

count-later :
    (now t : ℕ) (xs : List ℕ) → now ≤ t → count (is_recent t) xs ≤ count (is_recent now) xs
count-later now t [] h = omega arith
count-later now t (x ∷ xs) h = ground (arith, count-later now t xs h)

count-window : (t : ℕ) (xs : List ℕ) → count (in_window t) xs ≤ count (is_recent t) xs
count-window t [] = omega arith
count-window t (x ∷ xs) = ground (arith, count-window t xs)

-- What an attempt does to the recent wakes.
attempt_counts :
    (limits : Limits) (w : Wakes) (a : Attempt) (t : ℕ)
    → a.now ≤ t
    → count (is_recent t) (attempt limits w a).0.wake_times
      ≡ count (is_recent t) w.wake_times
        + (if (attempt limits w a).1 then (if is_recent t a.now then 1 else 0) else 0)
unfolding attempt wake_gate record_wake
attempt_counts limits w a t h = ground (
  arith,
  count-filter_later a.now t w.wake_times h,
  count-filter_later a.now t (filter (is_recent a.now) w.wake_times) h,
  count-append (is_recent t) (filter (is_recent a.now) (filter (is_recent a.now) w.wake_times))
      (a.now ∷ []),
)

-- A wake is recorded only below the cap.
attempt_below_cap :
    (limits : Limits) (w : Wakes) (a : Attempt)
    → (attempt limits w a).1 ≡ true
    → count (is_recent a.now) w.wake_times < limits.max_wakes_per_hour
unfolding attempt wake_gate
attempt_below_cap limits w a h = ground (arith, length-filter_count (is_recent a.now) w.wake_times)

-- A run over a list of attempts: the last state, and the times of the recorded wakes in their order.
unfoldable pub run : Limits → Wakes → List ℕ → List Attempt → Wakes × List ℕ
run limits w log [] = (w, log)
run limits w log (a ∷ as_) =
    let (w', recorded) = attempt limits w a in
    run limits w' (if recorded then log ++ a.now ∷ [] else log) as_

-- The clock does not go back.
abbrev pub Ordered : ℕ → List Attempt → Type 0
Ordered last [] = Unit
Ordered last (a ∷ more) = (last ≤ a.now) × Ordered a.now more

record IsAccounted (limits : Limits) (last : ℕ) (w : Wakes) (log : List ℕ) : Type 0 where
  same : (t : ℕ) → last ≤ t → count (is_recent t) w.wake_times ≡ count (is_recent t) log
  capped : (t : ℕ) → count (in_window t) log ≤ limits.max_wakes_per_hour

attempt-IsAccounted :
    (limits : Limits) (last : ℕ) (w : Wakes) (log : List ℕ) (a : Attempt)
    → IsAccounted limits last w log
    → last ≤ a.now
    → let r = attempt limits w a in
      IsAccounted limits a.now r.0 (if r.1 then log ++ a.now ∷ [] else log)
attempt-IsAccounted limits last w log a i h = record {
  same = λ t k. ground (
    arith,
    attempt_counts limits w a t k,
    i.same t (omega arith),
    count-append (is_recent t) log (a.now ∷ []),
  );
  capped = λ t. ground (
    arith,
    attempt_below_cap limits w a,
    i.same a.now h,
    i.capped t,
    count-append (in_window t) log (a.now ∷ []),
    count-window t log,
    λ (k : a.now ≤ t). count-later a.now t log k,
  );
}

run_capped :
    (limits : Limits) (last : ℕ) (w : Wakes) (log : List ℕ) (attempts : List Attempt)
    → IsAccounted limits last w log
    → Ordered last attempts
    → (t : ℕ) → count (in_window t) (run limits w log attempts).1 ≤ limits.max_wakes_per_hour
unfolding run
run_capped limits last w log [] i _ t = i.capped t
run_capped limits last w log (a ∷ more) i (h, o) t =
    run_capped limits a.now _ _ more (attempt-IsAccounted limits last w log a i h) o t

-- Whatever attempts reach the guard, on any threads and with any outcome of their prompts, if the
-- clock does not go back: in no hour, wherever it ends, are more than `maxWakesPerHour` wakes
-- recorded by a bridge that starts with no wakes.
pub run_hourly_cap :
    (limits : Limits) (attempts : List Attempt) (t : ℕ)
    → Ordered 0 attempts
    → count (in_window t) (run limits (record { threads = []; wake_times = [] }) [] attempts).1
      ≤ limits.max_wakes_per_hour
run_hourly_cap limits attempts t o =
    run_capped limits 0 (record { threads = []; wake_times = [] }) [] attempts
      (record { same = λ t h. refl; capped = λ t. omega arith }) o t
