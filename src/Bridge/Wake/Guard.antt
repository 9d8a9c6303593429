-- ===== src/Bridge/Wake/Guard.antt =====
-- index.js: what the loop guard does to one thread, and the order of the watermark.
use dsh_link.Common.{ℕ, ◌+◌, ◌*◌, ◌≤◌, ◌<◌, ◌≡◌, ◌≢◌, ◌↔◌, refl, true, false, Option, none, some}
use dsh_link.Common.{List, [], ◌∷◌, Text, text_eq, text_dec, if◌then◌else◌, length, filter, arith}
use dsh_link.Common.{text_ltb, or_default}
use dsh_link.Common.Dict.{Dict, lookup, erase, lookup-insert, lookup-erase}
use dsh_link.Bridge.Wake.Rate.{run}
use dsh_link.Bridge.Wake.{
  Mark, is_newer_than, ThreadWakes, Wakes, Limits, pass, is_recent, window_over, thread_gate,
  wake_gate, record_wake, Attempt, attempt, fresh_wakes,
}

text_ltb_irrefl : (s : Text) → text_ltb s s ≡ false
unfolding text_ltb
text_ltb_irrefl [] = refl
text_ltb_irrefl (c ∷ s) = ground (arith, text_ltb_irrefl s)

text_ltb_trans : (s t u : Text) → text_ltb s t ≡ true → text_ltb t u ≡ true → text_ltb s u ≡ true
unfolding text_ltb
text_ltb_trans [] [] u h k = cc
text_ltb_trans [] (d ∷ t) [] h k = cc
text_ltb_trans [] (d ∷ t) (e ∷ u) h k = refl
text_ltb_trans (c ∷ s) [] u h k = cc
text_ltb_trans (c ∷ s) (d ∷ t) [] h k = cc
text_ltb_trans (c ∷ s) (d ∷ t) (e ∷ u) h k = ground (arith, text_ltb_trans s t u)

-- Two texts that neither precedes are equal.
text_ltb_total : (s t : Text) → text_ltb s t ≡ false → text_ltb t s ≡ false → s ≡ t
unfolding text_ltb
text_ltb_total [] [] h k = refl
text_ltb_total [] (d ∷ t) h k = cc
text_ltb_total (c ∷ s) [] h k = cc
text_ltb_total (c ∷ s) (d ∷ t) h k = ground (arith, text_ltb_total s t)

is_newer_than_asym :
    (a b : Mark) → a.ts ≢ [] → b.ts ≢ [] → is_newer_than a b ≡ true → is_newer_than b a ≡ false
unfolding is_newer_than
is_newer_than_asym a b h k e = ground (
  arith,
  text_ltb_trans a.ts b.ts a.ts,
  text_ltb_irrefl a.ts,
  text_ltb_trans a.id b.id a.id,
  text_ltb_irrefl a.id,
  text_ltb_total a.ts b.ts,
)

is_newer_than_trans :
    (a b c : Mark)
    → a.ts ≢ []
    → b.ts ≢ []
    → is_newer_than c b ≡ true
    → is_newer_than b a ≡ true
    → is_newer_than c a ≡ true
unfolding is_newer_than
is_newer_than_trans a b c h k e f = ground (
  arith,
  text_ltb_trans a.ts b.ts c.ts,
  text_ltb_trans c.ts a.ts b.ts,
  text_ltb_trans b.ts c.ts a.ts,
  text_ltb_trans a.id b.id c.id,
  text_ltb_total a.ts b.ts,
  text_ltb_total b.ts c.ts,
  text_ltb_irrefl a.ts,
  text_ltb_irrefl c.ts,
)

-- A watermark that only moves to newer messages never lets an older one through again: what is newer
-- than a message newer than `a` is newer than `a`, and `a` is not newer than it, where the messages
-- have timestamps.
pub is_newer_than_strict :
    (a b c : Mark)
    → a.ts ≢ []
    → b.ts ≢ []
    → c.ts ≢ []
    → is_newer_than c b ≡ true
    → is_newer_than b a ≡ true
    → (is_newer_than c a ≡ true) × (is_newer_than a c ≡ false)
is_newer_than_strict a b c h k l e f =
    let up = is_newer_than_trans a b c h k e f in (up, is_newer_than_asym c a l h up)

-- On every other thread the guard changes nothing, and neither does a recorded wake.
pub lookup-attempt_other :
    (limits : Limits) (w : Wakes) (a : Attempt) (k : Text)
    → k ≢ a.thread
    → lookup k (attempt limits w a).0.threads ≡ lookup k w.threads
unfolding attempt wake_gate record_wake
lookup-attempt_other limits w a k h =
    let threads =
      if window_over limits a.now (lookup a.thread w.threads)
      then erase a.thread w.threads
      else w.threads in
    ground (
      arith,
      lookup-erase k a.thread w.threads,
      lookup-insert k a.thread
          (record {
            wakes = (or_default (lookup a.thread threads) (fresh_wakes a.now)).wakes + 1;
            window_start = (or_default (lookup a.thread threads) (fresh_wakes a.now)).window_start;
            last_at = a.now;
          })
          threads,
    )

-- The entry that the guard judges by: none once its window is over.
abbrev kept : Limits → ℕ → Option ThreadWakes → Option ThreadWakes
kept limits now o = if window_over limits now o then none else o

abbrev woken : ℕ → Option ThreadWakes → ThreadWakes
woken now before = record {
  wakes = (or_default before (fresh_wakes now)).wakes + 1;
  window_start = (or_default before (fresh_wakes now)).window_start;
  last_at = now;
}

abbrev after_window : Limits → Wakes → Attempt → Dict ThreadWakes
after_window limits w a =
    if window_over limits a.now (lookup a.thread w.threads)
    then erase a.thread w.threads
    else w.threads

lookup-after_window :
    (limits : Limits) (w : Wakes) (a : Attempt)
    → lookup a.thread (after_window limits w a) ≡ kept limits a.now (lookup a.thread w.threads)
lookup-after_window limits w a = ground (arith, lookup-erase a.thread a.thread w.threads)

-- The thread of an attempt after it.
attempt_thread :
    (limits : Limits) (w : Wakes) (a : Attempt)
    → let before = kept limits a.now (lookup a.thread w.threads) in
      lookup a.thread (attempt limits w a).0.threads
      ≡ (if (attempt limits w a).1 then some (woken a.now before) else before)
unfolding attempt wake_gate record_wake
attempt_thread limits w a =
    let threads = after_window limits w a in
    ground (
      arith,
      lookup-after_window limits w a,
      lookup-insert a.thread a.thread (woken a.now (lookup a.thread threads)) threads,
    )

attempt_gate :
    (limits : Limits) (w : Wakes) (a : Attempt)
    → (attempt limits w a).1 ≡ true
    → thread_gate limits a.now (kept limits a.now (lookup a.thread w.threads)) ≡ pass
unfolding attempt wake_gate
attempt_gate limits w a h = ground (arith, lookup-after_window limits w a)

-- Every thread has at most `maxThreadWakes` wakes in its window.
abbrev pub ThreadsCapped : Limits → Wakes → Type 0
ThreadsCapped limits w =
    (k : Text) (e : ThreadWakes) → lookup k w.threads ≡ some e → e.wakes ≤ limits.max_thread_wakes

attempt-ThreadsCapped :
    (limits : Limits) (w : Wakes) (a : Attempt)
    → 1 ≤ limits.max_thread_wakes
    → ThreadsCapped limits w
    → ThreadsCapped limits (attempt limits w a).0
unfolding thread_gate
attempt-ThreadsCapped limits w a h capped k e found = elim (text_dec k a.thread) [
  | no p ↦ capped k e (rw (lookup-attempt_other limits w a k p) at found)
  | yes p ↦ ground (
    arith,
    attempt_thread limits w a,
    attempt_gate limits w a,
    capped a.thread e,
    capped a.thread (or_default (lookup a.thread w.threads) (fresh_wakes a.now)),
  )
]

-- Whatever attempts reach the guard, no thread is ever woken more than `maxThreadWakes` times in
-- its window, where the budget is at least one wake.
pub run-ThreadsCapped :
    (limits : Limits) (w : Wakes) (log : List ℕ) (attempts : List Attempt)
    → 1 ≤ limits.max_thread_wakes
    → ThreadsCapped limits w
    → ThreadsCapped limits (run limits w log attempts).0
unfolding run
run-ThreadsCapped limits w log [] h capped = capped
run-ThreadsCapped limits w log (a ∷ more) h capped =
    run-ThreadsCapped limits (attempt limits w a).0 _ more h
      (attempt-ThreadsCapped limits w a h capped)

-- The guard lets a thread that is inside its window through exactly when its last wake is at least
-- the cooldown ago, its budget is not spent, and the global rate allows a wake.
pub wake_gate-pass_iff :
    (limits : Limits) (w : Wakes) (thread : Text) (now : ℕ) (e : ThreadWakes)
    → lookup thread w.threads ≡ some e
    → now ≤ e.window_start + limits.thread_window_seconds * 1000
    → ((wake_gate limits w thread now).1 ≡ pass) ↔ (
        (e.last_at + limits.thread_cooldown_seconds * 1000 ≤ now)
        × (e.wakes < limits.max_thread_wakes)
        × (length (filter (is_recent now) w.wake_times) < limits.max_wakes_per_hour))
unfolding wake_gate thread_gate
wake_gate-pass_iff limits w thread now e found inside = (λ h. ground arith, λ h. ground arith)

-- The cooldown does not outlive the window: once the window of a thread is over, the guard lets it
-- through however recent its last wake is, if the global rate allows a wake.
pub wake_gate_forgets_cooldown :
    (limits : Limits) (w : Wakes) (thread : Text) (now : ℕ) (e : ThreadWakes)
    → lookup thread w.threads ≡ some e
    → e.window_start + limits.thread_window_seconds * 1000 < now
    → now < e.last_at + limits.thread_cooldown_seconds * 1000
    → length (filter (is_recent now) w.wake_times) < limits.max_wakes_per_hour
    → (wake_gate limits w thread now).1 ≡ pass
unfolding wake_gate
wake_gate_forgets_cooldown limits w thread now e found over hot room =
    ground (arith, lookup-erase thread thread w.threads)
