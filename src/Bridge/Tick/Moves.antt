-- ===== src/Bridge/Tick/Moves.antt =====
-- index.js: what `tick` does before it counts an error.
use dsh_link.Common.{ℕ, ◌+◌, ◌≤◌, ◌≡◌, refl, Bool, true, some, List, [], ◌∷◌, Text, arith}
use dsh_link.Common.{Bool-cases, inl, inr, ◌⊎◌, filter, length, All}
use dsh_link.Common.Int.{pos}
use dsh_link.Bridge.Topics.Keys.{topic_key_for}
use dsh_link.Bridge.Routes.Sweeping.{sweep_routes}
use dsh_link.Bridge.Wake.{
  Mark, is_newer_than, Gate, pass, cooldown, thread_budget, rate_cap, wake_gate,
}
use dsh_link.Bridge.Sessions.{Bridge, Settings, Host, sweep_sessions}
use dsh_link.Bridge.Sessions.Laws.{
  prompts, creations, IsAside, IsAside-weaken, IsAside-refl, sweep_sessions-IsAside,
}
use dsh_link.Bridge.Tick.{
  Incoming, Fetched, fetched, unreachable, Ending, finished, failed, mark_of, is_fresh, or_table,
  judged, is_cooling, newest_of, handle, on_messages, fetch,
}
use dsh_link.Bridge.Tick.Laws.{Course, IsAside-Course, Course-behind, wake-Course}

judged-Course :
    (host : Host) (s : Settings) (now : ℕ) (newest : Incoming) (count : ℕ) (key : Text) (b : Bridge)
    (gate : Gate)
    → let out = judged host s now newest count key b gate in Course (mark_of newest) b out.0 out.1
judged-Course host s now newest count key b pass = wake-Course host s now newest count key b
judged-Course host s now newest count key b (cooldown left) = record {
  prompted = omega arith;
  created = omega arith;
  errors = refl;
  watermark = inl refl;
  notified = inl (refl, refl);
}
judged-Course host s now newest count key b (thread_budget wakes minutes) = record {
  prompted = omega arith;
  created = omega arith;
  errors = refl;
  watermark = inr (refl, refl);
  notified = inl (refl, refl);
}
judged-Course host s now newest count key b (rate_cap wakes) = record {
  prompted = omega arith;
  created = omega arith;
  errors = refl;
  watermark = inr (refl, refl);
  notified = inl (refl, refl);
}

handle-Course :
    (host : Host) (s : Settings) (now : ℕ) (m : Incoming) (messages : List Incoming) (b : Bridge)
    → let out = handle host s now (m ∷ messages) b in
      Course (mark_of (newest_of m messages)) b out.0 out.1
handle-Course host s now m messages b =
    let newest = newest_of m messages in
    let key = topic_key_for (some newest.message) s.topics in
    let (wakes, gate) = wake_gate s.limits b.runtime.wakes key now in
    let asked : Bridge = record b { runtime = record b.runtime { wakes = wakes } } in
    let course = judged-Course host s now newest (length (m ∷ messages)) key asked gate in
    elim (Bool-cases (is_cooling s now b)) [
      | inl e ↦
          rw e
            (IsAside-Course (mark_of newest) b b finished (IsAside-weaken 1 b b (IsAside-refl b)))
      | inr e ↦ rw e (record {
        prompted = course.prompted;
        created = course.created;
        errors = course.errors;
        watermark = course.watermark;
        notified = course.notified;
      })
    ]

-- What a tick may do, up to the counting of its error.
pub record Moves (b b' : Bridge) (ending : Ending) : Type 0 where
  pub prompted : prompts b'.calls ≤ prompts b.calls + 1
  pub created : creations b'.calls ≤ creations b.calls + 1
  pub errors : b'.errors ≡ b.errors
  pub watermark :
      (b'.runtime.watermark ≡ b.runtime.watermark)
      ⊎ ((is_newer_than b'.runtime.watermark b.runtime.watermark ≡ true) × (ending ≡ finished))
  pub notified :
      ((b'.notified ≡ b.notified) × (b'.runtime.last_notify_at ≡ b.runtime.last_notify_at))
      ⊎ ((prompts b'.calls ≡ prompts b.calls + 1)
          × (is_newer_than b'.runtime.watermark b.runtime.watermark ≡ true)
          × (ending ≡ finished))

IsAside-Moves : (b b' : Bridge) (ending : Ending) → IsAside 1 b b' → Moves b b' ending
IsAside-Moves b b' ending p = record {
  prompted = omega (arith, p.prompted);
  created = p.created;
  errors = p.errors;
  watermark = inl p.watermark;
  notified = inl (p.notified, p.last_notify_at);
}

Course-Moves :
    (mark : Mark) (b b' : Bridge) (ending : Ending)
    → is_newer_than mark b.runtime.watermark ≡ true
    → Course mark b b' ending
    → Moves b b' ending
Course-Moves mark b b' ending newer p = record {
  prompted = p.prompted;
  created = p.created;
  errors = p.errors;
  watermark = elim p.watermark [ inl e ↦ inl e | inr (e, f) ↦ inr (rw e newer, f) ];
  notified = elim p.notified [ inl e ↦ inl e | inr (e, f, g) ↦ inr (e, rw f newer, g) ];
}

filter-All : (f : Incoming → Bool) (ms : List Incoming) → All (λ m. f m ≡ true) (filter f ms)
unfolding filter
filter-All f [] = tt
filter-All f (m ∷ ms) = elim (Bool-cases (f m)) [
  | inl e ↦ rw e (e, filter-All f ms)
  | inr e ↦ rw e (filter-All f ms)
]

newest_of-All :
    (P : Incoming → Type 0) (m : Incoming) (ms : List Incoming)
    → All P (m ∷ ms)
    → P (newest_of m ms)
newest_of-All P m [] h = h.0
newest_of-All P m (m' ∷ ms) h = newest_of-All P m' ms h.1

is_fresh_newer :
    (w : Mark) (m : Incoming) → is_fresh w m ≡ true → is_newer_than (mark_of m) w ≡ true
is_fresh_newer w m h = ground arith

handle-Moves :
    (host : Host) (s : Settings) (now : ℕ) (messages : List Incoming) (a b : Bridge)
    → IsAside 0 a b
    → All (λ m. is_fresh a.runtime.watermark m ≡ true) messages
    → let out = handle host s now messages b in Moves a out.0 out.1
handle-Moves host s now [] a b p fresh = IsAside-Moves a b finished (IsAside-weaken 1 a b p)
handle-Moves host s now (m ∷ messages) a b p fresh =
    let newest = newest_of m messages in
    let (b', ending) = handle host s now (m ∷ messages) b in
    Course-Moves (mark_of newest) a b' ending
      (is_fresh_newer a.runtime.watermark newest
        (newest_of-All (λ m. is_fresh a.runtime.watermark m ≡ true) m messages fresh))
      (Course-behind (mark_of newest) a b b' ending p (handle-Course host s now m messages b))

on_messages-Moves :
    (host : Host) (s : Settings) (now : ℕ) (listed : List Incoming) (b : Bridge)
    → let out = on_messages host s now listed b in Moves b out.0 out.1
unfolding on_messages
on_messages-Moves host s now listed b =
    let fresh : Incoming → Bool = is_fresh b.runtime.watermark in
    let swept = sweep_sessions host s now b in
    let table = or_table (sweep_routes (some swept.runtime.routes) (pos now) s.routes).0 in
    let b1 : Bridge = record swept { runtime = record swept.runtime { routes = table } } in
    let p = sweep_sessions-IsAside host s now b in
    handle-Moves host s now (filter fresh listed) b b1
      (record {
        prompted = p.prompted;
        created = p.created;
        watermark = p.watermark;
        last_notify_at = p.last_notify_at;
        notified = p.notified;
        errors = p.errors;
      })
      (filter-All fresh listed)

pub fetch-Moves :
    (host : Host) (s : Settings) (now : ℕ) (info : Fetched Text) (listed : Fetched (List Incoming))
    (b : Bridge)
    → let out = fetch host s now info listed b in Moves b out.0 out.1
fetch-Moves host s now (unreachable e) listed b =
    IsAside-Moves b b (failed e) (IsAside-weaken 1 b b (IsAside-refl b))
fetch-Moves host s now (fetched info) (unreachable e) b =
    IsAside-Moves b b (failed e) (IsAside-weaken 1 b b (IsAside-refl b))
fetch-Moves host s now (fetched info) (fetched listed) b = on_messages-Moves host s now listed b
