-- ===== src/Node/Queue/Waiting.antt =====
-- src/capabilities.mjs: `wait`. What the others do with the queue in a pause is a parameter, and so is
-- the time at which the process is closed, if it is. A pause takes the time that it is given, but ends
-- when the process is closed.
use dsh_link.Common.{
  ℕ, zero, suc, ◌+◌, ◌*◌, ◌-◌, min, ◌≤◌, ◌<◌, ◌≡◌, ◌⊎◌, ◌||◌, refl, sym, Bool, true, false, Option,
  none, some, Text,
}
use dsh_link.Common.{if◌then◌else◌, leb, Bool-cases, Option-cases, inl, inr, arith}
use dsh_link.Common.Values.{Value}
use dsh_link.Node.Readers.{to_int}
use dsh_link.Node.Queue.{is_terminal, Command, Queue, command_at, safe_id}

-- The record, where the command has ended.
unfoldable pub ended : Option Command → Option Command
ended none = none
ended (some c) = if is_terminal c.status then some c else none

-- Is the process closed at this time?
abbrev pub is_closed : Option ℕ → ℕ → Bool
is_closed none now = false
is_closed (some at) now = leb at now

-- How long a pause of so many milliseconds takes, from this time.
abbrev pub pause_of : Option ℕ → ℕ → ℕ → ℕ
pause_of none now ms = ms
pause_of (some at) now ms = min ms (at - now)

-- How `wait` ends: the queue and the time then, and what it gives.
pub record Waited : Type 0 where
  pub queue : Queue
  pub at : ℕ
  pub given : Option Command

-- What one round gives: the record that has ended, nothing, or what the later rounds give.
abbrev pub answer : Queue → ℕ → Bool → Option Waited → Option Command → Option Waited
answer q now over later (some c) = some (record { queue = q; at = now; given = some c })
answer q now over later none =
    if over then some (record { queue = q; at = now; given = none }) else later

-- What is given is the record as it then stands, where the command has ended, and it is nothing only
-- when the time is over or the process is closed. It is given no later than when the time is over.
pub record IsAnswer (closing : Option ℕ) (name : Text) (deadline : ℕ) (out : Waited) : Type 0 where
  pub stands : out.given ≡ ended (command_at out.queue name)
  pub not_early : out.given ≡ none → (deadline ≤ out.at) ⊎ (is_closed closing out.at ≡ true)
  pub not_late : out.at ≤ deadline

abbrev pub IsAnswerTo : Option ℕ → Option Text → ℕ → Waited → Type 0
IsAnswerTo closing none deadline out = out.given ≡ none
IsAnswerTo closing (some name) deadline out = IsAnswer closing name deadline out

-- `toInt(ms, …)`
abbrev pub timeout_of : Value → Queue → ℕ
timeout_of ms q = to_int ms (q.policy.max_wait_seconds * 1000) 0 3600000

module _ (others : ℕ → Queue → Queue) (closing : Option ℕ) where
  -- The loop of `wait`; `none` if the fuel does not do.
  unfoldable pub wait_loop : ℕ → Text → ℕ → ℕ → Queue → Option Waited
  unfolding command_at ended
  wait_loop zero name deadline now q = none
  wait_loop (suc fuel) name deadline now q =
      let pause = pause_of closing now (min 150 (deadline - now)) in
      let later = wait_loop fuel name deadline (now + pause) (others pause q) in
      answer q now (is_closed closing now || leb deadline now) later (ended (command_at q name))

  abbrev wait_named : ℕ → ℕ → Queue → Option Text → Option Waited
  wait_named timeout now q none = some (record { queue = q; at = now; given = none })
  wait_named timeout now q (some name) = wait_loop (suc timeout) name (now + timeout) now q

  -- `wait`, at a time. Each pause takes a millisecond at least, so the fuel does.
  unfoldable pub wait : Value → Value → ℕ → Queue → Option Waited
  unfolding safe_id to_int wait_loop
  wait id ms now q = wait_named (timeout_of ms q) now q (safe_id id)

  is_open-pause_of :
      (now ms : ℕ)
      → is_closed closing now ≡ false
      → 1 ≤ ms
      → (1 ≤ pause_of closing now ms) × (pause_of closing now ms ≤ ms)
  is_open-pause_of now ms o h = elim (Option-cases closing) [
    | inl e ↦ ground arith
    | inr (at, e) ↦ ground arith
  ]

  open_parts :
      (now deadline : ℕ)
      → (is_closed closing now || leb deadline now) ≡ false
      → (is_closed closing now ≡ false) × (now < deadline)
  open_parts now deadline g = ground arith

  wait_loop_ends :
      (fuel : ℕ) (name : Text) (deadline now : ℕ) (q : Queue)
      → now ≤ deadline
      → deadline + 1 ≤ now + fuel
      → (out : Waited) × (wait_loop fuel name deadline now q ≡ some out)
        × IsAnswer closing name deadline out
  unfolding wait_loop
  wait_loop_ends zero name deadline now q w h = absurd (ground arith)
  wait_loop_ends (suc fuel) name deadline now q w h =
      elim (Option-cases (ended (command_at q name))) [
        | inr (c, e) ↦ (
          record { queue = q; at = now; given = some c },
          rw e refl,
          record { stands = sym e; not_early = λ n. absurd (ground arith); not_late = w },
        )
        | inl e ↦ elim (Bool-cases (is_closed closing now || leb deadline now)) [
          | inl g ↦ (
            record { queue = q; at = now; given = none },
            rw (e, g) refl,
            record { stands = sym e; not_early = λ n. ground arith; not_late = w },
          )
          | inr g ↦
              let (o, l) = open_parts now deadline g in
              let ms = min 150 (deadline - now) in
              let pause = pause_of closing now ms in
              let (some_time, bounded) = is_open-pause_of now ms o (omega (arith, l)) in
              let (out, f, a) =
                wait_loop_ends fuel name deadline (now + pause) (others pause q)
                  (omega (arith, l, bounded)) (omega (arith, h, some_time)) in
              (out, rw (e, g) f, a)
        ]
      ]

  wait_named_ends :
      (timeout now : ℕ) (q : Queue) (id : Option Text)
      → (out : Waited) × (wait_named timeout now q id ≡ some out)
        × IsAnswerTo closing id (now + timeout) out
  wait_named_ends timeout now q none = (record { queue = q; at = now; given = none }, refl, refl)
  wait_named_ends timeout now q (some name) =
      wait_loop_ends (suc timeout) name (now + timeout) now q (omega arith) (omega arith)

  -- `wait` ends, whatever the others do with the queue and whenever the process is closed, and no later
  -- than its limit of time. It gives the record of the command as it then stands, if the command has
  -- ended; it gives nothing only if the command has not ended when the limit is reached or the process
  -- is closed, or if the id is none of a command.
  pub wait_ends :
      (id ms : Value) (now : ℕ) (q : Queue)
      → (out : Waited) × (wait id ms now q ≡ some out)
        × IsAnswerTo closing (safe_id id) (now + timeout_of ms q) out
  unfolding wait
  wait_ends id ms now q = wait_named_ends (timeout_of ms q) now q (safe_id id)
