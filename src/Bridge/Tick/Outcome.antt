-- ===== src/Bridge/Tick/Outcome.antt =====
-- index.js: the watermark, the prompts and the counters over a whole `tick`.
use dsh_link.Common.{ℕ, ◌+◌, ◌≤◌, ◌≡◌, ◌≢◌, true, List, Text, arith}
use dsh_link.Common.{inl, inr, ◌⊎◌}
use dsh_link.Bridge.Wake.{is_newer_than}
use dsh_link.Bridge.Sessions.{Bridge, Settings, Host}
use dsh_link.Bridge.Sessions.Laws.{prompts, creations}
use dsh_link.Bridge.Tick.{Incoming, Fetched, Ending, finished, failed, fetch, ended, tick}
use dsh_link.Bridge.Tick.Moves.{Moves, fetch-Moves}

-- The facts about a whole tick.
record Ticks (b b' : Bridge) : Type 0 where
  prompted : prompts b'.calls ≤ prompts b.calls + 1
  created : creations b'.calls ≤ creations b.calls + 1
  watermark :
      (b'.runtime.watermark ≡ b.runtime.watermark)
      ⊎ (is_newer_than b'.runtime.watermark b.runtime.watermark ≡ true)
  outcome :
      ((b'.errors ≡ b.errors + 1)
        × (b'.runtime.watermark ≡ b.runtime.watermark)
        × (b'.notified ≡ b.notified))
      ⊎ ((b'.errors ≡ b.errors) × (b'.notified ≡ b.notified))
      ⊎ ((b'.errors ≡ b.errors)
          × (prompts b'.calls ≡ prompts b.calls + 1)
          × (is_newer_than b'.runtime.watermark b.runtime.watermark ≡ true))

ended-Ticks : (b b' : Bridge) (ending : Ending) → Moves b b' ending → Ticks b (ended (b', ending))
ended-Ticks b b' finished p = record {
  prompted = p.prompted;
  created = p.created;
  watermark = elim p.watermark [ inl e ↦ inl e | inr (e, f) ↦ inr e ];
  outcome = elim p.notified [
    | inl (e, f) ↦ inr (inl (p.errors, e))
    | inr (e, f, g) ↦ inr (inr (p.errors, e, f))
  ];
}
ended-Ticks b b' (failed e) p =
    let not_finished : failed e ≢ finished = λ q. cc in
    record {
      prompted = p.prompted;
      created = p.created;
      watermark = elim p.watermark [ inl e ↦ inl e | inr (e, f) ↦ inr e ];
      outcome = inl (
        omega (arith, p.errors),
        elim p.watermark [ inl e ↦ e | inr (e, f) ↦ absurd (not_finished f) ],
        elim p.notified [ inl (e, f) ↦ e | inr (e, f, g) ↦ absurd (not_finished g) ],
      );
    }

tick-Ticks :
    (host : Host) (s : Settings) (now : ℕ) (info : Fetched Text) (listed : Fetched (List Incoming))
    (b : Bridge)
    → Ticks b (tick host s now info listed b)
unfolding tick
tick-Ticks host s now info listed b =
    let b1 : Bridge = record b { ticks = b.ticks + 1 } in
    let (b', ending) = fetch host s now info listed b1 in
    let p = ended-Ticks b1 b' ending (fetch-Moves host s now info listed b1) in
    record {
      prompted = p.prompted;
      created = p.created;
      watermark = p.watermark;
      outcome = p.outcome;
    }

-- The watermark never goes back: after a tick it is what it was, or that of a newer message.
pub tick-watermark :
    (host : Host) (s : Settings) (now : ℕ) (info : Fetched Text) (listed : Fetched (List Incoming))
    (b : Bridge)
    → let b' = tick host s now info listed b in
      (b'.runtime.watermark ≡ b.runtime.watermark)
      ⊎ (is_newer_than b'.runtime.watermark b.runtime.watermark ≡ true)
tick-watermark host s now info listed b = (tick-Ticks host s now info listed b).watermark

-- However many messages are listed, a tick prompts at most one session and creates at most one.
pub tick_bounded :
    (host : Host) (s : Settings) (now : ℕ) (info : Fetched Text) (listed : Fetched (List Incoming))
    (b : Bridge)
    → let b' = tick host s now info listed b in
      (prompts b'.calls ≤ prompts b.calls + 1) × (creations b'.calls ≤ creations b.calls + 1)
tick_bounded host s now info listed b =
    let t = tick-Ticks host s now info listed b in (t.prompted, t.created)

-- A tick ends in one of three ways. It counts an error, and then the watermark and the count of
-- notified messages stay, so that the messages come again; or it counts no error and notifies
-- nobody; or it counts no error, has prompted once, and has moved the watermark to a newer message.
pub tick_outcome :
    (host : Host) (s : Settings) (now : ℕ) (info : Fetched Text) (listed : Fetched (List Incoming))
    (b : Bridge)
    → let b' = tick host s now info listed b in
      ((b'.errors ≡ b.errors + 1)
        × (b'.runtime.watermark ≡ b.runtime.watermark)
        × (b'.notified ≡ b.notified))
      ⊎ ((b'.errors ≡ b.errors) × (b'.notified ≡ b.notified))
      ⊎ ((b'.errors ≡ b.errors)
          × (prompts b'.calls ≡ prompts b.calls + 1)
          × (is_newer_than b'.runtime.watermark b.runtime.watermark ≡ true))
tick_outcome host s now info listed b = (tick-Ticks host s now info listed b).outcome
