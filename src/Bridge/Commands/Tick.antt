-- ===== src/Bridge/Commands/Tick.antt =====
-- commands.js, `runTick`: claim, run, report, then at most one heartbeat.
use dsh_link.Common.{ℕ, ◌+◌, ◌≡◌, ◌∙◌, refl, ap, sym, subst, not, ◌&&◌, Option, List, [], ◌∷◌, ◌++◌}
use dsh_link.Common.{if◌then◌else◌, take, arith, Bool-cases, inl, inr, All, ltb, eqb}
use mathlib.Core.List.{append-nil}
use dsh_link.Bridge.Commands.{
  Command, Request, get_commands, post_heartbeat, answered, Worker, Options, run_all, is_throttled,
  beat, beat_now, run_tick,
}
use dsh_link.Bridge.Commands.Reports.{heartbeats, heartbeats-append, Answer-cases}
use dsh_link.Bridge.Commands.Laws.{count_named, IsReported, run_all-RunsAll, IsReported-append}

module _ (J : Type 0) where
  -- The facts about `beat`.
  record Beats (o : Options J) (at : ℕ) (w w' : Worker J) : Type 0 where
    more : List (Request J)
    sent : w'.sent ≡ w.sent ++ more
    counted : w'.executed + w'.failed_count ≡ w.executed + w.failed_count
    beats : heartbeats J more ≡ (if is_throttled J o at w then 0 else 1)

  beat-Beats : (o : Options J) (at : ℕ) (w : Worker J) → Beats o at w (beat J o at w)
  unfolding beat
  beat-Beats o at w =
      let log : List (Request J) = w.sent ++ post_heartbeat (beat_now J o at) ∷ [] in
      elim (Bool-cases (is_throttled J o at w)) [
        | inl e ↦ rw e (record {
          more = [];
          sent = sym (append-nil w.sent);
          counted = refl;
          beats = rw e refl;
        })
        | inr e ↦ elim (Answer-cases J (o.network log)) [
          | inl (cs, h) ↦
              rw (e, h)
                (record {
                  more = post_heartbeat (beat_now J o at) ∷ [];
                  sent = refl;
                  counted = refl;
                  beats = rw e refl;
                })
          | inr (f, h) ↦
              rw (e, h)
                (record {
                  more = post_heartbeat (beat_now J o at) ∷ [];
                  sent = refl;
                  counted = refl;
                  beats = rw e refl;
                })
        ]
      ]

  All-IsReported-append :
      (xs ys : List (Request J)) (commands : List (Option (Command J)))
      → All (IsReported J xs) commands
      → All (IsReported J (xs ++ ys)) commands
  All-IsReported-append xs ys [] h = tt
  All-IsReported-append xs ys (c ∷ commands) (h, hs) =
      (IsReported-append J xs ys c h, All-IsReported-append xs ys commands hs)

  sent_beats :
      (log : List (Request J)) (n : ℕ) (xs ys log1 log2 : List (Request J))
      → log1 ≡ (log ++ get_commands n ∷ []) ++ xs
      → log2 ≡ log1 ++ ys
      → heartbeats J xs ≡ 0
      → heartbeats J log2 ≡ heartbeats J log + heartbeats J ys
  sent_beats log n xs ys log1 log2 e f quiet = omega (
    arith,
    ap (heartbeats J) f,
    ap (heartbeats J) e,
    heartbeats-append J log1 ys,
    heartbeats-append J (log ++ get_commands n ∷ []) xs,
    heartbeats-append J log (get_commands n ∷ []),
    quiet,
  )

  -- If the claim is answered, a tick runs the first `per_tick` of the commands: each that has an id
  -- has a result posted and is counted once, as executed or as failed, and one heartbeat is sent
  -- unless the last one is too recent.
  pub run_tick_answered :
      (o : Options J) (at : ℕ) (commands : List (Option (Command J))) (w : Worker J)
      → o.network (w.sent ++ get_commands o.per_tick ∷ []) ≡ answered commands
      → let w' = run_tick J o at w in
        let taken = take o.per_tick commands in
        (w'.executed + w'.failed_count ≡ w.executed + w.failed_count + count_named J taken)
        × All (IsReported J w'.sent) taken
        × (heartbeats J w'.sent ≡ heartbeats J w.sent + (if is_throttled J o at w then 0 else 1))
  unfolding run_tick
  run_tick_answered o at commands w e =
      let log : List (Request J) = w.sent ++ get_commands o.per_tick ∷ [] in
      let asked : Worker J = record w { ticks = w.ticks + 1; sent = log } in
      let taken = take o.per_tick commands in
      let ran = run_all-RunsAll J o at taken asked in
      let w2 : Worker J = run_all J o at taken asked in
      let beaten = beat-Beats o at w2 in
      let final = (beat J o at w2).sent in
      let counted : (beat J o at w2).executed + (beat J o at w2).failed_count
          ≡ w2.executed + w2.failed_count =
        beaten.counted in
      let same : is_throttled J o at w2 ≡ is_throttled J o at w =
        ap (λ n. not (eqb n 0) && ltb at (n + o.beat_ms)) ran.beat_at in
      let reported : All (IsReported J final) taken =
        subst (λ l. All (IsReported J l) taken) (sym beaten.sent)
          (All-IsReported-append w2.sent beaten.more taken ran.reported) in
      let beats : heartbeats J final
          ≡ heartbeats J w.sent + (if is_throttled J o at w then 0 else 1) =
        sent_beats w.sent o.per_tick ran.more beaten.more w2.sent final ran.sent beaten.sent
          ran.quiet
        ∙ ap (λ n. heartbeats J w.sent + n) (beaten.beats ∙ ap (λ b. if b then 0 else 1) same) in
      rw e (omega (arith, counted, ran.counted), reported, beats)
