-- ===== src/Bridge/Commands/Reports.antt =====
-- commands.js, `run`: every command is reported once.
use dsh_link.Common.{ℕ, suc, ◌+◌, ◌≡◌, refl, false, Option, some, List, [], ◌∷◌, ◌++◌, Text}
use dsh_link.Common.{is_empty, arith, ◌⊎◌, inl, inr}
use dsh_link.Common.Dict.{lookup}
use dsh_link.Bridge.Commands.{
  Thrown, error_fields, Command, Report, done, failed, Request, get_commands, post_result,
  post_heartbeat, Answer, answered, refused, Outcome, returned, threw, Worker, Options, report,
  report_failure, outcome_of, text_or_empty, id_of, run,
}

module _ (J : Type 0) where
  -- A result was posted for the id.
  abbrev pub HasPost : Text → List (Request J) → Type 0
  HasPost id [] = ⊥
  HasPost id (get_commands n ∷ log) = HasPost id log
  HasPost id (post_result j r ∷ log) = (j ≡ id) ⊎ HasPost id log
  HasPost id (post_heartbeat b ∷ log) = HasPost id log

  pub HasPost-append_left :
      (id : Text) (xs ys : List (Request J)) → HasPost id xs → HasPost id (xs ++ ys)
  HasPost-append_left id (get_commands n ∷ xs) ys h = HasPost-append_left id xs ys h
  HasPost-append_left id (post_result j r ∷ xs) ys (inl e) = inl e
  HasPost-append_left id (post_result j r ∷ xs) ys (inr h) = inr (HasPost-append_left id xs ys h)
  HasPost-append_left id (post_heartbeat b ∷ xs) ys h = HasPost-append_left id xs ys h
  HasPost-append_left id [] ys h = absurd h

  pub HasPost-append_right :
      (id : Text) (xs ys : List (Request J)) → HasPost id ys → HasPost id (xs ++ ys)
  HasPost-append_right id [] ys h = h
  HasPost-append_right id (get_commands n ∷ xs) ys h = HasPost-append_right id xs ys h
  HasPost-append_right id (post_result j r ∷ xs) ys h = inr (HasPost-append_right id xs ys h)
  HasPost-append_right id (post_heartbeat b ∷ xs) ys h = HasPost-append_right id xs ys h

  abbrev pub heartbeats : List (Request J) → ℕ
  heartbeats [] = 0
  heartbeats (get_commands n ∷ log) = heartbeats log
  heartbeats (post_result j r ∷ log) = heartbeats log
  heartbeats (post_heartbeat b ∷ log) = suc (heartbeats log)

  pub heartbeats-append :
      (xs ys : List (Request J)) → heartbeats (xs ++ ys) ≡ heartbeats xs + heartbeats ys
  heartbeats-append [] ys = omega arith
  heartbeats-append (get_commands n ∷ xs) ys = heartbeats-append xs ys
  heartbeats-append (post_result j r ∷ xs) ys = heartbeats-append xs ys
  heartbeats-append (post_heartbeat b ∷ xs) ys = omega (arith, heartbeats-append xs ys)

  -- The requests that reporting one command adds to the log.
  pub record Reports (o : Options J) (id : Text) (w w' : Worker J) : Type 0 where
    pub sent :
        ((r : Report J) × (w'.sent ≡ w.sent ++ post_result id r ∷ []))
        ⊎ ((j : Option J) × (e : Thrown) × (o.network (w.sent ++ post_result id (done j) ∷ [])
              ≡ refused e)
            × (w'.sent
                ≡ (w.sent ++ post_result id (done j) ∷ [])
                  ++ post_result id (failed (error_fields e)) ∷ []))
    pub counted : w'.executed + w'.failed_count ≡ w.executed + w.failed_count + 1
    pub beat_at : w'.beat_at ≡ w.beat_at

  pub Answer-cases :
      (a : Answer J)
      → ((cs : List (Option (Command J))) × (a ≡ answered cs)) ⊎ ((e : Thrown) × (a ≡ refused e))
  Answer-cases (answered cs) = inl (cs, refl)
  Answer-cases (refused e) = inr (e, refl)

  -- What reporting a failure does.
  record Fails (o : Options J) (id : Text) (e : Thrown) (w w' : Worker J) : Type 0 where
    pub sent : w'.sent ≡ w.sent ++ post_result id (failed (error_fields e)) ∷ []
    executed : w'.executed ≡ w.executed
    pub counted : w'.failed_count ≡ w.failed_count + 1
    pub beat_at : w'.beat_at ≡ w.beat_at

  report_failure-Fails :
      (o : Options J) (at : ℕ) (id : Text) (e : Thrown) (w : Worker J)
      → Fails o id e w (report_failure J o at id e w)
  report_failure-Fails o at id e w =
      elim (Answer-cases (o.network (w.sent ++ post_result id (failed (error_fields e)) ∷ []))) [
        | inl (cs, h) ↦
            rw h (record { sent = refl; executed = refl; counted = refl; beat_at = refl })
        | inr (f, h) ↦
            rw h (record { sent = refl; executed = refl; counted = refl; beat_at = refl })
      ]

  report-Reports :
      (o : Options J) (at : ℕ) (id : Text) (out : Outcome J) (w : Worker J)
      → Reports o id w (report J o at id out w)
  report-Reports o at id (threw e) w =
      let f = report_failure-Fails o at id e w in
      record {
        sent = inl (failed (error_fields e), f.sent);
        counted = omega (arith, f.executed, f.counted);
        beat_at = f.beat_at;
      }
  report-Reports o at id (returned j) w =
      let log : List (Request J) = w.sent ++ post_result id (done j) ∷ [] in
      elim (Answer-cases (o.network log)) [
        | inl (cs, h) ↦
            rw h (record { sent = inl (done j, refl); counted = omega arith; beat_at = refl })
        | inr (e, h) ↦
            let f = report_failure-Fails o at id e (record w { sent = log }) in
            rw h (record {
              sent = inr (j, e, h, f.sent);
              counted = omega (arith, f.executed, f.counted);
              beat_at = f.beat_at;
            })
      ]

  pub run-Reports :
      (o : Options J) (at : ℕ) (c : Command J) (w : Worker J)
      → is_empty (text_or_empty J c.id) ≡ false
      → Reports o (text_or_empty J c.id) w (run J o at (some c) w)
  unfolding run
  run-Reports o at c w named =
      let out = outcome_of J (lookup (text_or_empty J c.method) o.handlers) c in
      let r =
        report-Reports o at (text_or_empty J c.id) out (record w { last_command_at = some at }) in
      rw named (record { sent = r.sent; counted = r.counted; beat_at = r.beat_at })

  -- Every command that has an id is reported: one result is posted for it and nothing else, or, if
  -- posting the handler's result fails, that result and then the failure. And the command is counted
  -- once, as executed or as failed.
  pub run_reports :
      (o : Options J) (at : ℕ) (c : Command J) (w : Worker J)
      → is_empty (id_of J (some c)) ≡ false
      → let id = id_of J (some c) in
        let w' = run J o at (some c) w in
        (((r : Report J) × (w'.sent ≡ w.sent ++ post_result id r ∷ []))
          ⊎ ((j : Option J) × (e : Thrown) × (o.network (w.sent ++ post_result id (done j) ∷ [])
                ≡ refused e)
              × (w'.sent
                  ≡ (w.sent ++ post_result id (done j) ∷ [])
                    ++ post_result id (failed (error_fields e)) ∷ [])))
        × (w'.executed + w'.failed_count ≡ w.executed + w.failed_count + 1)
  run_reports o at c w named = let r = run-Reports o at c w named in (r.sent, r.counted)
