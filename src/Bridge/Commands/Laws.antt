-- ===== src/Bridge/Commands/Laws.antt =====
-- commands.js, the loop of `runTick`: every claimed command is reported.
use dsh_link.Common.{
  ℕ, ◌+◌, ◌≡◌, ◌∙◌, refl, ap, sym, subst, true, Option, none, some, List, [], ◌∷◌, ◌++◌,
}
use dsh_link.Common.{is_empty, if◌then◌else◌, arith, Bool-cases, ◌⊎◌, inl, inr, All}
use mathlib.Core.List.{append_assoc, append-nil}
use dsh_link.Bridge.Commands.{
  error_fields, Command, done, failed, Request, post_result, Worker, Options, text_or_empty, id_of,
  run, run_all,
}
use dsh_link.Bridge.Commands.Reports.{
  HasPost, HasPost-append_left, HasPost-append_right, heartbeats, heartbeats-append, run-Reports,
}

module _ (J : Type 0) where
  abbrev pub count_named : List (Option (Command J)) → ℕ
  count_named [] = 0
  count_named (c ∷ commands) = (if is_empty (id_of J c) then 0 else 1) + count_named commands

  -- The command has no id, or a result was posted for it.
  abbrev pub IsReported : List (Request J) → Option (Command J) → Type 0
  IsReported log c = (is_empty (id_of J c) ≡ true) ⊎ HasPost J (id_of J c) log

  -- What the loop over the commands does.
  pub record RunsAll (commands : List (Option (Command J))) (w w' : Worker J) : Type 0 where
    pub more : List (Request J)
    pub sent : w'.sent ≡ w.sent ++ more
    pub reported : All (IsReported w'.sent) commands
    pub counted : w'.executed + w'.failed_count ≡ w.executed + w.failed_count + count_named commands
    pub quiet : heartbeats J more ≡ 0
    pub beat_at : w'.beat_at ≡ w.beat_at

  run-RunsAll :
      (o : Options J) (at : ℕ) (c : Option (Command J)) (w : Worker J)
      → RunsAll (c ∷ []) w (run J o at c w)
  unfolding run
  run-RunsAll o at none w = record {
    more = [];
    sent = sym (append-nil w.sent);
    reported = (inl refl, tt);
    counted = omega arith;
    quiet = refl;
    beat_at = refl;
  }
  run-RunsAll o at (some c) w =
      let id = text_or_empty J c.id in
      elim (Bool-cases (is_empty id)) [
        | inl e ↦
            rw (e, run)
              (record {
                more = [];
                sent = sym (append-nil w.sent);
                reported = (inl e, tt);
                counted = rw e (omega arith);
                quiet = refl;
                beat_at = refl;
              })
        | inr e ↦
            let r = run-Reports J o at c w e in
            let count : count_named (some c ∷ []) ≡ 1 = rw e refl in
            elim r.sent [
              | inl (r1, log) ↦ record {
                more = post_result id r1 ∷ [];
                sent = log;
                reported = (
                  inr (
                      subst (HasPost J id) (sym log)
                        (HasPost-append_right J id w.sent (post_result id r1 ∷ []) (inl refl))),
                  tt,
                );
                counted = omega (arith, r.counted, count);
                quiet = refl;
                beat_at = r.beat_at;
              }
              | inr (j, f, h, log) ↦
                  let first : List (Request J) = post_result id (done j) ∷ [] in
                  let second : List (Request J) = post_result id (failed (error_fields f)) ∷ [] in
                  record {
                    more = first ++ second;
                    sent = log ∙ append_assoc w.sent first second;
                    reported = (
                      inr (
                          subst (HasPost J id) (sym log)
                            (HasPost-append_right J id (w.sent ++ first) second (inl refl))),
                      tt,
                    );
                    counted = omega (arith, r.counted, count);
                    quiet = refl;
                    beat_at = r.beat_at;
                  }
            ]
      ]

  pub IsReported-append :
      (xs ys : List (Request J)) (c : Option (Command J))
      → IsReported xs c
      → IsReported (xs ++ ys) c
  IsReported-append xs ys c (inl e) = inl e
  IsReported-append xs ys c (inr h) = inr (HasPost-append_left J (id_of J c) xs ys h)

  pub run_all-RunsAll :
      (o : Options J) (at : ℕ) (commands : List (Option (Command J))) (w : Worker J)
      → RunsAll commands w (run_all J o at commands w)
  unfolding run_all
  run_all-RunsAll o at [] w = record {
    more = [];
    sent = sym (append-nil w.sent);
    reported = tt;
    counted = omega arith;
    quiet = refl;
    beat_at = refl;
  }
  run_all-RunsAll o at (c ∷ commands) w =
      let w1 : Worker J = run J o at c w in
      let one = run-RunsAll o at c w in
      let rest = run_all-RunsAll o at commands w1 in
      let log : (run_all J o at commands w1).sent ≡ w1.sent ++ rest.more = rest.sent in
      record {
        more = one.more ++ rest.more;
        sent =
            log
            ∙ ap (λ (l : List (Request J)). l ++ rest.more) one.sent
            ∙ append_assoc w.sent one.more rest.more;
        reported = (
          subst (λ l. IsReported l c) (sym log)
              (IsReported-append w1.sent rest.more c one.reported.0),
          rest.reported,
        );
        counted = omega (arith, one.counted, rest.counted);
        quiet = omega (arith, heartbeats-append J one.more rest.more, one.quiet, rest.quiet);
        beat_at = rest.beat_at ∙ one.beat_at;
      }
