-- ===== src/Bridge/Commands/Tests.antt =====
-- Runs of the capability worker at concrete commands.
use dsh_link.Common.{
  ℕ, ◌≡◌, refl, Option, none, some, List, [], ◌∷◌, ◌++◌, ◌+◌, ◌⊎◌, Text, codes, All, take,
  if◌then◌else◌,
}
use dsh_link.Common.Values.{str}
use dsh_link.Bridge.Commands.{
  Thrown, error_fields, Command, Report, done, failed, Request, post_result, Answer, answered,
  refused, returned, Options, run, run_tick, is_throttled, new_worker,
}
use dsh_link.Bridge.Commands.Reports.{run_reports, heartbeats}
use dsh_link.Bridge.Commands.Laws.{count_named, IsReported}
use dsh_link.Bridge.Commands.Tick.{run_tick_answered}

abbrev command : Text → Command ℕ
command id = record { id = str id; method = str (codes "session.status"); body = 3 }

abbrev commands : List (Option (Command ℕ))
commands = some (command (codes "c1")) ∷ none ∷ some (command (codes "c2")) ∷ []

abbrev network : List (Request ℕ) → Answer ℕ
network log = answered commands

abbrev options : Options ℕ
options = record {
  per_tick = 2;
  beat_ms = 60000;
  handlers = (codes "session.status", λ c. returned (some c.body)) ∷ [];
  described = none;
  counted = none;
  network = network;
}

run_reports_example :
    let id = codes "c1" in
    let w = new_worker ℕ in
    let w' = run ℕ options 9 (some (command id)) w in
    (((r : Report ℕ) × (w'.sent ≡ w.sent ++ post_result id r ∷ []))
      ⊎ ((j : Option ℕ) × (e : Thrown) × (network (w.sent ++ post_result id (done j) ∷ [])
            ≡ refused e)
          × (w'.sent
              ≡ (w.sent ++ post_result id (done j) ∷ [])
                ++ post_result id (failed (error_fields e)) ∷ [])))
    × (w'.executed + w'.failed_count ≡ w.executed + w.failed_count + 1)
run_reports_example = run_reports ℕ options 9 (command (codes "c1")) (new_worker ℕ) refl

run_tick_answered_example :
    let w = new_worker ℕ in
    let w' = run_tick ℕ options 9 w in
    let taken = take 2 commands in
    (w'.executed + w'.failed_count ≡ w.executed + w.failed_count + count_named ℕ taken)
    × All (IsReported ℕ w'.sent) taken
    × (heartbeats ℕ w'.sent ≡ heartbeats ℕ w.sent + (if is_throttled ℕ options 9 w then 0 else 1))
run_tick_answered_example = run_tick_answered ℕ options 9 commands (new_worker ℕ) refl

run-executed : (run_tick ℕ options 9 (new_worker ℕ)).executed ≡ 1
unfolding run_tick dsh_link.Common.text_eq
run-executed = refl
