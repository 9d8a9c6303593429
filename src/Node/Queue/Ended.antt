-- ===== src/Node/Queue/Ended.antt =====
-- src/capabilities.mjs: a finished command is never changed again.
use dsh_link.Common.{
  ℕ, zero, suc, ◌≡◌, ◌≢◌, Bool, true, ◌||◌, some, List, [], ◌∷◌, Text, text_eq, or_default, arith,
}
use dsh_link.Common.{Option-cases, Bool-cases, inl, inr, All}
use dsh_link.Common.Dict.{Dict, lookup-insert}
use dsh_link.Common.Sort.{All-sort_dict}
use dsh_link.Common.Values.{Value}
use dsh_link.Node.Queue.{
  is_terminal, Command, Queue, command_at, records, safe_id, enqueue, taken, claim_one, claim_loop,
  Outcome, finished, finish, complete, given_up, is_young, sweep_loop, set_config, by_id,
  list_records, claim, sweep, new_command,
}
use dsh_link.Node.Queue.Laws.{
  AllNamed, IsWellFormed, records-All, command_at_found, claim_one-IsWellFormed, expire, Op,
  enqueue_op, claim_op, complete_op, sweep_op, config_op, step, steps, step-IsWellFormed,
}

-- The command has this record, and it has ended.
pub record Ended (k : Text) (d : Command) (q : Queue) : Type 0 where
  pub found : command_at q k ≡ some d
  pub ended : is_terminal d.status ≡ true

pub claim_one-Ended :
    (now : ℕ) (owner : Text) (c : Command) (q : Queue)
    → AllNamed q
    → (k : Text) (d : Command) → Ended k d q
    → Ended k d (claim_one now owner c q).0
unfolding claim_one command_at
claim_one-Ended now owner c q named k d e =
    let fresh = or_default (command_at q c.id) c in
    record {
      found = ground (
        arith,
        lookup-insert k fresh.id (some (taken owner now fresh)) q.files,
        named c.id fresh,
      );
      ended = e.ended;
    }

pub claim_loop_keeps :
    (now : ℕ) (owner : Text) (room : ℕ) (listed : Dict Command) (q : Queue) (k : Text) (d : Command)
    → IsWellFormed q
    → Ended k d q
    → Ended k d (claim_loop now owner room listed q).0
unfolding claim_loop
claim_loop_keeps now owner room [] q k d w e = e
claim_loop_keeps now owner zero ((name, c) ∷ listed) q k d w e = e
claim_loop_keeps now owner (suc room) ((name, c) ∷ listed) q k d w e =
    let (q', got) = claim_one now owner c q in
    let w' : IsWellFormed q' = claim_one-IsWellFormed now owner c q w in
    let e' : Ended k d q' = claim_one-Ended now owner c q w.named k d e in
    elim (Option-cases got) [
      | inl nothing ↦ rw nothing (claim_loop_keeps now owner (suc room) listed q' k d w' e')
      | inr (u, some_one) ↦ rw some_one (claim_loop_keeps now owner room listed q' k d w' e')
    ]

-- Where the command has ended, the listing says so.
abbrev AgreesOn : Text → Dict Command → Type 0
AgreesOn k listed = All (λ e. e.1.id ≡ k → is_terminal e.1.status ≡ true) listed

sweep_loop_keeps :
    (now : ℕ) (listed : Dict Command) (q : Queue) (k : Text) (d : Command)
    → AgreesOn k listed
    → Ended k d q
    → Ended k d (sweep_loop now listed q).0
unfolding sweep_loop
sweep_loop_keeps now [] q k d _ e = e
sweep_loop_keeps now ((name, c) ∷ listed) q k d (a, as_) e =
    elim (Bool-cases (is_terminal c.status || is_young q now c.created_at)) [
      | inl skip ↦ rw skip (sweep_loop_keeps now listed q k d as_ e)
      | inr old ↦ rw old (
          sweep_loop_keeps now listed (expire now c q) k d as_ (record {
            found =
                unfold command_at in
                ground (arith, lookup-insert k c.id (some (given_up now c)) q.files, e.found);
            ended = e.ended;
          }))
    ]

finish-Ended :
    (q : Queue) (k name : Text) (d c : Command) (outcome : Outcome) (now : ℕ)
    → command_at q name ≡ some c
    → Ended k d q
    → Ended k d (finish q name outcome now (some c)).0
unfolding command_at
finish-Ended q k name d c outcome now h e = record {
  found =
      ground
        (arith, lookup-insert k name (some (finished q outcome now c)) q.files, e.found, e.ended);
  ended = e.ended;
}

complete-Ended :
    (q : Queue) (k : Text) (d : Command) (id : Value) (outcome : Outcome) (now : ℕ)
    → Ended k d q
    → Ended k d (complete q id outcome now).0
unfolding complete
complete-Ended q k d id outcome now e = elim (Option-cases (safe_id id)) [
  | inl bad ↦ rw (bad, complete) e
  | inr (name, good) ↦ elim (Option-cases (command_at q name)) [
    | inl absent ↦ rw (good, absent, complete) e
    | inr (c, found) ↦ rw (good, found, complete) (finish-Ended q k name d c outcome now found e)
  ]
]

enqueue-Ended :
    (q : Queue) (k : Text) (d : Command) (id : Text) (now : ℕ) (peer : Text) (method : Value)
    → id ≢ k
    → Ended k d q
    → Ended k d (enqueue q id now peer method).0
unfolding enqueue command_at
enqueue-Ended q k d id now peer method fresh e = record {
  found = ground (arith, lookup-insert k id (some (new_command id method now)) q.files, e.found);
  ended = e.ended;
}

-- No call of `enqueue` is given the id again.
abbrev pub IsNotReused : Text → Op → Type 0
IsNotReused k (enqueue_op id now peer method) = id ≢ k
IsNotReused k _ = Unit

module _ (id_le : Text → Text → Bool) where
  list_records-AgreesOn :
      (q : Queue) (k : Text) (d : Command)
      → IsWellFormed q
      → Ended k d q
      → AgreesOn k (list_records id_le q)
  unfolding list_records
  list_records-AgreesOn q k d w e =
      let P : Text × Command → Type 0 = λ x. x.1.id ≡ k → is_terminal x.1.status ≡ true in
      All-sort_dict (by_id id_le) P (records q.files) (
        records-All P q.files w.distinct
          (λ j c found i same. ground (arith, command_at_found q j c found, e.found, e.ended)))

  pub step-Ended :
      (q : Queue) (k : Text) (d : Command) (op : Op)
      → IsWellFormed q
      → IsNotReused k op
      → Ended k d q
      → Ended k d (step id_le q op)
  unfolding step
  step-Ended q k d (enqueue_op id now peer method) w fresh e =
      enqueue-Ended q k d id now peer method fresh e
  step-Ended q k d (claim_op limit bridge now) w _ e =
      unfold claim in claim_loop_keeps now _ _ (list_records id_le q) q k d w e
  step-Ended q k d (complete_op id outcome now) w _ e = complete-Ended q k d id outcome now e
  step-Ended q k d (sweep_op now) w _ e =
      unfold sweep in
      sweep_loop_keeps now (list_records id_le q) q k d (list_records-AgreesOn q k d w e) e
  step-Ended q k d (config_op raw) w _ e =
      unfold set_config command_at in record { found = e.found; ended = e.ended }

  -- A command that has ended, done, failed or expired, keeps its record, whatever calls follow:
  -- claims, further completions, sweeps and changes of the configuration, and other commands that
  -- are queued, where the directory is in order and no new command gets the same id.
  pub steps-Ended :
      (q : Queue) (k : Text) (d : Command) (ops : List Op)
      → IsWellFormed q
      → All (IsNotReused k) ops
      → command_at q k ≡ some d
      → is_terminal d.status ≡ true
      → command_at (steps id_le q ops) k ≡ some d
  unfolding steps
  steps-Ended q k d [] w _ h t = h
  steps-Ended q k d (op ∷ ops) w (fresh, more) h t =
      let e = step-Ended q k d op w fresh (record { found = h; ended = t }) in
      steps-Ended (step id_le q op) k d ops (step-IsWellFormed id_le q op w) more e.found e.ended
