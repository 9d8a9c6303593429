-- ===== src/Node/Queue/Lifecycle/Laws.antt =====
-- src/capabilities.mjs: whatever calls the queue gets, what becomes of a command is a life.
use dsh_link.Common.{
  ℕ, ◌≡◌, ◌≢◌, ◌⊎◌, refl, subst, Bool, false, ◌||◌, some, List, [], ◌∷◌, Text, text_eq, text_dec,
  arith,
}
use dsh_link.Common.{Option-cases, Bool-cases, inl, inr, All}
use dsh_link.Common.Dict.{Dict, lookup-insert}
use dsh_link.Common.Sort.{All-sort_dict}
use dsh_link.Common.Values.{Value}
use dsh_link.Node.Queue.{
  done, failed, expired, is_terminal, Command, Queue, command_at, records, safe_id, enqueue,
  Outcome, success, failure, finished, finish, complete, given_up, is_young, sweep_loop, set_config,
  by_id, list_records, claim, sweep, new_command,
}
use dsh_link.Node.Queue.Laws.{
  IsWellFormed, records-All, command_at_found, expire, Op, enqueue_op, claim_op, complete_op,
  sweep_op, config_op, step, steps, step-IsWellFormed,
}
use dsh_link.Node.Queue.Ended.{IsNotReused}
use dsh_link.Node.Queue.Lifecycle.{Phase, phase, Life, rests, ends, Lives, claim_loop-Lives}

-- The command is as it was listed, or it was given up since.
abbrev IsSwept : ℕ → Text → Command → Queue → Type 0
IsSwept now k d q =
    (command_at q k ≡ some d)
    ⊎ ((command_at q k ≡ some (given_up now d)) × (is_terminal d.status ≡ false))

expire-IsSwept :
    (now : ℕ) (c : Command) (q : Queue) (k : Text) (d : Command)
    → (c.id ≡ k → c ≡ d)
    → is_terminal c.status ≡ false
    → IsSwept now k d q
    → IsSwept now k d (expire now c q)
unfolding command_at
expire-IsSwept now c q k d same active s = elim (text_dec c.id k) [
  | yes e ↦ inr (
    ground (arith, e, same e, lookup-insert k c.id (some (given_up now c)) q.files),
    ground (arith, same e),
  )
  | no n ↦ ground (arith, n, s, lookup-insert k c.id (some (given_up now c)) q.files)
]

sweep_loop-IsSwept :
    (now : ℕ) (listed : Dict Command) (q : Queue) (k : Text) (d : Command)
    → All (λ e. e.1.id ≡ k → e.1 ≡ d) listed
    → IsSwept now k d q
    → IsSwept now k d (sweep_loop now listed q).0
unfolding sweep_loop
sweep_loop-IsSwept now [] q k d _ s = s
sweep_loop-IsSwept now ((name, c) ∷ listed) q k d (a, as_) s =
    elim (Bool-cases (is_terminal c.status || is_young q now c.created_at)) [
      | inl skip ↦ rw skip (sweep_loop-IsSwept now listed q k d as_ s)
      | inr old ↦ rw old (
          sweep_loop-IsSwept now listed (expire now c q) k d as_
            (expire-IsSwept now c q k d a (ground arith) s))
    ]

finished-Life :
    (q : Queue) (outcome : Outcome) (now : ℕ) (from : Phase) (c : Command)
    → Life from (phase c)
    → is_terminal c.status ≡ false
    → Life from (phase (finished q outcome now c))
finished-Life q (success json) now from c l active = ends (phase c) done l active refl
finished-Life q (failure message) now from c l active = ends (phase c) failed l active refl

finish-Lives :
    (q : Queue) (k name : Text) (c : Command) (outcome : Outcome) (now : ℕ) (from : Phase)
    → command_at q name ≡ some c
    → Lives k from q
    → Lives k from (finish q name outcome now (some c)).0
unfolding command_at
finish-Lives q k name c outcome now from h l =
    let put = lookup-insert k name (some (finished q outcome now c)) q.files in
    elim (Bool-cases (is_terminal c.status)) [
      | inl over ↦ rw over l
      | inr active ↦ elim (text_dec k name) [
        | yes e ↦
            let same_one : l.now ≡ c = ground (arith, e, h, l.found) in
            rw active (record {
              now = finished q outcome now c;
              found = ground (arith, e, put);
              life =
                  finished-Life q outcome now from c
                    (subst (λ x. Life from (phase x)) same_one l.life) active;
            })
        | no n ↦
            rw active
              (record { now = l.now; found = ground (arith, n, put, l.found); life = l.life })
      ]
    ]

complete-Lives :
    (q : Queue) (k : Text) (id : Value) (outcome : Outcome) (now : ℕ) (from : Phase)
    → Lives k from q
    → Lives k from (complete q id outcome now).0
unfolding complete
complete-Lives q k id outcome now from l = elim (Option-cases (safe_id id)) [
  | inl bad ↦ rw (bad, complete) l
  | inr (name, good) ↦ elim (Option-cases (command_at q name)) [
    | inl absent ↦ rw (good, absent, complete) l
    | inr (c, found) ↦ rw (good, found, complete) (finish-Lives q k name c outcome now from found l)
  ]
]

enqueue-Lives :
    (q : Queue) (k : Text) (id : Text) (now : ℕ) (peer : Text) (method : Value) (from : Phase)
    → id ≢ k
    → Lives k from q
    → Lives k from (enqueue q id now peer method).0
unfolding enqueue command_at
enqueue-Lives q k id now peer method from fresh l = record {
  now = l.now;
  found = ground (arith, lookup-insert k id (some (new_command id method now)) q.files, l.found);
  life = l.life;
}

module _ (id_le : Text → Text → Bool) where
  list_records-at :
      (q : Queue) (k : Text) (d : Command)
      → IsWellFormed q
      → command_at q k ≡ some d
      → All (λ e. e.1.id ≡ k → e.1 ≡ d) (list_records id_le q)
  unfolding list_records
  list_records-at q k d w h =
      let P : Text × Command → Type 0 = λ x. x.1.id ≡ k → x.1 ≡ d in
      All-sort_dict (by_id id_le) P (records q.files) (
        records-All P q.files w.distinct
          (λ j c found i same. ground (arith, command_at_found q j c found, h)))

  sweep-Lives :
      (q : Queue) (k : Text) (now : ℕ) (from : Phase)
      → IsWellFormed q
      → Lives k from q
      → Lives k from (sweep id_le q now).0
  unfolding sweep
  sweep-Lives q k now from w l =
      elim (sweep_loop-IsSwept now (list_records id_le q) q k l.now
        (list_records-at q k l.now w l.found) (inl l.found)) [
          | inl same ↦ record { now = l.now; found = same; life = l.life }
          | inr (new, active) ↦ record {
            now = given_up now l.now;
            found = new;
            life = ends (phase l.now) expired l.life active refl;
          }
        ]

  step-Lives :
      (q : Queue) (k : Text) (op : Op) (from : Phase)
      → IsWellFormed q
      → IsNotReused k op
      → Lives k from q
      → Lives k from (step id_le q op)
  unfolding step
  step-Lives q k (enqueue_op id now peer method) from w fresh l =
      enqueue-Lives q k id now peer method from fresh l
  step-Lives q k (claim_op limit bridge now) from w _ l =
      unfold claim in claim_loop-Lives now _ _ (list_records id_le q) q k from w l
  step-Lives q k (complete_op id outcome now) from w _ l = complete-Lives q k id outcome now from l
  step-Lives q k (sweep_op now) from w _ l = sweep-Lives q k now from w l
  step-Lives q k (config_op raw) from w _ l =
      unfold set_config command_at in record { now = l.now; found = l.found; life = l.life }

  steps-keeps_Lives :
      (q : Queue) (k : Text) (ops : List Op) (from : Phase)
      → IsWellFormed q
      → All (IsNotReused k) ops
      → Lives k from q
      → Lives k from (steps id_le q ops)
  unfolding steps
  steps-keeps_Lives q k [] from w _ l = l
  steps-keeps_Lives q k (op ∷ ops) from w (fresh, more) l =
      steps-keeps_Lives (step id_le q op) k ops from (step-IsWellFormed id_le q op w) more
        (step-Lives q k op from w fresh l)

  -- Whatever calls follow, a command that is in the queue stays there, under its method and its time of
  -- creation, and what becomes of it is a life: it is claimed any number of times while it has not
  -- ended, each time with one attempt more, and it ends at most once, as done, failed or expired. The
  -- directory is in order, and no new command gets the same id.
  pub steps-Lives :
      (q : Queue) (k : Text) (c : Command) (ops : List Op)
      → IsWellFormed q
      → All (IsNotReused k) ops
      → command_at q k ≡ some c
      → Lives k (phase c) (steps id_le q ops)
  steps-Lives q k c ops w fresh h =
      steps-keeps_Lives q k ops (phase c) w fresh (record { now = c; found = h; life = rests })
