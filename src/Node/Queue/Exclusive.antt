-- ===== src/Node/Queue/Exclusive.antt =====
-- src/capabilities.mjs: between two claims of one command its lease runs out.
use dsh_link.Common.{
  ℕ, ◌≡◌, ◌≢◌, refl, Bool, true, ◌||◌, some, List, [], ◌∷◌, Text, text_eq, text_dec, arith,
}
use dsh_link.Common.{Option-cases, Bool-cases, ◌⊎◌, inl, inr, All}
use dsh_link.Common.Dict.{Dict, lookup-insert, lookup-erase}
use dsh_link.Common.Values.{Value}
use dsh_link.Node.Readers.{to_int}
use dsh_link.Node.Queue.{
  is_terminal, Command, Claim, Queue, command_at, safe_id, enqueue, Outcome, success, failure,
  finish, complete, given_up, is_young, sweep_loop, list_records, claim, sweep, or_bridge, finished,
}
use dsh_link.Node.Queue.Laws.{
  IsWellFormed, expire, Op, enqueue_op, claim_op, complete_op, sweep_op, config_op, step, steps,
  step-IsWellFormed,
}
use dsh_link.Node.Queue.Ended.{Ended, step-Ended}
use dsh_link.Node.Queue.Leases.{
  Holds, Held, claim_loop-Held, claim_loop_not-Ended, claim_loop_locks, Among,
}

-- The command is locked by this claim, or it has ended.
abbrev Guarded : Text → Claim → ℕ → Queue → Type 0
Guarded k l stale q = Held k l stale q ⊎ ((d : Command) × Ended k d q)

finish-Guarded :
    (q : Queue) (k name : Text) (l : Claim) (stale : ℕ) (c : Command) (outcome : Outcome) (now : ℕ)
    → command_at q name ≡ some c
    → Held k l stale q
    → Guarded k l stale (finish q name outcome now (some c)).0
unfolding command_at
finish-Guarded q k name l stale c outcome now found e = elim (text_dec name k) [
  | no n ↦ inl (record {
    locked = ground (arith, lookup-erase k name q.claims, e.locked);
    policy = ground (arith, e.policy);
  })
  | yes i ↦ elim (Bool-cases (is_terminal c.status)) [
    | inl t ↦ inr (c, record { found = ground arith; ended = t })
    | inr t ↦
        let next = finished q outcome now c in
        inr (
          next,
          record {
            found = ground (arith, lookup-insert k name (some next) q.files);
            ended = ended_finished q outcome now c;
          },
        )
  ]
]
  where
    ended_finished :
        (q : Queue) (o : Outcome) (now : ℕ) (c : Command)
        → is_terminal (finished q o now c).status ≡ true
    ended_finished q (success json) now c = refl
    ended_finished q (failure message) now c = refl

complete-Guarded :
    (q : Queue) (k : Text) (l : Claim) (stale : ℕ) (id : Value) (outcome : Outcome) (now : ℕ)
    → Held k l stale q
    → Guarded k l stale (complete q id outcome now).0
unfolding complete
complete-Guarded q k l stale id outcome now e = elim (Option-cases (safe_id id)) [
  | inl bad ↦ rw (bad, complete) (inl e)
  | inr (name, good) ↦ elim (Option-cases (command_at q name)) [
    | inl absent ↦ rw (good, absent, complete) (inl e)
    | inr (c, found) ↦
        rw (good, found, complete) (finish-Guarded q k name l stale c outcome now found e)
  ]
]

expire-Guarded :
    (now : ℕ) (c : Command) (q : Queue) (k : Text) (l : Claim) (stale : ℕ)
    → Guarded k l stale q
    → Guarded k l stale (expire now c q)
unfolding command_at
expire-Guarded now c q k l stale g = elim (text_dec c.id k) [
  | yes i ↦ inr (
    given_up now c,
    record {
      found = ground (arith, lookup-insert k c.id (some (given_up now c)) q.files);
      ended = refl;
    },
  )
  | no n ↦ elim g [
    | inl e ↦ inl (record {
      locked = ground (arith, lookup-erase k c.id q.claims, e.locked);
      policy = e.policy;
    })
    | inr (d, e) ↦ inr (
      d,
      record {
        found = ground (arith, lookup-insert k c.id (some (given_up now c)) q.files, e.found);
        ended = e.ended;
      },
    )
  ]
]

sweep_loop-Guarded :
    (now : ℕ) (listed : Dict Command) (q : Queue) (k : Text) (l : Claim) (stale : ℕ)
    → Guarded k l stale q
    → Guarded k l stale (sweep_loop now listed q).0
unfolding sweep_loop
sweep_loop-Guarded now [] q k l stale g = g
sweep_loop-Guarded now ((name, c) ∷ listed) q k l stale g =
    elim (Bool-cases (is_terminal c.status || is_young q now c.created_at)) [
      | inl skip ↦ rw skip (sweep_loop-Guarded now listed q k l stale g)
      | inr old ↦ rw old (
          sweep_loop-Guarded now listed (expire now c q) k l stale
            (expire-Guarded now c q k l stale g))
    ]

-- What may happen while the lease holds: the configuration is left alone, the id is not given to a
-- new command, and no claim comes after the lease has run out.
abbrev pub IsWithin : Text → ℕ → ℕ → Op → Type 0
IsWithin k t stale (enqueue_op id now peer method) = id ≢ k
IsWithin k t stale (claim_op limit bridge now) = Holds stale t now
IsWithin k t stale (complete_op id outcome now) = Unit
IsWithin k t stale (sweep_op now) = Unit
IsWithin k t stale (config_op raw) = ⊥

module _ (id_le : Text → Text → Bool) where
  step-Guarded :
      (q : Queue) (k : Text) (l : Claim) (stale : ℕ) (op : Op)
      → IsWellFormed q
      → IsWithin k l.at stale op
      → Guarded k l stale q
      → Guarded k l stale (step id_le q op)
  unfolding step
  step-Guarded q k l stale (enqueue_op id now peer method) w o (inl e) = inl (
      unfold enqueue in
      record { locked = ground (arith, e.locked); policy = ground (arith, e.policy) })
  step-Guarded q k l stale (enqueue_op id now peer method) w o (inr (d, e)) =
      inr (d, step-Ended id_le q k d (enqueue_op id now peer method) w o e)
  step-Guarded q k l stale (claim_op limit bridge now) w o (inl e) = inl (
      unfold claim in
      (claim_loop-Held k now (or_bridge bridge) l stale (to_int limit 5 0 1000)
        (list_records id_le q) q w o e).0)
  step-Guarded q k l stale (claim_op limit bridge now) w o (inr (d, e)) =
      inr (d, step-Ended id_le q k d (claim_op limit bridge now) w tt e)
  step-Guarded q k l stale (complete_op id outcome now) w o (inl e) =
      complete-Guarded q k l stale id outcome now e
  step-Guarded q k l stale (complete_op id outcome now) w o (inr (d, e)) =
      inr (d, step-Ended id_le q k d (complete_op id outcome now) w tt e)
  step-Guarded q k l stale (sweep_op now) w o g =
      unfold sweep in sweep_loop-Guarded now (list_records id_le q) q k l stale g
  step-Guarded q k l stale (config_op raw) w o g = absurd o

  steps-Guarded :
      (q : Queue) (k : Text) (l : Claim) (stale : ℕ) (ops : List Op)
      → IsWellFormed q
      → All (IsWithin k l.at stale) ops
      → Guarded k l stale q
      → IsWellFormed (steps id_le q ops) × Guarded k l stale (steps id_le q ops)
  unfolding steps
  steps-Guarded q k l stale [] w _ g = (w, g)
  steps-Guarded q k l stale (op ∷ ops) w (o, os) g =
      steps-Guarded (step id_le q op) k l stale ops (step-IsWellFormed id_le q op w) os
        (step-Guarded q k l stale op w o g)

  -- A command that a claim has given to a bridge is not given to any bridge again while its lease
  -- holds: whatever other calls follow, a later claim within `claimStaleSeconds` of the first (or
  -- at any time, if that is 0) does not return it, where the directory is in order, its id is not
  -- used for a new command, and the configuration is left alone in between.
  pub claim_exclusive :
      (q : Queue) (limit : Value) (bridge : Text) (now : ℕ) (u : Command) (ops : List Op)
      (limit' : Value) (bridge' : Text) (later : ℕ)
      → IsWellFormed q
      → Among u (claim id_le q limit bridge now).1
      → All (IsWithin u.id now q.policy.claim_stale_seconds) ops
      → Holds q.policy.claim_stale_seconds now later
      → All
          (λ v. v.id ≢ u.id)
          (claim id_le (steps id_le (claim id_le q limit bridge now).0 ops) limit' bridge' later).1
  unfolding claim
  claim_exclusive q limit bridge now u ops limit' bridge' later w m within h =
      let lock : Claim = record { owner = or_bridge bridge; at = now } in
      let stale = q.policy.claim_stale_seconds in
      let q1 : Queue = (claim id_le q limit bridge now).0 in
      let w1 : IsWellFormed q1 =
        unfold step in step-IsWellFormed id_le q (claim_op limit bridge now) w in
      let first : Guarded u.id lock stale q1 = inl (
        claim_loop_locks now (or_bridge bridge) (to_int limit 5 0 1000) (list_records id_le q) q u w
          m) in
      let (w2, guarded) = steps-Guarded q1 u.id lock stale ops w1 within first in
      elim guarded [
        | inl e ↦
            (claim_loop-Held u.id later (or_bridge bridge') lock stale (to_int limit' 5 0 1000)
              (list_records id_le (steps id_le q1 ops)) (steps id_le q1 ops) w2 h e).1
        | inr (d, e) ↦
            claim_loop_not-Ended u.id later (or_bridge bridge') d (to_int limit' 5 0 1000)
              (list_records id_le (steps id_le q1 ops)) (steps id_le q1 ops) w2 e
      ]
