-- ===== src/Node/Queue/Laws.antt =====
-- src/capabilities.mjs: the calls of the queue keep its files in order.
use dsh_link.Common.{ℕ, zero, suc, ◌≡◌, ◌∙◌, refl, Bool, ◌||◌}
use dsh_link.Common.{
  Option, none, some, List, [], ◌∷◌, Text, text_eq, ◌==◌, if◌then◌else◌, or_default, arith,
}
use dsh_link.Common.{Option-cases, Bool-cases, inl, inr, All}
use dsh_link.Node.Readers.{to_int}
use dsh_link.Common.Dict.{insert-NodupKeys, Dict, NodupKeys, lookup, insert, erase, lookup-insert}
use dsh_link.Common.Values.{Value}
use dsh_link.Node.Capabilities.{RawConfig}
use dsh_link.Node.Queue.{
  is_terminal, Command, Claim, Queue, command_at, records, safe_id, enqueue, is_stale, taken,
  claim_one, claim_loop, Outcome, finished, complete, success, failure, or_bridge, given_up,
  is_young, finish, sweep_loop, set_config, list_records, claim, sweep, new_command,
}

-- Every command file is named after its record, as `enqueue` names it.
abbrev pub AllNamed : Queue → Type 0
AllNamed q = (k : Text) (c : Command) → command_at q k ≡ some c → c.id ≡ k

-- The files of a queue: distinct names, and each named after its record.
pub record IsWellFormed (q : Queue) : Type 0 where
  pub named : AllNamed q
  pub distinct : NodupKeys q.files

-- What holds of every command file holds of every listed record.
pub records-All :
    (P : Text × Command → Type 0) (files : Dict (Option Command))
    → NodupKeys files
    → ((k : Text) (c : Command) → lookup k files ≡ some (some c) → c.id ≡ k → P (k, c))
    → All P (records files)
unfolding records
records-All P [] _ h = tt
records-All P ((name, none) ∷ files) (fresh, u) h =
    records-All P files u (λ k c e i. h k c (unfold lookup in ground arith) i)
records-All P ((name, some c) ∷ files) (fresh, u) h =
    let rest = records-All P files u (λ k d e i. h k d (unfold lookup in ground arith) i) in
    elim (Bool-cases (c.id == name)) [
      | inl e ↦ rw e (h name c (unfold lookup in ground arith) (ground arith), rest)
      | inr e ↦ rw e rest
    ]

pub command_at_found :
    (q : Queue) (k : Text) (c : Command)
    → lookup k q.files ≡ some (some c)
    → command_at q k ≡ some c
unfolding command_at
command_at_found q k c h = rw h

-- A record is written under its id.
write-IsWellFormed :
    (q : Queue) (name : Text) (c : Command) (claims : Dict Claim)
    → c.id ≡ name
    → IsWellFormed q
    → IsWellFormed (record q { files = insert name (some c) q.files; claims = claims })
unfolding command_at
write-IsWellFormed q name c claims e w = record {
  named = λ k d h. ground (arith, lookup-insert k name (some c) q.files, w.named k d);
  distinct = insert-NodupKeys name (some c) q.files w.distinct;
}

claims-IsWellFormed :
    (q : Queue) (claims : Dict Claim) → IsWellFormed q → IsWellFormed (record q { claims = claims })
unfolding command_at
claims-IsWellFormed q claims w = record { named = w.named; distinct = w.distinct }

pub claim_one-IsWellFormed :
    (now : ℕ) (owner : Text) (c : Command) (q : Queue)
    → IsWellFormed q
    → IsWellFormed (claim_one now owner c q).0
unfolding claim_one
claim_one-IsWellFormed now owner c q w =
    let lease = lookup c.id q.claims in
    let stale = is_stale q now lease in
    let claims = if stale then erase c.id q.claims else q.claims in
    let locked = insert c.id (record { owner = owner; at = now }) claims in
    let fresh = or_default (command_at q c.id) c in
    ground (
      arith,
      claims-IsWellFormed q claims w,
      claims-IsWellFormed q (erase c.id locked) w,
      write-IsWellFormed q fresh.id (taken owner now fresh) locked refl w,
    )

claim_loop-IsWellFormed :
    (now : ℕ) (owner : Text) (room : ℕ) (listed : Dict Command) (q : Queue)
    → IsWellFormed q
    → IsWellFormed (claim_loop now owner room listed q).0
unfolding claim_loop
claim_loop-IsWellFormed now owner room [] q w = w
claim_loop-IsWellFormed now owner zero ((name, c) ∷ listed) q w = w
claim_loop-IsWellFormed now owner (suc room) ((name, c) ∷ listed) q w =
    let (q', got) = claim_one now owner c q in
    let w' : IsWellFormed q' = claim_one-IsWellFormed now owner c q w in
    elim (Option-cases got) [
      | inl nothing ↦ rw nothing (claim_loop-IsWellFormed now owner (suc room) listed q' w')
      | inr (u, some_one) ↦ rw some_one (claim_loop-IsWellFormed now owner room listed q' w')
    ]

-- What a sweep does with one record that it gives up.
abbrev pub expire : ℕ → Command → Queue → Queue
expire now c q = record q {
  files = insert c.id (some (given_up now c)) q.files;
  claims = erase c.id q.claims;
}

sweep_loop-IsWellFormed :
    (now : ℕ) (listed : Dict Command) (q : Queue)
    → IsWellFormed q
    → IsWellFormed (sweep_loop now listed q).0
unfolding sweep_loop
sweep_loop-IsWellFormed now [] q w = w
sweep_loop-IsWellFormed now ((name, c) ∷ listed) q w =
    elim (Bool-cases (is_terminal c.status || is_young q now c.created_at)) [
      | inl skip ↦ rw skip (sweep_loop-IsWellFormed now listed q w)
      | inr old ↦ rw old (
          sweep_loop-IsWellFormed now listed (expire now c q)
            (write-IsWellFormed q c.id (given_up now c) (erase c.id q.claims) refl w))
    ]

id-finished : (q : Queue) (o : Outcome) (now : ℕ) (c : Command) → (finished q o now c).id ≡ c.id
id-finished q (success json) now c = refl
id-finished q (failure message) now c = refl

finish-IsWellFormed :
    (q : Queue) (name : Text) (c : Command) (outcome : Outcome) (now : ℕ)
    → command_at q name ≡ some c
    → IsWellFormed q
    → IsWellFormed (finish q name outcome now (some c)).0
finish-IsWellFormed q name c outcome now found w =
    let next = finished q outcome now c in
    let written =
      write-IsWellFormed q name next (erase name q.claims)
        (id-finished q outcome now c ∙ w.named name c found) w in
    elim (Bool-cases (is_terminal c.status)) [ inl e ↦ rw e w | inr e ↦ rw e written ]

complete-IsWellFormed :
    (q : Queue) (id : Value) (outcome : Outcome) (now : ℕ)
    → IsWellFormed q
    → IsWellFormed (complete q id outcome now).0
unfolding complete
complete-IsWellFormed q id outcome now w = elim (Option-cases (safe_id id)) [
  | inl bad ↦ rw (bad, complete) w
  | inr (name, good) ↦ elim (Option-cases (command_at q name)) [
    | inl absent ↦ rw (good, absent, complete) w
    | inr (c, found) ↦ rw (good, found, complete) (finish-IsWellFormed q name c outcome now found w)
  ]
]

enqueue-IsWellFormed :
    (q : Queue) (id : Text) (now : ℕ) (peer : Text) (method : Value)
    → IsWellFormed q
    → IsWellFormed (enqueue q id now peer method).0
unfolding enqueue
enqueue-IsWellFormed q id now peer method w =
    ground (arith, write-IsWellFormed q id (new_command id method now) q.claims refl w)

-- One call of the queue.
pub data Op : Type 0 where
  enqueue_op : Text → ℕ → Text → Value → Op
  claim_op : Value → Text → ℕ → Op
  complete_op : Value → Outcome → ℕ → Op
  sweep_op : ℕ → Op
  config_op : RawConfig → Op

module _ (id_le : Text → Text → Bool) where
  -- The queue after a call.
  unfoldable pub step : Queue → Op → Queue
  step q (enqueue_op id now peer method) = (enqueue q id now peer method).0
  step q (claim_op limit bridge now) = (claim id_le q limit bridge now).0
  step q (complete_op id outcome now) = (complete q id outcome now).0
  step q (sweep_op now) = (sweep id_le q now).0
  step q (config_op raw) = set_config q raw

  unfoldable pub steps : Queue → List Op → Queue
  steps q [] = q
  steps q (op ∷ ops) = steps (step q op) ops

  pub step-IsWellFormed : (q : Queue) (op : Op) → IsWellFormed q → IsWellFormed (step q op)
  unfolding step claim sweep set_config command_at
  step-IsWellFormed q (enqueue_op id now peer method) w =
      enqueue-IsWellFormed q id now peer method w
  step-IsWellFormed q (claim_op limit bridge now) w =
      claim_loop-IsWellFormed now (or_bridge bridge) (to_int limit 5 0 1000) (list_records id_le q)
        q w
  step-IsWellFormed q (complete_op id outcome now) w = complete-IsWellFormed q id outcome now w
  step-IsWellFormed q (sweep_op now) w = sweep_loop-IsWellFormed now (list_records id_le q) q w
  step-IsWellFormed q (config_op raw) w = record { named = w.named; distinct = w.distinct }
