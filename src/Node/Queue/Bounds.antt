-- ===== src/Node/Queue/Bounds.antt =====
-- src/capabilities.mjs: how much the queue holds, and what `enqueue`, `claim` and `complete` give.
use dsh_link.Common.{
  ℕ, zero, suc, ◌≤◌, ◌≡◌, Bool, Option, none, some, [], ◌∷◌, Text, text_eq, arith,
}
use dsh_link.Common.{Option-cases, inl, inr, All, length}
use dsh_link.Common.Dict.{Dict, insert, lookup-insert}
use dsh_link.Common.Values.{Value}
use dsh_link.Node.Readers.{to_int, to_int_bounds}
use dsh_link.Node.Capabilities.{allowed, raw_of, authorize_call}
use dsh_link.Node.Queue.{
  is_terminal, Status, claimed, pending, Command, Queue, command_at, records, is_active,
  count_active, Payload, whole, clipped, clamp_result, Result, ok, err, new_command, enqueue,
  is_stale, taken, claim_one, claim_loop, list_records, claim, or_bridge, is_allowed, push,
}

count_active-insert :
    (id : Text) (c : Command) (files : Dict (Option Command))
    → count_active (records (insert id (some c) files)) ≤ suc (count_active (records files))
unfolding count_active records insert
count_active-insert id c [] = ground arith
count_active-insert id c ((name, none) ∷ files) = ground (arith, count_active-insert id c files)
count_active-insert id c ((name, some d) ∷ files) = ground (arith, count_active-insert id c files)

-- A call that is queued was allowed, and stands in the queue as a pending command; and the queue
-- then has at most `maxPending` commands that have not ended.
pub enqueue_ok :
    (q : Queue) (id : Text) (now : ℕ) (peer : Text) (method : Value) (c : Command)
    → (enqueue q id now peer method).1 ≡ ok c
    → (authorize_call (raw_of q.policy) peer method ≡ allowed)
      × (c ≡ new_command id method now)
      × (command_at (enqueue q id now peer method).0 id ≡ some c)
      × (count_active (records (enqueue q id now peer method).0.files) ≤ q.policy.max_pending)
unfolding enqueue command_at
enqueue_ok q id now peer method c h = ground (
  arith,
  count_active-insert id (new_command id method now) q.files,
  lookup-insert id id (some (new_command id method now)) q.files,
)

-- A call that is refused leaves the queue as it was.
enqueue_refused :
    (q : Queue) (id : Text) (now : ℕ) (peer : Text) (method : Value)
    {r : dsh_link.Node.Queue.Refusal}
    → (enqueue q id now peer method).1 ≡ err r
    → (enqueue q id now peer method).0 ≡ q
unfolding enqueue
enqueue_refused q id now peer method h = ground arith

-- What a bridge gets from a claim.
pub record IsTaken (owner : Text) (now : ℕ) (c : Command) : Type 0 where
  pub status : c.status ≡ claimed
  pub by : c.claimed_by ≡ some owner
  pub at : c.claimed_at ≡ some now
  pub attempts : 1 ≤ c.attempts

claim_one-IsTaken :
    (now : ℕ) (owner : Text) (c : Command) (q : Queue) (u : Command)
    → (claim_one now owner c q).1 ≡ some u
    → IsTaken owner now u
unfolding claim_one
claim_one-IsTaken now owner c q u h = ground arith

claim_loop_given :
    (now : ℕ) (owner : Text) (room : ℕ) (listed : Dict Command) (q : Queue)
    → (length (claim_loop now owner room listed q).1 ≤ room)
      × All (IsTaken owner now) (claim_loop now owner room listed q).1
unfolding claim_loop
claim_loop_given now owner room [] q = (omega arith, tt)
claim_loop_given now owner zero ((name, c) ∷ listed) q = (omega arith, tt)
claim_loop_given now owner (suc room) ((name, c) ∷ listed) q =
    let (q', got) = claim_one now owner c q in
    elim (Option-cases got) [
      | inl nothing ↦ rw nothing (claim_loop_given now owner (suc room) listed q')
      | inr (u, some_one) ↦
          let rest = claim_loop_given now owner room listed q' in
          rw some_one (omega (arith, rest.0), (claim_one-IsTaken now owner c q u some_one, rest.1))
    ]

-- A claim gives at most as many commands as it was asked for, and 1000 at most; each is marked as
-- claimed by the bridge that asked, at the time of the claim, with its attempts counted.
pub claim_given :
    (id_le : Text → Text → Bool) (q : Queue) (limit : Value) (bridge : Text) (now : ℕ)
    → let out = (claim id_le q limit bridge now).1 in
      (length out ≤ to_int limit 5 0 1000)
      × (length out ≤ 1000)
      × All (IsTaken (or_bridge bridge) now) out
unfolding claim
claim_given id_le q limit bridge now =
    let facts =
      claim_loop_given now (or_bridge bridge) (to_int limit 5 0 1000) (list_records id_le q) q in
    (
      facts.0,
      omega (arith, facts.0, to_int_bounds limit 5 0 1000 (omega arith) (omega arith)),
      facts.1,
    )
