-- ===== src/Node/Queue/Lifecycle.antt =====
-- src/capabilities.mjs: the life of a command in the queue, "pending -> claimed -> done | failed, or
-- expired", as the comment of `createCommandQueue` has it.
pub mod Laws
use dsh_link.Common.{
  ℕ, zero, suc, ◌+◌, ◌≡◌, ◌≢◌, ◌⊎◌, refl, subst, Bool, true, false, ◌||◌, Option, some, List, [],
  ◌∷◌, Text, text_eq, text_dec, or_default, arith,
}
use dsh_link.Common.{Option-cases, Bool-cases, inl, inr, All}
use dsh_link.Common.Dict.{Dict, lookup-insert}
use dsh_link.Common.Sort.{All-sort_dict}
use dsh_link.Common.Values.{Value}
use dsh_link.Node.Queue.{
  Status, claimed, done, failed, expired, is_terminal, Command, Queue, command_at, records, safe_id,
  enqueue, taken, claim_one, claim_loop, Outcome, success, failure, finished, finish, complete,
  given_up, is_young, sweep_loop, set_config, by_id, list_records, claim, sweep, new_command,
}
use dsh_link.Node.Queue.Laws.{
  AllNamed, IsWellFormed, records-All, command_at_found, claim_one-IsWellFormed, expire, Op,
  enqueue_op, claim_op, complete_op, sweep_op, config_op, step, steps, step-IsWellFormed,
}
use dsh_link.Node.Queue.Ended.{IsNotReused}

-- What the life of a command is about: what was asked, when, and how far it is.
pub record Phase : Type 0 where
  pub method : Value
  pub created_at : Option ℕ
  pub status : Status
  pub attempts : ℕ

abbrev pub phase : Command → Phase
phase c = record {
  method = c.method;
  created_at = c.created_at;
  status = c.status;
  attempts = c.attempts;
}

-- What can become of a command: it is claimed any number of times, each one more attempt, and ends once.
pub data Life (from : Phase) : Phase → Type 0 where
  rests : Life from from
  claims :
      (p : Phase)
      → Life from p
      → is_terminal p.status ≡ false
      → Life from (record p { status = claimed; attempts = p.attempts + 1 })
  ends :
      (p : Phase) (s : Status)
      → Life from p
      → is_terminal p.status ≡ false
      → is_terminal s ≡ true
      → Life from (record p { status = s })

-- The command of this id is in the queue, at a point of a life that begins so.
pub record Lives (k : Text) (from : Phase) (q : Queue) : Type 0 where
  pub now : Command
  pub found : command_at q k ≡ some now
  pub life : Life from (phase now)

-- What `claim_one` makes of a command that is there.
claim_one-command_at :
    (now : ℕ) (owner : Text) (c : Command) (q : Queue) (k : Text) (d : Command)
    → AllNamed q
    → command_at q k ≡ some d
    → let (q', got) = claim_one now owner c q in
      (command_at q' k ≡ some d)
      ⊎ ((command_at q' k ≡ some (taken owner now d)) × (is_terminal d.status ≡ false))
unfolding claim_one command_at
claim_one-command_at now owner c q k d named h =
    let fresh = or_default (command_at q c.id) c in
    ground
      (arith, h, lookup-insert k fresh.id (some (taken owner now fresh)) q.files, named c.id fresh)

claim_one-Lives :
    (now : ℕ) (owner : Text) (c : Command) (q : Queue) (k : Text) (from : Phase)
    → AllNamed q
    → Lives k from q
    → Lives k from (claim_one now owner c q).0
claim_one-Lives now owner c q k from named l =
    elim (claim_one-command_at now owner c q k l.now named l.found) [
      | inl same ↦ record { now = l.now; found = same; life = l.life }
      | inr (new, active) ↦ record {
        now = taken owner now l.now;
        found = new;
        life = claims (phase l.now) l.life active;
      }
    ]

pub claim_loop-Lives :
    (now : ℕ) (owner : Text) (room : ℕ) (listed : Dict Command) (q : Queue) (k : Text)
    (from : Phase)
    → IsWellFormed q
    → Lives k from q
    → Lives k from (claim_loop now owner room listed q).0
unfolding claim_loop
claim_loop-Lives now owner room [] q k from w l = l
claim_loop-Lives now owner zero ((name, c) ∷ listed) q k from w l = l
claim_loop-Lives now owner (suc room) ((name, c) ∷ listed) q k from w l =
    let (q', got) = claim_one now owner c q in
    let w' : IsWellFormed q' = claim_one-IsWellFormed now owner c q w in
    let l' : Lives k from q' = claim_one-Lives now owner c q k from w.named l in
    elim (Option-cases got) [
      | inl nothing ↦ rw nothing (claim_loop-Lives now owner (suc room) listed q' k from w' l')
      | inr (u, some_one) ↦ rw some_one (claim_loop-Lives now owner room listed q' k from w' l')
    ]
