-- ===== src/Node/Queue/Leases.antt =====
-- src/capabilities.mjs: a command that a bridge has claimed is not given to another.
use dsh_link.Common.{
  ℕ, zero, suc, ◌+◌, ◌*◌, ◌<◌, ◌≡◌, ◌≢◌, ◌∙◌, refl, ap, subst, some, List, [], ◌∷◌, Text, text_eq,
  if◌then◌else◌, or_default, arith,
}
use dsh_link.Common.{Option-cases, ◌⊎◌, inl, inr, All}
use dsh_link.Common.Dict.{Dict, lookup, insert, erase, lookup-insert, lookup-erase}
use dsh_link.Node.Queue.{Command, Claim, Queue, command_at, is_stale, claim_one, claim_loop, push}
use dsh_link.Node.Queue.Laws.{AllNamed, IsWellFormed, claim_one-IsWellFormed}
use dsh_link.Node.Queue.Ended.{Ended, claim_one-Ended}

-- A lease taken at `t` still holds at `now`.
abbrev pub Holds : ℕ → ℕ → ℕ → Type 0
Holds stale t now = (stale ≡ 0) ⊎ (now < t + stale * 1000)

-- The claim file of the command is this one.
pub record Held (k : Text) (l : Claim) (stale : ℕ) (q : Queue) : Type 0 where
  pub locked : lookup k q.claims ≡ some l
  pub policy : q.policy.claim_stale_seconds ≡ stale

module _ (k : Text) (now : ℕ) (owner : Text) where
  claim_one-Held :
      (l : Claim) (stale : ℕ) (c : Command) (q : Queue)
      → AllNamed q
      → Holds stale l.at now
      → Held k l stale q
      → Held k l stale (claim_one now owner c q).0
  unfolding claim_one
  claim_one-Held l stale c q named h e =
      let fresh = or_default (command_at q c.id) c in
      let lease = lookup c.id q.claims in
      let claims = if is_stale q now lease then erase c.id q.claims else q.claims in
      let lock : Claim = record { owner = owner; at = now } in
      record {
        locked = ground (
          arith,
          e.locked,
          e.policy,
          lookup-insert k c.id lock claims,
          lookup-erase k c.id q.claims,
          lookup-erase k c.id (insert c.id lock claims),
        );
        policy = ground (arith, e.policy);
      }

  claim_one_other :
      (l : Claim) (stale : ℕ) (c : Command) (q : Queue) (u : Command)
      → AllNamed q
      → Holds stale l.at now
      → Held k l stale q
      → (claim_one now owner c q).1 ≡ some u
      → u.id ≢ k
  unfolding claim_one
  claim_one_other l stale c q u named h e got same =
      ground (arith, e.locked, e.policy, named c.id (or_default (command_at q c.id) c))

  claim_one_not-Ended :
      (d : Command) (c : Command) (q : Queue) (u : Command)
      → AllNamed q
      → Ended k d q
      → (claim_one now owner c q).1 ≡ some u
      → u.id ≢ k
  unfolding claim_one
  claim_one_not-Ended d c q u named e got same =
      ground (arith, e.found, e.ended, named c.id (or_default (command_at q c.id) c))

  pub claim_loop-Held :
      (l : Claim) (stale : ℕ) (room : ℕ) (listed : Dict Command) (q : Queue)
      → IsWellFormed q
      → Holds stale l.at now
      → Held k l stale q
      → Held k l stale (claim_loop now owner room listed q).0
        × All (λ u. u.id ≢ k) (claim_loop now owner room listed q).1
  unfolding claim_loop
  claim_loop-Held l stale room [] q w h e = (e, tt)
  claim_loop-Held l stale zero ((name, c) ∷ listed) q w h e = (e, tt)
  claim_loop-Held l stale (suc room) ((name, c) ∷ listed) q w h e =
      let (q', got) = claim_one now owner c q in
      let w' : IsWellFormed q' = claim_one-IsWellFormed now owner c q w in
      let e' : Held k l stale q' = claim_one-Held l stale c q w.named h e in
      elim (Option-cases got) [
        | inl nothing ↦ rw nothing (claim_loop-Held l stale (suc room) listed q' w' h e')
        | inr (u, some_one) ↦
            let rest = claim_loop-Held l stale room listed q' w' h e' in
            rw some_one (rest.0, (claim_one_other l stale c q u w.named h e some_one, rest.1))
      ]

  pub claim_loop_not-Ended :
      (d : Command) (room : ℕ) (listed : Dict Command) (q : Queue)
      → IsWellFormed q
      → Ended k d q
      → All (λ u. u.id ≢ k) (claim_loop now owner room listed q).1
  unfolding claim_loop
  claim_loop_not-Ended d room [] q w e = tt
  claim_loop_not-Ended d zero ((name, c) ∷ listed) q w e = tt
  claim_loop_not-Ended d (suc room) ((name, c) ∷ listed) q w e =
      let (q', got) = claim_one now owner c q in
      let w' : IsWellFormed q' = claim_one-IsWellFormed now owner c q w in
      let e' : Ended k d q' = claim_one-Ended now owner c q w.named k d e in
      elim (Option-cases got) [
        | inl nothing ↦ rw nothing (claim_loop_not-Ended d (suc room) listed q' w' e')
        | inr (u, some_one) ↦ rw some_one (
          claim_one_not-Ended d c q u w.named e some_one,
          claim_loop_not-Ended d room listed q' w' e',
        )
      ]

-- The command stands in the list.
abbrev pub Among : Command → List Command → Type 0
Among u [] = ⊥
Among u (v ∷ out) = (v ≡ u) ⊎ Among u out

Among-split :
    (u v : Command) (r : Queue × List Command) → Among u (push (some v) r).1 → (v ≡ u) ⊎ Among u r.1
Among-split u v (q, out) m = m

claim_one_locks :
    (now : ℕ) (owner : Text) (c : Command) (q : Queue) (u : Command)
    → AllNamed q
    → (claim_one now owner c q).1 ≡ some u
    → Held u.id
        (record { owner = owner; at = now })
        q.policy.claim_stale_seconds
        (claim_one now owner c q).0
unfolding claim_one
claim_one_locks now owner c q u named got =
    let fresh = or_default (command_at q c.id) c in
    let lock : Claim = record { owner = owner; at = now } in
    let claims = if is_stale q now (lookup c.id q.claims) then erase c.id q.claims else q.claims in
    record {
      locked = ground (arith, lookup-insert u.id c.id lock claims, named c.id fresh);
      policy = ground arith;
    }

Holds-now : (stale now : ℕ) → Holds stale now now
Holds-now zero now = inl refl
Holds-now (suc stale) now = inr (omega arith)

claim_one_policy :
    (now : ℕ) (owner : Text) (c : Command) (q : Queue)
    → (claim_one now owner c q).0.policy.claim_stale_seconds ≡ q.policy.claim_stale_seconds
unfolding claim_one
claim_one_policy now owner c q = ground arith

-- What a claim gives out is locked.
pub claim_loop_locks :
    (now : ℕ) (owner : Text) (room : ℕ) (listed : Dict Command) (q : Queue) (u : Command)
    → IsWellFormed q
    → Among u (claim_loop now owner room listed q).1
    → Held u.id
        (record { owner = owner; at = now })
        q.policy.claim_stale_seconds
        (claim_loop now owner room listed q).0
unfolding claim_loop
claim_loop_locks now owner room [] q u w m = absurd m
claim_loop_locks now owner zero ((name, c) ∷ listed) q u w m = absurd m
claim_loop_locks now owner (suc room) ((name, c) ∷ listed) q u w m =
    let (q', got) = claim_one now owner c q in
    let w' : IsWellFormed q' = claim_one-IsWellFormed now owner c q w in
    let lock : Claim = record { owner = owner; at = now } in
    let ih = λ (n : ℕ) (m' : Among u (claim_loop now owner n listed q').1).
      subst (λ s. Held u.id lock s (claim_loop now owner n listed q').0)
        (claim_one_policy now owner c q) (claim_loop_locks now owner n listed q' u w' m') in
    elim (Option-cases got) [
      | inl nothing ↦ rw nothing (ih (suc room) (rw nothing at m))
      | inr (v, some_one) ↦
          elim (Among-split u v (claim_loop now owner room listed q') (rw some_one at m)) [
            | inl same ↦
                let first : Held u.id lock q.policy.claim_stale_seconds q' =
                  claim_one_locks now owner c q u w.named (some_one ∙ ap some same) in
                rw some_one
                  (claim_loop-Held u.id now owner lock q.policy.claim_stale_seconds room listed q'
                    w' (Holds-now q.policy.claim_stale_seconds now) first).0
            | inr later ↦ rw some_one (ih room later)
          ]
    ]
