-- ===== src/Bridge/Sessions/Laws.antt =====
-- index.js: what the calls of the Host for sessions leave alone.
use dsh_link.Common.{ℕ, zero, suc, ◌+◌, ◌≤◌, ◌≡◌, ◌∙◌, refl, List, [], ◌∷◌, ◌++◌, Text, arith}
use dsh_link.Common.{if◌then◌else◌, is_empty, Bool-cases, inl, inr}
use dsh_link.Common.Int.{pos}
use dsh_link.Common.Values.{num}
use dsh_link.Bridge.Topics.Plan.{Reason, Archived}
use dsh_link.Bridge.Topics.Sweep.{sweep_pool}
use dsh_link.Bridge.Sessions.{
  Call, make_dir, create_workspace, create_session, archive_session, rename_session, prompt_session,
  Reply, returned, threw, Bridge, Settings, Host, call, archive_one, after_archive, archive_some,
  sweep_sessions, archive_all,
}

abbrev pub prompts : List Call → ℕ
prompts [] = 0
prompts (prompt_session id request ∷ calls) = suc (prompts calls)
prompts (c ∷ calls) = prompts calls

-- How many sessions the Host was asked to create.
abbrev pub creations : List Call → ℕ
creations [] = 0
creations (create_session id ∷ calls) = suc (creations calls)
creations (c ∷ calls) = creations calls

pub prompts-snoc :
    (calls : List Call) (c : Call) → prompts (calls ++ c ∷ []) ≡ prompts calls + prompts (c ∷ [])
prompts-snoc [] c = omega arith
prompts-snoc (make_dir ∷ calls) c = prompts-snoc calls c
prompts-snoc (create_workspace ∷ calls) c = prompts-snoc calls c
prompts-snoc (create_session id ∷ calls) c = prompts-snoc calls c
prompts-snoc (archive_session id ∷ calls) c = prompts-snoc calls c
prompts-snoc (rename_session id title ∷ calls) c = prompts-snoc calls c
prompts-snoc (prompt_session id request ∷ calls) c = omega (arith, prompts-snoc calls c)

pub creations-snoc :
    (calls : List Call) (c : Call)
    → creations (calls ++ c ∷ []) ≡ creations calls + creations (c ∷ [])
creations-snoc [] c = omega arith
creations-snoc (make_dir ∷ calls) c = creations-snoc calls c
creations-snoc (create_workspace ∷ calls) c = creations-snoc calls c
creations-snoc (create_session id ∷ calls) c = omega (arith, creations-snoc calls c)
creations-snoc (archive_session id ∷ calls) c = creations-snoc calls c
creations-snoc (rename_session id title ∷ calls) c = creations-snoc calls c
creations-snoc (prompt_session id request ∷ calls) c = creations-snoc calls c

-- Between the two states no session was prompted, at most `opened` were created, and nothing that
-- the guard or the watermark keeps has changed.
pub record IsAside (opened : ℕ) (b b' : Bridge) : Type 0 where
  pub prompted : prompts b'.calls ≡ prompts b.calls
  pub created : creations b'.calls ≤ creations b.calls + opened
  pub watermark : b'.runtime.watermark ≡ b.runtime.watermark
  pub last_notify_at : b'.runtime.last_notify_at ≡ b.runtime.last_notify_at
  pub notified : b'.notified ≡ b.notified
  pub errors : b'.errors ≡ b.errors

pub IsAside-refl : (b : Bridge) → IsAside 0 b b
IsAside-refl b = record {
  prompted = refl;
  created = omega arith;
  watermark = refl;
  last_notify_at = refl;
  notified = refl;
  errors = refl;
}

pub IsAside-trans : (m n : ℕ) (a b c : Bridge) → IsAside m a b → IsAside n b c → IsAside (m + n) a c
IsAside-trans m n a b c p q = record {
  prompted = q.prompted ∙ p.prompted;
  created = omega (arith, p.created, q.created);
  watermark = q.watermark ∙ p.watermark;
  last_notify_at = q.last_notify_at ∙ p.last_notify_at;
  notified = q.notified ∙ p.notified;
  errors = q.errors ∙ p.errors;
}

pub IsAside-weaken : (n : ℕ) (b c : Bridge) → IsAside 0 b c → IsAside n b c
IsAside-weaken n b c p = record {
  prompted = p.prompted;
  created = omega (arith, p.created);
  watermark = p.watermark;
  last_notify_at = p.last_notify_at;
  notified = p.notified;
  errors = p.errors;
}

pub call-IsAside :
    (host : Host) (c : Call) (b : Bridge) (n : ℕ)
    → prompts (c ∷ []) ≡ 0
    → creations (c ∷ []) ≤ n
    → IsAside n b (call host c b).0
call-IsAside host c b n p q = record {
  prompted = omega (arith, prompts-snoc b.calls c, p);
  created = omega (arith, creations-snoc b.calls c, q);
  watermark = refl;
  last_notify_at = refl;
  notified = refl;
  errors = refl;
}

after_archive-IsAside :
    (id : Text) (reason : Reason) (b : Bridge) (r : Reply)
    → IsAside 0 b (after_archive id reason (b, r)).0
after_archive-IsAside id reason b (returned _) = record {
  prompted = refl;
  created = omega arith;
  watermark = refl;
  last_notify_at = refl;
  notified = refl;
  errors = refl;
}
after_archive-IsAside id reason b (threw e) = record {
  prompted = refl;
  created = omega arith;
  watermark = refl;
  last_notify_at = refl;
  notified = refl;
  errors = refl;
}

archive_one-IsAside :
    (host : Host) (s : Settings) (id : Text) (reason : Reason) (b : Bridge)
    → IsAside 0 b (archive_one host s id reason b).0
unfolding archive_one
archive_one-IsAside host s id reason b = elim (Bool-cases (is_empty id)) [
  | inl e ↦ rw e (IsAside-refl b)
  | inr e ↦ elim (Bool-cases s.archive_sessions) [
    | inr f ↦
        rw (e, f)
          (record {
            prompted = refl;
            created = omega arith;
            watermark = refl;
            last_notify_at = refl;
            notified = refl;
            errors = refl;
          })
    | inl f ↦
        let (b', r) = call host (archive_session id) b in
        rw (e, f)
          (IsAside-trans 0 0 b b' (after_archive id reason (b', r)).0
            (call-IsAside host (archive_session id) b 0 refl (omega arith))
            (after_archive-IsAside id reason b' r))
  ]
]

archive_some-IsAside :
    (host : Host) (s : Settings) (room : ℕ) (out : List Archived) (b : Bridge)
    → IsAside 0 b (archive_some host s room out b)
unfolding archive_some
archive_some-IsAside host s room [] b = IsAside-refl b
archive_some-IsAside host s zero (a ∷ more) b = IsAside-refl b
archive_some-IsAside host s (suc room) (a ∷ more) b =
    let (b', ok) = archive_one host s a.session_id a.reason b in
    let left : ℕ = if ok then room else suc room in
    IsAside-trans 0 0 b b' (archive_some host s left more b')
      (archive_one-IsAside host s a.session_id a.reason b)
      (archive_some-IsAside host s left more b')

pub archive_all-IsAside :
    (host : Host) (s : Settings) (out : List Archived) (b : Bridge)
    → IsAside 0 b (archive_all host s out b)
unfolding archive_all
archive_all-IsAside host s [] b = IsAside-refl b
archive_all-IsAside host s (a ∷ more) b =
    let b' : Bridge = (archive_one host s a.session_id a.reason b).0 in
    IsAside-trans 0 0 b b' (archive_all host s more b')
      (archive_one-IsAside host s a.session_id a.reason b) (archive_all-IsAside host s more b')

pub sweep_sessions-IsAside :
    (host : Host) (s : Settings) (now : ℕ) (b : Bridge) → IsAside 0 b (sweep_sessions host s now b)
unfolding sweep_sessions
sweep_sessions-IsAside host s now b =
    let swept = sweep_pool (pos now) b.runtime.pool (num (pos now)) s.topics in
    let b1 : Bridge = record b { runtime = record b.runtime { pool = swept.pool } } in
    let rest = archive_some-IsAside host s 3 swept.archive b1 in
    record {
      prompted = rest.prompted;
      created = rest.created;
      watermark = rest.watermark;
      last_notify_at = rest.last_notify_at;
      notified = rest.notified;
      errors = rest.errors;
    }
