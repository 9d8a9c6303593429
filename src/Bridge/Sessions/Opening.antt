-- ===== src/Bridge/Sessions/Opening.antt =====
-- index.js: `openSession` and `ensureSessionFor` create one session at most.
use dsh_link.Common.{ℕ, ◌≡◌, refl, not, some, [], ◌∷◌, Text, arith}
use dsh_link.Common.{is_empty, Bool-cases, inl, inr}
use dsh_link.Common.Int.{pos}
use dsh_link.Common.Values.{num, str, bool}
use dsh_link.Bridge.Topics.Plan.{Action, create, keep, Plan, plan_session, answered}
use dsh_link.Bridge.Sessions.{
  Call, make_dir, create_workspace, create_session, rename_session, Reply, returned, threw, Bridge,
  Settings, Host, call, archive_all, open_session, in_dir, in_workspace, named, planned,
  ensure_session_for, workspace_of, title_for, is_dead,
}
use dsh_link.Bridge.Sessions.Laws.{
  IsAside, IsAside-refl, IsAside-trans, IsAside-weaken, call-IsAside, archive_all-IsAside,
}

named-IsAside :
    (host : Host) (s : Settings) (label : Text) (b : Bridge) (r : Reply)
    → IsAside 0 b (named host s label (b, r)).0
named-IsAside host s label b (threw e) = IsAside-refl b
named-IsAside host s label b (returned []) = IsAside-refl b
named-IsAside host s label b (returned (c ∷ id)) =
    let titled =
      call-IsAside host (rename_session (c ∷ id) (title_for s label)) b 0 refl (omega arith) in
    record {
      prompted = titled.prompted;
      created = titled.created;
      watermark = refl;
      last_notify_at = refl;
      notified = refl;
      errors = refl;
    }

in_workspace-IsAside :
    (host : Host) (s : Settings) (label : Text) (b : Bridge) (r : Reply)
    → IsAside 1 b (in_workspace host s label (b, r)).0
in_workspace-IsAside host s label b r =
    let c : Call = create_session (workspace_of r) in
    let (b', r') = call host c b in
    IsAside-trans 1 0 b b' (named host s label (b', r')).0
      (call-IsAside host c b 1 refl (omega arith)) (named-IsAside host s label b' r')

in_dir-IsAside :
    (host : Host) (s : Settings) (label : Text) (b : Bridge) (r : Reply)
    → IsAside 1 b (in_dir host s label (b, r)).0
in_dir-IsAside host s label b (threw e) = IsAside-weaken 1 b b (IsAside-refl b)
in_dir-IsAside host s label b (returned _) =
    let (b', r') = call host create_workspace b in
    IsAside-trans 0 1 b b' (in_workspace host s label (b', r')).0
      (call-IsAside host create_workspace b 0 refl (omega arith))
      (in_workspace-IsAside host s label b' r')

open_session-IsAside :
    (host : Host) (s : Settings) (label : Text) (b : Bridge)
    → IsAside 1 b (open_session host s label b).0
unfolding open_session
open_session-IsAside host s label b =
    let (b', r) = call host make_dir b in
    IsAside-trans 0 1 b b' (in_dir host s label (b', r)).0
      (call-IsAside host make_dir b 0 refl (omega arith)) (in_dir-IsAside host s label b' r)

planned-IsAside :
    (host : Host) (s : Settings) (label : Text) (plan : Plan) (action : Action) (b : Bridge)
    → plan.action ≡ action
    → IsAside 1 b (planned host s label plan b).0
planned-IsAside host s label plan keep b e = rw e (IsAside-weaken 1 b b (IsAside-refl b))
planned-IsAside host s label plan create b e =
    let b' : Bridge = archive_all host s plan.archive b in
    rw e (
      IsAside-trans 0 1 b b' (open_session host s label b').0
        (archive_all-IsAside host s plan.archive b) (open_session-IsAside host s label b'))

pub ensure_session_for-IsAside :
    (host : Host) (s : Settings) (now : ℕ) (key label : Text) (b : Bridge)
    → IsAside 1 b (ensure_session_for host s now key label b).0
unfolding ensure_session_for
ensure_session_for-IsAside host s now key label b =
    let plan =
      plan_session (pos now) (some b.runtime.pool) (str key) (num (pos now)) s.topics
        (some (λ id. answered (bool (not (is_dead b id))))) in
    elim (Bool-cases (is_empty s.session_id)) [
      | inl e ↦ rw e (planned-IsAside host s label plan plan.action b refl)
      | inr e ↦ rw e (IsAside-weaken 1 b b (IsAside-refl b))
    ]
