-- ===== src/Bridge/Sessions.antt =====
-- integrations/dsh-link-bridge/lib/index.js: the calls of the DSH Host in `install`. The Host is a
-- function that answers a call by the log of all calls up to it; its services are there, `rename`
-- included. Log lines, the preset of the agent and the fields of `runtime` that only the operator
-- reads are left out.
pub mod Laws
pub mod Opening
use dsh_link.Common.{
  ℕ, zero, suc, ◌+◌, ◌-◌, Bool, true, false, not, Option, none, some, List, [], ◌∷◌, ◌++◌, Text,
  text_eq, ◌==◌,
}
use dsh_link.Common.{
  if◌then◌else◌, is_empty, or_text, take, drop, length, trim, collapse_onto, codes, any, is_some,
}
use dsh_link.Common.Int.{pos}
use dsh_link.Common.Values.{Value, num, str, bool}
use dsh_link.Bridge.Topics.Policy.{RawPolicy}
use dsh_link.Bridge.Topics.Plan.{
  Reason, Archived, Action, create, keep, Plan, Probe, answered, plan_session,
}
use dsh_link.Bridge.Topics.Sweep.{sweep_pool, Swept}
use dsh_link.Bridge.Routes.{RawRoutes}
use dsh_link.Bridge.Wake.{Limits}
use dsh_link.Bridge.State.{Runtime}

pub data Call : Type 0 where
  make_dir create_workspace : Call
  -- With the id of the workspace, or none for the bare path.
  create_session archive_session : Text → Call
  rename_session prompt_session : Text → Text → Call

-- What a call gives, the empty text for no id; or the text of the error that it throws.
pub data Reply : Type 0 where
  returned threw : Text → Reply

pub record ArchiveRecord : Type 0 where
  pub session_id : Text
  pub reason : Reason
  pub ok : Bool

-- `runtime`
pub record Bridge : Type 0 where
  pub runtime : Runtime
  pub dead_sessions : List Text
  pub archived : List ArchiveRecord
  pub ticks : ℕ
  pub notified : ℕ
  pub errors : ℕ
  pub last_error : Option Text
  pub calls : List Call

-- What `install` makes of the configuration.
pub record Settings : Type 0 where
  pub session_id : Text
  pub archive_sessions : Bool
  pub title_prefix : Text
  pub cooldown_ms : ℕ
  pub limits : Limits
  pub topics : Option RawPolicy
  pub routes : Option RawRoutes

abbrev pub Host : Type 0
Host = List Call → Reply

-- A call of the Host: the log with it, and its reply.
abbrev pub call : Host → Call → Bridge → Bridge × Reply
call host c b = let calls = b.calls ++ c ∷ [] in (record b { calls = calls }, host calls)

-- `titleFor`
unfoldable pub title_for : Settings → Text → Text
title_for s label =
    let text = take 80 (trim (collapse_onto false (or_text label (codes "remote messages")))) in
    take 120 (s.title_prefix ++ text)

-- The id of the workspace, where `workspaceRegistry.create` gives one.
abbrev pub workspace_of : Reply → Text
workspace_of (returned id) = id
workspace_of (threw e) = []

abbrev pub named : Host → Settings → Text → Bridge × Reply → Bridge × Reply
named host s label (b, threw e) = (b, threw e)
named host s label (b, returned []) =
    (b, threw (codes "sessionController.create returned no sessionId"))
named host s label (b, returned (c ∷ id)) =
    let counted = record b {
      runtime = record b.runtime { sessions_created = b.runtime.sessions_created + 1 };
    } in
    ((call host (rename_session (c ∷ id) (title_for s label)) counted).0, returned (c ∷ id))

abbrev pub in_workspace : Host → Settings → Text → Bridge × Reply → Bridge × Reply
in_workspace host s label (b, reply) =
    named host s label (call host (create_session (workspace_of reply)) b)

abbrev pub in_dir : Host → Settings → Text → Bridge × Reply → Bridge × Reply
in_dir host s label (b, threw e) = (b, threw e)
in_dir host s label (b, returned _) = in_workspace host s label (call host create_workspace b)

-- `openSession`: the id of the new session, or what it throws.
unfoldable pub open_session : Host → Settings → Text → Bridge → Bridge × Reply
unfolding title_for
open_session host s label b = in_dir host s label (call host make_dir b)

abbrev pub archive_record : Text → Reason → Bool → Bridge → Bridge
archive_record id reason ok b = record b {
  archived =
      drop (length b.archived - 49) b.archived
      ++ record { session_id = id; reason = reason; ok = ok } ∷ [];
}

abbrev pub after_archive : Text → Reason → Bridge × Reply → Bridge × Bool
after_archive id reason (b, returned _) = (
  archive_record id reason true (record b {
    runtime = record b.runtime { sessions_archived = b.runtime.sessions_archived + 1 };
  }),
  true,
)
after_archive id reason (b, threw e) = (archive_record id reason false b, false)

-- `archiveSession`
unfoldable pub archive_one : Host → Settings → Text → Reason → Bridge → Bridge × Bool
archive_one host s id reason b =
    if is_empty id
    then (b, false)
    else if not s.archive_sessions
    then (archive_record id reason false b, false)
    else after_archive id reason (call host (archive_session id) b)

-- The loop of `sweepSessions`; `room` is how many more sessions it may archive.
unfoldable pub archive_some : Host → Settings → ℕ → List Archived → Bridge → Bridge
unfolding archive_one
archive_some host s room [] b = b
archive_some host s zero (a ∷ more) b = b
archive_some host s (suc room) (a ∷ more) b =
    let (b', ok) = archive_one host s a.session_id a.reason b in
    archive_some host s (if ok then room else suc room) more b'

-- `sweepSessions`
unfoldable pub sweep_sessions : Host → Settings → ℕ → Bridge → Bridge
unfolding archive_some sweep_pool
sweep_sessions host s now b =
    let swept = sweep_pool (pos now) b.runtime.pool (num (pos now)) s.topics in
    archive_some host s 3 swept.archive
      (record b { runtime = record b.runtime { pool = swept.pool } })

-- The loop of `ensureSessionFor`.
unfoldable pub archive_all : Host → Settings → List Archived → Bridge → Bridge
unfolding archive_one
archive_all host s [] b = b
archive_all host s (a ∷ more) b =
    archive_all host s more (archive_one host s a.session_id a.reason b).0

abbrev pub is_dead : Bridge → Text → Bool
is_dead b id = any (λ dead. dead == id) b.dead_sessions

abbrev pub planned : Host → Settings → Text → Plan → Bridge → Bridge × Reply
planned host s label plan b = elim plan.action [
  | keep ↦ (b, returned (elim plan.session_id [ none ↦ [] | some id ↦ id ]))
  | create ↦ open_session host s label (archive_all host s plan.archive b)
]

-- `ensureSessionFor`
unfoldable pub ensure_session_for : Host → Settings → ℕ → Text → Text → Bridge → Bridge × Reply
unfolding open_session archive_all plan_session
ensure_session_for host s now key label b =
    let plan =
      plan_session (pos now) (some b.runtime.pool) (str key) (num (pos now)) s.topics
        (some (λ id. answered (bool (not (is_dead b id))))) in
    if is_empty s.session_id then planned host s label plan b else (b, returned s.session_id)
