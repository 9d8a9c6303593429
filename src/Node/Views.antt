-- ===== src/Node/Views.antt =====
-- src/ops.mjs: what a node shows of its DSH installation, to itself and to its peers. The view itself is
-- an interface, and the calls of other nodes are a parameter.
pub mod Laws
pub mod Config
mod Tests
use dsh_link.Common.{
  ℕ, ◌+◌, min, max, Bool, true, false, not, ◌&&◌, ◌||◌, Option, none, some, List, [], ◌∷◌, ◌++◌,
  map, Text, text_eq, ◌==◌,
}
use dsh_link.Common.{is_empty, if◌then◌else◌, any, filter, codes, to_lower}
use dsh_link.Common.Int.{pos, pos_part}
use dsh_link.Common.Values.{Value, number_or}
use dsh_link.Node.Paths.{to_slashes}
use dsh_link.Node.Server.{Result, ok, err, link_error}
use dsh_link.Node.Server.Calls.{is_self}

-- The section `dsh` of the configuration.
pub record ViewConfig : Type 0 where
  pub enabled : Bool
  pub expose_workspaces : Bool
  pub expose_transcripts : Bool
  pub exclude_workspaces : List Text
  pub transcript_max_messages : Value
  pub transcript_max_chars : Value

pub record Workspace : Type 0 where
  pub id : Text
  pub path : Text

pub record Session : Type 0 where
  pub id : Text
  pub workspace_id : Text

-- What is asked of a transcript.
pub record Window : Type 0 where
  pub limit : ℕ
  pub offset : ℕ
  pub tail : Bool
  pub max_chars : ℕ

-- What a list of conversations is asked for.
pub record SessionQuery : Type 0 where
  pub workspace : Text
  pub include_archived : Bool
  pub query : Text
  pub limit : ℕ

-- The view of the installation; `T` is a transcript.
pub record View (T : Type 0) : Type 0 where
  pub available : Bool
  pub workspaces : List Workspace
  pub sessions : SessionQuery → List Session
  pub session : Text → Option Session
  pub transcript : Text → Window → T

unfoldable pub ends_with : Text → Text → Bool
ends_with [] suffix = is_empty suffix
ends_with (c ∷ s) suffix = (c ∷ s) == suffix || ends_with s suffix

-- The test of one needle of `visibleWorkspaces`.
abbrev pub names_it : Workspace → Text → Bool
names_it w needle =
    to_lower w.id == needle || ends_with (to_lower (to_slashes w.path)) (b'/' ∷ needle)

unfoldable pub is_excluded : ViewConfig → Workspace → Bool
unfolding to_lower ends_with
is_excluded cfg w = any (λ value. names_it w (to_lower value)) cfg.exclude_workspaces

-- `visibleWorkspaces`
unfoldable pub visible_workspaces : ViewConfig → List Workspace → List Workspace
unfolding is_excluded filter
visible_workspaces cfg list = filter (λ w. not (is_excluded cfg w)) list

pub data Kind : Type 0 where
  of_workspaces of_transcripts : Kind

abbrev pub is_exposed : ViewConfig → Kind → Bool
is_exposed cfg of_workspaces = cfg.expose_workspaces
is_exposed cfg of_transcripts = cfg.expose_transcripts

abbrev disabled_code : Kind → Text
disabled_code of_workspaces = codes "dsh_workspaces_disabled"
disabled_code of_transcripts = codes "dsh_transcripts_disabled"

abbrev not_found : Result Session
not_found = err (link_error 404 (codes "not_found"))

abbrev pub of_session : {A : Type 0} → Result Session → A → Result A
of_session (err e) a = err e
of_session (ok s) a = ok a

-- `maxMessages`
unfoldable pub most_messages : ViewConfig → ℕ
unfolding number_or
most_messages cfg = max 1 (pos_part (number_or cfg.transcript_max_messages (pos 200)))

-- What `dshTranscript` asks of the view.
abbrev pub window_of : ViewConfig → Value → Value → Bool → Window
window_of cfg limit offset tail =
    let most = most_messages cfg in
    record {
      limit = max 1 (min (pos_part (number_or limit (pos most))) most);
      offset = pos_part (number_or offset (pos 0));
      tail = tail;
      max_chars = max 200 (pos_part (number_or cfg.transcript_max_chars (pos 8000)));
    }

module _ {T : Type 0} where
  -- `requireDsh`
  unfoldable pub require_dsh : ViewConfig → Option (View T) → Result (View T)
  require_dsh cfg view =
      if not cfg.enabled
      then err (link_error 403 (codes "dsh_disabled"))
      else elim view [ none ↦ err (link_error 503 (codes "dsh_unavailable")) | some v ↦ ok v ]

  abbrev exposed : ViewConfig → Kind → Result (View T) → Result (View T)
  exposed cfg kind (err e) = err e
  exposed cfg kind (ok v) =
      if is_exposed cfg kind then ok v else err (link_error 403 (disabled_code kind))

  -- `dshGuard`
  unfoldable pub dsh_guard : ViewConfig → Kind → Option (View T) → Result (View T)
  unfolding require_dsh
  dsh_guard cfg kind view = exposed cfg kind (require_dsh cfg view)

  -- `requireViewOk`
  abbrev pub require_view_ok : Result (View T) → Result (View T)
  require_view_ok (err e) = err e
  require_view_ok (ok v) =
      if v.available then ok v else err (link_error 503 (codes "dsh_unavailable"))

  abbrev pub bind : {A : Type 0} → Result (View T) → (View T → Result A) → Result A
  bind (err e) next = err e
  bind (ok v) next = next v

  abbrev pub is_allowed_id : ViewConfig → View T → Text → Bool
  is_allowed_id cfg v id = any (λ w. w.id == id) (visible_workspaces cfg v.workspaces)

  -- The conversation of an id, if its workspace is visible.
  abbrev pub visible_session : ViewConfig → View T → Option Session → Result Session
  visible_session cfg v none = not_found
  visible_session cfg v (some s) = if is_allowed_id cfg v s.workspace_id then ok s else not_found

  module _ (cfg : ViewConfig) (view : Option (View T)) (name : Text) where
    -- `dshWorkspaces`, of a peer that `ask` calls or of this node.
    unfoldable pub dsh_workspaces : Result (List Workspace) → Text → Result (List Workspace)
    unfolding dsh_guard visible_workspaces
    dsh_workspaces asked peer =
        if not (is_self name peer)
        then asked
        else bind (require_view_ok (dsh_guard cfg of_workspaces view))
            (λ v. ok (visible_workspaces cfg v.workspaces))

    -- `dshSessions`
    unfoldable pub dsh_sessions :
        Result (List Session) → Text → SessionQuery → Result (List Session)
    unfolding dsh_guard visible_workspaces filter
    dsh_sessions asked peer q =
        if not (is_self name peer)
        then asked
        else bind (require_view_ok (dsh_guard cfg of_workspaces view))
            (λ v. ok (filter (λ s. is_allowed_id cfg v s.workspace_id) (v.sessions q)))

    -- `dshSession`
    unfoldable pub dsh_session : Result Session → Text → Text → Result Session
    unfolding dsh_guard visible_workspaces
    dsh_session asked peer id =
        if is_empty id
        then err (link_error 400 (codes "bad_request"))
        else if not (is_self name peer)
        then asked
        else bind (require_view_ok (dsh_guard cfg of_workspaces view))
            (λ v. visible_session cfg v (v.session id))

    -- `dshTranscript`
    unfoldable pub dsh_transcript : Result T → Text → Text → Value → Value → Bool → Result T
    unfolding dsh_guard visible_workspaces number_or most_messages
    dsh_transcript asked peer id limit offset tail =
        if is_empty id
        then err (link_error 400 (codes "bad_request"))
        else if not (is_self name peer)
        then asked
        else bind (require_view_ok (dsh_guard cfg of_transcripts view)) (λ v.
          of_session (visible_session cfg v (v.session id))
            (v.transcript id (window_of cfg limit offset tail)))
