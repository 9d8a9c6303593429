-- ===== src/Node/Views/Laws.antt =====
-- src/ops.mjs: what is shown of the DSH installation is what the configuration exposes.
use dsh_link.Common.{
  ◌≤◌, ◌≡◌, ◌∙◌, refl, sym, subst, Bool, true, false, not, ◌&&◌, Option, none, some, List, [], ◌∷◌,
  Text, text_eq, ◌==◌,
}
use dsh_link.Common.{is_empty, if◌then◌else◌, any, filter, All, Bool-cases, inl, inr, arith}
use dsh_link.Common.Values.{Value}
use dsh_link.Node.Server.{Result, ok, err}
use dsh_link.Node.Server.Calls.{is_self}
use dsh_link.Node.Views.{
  ViewConfig, Workspace, Session, SessionQuery, View, is_excluded, visible_workspaces, Kind,
  of_workspaces, of_transcripts, is_exposed, require_dsh, dsh_guard, require_view_ok, bind,
  of_session, is_allowed_id, visible_session, window_of, most_messages, dsh_sessions,
  dsh_transcript,
}

-- A workspace of the list has the id and is not excluded.
abbrev pub is_shown : ViewConfig → List Workspace → Text → Bool
is_shown cfg list id = any (λ w. w.id == id && not (is_excluded cfg w)) list

any-visible_workspaces :
    (cfg : ViewConfig) (list : List Workspace) (id : Text)
    → any (λ w. w.id == id) (visible_workspaces cfg list) ≡ is_shown cfg list id
unfolding visible_workspaces filter
any-visible_workspaces cfg [] id = refl
any-visible_workspaces cfg (w ∷ list) id = ground (arith, any-visible_workspaces cfg list id)

at_home {ℓ} : {A : Type ℓ} (x y : A) (b : Bool) → b ≡ true → (if not b then x else y) ≡ y
at_home x y b h = rw h refl

if_no {ℓ} : {A : Type ℓ} (x y : A) (b : Bool) → b ≡ false → (if b then x else y) ≡ y
if_no x y b h = rw h refl

ok_injective : {A : Type 0} {a b : A} → ok a ≡ ok b → a ≡ b
ok_injective h = ground arith

module _ {T : Type 0} where
  -- The installation is there, and the configuration opens it for the kind.
  pub record IsOpen (cfg : ViewConfig) (kind : Kind) (view : Option (View T)) (v : View T)
      : Type 0 where
    pub enabled : cfg.enabled ≡ true
    pub exposed : is_exposed cfg kind ≡ true
    pub there : view ≡ some v
    pub available : v.available ≡ true

  require_view_ok-IsOpen :
      (cfg : ViewConfig) (kind : Kind) (view : Option (View T)) (v : View T)
      → require_view_ok (dsh_guard cfg kind view) ≡ ok v
      → IsOpen cfg kind view v
  unfolding dsh_guard require_dsh
  require_view_ok-IsOpen cfg kind view v h = record {
    enabled = ground arith;
    exposed = ground arith;
    there = ground arith;
    available = ground arith;
  }

  filter-shown :
      (cfg : ViewConfig) (v : View T) (list : List Session)
      → All
          (λ s. is_shown cfg v.workspaces s.workspace_id ≡ true)
          (filter (λ s. is_allowed_id cfg v s.workspace_id) list)
  unfolding filter
  filter-shown cfg v [] = tt
  filter-shown cfg v (s ∷ list) = elim (Bool-cases (is_allowed_id cfg v s.workspace_id)) [
    | inl e ↦
        rw e (
          sym (any-visible_workspaces cfg v.workspaces s.workspace_id) ∙ e,
          filter-shown cfg v list,
        )
    | inr e ↦ rw e (filter-shown cfg v list)
  ]

  bind-ok :
      {A : Type 0} (r : Result (View T)) (next : View T → Result A) (a : A)
      → bind r next ≡ ok a
      → (v : View T) × (r ≡ ok v) × (next v ≡ ok a)
  bind-ok (err e) next a h = absurd (ground arith)
  bind-ok (ok v) next a h = (v, refl, h)

  -- Where this node gives a list of its conversations, its DSH view is there, enabled and exposes
  -- workspaces, and each conversation of the list is in a workspace of the view that is not excluded.
  pub dsh_sessions_shown :
      (cfg : ViewConfig) (view : Option (View T)) (name : Text) (asked : Result (List Session))
      (peer : Text) (q : SessionQuery) (list : List Session)
      → is_self name peer ≡ true
      → dsh_sessions cfg view name asked peer q ≡ ok list
      → (v : View T) × IsOpen cfg of_workspaces view v
        × All (λ s. is_shown cfg v.workspaces s.workspace_id ≡ true) list
  unfolding dsh_sessions
  dsh_sessions_shown cfg view name asked peer q list here h =
      let (v, e, g) =
        bind-ok (require_view_ok (dsh_guard cfg of_workspaces view))
          (λ v. ok (filter (λ s. is_allowed_id cfg v s.workspace_id) (v.sessions q))) list
          (sym (at_home asked _ (is_self name peer) here) ∙ h) in
      (
        v,
        require_view_ok-IsOpen cfg of_workspaces view v e,
        subst (All (λ s. is_shown cfg v.workspaces s.workspace_id ≡ true)) (ok_injective g)
            (filter-shown cfg v (v.sessions q)),
      )

  visible_session-shown :
      (cfg : ViewConfig) (v : View T) (o : Option Session) (t a : T)
      → of_session (visible_session cfg v o) t ≡ ok a
      → (s : Session) × (o ≡ some s) × (is_shown cfg v.workspaces s.workspace_id ≡ true) × (a ≡ t)
  visible_session-shown cfg v none t a h = absurd (ground arith)
  visible_session-shown cfg v (some s) t a h =
      elim (Bool-cases (is_allowed_id cfg v s.workspace_id)) [
        | inl e ↦ (
          s,
          refl,
          sym (any-visible_workspaces cfg v.workspaces s.workspace_id) ∙ e,
          ground arith,
        )
        | inr e ↦ absurd (ground arith)
      ]

  -- Where this node gives a transcript, its DSH view is there, enabled and exposes transcripts, the
  -- conversation is in a workspace of the view that is not excluded, and what was asked of the view is at
  -- least one message and at most as many as the configuration says.
  pub dsh_transcript_shown :
      (cfg : ViewConfig) (view : Option (View T)) (name : Text) (asked : Result T) (peer id : Text)
      (limit offset : Value) (tail : Bool) (t : T)
      → is_self name peer ≡ true
      → dsh_transcript cfg view name asked peer id limit offset tail ≡ ok t
      → (v : View T) × IsOpen cfg of_transcripts view v
        × ((s : Session) × (v.session id ≡ some s)
            × (is_shown cfg v.workspaces s.workspace_id ≡ true)
            × (t ≡ v.transcript id (window_of cfg limit offset tail)))
        × (1 ≤ (window_of cfg limit offset tail).limit)
        × ((window_of cfg limit offset tail).limit ≤ most_messages cfg)
  unfolding dsh_transcript
  dsh_transcript_shown cfg view name asked peer id limit offset tail t here h =
      let next : View T → Result T = λ v.
        of_session (visible_session cfg v (v.session id))
          (v.transcript id (window_of cfg limit offset tail)) in
      let inner = bind (require_view_ok (dsh_guard cfg of_transcripts view)) next in
      elim (Bool-cases (is_empty id)) [
        | inl e ↦ absurd (ground arith)
        | inr e ↦
            let (v, f, g) = bind-ok (require_view_ok (dsh_guard cfg of_transcripts view)) next t (
              sym (at_home asked inner (is_self name peer) here)
              ∙ sym (if_no _ (if not (is_self name peer) then asked else inner) (is_empty id) e)
              ∙ h) in
            (
              v,
              require_view_ok-IsOpen cfg of_transcripts view v f,
              visible_session-shown cfg v (v.session id)
                  (v.transcript id (window_of cfg limit offset tail)) t g,
              omega arith,
              omega arith,
            )
      ]
