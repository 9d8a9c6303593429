-- ===== src/Node/Views/Tests.antt =====
-- An installation with two workspaces, one of which is excluded.
use dsh_link.Common.{◌≤◌, ◌≡◌, refl, true, false, none, some, [], ◌∷◌, Text, codes, text_eq, All}
use dsh_link.Common.{if◌then◌else◌, ◌==◌}
use dsh_link.Common.Int.{pos}
use dsh_link.Common.Values.{undefined, num}
use dsh_link.Node.Server.{err, other_error}
use dsh_link.Node.Views.{
  ViewConfig, Session, SessionQuery, Window, View, of_workspaces, of_transcripts, window_of,
  most_messages, dsh_sessions, dsh_transcript,
}
use dsh_link.Node.Views.Laws.{IsOpen, is_shown, dsh_sessions_shown, dsh_transcript_shown}

abbrev config : ViewConfig
config = record {
  enabled = true;
  expose_workspaces = true;
  expose_transcripts = true;
  exclude_workspaces = codes "Secret" ∷ [];
  transcript_max_messages = num (pos 20);
  transcript_max_chars = undefined;
}

abbrev session : Text → Text → Session
session id workspace = record { id = id; workspace_id = workspace }

abbrev view : View Window
view = record {
  available = true;
  workspaces =
      record { id = codes "w1"; path = codes "/home/a/work" }
      ∷ record { id = codes "w2"; path = codes "/home/a/secret" }
      ∷ [];
  sessions = λ q. session (codes "s1") (codes "w1") ∷ session (codes "s2") (codes "w2") ∷ [];
  session = λ id. if id == codes "s1" then some (session id (codes "w1")) else none;
  transcript = λ id window. window;
}

abbrev query : SessionQuery
query = record { workspace = []; include_archived = false; query = []; limit = 100 }

dsh_sessions_shown_example :
    (v : View Window) × IsOpen config of_workspaces (some view) v
    × All
        (λ s. is_shown config v.workspaces s.workspace_id ≡ true)
        (session (codes "s1") (codes "w1") ∷ [])
unfolding dsh_sessions text_eq
dsh_sessions_shown_example =
    dsh_sessions_shown config (some view) (codes "desk") (err other_error) [] query
      (session (codes "s1") (codes "w1") ∷ []) refl refl

dsh_transcript_shown_example :
    let window = window_of config (num (pos 500)) undefined false in
    (v : View Window) × IsOpen config of_transcripts (some view) v
    × ((s : Session) × (v.session (codes "s1") ≡ some s)
        × (is_shown config v.workspaces s.workspace_id ≡ true)
        × (window ≡ v.transcript (codes "s1") window))
    × (1 ≤ window.limit)
    × (window.limit ≤ most_messages config)
unfolding dsh_transcript text_eq
dsh_transcript_shown_example =
    dsh_transcript_shown config (some view) (codes "desk") (err other_error) [] (codes "s1")
      (num (pos 500)) undefined false (window_of config (num (pos 500)) undefined false) refl refl
