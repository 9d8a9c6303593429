-- ===== src/Node/Reload/Tests.antt =====
-- A file that changes once while a node runs.
use dsh_link.Common.{
  ℕ, ◌≡◌, refl, ap, true, false, none, some, List, [], ◌∷◌, Text, codes, arith, text_eq,
}
use dsh_link.Common.Dict.{Dict, lookup}
use dsh_link.Node.Reload.{File, Watcher, check}
use dsh_link.Node.Reload.Laws.{IsLoadable, IsInSync, IsSame, run, check-run}

abbrev content_of : Text → Dict Text
content_of s = (codes "name", s) ∷ []

abbrev file : Text → File Text
file s = record { signature = some s; content = some (content_of s) }

file-IsLoadable : (t : Text) → IsLoadable content_of (file t)
unfolding lookup
file-IsLoadable t s h =
    let same : t ≡ s = ground arith in (ap (λ x. some (content_of x)) same, (refl, tt))

abbrev watcher : Watcher Text
watcher = record {
  cfg = (codes "configPath", codes "/c") ∷ [];
  signature = none;
  last_check = 0;
  reloads = 0;
  has_error = false;
}

watcher-IsInSync : IsInSync content_of watcher
watcher-IsInSync s h = absurd (ground arith)

abbrev checks : List (ℕ × File Text)
checks = (2000, file (codes "a")) ∷ (2500, file (codes "b")) ∷ []

check-run_example :
    IsSame
      (check 1000 true 2600 (file (codes "b")) (run content_of 1000 checks watcher)).0.cfg
      (content_of (codes "b"))
check-run_example =
    check-run content_of 1000 checks watcher true 2600 (file (codes "b")) (codes "b")
      (file-IsLoadable (codes "a"), (file-IsLoadable (codes "b"), tt)) watcher-IsInSync
      (file-IsLoadable (codes "b")) refl refl
