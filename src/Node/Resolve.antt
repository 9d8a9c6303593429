-- ===== src/Node/Resolve.antt =====
-- src/fsroot.mjs: `resolve`, which turns a path below a root into a path of the machine. What the
-- platform says of paths and of the files is a parameter.
pub mod Confined
pub mod Laws
mod Tests
use dsh_link.Common.{
  ℕ, zero, suc, Bool, true, false, not, ◌&&◌, ◌||◌, Option, none, some, List, [], ◌∷◌, ◌++◌, Text,
  text_eq, ◌==◌,
}
use dsh_link.Common.{
  is_empty, if◌then◌else◌, codes, length, split, join, to_lower, take, or_default, ltb,
}
use dsh_link.Common.Dict.{Dict, lookup, insert}
use dsh_link.Node.Names.{slug_name}
use dsh_link.Node.Paths.{
  Checked, accepted, forbidden, bad_request, normalize_rel_path, is_denied, to_slashes,
}
use dsh_link.Node.Pairing.{strip_slashes}
use dsh_link.Node.Roots.{Root, get_root}
use dsh_link.Node.Views.{ends_with}

-- `realpath` and `lstat`, and the functions on paths.
pub record Platform : Type 0 where
  pub real_path : Text → Option Text
  pub exists : Text → Bool
  pub resolve : Text → Text → Text
  pub dirname : Text → Text
  pub relative : Text → Text → Text
  pub is_absolute : Text → Bool

pub record Workspace : Type 0 where
  pub id : Text
  pub title : Text
  pub path : Text

pub data Refusal : Type 0 where
  no_root no_reading no_writing bad_path blocked no_selector no_view no_workspace no_directory
        escapes escapes_by_link :
      Refusal

pub data Result {ℓ} (A : Type ℓ) : Type ℓ where
  ok : A → Result A
  err : Refusal → Result A

abbrev pub bind {ℓ} : {A B : Type ℓ} → Result A → (A → Result B) → Result B
bind (err e) next = err e
bind (ok a) next = next a

-- `isInside`
abbrev pub is_inside : Platform → Text → Text → Bool
is_inside pf base target =
    let rel = pf.relative base target in
    is_empty rel || (not (take 2 rel == codes "..") && not (pf.is_absolute rel))

abbrev first_such : (Workspace → Bool) → List Workspace → Option Workspace
first_such test [] = none
first_such test (w ∷ list) = if test w then some w else first_such test list

abbrev or_then : Option Workspace → Option Workspace → Option Workspace
or_then none b = b
or_then (some a) b = some a

abbrev plain : Text → Text
plain path = to_lower (strip_slashes (to_slashes path))

-- The search of `_resolveWorkspace`.
unfoldable pub find_workspace : Text → List Workspace → Option Workspace
unfolding to_lower slug_name strip_slashes ends_with
find_workspace selector list =
    let wanted = to_lower selector in
    or_then (first_such (λ w. to_lower w.id == wanted) list) (
      or_then (first_such (λ w. to_lower (slug_name w.title (codes "node")) == wanted) list)
        (first_such (λ w. plain w.path == wanted || ends_with (plain w.path) (b'/' ∷ wanted)) list))

-- `_resolveWorkspace`; `none` for no view.
unfoldable pub resolve_workspace : Option (List Workspace) → Text → Result Workspace
unfolding find_workspace
resolve_workspace none selector = err no_view
resolve_workspace (some list) selector = elim (find_workspace selector list) [
  | none ↦ err no_workspace
  | some w ↦ ok w
]

-- The path below the base, the base, and the key of its real path in the cache.
pub record Located : Type 0 where
  pub rel : Text
  pub base : Text
  pub key : Text

abbrev below : Text → Text → Workspace → Result Located
below root_name rel w =
    ok (record { rel = rel; base = w.path; key = root_name ++ codes "|" ++ w.id })

abbrev pub in_workspace : Option (List Workspace) → Text → List Text → Result Located
in_workspace view root_name [] = err no_selector
in_workspace view root_name (selector ∷ segments) =
    if is_empty selector
    then err no_selector
    else bind (resolve_workspace view selector) (below root_name (join b'/' segments))

unfoldable pub base_of : Option (List Workspace) → Root → Text → Result Located
unfolding resolve_workspace split join
base_of view root rel = elim root.path [
  | some path ↦ ok (record { rel = rel; base = path; key = root.name })
  | none ↦ in_workspace view root.name (if is_empty rel then [] else split b'/' rel)
]

-- The loop up to what exists; `none` if the fuel does not do.
unfoldable pub ancestor_of : Platform → ℕ → Text → Option Text
ancestor_of pf zero path = none
ancestor_of pf (suc fuel) path =
    let parent = pf.dirname path in
    let higher = ancestor_of pf fuel parent in
    if pf.exists path || parent == path then some path else higher

-- What `resolve` gives.
pub record Resolved : Type 0 where
  pub root : Root
  pub rel : Text
  pub abs : Text

-- The last check, of the ancestor.
abbrev pub through_links :
    Platform → Root → Text → Text → Text → Option Text → Option (Result Resolved)
through_links pf root rel real abs none = none
through_links pf root rel real abs (some ancestor) =
    let from_real = or_default (pf.real_path ancestor) ancestor in
    let target = pf.resolve from_real (pf.relative ancestor abs) in
    some (
      if is_inside pf real target
      then ok (record { root = root; rel = rel; abs = target })
      else err escapes_by_link)

-- What `_realRoot` keeps: the real path of a root or a workspace, once it was found.
abbrev pub Cache : Type 0
Cache = Dict Text

abbrev pub found_real : Cache → Text → Option Text → Option (Text × Cache)
found_real cache key none = none
found_real cache key (some real) = some (real, insert key real cache)

-- `_realRoot`; `none` where there is no such directory.
unfoldable pub real_root : Platform → Cache → Located → Option (Text × Cache)
unfolding lookup insert
real_root pf cache l = elim (lookup l.key cache) [
  | some real ↦ some (real, cache)
  | none ↦ found_real cache l.key (pf.real_path l.base)
]

-- The answer of `resolve`, with the cache.
abbrev pub Answer : Type 0
Answer = Option (Result Resolved × Cache)

abbrev pub with_cache : Cache → Option (Result Resolved) → Answer
with_cache cache none = none
with_cache cache (some result) = some (result, cache)

abbrev pub below_real : Platform → Root → Cache → Located → Option (Text × Cache) → Answer
below_real pf root cache l none = some (err no_directory, cache)
below_real pf root cache l (some (real, cache')) =
    let abs = pf.resolve real l.rel in
    let ancestor = ancestor_of pf (suc (length abs)) abs in
    if is_inside pf real abs
    then with_cache cache' (through_links pf root l.rel real abs ancestor)
    else some (err escapes, cache')

-- From the path below the base on. Each parent is shorter, so the fuel does.
unfoldable pub confined : Platform → List Text → Root → Cache → Located → Answer
unfolding is_denied ancestor_of real_root
confined pf deny root cache l =
    if is_denied deny l.rel
    then some (err blocked, cache)
    else below_real pf root cache l (real_root pf cache l)

abbrev pub may : Root → Bool → Option Refusal
may root for_write =
    if not root.read && not for_write
    then some no_reading
    else if for_write && not root.write
    then some no_writing
    else none

abbrev pub path_of : Checked → Result Text
path_of (accepted rel) = ok rel
path_of forbidden = err bad_path
path_of bad_request = err bad_path

abbrev pub at_base : Platform → List Text → Root → Cache → Result Located → Answer
at_base pf deny root cache (err e) = some (err e, cache)
at_base pf deny root cache (ok l) = confined pf deny root cache l

abbrev pub unless : Cache → Option Refusal → Answer → Answer
unless cache (some e) r = some (err e, cache)
unless cache none r = r

abbrev pub on_root :
    Platform → List Text → Option (List Workspace) → Text → Bool → Cache → Option Root → Answer
on_root pf deny view path for_write cache none = some (err no_root, cache)
on_root pf deny view path for_write cache (some root) =
    unless cache (may root for_write)
      (at_base pf deny root cache (bind (path_of (normalize_rel_path path)) (base_of view root)))

-- `resolve`; `none` if the fuel does not do.
unfoldable pub resolve_path :
    Platform → List Text → List Root → Option (List Workspace) → Text → Text → Bool → Cache → Answer
unfolding get_root normalize_rel_path base_of confined
resolve_path pf deny roots view root_name path for_write cache =
    on_root pf deny view path for_write cache (get_root roots root_name)
