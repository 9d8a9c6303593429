-- ===== src/Node/Paths.antt =====
-- src/fsroot.mjs: `normalizeRelPath`, `expandDenyGlobs` and `isDenied`, on texts.
pub mod Laws
mod Tests
use dsh_link.Common.{
  ℕ, Bool, true, false, not, ◌&&◌, ◌||◌, Option, none, some, List, [], ◌∷◌, ◌++◌, map, Text,
  text_eq, ◌==◌,
}
use dsh_link.Common.{
  eqb, leb, is_empty, if◌then◌else◌, any, filter, trim, split, join, has_unit, after_prefix, codes,
}
use dsh_link.Node.Globs.{matches_any_glob}

-- A path below the root, or the refusal that is thrown.
pub data Checked : Type 0 where
  accepted : Text → Checked
  forbidden bad_request : Checked

abbrev is_letter : ℕ → Bool
is_letter c = (leb b'A' c && leb c b'Z') || (leb b'a' c && leb c b'z')

-- `/^[A-Za-z]:/`
abbrev pub has_drive : Text → Bool
has_drive (c ∷ (d ∷ s)) = is_letter c && eqb d b':'
has_drive _ = false

abbrev pub starts_at_root : Text → Bool
starts_at_root [] = false
starts_at_root (c ∷ s) = eqb c b'/'

-- `replace(/\\/g, '/')`
abbrev pub to_slashes : Text → Text
to_slashes [] = []
to_slashes (c ∷ s) = (if eqb c 92 then b'/' else c) ∷ to_slashes s

abbrev pub is_step : Text → Bool
is_step segment = not (is_empty segment) && not (segment == codes ".")

-- What the loop over the segments refuses.
abbrev pub is_bad : Text → Bool
is_bad segment = segment == codes ".." || has_unit b':' segment

abbrev pub segments : Text → List Text
segments rel = filter is_step (split b'/' rel)

-- `normalizeRelPath` of a text.
unfoldable pub normalize_rel_path : Text → Checked
unfolding trim split filter has_unit join
normalize_rel_path rel_path =
    let rel = trim (to_slashes rel_path) in
    if is_empty rel || rel == codes "." || rel == codes "/"
    then accepted []
    else if starts_at_root rel || has_drive rel
    then forbidden
    else if has_unit 0 rel
    then bad_request
    else if any is_bad (segments rel)
    then forbidden
    else accepted (join b'/' (segments rel))

abbrev pub shorter : Text → Option Text → List Text
shorter glob none = glob ∷ []
shorter glob (some rest) = glob ∷ rest ∷ []

-- `expandDenyGlobs`
unfoldable pub expand_deny_globs : List Text → List Text
unfolding after_prefix
expand_deny_globs [] = []
expand_deny_globs (glob ∷ globs) =
    shorter glob (after_prefix (codes "**/") glob) ++ expand_deny_globs globs

abbrev last_of : Text → List Text → Text
last_of s [] = s
last_of s (s' ∷ parts) = last_of s' parts

-- `relPath.split('/').pop()`
abbrev pub basename : Text → Text
basename rel = last_of [] (split b'/' rel)

-- `isDenied`, where `deny` is what the constructor made of the configured globs.
unfoldable pub is_denied : List Text → Text → Bool
unfolding matches_any_glob split
is_denied deny rel = not (is_empty rel) && matches_any_glob deny (rel ∷ basename rel ∷ [])
