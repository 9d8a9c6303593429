-- ===== src/Node/Resolve/Tests.antt =====
-- A machine on which every path exists but those that end in `new`, and nothing is a link.
use dsh_link.Common.{
  true, false, some, List, [], ◌∷◌, ◌++◌, Text, codes, text_eq, if◌then◌else◌, ◌==◌, is_empty,
}
use dsh_link.Node.Roots.{Root}
use dsh_link.Node.Resolve.{Platform}

abbrev parent_of : Text → Text
parent_of [] = []
parent_of (c ∷ s) = s

abbrev below : Text → Text → Text
below base rel = if is_empty rel then base else base ++ codes "/" ++ rel

abbrev platform : Platform
platform = record {
  real_path = λ p. some p;
  exists = λ p. true;
  resolve = below;
  dirname = parent_of;
  relative = λ base target. if base == target then [] else codes "x";
  is_absolute = λ p. false;
}

abbrev root : Root
root = record { name = codes "docs"; path = some (codes "/srv"); read = true; write = false }

abbrev deny : List Text
deny = codes "**/.env" ∷ []
