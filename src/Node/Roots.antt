-- ===== src/Node/Roots.antt =====
-- src/fsroot.mjs: `mapRoot` and `getRoot`. The platform's `path.resolve` is a parameter.
use dsh_link.Common.{
  Bool, not, ◌||◌, Option, none, some, List, [], ◌∷◌, Text, text_eq, ◌==◌, codes, is_empty,
  if◌then◌else◌, ◌≡◌, arith,
}
use dsh_link.Common.Values.{Value, is_false, is_true}
use dsh_link.Node.Names.{slug_name}

-- A configured root.
pub record RawRoot : Type 0 where
  pub name : Text
  pub kind : Text
  pub path : Text
  pub read : Value
  pub write : Value

-- A root; `none` for the path of one over the workspaces of DSH.
pub record Root : Type 0 where
  pub name : Text
  pub path : Option Text
  pub read : Bool
  pub write : Bool

module _ (resolve_path : Text → Text) where
  -- `mapRoot`
  unfoldable pub map_root : RawRoot → Root
  unfolding slug_name
  map_root root =
      let workspaces = root.kind == codes "workspaces" || root.kind == codes "dsh-workspaces" in
      record {
        name = slug_name root.name (codes "node");
        path = if workspaces then none else some (resolve_path root.path);
        read = not (is_false root.read);
        write = is_true root.write;
      }

abbrev find_root : Text → List Root → Option Root
find_root wanted [] = none
find_root wanted (r ∷ roots) = if r.name == wanted then some r else find_root wanted roots

abbrev first_root : List Root → Option Root
first_root [] = none
first_root (r ∷ roots) = some r

-- `getRoot` of a name, which is empty where none is given; `none` is the refusal.
unfoldable pub get_root : List Root → Text → Option Root
unfolding slug_name
get_root roots name =
    if is_empty name || name == codes "self"
    then first_root roots
    else find_root (slug_name name (codes "node")) roots

-- The root that is found is one of the list, and, where a name other than `self` was given, its name
-- is the slug of it.
find_root-name :
    (wanted : Text) (roots : List Root) (r : Root)
    → find_root wanted roots ≡ some r
    → r.name ≡ wanted
find_root-name wanted [] r h = absurd (ground arith)
find_root-name wanted (s ∷ roots) r h = ground (arith, find_root-name wanted roots r)
