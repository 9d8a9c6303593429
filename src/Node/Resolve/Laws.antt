-- ===== src/Node/Resolve/Laws.antt =====
-- src/fsroot.mjs: `resolve` ends, and what it gives lies in its root.
use dsh_link.Common.{◌≡◌, Bool, true, false, ◌⊎◌, Option, none, some, List, Text, text_eq}
use dsh_link.Node.Paths.{normalize_rel_path}
use dsh_link.Node.Roots.{Root, get_root}
use dsh_link.Node.Resolve.{
  Platform, Workspace, Refusal, no_root, ok, err, bind, Located, Cache, Answer, base_of, may,
  path_of,
}
use dsh_link.Node.Resolve.Confined.{IsConfined, IsRefused}

module _ (pf : Platform) (deny : List Text) (roots : List Root) (view : Option (List Workspace))
    (root_name path : Text) (for_write : Bool) (cache : Cache) where
  -- Where the request leads: a root that may be used so, and a base of it.
  pub record Leads (root : Root) (l : Located) : Type 0 where
    pub found : get_root roots root_name ≡ some root
    pub permitted : may root for_write ≡ none
    pub located : bind (path_of (normalize_rel_path path)) (base_of view root) ≡ ok l

  -- Why a request leads nowhere: there is no such root, it may not be used so, or the path or the
  -- workspace that it names is none.
  abbrev pub LeadsNowhere : Refusal → Type 0
  LeadsNowhere e =
      ((get_root roots root_name ≡ none) × (e ≡ no_root))
      ⊎ ((root : Root) × (get_root roots root_name ≡ some root)
          × ((may root for_write ≡ some e)
              ⊎ ((may root for_write ≡ none)
                  × (bind (path_of (normalize_rel_path path)) (base_of view root) ≡ err e))))

  abbrev pub IsSafe : Answer → Type 0
  IsSafe none = true ≡ false
  IsSafe (some (err e, cache')) =
      (LeadsNowhere e × (cache' ≡ cache))
      ⊎ ((root : Root) × (l : Located) × Leads root l × IsRefused pf deny cache l e cache')
  IsSafe (some (ok r, cache')) =
      (root : Root) × (l : Located) × Leads root l × IsConfined pf deny root cache l r cache'
