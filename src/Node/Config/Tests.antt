-- ===== src/Node/Config/Tests.antt =====
-- Roots as they are given on the command line.
use dsh_link.Common.{◌≡◌, refl, true, false, none, some, [], ◌∷◌, Text, codes, text_eq}
use dsh_link.Node.Config.{spec, object, workspaces_root, unnamed_kind, normalize_root}
use dsh_link.Common.Values.{undefined, bool}

abbrev same : Text → Text
same s = s

spec_test :
    normalize_root same (spec (codes "docs=C:\\share:RW"))
    ≡ some (record {
      name = codes "docs";
      kind = unnamed_kind;
      path = codes "C:\\share";
      read = true;
      write = true;
    })
unfolding normalize_root dsh_link.Node.Names.slug_name text_eq dsh_link.Common.trim_end
    dsh_link.Common.trim_start dsh_link.Common.is_space
spec_test = refl

object_test :
    normalize_root same (object (codes "all") (codes "workspaces") [] undefined (bool true))
    ≡ some (record {
      name = codes "all";
      kind = workspaces_root;
      path = [];
      read = true;
      write = true;
    })
unfolding normalize_root dsh_link.Node.Names.slug_name text_eq dsh_link.Common.trim_end
    dsh_link.Common.trim_start dsh_link.Common.is_space
object_test = refl
