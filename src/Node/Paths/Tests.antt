-- ===== src/Node/Paths/Tests.antt =====
-- Paths and deny globs at concrete texts.
use dsh_link.Common.{◌≡◌, refl, true, List, [], ◌∷◌, ◌++◌, Text, codes, join, All, split}
use dsh_link.Node.Paths.{accepted, forbidden, normalize_rel_path}
use dsh_link.Node.Paths.Laws.{IsChild, normalize_rel_path_children}

up_forbidden : normalize_rel_path (codes "a/../b") ≡ forbidden
unfolding normalize_rel_path dsh_link.Common.trim_end dsh_link.Common.trim_start
    dsh_link.Common.is_space dsh_link.Common.text_eq
up_forbidden = refl

clean : normalize_rel_path (codes "a/./b/") ≡ accepted (codes "a/b")
unfolding normalize_rel_path dsh_link.Common.trim_end dsh_link.Common.trim_start
    dsh_link.Common.is_space dsh_link.Common.text_eq
clean = refl

normalize_rel_path_children_example :
    (parts : List Text) × (codes "a/b" ≡ join b'/' parts) × All IsChild parts
normalize_rel_path_children_example =
    normalize_rel_path_children (codes "a/./b/") (codes "a/b") clean
