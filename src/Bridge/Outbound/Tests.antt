-- ===== src/Bridge/Outbound/Tests.antt =====
-- The record behind the first blank line of a tool result.
use dsh_link.Common.{◌≡◌, refl, some, ◌∷◌, ◌++◌, codes}
use dsh_link.Bridge.Outbound.{behind_gap}

gap_found : behind_gap (codes "message m1" ++ 10 ∷ 10 ∷ codes "{}") ≡ some (codes "{}")
unfolding behind_gap
gap_found = refl
