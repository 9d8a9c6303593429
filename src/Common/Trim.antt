-- ===== src/Common/Trim.antt =====
-- Laws of `trim`.
use mathlib.Core.Path.{◌≡◌, refl}
use mathlib.Core.Logic.{inl, inr}
use mathlib.Core.List.{[], ◌∷◌}
use native.Mathlib.Omega.{arith}
use dsh_link.Common.Tests.{Bool-cases}
use dsh_link.Common.Texts.{Text, is_space, trim_start, trim_end, trim}

pub trim_start_idempotent : (s : Text) → trim_start (trim_start s) ≡ trim_start s
unfolding trim_start
trim_start_idempotent [] = refl
trim_start_idempotent (c ∷ s) = elim (Bool-cases (is_space c)) [
  | inl e ↦ rw e (trim_start_idempotent s)
  | inr e ↦ rw (e, trim_start) (rw e refl)
]

pub trim_end_idempotent : (s : Text) → trim_end (trim_end s) ≡ trim_end s
unfolding trim_end
trim_end_idempotent [] = refl
trim_end_idempotent (c ∷ s) = ground (arith, trim_end_idempotent s)

-- The two ends can be trimmed in either order.
pub trim_start-trim_end : (s : Text) → trim_start (trim_end s) ≡ trim_end (trim_start s)
unfolding trim_start trim_end
trim_start-trim_end [] = refl
trim_start-trim_end (c ∷ s) = ground (arith, trim_start-trim_end s)

pub trim_idempotent : (s : Text) → trim (trim s) ≡ trim s
unfolding trim
trim_idempotent s =
    rw (trim_start-trim_end (trim_start s), trim_start_idempotent s, trim_end_idempotent)
