-- ===== src/Node/Ids.antt =====
-- src/util.mjs: `newId` and `clampText`. The random digits are an argument.
use dsh_link.Common.{ℕ, zero, suc, ◌+◌, ◌-◌, ◌/◌, ◌%◌, ◌≡◌, [], ◌∷◌, ◌++◌, Text}
use dsh_link.Common.{if◌then◌else◌, leb, length, take, codes, show_ℕ, arith}

-- `ID_ALPHABET`
abbrev alphabet : Text
alphabet = codes "0123456789abcdefghjkmnpqrstvwxyz"

abbrev digit_at : Text → ℕ → ℕ
digit_at [] n = 0
digit_at (c ∷ s) zero = c
digit_at (c ∷ s) (suc n) = digit_at s n

-- The loop over the digits of the time, the last one first.
unfoldable pub stamp_onto : ℕ → ℕ → Text → Text
stamp_onto zero t stamp = stamp
stamp_onto (suc rounds) t stamp = stamp_onto rounds (t / 32) (digit_at alphabet (t % 32) ∷ stamp)

-- `newId` at a time.
unfoldable pub new_id : Text → Text → ℕ → Text
unfolding stamp_onto
new_id prefix random now = prefix ++ codes "_" ++ stamp_onto 10 now [] ++ random

-- `clampText` of a text.
unfoldable pub clamp_text : Text → ℕ → Text
unfolding show_ℕ
clamp_text s max =
    if leb (length s) max
    then s
    else take max s ++ (10 ∷ codes "…[truncated ") ++ show_ℕ (length s - max) ++ codes " chars]"

pub length-stamp_onto :
    (rounds t : ℕ) (stamp : Text) → length (stamp_onto rounds t stamp) ≡ rounds + length stamp
unfolding stamp_onto
length-stamp_onto zero t stamp = omega arith
length-stamp_onto (suc rounds) t stamp =
    omega (arith, length-stamp_onto rounds (t / 32) (digit_at alphabet (t % 32) ∷ stamp))
