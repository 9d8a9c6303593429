-- ===== src/Common/Values.antt =====
-- Values that arrive from JSON or from a caller. A number is an integer or not finite (fractions
-- are not modelled); what an array or an object holds is modelled where the source reads it, by a
-- record of the properties that it reads.
use Prim.Native.Nat.{ℕ, zero, suc}
use mathlib.Core.Bool.{Bool, true, false}
use mathlib.Core.Option.{Option, none, some}
use mathlib.Core.List.{[], ◌∷◌}
use dsh_link.Common.Tests.{eqb, if◌then◌else◌}
use dsh_link.Common.Texts.{Text, trim, read_digits, show_ℕ, text_eq}
use dsh_link.Common.Int.{ℤ, pos, negsuc, ◌-ℤ◌}

pub data Value : Type 0 where
  undefined null nan object : Value
  bool : Bool → Value
  num : ℤ → Value
  str : Text → Value

-- `String(n)` of an integer.
unfoldable pub show_ℤ : ℤ → Text
unfolding show_ℕ
show_ℤ (pos n) = show_ℕ n
show_ℤ (negsuc n) = b'-' ∷ show_ℕ (suc n)

abbrev negate_read : Option ℕ → Option ℤ
negate_read none = none
negate_read (some n) = some (pos 0 -ℤ pos n)

abbrev read_unsigned : Option ℕ → Option ℤ
read_unsigned none = none
read_unsigned (some n) = some (pos n)

-- `Number(s)` of a trimmed decimal integer; the empty text is 0, and a sign alone is no number.
unfoldable pub read_number : Text → Option ℤ
unfolding read_digits ◌-ℤ◌
read_number [] = some (pos 0)
read_number (c ∷ []) = read_unsigned (read_digits 0 (c ∷ []))
read_number (c ∷ (d ∷ s)) =
    if eqb c b'-'
    then negate_read (read_digits 0 (d ∷ s))
    else if eqb c b'+'
    then read_unsigned (read_digits 0 (d ∷ s))
    else read_unsigned (read_digits 0 (c ∷ (d ∷ s)))

-- `Number(v)`, `none` where the result is not finite.
unfoldable pub to_number : Value → Option ℤ
unfolding read_number trim
to_number undefined = none
to_number null = some (pos 0)
to_number nan = none
to_number object = none
to_number (bool b) = some (if b then pos 1 else pos 0)
to_number (num n) = some n
to_number (str s) = read_number (trim s)

-- `v === false`, `v === true`.
abbrev pub is_false : Value → Bool
is_false (bool false) = true
is_false _ = false

abbrev pub is_true : Value → Bool
is_true (bool true) = true
is_true _ = false

abbrev pub nonzero_or : Option ℤ → ℤ → ℤ
nonzero_or none d = d
nonzero_or (some (pos zero)) d = d
nonzero_or (some (pos (suc n))) d = pos (suc n)
nonzero_or (some (negsuc n)) d = negsuc n

-- `Number(v) || d`
unfoldable pub number_or : Value → ℤ → ℤ
unfolding to_number
number_or v d = nonzero_or (to_number v) d
