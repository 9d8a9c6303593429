-- ===== src/Common/Texts.antt =====
-- JavaScript strings, as lists of UTF-16 code units.
use Prim.Native.Nat.{ℕ, zero, suc, ◌+◌, ◌*◌, ◌-◌, ◌/◌, ◌%◌}
use Prim.Native.Char.{code}
use Prim.Native.String.{String}
use mathlib.Core.Bool.{Bool, true, false, ◌&&◌, ◌||◌}
use mathlib.Core.Option.{Option, none, some}
use mathlib.Core.List.{List, [], ◌∷◌, ◌++◌, reverse}
use native.Mathlib.Decide.{ℕ_discrete}
use dsh_link.Common.Tests.{ltb, leb, eqb, if◌then◌else◌, Eq}

abbrev pub Text : Type 0
Text = List ℕ

-- A literal. The literals of the source are in the basic plane: a code point is a code unit.
abbrev pub codes : String → Text
codes String.[] = []
codes (String.◌∷◌ c s) = code c ∷ codes s

unfoldable pub text_dec : Discrete Text
unfolding ℕ_discrete
text_dec = hlevel ℕ_discrete

instance unfoldable pub text_eq : Eq Text
unfolding text_dec
text_eq = record { dec = text_dec }

-- `\s`, and what `trim` removes.
unfoldable pub is_space : ℕ → Bool
is_space c =
    (leb 9 c && leb c 13)
    || eqb c 32
    || eqb c 160
    || eqb c 0x1680
    || (leb 0x2000 c && leb c 0x200a)
    || eqb c 0x2028
    || eqb c 0x2029
    || eqb c 0x202f
    || eqb c 0x205f
    || eqb c 0x3000
    || eqb c 0xfeff

unfoldable pub trim_start : Text → Text
trim_start [] = []
trim_start (c ∷ s) = let rest = trim_start s in if is_space c then rest else c ∷ s

abbrev pub is_empty : Text → Bool
is_empty [] = true
is_empty (c ∷ s) = false

unfoldable pub trim_end : Text → Text
trim_end [] = []
trim_end (c ∷ s) = let rest = trim_end s in if is_empty rest && is_space c then [] else c ∷ rest

-- `s.trim()`
unfoldable pub trim : Text → Text
trim s = trim_end (trim_start s)

-- `a || b` on texts: the empty text is falsy.
abbrev pub or_text : Text → Text → Text
or_text [] b = b
or_text (c ∷ s) b = c ∷ s

abbrev pub is_digit : ℕ → Bool
is_digit c = leb b'0' c && leb c b'9'

-- `toLowerCase`, on the letters A to Z. (No other character becomes a letter of the words that
-- the source compares with.)
abbrev pub lower_unit : ℕ → ℕ
lower_unit c = if leb b'A' c && leb c b'Z' then c + 32 else c

unfoldable pub to_lower : Text → Text
to_lower [] = []
to_lower (c ∷ s) = lower_unit c ∷ to_lower s

-- Decimal digits; the fuel `suc n` is enough, for `n / 10 < n` unless `n` is 0.
unfoldable pub digits_onto : ℕ → ℕ → Text → Text
digits_onto zero n out = out
digits_onto (suc fuel) n out =
    let more = digits_onto fuel (n / 10) ((b'0' + n % 10) ∷ out) in
    if ltb n 10 then (b'0' + n) ∷ out else more

unfoldable pub show_ℕ : ℕ → Text
unfolding digits_onto
show_ℕ n = digits_onto (suc n) n []

-- A run of digits, read as a number; `none` if another character stands in it.
unfoldable pub read_digits : ℕ → Text → Option ℕ
read_digits acc [] = some acc
read_digits acc (c ∷ s) =
    let rest = read_digits (10 * acc + (c - b'0')) s in if is_digit c then rest else none

-- `s.startsWith(p)` with what follows: the rest of `s` behind the prefix `p`.
unfoldable pub after_prefix : Text → Text → Option Text
after_prefix [] s = some s
after_prefix (c ∷ p) [] = none
after_prefix (c ∷ p) (d ∷ s) = let rest = after_prefix p s in if eqb c d then rest else none

-- `s.includes(c)` for one code unit.
unfoldable pub has_unit : ℕ → Text → Bool
has_unit u [] = false
has_unit u (c ∷ s) = eqb c u || has_unit u s

-- `s.split(c)` for one code unit.
unfoldable pub split_onto : ℕ → Text → Text → List Text
split_onto u cur [] = reverse cur ∷ []
split_onto u cur (c ∷ s) =
    let closed = reverse cur ∷ split_onto u [] s in
    let longer = split_onto u (c ∷ cur) s in if eqb c u then closed else longer

unfoldable pub split : ℕ → Text → List Text
unfolding split_onto
split u s = split_onto u [] s

-- `parts.join(c)` for one code unit.
unfoldable pub join : ℕ → List Text → Text
join u [] = []
join u (p ∷ []) = p
join u (p ∷ (q ∷ parts)) = p ++ (u ∷ join u (q ∷ parts))

-- Code-unit order, `a < b` on strings.
unfoldable pub text_ltb : Text → Text → Bool
text_ltb [] [] = false
text_ltb [] (d ∷ t) = true
text_ltb (c ∷ s) [] = false
text_ltb (c ∷ s) (d ∷ t) =
    let rest = text_ltb s t in if ltb c d then true else (if eqb c d then rest else false)

-- `s.replace(/\s+/g, ' ')`; the flag says that the last character was a space.
unfoldable pub collapse_onto : Bool → Text → Text
collapse_onto seen [] = []
collapse_onto seen (c ∷ s) =
    let inside = collapse_onto true s in
    let outside = collapse_onto false s in
    if is_space c then (if seen then inside else b' ' ∷ inside) else c ∷ outside
