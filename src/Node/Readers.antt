-- ===== src/Node/Readers.antt =====
-- src/util.mjs: the tolerant readers `toInt` and `flagBool`. (An array, of which the source reads
-- the last element, is not told from another object.)
use dsh_link.Common.{
  arith, ℕ, ◌+◌, ◌*◌, ◌-◌, min, max, ◌≤◌, ◌≡◌, Bool, true, false, ◌||◌, Option, none, some, [], ◌∷◌,
}
use dsh_link.Common.{Text, text_eq, codes, eqb, is_digit, trim_start, to_lower, if◌then◌else◌, ◌==◌}
use dsh_link.Common.Int.{ℤ, pos, pos_part, ◌-ℤ◌}
use dsh_link.Common.Values.{Value, undefined, null, nan, object, bool, num, str, show_ℤ}

-- The number that the leading digits of a text make, behind what was read before.
unfoldable pub leading_digits : ℕ → Text → ℕ
leading_digits acc [] = acc
leading_digits acc (c ∷ s) =
    let rest = leading_digits (10 * acc + (c - b'0')) s in if is_digit c then rest else acc

abbrev pub starts_digit : Text → Bool
starts_digit [] = false
starts_digit (c ∷ s) = is_digit c

abbrev unsigned : Text → Option ℕ
unsigned s = if starts_digit s then some (leading_digits 0 s) else none

abbrev positive : Option ℕ → Option ℤ
positive none = none
positive (some n) = some (pos n)

abbrev negative : Option ℕ → Option ℤ
negative none = none
negative (some n) = some (pos 0 -ℤ pos n)

-- `Number.parseInt(s, 10)`; `none` is NaN.
unfoldable pub parse_int : Text → Option ℤ
unfolding leading_digits trim_start ◌-ℤ◌
parse_int s = elim (trim_start s) [
  | [] ↦ none
  | c ∷ t ↦
      if eqb c b'-'
      then negative (unsigned t)
      else if eqb c b'+'
      then positive (unsigned t)
      else positive (unsigned (c ∷ t))
]

-- `toInt` before the bounds: `none` takes the fallback.
unfoldable pub read_int : Value → Option ℤ
unfolding parse_int show_ℤ
read_int (num n) = some n
read_int (str s) = parse_int s
read_int _ = none

-- `Math.min(max, Math.max(min, n))`, for bounds that are not negative.
abbrev pub bounded : ℕ → ℕ → ℕ → Option ℤ → ℕ
bounded low high fallback none = fallback
bounded low high fallback (some n) = min high (max low (pos_part n))

-- `toInt`
unfoldable pub to_int : Value → ℕ → ℕ → ℕ → ℕ
unfolding read_int
to_int v fallback low high = bounded low high fallback (read_int v)

-- `String(v)`; of an object, the text that every plain object has.
unfoldable pub text_of : Value → Text
unfolding show_ℤ
text_of undefined = codes "undefined"
text_of null = codes "null"
text_of nan = codes "NaN"
text_of object = codes "[object Object]"
text_of (bool b) = if b then codes "true" else codes "false"
text_of (num n) = show_ℤ n
text_of (str s) = s

abbrev pub flag_word : Text → Bool → Bool
flag_word s fallback =
    if s == codes "1" || s == codes "true" || s == codes "yes" || s == codes "on"
    then true
    else if s == codes "0" || s == codes "false" || s == codes "no" || s == codes "off"
    then false
    else fallback

-- `flagBool`
unfoldable pub flag_bool : Value → Bool → Bool
unfolding text_of to_lower
flag_bool undefined fallback = fallback
flag_bool (bool b) fallback = b
flag_bool v fallback = flag_word (to_lower (text_of v)) fallback

-- What is in bounds is read as itself.
pub to_int_id :
    (n fallback low high : ℕ) → low ≤ n → n ≤ high → to_int (num (pos n)) fallback low high ≡ n
unfolding to_int
to_int_id n fallback low high h k = omega arith

-- Whatever is read stays in the bounds, if the fallback does.
pub to_int_bounds :
    (v : Value) (fallback low high : ℕ)
    → low ≤ fallback
    → fallback ≤ high
    → (low ≤ to_int v fallback low high) × (to_int v fallback low high ≤ high)
unfolding to_int
to_int_bounds v fallback low high h k = ground arith
