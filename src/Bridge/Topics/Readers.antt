-- ===== src/Bridge/Topics/Readers.antt =====
-- topics.js: the tolerant readers of fields.
use dsh_link.Common.{ℕ, Option, none, some, [], Text, is_empty, if◌then◌else◌}
use dsh_link.Common.Int.{ℤ, pos, negsuc, pos_part}
use dsh_link.Common.Values.{Value, undefined, null, nan, object, bool, num, str, show_ℤ, to_number}

-- `asText`
unfoldable pub as_text : Value → Text
unfolding show_ℤ
as_text (str s) = s
as_text (num n) = show_ℤ n
as_text _ = []

-- `asNumber`
abbrev pub as_number : Value → ℤ → ℤ
as_number (num n) fallback = n
as_number _ fallback = fallback

-- The test of `nonNegative` on a converted number.
abbrev pub keep_nonnegative : Option ℤ → ℕ → ℕ
keep_nonnegative none fallback = fallback
keep_nonnegative (some (pos n)) fallback = n
keep_nonnegative (some (negsuc n)) fallback = fallback

-- `nonNegative`
unfoldable pub non_negative : Value → ℕ → ℕ
unfolding to_number
non_negative undefined fallback = fallback
non_negative null fallback = fallback
non_negative (str s) fallback =
    if is_empty s then fallback else keep_nonnegative (to_number (str s)) fallback
non_negative (bool b) fallback = keep_nonnegative (to_number (bool b)) fallback
non_negative (num n) fallback = keep_nonnegative (some n) fallback
non_negative nan fallback = fallback
non_negative object fallback = keep_nonnegative (to_number object) fallback

-- `Math.max(0, Math.floor(asNumber(v, 0)))`
abbrev pub as_count : Value → ℕ
as_count v = pos_part (as_number v (pos 0))
