-- ===== src/Bridge/Commands/Errors.antt =====
-- commands.js: `errorFields`.
use dsh_link.Common.{Option, none, some, [], Text}
use dsh_link.Common.{codes, is_empty, or_text, if◌then◌else◌, or_default}
use dsh_link.Common.Values.{Value, undefined, null, nan, object, bool, num, str, show_ℤ}

-- What may be thrown: nothing at all, an error whose message may be no text, with its `code`, that of
-- its cause and its spelling, another value, or one that cannot be read.
pub data Thrown : Type 0 where
  nothing unreadable : Thrown
  error : Option Text → Value → Value → Text → Thrown
  other : Text → Thrown

-- The wire error body.
pub record Fields : Type 0 where
  pub message : Text
  pub code : Option Text

abbrev pub coalesce : Value → Value → Value
coalesce undefined v = v
coalesce null v = v
coalesce w v = w

-- `code === undefined || code === null || code === ''`, and `String(code)` otherwise.
unfoldable pub code_text : Value → Option Text
unfolding show_ℤ
code_text undefined = none
code_text null = none
code_text nan = some (codes "NaN")
code_text object = some (codes "[object Object]")
code_text (bool b) = some (if b then codes "true" else codes "false")
code_text (num n) = some (show_ℤ n)
code_text (str s) = if is_empty s then none else some s

-- `errorFields`
unfoldable pub error_fields : Thrown → Fields
unfolding code_text
error_fields nothing = record { message = codes "unknown error"; code = none }
error_fields unreadable = record { message = codes "unknown error"; code = none }
error_fields (error message code cause spelling) = record {
  message = or_text (or_default message []) spelling;
  code = code_text (coalesce code cause);
}
error_fields (other spelling) = record { message = spelling; code = none }
