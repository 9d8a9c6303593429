-- ===== src/Bridge/Topics/Subject.antt =====
-- topics.js: `SUBJECT_PREFIX` and `normalizeSubject`. The expression is matched by hand: in it no
-- two ways to match begin alike, so that no choice is taken back.
pub mod Laws
use dsh_link.Common.{ℕ, zero, suc, Bool, true, false, ◌||◌, Option, none, some, List, [], ◌∷◌, Text}
use dsh_link.Common.{codes, eqb, if◌then◌else◌, is_digit, lower_unit, trim_start, trim}
use dsh_link.Common.Values.{Value}
use dsh_link.Bridge.Topics.Readers.{as_text}

-- The rest of a text behind a word, letters in either case.
unfoldable pub after_word : Text → Text → Option Text
after_word [] s = some s
after_word (c ∷ w) [] = none
after_word (c ∷ w) (d ∷ s) =
    let rest = after_word w s in if eqb (lower_unit c) (lower_unit d) then rest else none

-- The words of the expression, in its order.
abbrev markers : List Text
markers =
    codes "re"
    ∷ codes "fwd"
    ∷ codes "fw"
    ∷ codes "aw"
    ∷ codes "sv"
    ∷ codes "回复"
    ∷ codes "答复"
    ∷ codes "回覆"
    ∷ codes "回信"
    ∷ codes "转发"
    ∷ codes "轉發"
    ∷ codes "轉寄"
    ∷ codes "转寄"
    ∷ []

abbrev or_else_text : Option Text → Option Text → Option Text
or_else_text none b = b
or_else_text (some s) b = some s

unfoldable pub after_marker : List Text → Text → Option Text
unfolding after_word
after_marker [] s = none
after_marker (w ∷ ws) s = or_else_text (after_word w s) (after_marker ws s)

-- `[(\[（]?`, `[)\]）]?`
abbrev skip_open : Text → Text
skip_open [] = []
skip_open (c ∷ s) = if eqb c b'(' || eqb c b'[' || eqb c 0xff08 then s else c ∷ s

abbrev skip_close : Text → Text
skip_close [] = []
skip_close (c ∷ s) = if eqb c b')' || eqb c b']' || eqb c 0xff09 then s else c ∷ s

unfoldable pub skip_digits : Text → Text
skip_digits [] = []
skip_digits (c ∷ s) = let rest = skip_digits s in if is_digit c then rest else c ∷ s

abbrev starts_digit : Text → Bool
starts_digit [] = false
starts_digit (c ∷ s) = is_digit c

-- The optional counter: "[2]", "(2)", " 2".
unfoldable pub skip_counter : Text → Text
unfolding skip_digits trim_start
skip_counter s =
    let inner = trim_start (skip_open (trim_start s)) in
    if starts_digit inner then skip_close (trim_start (skip_digits inner)) else s

-- `[:：]\s*`
abbrev after_colon : Text → Option Text
after_colon [] = none
after_colon (c ∷ s) = if eqb c b':' || eqb c 0xff1a then some (trim_start s) else none

abbrev behind_marker : Option Text → Option Text
behind_marker none = none
behind_marker (some s) = after_colon (trim_start (skip_counter s))

-- What `text.replace(SUBJECT_PREFIX, '')` leaves where the expression matches.
unfoldable pub after_subject_prefix : Text → Option Text
unfolding after_marker skip_counter trim_start
after_subject_prefix s = behind_marker (after_marker markers (trim_start s))

-- The loop of `normalizeSubject`, on the rounds that are left.
unfoldable pub strip_rounds : ℕ → Text → Text
strip_rounds zero text = text
strip_rounds (suc rounds) text = elim (after_subject_prefix text) [
  | none ↦ text
  | some next ↦ strip_rounds rounds (trim next)
]

unfoldable pub normalize_subject : Value → Text
normalize_subject subject = strip_rounds 16 (trim (as_text subject))
