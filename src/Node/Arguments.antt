-- ===== src/Node/Arguments.antt =====
-- src/util.mjs: `parseArgs` and `pushFlag`, the reading of command lines. No flag is named like a
-- property that every object has.
pub mod Laws
use dsh_link.Common.{
  ℕ, Bool, true, false, not, ◌&&◌, ◌||◌, Option, none, some, List, [], ◌∷◌, ◌++◌, map, Text,
  text_eq, ◌==◌,
}
use dsh_link.Common.{is_empty, if◌then◌else◌, eqb, is_some, after_prefix, codes}
use dsh_link.Common.Dict.{Dict, lookup, insert}

-- A value: a text, or `true`.
pub data Arg : Type 0 where
  text : Text → Arg
  yes : Arg

pub data Flag : Type 0 where
  one : Arg → Flag
  many : List Arg → Flag

-- The object that `parseArgs` returns; its property `_` holds the positional arguments.
pub record Args : Type 0 where
  pub positionals : List Arg
  pub flags : Dict Flag

abbrev pub grown : Option Flag → Arg → Flag
grown none v = one v
grown (some (one w)) v = many (w ∷ v ∷ [])
grown (some (many ws)) v = many (ws ++ v ∷ [])

-- `pushFlag`. A flag named `_` lands among the positional arguments.
unfoldable pub push_flag : Text → Arg → Args → Args
unfolding lookup
push_flag key v out =
    if key == codes "_"
    then record out { positionals = out.positionals ++ v ∷ [] }
    else record out { flags = insert key (grown (lookup key out.flags) v) out.flags }

abbrev longer : ℕ → Option (Text × Text) → Option (Text × Text)
longer c none = none
longer c (some (key, v)) = some (c ∷ key, v)

-- The texts on the two sides of the first `=`.
unfoldable pub at_equals : Text → Option (Text × Text)
at_equals [] = none
at_equals (c ∷ s) = let rest = longer c (at_equals s) in if eqb c b'=' then some ([], s) else rest

-- What a token says.
pub data Step : Type 0 where
  stop positional : Step
  flag : Text → Arg → Step
  flag_with_next : Text → Step

-- May the next token be the value of a flag? The text is what it must not start with.
abbrev pub takes : Text → Option Text → Bool
takes dashes none = false
takes dashes (some next) = not (is_some (after_prefix dashes next))

abbrev pub flag_or_next : Text → Bool → Step
flag_or_next key taken = if taken then flag_with_next key else flag key yes

abbrev pub long_flag : Text → Option (Text × Text) → Bool → Step
long_flag body (some (key, v)) taken = flag key (text v)
long_flag body none taken = flag_or_next body taken

abbrev pub short_flag : Option Text → Bool → Step
short_flag (some (c ∷ key)) taken = flag_or_next (c ∷ key) taken
short_flag _ taken = positional

abbrev pub dashed : Text → Option Text → Option Text → Step
dashed token next (some body) = long_flag body (at_equals body) (takes (codes "--") next)
dashed token next none = short_flag (after_prefix (codes "-") token) (takes (codes "-") next)

unfoldable pub step_of : Text → Option Text → Step
unfolding after_prefix at_equals
step_of token next =
    if token == codes "--" then stop else dashed token next (after_prefix (codes "--") token)

abbrev pub push_all : List Text → Args → Args
push_all tokens out = record out { positionals = out.positionals ++ map text tokens }

abbrev pub push_one : Text → Args → Args
push_one token out = record out { positionals = out.positionals ++ text token ∷ [] }

abbrev pub last_step : Step → Text → Args → Args
last_step stop token out = out
last_step positional token out = push_one token out
last_step (flag key v) token out = push_flag key v out
last_step (flag_with_next key) token out = push_flag key yes out

-- The loop of `parseArgs`.
unfoldable pub parse_onto : Args → List Text → Args
unfolding step_of push_flag
parse_onto out [] = out
parse_onto out (token ∷ []) = last_step (step_of token none) token out
parse_onto out (token ∷ (next ∷ argv)) = elim (step_of token (some next)) [
  | stop ↦ push_all (next ∷ argv) out
  | positional ↦ parse_onto (push_one token out) (next ∷ argv)
  | flag key v ↦ parse_onto (push_flag key v out) (next ∷ argv)
  | flag_with_next key ↦ parse_onto (push_flag key (text next) out) argv
]

-- `parseArgs`
unfoldable pub parse_args : List Text → Args
unfolding parse_onto
parse_args argv = parse_onto (record { positionals = []; flags = [] }) argv

-- `flagList`
unfoldable pub flag_list : Option Flag → List Arg
flag_list none = []
flag_list (some (one v)) = v ∷ []
flag_list (some (many vs)) = vs

abbrev show_arg : Arg → Text
show_arg (text s) = s
show_arg yes = codes "true"

abbrev last_arg : Arg → List Arg → Arg
last_arg v [] = v
last_arg v (w ∷ vs) = last_arg w vs

-- `flagString`. A list that `pushFlag` makes is not empty.
unfoldable pub flag_string : Option Flag → Option Text → Option Text
flag_string none fallback = fallback
flag_string (some (one yes)) fallback = fallback
flag_string (some (one (text s))) fallback = some s
flag_string (some (many [])) fallback = some (codes "undefined")
flag_string (some (many (v ∷ vs))) fallback = some (show_arg (last_arg v vs))
