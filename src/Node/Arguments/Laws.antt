-- ===== src/Node/Arguments/Laws.antt =====
-- src/util.mjs: behind a `--` every argument is positional.
use dsh_link.Common.{
  ◌≡◌, ◌≢◌, inl, inr, refl, ap, sym, ◌∙◌, Bool, true, false, Option, none, some, List, [], ◌∷◌,
  ◌++◌, Text, text_eq, ◌==◌,
}
use dsh_link.Common.{after_prefix, codes, All, Bool-cases, arith}
use mathlib.Core.List.{append-nil}
use dsh_link.Node.Arguments.{
  Arg, text, Args, Step, stop, positional, flag, flag_with_next, takes, long_flag, short_flag,
  dashed, at_equals, step_of, push_all, push_one, push_flag, last_step, parse_onto, parse_args,
}

abbrev separator : Text
separator = codes "--"

-- What a token says before the separator is what it says at the end.
long_flag-false :
    (body : Text) (o : Option (Text × Text)) (key : Text)
    → long_flag body o false ≢ flag_with_next key
long_flag-false body none key h = cc
long_flag-false body (some (k, v)) key h = cc

short_flag-false : (o : Option Text) (key : Text) → short_flag o false ≢ flag_with_next key
short_flag-false none key h = cc
short_flag-false (some []) key h = cc
short_flag-false (some (c ∷ s)) key h = cc

dashed-none :
    (token : Text) (o : Option Text) (key : Text) → dashed token none o ≢ flag_with_next key
dashed-none token none key h = short_flag-false (after_prefix (codes "-") token) key h
dashed-none token (some body) key h = long_flag-false body (at_equals body) key h

dashed-separator :
    (token : Text) (o : Option Text) → dashed token (some separator) o ≡ dashed token none o
unfolding after_prefix
dashed-separator token none = refl
dashed-separator token (some body) = refl

long_flag_goes_on :
    (body : Text) (o : Option (Text × Text)) (taken : Bool) → long_flag body o taken ≢ stop
long_flag_goes_on body none true h = cc
long_flag_goes_on body none false h = cc
long_flag_goes_on body (some (k, v)) taken h = cc

short_flag_goes_on : (o : Option Text) (taken : Bool) → short_flag o taken ≢ stop
short_flag_goes_on none taken h = cc
short_flag_goes_on (some []) taken h = cc
short_flag_goes_on (some (c ∷ s)) true h = cc
short_flag_goes_on (some (c ∷ s)) false h = cc

dashed_goes_on : (token : Text) (next o : Option Text) → dashed token next o ≢ stop
dashed_goes_on token next none h =
    short_flag_goes_on (after_prefix (codes "-") token) (takes (codes "-") next) h
dashed_goes_on token next (some body) h =
    long_flag_goes_on body (at_equals body) (takes (codes "--") next) h

step_of-separator : (token : Text) → step_of token (some separator) ≡ step_of token none
unfolding step_of
step_of-separator token = rw (dashed-separator token (after_prefix (codes "--") token)) refl

step_of-none : (token key : Text) → step_of token none ≢ flag_with_next key
unfolding step_of
step_of-none token key h = elim (Bool-cases (token == codes "--")) [
  | inl e ↦ let q : stop ≡ flag_with_next key = rw e at h in cc
  | inr e ↦ dashed-none token (after_prefix (codes "--") token) key (rw e at h)
]

step_of-stop : (token : Text) (next : Option Text) → token ≢ separator → step_of token next ≢ stop
unfolding step_of
step_of-stop token next n h = elim (Bool-cases (token == codes "--")) [
  | inl e ↦ n (ground arith)
  | inr e ↦ dashed_goes_on token next (after_prefix (codes "--") token) (rw e at h)
]

-- The separator alone.
parse_onto-head : (out : Args) (b : List Text) → parse_onto out (separator ∷ b) ≡ push_all b out
unfolding parse_onto step_of text_eq
parse_onto-head out [] =
    ap (λ (ps : List Arg). record out { positionals = ps }) (sym (append-nil out.positionals))
parse_onto-head out (n ∷ b) = refl

before_separator :
    (s : Step) (token : Text) (out : Args) (b : List Text)
    → step_of token (some separator) ≡ s
    → s ≢ stop
    → ((key : Text) → s ≢ flag_with_next key)
    → parse_onto out (token ∷ (separator ∷ b)) ≡ push_all b (last_step s token out)
unfolding parse_onto
before_separator stop token out b e n f = absurd (n refl)
before_separator positional token out b e n f =
    rw (e, parse_onto) (parse_onto-head (push_one token out) b)
before_separator (flag key v) token out b e n f =
    rw (e, parse_onto) (parse_onto-head (push_flag key v out) b)
before_separator (flag_with_next key) token out b e n f = absurd (f key refl)

both_sides :
    (s : Step) (token next : Text) (out : Args) (argv b : List Text)
    → step_of token (some next) ≡ s
    → s ≢ stop
    → ((o : Args)
        → parse_onto o ((next ∷ argv) ++ separator ∷ b) ≡ push_all b (parse_onto o (next ∷ argv)))
    → ((o : Args) → parse_onto o (argv ++ separator ∷ b) ≡ push_all b (parse_onto o argv))
    → parse_onto out (token ∷ (next ∷ (argv ++ separator ∷ b)))
      ≡ push_all b (parse_onto out (token ∷ (next ∷ argv)))
unfolding parse_onto
both_sides stop token next out argv b e n h k = absurd (n refl)
both_sides positional token next out argv b e n h k = rw (e, parse_onto) (h (push_one token out))
both_sides (flag key v) token next out argv b e n h k = rw (e, parse_onto) (h (push_flag key v out))
both_sides (flag_with_next key) token next out argv b e n h k =
    rw (e, parse_onto) (k (push_flag key (text next) out))

parse_onto-separator :
    (out : Args) (a b : List Text)
    → All (λ t. t ≢ separator) a
    → parse_onto out (a ++ separator ∷ b) ≡ push_all b (parse_onto out a)
unfolding parse_onto
parse_onto-separator out [] b h = parse_onto-head out b
parse_onto-separator out (t ∷ []) b (h, hs) = rw (sym (step_of-separator t)) (
    before_separator (step_of t (some separator)) t out b refl (step_of-stop t (some separator) h)
      (λ key e. step_of-none t key (sym (step_of-separator t) ∙ e)))
parse_onto-separator out (t ∷ (n ∷ a)) b (h, hs) =
    both_sides (step_of t (some n)) t n out a b refl (step_of-stop t (some n) h)
      (λ o. parse_onto-separator o (n ∷ a) b hs) (λ o. parse_onto-separator o a b hs.1)

-- Behind the first `--` every argument is positional, whatever it looks like, and what stands before
-- it is read as if it stood alone.
pub parse_args-separator :
    (a b : List Text)
    → All (λ t. t ≢ codes "--") a
    → parse_args (a ++ codes "--" ∷ b) ≡ push_all b (parse_args a)
unfolding parse_args
parse_args-separator a b h = parse_onto-separator (record { positionals = []; flags = [] }) a b h
