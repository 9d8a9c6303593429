-- ===== src/Node/Paths/Laws.antt =====
-- src/fsroot.mjs: no accepted path leaves its root, and a deny glob holds at every depth.
use dsh_link.Common.{
  ℕ, ◌≡◌, ◌≢◌, ◌∙◌, refl, ap, sym, Bool, true, false, not, ◌&&◌, ◌||◌, List, [], ◌∷◌, ◌++◌, Text,
  text_eq, ◌==◌,
}
use dsh_link.Common.{
  eqb, is_empty, any, filter, trim, split, split_onto, join, has_unit, after_prefix, codes, All,
  Bool-cases, inl, inr, arith,
}
use mathlib.Core.List.{reverse, reverse-cons, append_assoc}
use dsh_link.Node.Globs.{matches_any_glob, glob_matches, IsPlain, glob_matches_plain}
use dsh_link.Node.Paths.{
  accepted, is_step, is_bad, segments, to_slashes, normalize_rel_path, expand_deny_globs, shorter,
  basename, is_denied,
}

-- A segment that names a child: it is not empty, not `.` or `..`, and holds no slash or colon.
pub record IsChild (segment : Text) : Type 0 where
  pub some_text : segment ≢ []
  pub not_here : segment ≢ codes "."
  pub not_up : segment ≢ codes ".."
  pub no_slash : has_unit b'/' segment ≡ false
  pub no_colon : has_unit b':' segment ≡ false

has_unit-append : (u : ℕ) (s t : Text) → has_unit u (s ++ t) ≡ (has_unit u s || has_unit u t)
unfolding has_unit
has_unit-append u [] t = refl
has_unit-append u (c ∷ s) t = ground (arith, has_unit-append u s t)

has_unit-reverse : (u : ℕ) (s : Text) → has_unit u s ≡ false → has_unit u (reverse s) ≡ false
unfolding has_unit
has_unit-reverse u [] h = refl
has_unit-reverse u (c ∷ s) h =
    rw (reverse-cons c s, has_unit-append u (reverse s) (c ∷ []))
      (ground (arith, has_unit-reverse u s))

split_onto-All :
    (u : ℕ) (cur s : Text)
    → has_unit u cur ≡ false
    → All (λ p. has_unit u p ≡ false) (split_onto u cur s)
unfolding split_onto has_unit
split_onto-All u cur [] h = (has_unit-reverse u cur h, tt)
split_onto-All u cur (c ∷ s) h = elim (Bool-cases (eqb c u)) [
  | inl e ↦ rw e (has_unit-reverse u cur h, split_onto-All u [] s refl)
  | inr e ↦ rw e (split_onto-All u (c ∷ cur) s (ground arith))
]

child : (p : Text) → is_step p ≡ true → is_bad p ≡ false → has_unit b'/' p ≡ false → IsChild p
child p step bad h = record {
  some_text = λ q. ground arith;
  not_here = λ q. ground arith;
  not_up = λ q. ground arith;
  no_slash = h;
  no_colon = ground arith;
}

children :
    (parts : List Text)
    → All (λ p. has_unit b'/' p ≡ false) parts
    → any is_bad (filter is_step parts) ≡ false
    → All IsChild (filter is_step parts)
unfolding filter
children [] h b = tt
children (p ∷ parts) (h, hs) b = elim (Bool-cases (is_step p)) [
  | inr e ↦ rw e (children parts hs (rw e at b))
  | inl e ↦
      let both : (is_bad p || any is_bad (filter is_step parts)) ≡ false = rw e at b in
      rw e (child p e (ground arith) h, children parts hs (ground arith))
]

-- An accepted path is a list of names of children, joined by slashes: it does not start at a root
-- or a drive, and no segment of it goes up or names a stream.
pub normalize_rel_path_children :
    (rel_path r : Text)
    → normalize_rel_path rel_path ≡ accepted r
    → (parts : List Text) × (r ≡ join b'/' parts) × All IsChild parts
unfolding normalize_rel_path split
normalize_rel_path_children rel_path r h =
    let rel = trim (to_slashes rel_path) in
    let no_slash = split_onto-All b'/' [] rel refl in
    elim (Bool-cases (is_empty rel || rel == codes "." || rel == codes "/")) [
      | inl e ↦ ([], ground arith, tt)
      | inr e ↦ elim (Bool-cases (any is_bad (segments rel))) [
        | inl f ↦ absurd (ground arith)
        | inr f ↦ (segments rel, ground arith, children (split b'/' rel) no_slash f)
      ]
    ]

any_second :
    (f : Text → Bool) (xs : List Text) (y z : Text) (zs : List Text)
    → f z ≡ true
    → any f (xs ++ y ∷ (z ∷ zs)) ≡ true
any_second f [] y z zs h = ground arith
any_second f (x ∷ xs) y z zs h = ground (arith, any_second f xs y z zs h)

expand_deny_globs-append :
    (xs ys : List Text)
    → expand_deny_globs (xs ++ ys) ≡ expand_deny_globs xs ++ expand_deny_globs ys
unfolding expand_deny_globs
expand_deny_globs-append [] ys = refl
expand_deny_globs-append (x ∷ xs) ys =
    let head : List Text = shorter x (after_prefix (codes "**/") x) in
    ap (λ (l : List Text). head ++ l) (expand_deny_globs-append xs ys)
    ∙ sym (append_assoc head (expand_deny_globs xs) (expand_deny_globs ys))

not_empty : (s : Text) → s ≢ [] → is_empty s ≡ false
not_empty [] h = absurd (h refl)
not_empty (c ∷ s) h = refl

-- A deny glob of the form `**/name` blocks every path whose last segment is that name, at the top
-- of the root and below, whatever other globs there are, where no character of the name is special.
is_denied_everywhere :
    (before after : List Text) (name rel : Text)
    → IsPlain name
    → rel ≢ []
    → name ≢ []
    → basename rel ≡ name
    → is_denied (expand_deny_globs (before ++ (codes "**/" ++ name) ∷ after)) rel ≡ true
unfolding is_denied matches_any_glob expand_deny_globs after_prefix
is_denied_everywhere before after name rel plain r n e =
    let test : Text → Bool =
      λ glob. any (λ c. not (is_empty c) && glob_matches glob c) (rel ∷ basename rel ∷ []) in
    let glob : Text = codes "**/" ++ name in
    let named : is_empty (basename rel) ≡ false = rw e (not_empty name n) in
    let found : test name ≡ true =
      rw e (ground (arith, glob_matches_plain name plain, not_empty name n, not_empty rel r)) in
    let rest : List Text = expand_deny_globs after in
    let expanded : any test (expand_deny_globs (before ++ glob ∷ after)) ≡ true =
      rw (expand_deny_globs-append before (glob ∷ after))
        (any_second test (expand_deny_globs before) glob name rest found) in
    ground (arith, expanded, not_empty rel r)
