-- ===== src/Node/Server/Ranges.antt =====
-- src/server.mjs: the range of a download. (The numbers of the header are exact here; those of the
-- source are so up to 2 ^ 53, and one that is too large for a number is refused there.)
use dsh_link.Common.{ℕ, ◌≡◌, ◌⊎◌, refl, true, false, ◌||◌, Option, none, some, List, [], ◌∷◌, Text}
use dsh_link.Common.{
  is_empty, if◌then◌else◌, trim, after_prefix, split, codes, or_default, read_digits, arith,
  Bool-cases, inl, inr,
}
use dsh_link.Common.Int.{ℤ, pos, ◌+ℤ◌, ◌-ℤ◌, ◌≤ℤ◌, ◌<ℤ◌, ltb_ℤ, +ℤ_parts, -ℤ_parts, eq_of_parts}

-- The two texts of `/^bytes=(\d*)-(\d*)$/`.
abbrev two_numbers : List Text → Option (Text × Text)
two_numbers (a ∷ (b ∷ [])) = elim (read_digits 0 a) [
  | none ↦ none
  | some n ↦ elim (read_digits 0 b) [ none ↦ none | some m ↦ some (a, b) ]
]
two_numbers _ = none

unfoldable pub parse_range : Text → Option (Text × Text)
unfolding trim after_prefix split read_digits
parse_range header = elim (after_prefix (codes "bytes=") (trim header)) [
  | none ↦ none
  | some s ↦ two_numbers (split b'-' s)
]

-- `Number` of a run of digits.
abbrev pub number : Text → ℕ
number s = or_default (read_digits 0 s) 0

-- What the download answers: the whole file, 416, or 206 with the first and the last byte and the
-- length that the headers name.
pub data Range : Type 0 where
  whole unsatisfiable : Range
  part : ℤ → ℤ → ℤ → Range

abbrev pub min_ℤ : ℤ → ℤ → ℤ
min_ℤ a b = if ltb_ℤ b a then b else a

-- The branch of a range that was read, of its start and its last byte.
unfoldable pub range_between : ℕ → ℤ → ℤ → Range
unfolding ◌+ℤ◌ ◌-ℤ◌
range_between size start last =
    let stop = min_ℤ last (pos size -ℤ pos 1) in
    if ltb_ℤ start (pos 0) || ltb_ℤ last start
    then unsatisfiable
    else part start stop ((stop -ℤ start) +ℤ pos 1)

unfoldable pub range_of : ℕ → Text → Text → Range
unfolding range_between read_digits
range_of size a b =
    range_between size (if is_empty a then pos size -ℤ pos (number b) else pos (number a))
      (if is_empty b || is_empty a then pos size -ℤ pos 1 else pos (number b))

abbrev pub range_on : ℕ → Option (Text × Text) → Range
range_on size none = whole
range_on size (some (a, b)) = range_of size a b

-- The answer to a header, the empty text for none.
unfoldable pub download_range : ℕ → Text → Range
unfolding parse_range range_of
download_range size header = range_on size (parse_range header)

-- The first and the last byte that a range asks for, of a file of this size: `a-b`, `a-` or `-b`, which
-- is the last `b` bytes.
abbrev pub asked : ℕ → Text × Text → ℤ × ℤ
asked size ([], b) = (pos size -ℤ pos (number b), pos size -ℤ pos 1)
asked size (c ∷ a, []) = (pos (number (c ∷ a)), pos size -ℤ pos 1)
asked size (c ∷ a, d ∷ b) = (pos (number (c ∷ a)), pos (number (d ∷ b)))

-- What is right to answer to the first and the last byte that are asked for. It is refused exactly where
-- the first lies before the file or behind the last; else the part begins as asked. Where it begins in
-- the file, it is not empty, ends in the file and no later than asked, and has the length that is named;
-- where it begins behind the end, the length that is named is not positive.
abbrev pub IsFairTo : ℕ → ℤ × ℤ → Range → Type 0
IsFairTo size (first, last) whole = true ≡ false
IsFairTo size (first, last) unsatisfiable = (first <ℤ pos 0) ⊎ (last <ℤ first)
IsFairTo size (first, last) (part start stop n) =
    (start ≡ first)
    × (pos 0 ≤ℤ first)
    × (first ≤ℤ last)
    × (first <ℤ pos size
        → (start ≤ℤ stop) × (stop <ℤ pos size) × (stop ≤ℤ last) × (start +ℤ n ≡ stop +ℤ pos 1))
    × (pos size ≤ℤ first → n ≤ℤ pos 0)

abbrev pub IsFair : ℕ → Option (Text × Text) → Range → Type 0
IsFair size none r = r ≡ whole
IsFair size (some ab) r = IsFairTo size (asked size ab) r

range_between-IsFairTo :
    (size : ℕ) (start last : ℤ) → IsFairTo size (start, last) (range_between size start last)
unfolding range_between
range_between-IsFairTo size start last =
    let bound = pos size -ℤ pos 1 in
    let stop = min_ℤ last bound in
    let gap = stop -ℤ start in
    let n = gap +ℤ pos 1 in
    let p = -ℤ_parts (pos size) (pos 1) in
    let q = -ℤ_parts stop start in
    let r = +ℤ_parts gap (pos 1) in
    elim (Bool-cases (ltb_ℤ start (pos 0) || ltb_ℤ last start)) [
      | inl e ↦ rw e (ground arith)
      | inr e ↦ rw e (
        refl,
        ground arith,
        ground arith,
        λ h. (
          ground arith,
          ground arith,
          ground arith,
          eq_of_parts (start +ℤ n) (stop +ℤ pos 1)
              (omega (arith, +ℤ_parts start n, +ℤ_parts stop (pos 1))),
        ),
        λ h. ground arith,
      )
    ]

range_on-IsFair : (size : ℕ) (o : Option (Text × Text)) → IsFair size o (range_on size o)
unfolding range_of
range_on-IsFair size none = refl
range_on-IsFair size (some ([], [])) =
    range_between-IsFairTo size (pos size -ℤ pos (number [])) (pos size -ℤ pos 1)
range_on-IsFair size (some ([], d ∷ b)) =
    range_between-IsFairTo size (pos size -ℤ pos (number (d ∷ b))) (pos size -ℤ pos 1)
range_on-IsFair size (some (c ∷ a, [])) =
    range_between-IsFairTo size (pos (number (c ∷ a))) (pos size -ℤ pos 1)
range_on-IsFair size (some (c ∷ a, d ∷ b)) =
    range_between-IsFairTo size (pos (number (c ∷ a))) (pos (number (d ∷ b)))

-- A header that is no range of bytes gives the whole file. A range is refused exactly where it asks for a
-- first byte before the file or behind its last byte, and is otherwise answered from the byte that it
-- asks for: where this lies in the file, with a part that ends in the file and no later than asked, and
-- with its length; where it lies behind the end, with a length that is not positive.
pub download_range-IsFair :
    (size : ℕ) (header : Text) → IsFair size (parse_range header) (download_range size header)
unfolding download_range
download_range-IsFair size header = range_on-IsFair size (parse_range header)
