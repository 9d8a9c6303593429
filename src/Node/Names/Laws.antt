-- ===== src/Node/Names/Laws.antt =====
-- src/config.mjs: a slug is a fixed point of `slugName`.
use dsh_link.Common.{ℕ, zero, suc, ◌≤◌, ◌≡◌, ◌≢◌, refl, ap, true, false, [], ◌∷◌, Text}
use dsh_link.Common.{filter, take, or_text, trim, trim_start, trim_end, All, length, length-take}
use dsh_link.Common.{is_space, arith}
use dsh_link.Node.Names.{is_slug_unit, dash_spaces, slug_name}

-- Every character is one that a slug may hold.
abbrev pub IsSlug : Text → Type 0
IsSlug s = All (λ c. is_slug_unit c ≡ true) s

slug_unit_range : (c : ℕ) → is_slug_unit c ≡ true → (45 ≤ c) × (c ≤ 122)
unfolding is_slug_unit
slug_unit_range c h = ground arith

is_space_range : (c : ℕ) → 45 ≤ c → c ≤ 122 → is_space c ≡ false
unfolding is_space
is_space_range c h k = ground arith

slug_unit_no_space : (c : ℕ) → is_slug_unit c ≡ true → is_space c ≡ false
slug_unit_no_space c h = let (low, high) = slug_unit_range c h in is_space_range c low high

or_text-IsSlug : (s t : Text) → IsSlug s → IsSlug t → IsSlug (or_text s t)
or_text-IsSlug [] t h k = k
or_text-IsSlug (c ∷ s) t h k = h

or_text_id : (s t : Text) → s ≢ [] → or_text s t ≡ s
or_text_id [] t n = absurd (n refl)
or_text_id (c ∷ s) t n = refl

take_id : (n : ℕ) (s : Text) → length s ≤ n → take n s ≡ s
take_id zero [] h = refl
take_id zero (c ∷ s) h = absurd (omega arith)
take_id (suc n) [] h = refl
take_id (suc n) (c ∷ s) h = ap (λ t. c ∷ t) (take_id n s (omega arith))

filter-IsSlug : (s : Text) → IsSlug (filter is_slug_unit s)
unfolding filter
filter-IsSlug [] = tt
filter-IsSlug (c ∷ s) = ground (arith, filter-IsSlug s)

take-IsSlug : (n : ℕ) (s : Text) → IsSlug s → IsSlug (take n s)
take-IsSlug zero s h = tt
take-IsSlug (suc n) [] h = tt
take-IsSlug (suc n) (c ∷ s) (h, hs) = (h, take-IsSlug n s hs)

filter_id : (s : Text) → IsSlug s → filter is_slug_unit s ≡ s
unfolding filter
filter_id [] h = refl
filter_id (c ∷ s) (h, hs) = ground (arith, filter_id s hs)

dash_spaces_id : (s : Text) → IsSlug s → dash_spaces false s ≡ s
unfolding dash_spaces
dash_spaces_id [] h = refl
dash_spaces_id (c ∷ s) (h, hs) = ground (arith, dash_spaces_id s hs, slug_unit_no_space c h)

trim_start_id : (s : Text) → IsSlug s → trim_start s ≡ s
unfolding trim_start
trim_start_id [] h = refl
trim_start_id (c ∷ s) (h, hs) = ground (arith, slug_unit_no_space c h)

trim_end_id : (s : Text) → IsSlug s → trim_end s ≡ s
unfolding trim_end
trim_end_id [] h = refl
trim_end_id (c ∷ s) (h, hs) = ground (arith, slug_unit_no_space c h, trim_end_id s hs)

trim_id : (s : Text) → IsSlug s → trim s ≡ s
unfolding trim
trim_id s h = rw (trim_start_id s h, trim_end_id s h)

pub slug_name-IsSlug : (value fallback : Text) → IsSlug fallback → IsSlug (slug_name value fallback)
unfolding slug_name
slug_name-IsSlug value fallback h =
    take-IsSlug 48 (or_text (filter is_slug_unit (dash_spaces false (trim value))) fallback) (
      or_text-IsSlug (filter is_slug_unit (dash_spaces false (trim value))) fallback
        (filter-IsSlug (dash_spaces false (trim value))) h)

-- A non-empty slug of at most 48 characters is its own slug.
pub slug_name_id :
    (s fallback : Text) → IsSlug s → s ≢ [] → length s ≤ 48 → slug_name s fallback ≡ s
unfolding slug_name
slug_name_id s fallback h n l =
    rw (trim_id s h, dash_spaces_id s h, filter_id s h, or_text_id s fallback n, take_id 48 s l)

pub length-slug_name : (value fallback : Text) → length (slug_name value fallback) ≤ 48
unfolding slug_name
length-slug_name value fallback = omega (
  arith,
  length-take 48 (or_text (filter is_slug_unit (dash_spaces false (trim value))) fallback),
)

-- `slugName` gives a text of at most 48 letters, digits and `_ . @ -`, and applied to its own result
-- it changes nothing, where that is not empty and the fallback holds no other characters. So a name
-- that was stored as a slug is found again under its slug.
pub slug_name_idempotent :
    (value fallback : Text)
    → IsSlug fallback
    → slug_name value fallback ≢ []
    → IsSlug (slug_name value fallback)
      × (length (slug_name value fallback) ≤ 48)
      × (slug_name (slug_name value fallback) fallback ≡ slug_name value fallback)
slug_name_idempotent value fallback h n =
    let slug = slug_name-IsSlug value fallback h in
    (
      slug,
      length-slug_name value fallback,
      slug_name_id (slug_name value fallback) fallback slug n (length-slug_name value fallback),
    )
