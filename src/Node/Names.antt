-- ===== src/Node/Names.antt =====
-- src/config.mjs: `slugName`, the form in which the names of nodes, peers and roots are compared.
pub mod Laws
use dsh_link.Common.{
  ℕ, Bool, true, false, ◌||◌, ◌&&◌, List, [], ◌∷◌, Text, leb, eqb, filter, take, or_text, trim,
}
use dsh_link.Common.{if◌then◌else◌, is_space, is_digit}

-- `/[A-Za-z0-9_.@-]/`
unfoldable pub is_slug_unit : ℕ → Bool
is_slug_unit c =
    (leb b'A' c && leb c b'Z')
    || (leb b'a' c && leb c b'z')
    || is_digit c
    || eqb c b'_'
    || eqb c b'.'
    || eqb c b'@'
    || eqb c b'-'

-- `s.replace(/\s+/g, '-')`; the flag says that the last character was a space.
unfoldable pub dash_spaces : Bool → Text → Text
dash_spaces seen [] = []
dash_spaces seen (c ∷ s) =
    let inside = dash_spaces true s in
    let outside = dash_spaces false s in
    if is_space c then (if seen then inside else b'-' ∷ inside) else c ∷ outside

-- `slugName` of a text.
unfoldable pub slug_name : Text → Text → Text
unfolding filter is_slug_unit dash_spaces trim
slug_name value fallback =
    take 48 (or_text (filter is_slug_unit (dash_spaces false (trim value))) fallback)
