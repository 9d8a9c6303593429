-- ===== src/Node/Globs.antt =====
-- src/util.mjs: `globToRegExp` and `matchesAnyGlob`, where the platform tells letter cases apart.
-- The regular expression of a glob is a list of tokens.
use dsh_link.Common.{
  ℕ, Bool, true, false, not, ◌&&◌, ◌||◌, ◌≡◌, refl, List, [], ◌∷◌, Text, eqb, is_empty,
  if◌then◌else◌, any, All, arith,
}

pub data Token : Type 0 where
  -- `.*`, `[^/]*` and `[^/]`.
  deep run one : Token
  unit : ℕ → Token

-- What `.` does not match.
abbrev is_line_end : ℕ → Bool
is_line_end c = eqb c 10 || eqb c 13 || eqb c 0x2028 || eqb c 0x2029

abbrev token : ℕ → Token
token c = if eqb c b'*' then run else if eqb c b'?' then one else unit c

-- `globToRegExp`
unfoldable pub tokens : Text → List Token
tokens [] = []
tokens (c ∷ []) = token c ∷ []
tokens (c ∷ (d ∷ glob)) =
    let behind = tokens glob in
    let next = tokens (d ∷ glob) in
    if eqb c b'*' && eqb d b'*' then deep ∷ behind else token c ∷ next

-- Some run of accepted characters, and the rest matched by `k`.
unfoldable pub runs : (ℕ → Bool) → (Text → Bool) → Text → Bool
runs accepts k [] = k []
runs accepts k (c ∷ s) = let rest = runs accepts k s in k (c ∷ s) || (accepts c && rest)

abbrev first : (ℕ → Bool) → (Text → Bool) → Text → Bool
first accepts k [] = false
first accepts k (c ∷ s) = accepts c && k s

unfoldable pub matches : List Token → Text → Bool
unfolding runs
matches [] s = is_empty s
matches (deep ∷ ts) s = runs (λ c. not (is_line_end c)) (matches ts) s
matches (run ∷ ts) s = runs (λ c. not (eqb c b'/')) (matches ts) s
matches (one ∷ ts) s = first (λ c. not (eqb c b'/')) (matches ts) s
matches (unit d ∷ ts) s = first (λ c. eqb c d) (matches ts) s

-- `re.test(candidate)`
unfoldable pub glob_matches : Text → Text → Bool
unfolding tokens matches
glob_matches glob s = matches (tokens glob) s

-- `matchesAnyGlob`
unfoldable pub matches_any_glob : List Text → List Text → Bool
unfolding glob_matches
matches_any_glob globs candidates =
    any (λ glob. any (λ c. not (is_empty c) && glob_matches glob c) candidates) globs

-- No character of the text is special in a glob.
abbrev pub IsPlain : Text → Type 0
IsPlain = All (λ c. (eqb c b'*' || eqb c b'?') ≡ false)

pub glob_matches_plain : (s : Text) → IsPlain s → glob_matches s s ≡ true
unfolding glob_matches matches tokens
glob_matches_plain [] h = refl
glob_matches_plain (c ∷ []) (h, tt) = ground arith
glob_matches_plain (c ∷ (d ∷ s)) (h, hs) = ground (arith, glob_matches_plain (d ∷ s) hs)
