-- ===== src/Node/Server/Unambiguous.antt =====
-- src/server.mjs: no request has two routes.
use dsh_link.Common.{
  ◌≡◌, ◌≤◌, refl, Bool, true, false, not, ◌&&◌, List, [], ◌∷◌, Text, text_eq, ◌==◌,
}
use dsh_link.Common.{is_empty, is_some, length, filter, split, arith}
use dsh_link.Node.Server.Routes.{
  Segment, literal, param, match_path, compile_route, Route, routes, on_path,
}

abbrev is_end : Segment → Bool
is_end (literal l) = is_empty l
is_end (param name) = false

abbrev agree : Segment → Segment → Bool
agree (literal l) (literal k) = l == k
agree _ _ = true

-- Can a path match both?
unfoldable overlap : List Segment → List Segment → Bool
overlap [] [] = true
overlap [] (q ∷ []) = is_end q
overlap [] (q ∷ (r ∷ qs)) = false
overlap (p ∷ []) [] = is_end p
overlap (p ∷ (r ∷ ps)) [] = false
overlap (p ∷ ps) (q ∷ qs) = agree p q && overlap ps qs

overlap-end :
    (p : Segment) (ps : List Segment) (ss : List Text)
    → is_some (match_path [] ss) ≡ true
    → is_some (match_path (p ∷ ps) ss) ≡ true
    → (overlap [] (p ∷ ps) ≡ true) × (overlap (p ∷ ps) [] ≡ true)
unfolding overlap match_path
overlap-end p ps [] h k = absurd (ground arith)
overlap-end (literal l) [] (s ∷ []) h k = ground arith
overlap-end (param n) [] (s ∷ []) h k = ground arith
overlap-end (literal l) (q ∷ ps) (s ∷ []) h k = ground arith
overlap-end (param n) (q ∷ ps) (s ∷ []) h k = ground arith
overlap-end p ps (s ∷ (t ∷ ss)) h k = absurd (ground arith)

overlap-match_path :
    (ps qs : List Segment) (ss : List Text)
    → is_some (match_path ps ss) ≡ true
    → is_some (match_path qs ss) ≡ true
    → overlap ps qs ≡ true
unfolding overlap match_path
overlap-match_path [] [] ss h k = refl
overlap-match_path [] (q ∷ qs) ss h k = (overlap-end q qs ss h k).0
overlap-match_path (p ∷ ps) [] ss h k = (overlap-end p ps ss k h).1
overlap-match_path (p ∷ ps) (q ∷ qs) [] h k = absurd (ground arith)
overlap-match_path (literal l ∷ ps) (literal m ∷ qs) (s ∷ ss) h k =
    ground (arith, overlap-match_path ps qs ss)
overlap-match_path (literal l ∷ ps) (param m ∷ qs) (s ∷ ss) h k =
    ground (arith, overlap-match_path ps qs ss)
overlap-match_path (param l ∷ ps) (literal m ∷ qs) (s ∷ ss) h k =
    ground (arith, overlap-match_path ps qs ss)
overlap-match_path (param l ∷ ps) (param m ∷ qs) (s ∷ ss) h k =
    ground (arith, overlap-match_path ps qs ss)

abbrev apart : Route → Route → Bool
apart r s =
    not (r.method == s.method && overlap (compile_route r.pattern) (compile_route s.pattern))

abbrev all_apart : Route → List Route → Bool
all_apart r [] = true
all_apart r (s ∷ more) = apart r s && all_apart r more

abbrev is_unambiguous : List Route → Bool
is_unambiguous [] = true
is_unambiguous (r ∷ more) = all_apart r more && is_unambiguous more

routes_unambiguous : is_unambiguous routes ≡ true
unfolding overlap compile_route split text_eq
routes_unambiguous = refl

module _ (method pathname : Text) where
  abbrev takes : Route → Bool
  takes r = is_some (on_path r method pathname)

  takes-apart : (r s : Route) → apart r s ≡ true → takes r ≡ true → takes s ≡ false
  takes-apart r s a h = ground (
    arith,
    overlap-match_path (compile_route r.pattern) (compile_route s.pattern) (split b'/' pathname),
  )

  filter-all_apart :
      (r : Route) (more : List Route)
      → all_apart r more ≡ true
      → takes r ≡ true
      → length (filter takes more) ≡ 0
  unfolding filter
  filter-all_apart r [] a h = refl
  filter-all_apart r (s ∷ more) a h = ground (arith, takes-apart r s, filter-all_apart r more)

  filter-is_unambiguous :
      (rs : List Route) → is_unambiguous rs ≡ true → length (filter takes rs) ≤ 1
  unfolding filter
  filter-is_unambiguous [] u = omega arith
  filter-is_unambiguous (r ∷ more) u =
      ground (arith, filter-all_apart r more, filter-is_unambiguous more)

  -- No method and path, whatever they are, has more than one route, so the order of the calls of `add`
  -- does not matter.
  pub length-on_path : length (filter (λ r. is_some (on_path r method pathname)) routes) ≤ 1
  length-on_path = filter-is_unambiguous routes routes_unambiguous
