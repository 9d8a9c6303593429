-- ===== src/Node/Resolve/Confined.antt =====
-- src/fsroot.mjs: what `resolve` makes of a path below a base.
use dsh_link.Common.{
  ℕ, zero, suc, ◌<◌, ◌≡◌, ◌≢◌, refl, true, false, ◌||◌, ◌⊎◌, Option, none, some, List, Text,
  text_eq, ◌==◌,
}
use dsh_link.Common.{length, Bool-cases, Option-cases, inl, inr, arith, or_default}
use dsh_link.Common.Dict.{lookup, insert}
use dsh_link.Node.Paths.{is_denied}
use dsh_link.Node.Roots.{Root}
use dsh_link.Node.Resolve.{
  Platform, Refusal, blocked, no_directory, escapes, escapes_by_link, ok, err, is_inside, Located,
  Cache, Answer, found_real, real_root, with_cache, below_real, ancestor_of, Resolved,
  through_links, confined,
}

-- The parent of a path is shorter, unless it is the path itself.
abbrev pub Climbs : Platform → Type 0
Climbs pf = (path : Text) → (length (pf.dirname path) < length path) ⊎ (pf.dirname path ≡ path)

-- The way up from a path to the deepest of its ancestors that exists, itself included, or to the one that
-- is its own parent, where none exists.
pub data Ancestor (pf : Platform) : Text → Text → Type 0 where
  reached :
      (path : Text) → (pf.exists path ≡ true) ⊎ (pf.dirname path ≡ path) → Ancestor pf path path
  higher :
      (path a : Text)
      → pf.exists path ≡ false
      → pf.dirname path ≢ path
      → Ancestor pf (pf.dirname path) a
      → Ancestor pf path a

ancestor_of_found :
    (pf : Platform) (fuel : ℕ) (path : Text)
    → Climbs pf
    → length path < fuel
    → (a : Text) × (ancestor_of pf fuel path ≡ some a) × Ancestor pf path a
unfolding ancestor_of
ancestor_of_found pf zero path c h = absurd (ground arith)
ancestor_of_found pf (suc fuel) path c h =
    elim (Bool-cases (pf.exists path || pf.dirname path == path)) [
      | inl e ↦ (path, rw e refl, reached path (ground arith))
      | inr e ↦ elim (c path) [
        | inl g ↦
            let (a, f, up) = ancestor_of_found pf fuel (pf.dirname path) c (omega arith) in
            (a, rw e f, higher path a (ground arith) (ground arith) up)
        | inr g ↦ absurd (ground arith)
      ]
    ]

-- The text `x` is the real path of `a`, or `a` itself where it has none, as a link that leads nowhere.
abbrev pub IsReal : Platform → Text → Text → Type 0
IsReal pf a x = (pf.real_path a ≡ some x) ⊎ ((pf.real_path a ≡ none) × (x ≡ a))

IsReal-or_default : (pf : Platform) (a : Text) → IsReal pf a (or_default (pf.real_path a) a)
IsReal-or_default pf a = elim (Option-cases (pf.real_path a)) [
  | inl e ↦ rw e (inr (refl, refl))
  | inr (x, e) ↦ rw e (inl refl)
]

-- The path `abs`, in which the links of the deepest existing ancestor are followed.
pub record Follows (pf : Platform) (abs given : Text) : Type 0 where
  pub ancestor : Text
  pub real : Text
  pub deepest : Ancestor pf abs ancestor
  pub is_real : IsReal pf ancestor real
  pub target : given ≡ pf.resolve real (pf.relative ancestor abs)

-- The real path of the base: the one in the cache, which then stays as it is, or else the one of now,
-- which is put there.
abbrev pub IsRoot : Platform → Cache → Located → Text → Cache → Type 0
IsRoot pf cache l real cache' =
    ((lookup l.key cache ≡ some real) × (cache' ≡ cache))
    ⊎ ((lookup l.key cache ≡ none)
        × (pf.real_path l.base ≡ some real)
        × (cache' ≡ insert l.key real cache))

-- What is given is where the path below the real base leads, lies below that base, is not denied, and
-- belongs to the root.
pub record IsConfined (pf : Platform) (deny : List Text) (root : Root) (cache : Cache) (l : Located)
    (r : Resolved) (cache' : Cache) : Type 0 where
  pub in_root : r.root ≡ root
  pub rel_kept : r.rel ≡ l.rel
  pub allowed : is_denied deny l.rel ≡ false
  pub real : Text
  pub is_real : IsRoot pf cache l real cache'
  pub before : is_inside pf real (pf.resolve real l.rel) ≡ true
  pub follows : Follows pf (pf.resolve real l.rel) r.abs
  pub inside : is_inside pf real r.abs ≡ true

-- Why a path below a base is refused: it is denied, there is no base, it leads out of the real base, or
-- it does where links are followed.
abbrev pub IsRefused : Platform → List Text → Cache → Located → Refusal → Cache → Type 0
IsRefused pf deny cache l blocked cache' = (is_denied deny l.rel ≡ true) × (cache' ≡ cache)
IsRefused pf deny cache l no_directory cache' =
    (lookup l.key cache ≡ none) × (pf.real_path l.base ≡ none) × (cache' ≡ cache)
IsRefused pf deny cache l escapes cache' =
    (real : Text) × IsRoot pf cache l real cache'
    × (is_inside pf real (pf.resolve real l.rel) ≡ false)
IsRefused pf deny cache l escapes_by_link cache' =
    (real : Text) × (target : Text) × IsRoot pf cache l real cache'
    × Follows pf (pf.resolve real l.rel) target
    × (is_inside pf real target ≡ false)
IsRefused pf deny cache l _ cache' = true ≡ false

-- An answer, which is a refusal for a reason, or confined.
abbrev pub IsFine : Platform → List Text → Root → Cache → Located → Answer → Type 0
IsFine pf deny root cache l none = true ≡ false
IsFine pf deny root cache l (some (err e, cache')) = IsRefused pf deny cache l e cache'
IsFine pf deny root cache l (some (ok r, cache')) = IsConfined pf deny root cache l r cache'

through_links-IsFine :
    (pf : Platform) (deny : List Text) (root : Root) (cache cache' : Cache) (l : Located)
    (real ancestor : Text)
    → is_denied deny l.rel ≡ false
    → IsRoot pf cache l real cache'
    → is_inside pf real (pf.resolve real l.rel) ≡ true
    → Ancestor pf (pf.resolve real l.rel) ancestor
    → IsFine pf deny root cache l (
        with_cache cache'
          (through_links pf root l.rel real (pf.resolve real l.rel) (some ancestor)))
through_links-IsFine pf deny root cache cache' l real ancestor d e b up =
    let abs = pf.resolve real l.rel in
    let from_real = or_default (pf.real_path ancestor) ancestor in
    let target = pf.resolve from_real (pf.relative ancestor abs) in
    let follows : Follows pf abs target = record {
      ancestor = ancestor;
      real = from_real;
      deepest = up;
      is_real = IsReal-or_default pf ancestor;
      target = refl;
    } in
    elim (Bool-cases (is_inside pf real target)) [
      | inl i ↦ rw i (record {
        in_root = refl;
        rel_kept = refl;
        allowed = d;
        real = real;
        is_real = e;
        before = b;
        follows = follows;
        inside = i;
      })
      | inr i ↦ rw i (real, target, e, follows, i)
    ]

-- What `_realRoot` gives.
abbrev IsFound : Platform → Cache → Located → Option (Text × Cache) → Type 0
IsFound pf cache l none = (lookup l.key cache ≡ none) × (pf.real_path l.base ≡ none)
IsFound pf cache l (some (real, cache')) = IsRoot pf cache l real cache'

found_real-IsFound :
    (pf : Platform) (cache : Cache) (l : Located) (o : Option Text)
    → lookup l.key cache ≡ none
    → pf.real_path l.base ≡ o
    → IsFound pf cache l (found_real cache l.key o)
found_real-IsFound pf cache l none n e = (n, e)
found_real-IsFound pf cache l (some real) n e = inr (n, e, refl)

real_root-IsFound :
    (pf : Platform) (cache : Cache) (l : Located) → IsFound pf cache l (real_root pf cache l)
unfolding real_root
real_root-IsFound pf cache l = elim (Option-cases (lookup l.key cache)) [
  | inl n ↦ rw (n, real_root) (found_real-IsFound pf cache l (pf.real_path l.base) n refl)
  | inr (real, e) ↦ rw (e, real_root) (inl (e, refl))
]

below_real-IsFine :
    (pf : Platform) (deny : List Text) (root : Root) (cache : Cache) (l : Located)
    (o : Option (Text × Cache))
    → Climbs pf
    → is_denied deny l.rel ≡ false
    → IsFound pf cache l o
    → IsFine pf deny root cache l (below_real pf root cache l o)
below_real-IsFine pf deny root cache l none c d (n, e) = (n, e, refl)
below_real-IsFine pf deny root cache l (some (real, cache')) c d e =
    let abs = pf.resolve real l.rel in
    elim (Bool-cases (is_inside pf real abs)) [
      | inr i ↦ rw i (real, e, i)
      | inl i ↦
          let (a, f, up) = ancestor_of_found pf (suc (length abs)) abs c (omega arith) in
          rw (i, f) (through_links-IsFine pf deny root cache cache' l real a d e i up)
    ]

pub confined-IsFine :
    (pf : Platform) (deny : List Text) (root : Root) (cache : Cache) (l : Located)
    → Climbs pf
    → IsFine pf deny root cache l (confined pf deny root cache l)
unfolding confined
confined-IsFine pf deny root cache l c = elim (Bool-cases (is_denied deny l.rel)) [
  | inl d ↦ rw d (d, refl)
  | inr d ↦ rw d (
      below_real-IsFine pf deny root cache l (real_root pf cache l) c d
        (real_root-IsFound pf cache l))
]
