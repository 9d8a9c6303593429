-- ===== src/Node/Capabilities/Fresh.antt =====
-- src/capabilities.mjs: a list of methods that is normalized stays as it is.
use dsh_link.Common.{
  ℕ, ◌≤◌, ◌≡◌, ◌≢◌, ◌∙◌, refl, ap, sym, Bool, true, false, not, ◌&&◌, Option, none, some, List, [],
  ◌∷◌, ◌++◌, map, Text,
}
use dsh_link.Common.{
  text_eq, text_dec, ◌==◌, trim, is_empty, if◌then◌else◌, or_default, arith, length, Bool-cases,
  inl, inr,
}
use mathlib.Core.List.{append_assoc, append-nil}
use dsh_link.Common.Trim.{trim_idempotent}
use dsh_link.Common.Values.{Value, str}
use dsh_link.Node.Capabilities.{
  is_known, includes, trimmed, push_method, method_list_onto, method_list, raw_list,
}

pub record IsMethod (x : Text) : Type 0 where
  pub trimmed : trim x ≡ x
  pub named : is_empty x ≡ false
  pub known : is_known x ≡ true

-- Known methods, of which none stands in `out` or twice.
abbrev pub Fresh : List Text → List Text → Type 0
Fresh out [] = Unit
Fresh out (x ∷ xs) = IsMethod x × (includes out x ≡ false) × Fresh (out ++ x ∷ []) xs

pub push_method_new :
    (out : List Text) (x : Text)
    → IsMethod x
    → includes out x ≡ false
    → push_method out (trim x) ≡ out ++ x ∷ []
push_method_new out x m fresh = rw m.trimmed (unfold push_method in ground arith)

pub method_list_onto_id :
    (out xs : List Text) → Fresh out xs → method_list_onto out (map (λ m. str m) xs) ≡ out ++ xs
unfolding method_list_onto
method_list_onto_id out [] _ = sym (append-nil out)
method_list_onto_id out (x ∷ xs) (m, fresh, more) =
    ap (λ (o : List Text). method_list_onto o (map (λ m. str m) xs)) (push_method_new out x m fresh)
    ∙ method_list_onto_id (out ++ x ∷ []) xs more
    ∙ append_assoc out (x ∷ []) xs

pub Fresh-snoc :
    (out xs : List Text) (x : Text)
    → Fresh out xs
    → IsMethod x
    → includes (out ++ xs) x ≡ false
    → Fresh out (xs ++ x ∷ [])
Fresh-snoc out [] x _ m h = (m, rw append-nil at h, tt)
Fresh-snoc out (y ∷ ys) x (n, fresh, more) m h =
    (n, fresh, Fresh-snoc (out ++ y ∷ []) ys x more m (rw (append_assoc out (y ∷ []) ys) h))

pub trim-trimmed : (entry : Value) → trim (trimmed entry) ≡ trimmed entry
unfolding trim dsh_link.Common.trim_end dsh_link.Common.trim_start
trim-trimmed (str s) = trim_idempotent s
trim-trimmed _ = refl

pub push_method-Fresh :
    (out : List Text) (entry : Value) → Fresh [] out → Fresh [] (push_method out (trimmed entry))
unfolding push_method
push_method-Fresh out entry h =
    let x = trimmed entry in
    elim (Bool-cases (not (is_empty x) && (is_known x && not (includes out x)))) [
      | inl e ↦ rw e (
          Fresh-snoc [] out x h
            (record { trimmed = trim-trimmed entry; named = ground arith; known = ground arith })
            (ground arith))
      | inr e ↦ rw e h
    ]

pub method_list_onto-Fresh :
    (out : List Text) (value : List Value) → Fresh [] out → Fresh [] (method_list_onto out value)
unfolding method_list_onto
method_list_onto-Fresh out [] h = h
method_list_onto-Fresh out (entry ∷ value) h =
    method_list_onto-Fresh (push_method out (trimmed entry)) value (push_method-Fresh out entry h)

pub method_list-Fresh :
    (value : Option (List Value)) (d : List Text)
    → Fresh [] d
    → Fresh [] (or_default (method_list value) d)
unfolding method_list
method_list-Fresh none d h = h
method_list-Fresh (some value) d h = method_list_onto-Fresh [] value tt

pub method_list_id :
    (xs d : List Text) → Fresh [] xs → or_default (method_list (raw_list xs)) d ≡ xs
unfolding method_list
method_list_id xs d h = method_list_onto_id [] xs h
