-- ===== src/Node/Server/Bodies.antt =====
-- src/server.mjs: `readBody` and `readJson`. The parser of JSON is a parameter.
use dsh_link.Common.{
  ℕ, ◌+◌, ◌≤◌, ◌≡◌, refl, sym, subst, Bool, true, false, Option, none, some, ◌⊎◌, List, [], ◌∷◌,
  ◌++◌, Text,
}
use dsh_link.Common.{if◌then◌else◌, length, ltb, codes, length-append, arith, Bool-cases, inl, inr}
use mathlib.Core.List.{append-nil, append_assoc}
use dsh_link.Common.Int.{ℤ, pos, ltb_ℤ}
use dsh_link.Common.Values.{Value}
use dsh_link.Node.Readers.{read_int}
use dsh_link.Node.Server.{Result, ok, err, link_error}

-- `declared > maxBytes`, of a header that may be missing.
abbrev pub declares_more : Option ℤ → ℕ → Bool
declares_more none max_bytes = false
declares_more (some n) max_bytes = ltb_ℤ (pos max_bytes) n

-- The loop over the chunks, behind those that were read.
unfoldable pub read_chunks : ℕ → Text → List Text → Result Text
read_chunks max_bytes read [] = ok read
read_chunks max_bytes read (chunk ∷ chunks) =
    let rest = read_chunks max_bytes (read ++ chunk) chunks in
    if ltb max_bytes (length read + length chunk)
    then err (link_error 413 (codes "payload_too_large"))
    else rest

-- `readBody`
unfoldable pub read_body : Value → ℕ → List Text → Result Text
unfolding read_int read_chunks
read_body content_length max_bytes chunks =
    if declares_more (read_int content_length) max_bytes
    then err (link_error 413 (codes "payload_too_large"))
    else read_chunks max_bytes [] chunks

abbrev pub concat : List Text → Text
concat [] = []
concat (chunk ∷ chunks) = chunk ++ concat chunks

module _ {J : Type 0} (parse : Text → Option (Option J)) (empty : J) where
  -- What is parsed: nothing, a value that is no object, or an object.
  abbrev parsed : Option (Option J) → Result J
  parsed none = err (link_error 400 (codes "bad_request"))
  parsed (some none) = err (link_error 400 (codes "bad_request"))
  parsed (some (some object)) = ok object

  abbrev json_of : Result Text → Result J
  json_of (err e) = err e
  json_of (ok []) = ok empty
  json_of (ok (c ∷ body)) = parsed (parse (c ∷ body))

  -- `readJson`
  unfoldable pub read_json : Value → ℕ → List Text → Result J
  unfolding read_body
  read_json content_length max_bytes chunks = json_of (read_body content_length max_bytes chunks)

-- The chunks fit.
abbrev pub Fits : ℕ → Text → Result Text → Type 0
Fits max_bytes all (ok body) = (body ≡ all) × (length body ≤ max_bytes)
Fits max_bytes all (err e) =
    (e ≡ link_error 413 (codes "payload_too_large")) × (ltb max_bytes (length all) ≡ true)

read_chunks-Fits :
    (max_bytes : ℕ) (read : Text) (chunks : List Text)
    → length read ≤ max_bytes
    → Fits max_bytes (read ++ concat chunks) (read_chunks max_bytes read chunks)
unfolding read_chunks
read_chunks-Fits max_bytes read [] h = (sym (append-nil read), h)
read_chunks-Fits max_bytes read (chunk ∷ chunks) h =
    elim (Bool-cases (ltb max_bytes (length read + length chunk))) [
      | inl e ↦ rw e (
        refl,
        ground (
          arith,
          length-append read (chunk ++ concat chunks),
          length-append chunk (concat chunks),
        ),
      )
      | inr e ↦ rw e (
          subst (λ all. Fits max_bytes all (read_chunks max_bytes (read ++ chunk) chunks))
            (append_assoc read chunk (concat chunks))
            (read_chunks-Fits max_bytes (read ++ chunk) chunks
              (ground (arith, length-append read chunk))))
    ]

-- A body is read whole, and is then within the limit, unless it is refused with 413, which happens only
-- if the header declares more than the limit or the chunks hold more.
pub read_body-Fits :
    (content_length : Value) (max_bytes : ℕ) (chunks : List Text)
    → (declares_more (read_int content_length) max_bytes ≡ true
        × (read_body content_length max_bytes chunks
            ≡ err (link_error 413 (codes "payload_too_large"))))
      ⊎ Fits max_bytes (concat chunks) (read_body content_length max_bytes chunks)
unfolding read_body
read_body-Fits content_length max_bytes chunks =
    elim (Bool-cases (declares_more (read_int content_length) max_bytes)) [
      | inl e ↦ rw e (inl (refl, refl))
      | inr e ↦ rw e (inr (read_chunks-Fits max_bytes [] chunks (omega arith)))
    ]
