-- ===== src/Node/Auth/Sealing.antt =====
-- src/config.mjs: a token that is made opens, and sealing the tokens changes nothing for the callers.
use dsh_link.Common.{
  ℕ, ◌≡◌, refl, Bool, true, false, not, ◌&&◌, ◌||◌, Option, none, some, List, [], ◌∷◌, ◌++◌, Text,
  text_eq, ◌==◌,
}
use dsh_link.Common.{
  is_empty, if◌then◌else◌, any, is_some, Bool-cases, Option-cases, inl, inr, arith, All, ap,
}
use dsh_link.Node.Auth.{
  TokenEntry, opens, first_opening, verify_token, create_inbound_token, seal_one, seal_tokens,
}

module _ (sha256_hex : Text → Text) where
  first_opening-append :
      (presented : Text) (tokens : List TokenEntry) (t : TokenEntry)
      → opens sha256_hex presented t ≡ true
      → is_some (first_opening sha256_hex presented (tokens ++ t ∷ [])) ≡ true
  first_opening-append presented [] t h = rw h refl
  first_opening-append presented (u ∷ tokens) t h =
      ground (arith, first_opening-append presented tokens t h)

  -- A token that was made lets its holder in, where it and its hash are not empty.
  pub verify_token-create_inbound_token :
      (id token label : Text) (tokens : List TokenEntry)
      → is_empty token ≡ false
      → is_empty (sha256_hex token) ≡ false
      → is_some
          (verify_token sha256_hex (create_inbound_token sha256_hex id token label tokens) token)
        ≡ true
  unfolding verify_token create_inbound_token
  verify_token-create_inbound_token id token label tokens h k = rw h (
      first_opening-append token tokens
        (record {
          id = id;
          label = dsh_link.Common.take 64 label;
          hash = sha256_hex token;
          token = [];
        })
        (ground arith))

  -- The text does not collide with the token of the entry, whose hash is not empty.
  abbrev pub Apart : Text → TokenEntry → Type 0
  Apart presented t =
      (sha256_hex t.token ≡ sha256_hex presented → t.token ≡ presented)
      × (is_empty (sha256_hex t.token) ≡ false)

  opens-seal_one :
      (presented : Text) (t : TokenEntry)
      → Apart presented t
      → is_empty presented ≡ false
      → opens sha256_hex presented (seal_one sha256_hex t).0 ≡ opens sha256_hex presented t
  opens-seal_one presented t (apart, full) h = ground (arith, apart, ap sha256_hex)

  seal_one-labels :
      (t : TokenEntry)
      → ((seal_one sha256_hex t).0.id ≡ t.id) × ((seal_one sha256_hex t).0.label ≡ t.label)
  seal_one-labels t = ground arith

  first_opening-seal_tokens :
      (presented : Text) (tokens : List TokenEntry)
      → is_empty presented ≡ false
      → All (Apart presented) tokens
      → first_opening sha256_hex presented (seal_tokens sha256_hex tokens).0
        ≡ first_opening sha256_hex presented tokens
  unfolding seal_tokens
  first_opening-seal_tokens presented [] h apart = refl
  first_opening-seal_tokens presented (t ∷ tokens) h (a, apart) =
      let (same_id, same_label) = seal_one-labels t in
      rw
        (
          opens-seal_one presented t a h,
          same_id,
          same_label,
          first_opening-seal_tokens presented tokens h apart,
        )
        refl

  -- No token stays in plain text but one beside a hash of another text.
  abbrev pub IsSealed : TokenEntry → Type 0
  IsSealed t =
      (is_empty t.token || (not (is_empty t.hash) && not (t.hash == sha256_hex t.token))) ≡ true

  seal_tokens-IsSealed : (tokens : List TokenEntry) → All IsSealed (seal_tokens sha256_hex tokens).0
  unfolding seal_tokens
  seal_tokens-IsSealed [] = tt
  seal_tokens-IsSealed (t ∷ tokens) = (ground arith, seal_tokens-IsSealed tokens)

  seal_tokens-sealed :
      (tokens : List TokenEntry) → All IsSealed tokens → seal_tokens sha256_hex tokens ≡ (tokens, 0)
  unfolding seal_tokens
  seal_tokens-sealed [] all = refl
  seal_tokens-sealed (t ∷ tokens) (s, all) = ground (arith, seal_tokens-sealed tokens all)

  -- Sealing leaves no token in plain text but beside a hash of another text, sealing again changes
  -- nothing, and a text is let in as before, where no token of the configuration has the hash of that
  -- text without being it, and no hash of these tokens is the empty text.
  pub verify_token-seal_tokens :
      (presented : Text) (tokens : List TokenEntry)
      → All (Apart presented) tokens
      → let (sealed, count) = seal_tokens sha256_hex tokens in
        (verify_token sha256_hex sealed presented ≡ verify_token sha256_hex tokens presented)
        × All IsSealed sealed
        × (seal_tokens sha256_hex sealed ≡ (sealed, 0))
  unfolding verify_token
  verify_token-seal_tokens presented tokens apart =
      let all = seal_tokens-IsSealed tokens in
      (
        ground (arith, first_opening-seal_tokens presented tokens),
        all,
        seal_tokens-sealed (seal_tokens sha256_hex tokens).0 all,
      )
