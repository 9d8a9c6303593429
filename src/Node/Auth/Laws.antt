-- ===== src/Node/Auth/Laws.antt =====
-- src/server.mjs: on what `authorize` lets a request in.
use dsh_link.Common.{
  ℕ, ◌≡◌, refl, Bool, true, false, not, ◌&&◌, ◌||◌, Option, none, some, List, [], ◌∷◌, Text,
  text_eq, ◌==◌,
}
use dsh_link.Common.{is_empty, any, Bool-cases, inl, inr, arith}
use dsh_link.Common.Dict.{Dict}
use dsh_link.Node.Auth.{
  TokenEntry, Match, AuthConfig, Caller, Failures, Verdict, by_token, by_localhost, refused, opens,
  first_opening, verify_token, presented_token, is_local, authorize, decided,
}

module _ (sha256_hex : Text → Text) where
  -- The entry is one that the text opens, and the one that is told of.
  abbrev pub is_behind : Text → Match → TokenEntry → Bool
  is_behind presented who t = opens sha256_hex presented t && t.id == who.id && t.label == who.label

  first_opening_sound :
      (presented : Text) (tokens : List TokenEntry) (who : Match)
      → first_opening sha256_hex presented tokens ≡ some who
      → any (is_behind presented who) tokens ≡ true
  first_opening_sound presented [] who h = absurd (ground arith)
  first_opening_sound presented (t ∷ tokens) who h =
      ground (arith, first_opening_sound presented tokens who)

  first_opening-none :
      (presented : Text) (tokens : List TokenEntry)
      → first_opening sha256_hex presented tokens ≡ none
      → any (opens sha256_hex presented) tokens ≡ false
  first_opening-none presented [] h = refl
  first_opening-none presented (t ∷ tokens) h = ground (arith, first_opening-none presented tokens)

  -- Why a verdict is right.
  abbrev pub Justified : AuthConfig → Caller → Verdict → Type 0
  Justified cfg caller (by_token who) =
      any (is_behind (presented_token caller) who) cfg.tokens ≡ true
  Justified cfg caller by_localhost = (cfg.trust_localhost ≡ true) × (is_local caller ≡ true)
  Justified cfg caller (refused n throttled) =
      ((is_empty (presented_token caller)
          || not (any (opens sha256_hex (presented_token caller)) cfg.tokens))
        ≡ true)
      × ((cfg.trust_localhost && is_local caller) ≡ false)

  verify_token_sound :
      (tokens : List TokenEntry) (presented : Text) (who : Match)
      → verify_token sha256_hex tokens presented ≡ some who
      → any (is_behind presented who) tokens ≡ true
  unfolding verify_token
  verify_token_sound tokens presented who h =
      ground (arith, first_opening_sound presented tokens who)

  verify_token-none :
      (tokens : List TokenEntry) (presented : Text)
      → verify_token sha256_hex tokens presented ≡ none
      → (is_empty presented || not (any (opens sha256_hex presented) tokens)) ≡ true
  unfolding verify_token
  verify_token-none tokens presented h = ground (arith, first_opening-none presented tokens)

  decided-Justified :
      (now : ℕ) (cfg : AuthConfig) (caller : Caller) (failures : Dict Failures) (o : Option Match)
      → verify_token sha256_hex cfg.tokens (presented_token caller) ≡ o
      → Justified cfg caller (decided now cfg caller failures o).1
  decided-Justified now cfg caller failures (some who) h =
      verify_token_sound cfg.tokens (presented_token caller) who h
  decided-Justified now cfg caller failures none h =
      elim (Bool-cases (cfg.trust_localhost && is_local caller)) [
        | inl e ↦ rw e (ground arith, ground arith)
        | inr e ↦ rw e (verify_token-none cfg.tokens (presented_token caller) h, e)
      ]

  -- A request is let in by a token only if that token opens an entry of the configuration, as local only
  -- if this is trusted and its address is local, and it is refused only if neither is so; whatever
  -- failures are on record.
  pub authorize-Justified :
      (now : ℕ) (cfg : AuthConfig) (caller : Caller) (failures : Dict Failures)
      → Justified cfg caller (authorize sha256_hex now cfg caller failures).1
  unfolding authorize
  authorize-Justified now cfg caller failures =
      decided-Justified now cfg caller failures
        (verify_token sha256_hex cfg.tokens (presented_token caller)) refl
