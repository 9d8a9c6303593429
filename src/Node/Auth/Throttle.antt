-- ===== src/Node/Auth/Throttle.antt =====
-- src/server.mjs: the refused requests of an address are counted for a minute.
use dsh_link.Common.{
  ℕ, suc, ◌+◌, ◌≤◌, ◌≡◌, refl, ap, ◌∙◌, Bool, false, not, ◌&&◌, ◌||◌, Option, none, some, List, [],
  ◌∷◌, Text, text_eq, ◌==◌,
}
use dsh_link.Common.{if◌then◌else◌, is_some, ltb, All, Bool-cases, inl, inr, arith}
use dsh_link.Common.Dict.{Dict, lookup, lookup-insert}
use dsh_link.Node.Auth.{
  AuthConfig, Caller, Failures, refused, verify_token, presented_token, is_local, client_ip,
  authorize, decided, one_more, Match,
}

module _ (sha256_hex : Text → Text) (cfg : AuthConfig) where
  abbrev pub token_of : Caller → Option Match
  token_of caller = verify_token sha256_hex cfg.tokens (presented_token caller)

  -- Whether a caller is let in; the failures do not matter.
  abbrev pub is_let_in : Caller → Bool
  is_let_in caller = is_some (token_of caller) || (cfg.trust_localhost && is_local caller)

  -- Requests one after the other, each at its time.
  unfoldable pub run : List (ℕ × Caller) → Dict Failures → Dict Failures
  unfolding authorize
  run [] failures = failures
  run ((now, caller) ∷ calls) failures = run calls (authorize sha256_hex now cfg caller failures).0

  -- How many of them come from an address and are refused.
  unfoldable pub refusals : Text → List (ℕ × Caller) → ℕ
  unfolding client_ip
  refusals ip [] = 0
  refusals ip ((now, caller) ∷ calls) =
      let rest = refusals ip calls in
      if client_ip caller == ip && not (is_let_in caller) then suc rest else rest

  -- Every request comes within a minute of a time.
  abbrev pub IsWithin : ℕ → List (ℕ × Caller) → Type 0
  IsWithin start calls = All (λ call. call.0 ≤ start + 60000) calls

  abbrev more : ℕ → Failures → Failures
  more n f = record f { count = f.count + n }

  one_more_within :
      (now : ℕ) (f : Failures) → now ≤ f.first_at + 60000 → one_more now (some f) ≡ more 1 f
  one_more_within now f w = ground arith

  lookup-decided :
      (ip : Text) (now : ℕ) (caller : Caller) (o : Option Match) (failures : Dict Failures)
      (f : Failures)
      → lookup ip failures ≡ some f
      → now ≤ f.first_at + 60000
      → lookup ip (decided now cfg caller failures o).0
        ≡ some (
            if client_ip caller == ip && not (is_some o || (cfg.trust_localhost && is_local caller))
            then more 1 f
            else f)
  lookup-decided ip now caller (some who) failures f h w = ground arith
  lookup-decided ip now caller none failures f h w =
      let seen = one_more now (lookup (client_ip caller) failures) in
      elim (Bool-cases (cfg.trust_localhost && is_local caller)) [
        | inl e ↦ rw e (ground arith)
        | inr e ↦ elim (Bool-cases (client_ip caller == ip)) [
          | inl g ↦
              let same : client_ip caller ≡ ip = ground arith in
              let counted : seen ≡ more 1 f =
                ap (λ k. one_more now (lookup k failures)) same
                ∙ ap (one_more now) h
                ∙ one_more_within now f w in
              rw (e, g) (lookup-insert ip (client_ip caller) seen failures ∙ rw (g, counted) refl)
          | inr g ↦ rw (e, g) (ground (arith, lookup-insert ip (client_ip caller) seen failures))
        ]
      ]

  -- The count grows by the refusals.
  lookup-run :
      (ip : Text) (calls : List (ℕ × Caller)) (failures : Dict Failures) (f : Failures)
      → lookup ip failures ≡ some f
      → IsWithin f.first_at calls
      → lookup ip (run calls failures) ≡ some (more (refusals ip calls) f)
  unfolding run refusals
  lookup-run ip [] failures f h w = ground arith
  lookup-run ip ((now, caller) ∷ calls) failures f h (w, ws) =
      let after = (decided now cfg caller failures (token_of caller)).0 in
      let one = lookup-decided ip now caller (token_of caller) failures f h w in
      elim (Bool-cases (client_ip caller == ip && not (is_let_in caller))) [
        | inl e ↦ rw e (lookup-run ip calls after (more 1 f) (one ∙ rw e refl) ws ∙ ground arith)
        | inr e ↦ rw e (lookup-run ip calls after f (one ∙ rw e refl) ws)
      ]

  decided-refused :
      (now : ℕ) (caller : Caller) (o : Option Match) (failures : Dict Failures) (f : Failures)
      → lookup (client_ip caller) failures ≡ some f
      → now ≤ f.first_at + 60000
      → (is_some o || (cfg.trust_localhost && is_local caller)) ≡ false
      → (decided now cfg caller failures o).1 ≡ refused (f.count + 1) (ltb 20 (f.count + 1))
  decided-refused now caller (some who) failures f h w r = absurd (ground arith)
  decided-refused now caller none failures f h w r = rw (r, h, one_more_within now f w) refl

  -- A request of an address that is refused is told of one failure more than there were, and is
  -- throttled from the 21st on, whatever other requests came between and from whom, if all came within
  -- a minute of the first failure on record of that address.
  pub authorize-run :
      (calls : List (ℕ × Caller)) (failures : Dict Failures) (f : Failures) (now : ℕ)
      (caller : Caller)
      → lookup (client_ip caller) failures ≡ some f
      → IsWithin f.first_at ((now, caller) ∷ calls)
      → is_let_in caller ≡ false
      → (authorize sha256_hex now cfg caller (run calls failures)).1
        ≡ (let n = f.count + refusals (client_ip caller) calls + 1 in refused n (ltb 20 n))
  unfolding authorize
  authorize-run calls failures f now caller h (w, ws) r =
      decided-refused now caller (token_of caller) (run calls failures)
        (more (refusals (client_ip caller) calls) f)
        (lookup-run (client_ip caller) calls failures f h ws) w r
