-- ===== src/Node/Auth.antt =====
-- src/config.mjs and src/server.mjs: the tokens that let a caller in, and the authorisation of a
-- request. SHA-256 is a parameter. The empty text is no text; `safeEqual` is equality.
pub mod Laws
pub mod Sealing
pub mod Throttle
mod Tests
use dsh_link.Common.{
  ℕ, zero, suc, ◌+◌, Bool, true, false, not, ◌&&◌, ◌||◌, Option, none, some, List, [], ◌∷◌, ◌++◌,
  Text, text_eq, ◌==◌,
}
use dsh_link.Common.{
  is_empty, if◌then◌else◌, take, drop, length, ltb, trim, to_lower, codes, or_default, or_text,
}
use dsh_link.Common.Dict.{Dict, lookup, insert}

-- A token of the configuration: its hash, and the token itself where it is not sealed.
pub record TokenEntry : Type 0 where
  pub id : Text
  pub label : Text
  pub hash : Text
  pub token : Text

-- What `verifyToken` tells of the entry that matched.
pub record Match : Type 0 where
  pub id : Text
  pub label : Text

module _ (sha256_hex : Text → Text) where
  -- `createInboundToken`, of a random id and token.
  unfoldable pub create_inbound_token : Text → Text → Text → List TokenEntry → List TokenEntry
  create_inbound_token id token label tokens =
      tokens ++ record { id = id; label = take 64 label; hash = sha256_hex token; token = [] } ∷ []

  abbrev pub seal_one : TokenEntry → TokenEntry × ℕ
  seal_one t =
      if not (is_empty t.token) && is_empty t.hash
      then (record t { hash = sha256_hex t.token; token = [] }, 1)
      else if not (is_empty t.token) && t.hash == sha256_hex t.token
      then (record t { token = [] }, 1)
      else (t, 0)

  -- `sealTokens`
  unfoldable pub seal_tokens : List TokenEntry → List TokenEntry × ℕ
  seal_tokens [] = ([], 0)
  seal_tokens (t ∷ tokens) =
      let (one, sealed) = seal_one t in
      let (more, count) = seal_tokens tokens in (one ∷ more, sealed + count)

  abbrev pub opens : Text → TokenEntry → Bool
  opens presented t =
      (not (is_empty t.hash) && t.hash == sha256_hex presented)
      || (not (is_empty t.token) && t.token == presented)

  abbrev pub first_opening : Text → List TokenEntry → Option Match
  first_opening presented [] = none
  first_opening presented (t ∷ tokens) =
      if opens presented t
      then some (record { id = t.id; label = t.label })
      else first_opening presented tokens

  -- `verifyToken`
  unfoldable pub verify_token : List TokenEntry → Text → Option Match
  verify_token tokens presented =
      if is_empty presented then none else first_opening presented tokens

-- What the server reads of a request: the address of the socket and the two headers.
pub record Caller : Type 0 where
  pub remote_address : Text
  pub authorization : Text
  pub alternative : Text

-- The failures of an address.
pub record Failures : Type 0 where
  pub count : ℕ
  pub first_at : ℕ

pub record AuthConfig : Type 0 where
  pub trust_localhost : Bool
  pub tokens : List TokenEntry

-- What `authorize` decides.
pub data Verdict : Type 0 where
  by_token : Match → Verdict
  by_localhost : Verdict
  refused : ℕ → Bool → Verdict

abbrev behind : Text → Text → Option Text
behind [] s = some s
behind (c ∷ p) [] = none
behind (c ∷ p) (d ∷ s) = if dsh_link.Common.eqb c d then behind p s else none

-- `s.replace(part, '')`: the first occurrence goes.
unfoldable pub remove_first : Text → Text → Text
remove_first part [] = []
remove_first part (c ∷ s) =
    let rest = c ∷ remove_first part s in or_default (behind part (c ∷ s)) rest

-- `clientIp`
unfoldable pub client_ip : Caller → Text
unfolding remove_first
client_ip caller = remove_first (codes "::ffff:") caller.remote_address

-- `presentedToken`; the empty text for none.
unfoldable pub presented_token : Caller → Text
unfolding trim to_lower
presented_token caller =
    if to_lower (take 7 caller.authorization) == codes "bearer "
    then trim (drop 7 caller.authorization)
    else trim caller.alternative

-- `LOCAL_ADDRESSES`
abbrev pub is_local_address : Text → Bool
is_local_address a = a == codes "127.0.0.1" || a == codes "::1" || a == codes "::ffff:127.0.0.1"

abbrev pub is_local : Caller → Bool
is_local caller = is_local_address caller.remote_address || is_local_address (client_ip caller)

-- The failures of an address with one more; they are forgotten after a minute.
abbrev pub one_more : ℕ → Option Failures → Failures
one_more now none = record { count = 1; first_at = now }
one_more now (some f) =
    if ltb (f.first_at + 60000) now
    then record { count = 1; first_at = now }
    else record f { count = f.count + 1 }

-- The verdict on a caller whose token was looked for.
abbrev pub decided :
    ℕ → AuthConfig → Caller → Dict Failures → Option Match → Dict Failures × Verdict
decided now cfg caller failures (some who) = (failures, by_token who)
decided now cfg caller failures none =
    let failed = one_more now (lookup (client_ip caller) failures) in
    if cfg.trust_localhost && is_local caller
    then (failures, by_localhost)
    else (insert (client_ip caller) failed failures, refused failed.count (ltb 20 failed.count))

module _ (sha256_hex : Text → Text) where
  -- `authorize`, at a time, with the failures by address.
  unfoldable pub authorize : ℕ → AuthConfig → Caller → Dict Failures → Dict Failures × Verdict
  unfolding verify_token client_ip presented_token
  authorize now cfg caller failures =
      decided now cfg caller failures (verify_token sha256_hex cfg.tokens (presented_token caller))
