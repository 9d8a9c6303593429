-- ===== src/Node/Presence.antt =====
-- src/capabilities.mjs: `normalizeCapabilities` and `createBridgePresence`. The file is what the last
-- beat wrote; `none` is a file that holds no record. Times are milliseconds.
mod Tests
use dsh_link.Common.{
  ℕ, suc, ◌+◌, ◌-◌, ◌≤◌, ◌≡◌, refl, Bool, true, false, not, ◌&&◌, Option, none, some, List, [], ◌∷◌,
  ◌++◌, Text,
}
use dsh_link.Common.{
  is_empty, if◌then◌else◌, ltb, leb, length, length-append, take, trim, or_default, arith,
  Bool-cases, inl, inr,
}
use dsh_link.Common.Values.{Value, undefined, null, str}
use dsh_link.Node.Readers.{to_int, to_int_bounds}
use dsh_link.Node.Capabilities.{RawConfig, includes, normalize_capability_config}

abbrev declared : Value → Text
declared (str s) = take 64 (trim s)
declared _ = []

-- The loop of `normalizeCapabilities` over an array.
unfoldable pub normalize_onto : List Text → List Value → List Text
normalize_onto out [] = out
normalize_onto out (entry ∷ value) =
    let name = declared entry in
    let more = normalize_onto (out ++ name ∷ []) value in
    let same = normalize_onto out value in
    if not (is_empty name) && (not (includes out name) && ltb (length out) 64) then more else same

-- The record of `beat`: what `staleness` and the node read of it.
pub record Beat : Type 0 where
  pub capabilities : List Text
  pub at : ℕ

-- `beat`, where what is declared is an array, or neither an array nor an object.
unfoldable pub beat : RawConfig → Option (List Value) → ℕ → Beat
unfolding normalize_onto normalize_capability_config
beat cfg none now =
    let policy = normalize_capability_config cfg in
    record { capabilities = if policy.enabled then policy.methods else []; at = now }
beat cfg (some value) now = record { capabilities = normalize_onto [] value; at = now }

pub record Staleness : Type 0 where
  pub fresh : Bool
  pub age_ms : Option ℕ

-- `staleness`
unfoldable pub staleness : Option Beat → Value → ℕ → Staleness
staleness none ms now = record { fresh = false; age_ms = none }
staleness (some b) ms now = record {
  fresh = leb (now - b.at) (to_int ms 60000 0 86400000);
  age_ms = some (now - b.at);
}

length-normalize_onto :
    (out : List Text) (value : List Value)
    → length out ≤ 64
    → length (normalize_onto out value) ≤ 64
unfolding normalize_onto
length-normalize_onto out [] h = h
length-normalize_onto out (entry ∷ value) h =
    let name = declared entry in
    elim (Bool-cases (not (is_empty name) && (not (includes out name) && ltb (length out) 64))) [
      | inl e ↦ rw e (
          length-normalize_onto (out ++ name ∷ []) value
            (ground (arith, length-append out (name ∷ []))))
      | inr e ↦ rw e (length-normalize_onto out value h)
    ]

-- A bridge is fresh for as long as the limit after each beat, whatever it declares, and no longer
-- than a day; and a beat holds at most 64 declared capabilities.
pub staleness-beat :
    (cfg : RawConfig) (value : List Value) (ms : Value) (at now : ℕ)
    → at ≤ now
    → let b = beat cfg (some value) at in
      ((staleness (some b) ms now).fresh ≡ leb now (at + to_int ms 60000 0 86400000))
      × (to_int ms 60000 0 86400000 ≤ 86400000)
      × (length b.capabilities ≤ 64)
unfolding staleness beat
staleness-beat cfg value ms at now h = (
  ground arith,
  (to_int_bounds ms 60000 0 86400000 (omega arith) (omega arith)).1,
  length-normalize_onto [] value (omega arith),
)
