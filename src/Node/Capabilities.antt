-- ===== src/Node/Capabilities.antt =====
-- src/capabilities.mjs: who may ask for what, `normalizeCapabilityConfig` and `authorizeCall`.
pub mod Fresh
mod Methods
pub mod Laws
pub mod Normal
use dsh_link.Common.{
  ◌++◌, ℕ, Bool, true, false, not, ◌&&◌, Option, none, some, List, [], ◌∷◌, Text, codes, text_eq,
  ◌==◌,
}
use dsh_link.Common.{map, trim, is_empty, if◌then◌else◌, or_default}
use dsh_link.Common.Int.{pos}
use dsh_link.Common.Dict.{Dict, lookup, insert}
use dsh_link.Common.Values.{Value, undefined, null, nan, object, bool, num, str}
use dsh_link.Node.Names.{slug_name}
use dsh_link.Node.Readers.{to_int, flag_bool}
unfoldable pub use Methods.*

-- What is configured for one peer; `none` is a value that is no array.
pub record RawPeer : Type 0 where
  pub allow : Option (List Value)
  pub deny : Option (List Value)

-- A section as it arrives. The outer `none` of a property says that it is absent. Under `peers` a
-- value that is no plain object is `none`.
pub record RawSection : Type 0 where
  pub enabled : Option Value
  pub methods : Option (Option (List Value))
  pub peers : Option (Option (Dict (Option RawPeer)))
  pub max_wait_seconds : Option Value
  pub command_ttl_seconds : Option Value
  pub max_pending : Option Value
  pub claim_stale_seconds : Option Value
  pub max_result_bytes : Option Value

-- A section, or a whole node configuration that holds one under `capabilities`.
pub record RawConfig : Type 0 where
  pub top : RawSection
  pub capabilities : Option RawSection

pub record Peer : Type 0 where
  pub allow : List Text
  pub deny : List Text

pub record Policy : Type 0 where
  pub enabled : Bool
  pub methods : List Text
  pub peers : Dict Peer
  pub max_wait_seconds : ℕ
  pub command_ttl_seconds : ℕ
  pub max_pending : ℕ
  pub claim_stale_seconds : ℕ
  pub max_result_bytes : ℕ

-- A property of `{ ...top, ...inner }`.
abbrev pub over {ℓ} : {A : Type ℓ} → Option A → Option A → Option A
over none a = a
over (some b) a = some b

abbrev pub merge : Option RawSection → RawSection → RawSection
merge none top = top
merge (some inner) top = record {
  enabled = over inner.enabled top.enabled;
  methods = over inner.methods top.methods;
  peers = over inner.peers top.peers;
  max_wait_seconds = over inner.max_wait_seconds top.max_wait_seconds;
  command_ttl_seconds = over inner.command_ttl_seconds top.command_ttl_seconds;
  max_pending = over inner.max_pending top.max_pending;
  claim_stale_seconds = over inner.claim_stale_seconds top.claim_stale_seconds;
  max_result_bytes = over inner.max_result_bytes top.max_result_bytes;
}

abbrev pub peer_of : Option RawPeer → Peer
peer_of none = record { allow = []; deny = [] }
peer_of (some p) = record {
  allow = or_default (method_list p.allow) [];
  deny = or_default (method_list p.deny) [];
}

-- The loop over the peers.
unfoldable pub peers_onto : Dict Peer → Dict (Option RawPeer) → Dict Peer
peers_onto out [] = out
peers_onto out ((name, p) ∷ raw) =
    let key = slug_name name [] in
    peers_onto (if is_empty key then out else insert key (peer_of p) out) raw

abbrev pub absent_as {ℓ} : {A : Type ℓ} → A → Option A → A
absent_as d o = or_default o d

unfoldable pub normalize_section : RawSection → Policy
unfolding method_list peers_onto
normalize_section src = record {
  enabled = flag_bool (absent_as undefined src.enabled) false;
  methods = or_default (method_list (absent_as none src.methods)) default_methods;
  peers = peers_onto [] (or_default (absent_as none src.peers) []);
  max_wait_seconds = to_int (absent_as undefined src.max_wait_seconds) 30 1 3600;
  command_ttl_seconds = to_int (absent_as undefined src.command_ttl_seconds) 120 1 86400;
  max_pending = to_int (absent_as undefined src.max_pending) 50 1 10000;
  claim_stale_seconds = to_int (absent_as undefined src.claim_stale_seconds) 60 0 86400;
  max_result_bytes = to_int (absent_as undefined src.max_result_bytes) 524288 64 67108864;
}

-- A normalized section, passed where a raw one is expected.
abbrev pub raw_list : List Text → Option (List Value)
raw_list names = some (map (λ m. str m) names)

abbrev pub raw_peers : Dict Peer → Dict (Option RawPeer)
raw_peers [] = []
raw_peers ((name, p) ∷ d) =
    (name, some (record { allow = raw_list p.allow; deny = raw_list p.deny })) ∷ raw_peers d

abbrev pub raw_of : Policy → RawConfig
raw_of p = record {
  top = record {
    enabled = some (bool p.enabled);
    methods = some (raw_list p.methods);
    peers = some (some (raw_peers p.peers));
    max_wait_seconds = some (num (pos p.max_wait_seconds));
    command_ttl_seconds = some (num (pos p.command_ttl_seconds));
    max_pending = some (num (pos p.max_pending));
    claim_stale_seconds = some (num (pos p.claim_stale_seconds));
    max_result_bytes = some (num (pos p.max_result_bytes));
  };
  capabilities = none;
}

-- `normalizeCapabilityConfig` of a plain object.
unfoldable pub normalize_capability_config : RawConfig → Policy
unfolding normalize_section
normalize_capability_config raw = normalize_section (merge raw.capabilities raw.top)

-- The `reason` of a verdict; `ok` is true with `allowed` alone.
pub data Verdict : Type 0 where
  allowed capabilities_disabled unknown_method peer_denied peer_not_allowed method_not_allowed :
      Verdict

abbrev pub scoped_peer : Policy → Text → Option Peer
scoped_peer policy peer =
    let key = if is_empty peer then [] else slug_name peer [] in
    if is_empty key then none else lookup key policy.peers

abbrev judge : Policy → Option Peer → Text → Verdict
judge policy none name = if includes policy.methods name then allowed else method_not_allowed
judge policy (some p) name = if includes p.deny name then peer_denied else elim p.allow [
  | [] ↦ if includes policy.methods name then allowed else method_not_allowed
  | m ∷ more ↦ if includes (m ∷ more) name then allowed else peer_not_allowed
]

-- The gates of `authorizeCall`, over the normalized configuration.
unfoldable pub authorize_under : Policy → Text → Value → Verdict
unfolding method_kind lookup
authorize_under policy peer method =
    let name = trimmed method in
    if not policy.enabled
    then capabilities_disabled
    else if not (is_known name)
    then unknown_method
    else judge policy (scoped_peer policy peer) name

-- `authorizeCall`
unfoldable pub authorize_call : RawConfig → Text → Value → Verdict
unfolding authorize_under
authorize_call cfg peer method = authorize_under (normalize_capability_config cfg) peer method

-- `statusForReason`
unfoldable pub status_for_reason : Verdict → ℕ
status_for_reason unknown_method = 404
status_for_reason _ = 403
