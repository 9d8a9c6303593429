-- ===== src/Node/Capabilities/Laws.antt =====
-- src/capabilities.mjs: which calls `authorizeCall` allows.
use dsh_link.Common.{
  ◌≡◌, ◌↔◌, refl, true, false, Option, none, some, List, [], ◌∷◌, Text, text_eq, text_dec,
}
use dsh_link.Common.{arith, All, subst}
use dsh_link.Common.Dict.{lookup}
use dsh_link.Common.Values.{Value}
use dsh_link.Node.Capabilities.{
  read, method_kind, default_methods, is_known, includes, trimmed, RawConfig, Peer, Policy, merge,
  absent_as, normalize_capability_config, allowed, scoped_peer, authorize_under, authorize_call,
}

-- The list that decides for a peer: its own, if it has one that is not empty.
abbrev pub effective_allow : Policy → Option Peer → List Text
effective_allow policy none = policy.methods
effective_allow policy (some p) = elim p.allow [ [] ↦ policy.methods | m ∷ more ↦ m ∷ more ]

abbrev pub denied : Option Peer → List Text
denied none = []
denied (some p) = p.deny

-- What a call must satisfy, said without the order of the gates.
pub record IsPermitted (policy : Policy) (scope : Option Peer) (name : Text) : Type 0 where
  pub enabled : policy.enabled ≡ true
  pub known : is_known name ≡ true
  pub not_denied : includes (denied scope) name ≡ false
  pub listed : includes (effective_allow policy scope) name ≡ true

authorize_under_sound :
    (policy : Policy) (peer : Text) (method : Value)
    → authorize_under policy peer method ≡ allowed
    → IsPermitted policy (scoped_peer policy peer) (trimmed method)
unfolding authorize_under
authorize_under_sound policy peer method h = ground arith

authorize_under_complete :
    (policy : Policy) (peer : Text) (method : Value)
    → IsPermitted policy (scoped_peer policy peer) (trimmed method)
    → authorize_under policy peer method ≡ allowed
unfolding authorize_under
authorize_under_complete policy peer method p = ground arith

-- A call is allowed exactly when the channel is enabled, the method, trimmed, is a known capability,
-- the peer's deny list does not hold it, and the list that decides for the peer holds it: the
-- peer's own allow list if it is not empty, and the node-wide list otherwise.
pub authorize_call_iff :
    (cfg : RawConfig) (peer : Text) (method : Value)
    → let policy = normalize_capability_config cfg in
      (authorize_call cfg peer method ≡ allowed)
      ↔ IsPermitted policy (scoped_peer policy peer) (trimmed method)
unfolding authorize_call
authorize_call_iff cfg peer method =
    let policy = normalize_capability_config cfg in
    (authorize_under_sound policy peer method, authorize_under_complete policy peer method)

includes_all :
    (P : Text → Type 0) (xs : List Text) (name : Text) → All P xs → includes xs name ≡ true → P name
includes_all P [] name _ h = cc
includes_all P (x ∷ xs) name (p, ps) h = elim (text_dec x name) [
  | yes e ↦ subst P e p
  | no n ↦ includes_all P xs name ps (ground arith)
]

default_methods_read : All (λ m. method_kind m ≡ some read) default_methods
unfolding method_kind lookup text_eq text_dec
default_methods_read = (refl, (refl, (refl, (refl, tt))))

-- Where no array of methods is configured, a peer without a policy of its own is allowed to read
-- only: no call that would change DSH passes.
pub authorize_call_default_reads :
    (cfg : RawConfig) (peer : Text) (method : Value)
    → absent_as none (merge cfg.capabilities cfg.top).methods ≡ none
    → scoped_peer (normalize_capability_config cfg) peer ≡ none
    → authorize_call cfg peer method ≡ allowed
    → method_kind (trimmed method) ≡ some read
unfolding normalize_capability_config
authorize_call_default_reads cfg peer method unset alone h =
    let permitted = (authorize_call_iff cfg peer method).0 h in
    let listed = permitted.listed in
    includes_all (λ m. method_kind m ≡ some read) default_methods (trimmed method)
      default_methods_read (ground arith)
