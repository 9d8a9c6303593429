-- ===== src/Node/Capabilities/Normal.antt =====
-- src/capabilities.mjs: normalizing twice is normalizing once.
use dsh_link.Common.{
  ℕ, ◌≤◌, ◌≡◌, ◌≢◌, ◌∙◌, refl, ap, sym, Bool, true, false, not, ◌&&◌, Option, none, some, List, [],
  ◌∷◌, ◌++◌, map, Text,
}
use dsh_link.Common.{
  text_eq, text_dec, ◌==◌, trim, is_empty, if◌then◌else◌, or_default, arith, length, Bool-cases,
  inl, inr,
}
use mathlib.Core.List.{append_assoc, append-nil}
use dsh_link.Common.Dict.{Dict, lookup, insert, NodupKeys, insert-NodupKeys}
use dsh_link.Common.Values.{undefined, Value}
use dsh_link.Node.Names.{slug_name}
use dsh_link.Node.Names.Laws.{slug_name_idempotent}
use dsh_link.Node.Readers.{to_int_id, to_int_bounds, flag_bool}
use dsh_link.Node.Capabilities.{
  method_kind, is_known, method_list, RawPeer, RawConfig, Peer, Policy, peer_of, peers_onto, merge,
  absent_as, normalize_section, normalize_capability_config, raw_list, raw_peers, raw_of,
  default_methods,
}
use dsh_link.Node.Capabilities.Fresh.{IsMethod, Fresh, method_list-Fresh, method_list_id}

-- A peer's entry as normalization leaves it.
record IsPeer (key : Text) (p : Peer) : Type 0 where
  named : is_empty key ≡ false
  slug : slug_name key [] ≡ key
  allow : Fresh [] p.allow
  deny : Fresh [] p.deny

abbrev ArePeers : Dict Peer → Type 0
ArePeers [] = Unit
ArePeers ((key, p) ∷ d) = IsPeer key p × ArePeers d

insert-ArePeers :
    (key : Text) (p : Peer) (d : Dict Peer) → IsPeer key p → ArePeers d → ArePeers (insert key p d)
unfolding insert
insert-ArePeers key p [] h _ = (h, tt)
insert-ArePeers key p ((j, q) ∷ d) h (k, ks) = ground (arith, insert-ArePeers key p d h ks)

peer_of-IsPeer :
    (name : Text) (p : Option RawPeer)
    → is_empty (slug_name name []) ≡ false
    → IsPeer (slug_name name []) (peer_of p)
peer_of-IsPeer name none h = record {
  named = h;
  slug = (slug_name_idempotent name [] tt (λ e. ground arith)).2;
  allow = tt;
  deny = tt;
}
peer_of-IsPeer name (some p) h = record {
  named = h;
  slug = (slug_name_idempotent name [] tt (λ e. ground arith)).2;
  allow = method_list-Fresh p.allow [] tt;
  deny = method_list-Fresh p.deny [] tt;
}

peers_onto-ArePeers :
    (out : Dict Peer) (raw : Dict (Option RawPeer))
    → ArePeers out
    → NodupKeys out
    → ArePeers (peers_onto out raw) × NodupKeys (peers_onto out raw)
unfolding peers_onto
peers_onto-ArePeers out [] h u = (h, u)
peers_onto-ArePeers out ((name, p) ∷ raw) h u = elim (Bool-cases (is_empty (slug_name name []))) [
  | inl e ↦ rw e (peers_onto-ArePeers out raw h u)
  | inr e ↦
      let key = slug_name name [] in
      rw e (
        peers_onto-ArePeers (insert key (peer_of p) out) raw
          (insert-ArePeers key (peer_of p) out (peer_of-IsPeer name p e) h)
          (insert-NodupKeys key (peer_of p) out u))
]

insert_new :
    (key : Text) (p : Peer) (d : Dict Peer)
    → lookup key d ≡ none
    → insert key p d ≡ d ++ (key, p) ∷ []
unfolding insert lookup
insert_new key p [] h = refl
insert_new key p ((j, q) ∷ d) h = ground (arith, insert_new key p d)

-- No key stands in both.
abbrev Apart : Dict Peer → Dict Peer → Type 0
Apart out [] = Unit
Apart out ((key, p) ∷ d) = (lookup key out ≡ none) × Apart out d

lookup-snoc :
    (k key : Text) (p : Peer) (out : Dict Peer)
    → k ≢ key
    → lookup k out ≡ none
    → lookup k (out ++ (key, p) ∷ []) ≡ none
unfolding lookup
lookup-snoc k key p [] n h = ground arith
lookup-snoc k key p ((j, q) ∷ out) n h = ground (arith, lookup-snoc k key p out n)

Apart-nil : (d : Dict Peer) → Apart [] d
unfolding lookup
Apart-nil [] = tt
Apart-nil ((key, p) ∷ d) = (refl, Apart-nil d)

Apart-snoc :
    (key : Text) (p : Peer) (out d : Dict Peer)
    → lookup key d ≡ none
    → Apart out d
    → Apart (out ++ (key, p) ∷ []) d
unfolding lookup
Apart-snoc key p out [] h a = tt
Apart-snoc key p out ((j, q) ∷ d) h (a, as_) =
    (lookup-snoc j key p out (λ e. ground arith) a, Apart-snoc key p out d (ground arith) as_)

push_peer :
    (key : Text) (p : Peer) (out : Dict Peer)
    → IsPeer key p
    → lookup key out ≡ none
    → (if is_empty (slug_name key [])
        then out
        else insert
            (slug_name key [])
            (record {
              allow = or_default (method_list (raw_list p.allow)) [];
              deny = or_default (method_list (raw_list p.deny)) [];
            })
            out)
      ≡ out ++ (key, p) ∷ []
push_peer key p out h a =
    let named = h.named in
    rw (h.slug, named, method_list_id p.allow [] h.allow, method_list_id p.deny [] h.deny)
      (insert_new key p out a)

peers_onto_id :
    (out d : Dict Peer)
    → ArePeers d
    → NodupKeys d
    → Apart out d
    → peers_onto out (raw_peers d) ≡ out ++ d
unfolding peers_onto
peers_onto_id out [] _ _ _ = sym (append-nil out)
peers_onto_id out ((key, p) ∷ d) (h, hs) (fresh, u) (a, as_) =
    ap (λ (o : Dict Peer). peers_onto o (raw_peers d)) (push_peer key p out h a)
    ∙ peers_onto_id (out ++ (key, p) ∷ []) d hs u (Apart-snoc key p out d fresh as_)
    ∙ append_assoc out ((key, p) ∷ []) d

-- What normalization leaves.
pub record IsNormal (p : Policy) : Type 0 where
  methods : Fresh [] p.methods
  peers : ArePeers p.peers
  pub distinct : NodupKeys p.peers
  pub wait : (1 ≤ p.max_wait_seconds) × (p.max_wait_seconds ≤ 3600)
  pub ttl : (1 ≤ p.command_ttl_seconds) × (p.command_ttl_seconds ≤ 86400)
  pub pending : (1 ≤ p.max_pending) × (p.max_pending ≤ 10000)
  pub stale : p.claim_stale_seconds ≤ 86400
  pub result : (64 ≤ p.max_result_bytes) × (p.max_result_bytes ≤ 67108864)

default_methods-Fresh : Fresh [] default_methods
unfolding method_kind text_eq text_dec trim dsh_link.Common.trim_end dsh_link.Common.trim_start
    dsh_link.Common.is_space lookup
default_methods-Fresh =
    let fact : (x : Text) → trim x ≡ x → is_empty x ≡ false → is_known x ≡ true → IsMethod x =
      λ x a b c. record { trimmed = a; named = b; known = c } in
    (
      fact _ refl refl refl,
      refl,
      (
        fact _ refl refl refl,
        refl,
        (fact _ refl refl refl, refl, (fact _ refl refl refl, refl, tt)),
      ),
    )

pub normalize-IsNormal : (raw : RawConfig) → IsNormal (normalize_capability_config raw)
unfolding normalize_capability_config normalize_section
normalize-IsNormal raw =
    let src = merge raw.capabilities raw.top in
    let peers = peers_onto-ArePeers [] (or_default (absent_as none src.peers) []) tt tt in
    let bounds = λ (o : Option Value). to_int_bounds (absent_as undefined o) in
    record {
      methods =
          method_list-Fresh (absent_as none src.methods) default_methods default_methods-Fresh;
      peers = peers.0;
      distinct = peers.1;
      wait = bounds src.max_wait_seconds 30 1 3600 (omega arith) (omega arith);
      ttl = bounds src.command_ttl_seconds 120 1 86400 (omega arith) (omega arith);
      pending = bounds src.max_pending 50 1 10000 (omega arith) (omega arith);
      stale = (bounds src.claim_stale_seconds 60 0 86400 (omega arith) (omega arith)).1;
      result = bounds src.max_result_bytes 524288 64 67108864 (omega arith) (omega arith);
    }

pub normalize-raw_of : (p : Policy) → IsNormal p → normalize_capability_config (raw_of p) ≡ p
unfolding normalize_capability_config normalize_section flag_bool
normalize-raw_of p n =
    let wait = n.wait in
    let ttl = n.ttl in
    let pending = n.pending in
    let result = n.result in
    rw (
      method_list_id p.methods default_methods n.methods,
      peers_onto_id [] p.peers n.peers n.distinct (Apart-nil p.peers),
      to_int_id p.max_wait_seconds 30 1 3600 wait.0 wait.1,
      to_int_id p.command_ttl_seconds 120 1 86400 ttl.0 ttl.1,
      to_int_id p.max_pending 50 1 10000 pending.0 pending.1,
      to_int_id p.claim_stale_seconds 60 0 86400 (omega arith) n.stale,
      to_int_id p.max_result_bytes 524288 64 67108864 result.0 result.1,
    )

-- Normalizing the result of a normalization changes nothing, whatever the configuration was: so the
-- callers may normalize as often as they like.
pub normalize_capability_config_idempotent :
    (raw : RawConfig)
    → normalize_capability_config (raw_of (normalize_capability_config raw))
      ≡ normalize_capability_config raw
normalize_capability_config_idempotent raw =
    normalize-raw_of (normalize_capability_config raw) (normalize-IsNormal raw)
