-- ===== src/Node/Pairing/Laws.antt =====
-- src/pairing.mjs: an invite that is made is read, and the peer that is made of it is let in.
use dsh_link.Common.{
  ℕ, ◌+◌, ◌*◌, ◌≤◌, ◌⊎◌, ◌≡◌, refl, true, false, Option, none, some, List, [], ◌∷◌, ◌++◌, Text,
  text_eq, ◌==◌,
}
use dsh_link.Common.{
  is_empty, if◌then◌else◌, ltb, trim, trim_start, trim_end, is_space, codes, or_text, is_some, All,
  Bool-cases, inl, inr, arith,
}
use dsh_link.Node.Names.{slug_name}
use dsh_link.Node.Auth.{verify_token}
use dsh_link.Node.Auth.Sealing.{verify_token-create_inbound_token}
use dsh_link.Node.Pairing.{
  PeerEntry, NodeConfig, Invite, InviteOptions, ok, build_invite, check_invite, encode_invite,
  decode_invite, invite_prefix,
}
use dsh_link.Node.Pairing.Entry.{
  AcceptOptions, Paired, peer_entry_from_invite, upsert_peer, peer_named, entry_of, reach, share_of,
  paired_at, port_for, Reach,
}

-- A text in which no space stands.
abbrev pub IsSolid : Text → Type 0
IsSolid = All (λ c. is_space c ≡ false)

trim_end-solid : (s : Text) → IsSolid s → trim_end s ≡ s
unfolding trim_end
trim_end-solid [] h = refl
trim_end-solid (c ∷ s) (h, hs) = rw (h, trim_end-solid s hs) (ground arith)

trim-solid : (s : Text) → IsSolid s → trim s ≡ s
unfolding trim trim_start
trim-solid [] h = trim_end-solid [] tt
trim-solid (c ∷ s) (h, hs) = rw h (trim_end-solid (c ∷ s) (h, hs))

prefix-IsSolid : (s : Text) → IsSolid s → IsSolid (invite_prefix ++ s)
unfolding is_space
prefix-IsSolid s h = (refl, (refl, (refl, (refl, (refl, (refl, (refl, (refl, (refl, h)))))))))

check_invite-build_invite :
    (sha256_hex : Text → Text) (now later : ℕ) (o : InviteOptions) (cfg : NodeConfig)
    → is_empty cfg.name ≡ false
    → (o.ttl_minutes ≡ 0 ⊎ later ≤ now + o.ttl_minutes * 60000)
    → check_invite later (some (build_invite sha256_hex now o cfg).1)
      ≡ ok (build_invite sha256_hex now o cfg).1
unfolding build_invite text_eq
check_invite-build_invite sha256_hex now later o cfg named (inl e) = rw (named, e) refl
check_invite-build_invite sha256_hex now later o cfg named (inr e) =
    elim (Bool-cases (ltb 0 o.ttl_minutes)) [
      | inl g ↦
          let over : ltb (now + o.ttl_minutes * 60000) later ≡ false = ground arith in
          rw (named, g, over) refl
      | inr g ↦ rw (named, g) refl
    ]

-- An invite is read from its code as it was made, before it expires, where the node has a name, where
-- decoding undoes the encoding of the invite, and where no space stands in what is encoded.
pub decode_invite-encode_invite :
    (encode : Invite → Text) (decode : Text → Option Invite) (sha256_hex : Text → Text)
    (now later : ℕ) (o : InviteOptions) (cfg : NodeConfig)
    → is_empty cfg.name ≡ false
    → (o.ttl_minutes ≡ 0 ⊎ later ≤ now + o.ttl_minutes * 60000)
    → let i = (build_invite sha256_hex now o cfg).1 in
      decode (encode i) ≡ some i
      → IsSolid (encode i)
      → decode_invite encode decode later (encode_invite encode decode i) ≡ ok i
unfolding decode_invite encode_invite
decode_invite-encode_invite encode decode sha256_hex now later o cfg named fresh again solid =
    let i = (build_invite sha256_hex now o cfg).1 in
    rw (trim-solid (invite_prefix ++ encode i) (prefix-IsSolid (encode i) solid), again)
      (check_invite-build_invite sha256_hex now later o cfg named fresh)

entry_of-token :
    (a : AcceptOptions) (name : Text) (i : Invite) (r : Reach) (p : Paired)
    → entry_of a name i r ≡ ok p
    → (p.entry.name ≡ name) × (p.entry.token ≡ or_text a.token i.token)
entry_of-token a name i r p h = ground arith

paired_at-token :
    (cfg : NodeConfig) (a : AcceptOptions) (name : Text) (i : Invite) (port : Option ℕ) (p : Paired)
    → paired_at cfg a name i port ≡ some (ok p)
    → (p.entry.name ≡ name) × (p.entry.token ≡ or_text a.token i.token)
paired_at-token cfg a name i none p h = absurd (ground arith)
paired_at-token cfg a name i (some port) p h =
    entry_of-token a name i (reach cfg i port (share_of i)) p (ground arith)

peer_entry_from_invite-token :
    (fuel : ℕ) (cfg : NodeConfig) (i : Invite) (a : AcceptOptions) (p : Paired)
    → peer_entry_from_invite fuel cfg i a ≡ some (ok p)
    → ((p.entry.name == cfg.name) ≡ false) × (p.entry.token ≡ or_text a.token i.token)
unfolding peer_entry_from_invite
peer_entry_from_invite-token fuel cfg i a p h =
    let name = slug_name (or_text a.name i.name) (codes "node") in
    ground (arith, paired_at-token cfg a name i (port_for fuel cfg a.visitor_port) p)

peer_named-upsert_peer :
    (entry : PeerEntry) (peers : List PeerEntry) (name : Text)
    → peer_named name (upsert_peer entry peers)
      ≡ (if entry.name == name then some entry else peer_named name peers)
unfolding upsert_peer
peer_named-upsert_peer entry [] name = refl
peer_named-upsert_peer entry (p ∷ peers) name =
    ground (arith, peer_named-upsert_peer entry peers name)

-- A node that takes an invite with a token, and gives no other token, has the other node as a peer
-- under a name that is not its own, keeps its other peers, and presents a token that lets it in there;
-- where the token and its hash are not empty.
pub peer_entry_from_invite-build_invite :
    (sha256_hex : Text → Text) (now : ℕ) (o : InviteOptions) (host guest : NodeConfig) (fuel : ℕ)
    (a : AcceptOptions) (p : Paired)
    → o.with_token ≡ true
    → is_empty o.token ≡ false
    → is_empty (sha256_hex o.token) ≡ false
    → a.token ≡ []
    → peer_entry_from_invite fuel guest (build_invite sha256_hex now o host).1 a ≡ some (ok p)
    → ((p.entry.name == guest.name) ≡ false)
      × ((name : Text)
          → peer_named name (upsert_peer p.entry guest.peers)
            ≡ (if p.entry.name == name then some p.entry else peer_named name guest.peers))
      × (is_some
            (verify_token sha256_hex (build_invite sha256_hex now o host).0.tokens p.entry.token)
          ≡ true)
unfolding build_invite
peer_entry_from_invite-build_invite sha256_hex now o host guest fuel a p w t d g h =
    let (other, same) =
      peer_entry_from_invite-token fuel guest (build_invite sha256_hex now o host).1 a p h in
    let label = or_text o.label (codes "invite:" ++ host.name) in
    (
      other,
      peer_named-upsert_peer p.entry guest.peers,
      rw (same, g, w)
          (verify_token-create_inbound_token sha256_hex o.id o.token label host.tokens t d),
    )
