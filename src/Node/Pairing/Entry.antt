-- ===== src/Node/Pairing/Entry.antt =====
-- src/pairing.mjs: the peer that a node makes of the invite of another. The date is an argument. The
-- empty text is no text, a port that is 0 is not set.
use dsh_link.Common.{
  ℕ, Bool, true, false, not, ◌&&◌, ◌||◌, Option, none, some, List, [], ◌∷◌, ◌++◌, map, Text,
  text_eq, ◌==◌,
}
use dsh_link.Common.{is_empty, if◌then◌else◌, eqb, codes, or_text, show_ℕ}
use dsh_link.Node.Names.{slug_name}
use dsh_link.Node.Ports.{allocate_visitor_port}
use dsh_link.Node.Pairing.{
  Stcp, PeerEntry, NodeConfig, Share, Invite, Result, ok, err, no_name, own_invite, no_address,
  strip_slashes,
}

abbrev port_peer : PeerEntry → dsh_link.Node.Ports.Peer
port_peer p = record {
  name = p.name;
  url = some p.url;
  server_name = elim p.stcp [ none ↦ [] | some s ↦ s.server_name ];
  secret_key = elim p.stcp [ none ↦ [] | some s ↦ s.secret_key ];
  visitor_port = elim p.stcp [ none ↦ 0 | some s ↦ s.visitor_port ];
}

-- What `peerEntryFromInvite` is given beside the invite, with the date of the note.
pub record AcceptOptions : Type 0 where
  pub name : Text
  pub token : Text
  pub visitor_port : ℕ
  pub today : Text

pub data Warning : Type 0 where
  other_server no_tunnel no_token : Warning

pub record Paired : Type 0 where
  pub entry : PeerEntry
  pub warnings : List Warning
  pub used_stcp : Bool

-- `noteFor`
abbrev pub note_for : Text → Invite → Text
note_for today i =
    codes "paired "
    ++ today
    ++ (if is_empty i.software_version then [] else codes " invite v" ++ i.software_version)

abbrev pub share_of : Invite → Option Share
share_of i = elim i.stcp [
  | none ↦ none
  | some s ↦ if is_empty s.proxy_name || is_empty s.secret_key then none else some s
]

abbrev visitor_url : ℕ → Text
visitor_url port = codes "http://127.0.0.1:" ++ show_ℕ port

abbrev first_url : List Text → Text → Text
first_url [] other = other
first_url (u ∷ urls) other = u

abbrev pub same_server : NodeConfig → Share → Bool
same_server cfg s =
    cfg.tunnel_enabled
    && not (is_empty cfg.server_addr)
    && cfg.server_addr == s.server_addr
    && eqb cfg.server_port s.server_port

-- The address, the warnings and the STCP block, of the share of the invite and the port.
pub record Reach : Type 0 where
  pub url : Text
  pub warnings : List Warning
  pub used_stcp : Bool
  pub stcp : Option Stcp

abbrev pub reach : NodeConfig → Invite → ℕ → Option Share → Reach
reach cfg i port none = record {
  url = first_url i.urls [];
  warnings = [];
  used_stcp = false;
  stcp = none;
}
reach cfg i port (some s) =
    let stcp : Stcp = record {
      server_name = s.proxy_name;
      secret_key = s.secret_key;
      visitor_port = port;
    } in
    if same_server cfg s
    then record { url = visitor_url port; warnings = []; used_stcp = true; stcp = some stcp }
    else record {
      url = first_url i.urls (visitor_url port);
      warnings = (if cfg.tunnel_enabled then other_server else no_tunnel) ∷ [];
      used_stcp = false;
      stcp = some stcp;
    }

abbrev pub entry_of : AcceptOptions → Text → Invite → Reach → Result Paired
entry_of o peer_name i r =
    let token = or_text o.token i.token in
    if is_empty r.url
    then err no_address
    else ok (record {
      entry = record {
        name = peer_name;
        url = strip_slashes r.url;
        token = token;
        auto_sync = false;
        note = note_for o.today i;
        stcp = r.stcp;
      };
      warnings = r.warnings ++ (if is_empty token then no_token ∷ [] else []);
      used_stcp = r.used_stcp;
    })

abbrev pub paired_at :
    NodeConfig → AcceptOptions → Text → Invite → Option ℕ → Option (Result Paired)
paired_at cfg o peer_name i none = none
paired_at cfg o peer_name i (some port) =
    some (entry_of o peer_name i (reach cfg i port (share_of i)))

-- The port of the visitor: the one that is given, or the one that `allocateVisitorPort` finds.
abbrev pub port_for : ℕ → NodeConfig → ℕ → Option ℕ
port_for fuel cfg given =
    if eqb given 0
    then allocate_visitor_port fuel (map port_peer cfg.peers) cfg.port cfg.visitor_port_base
    else some given

-- `peerEntryFromInvite`; `none` if the fuel for the port does not do.
unfoldable pub peer_entry_from_invite :
    ℕ → NodeConfig → Invite → AcceptOptions → Option (Result Paired)
unfolding slug_name show_ℕ strip_slashes allocate_visitor_port
peer_entry_from_invite fuel cfg i o =
    let peer_name = slug_name (or_text o.name i.name) (codes "node") in
    if is_empty peer_name
    then some (err no_name)
    else if peer_name == cfg.name
    then some (err own_invite)
    else paired_at cfg o peer_name i (port_for fuel cfg o.visitor_port)

-- `upsertPeer`, of the peers: an entry that is there is replaced in its place.
unfoldable pub upsert_peer : PeerEntry → List PeerEntry → List PeerEntry
upsert_peer entry [] = entry ∷ []
upsert_peer entry (p ∷ peers) =
    let rest = upsert_peer entry peers in if p.name == entry.name then entry ∷ peers else p ∷ rest

-- The peer of a name.
abbrev pub peer_named : Text → List PeerEntry → Option PeerEntry
peer_named name [] = none
peer_named name (p ∷ peers) = if p.name == name then some p else peer_named name peers
