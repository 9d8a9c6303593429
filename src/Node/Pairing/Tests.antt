-- ===== src/Node/Pairing/Tests.antt =====
-- Two nodes, `desk` and `lab`, with a stand-in for the hash and for the encoding.
use dsh_link.Common.{
  ℕ, ◌≡◌, refl, Bool, true, false, Option, none, some, List, [], ◌∷◌, ◌++◌, Text, codes, text_eq,
  is_some, inl, if◌then◌else◌, ◌==◌, show_ℕ,
}
use dsh_link.Node.Auth.{verify_token}
use dsh_link.Node.Pairing.{
  NodeConfig, Invite, InviteOptions, ok, build_invite, encode_invite, decode_invite,
}
use dsh_link.Node.Pairing.Entry.{
  AcceptOptions, Paired, peer_entry_from_invite, upsert_peer, peer_named,
}
use dsh_link.Node.Pairing.Laws.{decode_invite-encode_invite, peer_entry_from_invite-build_invite}

abbrev hash : Text → Text
hash s = codes "h" ++ s

abbrev node : Text → NodeConfig
node name = record {
  name = name;
  node_id = codes "node_1";
  bind = codes "0.0.0.0";
  port = 8787;
  public_url = codes "https://example.net/";
  tokens = [];
  peers = [];
  tunnel_enabled = false;
  server_addr = [];
  server_port = 7000;
  user = [];
  visitor_port_base = 19100;
  proxy_name = [];
  secret_key = [];
}

abbrev options : InviteOptions
options = record {
  with_token = true;
  ttl_minutes = 0;
  url = [];
  label = [];
  id = codes "tok_1";
  token = codes "abc";
  software_version = codes "1";
}

abbrev given : AcceptOptions
given = record { name = []; token = []; visitor_port = 19100; today = codes "2026-01-01" }

abbrev invite : Invite
invite = (build_invite hash 5 options (node (codes "lab"))).1

-- An encoding of the name alone, which is enough to tell this invite from others.
abbrev encode : Invite → Text
encode i = i.name

abbrev decode : Text → Option Invite
decode s = if s == codes "lab" then some invite else none

decode_invite-encode_invite_example :
    decode_invite encode decode 9 (encode_invite encode decode invite) ≡ ok invite
unfolding build_invite text_eq dsh_link.Common.is_space
decode_invite-encode_invite_example =
    decode_invite-encode_invite encode decode hash 5 9 options (node (codes "lab")) refl (inl refl)
      refl (refl, (refl, (refl, tt)))

abbrev paired : Paired
paired = record {
  entry = record {
    name = codes "lab";
    url = codes "https://example.net";
    token = codes "abc";
    auto_sync = false;
    note = codes "paired 2026-01-01 invite v1";
    stcp = none;
  };
  warnings = [];
  used_stcp = false;
}

pairs : peer_entry_from_invite 5 (node (codes "desk")) invite given ≡ some (ok paired)
unfolding peer_entry_from_invite build_invite dsh_link.Node.Names.slug_name text_eq
    dsh_link.Common.trim_end dsh_link.Common.trim_start dsh_link.Common.is_space
pairs = refl

peer_entry_from_invite-build_invite_example :
    let host = (build_invite hash 5 options (node (codes "lab"))).0 in
    ((codes "lab" == codes "desk") ≡ false)
    × ((name : Text)
        → peer_named name (upsert_peer paired.entry [])
          ≡ (if codes "lab" == name then some paired.entry else none))
    × (is_some (verify_token hash host.tokens (codes "abc")) ≡ true)
peer_entry_from_invite-build_invite_example =
    peer_entry_from_invite-build_invite hash 5 options (node (codes "lab")) (node (codes "desk")) 5
      given paired refl refl refl refl pairs
