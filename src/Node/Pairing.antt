-- ===== src/Node/Pairing.antt =====
-- src/pairing.mjs: an invite and its code. JSON with base64url and SHA-256 are parameters; ids, tokens
-- and times are arguments. The empty text is no text, a port that is 0 is not set.
pub mod Entry
pub mod Laws
pub mod Patch
mod Tests
use dsh_link.Common.{
  ℕ, ◌+◌, ◌*◌, Bool, true, false, not, ◌&&◌, ◌||◌, Option, none, some, List, [], ◌∷◌, ◌++◌, map,
  Text, text_eq, ◌==◌,
}
use dsh_link.Common.{
  is_empty, if◌then◌else◌, any, ltb, eqb, trim, after_prefix, has_unit, take, codes, or_text,
  or_default, show_ℕ,
}
use dsh_link.Node.Names.{slug_name}
use dsh_link.Node.Auth.{TokenEntry, create_inbound_token}
use dsh_link.Node.Ports.{allocate_visitor_port}

pub record Stcp : Type 0 where
  pub server_name : Text
  pub secret_key : Text
  pub visitor_port : ℕ

pub record PeerEntry : Type 0 where
  pub name : Text
  pub url : Text
  pub token : Text
  pub auto_sync : Bool
  pub note : Text
  pub stcp : Option Stcp

-- What pairing reads of the configuration of a node.
pub record NodeConfig : Type 0 where
  pub name : Text
  pub node_id : Text
  pub bind : Text
  pub port : ℕ
  pub public_url : Text
  pub tokens : List TokenEntry
  pub peers : List PeerEntry
  pub tunnel_enabled : Bool
  pub server_addr : Text
  pub server_port : ℕ
  pub user : Text
  pub visitor_port_base : ℕ
  pub proxy_name : Text
  pub secret_key : Text

pub record Share : Type 0 where
  pub proxy_name : Text
  pub secret_key : Text
  pub server_addr : Text
  pub server_port : ℕ
  pub user : Text

pub record Invite : Type 0 where
  pub v : ℕ
  pub kind : Text
  pub name : Text
  pub node_id : Text
  pub urls : List Text
  pub token : Text
  pub token_id : Text
  pub stcp : Option Share
  pub expires_at : Option ℕ
  pub software_version : Text

-- `localUrlOf`
unfoldable pub local_url_of : NodeConfig → Text
unfolding has_unit show_ℕ
local_url_of cfg =
    let host =
      if cfg.bind == codes "0.0.0.0" || cfg.bind == codes "::"
      then codes "127.0.0.1"
      else cfg.bind in
    codes "http://"
    ++ (if has_unit b':' host then codes "[" ++ host ++ codes "]" else host)
    ++ codes ":"
    ++ show_ℕ cfg.port

-- `stcpShareOf`
unfoldable pub stcp_share_of : NodeConfig → Option Share
stcp_share_of cfg =
    if not cfg.tunnel_enabled || is_empty cfg.server_addr || is_empty cfg.secret_key
    then none
    else some (record {
      proxy_name = cfg.proxy_name;
      secret_key = cfg.secret_key;
      server_addr = cfg.server_addr;
      server_port = cfg.server_port;
      user = or_text cfg.user (codes "dsh-link");
    })

-- `s.replace(/\/+$/, '')`
unfoldable pub strip_slashes : Text → Text
strip_slashes [] = []
strip_slashes (c ∷ s) =
    let rest = strip_slashes s in if is_empty rest && eqb c b'/' then [] else c ∷ rest

-- `push` of the addresses of an invite.
abbrev pub push_url : Text → List Text → List Text
push_url value urls =
    let clean = strip_slashes value in
    if is_empty value || any (λ u. u == clean) urls then urls else urls ++ clean ∷ []

-- What `buildInvite` is given, with the id and the token that it would make.
pub record InviteOptions : Type 0 where
  pub with_token : Bool
  pub ttl_minutes : ℕ
  pub url : Text
  pub label : Text
  pub id : Text
  pub token : Text
  pub software_version : Text

-- `buildInvite`, at a time: the configuration with the token, and the invite.
unfoldable pub build_invite : (Text → Text) → ℕ → InviteOptions → NodeConfig → NodeConfig × Invite
unfolding create_inbound_token local_url_of stcp_share_of strip_slashes
build_invite sha256_hex now o cfg =
    let label = or_text o.label (codes "invite:" ++ cfg.name) in
    let urls = push_url (local_url_of cfg) (push_url cfg.public_url (push_url o.url [])) in
    (
      if o.with_token
          then record cfg { tokens = create_inbound_token sha256_hex o.id o.token label cfg.tokens }
          else cfg,
      record {
        v = 1;
        kind = codes "dshlink-invite";
        name = cfg.name;
        node_id = cfg.node_id;
        urls = urls;
        token = if o.with_token then o.token else [];
        token_id = if o.with_token then o.id else [];
        stcp = stcp_share_of cfg;
        expires_at = if ltb 0 o.ttl_minutes then some (now + o.ttl_minutes * 60000) else none;
        software_version = o.software_version;
      },
    )

-- Why a code or an invite is refused.
pub data Refusal : Type 0 where
  no_code not_valid not_invite unsupported_version no_name invite_expired own_invite no_address :
      Refusal

pub data Result {ℓ} (A : Type ℓ) : Type ℓ where
  ok : A → Result A
  err : Refusal → Result A

abbrev is_over : ℕ → Option ℕ → Bool
is_over now none = false
is_over now (some at) = ltb at now

-- The checks of `decodeInvite` on what was parsed.
abbrev pub check_invite : ℕ → Option Invite → Result Invite
check_invite now none = err not_valid
check_invite now (some i) =
    if not (i.kind == codes "dshlink-invite")
    then err not_invite
    else if not (eqb i.v 1)
    then err unsupported_version
    else if is_empty i.name
    then err no_name
    else if is_over now i.expires_at
    then err invite_expired
    else ok i

-- `INVITE_PREFIX`
abbrev pub invite_prefix : Text
invite_prefix = codes "dshlink1:"

module _ (encode : Invite → Text) (decode : Text → Option Invite) where
  -- `encodeInvite`
  unfoldable pub encode_invite : Invite → Text
  encode_invite invite = invite_prefix ++ encode invite

  -- `decodeInvite`, at a time.
  unfoldable pub decode_invite : ℕ → Text → Result Invite
  unfolding trim after_prefix
  decode_invite now code =
      let text = trim code in
      if is_empty text
      then err no_code
      else check_invite now (decode (or_default (after_prefix invite_prefix text) text))
