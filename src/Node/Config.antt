-- ===== src/Node/Config.antt =====
-- src/config.mjs: a file root as it is given, the peers of a name, and what a node tells of itself.
-- `path.resolve` and `expandEnv` are one parameter.
mod Tests
use dsh_link.Common.{
  ℕ, zero, suc, ◌+◌, ◌-◌, ◌≡◌, refl, Bool, true, false, not, ◌&&◌, ◌||◌, Option, none, some, List,
  [], ◌∷◌, ◌++◌, map, Text, text_eq, ◌==◌, arith,
}
use dsh_link.Common.{
  is_empty, if◌then◌else◌, codes, eqb, to_lower, or_default, Bool-cases, inl, inr,
}
use dsh_link.Common.Values.{Value, is_false, is_true}
use dsh_link.Node.Names.{slug_name}

pub data RootKind : Type 0 where
  workspaces_root dir_root unnamed_kind : RootKind

-- A root of the configuration; the path of one over the workspaces is empty.
pub record FileRoot : Type 0 where
  pub name : Text
  pub kind : RootKind
  pub path : Text
  pub read : Bool
  pub write : Bool

-- A root as it is given: a text, an object, or another value. The empty text is no text.
pub data RawRoot : Type 0 where
  spec : Text → RawRoot
  object : Text → Text → Text → Value → Value → RawRoot
  other_value : RawRoot

-- The text before the first `=` and behind it.
unfoldable pub at_equals : Text → Option (Text × Text)
at_equals [] = none
at_equals (c ∷ s) = elim (at_equals s) [
  | none ↦ if eqb c b'=' then some ([], s) else none
  | some (a, b) ↦ if eqb c b'=' then some ([], s) else some (c ∷ a, b)
]

-- The modes of `/:(rw|ro|none|read|write)$/i`.
abbrev pub is_mode : Text → Bool
is_mode m =
    m == codes "rw"
    || m == codes "ro"
    || m == codes "none"
    || m == codes "read"
    || m == codes "write"

-- The path before the mode and the mode; the empty text for none.
unfoldable pub split_mode : Text → Text × Text
unfolding to_lower
split_mode [] = ([], [])
split_mode (c ∷ s) =
    let (path, mode) = split_mode s in
    if eqb c b':' && is_mode (to_lower s) then ([], to_lower s) else (c ∷ path, mode)

module _ (resolve_path : Text → Text) where
  abbrev of_spec : Option (Text × Text) → Option FileRoot
  of_spec none = none
  of_spec (some (name, rest)) =
      let (path, mode) = split_mode rest in
      if is_empty name || is_empty path
      then none
      else some (record {
        name = slug_name name (codes "node");
        kind = unnamed_kind;
        path = resolve_path path;
        read = not (mode == codes "none");
        write = mode == codes "rw" || mode == codes "write";
      })

  abbrev is_workspaces : Text → Bool
  is_workspaces kind = kind == codes "workspaces" || kind == codes "dsh-workspaces"

  -- `normalizeRoot`; `none` where it throws.
  unfoldable pub normalize_root : RawRoot → Option FileRoot
  unfolding at_equals split_mode slug_name
  normalize_root other_value = none
  normalize_root (spec s) = of_spec (at_equals s)
  normalize_root (object name kind path read write) =
      if is_workspaces kind
      then (if is_empty name
          then none
          else some (record {
            name = slug_name name (codes "node");
            kind = workspaces_root;
            path = [];
            read = not (is_false read);
            write = is_true write;
          }))
      else if is_empty name || is_empty path
      then none
      else some (record {
        name = slug_name name (codes "node");
        kind = dir_root;
        path = resolve_path path;
        read = not (is_false read);
        write = is_true write;
      })

-- A peer of the configuration, as far as it is told.
pub record ConfigPeer : Type 0 where
  pub name : Text
  pub url : Text
  pub token : Text

abbrev named : Text → List ConfigPeer → Option ConfigPeer
named wanted [] = none
named wanted (p ∷ peers) = if p.name == wanted then some p else named wanted peers

-- `findPeer`
unfoldable pub find_peer : List ConfigPeer → Text → Option ConfigPeer
unfolding slug_name
find_peer peers name = named (slug_name name (codes "node")) peers

-- What `publicInfo` reads of the configuration.
pub record Known : Type 0 where
  pub name : Text
  pub node_id : Text
  pub public_url : Text
  pub roots : List FileRoot
  pub dsh_enabled : Bool
  pub expose_workspaces : Bool
  pub expose_transcripts : Bool
  pub capabilities_enabled : Bool
  pub methods : List Text
  pub allow_upload : Bool
  pub relay : Bool
  pub peers : List ConfigPeer

pub record RootInfo : Type 0 where
  pub name : Text
  pub is_workspaces : Bool
  pub read : Bool
  pub write : Bool

pub record PeerInfo : Type 0 where
  pub name : Text
  pub url : Text
  pub has_token : Bool

-- What a node tells of itself.
pub record Info : Type 0 where
  pub name : Text
  pub node_id : Text
  pub public_url : Text
  pub roots : List RootInfo
  pub dsh_enabled : Bool
  pub workspaces : Bool
  pub transcripts : Bool
  pub capabilities_enabled : Bool
  pub methods : List Text
  pub allow_upload : Bool
  pub relay : Bool
  pub peers : List PeerInfo

abbrev is_workspaces_kind : RootKind → Bool
is_workspaces_kind workspaces_root = true
is_workspaces_kind _ = false

abbrev root_info : FileRoot → RootInfo
root_info r = record {
  name = r.name;
  is_workspaces = is_workspaces_kind r.kind;
  read = r.read;
  write = r.write;
}

abbrev peer_info : ConfigPeer → PeerInfo
peer_info p = record { name = p.name; url = p.url; has_token = not (is_empty p.token) }

-- `publicInfo`
unfoldable pub public_info : Known → Info
public_info cfg = record {
  name = cfg.name;
  node_id = cfg.node_id;
  public_url = cfg.public_url;
  roots = map root_info cfg.roots;
  dsh_enabled = cfg.dsh_enabled;
  workspaces = cfg.dsh_enabled && cfg.expose_workspaces;
  transcripts = cfg.dsh_enabled && cfg.expose_transcripts;
  capabilities_enabled = cfg.capabilities_enabled;
  methods = if cfg.capabilities_enabled then cfg.methods else [];
  allow_upload = cfg.allow_upload;
  relay = cfg.relay;
  peers = map peer_info cfg.peers;
}

-- Tokens and paths aside, what another node can be told.
abbrev hide_peer : ConfigPeer → ConfigPeer
hide_peer p = record p { token = if is_empty p.token then [] else codes "x" }

abbrev hide_root : FileRoot → FileRoot
hide_root r = record r { path = [] }

map-peer_info :
    (peers : List ConfigPeer) → map peer_info (map hide_peer peers) ≡ map peer_info peers
map-peer_info [] = refl
map-peer_info (p ∷ peers) = ground (arith, map-peer_info peers)

map-root_info : (roots : List FileRoot) → map root_info (map hide_root roots) ≡ map root_info roots
map-root_info [] = refl
map-root_info (r ∷ roots) = rw (map-root_info roots) refl

-- What a node tells of itself does not depend on what the tokens of its peers are, or on where its roots
-- lie: with every token replaced by one and the same, and every path left out, it is the same.
pub public_info-hidden :
    (cfg : Known)
    → public_info (record cfg { peers = map hide_peer cfg.peers; roots = map hide_root cfg.roots })
      ≡ public_info cfg
unfolding public_info
public_info-hidden cfg = rw (map-peer_info cfg.peers, map-root_info cfg.roots) refl
