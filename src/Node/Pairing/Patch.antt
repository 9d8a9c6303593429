-- ===== src/Node/Pairing/Patch.antt =====
-- src/pairing.mjs: the items that the installer writes into the profile of DSH, and the quoting of a
-- path in them.
use dsh_link.Common.{
  ℕ, ◌≡◌, ◌∙◌, refl, ap, Bool, true, false, ◌||◌, Option, none, some, [], ◌∷◌, ◌++◌, Text, arith,
}
use mathlib.Core.List.{append_assoc}
use dsh_link.Common.{if◌then◌else◌, codes, eqb, show_ℕ, join, Bool-cases, inl, inr}

-- The escapes of `yamlPath`: a backslash stands before a backslash and before a quote.
unfoldable pub escape : Text → Text
escape [] = []
escape (c ∷ s) = if eqb c 92 || eqb c 34 then 92 ∷ (c ∷ escape s) else c ∷ escape s

-- `yamlPath`
unfoldable pub yaml_path : Text → Text
unfolding escape
yaml_path value = codes "\"" ++ escape value ++ codes "\""

-- `mcpEntry`
unfoldable pub mcp_entry : Text → Text → Text
unfolding join
mcp_entry url server_name = join 10 (
    codes "- insert:"
    ∷ codes "    - id: mcp-dshlink"
    ∷ codes "      name: '@deepseek-ai/dsh-mcp-client'"
    ∷ codes "      config:"
    ∷ (codes "        serverName: " ++ server_name)
    ∷ codes "        transport: streamable-http"
    ∷ (codes "        url: " ++ url)
    ∷ codes "        toolCallTimeoutMs: 120000"
    ∷ [])

pub record BridgeItem : Type 0 where
  pub workspace_path : Text
  pub node_url : Text
  pub session_id : Text
  pub poll_seconds : ℕ
  pub cooldown_seconds : ℕ

-- `bridgeItem`
unfoldable pub bridge_item : BridgeItem → Text
unfolding yaml_path show_ℕ join
bridge_item b = join 10 (
    codes "    - id: dsh-link-bridge"
    ∷ codes "      name: dsh-link-bridge"
    ∷ codes "      config:"
    ∷ codes "        enabled: true"
    ∷ (codes "        nodeUrl: " ++ b.node_url)
    ∷ (codes "        workspacePath: " ++ yaml_path b.workspace_path)
    ∷ (codes "        sessionId: " ++ yaml_path b.session_id)
    ∷ (codes "        pollSeconds: " ++ show_ℕ b.poll_seconds)
    ∷ (codes "        cooldownSeconds: " ++ show_ℕ b.cooldown_seconds)
    ∷ [])

-- `bridgeBlock`
unfoldable pub bridge_block : Text → Text
bridge_block item = codes "- insert:\n" ++ item

-- Reading a double-quoted scalar behind its first quote, up to the quote that ends it: the text and
-- what follows. A backslash makes the next character stand for itself. (YAML has other escapes, which
-- `yamlPath` does not write.)
abbrev pub with_unit : ℕ → Option (Text × Text) → Option (Text × Text)
with_unit c none = none
with_unit c (some (read, rest)) = some (c ∷ read, rest)

unfoldable pub read_quoted : Bool → Text → Option (Text × Text)
read_quoted escaped [] = none
read_quoted true (c ∷ s) = with_unit c (read_quoted false s)
read_quoted false (c ∷ s) =
    let plain = with_unit c (read_quoted false s) in
    let next = read_quoted true s in
    if eqb c 34 then some ([], s) else if eqb c 92 then next else plain

plain_unit :
    (c : ℕ) (s : Text)
    → (eqb c 92 || eqb c 34) ≡ false
    → read_quoted false (c ∷ s) ≡ with_unit c (read_quoted false s)
unfolding read_quoted
plain_unit c s e = ground arith

read_quoted-escape : (s rest : Text) → read_quoted false (escape s ++ (34 ∷ rest)) ≡ some (s, rest)
unfolding read_quoted escape
read_quoted-escape [] rest = refl
read_quoted-escape (c ∷ s) rest = elim (Bool-cases (eqb c 92 || eqb c 34)) [
  | inl e ↦ rw e (ap (with_unit c) (read_quoted-escape s rest))
  | inr e ↦
      rw e (plain_unit c (escape s ++ (34 ∷ rest)) e ∙ ap (with_unit c) (read_quoted-escape s rest))
]

abbrev pub read_scalar : Text → Option (Text × Text)
read_scalar [] = none
read_scalar (c ∷ s) = if eqb c 34 then read_quoted false s else none

-- A path that is written as a quoted scalar is read back, whatever it holds, and what follows stays.
pub read_scalar-yaml_path :
    (value rest : Text) → read_scalar (yaml_path value ++ rest) ≡ some (value, rest)
unfolding yaml_path
read_scalar-yaml_path value rest =
    ap (read_quoted false) (append_assoc (escape value) (34 ∷ []) rest)
    ∙ read_quoted-escape value rest
