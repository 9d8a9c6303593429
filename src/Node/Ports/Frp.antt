-- ===== src/Node/Ports/Frp.antt =====
-- src/tunnel.mjs: `frpConfigToml`. `JSON.stringify` of a text and `path.join` are parameters; the time
-- is an argument. The empty text is no text.
use dsh_link.Common.{ℕ, Bool, ◌||◌, List, [], ◌∷◌, ◌++◌, Text, text_eq, ◌==◌}
use dsh_link.Common.{is_empty, if◌then◌else◌, codes, or_text, show_ℕ, join}
use dsh_link.Node.Ports.{Peer, Visitor, visitors_for}

-- What the text is made of.
pub record TunnelConfig : Type 0 where
  pub name : Text
  pub port : ℕ
  pub log_dir : Text
  pub server_addr : Text
  pub server_port : ℕ
  pub user : Text
  pub token : Text
  pub tls : Bool
  pub admin_port : ℕ
  pub proxy_name : Text
  pub secret_key : Text
  pub peers : List Peer

pub data Refusal : Type 0 where
  no_server no_identity : Refusal

pub data Result {ℓ} (A : Type ℓ) : Type ℓ where
  ok : A → Result A
  err : Refusal → Result A

module _ (quote : Text → Text) (join_path : Text → Text → Text) where
  -- The lines of one visitor.
  unfoldable pub visitor_lines : Visitor → List Text
  unfolding show_ℕ
  visitor_lines v =
      codes "[[visitors]]"
      ∷ (codes "name = " ++ quote (codes "to-" ++ v.peer))
      ∷ codes "type = \"stcp\""
      ∷ (codes "serverName = " ++ quote v.server_name)
      ∷ ((if is_empty v.secret_key then [] else (codes "secretKey = " ++ quote v.secret_key) ∷ [])
          ++ codes "bindAddr = \"127.0.0.1\""
            ∷ (codes "bindPort = " ++ show_ℕ v.bind_port)
            ∷ codes "transport.useEncryption = true"
            ∷ codes "transport.useCompression = false"
            ∷ []
            ∷ [])

  -- The loop over the visitors.
  unfoldable pub all_visitor_lines : List Visitor → List Text
  unfolding visitor_lines
  all_visitor_lines [] = []
  all_visitor_lines (v ∷ visitors) = visitor_lines v ++ all_visitor_lines visitors

  abbrev pub visitor_part : List Visitor → List Text
  visitor_part [] = []
  visitor_part (v ∷ visitors) =
      []
      ∷ codes "# --- visitors: local ports that reach a peer through frps ---"
      ∷ all_visitor_lines (v ∷ visitors)

  abbrev auth_lines : Text → List Text
  auth_lines token =
      if is_empty token
      then codes "# auth.token is unset (frps must accept anonymous clients)"
        ∷ codes "auth.method = \"token\""
        ∷ []
      else codes "auth.method = \"token\""
        ∷ (codes "auth.token = " ++ quote token)
        ∷ codes "auth.additionalScopes = [\"HeartBeats\", \"NewWorkConns\"]"
        ∷ []

  -- `[...new Set([user, 'dsh-link'])]`
  abbrev allowed_users : Text → Text
  allowed_users user =
      if user == codes "dsh-link"
      then quote user
      else quote user ++ codes ", " ++ quote (codes "dsh-link")

  -- The lines before the visitors.
  abbrev pub head_lines : Text → TunnelConfig → List Text
  head_lines now c =
      let user = or_text c.user (codes "dsh-link") in
      codes "# frpc.toml — generated by dsh-link. Edit dshlink.config.json instead of this file."
      ∷ (codes "# node: " ++ c.name ++ codes "  generated: " ++ now)
      ∷ []
      ∷ (codes "serverAddr = " ++ quote c.server_addr)
      ∷ (codes "serverPort = " ++ show_ℕ c.server_port)
      ∷ []
      ∷ (codes "user = " ++ quote user)
      ∷ codes "loginFailExit = false"
      ∷ []
      ∷ (auth_lines c.token
          ++ (codes "transport.tls.enable = " ++ (if c.tls then codes "true" else codes "false"))
            ∷ []
            ∷ codes "webServer.addr = \"127.0.0.1\""
            ∷ (codes "webServer.port = " ++ show_ℕ c.admin_port)
            ∷ codes "webServer.pprofEnable = false"
            ∷ []
            ∷ (codes "log.to = " ++ quote (join_path c.log_dir (codes "frpc.log")))
            ∷ codes "log.level = \"info\""
            ∷ codes "log.maxDays = 7"
            ∷ []
            ∷ codes "# --- provider: publish this node's dsh-link HTTP API privately ---"
            ∷ codes "[[proxies]]"
            ∷ (codes "name = " ++ quote c.proxy_name)
            ∷ codes "type = \"stcp\""
            ∷ (codes "secretKey = " ++ quote c.secret_key)
            ∷ (codes "allowUsers = [" ++ allowed_users user ++ codes "]")
            ∷ codes "localIP = \"127.0.0.1\""
            ∷ (codes "localPort = " ++ show_ℕ c.port)
            ∷ codes "transport.useEncryption = true"
            ∷ codes "transport.useCompression = false"
            ∷ [])

  -- `frpConfigToml`
  unfoldable pub frp_config_toml : Text → TunnelConfig → Result Text
  unfolding all_visitor_lines visitors_for show_ℕ join
  frp_config_toml now c =
      if is_empty c.server_addr
      then err no_server
      else if is_empty c.proxy_name || is_empty c.secret_key
      then err no_identity
      else ok (join 10 (head_lines now c ++ visitor_part (visitors_for c.peers)))
