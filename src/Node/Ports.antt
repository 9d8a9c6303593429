-- ===== src/Node/Ports.antt =====
-- src/tunnel.mjs: `allocateVisitorPort` and `visitorsFor`. A port that is 0 is not set.
pub mod Laws
pub mod Frp
pub mod Free
mod Tests
use dsh_link.Common.{
  ℕ, zero, suc, ◌+◌, Bool, true, false, not, ◌&&◌, ◌||◌, Option, none, some, List, [], ◌∷◌, ◌++◌,
  map, Text,
}
use dsh_link.Common.{is_empty, if◌then◌else◌, any, eqb, ltb, filter, or_text, show_ℕ, codes}

-- A peer with its STCP settings; the empty text is no text.
pub record Peer : Type 0 where
  pub name : Text
  pub url : Option Text
  pub server_name : Text
  pub secret_key : Text
  pub visitor_port : ℕ

pub record Visitor : Type 0 where
  pub peer : Text
  pub server_name : Text
  pub secret_key : Text
  pub bind_port : ℕ
  pub url : Text

abbrev pub includes : List ℕ → ℕ → Bool
includes ports port = any (λ p. eqb p port) ports

-- The ports that are taken: those of the peers, and that of the node.
abbrev pub taken_ports : List Peer → ℕ → List ℕ
taken_ports peers own = filter (λ p. not (eqb p 0)) (map (λ p. p.visitor_port) peers) ++ own ∷ []

-- The loop of `allocateVisitorPort`; `none` if the fuel does not do.
unfoldable pub next_port : ℕ → List ℕ → ℕ → Option ℕ
next_port zero taken port = none
next_port (suc fuel) taken port =
    let later = next_port fuel taken (suc port) in
    if includes taken port || ltb 65535 port then later else some port

-- `allocateVisitorPort`, with no `used`.
unfoldable pub allocate_visitor_port : ℕ → List Peer → ℕ → ℕ → Option ℕ
unfolding next_port filter
allocate_visitor_port fuel peers own base = next_port fuel (taken_ports peers own) base

abbrev or_local : Option Text → ℕ → Text
or_local none port = codes "http://127.0.0.1:" ++ show_ℕ port
or_local (some url) port = url

abbrev visitor_of : Peer → Visitor
visitor_of p = record {
  peer = p.name;
  server_name = p.server_name;
  secret_key = p.secret_key;
  bind_port = p.visitor_port;
  url = or_local p.url p.visitor_port;
}

-- `visitorsFor`
unfoldable pub visitors_for : List Peer → List Visitor
unfolding filter show_ℕ
visitors_for peers =
    map visitor_of (filter (λ p. not (is_empty p.server_name) && not (eqb p.visitor_port 0)) peers)
