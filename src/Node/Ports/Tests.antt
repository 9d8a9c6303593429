-- ===== src/Node/Ports/Tests.antt =====
-- Two peers hold the first ports.
use dsh_link.Common.{
  ℕ, suc, ◌+◌, ◌≤◌, ◌≡◌, refl, Bool, false, not, eqb, All, none, some, List, [], ◌∷◌, Text, codes,
  arith,
}
use dsh_link.Node.Ports.{Peer, includes, taken_ports, allocate_visitor_port}
use dsh_link.Node.Ports.Free.{IsEnsured, ensure_visitor_ports, ensure_visitor_ports-IsEnsured}
use dsh_link.Node.Ports.Laws.{allocate_visitor_port_ends}

abbrev peer : ℕ → Peer
peer port = record {
  name = codes "a";
  url = none;
  server_name = codes "s";
  secret_key = codes "k";
  visitor_port = port;
}

abbrev peers : List Peer
peers = peer 19100 ∷ peer 19101 ∷ []

allocate_visitor_port_ends_example :
    ((port : ℕ) × (allocate_visitor_port 3 peers 8787 19100 ≡ some port)
      × (19100 ≤ port)
      × (port ≤ 19102)
      × (includes (taken_ports peers 8787) port ≡ false))
    × (allocate_visitor_port 9 peers 8787 70000 ≡ none)
unfolding dsh_link.Common.filter
allocate_visitor_port_ends_example =
    allocate_visitor_port_ends 2 peers 8787 19100 70000 9 (omega arith) refl (omega arith)

-- The first port is taken.
abbrev is_free : ℕ → Bool
is_free port = not (eqb port 19100)

-- Both peers have the second port then.
both_moved :
    ensure_visitor_ports is_free peers
    ≡ some (
      record (peer 19101) { url = some (codes "http://127.0.0.1:19101") } ∷ peer 19101 ∷ [],
      record { peer = codes "a"; from_port = 19100; to_port = 19101 } ∷ [],
    )
unfolding ensure_visitor_ports
both_moved = refl

ensure_visitor_ports-IsEnsured_example :
    IsEnsured is_free peers (ensure_visitor_ports is_free peers)
ensure_visitor_ports-IsEnsured_example = ensure_visitor_ports-IsEnsured is_free peers
