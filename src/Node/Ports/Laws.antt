-- ===== src/Node/Ports/Laws.antt =====
-- src/tunnel.mjs: when `allocateVisitorPort` finds a port, and when it never ends.
use dsh_link.Common.{ℕ, zero, suc, ◌+◌, ◌≤◌, ◌<◌, ◌≡◌, refl, false, ◌||◌, none, some, List}
use dsh_link.Common.{ltb, Bool-cases, inl, inr, arith}
use dsh_link.Node.Ports.{Peer, includes, taken_ports, next_port, allocate_visitor_port}

next_port_free :
    (n : ℕ) (taken : List ℕ) (base free : ℕ)
    → base + n ≡ free
    → free ≤ 65535
    → includes taken free ≡ false
    → (port : ℕ) × (next_port (suc n) taken base ≡ some port)
      × (base ≤ port)
      × (port ≤ free)
      × (includes taken port ≡ false)
unfolding next_port
next_port_free zero taken base free e h f =
    let here : (includes taken base || ltb 65535 base) ≡ false = ground (arith, e, h, f) in
    (base, rw here refl, omega arith, omega (arith, e), ground arith)
next_port_free (suc n) taken base free e h f =
    elim (Bool-cases (includes taken base || ltb 65535 base)) [
      | inr g ↦ (base, rw g refl, omega arith, omega (arith, e), ground arith)
      | inl g ↦
          let (port, found, low, high, not_taken) =
            next_port_free n taken (suc base) free (omega (arith, e)) h f in
          (port, rw (g, next_port) found, omega (arith, low), high, not_taken)
    ]

next_port_over :
    (fuel : ℕ) (taken : List ℕ) (base : ℕ) → 65535 < base → next_port fuel taken base ≡ none
unfolding next_port
next_port_over zero taken base h = refl
next_port_over (suc fuel) taken base h = ground (arith, next_port_over fuel taken (suc base))

-- If some port from the base on is free and at most 65535, the loop ends, within as many rounds as
-- there are ports up to it, with a port that is free and not above it; and from a base above 65535
-- it does not end in any number of rounds.
pub allocate_visitor_port_ends :
    (n : ℕ) (peers : List Peer) (own base over fuel : ℕ)
    → base + n ≤ 65535
    → includes (taken_ports peers own) (base + n) ≡ false
    → 65535 < over
    → ((port : ℕ) × (allocate_visitor_port (suc n) peers own base ≡ some port)
        × (base ≤ port)
        × (port ≤ base + n)
        × (includes (taken_ports peers own) port ≡ false))
      × (allocate_visitor_port fuel peers own over ≡ none)
unfolding allocate_visitor_port
allocate_visitor_port_ends n peers own base over fuel h f o = (
  next_port_free n (taken_ports peers own) base (base + n) refl h f,
  next_port_over fuel (taken_ports peers own) over o,
)
