-- ===== src/Node/Ports/Free.antt =====
-- src/tunnel.mjs: `ensureVisitorPorts` and `ensureAdminPort`. Whether a port can be bound is a
-- parameter, which does not change within a call.
use dsh_link.Common.{
  ℕ, zero, suc, ◌+◌, ◌-◌, min, ◌≤◌, ◌<◌, ◌≡◌, refl, Bool, true, false, not, ◌&&◌, ◌||◌, ◌⊎◌, Option,
  none, some, List, [], ◌∷◌, ◌++◌, Text, arith,
}
use dsh_link.Common.{if◌then◌else◌, codes, show_ℕ, eqb, ltb, leb, Bool-cases, inl, inr}
use dsh_link.Node.Ports.{Peer}

-- A port that was taken: the peer, the old and the new port.
pub record Reassigned : Type 0 where
  pub peer : Text
  pub from_port : ℕ
  pub to_port : ℕ

module _ (available : ℕ → Bool) where
  -- The loop of `ensureVisitorPorts`: the first port from one on that is free, or 65535.
  unfoldable pub free_from : ℕ → ℕ → ℕ
  free_from zero port = port
  free_from (suc fuel) port =
      let later = free_from fuel (suc port) in
      if ltb port 65535 && not (available port) then later else port

  -- One round: the peer, with another port if its own is taken; `none` where no port is free.
  abbrev pub ensure_one : Peer → Option (Peer × Option Reassigned)
  ensure_one p =
      let port = free_from 65536 (p.visitor_port + 1) in
      if eqb p.visitor_port 0 || available p.visitor_port
      then some (p, none)
      else if leb 65535 port
      then none
      else some (
        record p { visitor_port = port; url = some (codes "http://127.0.0.1:" ++ show_ℕ port) },
        some (record { peer = p.name; from_port = p.visitor_port; to_port = port }),
      )

  abbrev pub noted : Option Reassigned → List Reassigned → List Reassigned
  noted none more = more
  noted (some r) more = r ∷ more

  abbrev pub ensured :
      Option (Peer × Option Reassigned)
      → Option (List Peer × List Reassigned)
      → Option (List Peer × List Reassigned)
  ensured none rest = none
  ensured (some one) none = none
  ensured (some (p, r)) (some (peers, more)) = some (p ∷ peers, noted r more)

  -- `ensureVisitorPorts`; `none` where it throws.
  unfoldable pub ensure_visitor_ports : List Peer → Option (List Peer × List Reassigned)
  unfolding free_from show_ℕ
  ensure_visitor_ports [] = some ([], [])
  ensure_visitor_ports (p ∷ peers) = ensured (ensure_one p) (ensure_visitor_ports peers)

  -- The loop of `ensureAdminPort`, over so many ports.
  unfoldable pub admin_loop : ℕ → ℕ → Option ℕ
  admin_loop zero port = none
  admin_loop (suc rounds) port =
      let later = admin_loop rounds (suc port) in if available port then some port else later

  -- `ensureAdminPort`, of the port of the configuration.
  unfoldable pub ensure_admin_port : ℕ → Option ℕ
  unfolding admin_loop
  ensure_admin_port base =
      if available base
      then some base
      else admin_loop (min (base + 250) 65535 - (base + 1)) (base + 1)

  -- No port between these two, which are left out, can be bound.
  abbrev pub NoneBetween : ℕ → ℕ → Type 0
  NoneBetween low high = (i : ℕ) → low < i → i < high → available i ≡ false

  -- What becomes of a peer: it is as it was, with no port or one that can be bound; or its port is
  -- taken, and it gets the first behind that can be bound, and the address of this port.
  abbrev pub Ensured : Peer → Peer → Type 0
  Ensured p p' =
      ((p' ≡ p) × ((p.visitor_port ≡ 0) ⊎ (available p.visitor_port ≡ true)))
      ⊎ ((1 ≤ p.visitor_port)
          × (available p.visitor_port ≡ false)
          × (p.visitor_port < p'.visitor_port)
          × (p'.visitor_port < 65535)
          × (available p'.visitor_port ≡ true)
          × NoneBetween p.visitor_port p'.visitor_port
          × (p' ≡ record p {
            visitor_port = p'.visitor_port;
            url = some (codes "http://127.0.0.1:" ++ show_ℕ p'.visitor_port);
          }))

  abbrev pub AllEnsured : List Peer → List Peer → Type 0
  AllEnsured [] [] = Unit
  AllEnsured [] (p' ∷ peers') = true ≡ false
  AllEnsured (p ∷ peers) [] = true ≡ false
  AllEnsured (p ∷ peers) (p' ∷ peers') = Ensured p p' × AllEnsured peers peers'

  -- A peer whose port is taken, with no port behind that can be bound.
  abbrev pub SomeStuck : List Peer → Type 0
  SomeStuck [] = true ≡ false
  SomeStuck (p ∷ peers) =
      ((1 ≤ p.visitor_port) × (available p.visitor_port ≡ false) × NoneBetween p.visitor_port 65535)
      ⊎ SomeStuck peers

  abbrev pub IsEnsured : List Peer → Option (List Peer × List Reassigned) → Type 0
  IsEnsured peers none = SomeStuck peers
  IsEnsured peers (some (peers', reassigned)) = AllEnsured peers peers'

  free_here :
      (port : ℕ)
      → ltb port 65535 ≡ true
      → (ltb port 65535 && not (available port)) ≡ false
      → available port ≡ true
  free_here port b e = ground arith

  -- The port that the loop finds: no free one is passed over, and it is free, if it is below the last.
  record Finds (port found : ℕ) : Type 0 where
    behind : port ≤ found
    passed : (i : ℕ) → port ≤ i → i < found → available i ≡ false
    free : found < 65535 → available found ≡ true

  Finds-here : (port : ℕ) → (ltb port 65535 && not (available port)) ≡ false → Finds port port
  Finds-here port e = record {
    behind = omega arith;
    passed = λ i l h. absurd (omega (arith, l, h));
    free = λ b. free_here port (ground (arith, b)) e;
  }

  Finds-later :
      (port found : ℕ)
      → (ltb port 65535 && not (available port)) ≡ true
      → Finds (suc port) found
      → Finds port found
  Finds-later port found e f = record {
    behind = omega (arith, f.behind);
    passed = λ i l h. elim (Bool-cases (eqb port i)) [
      | inl s ↦ ground arith
      | inr s ↦ f.passed i (ground arith) h
    ];
    free = f.free;
  }

  free_from-Finds : (fuel port : ℕ) → 65535 ≤ port + fuel → Finds port (free_from fuel port)
  unfolding free_from
  free_from-Finds zero port h = record {
    behind = omega arith;
    passed = λ i l k. absurd (omega (arith, l, k));
    free = λ b. absurd (omega (arith, h, b));
  }
  free_from-Finds (suc fuel) port h = elim (Bool-cases (ltb port 65535 && not (available port))) [
    | inl e ↦ rw e (
        Finds-later port (free_from fuel (suc port)) e
          (free_from-Finds fuel (suc port) (omega (arith, h))))
    | inr e ↦ rw e (Finds-here port e)
  ]

  -- What one round gives for a peer.
  abbrev OneEnsured : Peer → Option (Peer × Option Reassigned) → Type 0
  OneEnsured p none =
      (1 ≤ p.visitor_port) × (available p.visitor_port ≡ false) × NoneBetween p.visitor_port 65535
  OneEnsured p (some (p', reassigned)) = Ensured p p'

  ensure_one-OneEnsured : (p : Peer) → OneEnsured p (ensure_one p)
  ensure_one-OneEnsured p =
      let port = free_from 65536 (p.visitor_port + 1) in
      let f = free_from-Finds 65536 (p.visitor_port + 1) (omega arith) in
      elim (Bool-cases (eqb p.visitor_port 0 || available p.visitor_port)) [
        | inl e ↦ rw e (inl (refl, ground arith))
        | inr e ↦
            let taken : available p.visitor_port ≡ false = ground arith in
            let is_set : 1 ≤ p.visitor_port = ground arith in
            elim (Bool-cases (leb 65535 port)) [
              | inl full ↦
                  rw (e, full)
                    (is_set, taken, λ i l h. f.passed i (omega (arith, l)) (ground arith))
              | inr g ↦
                  rw (e, g)
                    (inr (
                      is_set,
                      taken,
                      omega (arith, f.behind),
                      ground arith,
                      f.free (ground arith),
                      λ i l h. f.passed i (omega (arith, l)) h,
                      refl,
                    ))
            ]
      ]

  ensured-IsEnsured :
      (p : Peer) (peers : List Peer) (one : Option (Peer × Option Reassigned))
      (rest : Option (List Peer × List Reassigned))
      → OneEnsured p one
      → IsEnsured peers rest
      → IsEnsured (p ∷ peers) (ensured one rest)
  ensured-IsEnsured p peers none rest f g = inl f
  ensured-IsEnsured p peers (some (p', r)) none f g = inr g
  ensured-IsEnsured p peers (some (p', r)) (some (peers', more)) f g = (f, g)

  -- Each peer stays as it was where it has no visitor port or one that can be bound; the port of any
  -- other is replaced by the first behind it that can be bound, with the address to it, and nothing else
  -- of the peer changes. It throws only where the port of a peer is taken and none behind it, below
  -- 65535, can be bound.
  pub ensure_visitor_ports-IsEnsured :
      (peers : List Peer) → IsEnsured peers (ensure_visitor_ports peers)
  unfolding ensure_visitor_ports
  ensure_visitor_ports-IsEnsured [] = tt
  ensure_visitor_ports-IsEnsured (p ∷ peers) =
      ensured-IsEnsured p peers (ensure_one p) (ensure_visitor_ports peers)
        (ensure_one-OneEnsured p) (ensure_visitor_ports-IsEnsured peers)
