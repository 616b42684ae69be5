-- ===== src/Filter/Semantics.antt =====
-- Which events a network filter admits (src/graphql.rs, src/graphql/network.rs).
use giganto.Prelude.{
  ℕ, ◌≡◌, ◌≢◌, ◌↔◌, ◌≤◌, ◌<◌, Bool, true, false, ◌&&◌, not, Option, none, some, Ordering, arith,
  if◌then◌else◌, inl, inr,
}
use giganto.Outcome.{Outcome, ok, err, ◌>>=◌, Outcome-cases}
use giganto.Filter.{
  Text, IpAddr, cmp_addr, IpRange, PortRange, NetworkFilter, Fields, check_port, check_address,
  check_network, check_network_filter,
}

-- A port admitted by a range: from its start, included, to its end, excluded, or its start if it has
-- no end. A range without a start, and no range, admit every port, and an event without a port is
-- admitted.
abbrev pub AdmitsPort : Option PortRange → Option ℕ → Type 0
AdmitsPort none port = Unit
AdmitsPort (some range) none = Unit
AdmitsPort (some range) (some port) = elim range.start [
  | none ↦ Unit
  | some start ↦ elim range.end [ none ↦ port ≡ start | some end ↦ (start ≤ port) × (port < end) ]
]

abbrev pub AdmitsAddress : (Text → Outcome IpAddr) → Option IpRange → Option IpAddr → Type 0
AdmitsAddress parse none addr = Unit
AdmitsAddress parse (some range) none = Unit
AdmitsAddress parse (some range) (some addr) = elim range.start [
  | none ↦ Unit
  | some start ↦ elim range.end [
    | none ↦ (a : IpAddr) × (parse start ≡ ok a) × (cmp_addr addr a ≡ Ordering.eq)
    | some end ↦
        (a : IpAddr) × (b : IpAddr) × (parse start ≡ ok a)
        × (parse end ≡ ok b)
        × (cmp_addr addr a ≢ Ordering.lt)
        × (cmp_addr addr b ≡ Ordering.lt)
  ]
]

port_lem :
    (start end : Option ℕ) (port : ℕ)
    → (check_port (some (record { start = start; end = end })) (some port) ≡ true)
      ↔ AdmitsPort (some (record { start = start; end = end })) (some port)
unfolding check_port
port_lem none end port = ground arith
port_lem (some start) none port = ground arith
port_lem (some start) (some end) port = ground arith

check_port_iff :
    (range : Option PortRange) (port : Option ℕ)
    → (check_port range port ≡ true) ↔ AdmitsPort range port
check_port_iff none port = unfold check_port in ground arith
check_port_iff (some range) none = unfold check_port in ground arith
check_port_iff (some range) (some port) = port_lem range.start range.end port

-- The chain of tests of `check_network`.
abbrev chain : Outcome Bool → Outcome Bool → Bool → Bool → Outcome Bool
chain a b p q = do
  x ← a
  if not x then ok false else do y ← b; if not y then ok false else ok (p && q)

chain_iff :
    (a b : Outcome Bool) (p q : Bool)
    → (chain a b p q ≡ ok true) ↔ (a ≡ ok true) × (b ≡ ok true) × (p ≡ true) × (q ≡ true)
chain_iff (err e) b p q = ground arith
chain_iff (ok false) b p q = ground arith
chain_iff (ok true) (err e) p q = ground arith
chain_iff (ok true) (ok false) p q = ground arith
chain_iff (ok true) (ok true) p q = ground arith

module _ (parse : Text → Outcome IpAddr) where
  address_lem :
      (start end : Option Text) (addr : IpAddr)
      → (check_address parse (some (record { start = start; end = end })) (some addr) ≡ ok true)
        ↔ AdmitsAddress parse (some (record { start = start; end = end })) (some addr)
  unfolding check_address
  address_lem none end addr = ground arith
  address_lem (some start) none addr = elim (Outcome-cases (parse start)) [
    | inl (e, p) ↦ (λ h. absurd (ground arith), λ (a, q, r). absurd (ground arith))
    | inr (a, p) ↦ (λ h. (a, p, ground arith), λ (b, q, r). ground arith)
  ]
  address_lem (some start) (some end) addr = elim (Outcome-cases (parse start)) [
    | inl (e, p) ↦ (λ h. absurd (ground arith), λ (a, b, q, p', r, t). absurd (ground arith))
    | inr (a, p) ↦ elim (Outcome-cases (parse end)) [
      | inl (e, q) ↦ (λ h. absurd (ground arith), λ (a', b, p', q', r, t). absurd (ground arith))
      | inr (b, q) ↦
          (λ h. (a, b, p, q, ground arith, ground arith), λ (a', b', p', q', r, t). ground arith)
    ]
  ]

  check_address_iff :
      (range : Option IpRange) (addr : Option IpAddr)
      → (check_address parse range addr ≡ ok true) ↔ AdmitsAddress parse range addr
  check_address_iff none addr = unfold check_address in ground arith
  check_address_iff (some range) none = unfold check_address in ground arith
  check_address_iff (some range) (some addr) = address_lem range.start range.end addr

  -- A network filter admits an event exactly if its two address ranges and its two port ranges
  -- do: a range from its start, included, to its end, excluded, or only its start if it has no
  -- end, with the addresses that it needs parsed; a range without a start admits everything, and
  -- so does a missing range or field.
  pub check_network_filter_iff :
      (filter : NetworkFilter) (f : Fields)
      → (check_network_filter parse filter f ≡ ok true)
        ↔ AdmitsAddress parse filter.orig_addr f.orig_addr
          × AdmitsAddress parse filter.resp_addr f.resp_addr
          × AdmitsPort filter.orig_port f.orig_port
          × AdmitsPort filter.resp_port f.resp_port
  unfolding check_network
  check_network_filter_iff filter f =
      let a = check_address_iff filter.orig_addr f.orig_addr in
      let b = check_address_iff filter.resp_addr f.resp_addr in
      let p = check_port_iff filter.orig_port f.orig_port in
      let q = check_port_iff filter.resp_port f.resp_port in
      let (there, back) =
        chain_iff (check_address parse filter.orig_addr f.orig_addr)
          (check_address parse filter.resp_addr f.resp_addr)
          (check_port filter.orig_port f.orig_port) (check_port filter.resp_port f.resp_port) in
      (
        λ h. let (x, y, z, w) = there h in (a.0 x, b.0 y, p.0 z, q.0 w),
        λ (x, y, z, w). back (a.1 x, b.1 y, p.1 z, q.1 w),
      )
