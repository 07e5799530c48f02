-- ===== src/PublicIpPools/Capacity.antt =====
-- internal/servers/private_public_ip_pools_server.go: the capacity of a pool, against a count that does
-- not overflow.
use native.Mathlib.Nat.{pow-le-pow_right}
use osac_fulfillment_service.Prelude.{
  ℕ, ◌+◌, ◌-◌, ◌*◌, ◌/◌, ◌^◌, ◌≤◌, eqb, Bool, true, false, not, ◌&&◌, ◌≡◌, ◌∙◌, ap, refl, inl, inr,
  String, List, [], ◌∷◌, Option, none, some, leb, arith, All, Bool-cases, Option-cases,
  if◌then◌else◌,
}
use osac_fulfillment_service.Prelude.Int.{ℤ, pos, negsuc, ◌+ℤ◌, ◌-ℤ◌}
use osac_fulfillment_service.PublicIps.{
  IpFamily, family_unspecified, ipv4, ipv6, family_number, wrap64,
}
use osac_fulfillment_service.PublicIpPools.{
  Networks, max_int64, shift_one, exceeds, is_ipv4, wrong_family, host_capacity, cidr_capacity,
  add_capacities, pool_capacity,
}

abbrev pub ones_of : ℤ → ℕ
ones_of (pos n) = n
ones_of (negsuc n) = 0

module _ {P : Type 0} (net : Networks P) where
  -- The bits of an address behind the prefix.
  abbrev pub host_bits : P → ℕ
  host_bits p = net.bit_len p - ones_of (net.bits p)

-- What net/netip documents. An IPv4 address has 32 bits, and `Bits()` of a prefix that was parsed is
-- between 0 and the length of its address. `address` is the number of `Addr()`. `Contains` reports
-- whether a prefix includes an address: one of the same length whose first `Bits()` bits are those of
-- the prefix. `Masked()` is the canonical form, with all but the first bits masked off, and its text
-- is read back as that prefix.
pub record Documented {P : Type 0} (net : Networks P) : Type 0 where
  pub length_4 : (p : P) → net.is_4 p ≡ true → net.bit_len p ≡ 32
  pub bits_in :
      (s : String) (p : P)
      → net.parse_prefix s ≡ some p
      → (n : ℕ) × (net.bits p ≡ pos n) × (n ≤ net.bit_len p)
  pub address : P → ℕ
  pub includes :
      (s t : String) (p q : P)
      → net.parse_prefix s ≡ some p
      → net.parse_prefix t ≡ some q
      → net.contains_address p q ≡ (
          eqb (net.bit_len p) (net.bit_len q)
          && eqb (address p / 2 ^ host_bits net p) (address q / 2 ^ host_bits net p))
  pub reparse :
      (s : String) (p : P)
      → net.parse_prefix s ≡ some p
      → (q : P) × (net.parse_prefix (net.masked p) ≡ some q)
        × (net.is_4 q ≡ net.is_4 p)
        × (net.bit_len q ≡ net.bit_len p)
        × (net.bits q ≡ net.bits p)
        × (address q ≡ address p / 2 ^ host_bits net p * 2 ^ host_bits net p)
        × (net.masked q ≡ net.masked p)

-- The addresses of a network with this many host bits that a pool hands out.
abbrev pub usable_hosts : IpFamily → ℕ → ℕ
usable_hosts family host = if is_ipv4 family && leb 2 host then 2 ^ host - 2 else 2 ^ host

abbrev pub capped : ℕ → ℕ
capped n = if leb n max_int64 then n else max_int64

small_power : (h : ℕ) → h ≤ 62 → 2 ^ h ≤ 2 ^ 62
small_power h le = pow-le-pow_right (omega arith) le

large_power : (h : ℕ) → 63 ≤ h → 2 ^ 63 ≤ 2 ^ h
large_power h le = pow-le-pow_right (omega arith) le

-- The count does not overflow for IPv4, and is cut at the largest value for IPv6.
four_capacity :
    {P : Type 0} (net : Networks P) (host : ℕ)
    → host ≤ 32
    → host_capacity net ipv4 host ≡ pos (capped (usable_hosts ipv4 host))
unfolding shift_one ◌-ℤ◌
four_capacity net host le =
    let small = small_power host (omega arith) in
    elim (Bool-cases (leb 2 host)) [
      | inl two ↦
          let four : 2 ^ 2 ≤ 2 ^ host = pow-le-pow_right (omega arith) {i = 2} (ground arith) in
          ground arith
      | inr few ↦ ground arith
    ]

other_capacity :
    {P : Type 0} (net : Networks P) (family : IpFamily) (host : ℕ)
    → is_ipv4 family ≡ false
    → host_capacity net family host ≡ pos (capped (usable_hosts family host))
unfolding shift_one
other_capacity net family host six = elim (Bool-cases (leb 63 host)) [
  | inl large ↦ let big = large_power host (ground arith) in ground arith
  | inr few ↦ let small = small_power host (ground arith) in ground arith
]

capped_sum : (t u s : ℕ) → capped (t + capped u + s) ≡ capped (t + (u + s))
capped_sum t u s = ground arith

capped_over : (t u s : ℕ) → leb (t + capped u) max_int64 ≡ false → max_int64 ≡ capped (t + (u + s))
capped_over t u s h = ground arith

-- The test of the loop, and its sum, on values that are not negative.
exceeds_lem :
    (t c : ℕ)
    → t ≤ max_int64
    → c ≤ max_int64
    → exceeds (pos t) (pos c) ≡ not (leb (t + c) max_int64)
unfolding ◌-ℤ◌
exceeds_lem t c le le' = ground arith

sum_lem : (t c : ℕ) → t + c ≤ max_int64 → wrap64 (pos t +ℤ pos c) ≡ pos (t + c)
unfolding ◌+ℤ◌
sum_lem t c le = ground arith

module _ {P : Type 0} (net : Networks P) where
  abbrev pub usable_prefix : IpFamily → Option P → ℕ
  usable_prefix family none = 0
  usable_prefix family (some p) = usable_hosts family (host_bits net p)

  -- The addresses of all the networks, without a limit.
  abbrev pub usable : IpFamily → List String → ℕ
  usable family [] = 0
  usable family (cidr ∷ cidrs) = usable_prefix family (net.parse_prefix cidr) + usable family cidrs

  abbrev pub fits_prefix : IpFamily → Option P → Bool
  fits_prefix family none = true
  fits_prefix family (some p) = not (wrong_family family (net.is_4 p))

  abbrev pub Fits : IpFamily → String → Type 0
  Fits family cidr = fits_prefix family (net.parse_prefix cidr) ≡ true

  module _ (documented : Documented net) where
    host_capacity_lem :
        (family : IpFamily) (p : P) (ones : ℕ)
        → fits_prefix family (some p) ≡ true
        → host_capacity net family (net.bit_len p - ones)
          ≡ pos (capped (usable_hosts family (net.bit_len p - ones)))
    host_capacity_lem ipv4 p ones fit =
        let is : net.is_4 p ≡ true = ground arith in
        let length = documented.length_4 p is in
        four_capacity net (net.bit_len p - ones) (omega arith)
    host_capacity_lem ipv6 p ones fit = other_capacity net ipv6 (net.bit_len p - ones) refl
    host_capacity_lem family_unspecified p ones fit =
        other_capacity net family_unspecified (net.bit_len p - ones) refl
    host_capacity_lem (family_number n) p ones fit =
        other_capacity net (family_number n) (net.bit_len p - ones) refl

    cidr_capacity_lem :
        (family : IpFamily) (cidr : String)
        → Fits family cidr
        → cidr_capacity net family cidr
          ≡ pos (capped (usable_prefix family (net.parse_prefix cidr)))
    unfolding cidr_capacity
    cidr_capacity_lem family cidr fit = elim (Option-cases (net.parse_prefix cidr)) [
      | inl e ↦ rw e refl
      | inr (p, e) ↦
          let (ones, b, le) = documented.bits_in cidr p e in
          rw (e, b) (host_capacity_lem family p ones (ground arith))
    ]

    add_capacities_lem :
        (total : ℕ) (family : IpFamily) (cidrs : List String)
        → total ≤ max_int64
        → All (Fits family) cidrs
        → add_capacities net (pos total) family cidrs ≡ pos (capped (total + usable family cidrs))
    unfolding add_capacities
    add_capacities_lem total family [] le fit = ground arith
    add_capacities_lem total family (cidr ∷ cidrs) le fit =
        let cap = capped (usable_prefix family (net.parse_prefix cidr)) in
        let tested = exceeds_lem total cap le (ground arith) in
        rw (cidr_capacity_lem family cidr fit.0, tested)
          (elim (Bool-cases (leb (total + cap) max_int64)) [
            | inl small ↦
                let within : total + cap ≤ max_int64 = ground arith in
                rw
                  (
                    small,
                    sum_lem total cap within,
                    add_capacities_lem (total + cap) family cidrs within fit.1,
                  )
                  (ap pos (
                    capped_sum total (usable_prefix family (net.parse_prefix cidr))
                      (usable family cidrs)))
            | inr large ↦ rw large (
                ap pos (
                  capped_over total (usable_prefix family (net.parse_prefix cidr))
                    (usable family cidrs) large))
          ])

    -- When net/netip does what it documents and every network that can be read is of the family,
    -- the capacity of a pool is the exact number of usable addresses, cut at the largest int64.
    pub pool_capacity-usable :
        (cidrs : List String) (family : IpFamily)
        → All (Fits family) cidrs
        → pool_capacity net cidrs family ≡ pos (capped (usable family cidrs))
    unfolding pool_capacity
    pool_capacity-usable cidrs family fit =
        let start : 0 + usable family cidrs ≡ usable family cidrs = omega arith in
        add_capacities_lem 0 family cidrs (omega arith) fit ∙ ap (λ n. pos (capped n)) start
