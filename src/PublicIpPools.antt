-- ===== src/PublicIpPools.antt =====
-- internal/servers/private_public_ip_pools_server.go, and cidrsOverlap of private_subnets_server.go:
-- the validation of public IP pools, and their capacity. Prefixes are those of Go's net/netip.
pub mod Requests
pub mod Capacity
pub mod Addresses
pub mod Overlap
pub mod Paging
pub mod Creation
pub mod Updating
mod Sample
mod Examples
use osac_fulfillment_service.Prelude.{
  ℕ, suc, ◌≤◌, ◌-◌, ◌^◌, Bool, true, false, not, ◌||◌, ◌&&◌, ◌≡◌, String, List, [], ◌∷◌, Option,
  none, some, ltb, eqb, leb, length, if◌then◌else◌,
}
use osac_fulfillment_service.Prelude.Compare.{◌==◌, string_comparable}
use osac_fulfillment_service.Prelude.Sort.{sort_strings}
use osac_fulfillment_service.Prelude.Int.{ℤ, pos, negsuc, ◌+ℤ◌, ◌-ℤ◌}
use osac_fulfillment_service.Errors.{
  Error, status, plain, invalid_argument, already_exists, internal, Result, ok, err, ◌>>=◌, ◌>>◌,
  refuse,
}
use osac_fulfillment_service.PublicIps.{
  IpFamily, family_unspecified, ipv4, ipv6, family_number, wrap64, is_negative,
}

-- What the code uses of net/netip: `ParsePrefix`, and of a prefix `Addr().Is4()`, `Addr().BitLen()`,
-- `Bits()`, `Contains(other.Addr())` and `Masked().String()`.
pub record Networks (P : Type 0) : Type 0 where
  pub parse_prefix : String → Option P
  pub is_4 : P → Bool
  pub bit_len : P → ℕ
  pub bits : P → ℤ
  pub contains_address : P → P → Bool
  pub masked : P → String

-- The largest value of Go's `int64`.
abbrev pub max_int64 : ℕ
max_int64 = 2 ^ 63 - 1

-- `int64(1) << n`
unfoldable pub shift_one : ℕ → ℤ
shift_one n = if ltb n 63 then pos (2 ^ n) else if eqb n 63 then negsuc max_int64 else pos 0

-- `total > math.MaxInt64-cap`, where `cap` is not negative. `MaxInt64-cap` wraps around otherwise.
abbrev pub exceeds : ℤ → ℤ → Bool
exceeds total cap = greater total (wrap64 (pos max_int64 -ℤ cap))
  where
    greater : ℤ → ℤ → Bool
    greater (pos a) (pos b) = ltb b a
    greater (pos a) (negsuc b) = true
    greater (negsuc a) (pos b) = false
    greater (negsuc a) (negsuc b) = ltb a b

abbrev pub is_ipv4 : IpFamily → Bool
is_ipv4 ipv4 = true
is_ipv4 _ = false

-- The branch of the family that asks for the other kind of address.
abbrev pub wrong_family : IpFamily → Bool → Bool
wrong_family ipv4 found = not found
wrong_family ipv6 found = found
wrong_family _ found = false

module _ {P : Type 0} (net : Networks P) where
  abbrev pub host_capacity : IpFamily → ℕ → ℤ
  host_capacity family host =
      if is_ipv4 family
      then (if leb 2 host then wrap64 (shift_one host -ℤ pos 2) else shift_one host)
      else if leb 63 host
      then pos max_int64
      else shift_one host

  abbrev pub prefix_capacity : IpFamily → ℕ → ℤ → ℤ
  prefix_capacity family bits (negsuc n) = pos 0
  prefix_capacity family bits (pos ones) = host_capacity family (bits - ones)

  abbrev pub parsed_capacity : IpFamily → Option P → ℤ
  parsed_capacity family none = pos 0
  parsed_capacity family (some prefix) =
      prefix_capacity family (net.bit_len prefix) (net.bits prefix)

  -- `calculateCIDRCapacity`
  unfoldable pub cidr_capacity : IpFamily → String → ℤ
  unfolding shift_one
  cidr_capacity family cidr = parsed_capacity family (net.parse_prefix cidr)

  -- The loop of `calculatePoolCapacity`.
  unfoldable pub add_capacities : ℤ → IpFamily → List String → ℤ
  add_capacities total family [] = total
  add_capacities total family (cidr ∷ cidrs) =
      let cap = cidr_capacity family cidr in
      let rest = add_capacities (wrap64 (total +ℤ cap)) family cidrs in
      if exceeds total cap then pos max_int64 else rest

  unfoldable pub pool_capacity : List String → IpFamily → ℤ
  unfolding add_capacities
  pool_capacity cidrs family = add_capacities (pos 0) family cidrs

  -- `cidrsOverlap`
  unfoldable pub cidrs_overlap : String → String → Result Bool
  cidrs_overlap a b = elim (net.parse_prefix a) [
    | none ↦ err plain
    | some p ↦ elim (net.parse_prefix b) [
      | none ↦ err plain
      | some q ↦ ok (net.contains_address p q || net.contains_address q p)
    ]
  ]

  unfoldable pub validate_pool_cidr_format : IpFamily → String → Result String
  validate_pool_cidr_format family cidr = elim (net.parse_prefix cidr) [
    | none ↦ err (status invalid_argument)
    | some prefix ↦
        if wrong_family family (net.is_4 prefix)
        then err (status invalid_argument)
        else ok (net.masked prefix)
  ]

  -- The loop that fills `canonicalCIDRs`.
  unfoldable pub canonical_cidrs : IpFamily → List String → Result (List String)
  canonical_cidrs family [] = ok []
  canonical_cidrs family (cidr ∷ cidrs) = do
    canonical ← validate_pool_cidr_format family cidr
    rest ← canonical_cidrs family cidrs
    ok (canonical ∷ rest)

  -- One test of an overlap, with the error for a prefix that cannot be read and that of an overlap.
  abbrev pub refuse_overlap : Error → String → String → Result (Unit {0})
  refuse_overlap found a b = elim (cidrs_overlap a b) [
    | err e ↦ err (status internal)
    | ok overlap ↦ refuse overlap found
  ]

  unfoldable pub refuse_overlaps : Error → String → List String → Result (Unit {0})
  refuse_overlaps found a [] = ok tt
  refuse_overlaps found a (b ∷ bs) = refuse_overlap found a b >> refuse_overlaps found a bs

  -- `validateNoCIDRSelfOverlap`: each one against those after it.
  unfoldable pub validate_no_cidr_self_overlap : List String → Result (Unit {0})
  unfolding refuse_overlaps
  validate_no_cidr_self_overlap [] = ok tt
  validate_no_cidr_self_overlap (cidr ∷ cidrs) =
      refuse_overlaps (status invalid_argument) cidr cidrs >> validate_no_cidr_self_overlap cidrs

abbrev pub same_texts : List String → List String → Bool
same_texts [] [] = true
same_texts (x ∷ xs) (y ∷ ys) = x == y && same_texts xs ys
same_texts _ _ = false

-- `cidrSlicesEqual`. The lists that are compared item by item have the same length.
unfoldable pub cidr_slices_equal : List String → List String → Bool
cidr_slices_equal a b =
    if not (eqb (length a) (length b)) then false else same_texts (sort_strings a) (sort_strings b)
