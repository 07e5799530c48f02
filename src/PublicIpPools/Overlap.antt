-- ===== src/PublicIpPools/Overlap.antt =====
-- internal/servers/private_public_ip_pools_server.go: what the checks for overlapping networks establish.
use osac_fulfillment_service.Prelude.{
  true, false, ◌≡◌, sym, refl, inl, inr, List, [], ◌∷◌, ◌++◌, String, arith, All,
}
use osac_fulfillment_service.Errors.{
  Error, status, invalid_argument, already_exists, Result, ok, err, ◌>>◌, Result-cases,
}
use osac_fulfillment_service.Dao.{Object}
use osac_fulfillment_service.PublicIps.{Pool}
use osac_fulfillment_service.PublicIpPools.{
  Networks, cidrs_overlap, refuse_overlap, refuse_overlaps, validate_no_cidr_self_overlap,
}
use osac_fulfillment_service.PublicIpPools.Capacity.{Documented}
use osac_fulfillment_service.PublicIpPools.Addresses.{Disjoint, cidrs_overlap-Disjoint}
use osac_fulfillment_service.PublicIpPools.Requests.{
  pool_spec_of, against_cidr, against_cidrs, against_pools,
}

both : (a b : Result (Unit {0})) → (a >> b) ≡ ok tt → (a ≡ ok tt) × (b ≡ ok tt)
both (ok tt) b h = (refl, h)
both (err e) b h = absurd (ground arith)

append_checks : (a b c : Result (Unit {0})) → ((a >> b) >> c) ≡ (a >> (b >> c))
append_checks (ok done) b c = refl
append_checks (err e) b c = refl

module _ {P : Type 0} (net : Networks P) (documented : Documented net) where
  -- Each one shares no address with those after it.
  abbrev pub AllApart : List String → Type 0
  AllApart [] = Unit
  AllApart (cidr ∷ cidrs) = All (Disjoint net documented cidr) cidrs × AllApart cidrs

  refuse_overlap-Disjoint :
      (e : Error) (a b : String) → refuse_overlap net e a b ≡ ok tt → Disjoint net documented a b
  refuse_overlap-Disjoint e a b h = elim (Result-cases (cidrs_overlap net a b)) [
    | inl (true, q) ↦ absurd (ground arith)
    | inl (false, q) ↦ cidrs_overlap-Disjoint net documented a b q
    | inr (f, q) ↦ absurd (ground arith)
  ]

  refuse_overlaps-Disjoint :
      (e : Error) (a : String) (bs : List String)
      → refuse_overlaps net e a bs ≡ ok tt
      → All (Disjoint net documented a) bs
  unfolding refuse_overlaps
  refuse_overlaps-Disjoint e a [] h = tt
  refuse_overlaps-Disjoint e a (b ∷ bs) h =
      let (one, rest) = both (refuse_overlap net e a b) (refuse_overlaps net e a bs) h in
      (refuse_overlap-Disjoint e a b one, refuse_overlaps-Disjoint e a bs rest)

  pub self_overlap-AllApart :
      (cidrs : List String) → validate_no_cidr_self_overlap net cidrs ≡ ok tt → AllApart cidrs
  unfolding validate_no_cidr_self_overlap
  self_overlap-AllApart [] h = tt
  self_overlap-AllApart (cidr ∷ cidrs) h =
      let (one, rest) =
        both (refuse_overlaps net (status invalid_argument) cidr cidrs)
          (validate_no_cidr_self_overlap net cidrs) h in
      (
        refuse_overlaps-Disjoint (status invalid_argument) cidr cidrs one,
        self_overlap-AllApart cidrs rest,
      )

  -- Every network of the new pool shares no address with any network of this one.
  abbrev pub ApartFrom : List String → Object Pool → Type 0
  ApartFrom cidrs pool =
      All (λ old. All (λ cidr. Disjoint net documented cidr old) cidrs)
        (pool_spec_of pool.payload).cidrs

  against_cidr-Apart :
      (cidrs : List String) (old : String)
      → against_cidr net cidrs old ≡ ok tt
      → All (λ cidr. Disjoint net documented cidr old) cidrs
  unfolding against_cidr
  against_cidr-Apart [] old h = tt
  against_cidr-Apart (cidr ∷ cidrs) old h =
      let found = status already_exists in
      let (one, rest) = both (refuse_overlap net found cidr old) (against_cidr net cidrs old) h in
      (refuse_overlap-Disjoint found cidr old one, against_cidr-Apart cidrs old rest)

  against_cidrs-Apart :
      (cidrs olds : List String)
      → against_cidrs net cidrs olds ≡ ok tt
      → All (λ old. All (λ cidr. Disjoint net documented cidr old) cidrs) olds
  unfolding against_cidrs
  against_cidrs-Apart cidrs [] h = tt
  against_cidrs-Apart cidrs (old ∷ olds) h =
      let (one, rest) = both (against_cidr net cidrs old) (against_cidrs net cidrs olds) h in
      (against_cidr-Apart cidrs old one, against_cidrs-Apart cidrs olds rest)

  pub against_pools-Apart :
      (cidrs : List String) (pools : List (Object Pool))
      → against_pools net cidrs pools ≡ ok tt
      → All (ApartFrom cidrs) pools
  unfolding against_pools
  against_pools-Apart cidrs [] h = tt
  against_pools-Apart cidrs (pool ∷ pools) h =
      let olds = (pool_spec_of pool.payload).cidrs in
      let (one, rest) = both (against_cidrs net cidrs olds) (against_pools net cidrs pools) h in
      (against_cidrs-Apart cidrs olds one, against_pools-Apart cidrs pools rest)

module _ {P : Type 0} (net : Networks P) where
  -- The check of two lists of pools, one after the other, is the check of both together.
  pub against_pools-append :
      (cidrs : List String) (xs ys : List (Object Pool))
      → against_pools net cidrs (xs ++ ys)
        ≡ (against_pools net cidrs xs >> against_pools net cidrs ys)
  unfolding against_pools
  against_pools-append cidrs [] ys = refl
  against_pools-append cidrs (pool ∷ xs) ys = rw (against_pools-append cidrs xs ys) (
      sym (
        append_checks (against_cidrs net cidrs (pool_spec_of pool.payload).cidrs)
          (against_pools net cidrs xs) (against_pools net cidrs ys)))
