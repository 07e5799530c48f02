-- ===== src/PublicIpPools/Creation.antt =====
-- internal/servers/private_public_ip_pools_server.go: what a pool is like that was created.
use osac_fulfillment_service.Prelude.{
  ◌*◌, ◌/◌, ◌^◌, false, ◌≡◌, ◌∙◌, sym, ap, subst, refl, inl, inr, List, [], ◌∷◌, String, Option,
  none, some, arith, All, Option-cases,
}
use osac_fulfillment_service.Prelude.Int.{pos}
use osac_fulfillment_service.Errors.{ok, Result-cases}
use osac_fulfillment_service.Collections.{Set}
use osac_fulfillment_service.Dao.{Object, Store, TenancyFilter, tenancy_filter}
use osac_fulfillment_service.Servers.Generic.{Server}
use osac_fulfillment_service.Servers.Generic.Effects.{create_keeps_payload}
use osac_fulfillment_service.PublicIps.{IpFamily, family_unspecified, Pool, PoolSpec}
use osac_fulfillment_service.PublicIps.Requests.{same_family}
use osac_fulfillment_service.PublicIpPools.{
  Networks, wrong_family, validate_pool_cidr_format, canonical_cidrs, validate_no_cidr_self_overlap,
}
use osac_fulfillment_service.PublicIpPools.Requests.{
  validate_create, validate_no_pool_cidr_overlap, with_capacity, new_status, create,
}
use osac_fulfillment_service.PublicIpPools.Capacity.{
  Documented, host_bits, Fits, usable, capped, pool_capacity-usable,
}
use osac_fulfillment_service.PublicIpPools.Overlap.{
  AllApart, ApartFrom, self_overlap-AllApart, against_pools-Apart,
}
use osac_fulfillment_service.PublicIpPools.Paging.{
  rows_seen, objects, validate_no_pool_cidr_overlap_lem,
}

module _ {P : Type 0} (net : Networks P) (documented : Documented net) where
  -- The second text is the canonical one of the network that the first one names, of the family.
  abbrev pub Canonical : IpFamily → String → String → Type 0
  Canonical family cidr canonical =
      (p : P) × (q : P) × (net.parse_prefix cidr ≡ some p)
      × (net.parse_prefix canonical ≡ some q)
      × (wrong_family family (net.is_4 q) ≡ false)
      × (net.bit_len q ≡ net.bit_len p)
      × (net.bits q ≡ net.bits p)
      × (documented.address q ≡ documented.address p / 2 ^ host_bits net p * 2 ^ host_bits net p)
      × (net.masked q ≡ canonical)

  abbrev pub AllCanonical : IpFamily → List String → List String → Type 0
  AllCanonical family [] [] = Unit
  AllCanonical family [] (c ∷ canonical) = ⊥
  AllCanonical family (cidr ∷ cidrs) [] = ⊥
  AllCanonical family (cidr ∷ cidrs) (c ∷ canonical) =
      Canonical family cidr c × AllCanonical family cidrs canonical

  format-Canonical :
      (family : IpFamily) (cidr canonical : String)
      → validate_pool_cidr_format net family cidr ≡ ok canonical
      → Canonical family cidr canonical
  unfolding validate_pool_cidr_format
  format-Canonical family cidr canonical h = elim (Option-cases (net.parse_prefix cidr)) [
    | inl e ↦ absurd (ground arith)
    | inr (p, e) ↦
        let (q, back, same, length, bits, start, text) = documented.reparse cidr p e in
        let written : net.masked p ≡ canonical = ground arith in
        (p, q, e, rw (← written) back, ground arith, length, bits, start, text ∙ written)
  ]

  canonical_cidrs-AllCanonical :
      (family : IpFamily) (cidrs canonical : List String)
      → canonical_cidrs net family cidrs ≡ ok canonical
      → AllCanonical family cidrs canonical
  unfolding canonical_cidrs
  canonical_cidrs-AllCanonical family [] canonical h =
      let none_left : [] ≡ canonical = ground arith in subst (AllCanonical family []) none_left tt
  canonical_cidrs-AllCanonical family (cidr ∷ cidrs) canonical h =
      elim (Result-cases (validate_pool_cidr_format net family cidr)) [
        | inr (e, q) ↦ absurd (ground arith)
        | inl (c, q) ↦ elim (Result-cases (canonical_cidrs net family cidrs)) [
          | inr (e, r) ↦ absurd (ground arith)
          | inl (cs, r) ↦
              let listed : c ∷ cs ≡ canonical = ground arith in
              subst (AllCanonical family (cidr ∷ cidrs)) listed
                (format-Canonical family cidr c q, canonical_cidrs-AllCanonical family cidrs cs r)
        ]
      ]

  AllCanonical-Fits :
      (family : IpFamily) (cidrs canonical : List String)
      → AllCanonical family cidrs canonical
      → All (Fits net family) canonical
  AllCanonical-Fits family [] [] h = tt
  AllCanonical-Fits family [] (c ∷ canonical) h = absurd h
  AllCanonical-Fits family (cidr ∷ cidrs) [] h = absurd h
  AllCanonical-Fits family (cidr ∷ cidrs) (c ∷ canonical)
        ((p, q, e, back, fit, length, bits, start, text), h) =
      (rw (back, fit) refl, AllCanonical-Fits family cidrs canonical h)

  module _ (server : Server Pool) (store : Store Pool) where
    -- What a validation that succeeds has established.
    validated :
        (request : Option (Object Pool)) (pool : Object Pool)
        → validate_create net server request store ≡ ok pool
        → (asked : Object Pool) × (spec : PoolSpec) × (cidrs : List String) × (request ≡ some asked)
          × (asked.payload.spec ≡ some spec)
          × (same_family spec.ip_family family_unspecified ≡ false)
          × (canonical_cidrs net spec.ip_family spec.cidrs ≡ ok cidrs)
          × (validate_no_cidr_self_overlap net cidrs ≡ ok tt)
          × (validate_no_pool_cidr_overlap net server cidrs store ≡ ok tt)
          × (pool ≡ record asked {
            payload = record asked.payload { spec = some (record spec { cidrs = cidrs }) };
          })
    unfolding validate_create
    validated none pool h = absurd (ground arith)
    validated (some asked) pool h = elim (Option-cases asked.payload.spec) [
      | inl e ↦ absurd (ground arith)
      | inr (spec, e) ↦ elim (Result-cases (canonical_cidrs net spec.ip_family spec.cidrs)) [
        | inr (f, q) ↦ absurd (ground arith)
        | inl (cidrs, q) ↦ elim (Result-cases (validate_no_cidr_self_overlap net cidrs)) [
          | inr (f, o) ↦ absurd (ground arith)
          | inl (done, o) ↦
              elim (Result-cases (validate_no_pool_cidr_overlap net server cidrs store)) [
                | inr (f, a) ↦ absurd (ground arith)
                | inl (gone, a) ↦ (asked, spec, cidrs, refl, e, ground arith, q, o, a, ground arith)
              ]
        ]
      ]
    ]

    module _ (visible : Set String) (clause : TenancyFilter)
        (sees : server.tenancy.visible_tenants ≡ ok visible)
        (written : tenancy_filter visible ≡ ok clause) where
      -- A pool that is created, when net/netip does what it documents, has for each network of the
      -- request, in the same order, the canonical text of that network, which is of the requested
      -- family, has the same length and starts at its first address. No address lies in two of
      -- them, nor in one of them and in a network of a pool that the caller sees. Nothing is
      -- allocated, and both counters are the number of usable addresses, cut at the largest int64.
      pub create_sound :
          (request : Option (Object Pool)) (made : Object Pool) (t : Store Pool)
          → create net server request store ≡ ok (made, t)
          → (asked : Object Pool) × (spec : PoolSpec) × (cidrs : List String) × (request
              ≡ some asked)
            × (asked.payload.spec ≡ some spec)
            × AllCanonical spec.ip_family spec.cidrs cidrs
            × AllApart net documented cidrs
            × All (ApartFrom net documented cidrs) (objects visible (rows_seen clause store))
            × (made.payload.spec ≡ some (record spec { cidrs = cidrs }))
            × (made.payload.status
                ≡ some (new_status (pos (capped (usable net spec.ip_family cidrs)))))
      unfolding create
      create_sound request made t h =
          elim (Result-cases (validate_create net server request store)) [
            | inr (e, q) ↦ absurd (ground arith)
            | inl (pool, q) ↦
                let (asked, spec, cidrs, one, two, _, canonical, own, others, is) =
                  validated request pool q in
                let in_form =
                  canonical_cidrs-AllCanonical spec.ip_family spec.cidrs cidrs canonical in
                let kept =
                  create_keeps_payload server (with_capacity net server pool)
                    (record { spec = none; status = none }) store t made (ground arith) in
                let room =
                  pool_capacity-usable net documented cidrs spec.ip_family
                    (AllCanonical-Fits spec.ip_family spec.cidrs cidrs in_form) in
                let checked =
                  validate_no_pool_cidr_overlap_lem net server store visible clause sees written
                    cidrs in
                (
                  asked,
                  spec,
                  cidrs,
                  one,
                  two,
                  in_form,
                  self_overlap-AllApart net documented cidrs own,
                  against_pools-Apart net documented cidrs _ (sym checked ∙ others),
                  ap (λ p. p.spec) kept ∙ rw is refl,
                  ap (λ p. p.status) kept ∙ rw (is, room) refl,
                )
          ]
