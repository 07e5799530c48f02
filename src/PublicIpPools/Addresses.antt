-- ===== src/PublicIpPools/Addresses.antt =====
-- cidrsOverlap of internal/servers/private_subnets_server.go: what it asks of net/netip, against the
-- addresses that two networks have.
use native.Mathlib.Nat.{div-div-eq-div-mul, pow-suc}
use osac_fulfillment_service.Prelude.{
  ℕ, zero, suc, ◌+◌, ◌-◌, ◌/◌, ◌^◌, ◌≤◌, Bool, true, false, ◌&&◌, ◌||◌, ◌≡◌, ◌∙◌, sym, ap, refl,
  inl, inr, String, some, eqb, leb, arith, Bool-cases, Option-cases,
}
use osac_fulfillment_service.Errors.{ok}
use osac_fulfillment_service.PublicIpPools.{Networks, cidrs_overlap}
use osac_fulfillment_service.PublicIpPools.Capacity.{Documented, host_bits}

-- Addresses with the same first bits have the same fewer first bits.
halved : (k x : ℕ) → x / 2 ^ suc k ≡ x / 2 ^ k / 2
halved k x = ap (λ d. x / d) (pow-suc 2 k) ∙ sym (div-div-eq-div-mul x (2 ^ k) 2)

coarser_by : (j h k x y : ℕ) → k ≡ j + h → x / 2 ^ h ≡ y / 2 ^ h → x / 2 ^ k ≡ y / 2 ^ k
coarser_by zero h k x y sum same =
    let e : h ≡ k = omega (arith, sum) in ap (λ i. x / 2 ^ i) (sym e) ∙ same ∙ ap (λ i. y / 2 ^ i) e
coarser_by (suc j) h k x y sum same =
    let e : k ≡ suc (j + h) = omega (arith, sum) in
    ap (λ i. x / 2 ^ i) e
    ∙ halved (j + h) x
    ∙ ap (λ z. z / 2) (coarser_by j h (j + h) x y refl same)
    ∙ sym (halved (j + h) y)
    ∙ ap (λ i. y / 2 ^ i) (sym e)

coarser : (h k x y : ℕ) → h ≤ k → x / 2 ^ h ≡ y / 2 ^ h → x / 2 ^ k ≡ y / 2 ^ k
coarser h k x y le same = coarser_by (k - h) h k x y (omega (arith, le)) same

module _ {P : Type 0} (net : Networks P) (documented : Documented net) where
  -- The address with this number, among those of this length, is one of the network.
  abbrev pub covers : P → (length n : ℕ) → Bool
  covers p length n =
      eqb (net.bit_len p) length
      && eqb (n / 2 ^ host_bits net p) (documented.address p / 2 ^ host_bits net p)

  -- Both texts can be read, and no address is one of both networks.
  abbrev pub Disjoint : String → String → Type 0
  Disjoint a b =
      (p : P) × (q : P) × (net.parse_prefix a ≡ some p)
      × (net.parse_prefix b ≡ some q)
      × ((length n : ℕ) → (covers p length n && covers q length n) ≡ false)

  -- Of two networks that share an address, the larger one includes the address of the other.
  larger_includes :
      (p q : P) (length n : ℕ)
      → host_bits net q ≤ host_bits net p
      → covers p length n ≡ true
      → covers q length n ≡ true
      → (eqb (net.bit_len p) (net.bit_len q)
          && eqb
              (documented.address p / 2 ^ host_bits net p)
              (documented.address q / 2 ^ host_bits net p))
        ≡ true
  larger_includes p q length n le first second =
      let same =
        coarser (host_bits net q) (host_bits net p) n (documented.address q) le (ground arith) in
      ground (arith, same)

  pub cidrs_overlap-Disjoint : (a b : String) → cidrs_overlap net a b ≡ ok false → Disjoint a b
  unfolding cidrs_overlap
  cidrs_overlap-Disjoint a b h = elim (Option-cases (net.parse_prefix a)) [
    | inl e ↦ absurd (ground arith)
    | inr (p, e) ↦ elim (Option-cases (net.parse_prefix b)) [
      | inl f ↦ absurd (ground arith)
      | inr (q, f) ↦
          let left = documented.includes a b p q e f in
          let right = documented.includes b a q p f e in
          let apart : (net.contains_address p q || net.contains_address q p) ≡ false =
            ground arith in
          (
            p,
            q,
            e,
            f,
            λ length n. elim (Bool-cases (covers p length n && covers q length n)) [
              | inr neither ↦ neither
              | inl shared ↦ elim (Bool-cases (leb (host_bits net q) (host_bits net p))) [
                | inl large ↦
                    let found =
                      larger_includes p q length n (ground arith) (ground arith) (ground arith) in
                    absurd (ground arith)
                | inr small ↦
                    let found =
                      larger_includes q p length n (ground arith) (ground arith) (ground arith) in
                    absurd (ground arith)
              ]
            ],
          )
    ]
  ]
