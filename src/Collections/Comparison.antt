-- ===== src/Collections/Comparison.antt =====
-- internal/collections/sets.go: `Subset`, `Equal`, `Empty` and `Universal` against membership.
use osac_fulfillment_service.Prelude.{
  Bool, true, false, not, ◌≡◌, ◌↔◌, List, [], length, arith, eqb, if◌then◌else◌,
}
use osac_fulfillment_service.Prelude.Compare.{Comparable}
use osac_fulfillment_service.Collections.{
  Set, new_set, negate, contains, union, intersection, difference, subset, equal,
}
use osac_fulfillment_service.Collections.Maps.{
  has_key, union_maps, intersect_maps, diff_maps, all_in, none_in, all_in_sound, all_in_complete,
  none_in_sound, none_in_complete, has_key-union_maps,
}
use osac_fulfillment_service.Collections.Distinct.{
  Distinct, put_all-Distinct, union_maps-Distinct, intersect_maps-Distinct, diff_maps-Distinct,
  length_eq, length_le,
}

-- A type with a value outside every finite list, as `string` has.
abbrev pub HasFresh {ℓ} : (A : Type ℓ) ⦃c : Comparable A⦄ → Type ℓ
HasFresh A = (xs : List A) → (x : A) × (has_key xs x ≡ false)

module _ {ℓ} {A : Type ℓ} ⦃c : Comparable A⦄ where
  -- The representation invariant: the key map holds no key twice.
  abbrev pub IsValid : Set A → Type 0
  IsValid s = Distinct s.items

  -- Every set that the constructors and the operations build from valid sets is valid: its key map
  -- holds no key twice.
  pub operations-IsValid :
      (xs : List A) (s t : Set A)
      → IsValid s
      → IsValid t
      → IsValid (new_set xs)
        × IsValid (negate s)
        × IsValid (union s t)
        × IsValid (intersection s t)
        × IsValid (difference s t)
  unfolding new_set negate union intersection difference
  operations-IsValid xs s t v w = (
    put_all-Distinct xs [] tt,
    v,
    ground (arith, laws s.items t.items, laws t.items s.items),
    ground (arith, laws s.items t.items, laws t.items s.items),
    ground (arith, laws s.items t.items, laws t.items s.items),
  )
    where
      laws :
          (a b : List A)
          → Distinct (union_maps a b) × Distinct (intersect_maps a b) × Distinct (diff_maps a b)
      laws a b = (union_maps-Distinct a b, intersect_maps-Distinct a b, diff_maps-Distinct a b)

  subset_sound :
      (s t : Set A) → subset s t ≡ true → (x : A) → contains s x ≡ true → contains t x ≡ true
  unfolding subset contains
  subset_sound s t h x p = ground (
    arith,
    all_in_sound s.items t.items,
    λ (k : all_in s.items t.items ≡ true). all_in_sound s.items t.items k x,
    λ (k : all_in t.items s.items ≡ true). all_in_sound t.items s.items k x,
    λ (k : none_in s.items t.items ≡ true). none_in_sound s.items t.items k x,
  )

  same_keys :
      (xs ys : List A)
      → Distinct xs
      → Distinct ys
      → ((x : A) → has_key xs x ≡ true → has_key ys x ≡ true)
      → ((x : A) → has_key ys x ≡ true → has_key xs x ≡ true)
      → (if not (eqb (length xs) (length ys)) then false else all_in xs ys) ≡ true
  same_keys xs ys d e up down =
      ground (arith, length_le xs ys d up, length_le ys xs e down, all_in_complete xs ys up)

  module _ (fresh : HasFresh A) where
    fresh_of_both : (xs ys : List A) → (x : A) × (has_key xs x ≡ false) × (has_key ys x ≡ false)
    fresh_of_both xs ys =
        let (x, h) = fresh (union_maps xs ys) in
        (x, ground (arith, has_key-union_maps xs ys x), ground (arith, has_key-union_maps xs ys x))

    subset_complete :
        (a : Bool) (xs : List A) (b : Bool) (ys : List A)
        → let s : Set A = record { infinite = a; items = xs } in
          let t : Set A = record { infinite = b; items = ys } in
          ((x : A) → contains s x ≡ true → contains t x ≡ true) → subset s t ≡ true
    unfolding subset contains
    subset_complete false xs false ys h = all_in_complete xs ys h
    subset_complete false xs true ys h = none_in_complete xs ys (λ j k. ground (arith, h j))
    subset_complete true xs false ys h = let (x, p, q) = fresh_of_both xs ys in ground (arith, h x)
    subset_complete true xs true ys h = all_in_complete ys xs (λ j k. ground (arith, h j))

    -- Over a type with a value outside every finite list, `Subset` answers true exactly when every
    -- item of the first set is in the second, for all four kinds of pairs.
    pub subset_iff :
        (s t : Set A) → (subset s t ≡ true) ↔ ((x : A) → contains s x ≡ true → contains t x ≡ true)
    subset_iff s t = (subset_sound s t, subset_complete s.infinite s.items t.infinite t.items)

    equal_sound :
        (a : Bool) (xs : List A) (b : Bool) (ys : List A)
        → let s : Set A = record { infinite = a; items = xs } in
          let t : Set A = record { infinite = b; items = ys } in
          Distinct xs → equal s t ≡ true → (x : A) → contains s x ≡ contains t x
    unfolding equal contains
    equal_sound a xs b ys d h x =
        let inner : (all_in xs ys ≡ true) × (length xs ≡ length ys) =
          (ground arith, ground arith) in
        let up = all_in_sound xs ys inner.0 in ground (arith, up x, length_eq xs ys x d up inner.1)

    equal_complete :
        (a : Bool) (xs : List A) (b : Bool) (ys : List A)
        → let s : Set A = record { infinite = a; items = xs } in
          let t : Set A = record { infinite = b; items = ys } in
          Distinct xs → Distinct ys → ((x : A) → contains s x ≡ contains t x) → equal s t ≡ true
    unfolding equal contains
    equal_complete false xs false ys d e h =
        same_keys xs ys d e (λ j k. ground (arith, h j)) (λ j k. ground (arith, h j))
    equal_complete true xs true ys d e h =
        same_keys xs ys d e (λ j k. ground (arith, h j)) (λ j k. ground (arith, h j))
    equal_complete true xs false ys d e h =
        let (x, p, q) = fresh_of_both xs ys in ground (arith, h x)
    equal_complete false xs true ys d e h =
        let (x, p, q) = fresh_of_both xs ys in ground (arith, h x)

    -- Over a type with a value outside every finite list, `Equal` answers true on valid sets
    -- exactly when they have the same items.
    pub equal_iff :
        (s t : Set A)
        → IsValid s
        → IsValid t
        → (equal s t ≡ true) ↔ ((x : A) → contains s x ≡ contains t x)
    equal_iff s t v w = (
      equal_sound s.infinite s.items t.infinite t.items v,
      equal_complete s.infinite s.items t.infinite t.items v w,
    )
