-- ===== src/Collections/Membership.antt =====
-- internal/collections/sets.go: the operations as operations on membership.
use osac_fulfillment_service.Prelude.{not, ◌&&◌, ◌||◌, ◌≡◌, List, [], arith}
use osac_fulfillment_service.Prelude.Compare.{Comparable}
use osac_fulfillment_service.Collections.{
  Set, new_set, negate, contains, union, intersection, difference,
}
use osac_fulfillment_service.Collections.Maps.{
  has_key, has_key-put_all, has_key-union_maps, has_key-intersect_maps, has_key-diff_maps,
}

module _ {ℓ} {A : Type ℓ} ⦃c : Comparable A⦄ where
  pub contains-new_set : (xs : List A) (x : A) → contains (new_set xs) x ≡ has_key xs x
  unfolding contains new_set has_key
  contains-new_set xs x = ground (arith, has_key-put_all xs [] x)

  -- An item is in the union exactly when it is in one of the two sets, finite or infinite.
  pub contains-union :
      (s t : Set A) (x : A) → contains (union s t) x ≡ (contains s x || contains t x)
  unfolding contains union
  contains-union s t x = ground (
    arith,
    has_key-union_maps s.items t.items x,
    has_key-intersect_maps s.items t.items x,
    has_key-diff_maps s.items t.items x,
    has_key-diff_maps t.items s.items x,
  )

  -- An item is in the intersection exactly when it is in both sets, finite or infinite.
  pub contains-intersection :
      (s t : Set A) (x : A) → contains (intersection s t) x ≡ (contains s x && contains t x)
  unfolding contains intersection
  contains-intersection s t x = ground (
    arith,
    has_key-union_maps s.items t.items x,
    has_key-intersect_maps s.items t.items x,
    has_key-diff_maps s.items t.items x,
    has_key-diff_maps t.items s.items x,
  )

  pub contains-negate : (s : Set A) (x : A) → contains (negate s) x ≡ not (contains s x)
  unfolding contains negate
  contains-negate s x = ground arith

  -- An item is in the difference exactly when it is in the first set and not in the second.
  pub contains-difference :
      (s t : Set A) (x : A) → contains (difference s t) x ≡ (contains s x && not (contains t x))
  unfolding difference
  contains-difference s t x =
      ground (arith, contains-intersection s (negate t) x, contains-negate t x)

  -- Union, intersection, difference and complement have the items of the sets that they are named
  -- for, each of the two sets being finite or infinite.
  pub contains-operations :
      (s t : Set A) (x : A)
      → (contains (union s t) x ≡ (contains s x || contains t x))
        × (contains (intersection s t) x ≡ (contains s x && contains t x))
        × (contains (difference s t) x ≡ (contains s x && not (contains t x)))
        × (contains (negate s) x ≡ not (contains s x))
  contains-operations s t x = (
    contains-union s t x,
    contains-intersection s t x,
    contains-difference s t x,
    contains-negate s x,
  )
