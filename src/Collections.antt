-- ===== src/Collections.antt =====
-- internal/collections/sets.go: sets given by inclusion or by exclusion.
-- A Go map `map[T]struct{}` is the list of its keys, each once; the list's order stands for the
-- iteration order, which Go leaves open. A nil map and an empty map read alike: both are `[]`.
pub mod Maps
pub mod Membership
pub mod Distinct
pub mod Comparison
mod Examples
use osac_fulfillment_service.Prelude.{
  Bool, true, false, not, ◌&&◌, ◌||◌, List, [], ◌∷◌, Option, none, some, length, eqb, if◌then◌else◌,
}
use osac_fulfillment_service.Prelude.Compare.{Comparable}
use Maps.{has_key, put_all, union_maps, intersect_maps, diff_maps, all_in, none_in}

pub record Set {ℓ} (A : Type ℓ) : Type ℓ where
  pub infinite : Bool
  pub items : List A

module _ {ℓ} {A : Type ℓ} where
  unfoldable pub new_universal_set : Set A
  new_universal_set = record { infinite = true; items = [] }

  unfoldable pub new_empty_set : Set A
  new_empty_set = record { infinite = false; items = [] }

  unfoldable pub empty : Set A → Bool
  empty s = not s.infinite && eqb (length s.items) 0

  unfoldable pub universal : Set A → Bool
  universal s = s.infinite && eqb (length s.items) 0

  unfoldable pub finite : Set A → Bool
  finite s = not s.infinite

  -- `none` is the panic.
  unfoldable pub inclusions : Set A → Option (List A)
  inclusions s = if s.infinite then none else some s.items

  unfoldable pub exclusions : Set A → Option (List A)
  exclusions s = if not s.infinite then none else some s.items

  unfoldable pub negate : Set A → Set A
  negate s = record { infinite = not s.infinite; items = s.items }

abbrev same_finiteness : Bool → Bool → Bool
same_finiteness true b = b
same_finiteness false b = not b

module _ {ℓ} {A : Type ℓ} ⦃c : Comparable A⦄ where
  unfoldable pub new_set : List A → Set A
  new_set items = record { infinite = false; items = put_all items [] }

  unfoldable pub contains : Set A → A → Bool
  contains s item = let found = has_key s.items item in if not s.infinite then found else not found

  unfoldable pub union : Set A → Set A → Set A
  union s other =
      if not s.infinite && not other.infinite
      then record { infinite = false; items = union_maps s.items other.items }
      else if s.infinite && other.infinite
      then record { infinite = true; items = intersect_maps s.items other.items }
      else if s.infinite && not other.infinite
      then record { infinite = true; items = diff_maps s.items other.items }
      else record { infinite = true; items = diff_maps other.items s.items }

  unfoldable pub intersection : Set A → Set A → Set A
  intersection s other =
      if not s.infinite && not other.infinite
      then record { infinite = false; items = intersect_maps s.items other.items }
      else if s.infinite && other.infinite
      then record { infinite = true; items = union_maps s.items other.items }
      else if s.infinite && not other.infinite
      then record { infinite = false; items = diff_maps other.items s.items }
      else record { infinite = false; items = diff_maps s.items other.items }

  unfoldable pub difference : Set A → Set A → Set A
  unfolding intersection negate
  difference s other = intersection s (negate other)

  unfoldable pub subset : Set A → Set A → Bool
  subset s other =
      if not s.infinite && not other.infinite
      then all_in s.items other.items
      else if s.infinite && not other.infinite
      then false
      else if not s.infinite && other.infinite
      then none_in s.items other.items
      else if s.infinite && other.infinite
      then all_in other.items s.items
      else false

  unfoldable pub equal : Set A → Set A → Bool
  equal s other =
      if not (same_finiteness s.infinite other.infinite)
      then false
      else if not (eqb (length s.items) (length other.items))
      then false
      else all_in s.items other.items
