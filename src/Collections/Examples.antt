-- ===== src/Collections/Examples.antt =====
-- internal/collections/sets.go: the theorems at concrete sets of numbers.
use osac_fulfillment_service.Prelude.{
  ℕ, suc, ◌+◌, ◌<◌, ◌||◌, ◌&&◌, not, true, false, ◌≡◌, ◌↔◌, refl, List, [], ◌∷◌, arith,
}
use osac_fulfillment_service.Prelude.Compare.{nat_comparable}
use osac_fulfillment_service.Collections.{
  Set, negate, contains, union, intersection, difference, equal,
}
use osac_fulfillment_service.Collections.Maps.{has_key}
use osac_fulfillment_service.Collections.Membership.{contains-operations}
use osac_fulfillment_service.Collections.Comparison.{HasFresh, IsValid, equal_iff}

abbrev evens : Set ℕ
evens = record { infinite = false; items = 2 ∷ 4 ∷ [] }

abbrev not_two : Set ℕ
not_two = record { infinite = true; items = 2 ∷ [] }

total : List ℕ → ℕ
total [] = 0
total (x ∷ xs) = x + total xs

has_key-above : (xs : List ℕ) (n : ℕ) → total xs < n → has_key xs n ≡ false
unfolding total has_key
has_key-above [] n h = refl
has_key-above (x ∷ xs) n h = ground (arith, has_key-above xs n)

nat_fresh : HasFresh ℕ
nat_fresh xs = (suc (total xs), has_key-above xs (suc (total xs)) (omega arith))

evens-IsValid : IsValid evens
unfolding has_key
evens-IsValid = ground arith

not_two-IsValid : IsValid not_two
unfolding has_key
not_two-IsValid = ground arith

equal_iff_example : (equal evens not_two ≡ true) ↔ ((x : ℕ) → contains evens x ≡ contains not_two x)
equal_iff_example = equal_iff nat_fresh evens not_two evens-IsValid not_two-IsValid

contains-operations_example :
    (contains (union evens not_two) 4 ≡ (contains evens 4 || contains not_two 4))
    × (contains (intersection evens not_two) 4 ≡ (contains evens 4 && contains not_two 4))
    × (contains (difference evens not_two) 4 ≡ (contains evens 4 && not (contains not_two 4)))
    × (contains (negate evens) 4 ≡ not (contains evens 4))
contains-operations_example = contains-operations evens not_two 4
