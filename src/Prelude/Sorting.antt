-- ===== src/Prelude/Sorting.antt =====
-- Sorting forgets the order of a list, and nothing else.
use mathlib.Core.Path.{◌≡◌, refl, sym, ◌∙◌, ap}
use mathlib.Core.List.{List, [], ◌∷◌, foldr, Perm}
use mathlib.Core.List.Perm.{foldr-eq}
use Prim.Native.Nat.{ℕ, suc}
use text.Mathlib.TextEquality.{IsScalar-prop}
use osac_fulfillment_service.Prelude.Lists.{length}
use Prim.Native.String.{String}
use native.Mathlib.Omega.{arith}
use osac_fulfillment_service.Prelude.Sort.{insert_sorted, sort_strings}
use osac_fulfillment_service.Prelude.Order.{str_leb_trans, str_leb_total, str_leb_antisym}

pub insert-insert :
    (x y : String) (zs : List String)
    → insert_sorted x (insert_sorted y zs) ≡ insert_sorted y (insert_sorted x zs)
unfolding insert_sorted
insert-insert x y [] = ground (arith, str_leb_total x y, str_leb_antisym x y, str_leb_total y x)
insert-insert x y (z ∷ zs) = ground (
  arith,
  str_leb_total x y,
  str_leb_antisym x y,
  str_leb_total y x,
  str_leb_trans x y z,
  str_leb_trans y x z,
  str_leb_total x z,
  str_leb_total y z,
  str_leb_trans x z y,
  str_leb_trans y z x,
  insert-insert x y zs,
)

sort_strings-foldr : (xs : List String) → sort_strings xs ≡ foldr insert_sorted [] xs
unfolding sort_strings
sort_strings-foldr [] = refl
sort_strings-foldr (x ∷ xs) = ap (insert_sorted x) (sort_strings-foldr xs)

length-foldr : (xs : List String) → length xs ≡ foldr (λ x n. suc n) 0 xs
length-foldr [] = refl
length-foldr (x ∷ xs) = ap suc (length-foldr xs)

pub sort-Perm : {xs ys : List String} → Perm xs ys → sort_strings xs ≡ sort_strings ys
sort-Perm {xs} {ys} p =
    sort_strings-foldr xs
    ∙ foldr-eq (hlevel (IsScalar-prop)) insert_sorted insert-insert p []
    ∙ sym (sort_strings-foldr ys)

pub length-Perm : {xs ys : List String} → Perm xs ys → length xs ≡ length ys
length-Perm {xs} {ys} p =
    length-foldr xs
    ∙ foldr-eq (hlevel) (λ (x : String) (n : ℕ). suc n) (λ x y n. refl) p 0
    ∙ sym (length-foldr ys)
