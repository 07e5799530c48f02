-- ===== src/Dao/Paging.antt =====
-- internal/database/dao/generic_dao_list.go: lists of rows, cut into pages.
use native.Mathlib.Nat.{zero-add, suc-add}
use osac_fulfillment_service.Prelude.{
  ℕ, zero, suc, ◌+◌, ◌-◌, ◌≤◌, ◌≡◌, ◌∙◌, ap, refl, Option, List, [], ◌∷◌, ◌++◌, map, leb, length,
  arith, if◌then◌else◌,
}
use osac_fulfillment_service.Prelude.Compare.{string_comparable}
use osac_fulfillment_service.Dao.{Row, TenancyFilter}
use osac_fulfillment_service.Dao.Filter.{Expr}
use osac_fulfillment_service.Dao.Listing.{
  Conditions, matching, insert_by_id, order_by_id, take, drop,
}

module _ {ℓ} {A : Type ℓ} where
  pub length-drop : (n : ℕ) (xs : List A) → length (drop n xs) ≡ length xs - n
  length-drop zero xs = omega arith
  length-drop (suc n) [] = omega arith
  length-drop (suc n) (x ∷ xs) = omega (arith, length-drop n xs)

  pub length-take :
      (n : ℕ) (xs : List A) → length (take n xs) ≡ (if leb (length xs) n then length xs else n)
  length-take zero xs = ground arith
  length-take (suc n) [] = ground arith
  length-take (suc n) (x ∷ xs) = ground (arith, length-take n xs)

  pub drop-drop : (n m : ℕ) (xs : List A) → drop (n + m) xs ≡ drop m (drop n xs)
  drop-drop zero m xs = rw (zero-add m) refl
  drop-drop (suc n) m (x ∷ xs) = rw (suc-add n m) (drop-drop n m xs)
  drop-drop (suc n) zero [] = rw (suc-add n zero) refl
  drop-drop (suc n) (suc m) [] = rw (suc-add n (suc m)) refl

  pub take-drop : (n : ℕ) (xs : List A) → take n xs ++ drop n xs ≡ xs
  take-drop zero xs = refl
  take-drop (suc n) [] = refl
  take-drop (suc n) (x ∷ xs) = ap (λ ys. x ∷ ys) (take-drop n xs)

  pub take_all : (n : ℕ) (xs : List A) → length xs ≤ n → take n xs ≡ xs
  take_all zero [] le = refl
  take_all zero (x ∷ xs) le = absurd (omega arith)
  take_all (suc n) [] le = refl
  take_all (suc n) (x ∷ xs) le = ap (λ ys. x ∷ ys) (take_all n xs (omega arith))

pub length-map {ℓ κ} :
    {A : Type ℓ} {B : Type κ} (f : A → B) (xs : List A) → length (map f xs) ≡ length xs
length-map f [] = refl
length-map f (x ∷ xs) = ap suc (length-map f xs)

pub map-append {ℓ κ} :
    {A : Type ℓ} {B : Type κ} (f : A → B) (xs ys : List A) → map f (xs ++ ys) ≡ map f xs ++ map f ys
map-append f [] ys = refl
map-append f (x ∷ xs) ys = ap (λ zs. f x ∷ zs) (map-append f xs ys)

module _ {D : Type 0} where
  length-insert_by_id :
      (x : Row D) (ys : List (Row D)) → length (insert_by_id x ys) ≡ suc (length ys)
  unfolding insert_by_id
  length-insert_by_id x [] = refl
  length-insert_by_id x (y ∷ ys) = ground (arith, length-insert_by_id x ys)

  pub length-order_by_id : (xs : List (Row D)) → length (order_by_id xs) ≡ length xs
  unfolding order_by_id
  length-order_by_id [] = refl
  length-order_by_id (x ∷ xs) =
      length-insert_by_id x (order_by_id xs) ∙ ap suc (length-order_by_id xs)

pub length-matching :
    {D : Type 0} (sql : Conditions D) (clause : TenancyFilter) (e : Option Expr)
    (rows : List (Row D))
    → length (matching sql clause e rows) ≤ length rows
unfolding matching
length-matching sql clause e [] = omega arith
length-matching sql clause e (row ∷ rows) = ground (arith, length-matching sql clause e rows)
