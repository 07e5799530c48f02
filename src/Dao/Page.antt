-- ===== src/Dao/Page.antt =====
-- internal/database/dao/generic_dao_list.go: the objects that a list request answers with.
use mathlib.Core.List.{Memᴰ}
use osac_fulfillment_service.Prelude.{
  ℕ, zero, suc, ◌≤◌, true, ◌≡◌, ◌≢◌, ◌∙◌, sym, refl, inl, inr, String, List, [], ◌∷◌, map, some,
  length, arith, All, Bool-cases,
}
use osac_fulfillment_service.Prelude.Compare.{string_comparable}
use osac_fulfillment_service.Prelude.Int.{ℤ}
use osac_fulfillment_service.Prelude.Sort.{str_leb}
use osac_fulfillment_service.Errors.{ok, Result-cases}
use osac_fulfillment_service.Collections.{Set, contains}
use osac_fulfillment_service.Dao.{Row, Object, Store, TenancyFilter, tenancy_filter, object_of}
use osac_fulfillment_service.Dao.Filter.{Expr}
use osac_fulfillment_service.Dao.Filter.Meaning.{IsReadable, precedence_of}
use osac_fulfillment_service.Dao.Listing.{
  Conditions, ListResponse, says, selects, matching, insert_by_id, order_by_id, take, drop,
  page_offset, page_limit, list,
}
use osac_fulfillment_service.Dao.Selection.{selects_visible}

module _ {ℓ κ} {A : Type ℓ} (P : A → Type κ) where
  All-take : (n : ℕ) (xs : List A) → All P xs → All P (take n xs)
  All-take zero xs h = tt
  All-take (suc n) [] h = tt
  All-take (suc n) (x ∷ xs) h = (h.0, All-take n xs h.1)

  All-drop : (n : ℕ) (xs : List A) → All P xs → All P (drop n xs)
  All-drop zero xs h = h
  All-drop (suc n) [] h = tt
  All-drop (suc n) (x ∷ xs) h = All-drop n xs h.1

length-take {ℓ} : {A : Type ℓ} (n : ℕ) (xs : List A) → length (take n xs) ≤ n
length-take zero xs = omega arith
length-take (suc n) [] = omega arith
length-take (suc n) (x ∷ xs) = omega (arith, length-take n xs)

length-map {ℓ κ} :
    {A : Type ℓ} {B : Type κ} (f : A → B) (xs : List A) → length (map f xs) ≡ length xs
length-map f [] = refl
length-map f (x ∷ xs) = rw (length-map f xs)

All-map {ℓ κ μ} :
    {A : Type ℓ} {B : Type κ} (f : A → B) (Q : B → Type μ) (xs : List A)
    → All (λ x. Q (f x)) xs
    → All Q (map f xs)
All-map f Q [] h = tt
All-map f Q (x ∷ xs) h = (h.0, All-map f Q xs h.1)

module _ {D : Type 0} (P : Row D → Type 0) where
  All-insert_by_id : (x : Row D) (ys : List (Row D)) → P x → All P ys → All P (insert_by_id x ys)
  unfolding insert_by_id
  All-insert_by_id x [] p h = (p, tt)
  All-insert_by_id x (y ∷ ys) p h = elim (Bool-cases (str_leb x.id y.id)) [
    | inl b ↦ rw b (p, h)
    | inr b ↦ rw b (h.0, All-insert_by_id x ys p h.1)
  ]

  All-order_by_id : (xs : List (Row D)) → All P xs → All P (order_by_id xs)
  unfolding order_by_id
  All-order_by_id [] h = tt
  All-order_by_id (x ∷ xs) h = All-insert_by_id x (order_by_id xs) h.0 (All-order_by_id xs h.1)

module _ {D : Type 0} (sql : Conditions D) where
  -- A row of the table that the where clause selects.
  abbrev Selected : TenancyFilter → Expr → List (Row D) → Row D → Type 0
  Selected clause e table row = Memᴰ row table × (selects sql clause (some e) row ≡ true)

  All-matching :
      (clause : TenancyFilter) (e : Expr) (table rows : List (Row D))
      → All (λ row. Memᴰ row table) rows
      → All (Selected clause e table) (matching sql clause (some e) rows)
  unfolding matching
  All-matching clause e table [] h = tt
  All-matching clause e table (row ∷ rows) h = elim (Bool-cases (selects sql clause (some e) row)) [
    | inl b ↦ rw b ((h.0, b), All-matching clause e table rows h.1)
    | inr b ↦ rw b (All-matching clause e table rows h.1)
  ]

All-later :
    {D : Type 0} (x : Row D) (table rows : List (Row D))
    → All (λ row. Memᴰ row table) rows
    → All (λ row. Memᴰ row (x ∷ table)) rows
All-later x table [] h = tt
All-later x table (row ∷ rows) h = (Memᴰ.tail h.0, All-later x table rows h.1)

All-self : {D : Type 0} (rows : List (Row D)) → All (λ row. Memᴰ row rows) rows
All-self [] = tt
All-self (row ∷ rows) = (Memᴰ.head refl, All-later row rows rows (All-self rows))

module _ {D : Type 0} (sql : Conditions D) (default_limit max_limit : ℕ) where
  -- An object that stands for a row of the table whose tenant is visible and that the filter selects.
  abbrev pub IsListed : Set String → Expr → List (Row D) → Object D → Type 0
  IsListed visible e table object =
      (row : Row D) × Memᴰ row table
      × (object ≡ object_of visible row)
      × (contains visible row.tenant ≡ true)
      × (says sql e row ≡ true)

  listed :
      (visible : Set String) (clause : TenancyFilter) (e : Expr) (table rows : List (Row D))
      → tenancy_filter visible ≡ ok clause
      → IsReadable e
      → precedence_of e ≢ 0
      → All (Selected sql clause e table) rows
      → All (λ row. IsListed visible e table (object_of visible row)) rows
  listed visible clause e table [] c h tight s = tt
  listed visible clause e table (row ∷ rows) c h tight s =
      let both = sym (selects_visible sql visible clause e row c h tight) ∙ s.0.1 in
      (
        (row, s.0.0, refl, ground arith, ground arith),
        listed visible clause e table rows c h tight s.1,
      )

  -- A list request that succeeds answers with no more objects than its limit allows, and each of them
  -- stands for a row of the table whose tenant the caller sees and that the filter selects, if the
  -- filter does not have `||` as its outermost operator and PostgreSQL reads it as it was written.
  pub list_sound :
      (visible : Set String) (e : Expr) (offset limit : ℤ) (store : Store D)
      (response : ListResponse D)
      → IsReadable e
      → precedence_of e ≢ 0
      → list sql default_limit max_limit visible (some e) offset limit store ≡ ok response
      → All (IsListed visible e store.rows) response.items
        × (response.size ≡ length response.items)
        × (response.size ≤ page_limit default_limit max_limit limit)
  unfolding list
  list_sound visible e offset limit store response h tight s =
      elim (Result-cases (tenancy_filter visible)) [
        | inr (f, c) ↦ absurd (ground arith)
        | inl (clause, c) ↦
            let n = page_limit default_limit max_limit limit in
            let found = matching sql clause (some e) store.rows in
            let rest = drop (page_offset offset) (order_by_id found) in
            let chosen = All-matching sql clause e store.rows store.rows (All-self store.rows) in
            let ordered = All-order_by_id (Selected sql clause e store.rows) found chosen in
            let page = All-take (Selected sql clause e store.rows) n rest (
              All-drop (Selected sql clause e store.rows) (page_offset offset) (order_by_id found)
                ordered) in
            let objects =
              All-map (object_of visible) (IsListed visible e store.rows) (take n rest)
                (listed visible clause e store.rows (take n rest) c h tight page) in
            let items : map (object_of visible) (take n rest) ≡ response.items = ground arith in
            (
              rw (← items) objects,
              ground arith,
              ground (arith, length-map (object_of visible) (take n rest), length-take n rest),
            )
      ]
