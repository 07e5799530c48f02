-- ===== src/Dao/Listing.antt =====
-- internal/database/dao/generic_dao_list.go: the rows that a list request selects, and its page.
use osac_fulfillment_service.Prelude.{
  ℕ, zero, suc, Bool, true, not, ◌||◌, ◌&&◌, String, List, [], ◌∷◌, map, Option, none, some, length,
  ltb, if◌then◌else◌,
}
use osac_fulfillment_service.Prelude.Sort.{str_leb}
use osac_fulfillment_service.Prelude.Int.{ℤ, pos, negsuc}
use osac_fulfillment_service.Errors.{Result, ok, ◌>>=◌}
use osac_fulfillment_service.Collections.{Set}
use osac_fulfillment_service.Dao.{
  Row, Object, Store, TenancyFilter, no_filter, tenancy_filter, admits, object_of,
}
use osac_fulfillment_service.Dao.Filter.{
  BinaryOp, logical_and, logical_or, Expr, operand, call, logical_not, Text, single, atom, join,
  translate,
}
use osac_fulfillment_service.Dao.Filter.Reading.{read}
use osac_fulfillment_service.Dao.Filter.Meaning.{value, meaning}

-- The conditions of a filter are numbered from 1: 0 is the condition on the tenant.
unfoldable pub numbered : Expr → Expr
numbered (operand n) = operand (suc n)
numbered (call op l r) = call op (numbered l) (numbered r)
numbered (logical_not e) = logical_not (numbered e)

-- The text after `where`, if there is any. The filter is appended as it was translated.
unfoldable pub where_text : TenancyFilter → Option Expr → Option Text
where_text no_filter none = none
where_text no_filter (some e) = some (translate (numbered e)).sql
where_text _ none = some (single (atom 0))
where_text _ (some e) = some (join (single (atom 0)) logical_and (translate (numbered e)).sql)

-- What the database answers for one row: the conditions of the filter, and the operators between
-- conditions other than `and` and `or`.
pub record Conditions (D : Type 0) : Type 0 where
  pub holds : ℕ → Row D → Bool
  pub other : BinaryOp → Bool → Bool → Bool

module _ {D : Type 0} (sql : Conditions D) where
  abbrev pub apply : BinaryOp → Bool → Bool → Bool
  apply logical_and a b = a && b
  apply logical_or a b = a || b
  apply op a b = sql.other op a b

  abbrev pub condition : TenancyFilter → Row D → ℕ → Bool
  condition clause row zero = admits clause row.tenant
  condition clause row (suc n) = sql.holds n row

  unfoldable pub selects : TenancyFilter → Option Expr → Row D → Bool
  selects clause e row = elim (where_text clause e) [
    | none ↦ true
    | some text ↦ value (condition clause row) apply not (read text)
  ]

  unfoldable pub matching : TenancyFilter → Option Expr → List (Row D) → List (Row D)
  unfolding selects
  matching clause e [] = []
  matching clause e (row ∷ rows) =
      let rest = matching clause e rows in if selects clause e row then row ∷ rest else rest

  -- What the filter says of a row, by itself.
  abbrev pub says : Expr → Row D → Bool
  says e row = meaning (λ n. sql.holds n row) apply not e

module _ {D : Type 0} where
  unfoldable pub insert_by_id : Row D → List (Row D) → List (Row D)
  insert_by_id x [] = x ∷ []
  insert_by_id x (y ∷ ys) =
      let rest = insert_by_id x ys in if str_leb x.id y.id then x ∷ y ∷ ys else y ∷ rest

  -- `order by id`
  unfoldable pub order_by_id : List (Row D) → List (Row D)
  order_by_id [] = []
  order_by_id (x ∷ xs) = insert_by_id x (order_by_id xs)

module _ {ℓ} {A : Type ℓ} where
  abbrev pub take : ℕ → List A → List A
  take zero xs = []
  take (suc n) [] = []
  take (suc n) (x ∷ xs) = x ∷ take n xs

  abbrev pub drop : ℕ → List A → List A
  drop zero xs = xs
  drop (suc n) [] = []
  drop (suc n) (x ∷ xs) = drop n xs

-- `max(r.offset, 0)`
abbrev pub page_offset : ℤ → ℕ
page_offset (pos n) = n
page_offset (negsuc n) = 0

abbrev pub page_limit : ℕ → ℕ → ℤ → ℕ
page_limit default_limit max_limit (negsuc n) = 0
page_limit default_limit max_limit (pos zero) = default_limit
page_limit default_limit max_limit (pos n) = if ltb max_limit n then max_limit else n

pub record ListResponse (D : Type 0) : Type 0 where
  pub size : ℕ
  pub total : ℕ
  pub items : List (Object D)

module _ {D : Type 0} (sql : Conditions D) (default_limit max_limit : ℕ) where
  unfoldable pub list : Set String → Option Expr → ℤ → ℤ → Store D → Result (ListResponse D)
  unfolding order_by_id insert_by_id
  list visible e offset limit store = do
    clause ← tenancy_filter visible
    let found = matching sql clause e store.rows
    let page =
        take (page_limit default_limit max_limit limit)
          (drop (page_offset offset) (order_by_id found))
    let items = map (object_of visible) page
    ok (record { size = length items; total = length found; items = items })
