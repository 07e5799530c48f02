-- ===== src/Dao/Rows.antt =====
-- internal/database/dao: facts about the where clauses and about the list of rows.
use osac_fulfillment_service.Prelude.{
  Bool, true, false, not, ◌||◌, ◌≡◌, refl, String, List, [], ◌∷◌, Option, none, some, eqb, arith,
  eq_iff, if◌then◌else◌,
}
use osac_fulfillment_service.Prelude.Compare.{◌==◌, string_comparable}
use osac_fulfillment_service.Prelude.Sort.{sort_strings, insert_sorted}
use osac_fulfillment_service.Errors.{ok}
use osac_fulfillment_service.Collections.{Set, contains, universal, empty, inclusions}
use osac_fulfillment_service.Collections.Maps.{has_key}
use osac_fulfillment_service.Dao.{
  Row, TenancyFilter, no_filter, tenancy_filter, admits, find_row, set_row, remove_row,
}
use osac_fulfillment_service.Dao.Requests.{has_row, is_nil}

has_key-insert_sorted :
    (x : String) (ys : List String) (k : String)
    → has_key (insert_sorted x ys) k ≡ (x == k || has_key ys k)
unfolding has_key insert_sorted
has_key-insert_sorted x [] k = refl
has_key-insert_sorted x (y ∷ ys) k = ground (arith, has_key-insert_sorted x ys k)

pub has_key-sort_strings :
    (xs : List String) (k : String) → has_key (sort_strings xs) k ≡ has_key xs k
unfolding has_key sort_strings
has_key-sort_strings [] k = refl
has_key-sort_strings (x ∷ xs) k =
    ground (arith, has_key-insert_sorted x (sort_strings xs) k, has_key-sort_strings xs k)

has_key-nil : (k : String) → has_key [] k ≡ false
unfolding has_key
has_key-nil k = refl

clause_of :
    (infinite : Bool) (items : List String) (clause : TenancyFilter) (tenant : String)
    → let s : Set String = record { infinite = infinite; items = items } in
      tenancy_filter s ≡ ok clause → admits clause tenant ≡ contains s tenant
unfolding tenancy_filter admits contains universal empty inclusions
clause_of true [] clause tenant h = ground (arith, has_key-nil tenant)
clause_of true (y ∷ ys) clause tenant h = absurd (ground arith)
clause_of false [] clause tenant h = ground (arith, has_key-nil tenant)
clause_of false (y ∷ ys) clause tenant h = ground (arith, has_key-sort_strings (y ∷ ys) tenant)

-- The where clause that the tenancy filter writes selects exactly the rows of visible tenants.
pub admits-tenancy_filter :
    (visible : Set String) (clause : TenancyFilter) (tenant : String)
    → tenancy_filter visible ≡ ok clause
    → admits clause tenant ≡ contains visible tenant
admits-tenancy_filter visible clause tenant h =
    clause_of visible.infinite visible.items clause tenant h

module _ {D : Type 0} where
  -- The row with an identifier, whoever sees it.
  abbrev pub row_at : String → List (Row D) → Option (Row D)
  row_at id rows = find_row no_filter id rows

  -- No identifier stands in two rows: the primary key.
  abbrev pub Unique : List (Row D) → Type 0
  Unique [] = Unit
  Unique (row ∷ rows) = (has_row row.id rows ≡ false) × Unique rows

  -- A row is alive, or it waits for the finalizers that it still has.
  abbrev pub is_pending : Row D → Bool
  is_pending row = eqb row.deletion_timestamp 0 || not (is_nil row.finalizers)

  abbrev pub AllPending : List (Row D) → Type 0
  AllPending [] = Unit
  AllPending (row ∷ rows) = (is_pending row ≡ true) × AllPending rows

  pub find_row-some :
      (clause : TenancyFilter) (id : String) (rows : List (Row D)) (row : Row D)
      → find_row clause id rows ≡ some row
      → (admits clause row.tenant ≡ true) × (row.id ≡ id) × (has_row id rows ≡ true)
  unfolding find_row has_row
  find_row-some clause id [] row h = absurd (ground arith)
  find_row-some clause id (r ∷ rs) row h =
      ground (arith, eq_iff r.id id, find_row-some clause id rs row)

  find_row-absent :
      (clause : TenancyFilter) (id : String) (rows : List (Row D))
      → has_row id rows ≡ false
      → find_row clause id rows ≡ none
  unfolding find_row has_row
  find_row-absent clause id [] h = refl
  find_row-absent clause id (r ∷ rs) h = ground (arith, find_row-absent clause id rs)

  -- With unique identifiers a request finds the row with its identifier, if the clause admits it.
  pub find_row-row_at :
      (clause : TenancyFilter) (id : String) (rows : List (Row D))
      → Unique rows
      → find_row clause id rows ≡ elim (row_at id rows) [
        | none ↦ none
        | some row ↦ if admits clause row.tenant then some row else none
      ]
  unfolding find_row
  find_row-row_at clause id [] u = refl
  find_row-row_at clause id (r ∷ rs) u =
      ground (arith, eq_iff r.id id, find_row-row_at clause id rs, find_row-absent clause id rs)

  pub row_at-set_row :
      (j : String) (new : Row D) (rows : List (Row D))
      → Unique rows
      → row_at j (set_row new rows)
        ≡ (if new.id == j then (if has_row j rows then some new else none) else row_at j rows)
  unfolding find_row set_row has_row
  row_at-set_row j new [] u = ground arith
  row_at-set_row j new (r ∷ rs) u =
      ground (arith, eq_iff r.id j, eq_iff new.id j, eq_iff r.id new.id, row_at-set_row j new rs)

  has_row-set_row :
      (j : String) (new : Row D) (rows : List (Row D))
      → has_row j (set_row new rows) ≡ has_row j rows
  unfolding set_row has_row
  has_row-set_row j new [] = refl
  has_row-set_row j new (r ∷ rs) = ground (arith, eq_iff r.id new.id, has_row-set_row j new rs)

  pub set_row-Unique : (new : Row D) (rows : List (Row D)) → Unique rows → Unique (set_row new rows)
  unfolding set_row
  set_row-Unique new [] u = tt
  set_row-Unique new (r ∷ rs) u = ground (
    arith,
    eq_iff r.id new.id,
    set_row-Unique new rs,
    has_row-set_row r.id new rs,
    has_row-set_row new.id new rs,
  )

  pub set_row-AllPending :
      (new : Row D) (rows : List (Row D))
      → is_pending new ≡ true
      → AllPending rows
      → AllPending (set_row new rows)
  unfolding set_row
  set_row-AllPending new [] p a = tt
  set_row-AllPending new (r ∷ rs) p a = ground (arith, set_row-AllPending new rs p)

  pub row_at-remove_row :
      (j id : String) (rows : List (Row D))
      → row_at j (remove_row id rows) ≡ (if id == j then none else row_at j rows)
  unfolding find_row remove_row
  row_at-remove_row j id [] = ground arith
  row_at-remove_row j id (r ∷ rs) =
      ground (arith, eq_iff r.id j, eq_iff id j, eq_iff r.id id, row_at-remove_row j id rs)

  has_row-remove_row :
      (j id : String) (rows : List (Row D))
      → has_row j rows ≡ false
      → has_row j (remove_row id rows) ≡ false
  unfolding remove_row has_row
  has_row-remove_row j id [] h = refl
  has_row-remove_row j id (r ∷ rs) h = ground (arith, has_row-remove_row j id rs)

  pub remove_row-Unique :
      (id : String) (rows : List (Row D)) → Unique rows → Unique (remove_row id rows)
  unfolding remove_row
  remove_row-Unique id [] u = tt
  remove_row-Unique id (r ∷ rs) u =
      ground (arith, remove_row-Unique id rs, has_row-remove_row r.id id rs)

  pub remove_row-AllPending :
      (id : String) (rows : List (Row D)) → AllPending rows → AllPending (remove_row id rows)
  unfolding remove_row
  remove_row-AllPending id [] a = tt
  remove_row-AllPending id (r ∷ rs) a = ground (arith, remove_row-AllPending id rs)

  -- Removing the row that was just written leaves the rest as it was.
  pub remove-set-AllPending :
      (new : Row D) (rows : List (Row D))
      → Unique rows
      → AllPending rows
      → AllPending (remove_row new.id (set_row new rows))
  unfolding remove_row set_row
  remove-set-AllPending new [] u a = tt
  remove-set-AllPending new (r ∷ rs) u a = ground (
    arith,
    eq_iff r.id new.id,
    eq_iff new.id new.id,
    remove-set-AllPending new rs,
    remove_row-AllPending new.id rs,
  )
