-- ===== src/Dao/Absence.antt =====
-- internal/database/dao/generic_dao_list.go: what it means that a list request answers with nothing.
use osac_fulfillment_service.Prelude.{
  false, ◌&&◌, ◌≡◌, ◌≢◌, ◌∙◌, sym, inl, inr, String, List, [], ◌∷◌, some, ltb, length, arith, All,
  Bool-cases, map,
}
use osac_fulfillment_service.Prelude.Compare.{string_comparable}
use osac_fulfillment_service.Prelude.Int.{pos}
use osac_fulfillment_service.Errors.{ok, >>=-eq-ok}
use osac_fulfillment_service.Collections.{Set, contains}
use osac_fulfillment_service.Dao.{Row, Store, TenancyFilter, tenancy_filter, object_of}
use osac_fulfillment_service.Dao.Filter.{Expr}
use osac_fulfillment_service.Dao.Filter.Meaning.{IsReadable, precedence_of}
use osac_fulfillment_service.Dao.Listing.{
  Conditions, ListResponse, says, selects, matching, order_by_id, take, list,
}
use osac_fulfillment_service.Dao.Paging.{length-take, length-map, length-order_by_id}
use osac_fulfillment_service.Dao.Selection.{selects_visible}

module _ {D : Type 0} (sql : Conditions D) where
  -- A row of a visible tenant is not one that the filter selects.
  abbrev pub Unlisted : Set String → Expr → List (Row D) → Type 0
  Unlisted visible e rows =
      All (λ (row : Row D). (contains visible row.tenant && says sql e row) ≡ false) rows

  none_matching :
      (visible : Set String) (clause : TenancyFilter) (e : Expr) (rows : List (Row D))
      → tenancy_filter visible ≡ ok clause
      → IsReadable e
      → precedence_of e ≢ 0
      → length (matching sql clause (some e) rows) ≡ 0
      → Unlisted visible e rows
  unfolding matching
  none_matching visible clause e [] c readable tight h = tt
  none_matching visible clause e (row ∷ rows) c readable tight h =
      elim (Bool-cases (selects sql clause (some e) row)) [
        | inl hit ↦ absurd (let one = rw hit at h in omega arith)
        | inr miss ↦ (
          sym (selects_visible sql visible clause e row c readable tight) ∙ miss,
          none_matching visible clause e rows c readable tight (rw miss at h),
        )
      ]

  -- A request for one row finds none.
  pub list-Unlisted :
      (visible : Set String) (e : Expr) (store : Store D) (response : ListResponse D)
      → IsReadable e
      → precedence_of e ≢ 0
      → list sql 100 1000 visible (some e) (pos 0) (pos 1) store ≡ ok response
      → ltb 0 response.size ≡ false
      → Unlisted visible e store.rows
  unfolding list
  list-Unlisted visible e store response readable tight h empty =
      let (clause, c, h') = >>=-eq-ok (tenancy_filter visible) _ h in
      let found = matching sql clause (some e) store.rows in
      let page = take 1 (order_by_id found) in
      let size : length (map (object_of visible) page) ≡ response.size = ground arith in
      let none_left : length found ≡ 0 = ground (
        arith,
        length-map (object_of visible) page,
        length-take 1 (order_by_id found),
        length-order_by_id found,
      ) in
      none_matching visible clause e store.rows c readable tight none_left
