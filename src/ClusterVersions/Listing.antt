-- ===== src/ClusterVersions/Listing.antt =====
-- internal/servers/private_cluster_versions_server.go: listAllMatching lists every version that matches.
use osac_fulfillment_service.Prelude.{
  ℕ, zero, suc, ◌+◌, ◌≤◌, ◌<◌, true, false, ◌≡◌, ◌∙◌, sym, ap, refl, inl, inr, List, [], ◌∷◌, ◌++◌,
  map, String, some, ltb, leb, length, arith, Bool-cases, if◌then◌else◌,
}
use osac_fulfillment_service.Prelude.Int.{pos}
use osac_fulfillment_service.Errors.{ok}
use osac_fulfillment_service.Collections.{Set}
use osac_fulfillment_service.Dao.{Object, Row, Store, TenancyFilter, tenancy_filter, object_of}
use osac_fulfillment_service.Dao.Filter.{Expr}
use osac_fulfillment_service.Dao.Listing.{Conditions, list, matching, order_by_id, take, drop}
use osac_fulfillment_service.Dao.Paging.{
  length-drop, length-take, drop-drop, take-drop, take_all, length-map, map-append,
  length-order_by_id, length-matching,
}
use osac_fulfillment_service.ClusterVersions.{ClusterVersion}
use osac_fulfillment_service.ClusterVersions.Requests.{Catalogue, list_pages}

append_nil {ℓ} : {A : Type ℓ} (xs : List A) → xs ++ [] ≡ xs
append_nil [] = refl
append_nil (x ∷ xs) = ap (λ ys. x ∷ ys) (append_nil xs)

-- A page with room left is the last one, and another one is full.
module _ (left size : ℕ) (sized : size ≡ (if leb left 1000 then left else 1000)) where
  last_page : ltb size 1000 ≡ true → left ≤ 1000
  last_page h = ground arith

  full_page : ltb size 1000 ≡ false → (size ≡ 1000) × (1000 ≤ left)
  full_page h = (ground arith, ground arith)

module _ (catalogue : Catalogue) (sql : Conditions ClusterVersion) (filter : Expr)
    (store : Store ClusterVersion) (visible : Set String) (clause : TenancyFilter)
    (sees : catalogue.server.tenancy.visible_tenants ≡ ok visible)
    (written : tenancy_filter visible ≡ ok clause) where
  abbrev found : List (Row ClusterVersion)
  found = matching sql clause (some filter) store.rows

  abbrev pub seen : List (Row ClusterVersion)
  seen = order_by_id found

  abbrev pub objects : List (Row ClusterVersion) → List (Object ClusterVersion)
  objects rows = map (object_of visible) rows

  abbrev page_at : ℕ → List (Row ClusterVersion)
  page_at offset = take 1000 (drop offset seen)

  page_lem :
      (offset : ℕ)
      → list sql 100 1000 visible (some filter) (pos offset) (pos 1000) store
        ≡ ok (record {
          size = length (objects (page_at offset));
          total = length found;
          items = objects (page_at offset);
        })
  unfolding list
  page_lem offset = ground arith

  list_pages_lem :
      (fuel offset : ℕ)
      → offset ≤ length seen
      → length seen < fuel + offset
      → list_pages catalogue fuel offset sql filter store ≡ ok (objects (drop offset seen))
  unfolding list_pages
  list_pages_lem zero offset le enough = absurd (omega arith)
  list_pages_lem (suc fuel) offset le enough =
      let left = drop offset seen in
      let page = page_at offset in
      let size = length-map (object_of visible) page ∙ length-take 1000 left in
      let remain = length-drop offset seen in
      let split =
        ap objects (sym (take-drop 1000 left))
        ∙ map-append (object_of visible) page (drop 1000 left) in
      elim (Bool-cases (ltb (length (objects page)) 1000)) [
        | inl last ↦
            let whole =
              take_all 1000 left (last_page (length left) (length (objects page)) size last) in
            rw (list_pages, sees, page_lem offset, last)
              (ap ok (append_nil (objects page) ∙ ap objects whole))
        | inr more ↦
            let (full, room) = full_page (length left) (length (objects page)) size more in
            let rest = list_pages_lem fuel (offset + 1000) (omega arith) (omega arith) in
            rw (list_pages, sees, page_lem offset, more, rest, drop-drop offset 1000 seen)
              (ap ok (sym split))
      ]

  -- The fuel that the requests give is enough, and the answer has every version that the caller sees
  -- and that matches, ordered by identifier.
  pub list_pages-rows :
      list_pages catalogue (suc (length store.rows)) 0 sql filter store ≡ ok (objects seen)
  list_pages-rows =
      let total = length-order_by_id found in
      let few = length-matching sql clause (some filter) store.rows in
      list_pages_lem (suc (length store.rows)) 0 (omega arith) (omega arith)
