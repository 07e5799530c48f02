-- ===== src/PublicIpPools/Paging.antt =====
-- internal/servers/private_public_ip_pools_server.go: the check for overlapping networks goes over every
-- pool, page after page, and ends.
use osac_fulfillment_service.Prelude.{
  ℕ, zero, suc, ◌+◌, ◌-◌, ◌≤◌, ◌<◌, true, false, ◌≡◌, ◌∙◌, sym, ap, refl, inl, inr, List, map,
  String, none, some, leb, length, arith, Bool-cases, if◌then◌else◌,
}
use osac_fulfillment_service.Errors.{ok, Result-cases}
use osac_fulfillment_service.Collections.{Set}
use osac_fulfillment_service.Dao.{Object, Row, Store, TenancyFilter, tenancy_filter, object_of}
use osac_fulfillment_service.Dao.Listing.{list, matching, order_by_id, take, drop}
use osac_fulfillment_service.Dao.Paging.{
  length-drop, length-take, drop-drop, take-drop, take_all, length-map, map-append,
  length-order_by_id, length-matching,
}
use osac_fulfillment_service.Servers.Generic.{Server}
use osac_fulfillment_service.PublicIps.{Pool}
use osac_fulfillment_service.PublicIpPools.{Networks}
use osac_fulfillment_service.PublicIpPools.Requests.{
  against_pools, no_conditions, list_page, check_pages, validate_no_pool_cidr_overlap,
}
use osac_fulfillment_service.PublicIpPools.Overlap.{against_pools-append}

-- The pools that a caller sees, ordered by identifier, as rows and as objects.
abbrev pub rows_seen : TenancyFilter → Store Pool → List (Row Pool)
rows_seen clause store = order_by_id (matching no_conditions clause none store.rows)

abbrev pub objects : Set String → List (Row Pool) → List (Object Pool)
objects visible rows = map (object_of visible) rows

-- A page that is not the last one is full, and the last one holds what is left.
module _ (total offset left size : ℕ) (sized : size ≡ (if leb left 100 then left else 100))
    (rest : left ≡ total - offset) where
  last_page : leb total (offset + size) ≡ true → left ≤ 100
  last_page h = ground arith

  full_page : leb total (offset + size) ≡ false → size ≡ 100
  full_page h = ground arith

  next_page : leb total (offset + size) ≡ false → offset + size ≤ total
  next_page h = ground arith

module _ {P : Type 0} (net : Networks P) (server : Server Pool) (store : Store Pool) where
  module _ (visible : Set String) (clause : TenancyFilter)
      (sees : server.tenancy.visible_tenants ≡ ok visible)
      (written : tenancy_filter visible ≡ ok clause) where
    abbrev page_at : ℕ → List (Row Pool)
    page_at offset = take 100 (drop offset (rows_seen clause store))

    page_lem :
        (offset : ℕ)
        → list_page net server offset store
          ≡ ok (record {
            size = length (objects visible (page_at offset));
            total = length (matching no_conditions clause none store.rows);
            items = objects visible (page_at offset);
          })
    unfolding list
    page_lem offset = ground arith

    check_pages_lem :
        (fuel offset : ℕ) (cidrs : List String)
        → offset ≤ length (rows_seen clause store)
        → length (rows_seen clause store) < fuel + offset
        → check_pages net server fuel offset cidrs store
          ≡ some (against_pools net cidrs (objects visible (drop offset (rows_seen clause store))))
    unfolding check_pages
    check_pages_lem zero offset cidrs le enough = absurd (omega arith)
    check_pages_lem (suc fuel) offset cidrs le enough =
        let left = drop offset (rows_seen clause store) in
        let page = page_at offset in
        let checked = against_pools net cidrs (objects visible page) in
        let size = length-map (object_of visible) page ∙ length-take 100 left in
        let total = length-order_by_id (matching no_conditions clause none store.rows) in
        let count = length (matching no_conditions clause none store.rows) in
        let remain = length-drop offset (rows_seen clause store) ∙ ap (λ n. n - offset) total in
        let split =
          ap (λ rows. against_pools net cidrs (objects visible rows)) (sym (take-drop 100 left))
          ∙ ap (against_pools net cidrs) (map-append (object_of visible) page (drop 100 left))
          ∙ against_pools-append net cidrs (objects visible page)
              (objects visible (drop 100 left)) in
        elim (Result-cases checked) [
          | inr (e, q) ↦ rw (check_pages, page_lem offset, q) (rw (split, q) refl)
          | inl (done, q) ↦ elim (Bool-cases (leb count (offset + length (objects visible page)))) [
            | inl last ↦
                let whole = take_all 100 left (
                  last_page count offset (length left) (length (objects visible page)) size remain
                    last) in
                rw (check_pages, page_lem offset, q, last)
                  (ap some (
                    sym (
                      ap (λ rows. against_pools net cidrs (objects visible rows)) (sym whole) ∙ q)))
            | inr more ↦
                let full : length (objects visible page) ≡ 100 =
                  full_page count offset (length left) (length (objects visible page)) size remain
                    more in
                let within =
                  next_page count offset (length left) (length (objects visible page)) size remain
                    more in
                let rest =
                  check_pages_lem fuel (offset + length (objects visible page)) cidrs
                    (rw total within) (omega arith) in
                let follows =
                  ap (λ n. drop (offset + n) (rows_seen clause store)) full
                  ∙ drop-drop offset 100 (rows_seen clause store) in
                rw (check_pages, page_lem offset, q, more) (rest ∙ rw (follows, split, q) refl)
          ]
        ]

    -- The check against existing pools ends, with no more pages than rows of the table and one: it
    -- answers as one check of all the pools that the caller sees.
    pub validate_no_pool_cidr_overlap_lem :
        (cidrs : List String)
        → validate_no_pool_cidr_overlap net server cidrs store
          ≡ against_pools net cidrs (objects visible (rows_seen clause store))
    unfolding validate_no_pool_cidr_overlap
    validate_no_pool_cidr_overlap_lem cidrs =
        let total = length-order_by_id (matching no_conditions clause none store.rows) in
        let few = length-matching no_conditions clause none store.rows in
        rw
          (
            validate_no_pool_cidr_overlap,
            check_pages_lem (suc (length store.rows)) 0 cidrs (omega arith) (omega arith),
          )
          refl
