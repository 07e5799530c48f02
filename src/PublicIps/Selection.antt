-- ===== src/PublicIps/Selection.antt =====
-- internal/servers/private_public_ips_server.go: the pool that is selected for a new address.
use mathlib.Core.List.{Memᴰ}
use osac_fulfillment_service.Prelude.{
  true, ◌≡◌, ◌≢◌, ◌∙◌, sym, refl, ap, inl, inr, String, List, [], ◌∷◌, some, arith, All, Bool-cases,
}
use osac_fulfillment_service.Prelude.Int.{pos}
use osac_fulfillment_service.Errors.{ok, Result-cases}
use osac_fulfillment_service.Dao.{Row, Object, object_of}
use osac_fulfillment_service.Dao.Filter.Meaning.{meaning, precedence_of}
use osac_fulfillment_service.Dao.Listing.{list}
use osac_fulfillment_service.Dao.Page.{IsListed, list_sound}
use osac_fulfillment_service.PublicIps.{
  PublicIp, Pool, Tables, Service, spec_of, pool_status_of, pool_family_of, is_positive,
}
use osac_fulfillment_service.PublicIps.Pools.{is_ready}
use osac_fulfillment_service.PublicIps.Requests.{
  select_pool, best_pool, selection, selection_filter, same_family, default_family, first_of,
  greater,
}

best_pool-All :
    (P : Object Pool → Type 0) (best : Object Pool) (pools : List (Object Pool))
    → P best
    → All P pools
    → P (best_pool best pools)
unfolding best_pool
best_pool-All P best [] p h = p
best_pool-All P best (pool ∷ pools) p h =
    elim (Bool-cases
      (greater (pool_status_of pool.payload).available (pool_status_of best.payload).available)) [
        | inl b ↦ rw b (best_pool-All P pool pools h.0 h.1)
        | inr b ↦ rw b (best_pool-All P best pools p h.1)
      ]

first_of-All :
    (P : Object Pool → Type 0) (pools : List (Object Pool)) (id : String)
    → first_of pools ≡ ok id
    → All P pools
    → (pool : Object Pool) × P pool × (pool.id ≡ id)
first_of-All P [] id h a = absurd (ground arith)
first_of-All P (pool ∷ pools) id h a =
    (best_pool pool pools, best_pool-All P pool pools a.0 a.1, ground arith)

filter-tight : precedence_of selection_filter ≢ 0
filter-tight = ground arith

-- The pool that is selected for an address that names none is a row of the table that is ready, of
-- the requested family (IPv4 where none is requested), and has an address available.
pub select_pool_sound :
    (service : Service) (ip picked : Object PublicIp) (tables : Tables)
    → select_pool service ip tables ≡ ok picked
    → (row : Row Pool) × Memᴰ row tables.pools.rows
      × ((spec_of picked.payload).pool ≡ row.id)
      × (is_ready (pool_status_of row.document).state ≡ true)
      × (same_family (pool_family_of row.document) (default_family (spec_of ip.payload).ip_family)
          ≡ true)
      × (is_positive (pool_status_of row.document).available ≡ true)
unfolding select_pool meaning object_of
select_pool_sound service ip picked tables h =
    let family = default_family (spec_of ip.payload).ip_family in
    elim (Result-cases service.server.tenancy.visible_tenants) [
      | inr (e, v) ↦ absurd (ground arith)
      | inl (visible, v) ↦
          elim (Result-cases (
            list (selection family) 100 1000 visible (some selection_filter) (pos 0) (pos 0)
              tables.pools)) [
                | inr (e, l) ↦ absurd (ground arith)
                | inl (found, l) ↦ elim (Result-cases (first_of found.items)) [
                  | inr (e, f) ↦ absurd (ground arith)
                  | inl (id, f) ↦
                      let (all, size, bound) =
                        list_sound (selection family) 100 1000 visible selection_filter (pos 0)
                          (pos 0) tables.pools found ((tt, tt, refl, refl), tt, refl, refl)
                          filter-tight l in
                      let (pool, (row, member, same, seen, said), named) =
                        first_of-All
                          (IsListed (selection family) 100 1000 visible selection_filter
                            tables.pools.rows)
                          found.items id f all in
                      let chosen : row.id ≡ id = sym (ap (λ x. x.id) same) ∙ named in
                      (row, member, ground arith, ground arith, ground arith, ground arith)
                ]
              ]
    ]
