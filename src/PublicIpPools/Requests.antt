-- ===== src/PublicIpPools/Requests.antt =====
-- internal/servers/private_public_ip_pools_server.go: the requests on public IP pools.
use osac_fulfillment_service.Prelude.{
  ℕ, zero, suc, ◌+◌, Bool, true, false, not, ◌&&◌, String, List, [], ◌∷◌, Option, none, some, leb,
  length, if◌then◌else◌,
}
use osac_fulfillment_service.Prelude.Compare.{Comparable, ◌==◌, string_comparable}
use osac_fulfillment_service.Prelude.Int.{ℤ, pos}
use osac_fulfillment_service.Errors.{
  Error, plain, status, invalid_argument, failed_precondition, already_exists, internal, Result, ok,
  err, ◌>>=◌, ◌>>◌, refuse,
}
use osac_fulfillment_service.Dao.{Object, Store}
use osac_fulfillment_service.Dao.Requests.{translated}
use osac_fulfillment_service.Dao.Listing.{Conditions, ListResponse, list}
use osac_fulfillment_service.Servers.Generic.{Server, UpdateRequest}
use osac_fulfillment_service.Servers.Generic as Generic
use osac_fulfillment_service.PublicIps.{
  family_unspecified, Pool, PoolSpec, PoolStatus, pool_unspecified, pool_status_of, is_positive,
}
use osac_fulfillment_service.PublicIps.Requests.{same_family}
use osac_fulfillment_service.PublicIpPools.{
  Networks, pool_capacity, canonical_cidrs, validate_no_cidr_self_overlap, refuse_overlap,
  cidr_slices_equal,
}

-- The getters of the generated code answer with the zero value where a message is missing.
abbrev empty_spec : PoolSpec
empty_spec = record { cidrs = []; ip_family = family_unspecified; implementation_strategy = "" }

abbrev pub pool_spec_of : Pool → PoolSpec
pool_spec_of pool = elim pool.spec [ none ↦ empty_spec | some spec ↦ spec ]

abbrev pub is_empty : List String → Bool
is_empty [] = true
is_empty (x ∷ xs) = false

abbrev to_internal : Error → Error
to_internal _ = status internal

abbrev set_spec : PoolSpec → Object Pool → Object Pool
set_spec spec pool = record pool { payload = record pool.payload { spec = some spec } }

-- A list request of the overlap check has no filter.
abbrev pub no_conditions : Conditions Pool
no_conditions = record { holds = λ n row. true; other = λ op a b. false }

-- The guards of an update, on the specifications.
abbrev pub family_changes : PoolSpec → PoolSpec → Bool
family_changes new existing =
    not (same_family new.ip_family family_unspecified)
    && not (same_family new.ip_family existing.ip_family)

abbrev pub cidrs_change : PoolSpec → PoolSpec → Bool
cidrs_change new existing =
    not (is_empty new.cidrs) && not (cidr_slices_equal new.cidrs existing.cidrs)

abbrev pub strategy_changes : PoolSpec → PoolSpec → Bool
strategy_changes new existing =
    not (new.implementation_strategy == "")
    && not (new.implementation_strategy == existing.implementation_strategy)

unfoldable pub validate_update : Option (Object Pool) → Object Pool → Result (Unit {0})
validate_update none existing = err (status invalid_argument)
validate_update (some new) existing = elim new.payload.spec [
  | none ↦ ok tt
  | some spec ↦ (do
    let old = pool_spec_of existing.payload
    refuse (family_changes spec old) (status invalid_argument)
    refuse (cidrs_change spec old) (status invalid_argument)
    refuse (strategy_changes spec old) (status invalid_argument))
]

-- The strategy of the existing pool takes the place of that of the request, where both have a
-- specification.
abbrev pub keep_strategy : Object Pool → Object Pool → Object Pool
keep_strategy new existing = elim new.payload.spec [
  | none ↦ new
  | some spec ↦ elim existing.payload.spec [
    | none ↦ new
    | some old ↦
        set_spec (record spec { implementation_strategy = old.implementation_strategy }) new
  ]
]

abbrev pub new_status : ℤ → PoolStatus
new_status total = record {
  state = pool_unspecified;
  message = none;
  hub = "";
  total = total;
  allocated = pos 0;
  available = total;
}

abbrev request_id : Option (Object Pool) → String
request_id none = ""
request_id (some pool) = pool.id

module _ {P : Type 0} (net : Networks P) where
  -- The loops over the prefixes of one existing pool, and over the pools of one page.
  unfoldable pub against_cidr : List String → String → Result (Unit {0})
  against_cidr [] existing = ok tt
  against_cidr (cidr ∷ cidrs) existing =
      refuse_overlap net (status already_exists) cidr existing >> against_cidr cidrs existing

  unfoldable pub against_cidrs : List String → List String → Result (Unit {0})
  unfolding against_cidr
  against_cidrs cidrs [] = ok tt
  against_cidrs cidrs (old ∷ olds) = against_cidr cidrs old >> against_cidrs cidrs olds

  unfoldable pub against_pools : List String → List (Object Pool) → Result (Unit {0})
  unfolding against_cidrs
  against_pools cidrs [] = ok tt
  against_pools cidrs (pool ∷ pools) =
      against_cidrs cidrs (pool_spec_of pool.payload).cidrs >> against_pools cidrs pools

  module _ (server : Server Pool) where
    abbrev pub list_page : ℕ → Store Pool → Result (ListResponse Pool)
    list_page offset store = translated to_internal (do
      visible ← server.tenancy.visible_tenants
      list no_conditions 100 1000 visible none (pos offset) (pos 0) store)

    -- `validateNoPoolCIDROverlap`: page after page. `none` is a run that the fuel cuts off.
    unfoldable pub check_pages : ℕ → ℕ → List String → Store Pool → Option (Result (Unit {0}))
    unfolding against_pools
    check_pages zero offset cidrs store = none
    check_pages (suc fuel) offset cidrs store =
        let rest =
          λ (found : ListResponse Pool). check_pages fuel (offset + found.size) cidrs store in
        elim (list_page offset store) [
          | err e ↦ some (err e)
          | ok found ↦ elim (against_pools cidrs found.items) [
            | err e ↦ some (err e)
            | ok done ↦ if leb found.total (offset + found.size) then some (ok tt) else rest found
          ]
        ]

    -- There are no more pages than pools.
    unfoldable pub validate_no_pool_cidr_overlap : List String → Store Pool → Result (Unit {0})
    unfolding check_pages
    validate_no_pool_cidr_overlap cidrs store =
        elim (check_pages (suc (length store.rows)) 0 cidrs store) [
          | none ↦ err plain
          | some outcome ↦ outcome
        ]

    unfoldable pub validate_create : Option (Object Pool) → Store Pool → Result (Object Pool)
    unfolding validate_no_pool_cidr_overlap
    validate_create none store = err (status invalid_argument)
    validate_create (some pool) store = elim pool.payload.spec [
      | none ↦ err (status invalid_argument)
      | some spec ↦ (do
        refuse (same_family spec.ip_family family_unspecified) (status invalid_argument)
        refuse (is_empty spec.cidrs) (status invalid_argument)
        cidrs ← canonical_cidrs net spec.ip_family spec.cidrs
        validate_no_cidr_self_overlap net cidrs
        validate_no_pool_cidr_overlap cidrs store
        ok (set_spec (record spec { cidrs = cidrs }) pool))
    ]

    abbrev pub with_capacity : Object Pool → Object Pool
    with_capacity pool =
        let spec = pool_spec_of pool.payload in
        let total = pool_capacity net spec.cidrs spec.ip_family in
        record pool { payload = record pool.payload { status = some (new_status total) } }

    unfoldable pub create : Option (Object Pool) → Store Pool → Result (Object Pool × Store Pool)
    create request store = do
      pool ← validate_create request store
      Generic.create server (some (with_capacity pool)) (record { spec = none; status = none })
          store

module _ (server : Server Pool) where
  module _ ⦃c : Comparable Pool⦄ where
    abbrev pub with_strategy : Object Pool → UpdateRequest Pool → UpdateRequest Pool
    with_strategy existing request = elim request.object [
      | none ↦ request
      | some new ↦ record request { object = some (keep_strategy new existing) }
    ]

    unfoldable pub update : UpdateRequest Pool → Store Pool → Result (Object Pool × Store Pool)
    update request store = do
      refuse (request_id request.object == "") (status invalid_argument)
      existing ← Generic.get server (request_id request.object) store
      validate_update request.object existing
      Generic.update server (with_strategy existing request) store

  unfoldable pub delete : String → Store Pool → Result (Store Pool)
  delete id store = do
    existing ← Generic.get server id store
    refuse (is_positive (pool_status_of existing.payload).allocated) (status failed_precondition)
    Generic.delete server id store
