-- ===== src/PublicIps/Pools.antt =====
-- internal/servers/private_public_ips_server.go: reading a pool and moving its counters.
use osac_fulfillment_service.Prelude.{Bool, true, false, not, String, none, some}
use osac_fulfillment_service.Prelude.Int.{ℤ}
use osac_fulfillment_service.Errors.{
  Error, status, not_found_error, invalid_argument, failed_precondition, internal, Result, ok, err,
  ◌>>=◌, ◌>>◌, refuse,
}
use osac_fulfillment_service.Dao.{Object}
use osac_fulfillment_service.Dao.Requests as Dao
use osac_fulfillment_service.Dao.Requests.{translated}
use osac_fulfillment_service.PublicIps.{
  Pool, PoolState, pool_ready, Tables, Service, pool_status_of, is_positive, move_counters,
}

abbrev reference_status : Error → Error
reference_status (not_found_error id) = status invalid_argument
reference_status _ = status internal

abbrev to_internal : Error → Error
to_internal _ = status internal

abbrev pub is_ready : PoolState → Bool
is_ready pool_ready = true
is_ready _ = false

module _ (service : Service) where
  -- `publicIPPoolDao.Get()`
  abbrev pub get_pool : String → Tables → Result (Object Pool)
  get_pool id tables = do
    visible ← service.server.tenancy.visible_tenants
    Dao.get visible id tables.pools

  unfoldable pub validate_pool_reference : String → Tables → Result (Unit {0})
  validate_pool_reference id tables = do
    pool ← translated reference_status (get_pool id tables)
    let found = pool_status_of pool.payload
    refuse (not (is_ready found.state)) (status failed_precondition)
    refuse (not (is_positive found.available)) (status failed_precondition)

  -- `publicIPPoolDao.Update()`
  abbrev pub save_pool : Object Pool → Tables → Result Tables
  save_pool pool tables = do
    visible ← service.server.tenancy.visible_tenants
    saved ← Dao.update service.pools visible pool tables.pools
    ok (record tables { pools = saved.1 })

  unfoldable pub update_pool_capacity : String → ℤ → Tables → Result Tables
  update_pool_capacity id delta tables = do
    pool ← translated to_internal (get_pool id tables)
    elim (move_counters delta (pool_status_of pool.payload)) [
      | none ↦ err (status failed_precondition)
      | some moved ↦
          let changed = record pool { payload = record pool.payload { status = some moved } } in
          translated to_internal (save_pool changed tables)
    ]
