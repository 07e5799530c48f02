-- ===== src/PublicIps/Counters.antt =====
-- internal/servers/private_public_ips_server.go: what the requests do to the counters of a pool.
use osac_fulfillment_service.Prelude.{
  true, false, ◌≡◌, ◌∙◌, ◌⊎◌, inl, inr, refl, ap, sym, subst, String, Option, none, some, eqb,
  arith, Bool-cases,
}
use osac_fulfillment_service.Prelude.Compare.{◌==◌, string_comparable}
use osac_fulfillment_service.Prelude.Int.{pos, negsuc}
use osac_fulfillment_service.Errors.{ok, Result-cases}
use osac_fulfillment_service.Collections.{Set}
use osac_fulfillment_service.Dao.{Object, Row, Store, object_of}
use osac_fulfillment_service.Dao.Requests as Dao
use osac_fulfillment_service.Dao.Requests.{is_nil}
use osac_fulfillment_service.Dao.Rows.{Unique, row_at}
use osac_fulfillment_service.Dao.Access.{get_sound}
use osac_fulfillment_service.Dao.Outcomes.{delete_outcome}
use osac_fulfillment_service.Servers.Generic as Generic
use osac_fulfillment_service.Servers.Generic.Effects.{create_dry_run, create_keeps_payload}
use osac_fulfillment_service.PublicIps.{
  PublicIp, ip_pending, ip_allocated, Pool, Tables, Service, spec_of, status_of, pool_status_of,
  is_positive,
}
use osac_fulfillment_service.PublicIps.Pools.{
  is_ready, validate_pool_reference, update_pool_capacity,
}
use osac_fulfillment_service.PublicIps.Requests.{
  same_state, set_state, validate_public_ip, with_pool, create, delete, release,
}
use osac_fulfillment_service.PublicIps.Capacity.{
  Moved, IsSound, update_pool_capacity-Moved, reference_sound,
}

module _ (service : Service) where
  -- What a successful creation did, one step behind the other.
  pub create_steps :
      (request : Option (Object PublicIp)) (tables after : Tables) (made : Object PublicIp)
      → create service request tables ≡ ok (made, after)
      → (valid : Object PublicIp) × (ip : Object PublicIp) × (ips : Store PublicIp)
        × (validate_public_ip request ≡ ok valid)
        × (with_pool service valid tables ≡ ok ip)
        × (validate_pool_reference service (spec_of ip.payload).pool tables ≡ ok tt)
        × (Generic.create service.server
              (some (set_state ip_pending ip))
              (record { spec = none; status = none })
              tables.ips
            ≡ ok (made, ips))
        × (update_pool_capacity service
              (spec_of ip.payload).pool
              (pos 1)
              (record tables { ips = ips })
            ≡ ok after)
  unfolding create
  create_steps request tables after made h = elim (Result-cases (validate_public_ip request)) [
    | inr (e, v) ↦ absurd (ground arith)
    | inl (valid, v) ↦ elim (Result-cases (with_pool service valid tables)) [
      | inr (e, w) ↦ absurd (ground arith)
      | inl (ip, w) ↦
          elim (Result-cases (validate_pool_reference service (spec_of ip.payload).pool tables)) [
            | inr (e, r) ↦ absurd (ground arith)
            | inl (_, r) ↦
                elim (Result-cases (
                  Generic.create service.server (some (set_state ip_pending ip))
                    (record { spec = none; status = none }) tables.ips)) [
                      | inr (e, c) ↦ absurd (ground arith)
                      | inl ((object, ips), c) ↦
                          elim (Result-cases (
                            update_pool_capacity service (spec_of ip.payload).pool (pos 1)
                              (record tables { ips = ips }))) [
                                | inr (e, k) ↦ absurd (ground arith)
                                | inl (last, k) ↦
                                    (valid, ip, ips, v, w, r, ground arith, ground arith)
                              ]
                    ]
          ]
    ]
  ]

  -- Creating an address takes one from the pool that the answer names, which was ready and had one
  -- available: the pool stays in the table, with one more allocated and one less available, counted
  -- as integers and again values of int64 that are not negative, with the rest of its document as
  -- it was and its version one higher, and the other pools stay as they are. Before it, identifiers
  -- of pools are unique, a pool that is marked as deleted has finalizers, and the counters of all
  -- pools are values of int64 that are not negative.
  pub create_takes_one :
      (request : Option (Object PublicIp)) (tables after : Tables) (made : Object PublicIp)
      → IsSound tables.pools
      → create service request tables ≡ ok (made, after)
      → (row : Row Pool) × (row_at (spec_of made.payload).pool tables.pools.rows ≡ some row)
        × (is_ready (pool_status_of row.document).state ≡ true)
        × (is_positive (pool_status_of row.document).available ≡ true)
        × Moved (spec_of made.payload).pool (pos 1) tables.pools after.pools
  create_takes_one request tables after made u h =
      let (valid, ip, ips, v, w, r, c, k) = create_steps request tables after made h in
      let pool = (spec_of ip.payload).pool in
      let (row, at, ready, free) = reference_sound service pool tables u.unique r in
      let kept =
        create_keeps_payload service.server (set_state ip_pending ip)
          (record { spec = none; status = none }) tables.ips ips made c in
      let named : (spec_of made.payload).pool ≡ pool = ap (λ p. (spec_of p).pool) kept in
      let moved =
        update_pool_capacity-Moved service pool true (record tables { ips = ips }) after u k in
      (
        row,
        ap (λ i. row_at i tables.pools.rows) named ∙ at,
        ready,
        free,
        subst (λ i. Moved i (pos 1) tables.pools after.pools) (sym named) moved.0,
      )

  -- A dry run that creates an address creates none, but it takes one from the pool all the same, when
  -- the table of pools is sound.
  pub create_dry_run_takes_one :
      (request : Option (Object PublicIp)) (tables after : Tables) (made : Object PublicIp)
      → IsSound tables.pools
      → service.server.dry_run ≡ true
      → create service request tables ≡ ok (made, after)
      → (after.ips ≡ tables.ips) × ((pool : String) × Moved pool (pos 1) tables.pools after.pools)
  create_dry_run_takes_one request tables after made u dry h =
      let (valid, ip, ips, v, w, r, c, k) = create_steps request tables after made h in
      let pool = (spec_of ip.payload).pool in
      let (moved, kept) =
        update_pool_capacity-Moved service pool true (record tables { ips = ips }) after u k in
      let (none_made, _) =
        create_dry_run service.server (some (set_state ip_pending ip))
          (record { spec = none; status = none }) tables.ips ips made dry c in
      (kept ∙ none_made, (pool, moved))

  -- What a successful deletion did, one step behind the other.
  pub delete_steps :
      (id : String) (tables after : Tables)
      → delete service id tables ≡ ok after
      → (current : Object PublicIp) × (ips : Store PublicIp) × (Generic.get service.server id
            tables.ips
          ≡ ok current)
        × (same_state (status_of current.payload).state ip_allocated ≡ true)
        × (Generic.delete service.server id tables.ips ≡ ok ips)
        × (release service (spec_of current.payload).pool (record tables { ips = ips }) ≡ ok after)
  unfolding delete
  delete_steps id tables after h = elim (Result-cases (Generic.get service.server id tables.ips)) [
    | inr (e, g) ↦ absurd (ground arith)
    | inl (current, g) ↦ elim (Result-cases (Generic.delete service.server id tables.ips)) [
      | inr (e, d) ↦ absurd (ground arith)
      | inl (ips, d) ↦
          elim (Result-cases
            (release service (spec_of current.payload).pool (record tables { ips = ips }))) [
              | inr (e, k) ↦ absurd (ground arith)
              | inl (last, k) ↦ (current, ips, g, ground arith, d, ground arith)
            ]
    ]
  ]

  pub got_ip :
      (id : String) (ips : Store PublicIp) (current : Object PublicIp)
      → Unique ips.rows
      → Generic.get service.server id ips ≡ ok current
      → (row : Row PublicIp) × (row_at id ips.rows ≡ some row) × (current.payload ≡ row.document)
  unfolding Generic.get object_of
  got_ip id ips current u h = elim (Result-cases service.server.tenancy.visible_tenants) [
    | inr (e, v) ↦ absurd (ground arith)
    | inl (visible, v) ↦ elim (Result-cases (Dao.get visible id ips)) [
      | inr (e, g) ↦ absurd (ground arith)
      | inl (object, g) ↦
          let (row, at, seen, same) = get_sound service.server.database visible id ips object u g in
          let answer : object ≡ current = ground arith in
          (row, at, rw (← answer) (ap (λ x. x.payload) same))
    ]
  ]

  pub released :
      (pool : String) (tables after : Tables)
      → IsSound tables.pools
      → release service pool tables ≡ ok after
      → ((((pool == "") ≡ true) × (after.pools ≡ tables.pools))
          ⊎ Moved pool (negsuc 0) tables.pools after.pools)
        × (after.ips ≡ tables.ips)
  released pool tables after u h = elim (Bool-cases (pool == "")) [
    | inl e ↦ (inl (e, ground arith), ground arith)
    | inr n ↦
        let (moved, kept) =
          update_pool_capacity-Moved service pool false tables after u (ground arith) in
        (inr moved, kept)
  ]

  -- Deleting an address, when identifiers of addresses are unique, is of an address in the state
  -- ALLOCATED. If it names no pool, the pools stay as they are; otherwise its pool stays in the
  -- table, with one less allocated and one more available, counted as integers and again values of
  -- int64 that are not negative, with the rest of its document as it was and its version one
  -- higher, and the other pools stay as they are. Before it, identifiers of pools are unique, a
  -- pool that is marked as deleted has finalizers, and the counters of all pools are values of
  -- int64 that are not negative.
  pub delete_gives_back :
      (id : String) (tables after : Tables)
      → Unique tables.ips.rows
      → IsSound tables.pools
      → delete service id tables ≡ ok after
      → (ip : Row PublicIp) × (row_at id tables.ips.rows ≡ some ip)
        × (same_state (status_of ip.document).state ip_allocated ≡ true)
        × ((((spec_of ip.document).pool == "") ≡ true) × (after.pools ≡ tables.pools)
            ⊎ Moved (spec_of ip.document).pool (negsuc 0) tables.pools after.pools)
  delete_gives_back id tables after u v h =
      let (current, ips, g, allocated, d, k) = delete_steps id tables after h in
      let (ip, at, doc) = got_ip id tables.ips current u g in
      let back = released (spec_of current.payload).pool (record tables { ips = ips }) after v k in
      (ip, at, rw (← doc) allocated, rw (← doc) back.0)

  deleted :
      (id : String) (s t : Store PublicIp)
      → Generic.delete service.server id s ≡ ok t
      → (visible : Set String) × (Dao.delete service.server.database visible id s ≡ ok t)
  unfolding Generic.delete
  deleted id s t h = elim (Result-cases service.server.tenancy.visible_tenants) [
    | inr (e, v) ↦ absurd (ground arith)
    | inl (visible, v) ↦ elim (Result-cases (Dao.delete service.server.database visible id s)) [
      | inr (e, d) ↦ absurd (ground arith)
      | inl (u, d) ↦ (visible, d ∙ ground arith)
    ]
  ]

  -- Deleting an address that has finalizers, when identifiers are unique, the table of pools is sound
  -- and the clock is past the epoch, leaves it in the table with the state and the pool that it had: it is still ALLOCATED.
  pub delete_keeps_allocated :
      (id : String) (tables after : Tables) (ip : Row PublicIp)
      → eqb service.server.database.now 0 ≡ false
      → Unique tables.ips.rows
      → IsSound tables.pools
      → row_at id tables.ips.rows ≡ some ip
      → is_nil ip.finalizers ≡ false
      → delete service id tables ≡ ok after
      → (row_at id after.ips.rows
          ≡ some (record ip { deletion_timestamp = service.server.database.now }))
        × (same_state (status_of ip.document).state ip_allocated ≡ true)
  delete_keeps_allocated id tables after ip n u v at fins h =
      let (current, ips, g, allocated, d, k) = delete_steps id tables after h in
      let (ip', at', doc) = got_ip id tables.ips current u g in
      let (_, kept) =
        released (spec_of current.payload).pool (record tables { ips = ips }) after v k in
      let (visible, e) = deleted id tables.ips ips d in
      let (old, marked, here, mark, found, arch) =
        delete_outcome service.server.database visible id tables.ips ips n u e in
      let same : ip' ≡ ip = ground arith in
      let before : old ≡ ip = ground arith in
      (rw kept (found ∙ rw mark (rw before (rw fins refl))), rw (← same) (rw (← doc) allocated))
