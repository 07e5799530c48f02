-- ===== src/PublicIps/Transitions.antt =====
-- internal/servers/private_public_ips_server.go: what an update may change of an address.
use osac_fulfillment_service.Prelude.{true, false, ◌||◌, ◌≡◌, inl, inr, none, some, arith, eq_iff}
use osac_fulfillment_service.Prelude.Compare.{Comparable, string_comparable}
use osac_fulfillment_service.Errors.{ok, Result-cases}
use osac_fulfillment_service.Dao.{Object, Row, Store}
use osac_fulfillment_service.Dao.Rows.{Unique, row_at}
use osac_fulfillment_service.Servers.Generic as Generic
use osac_fulfillment_service.Servers.Generic.{UpdateRequest, set_tenant}
use osac_fulfillment_service.Servers.Generic.Replacing.{replaced}
use osac_fulfillment_service.PublicIps.{
  PublicIp, Tables, Service, spec_of, status_of, valid_transition,
}
use osac_fulfillment_service.PublicIps.Requests.{
  same_state, same_family, update, update_includes_field, pool_changes, family_changes,
  wrong_transition, object_or_empty,
}
use osac_fulfillment_service.PublicIps.Counters.{got_ip}

module _ (service : Service) ⦃c : Comparable PublicIp⦄ where
  pub guarded :
      (request : UpdateRequest PublicIp) (tables after : Tables) (made : Object PublicIp)
      → update service request tables ≡ ok (made, after)
      → (current : Object PublicIp) × (ips : Store PublicIp) × (Generic.get service.server
            (object_or_empty service request.object).id
            tables.ips
          ≡ ok current)
        × (pool_changes service request.mask
              (object_or_empty service request.object).payload
              current.payload
            ≡ false)
        × (family_changes service request.mask
              (object_or_empty service request.object).payload
              current.payload
            ≡ false)
        × (wrong_transition service request.mask
              (object_or_empty service request.object).payload
              current.payload
            ≡ false)
        × (Generic.update service.server request tables.ips ≡ ok (made, ips))
        × (after ≡ record tables { ips = ips })
  unfolding update
  guarded request tables after made h =
      elim (Result-cases
        (Generic.get service.server (object_or_empty service request.object).id tables.ips)) [
          | inr (e, g) ↦ absurd (ground arith)
          | inl (current, g) ↦
              elim (Result-cases (Generic.update service.server request tables.ips)) [
                | inr (e, d) ↦ absurd (ground arith)
                | inl ((object, ips), d) ↦ (
                  current,
                  ips,
                  g,
                  ground arith,
                  ground arith,
                  ground arith,
                  ground arith,
                  ground arith,
                )
              ]
        ]

  -- An update without a mask that succeeds, when identifiers are unique, answers with the address of
  -- the request, which has the pool and the family of the stored one; and its state is the stored
  -- one or one that the state machine allows behind it.
  pub update_follows_machine :
      (request : UpdateRequest PublicIp) (new made : Object PublicIp) (tables after : Tables)
      → Unique tables.ips.rows
      → request.object ≡ some new
      → request.mask ≡ none
      → update service request tables ≡ ok (made, after)
      → (old : Row PublicIp) × (row_at new.id tables.ips.rows ≡ some old)
        × (made.payload ≡ new.payload)
        × ((spec_of made.payload).pool ≡ (spec_of old.document).pool)
        × (same_family (spec_of made.payload).ip_family (spec_of old.document).ip_family ≡ true)
        × ((same_state (status_of made.payload).state (status_of old.document).state
              || valid_transition (status_of old.document).state (status_of made.payload).state)
            ≡ true)
  unfolding update_includes_field
  update_follows_machine request new made tables after u o m h =
      let (current, ips, g, p, f, t, d, e) = guarded request tables after made h in
      let g' : Generic.get service.server new.id tables.ips ≡ ok current = rw o at g in
      let (old, at, doc) = got_ip service new.id tables.ips current u g' in
      let whole = replaced service.server request new made tables.ips ips o m d in
      let p' : pool_changes service none new.payload old.document ≡ false = rw (o, m, doc) at p in
      let f' : family_changes service none new.payload old.document ≡ false = rw (o, m, doc) at f in
      let t' : wrong_transition service none new.payload old.document ≡ false =
        rw (o, m, doc) at t in
      (
        old,
        at,
        whole,
        rw whole (ground (arith, eq_iff (spec_of new.payload).pool (spec_of old.document).pool)),
        rw whole (ground arith),
        rw whole (ground arith),
      )
