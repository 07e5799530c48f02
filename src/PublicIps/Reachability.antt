-- ===== src/PublicIps/Reachability.antt =====
-- internal/servers/private_public_ips_server.go: the counters of all pools, over any sequence of requests.
use osac_fulfillment_service.Prelude.{
  Bool, true, false, ◌≡◌, ◌∙◌, inl, inr, refl, sym, ap, String, Option, none, some, arith, eq_iff,
  Bool-cases,
}
use osac_fulfillment_service.Prelude.Compare.{Comparable, ◌==◌, string_comparable}
use osac_fulfillment_service.Prelude.Int.{ℤ, ◌+ℤ◌, ◌-ℤ◌}
use osac_fulfillment_service.Errors.{ok}
use osac_fulfillment_service.Dao.{Object, Row, Store, no_filter}
use osac_fulfillment_service.Dao.Rows.{
  row_at, row_at-set_row, find_row-some, set_row-Unique, set_row-AllPending,
}
use osac_fulfillment_service.Dao.Resaving.{All-set_row, All-row_at}
use osac_fulfillment_service.Servers.Generic.{UpdateRequest}
use osac_fulfillment_service.PublicIps.{
  PublicIp, Pool, PoolStatus, Tables, Service, pool_status_of, spec_of,
}
use osac_fulfillment_service.PublicIps.Requests.{create, update, delete}
use osac_fulfillment_service.PublicIps.Capacity.{
  Moved, IsSound, IsCounted, is_count, moved_by, step, update_pool_capacity-Moved,
}
use osac_fulfillment_service.PublicIps.Counters.{create_steps, delete_steps, released}
use osac_fulfillment_service.PublicIps.Transitions.{guarded}

-- The addresses of a pool by its counters, allocated and available ones together.
abbrev pub addresses_of : PoolStatus → ℤ
addresses_of status = status.allocated +ℤ status.available

abbrev pub sum_of : Option (Row Pool) → Option ℤ
sum_of none = none
sum_of (some row) = some (addresses_of (pool_status_of row.document))

addresses_of-moved_by :
    (taken : Bool) (status : PoolStatus)
    → is_count status.allocated ≡ true
    → is_count status.available ≡ true
    → addresses_of (moved_by (step taken) status) ≡ addresses_of status
unfolding ◌+ℤ◌ ◌-ℤ◌
addresses_of-moved_by true status a b = ground arith
addresses_of-moved_by false status a b = ground arith

-- What a request leaves of the pools.
abbrev pub Kept : String → Store Pool → Store Pool → Type 0
Kept id s t = IsSound t × (sum_of (row_at id t.rows) ≡ sum_of (row_at id s.rows))

Moved-Kept :
    (taken : Bool) (pool id : String) (s t : Store Pool)
    → IsSound s
    → Moved pool (step taken) s t
    → Kept id s t
Moved-Kept taken pool id s t sound (old, new, at, is, counts, waits, stands, rows) =
    let (_, named, here) = find_row-some no_filter pool s.rows old at in
    let (a, b) = All-row_at IsCounted pool s.rows old sound.counted at in
    let kept : sum_of (some new) ≡ sum_of (some old) =
      ap (λ (r : Row Pool). sum_of (some r)) is
      ∙ ap some (addresses_of-moved_by taken (pool_status_of old.document) a b) in
    let same_id : new.id ≡ pool = ap (λ (r : Row Pool). r.id) is ∙ named in
    (
      record {
        unique = rw rows (set_row-Unique new s.rows sound.unique);
        pending = rw rows (set_row-AllPending new s.rows waits sound.pending);
        counted = rw rows (All-set_row IsCounted new s.rows counts sound.counted);
      },
      elim (Bool-cases (pool == id)) [
        | inl one ↦
            let e : pool ≡ id = (eq_iff pool id).0 one in
            rw (← e) (ap sum_of stands ∙ kept ∙ ap sum_of (sym at))
        | inr other ↦ rw (rows, row_at-set_row id new s.rows sound.unique, same_id, other) refl
      ],
    )

-- A request on addresses that succeeds.
module _ ⦃c : Comparable PublicIp⦄ where
  pub data Step (s t : Tables) : Type 0 where
    creates :
        (service : Service) (request : Option (Object PublicIp)) (made : Object PublicIp)
        → create service request s ≡ ok (made, t)
        → Step s t
    updates :
        (service : Service) (request : UpdateRequest PublicIp) (made : Object PublicIp)
        → update service request s ≡ ok (made, t)
        → Step s t
    deletes : (service : Service) (id : String) → delete service id s ≡ ok t → Step s t

  pub data Reach (s : Tables) : Tables → Type 0 where
    here : Reach s s
    next : {t u : Tables} → Reach s t → Step t u → Reach s u

  Step-Kept : (id : String) (s t : Tables) → IsSound s.pools → Step s t → Kept id s.pools t.pools
  Step-Kept id s t sound (creates service request made h) =
      let (valid, ip, ips, v, w, r, g, k) = create_steps service request s t made h in
      let pool = (spec_of ip.payload).pool in
      Moved-Kept true pool id s.pools t.pools sound
        (update_pool_capacity-Moved service pool true (record s { ips = ips }) t sound k).0
  Step-Kept id s t sound (updates service request made h) =
      let (current, ips, g, p, f, m, d, last) = guarded service request s t made h in
      let same : t.pools ≡ s.pools = ap (λ (x : Tables). x.pools) last in rw same (sound, refl)
  Step-Kept id s t sound (deletes service address h) =
      let (current, ips, g, a, d, k) = delete_steps service address s t h in
      let pool = (spec_of current.payload).pool in
      let (back, _) = released service pool (record s { ips = ips }) t sound k in
      elim back [
        | inl (unnamed, same) ↦ rw same (sound, refl)
        | inr moved ↦ Moved-Kept false pool id s.pools t.pools sound moved
      ]

  -- After any sequence of creations, updates and deletions of addresses, in which every request
  -- succeeds, identifiers of pools are unique, a pool that is marked as deleted has finalizers, and
  -- the counters of all pools are values of int64 that are not negative, if that was so before the
  -- first of them; and the sum of the allocated and the available addresses of each pool, as
  -- integers, is what it was.
  pub Reach-IsSound :
      (id : String) (s t : Tables)
      → IsSound s.pools
      → Reach s t
      → IsSound t.pools × (sum_of (row_at id t.pools.rows) ≡ sum_of (row_at id s.pools.rows))
  Reach-IsSound id s _ sound here = (sound, refl)
  Reach-IsSound id s t sound (next {t = u} path last) =
      let (before, sum) = Reach-IsSound id s u sound path in
      let (after, same) = Step-Kept id u t before last in (after, same ∙ sum)
