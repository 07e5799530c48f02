-- ===== src/PublicIps/Capacity.antt =====
-- internal/servers/private_public_ips_server.go: how the counters of one pool move.
use osac_fulfillment_service.Prelude.{
  All, Bool, false, refl, suc, ℕ, ◌+◌, ◌-◌, ◌^◌, ◌<◌, true, not, ◌||◌, ◌≡◌, ◌∙◌, inl, inr, ap,
  String, none, some, ltb, eqb, arith, if◌then◌else◌, Option-cases,
}
use osac_fulfillment_service.Prelude.Compare.{string_comparable}
use osac_fulfillment_service.Prelude.Int.{ℤ, pos, negsuc, ◌+ℤ◌, ◌-ℤ◌}
use osac_fulfillment_service.Errors.{ok, Result-cases}
use osac_fulfillment_service.Dao.{Object, Row, Store, object_of, no_filter, set_row}
use osac_fulfillment_service.Dao.Requests as Dao
use osac_fulfillment_service.Dao.Requests.{is_nil}
use osac_fulfillment_service.Dao.Rows.{Unique, row_at, AllPending, is_pending, find_row-some}
use osac_fulfillment_service.Dao.Access.{get_sound}
use osac_fulfillment_service.Dao.Resaving.{rewritten, resaved, All-row_at}
use osac_fulfillment_service.PublicIps.{
  Pool, PoolStatus, Tables, Service, pool_status_of, is_positive, move_counters,
}
use osac_fulfillment_service.PublicIps.Pools.{
  is_ready, get_pool, validate_pool_reference, update_pool_capacity,
}

abbrev pub counted : PoolStatus → ℕ → ℕ → PoolStatus
counted old allocated available = record old {
  allocated = pos allocated;
  available = pos available;
}

-- Taking an address from a pool with counters that are not negative moves one from available to
-- allocated, and is refused exactly when none is available or when the 64 bits of the other counter
-- are exhausted; giving one back moves it the other way, under the converse conditions.
pub move_counters_lem :
    (old : PoolStatus) (allocated available : ℕ)
    → allocated < 2 ^ 63
    → available < 2 ^ 63
    → (move_counters (pos 1) (counted old allocated available) ≡ (
        if eqb available 0 || not (ltb (allocated + 1) (2 ^ 63))
        then none
        else some (counted old (allocated + 1) (available - 1))))
      × (move_counters (negsuc 0) (counted old allocated available) ≡ (
          if eqb allocated 0 || not (ltb (available + 1) (2 ^ 63))
          then none
          else some (counted old (allocated - 1) (available + 1))))
unfolding move_counters ◌+ℤ◌ ◌-ℤ◌
move_counters_lem old allocated available a b = (ground arith, ground arith)

-- A counter as the program keeps it: an int64 that is not negative.
abbrev pub is_count : ℤ → Bool
is_count (pos n) = ltb n (2 ^ 63)
is_count (negsuc n) = false

abbrev pub IsCounted : Row Pool → Type 0
IsCounted row =
    (is_count (pool_status_of row.document).allocated ≡ true)
    × (is_count (pool_status_of row.document).available ≡ true)

-- Identifiers are unique, a pool that is marked as deleted waits for its finalizers, and no counter is
-- negative.
pub record IsSound (store : Store Pool) : Type 0 where
  pub unique : Unique store.rows
  pub pending : AllPending store.rows
  pub counted : All IsCounted store.rows

-- The status with the counters moved, as integers.
abbrev pub moved_by : ℤ → PoolStatus → PoolStatus
moved_by delta status = record status {
  allocated = status.allocated +ℤ delta;
  available = status.available -ℤ delta;
}

-- One pool is written with its counters moved, and the other pools stay as they are: of its row, the
-- document has another status, the version is one higher, and the finalizers are put in order.
abbrev pub Moved : String → ℤ → Store Pool → Store Pool → Type 0
Moved id delta s t =
    (old : Row Pool) × (new : Row Pool) × (row_at id s.rows ≡ some old)
    × (new ≡ record old {
      finalizers = new.finalizers;
      version = suc old.version;
      document = record old.document {
        status = some (moved_by delta (pool_status_of old.document));
      };
    })
    × IsCounted new
    × (is_pending new ≡ true)
    × (row_at id t.rows ≡ some new)
    × (t.rows ≡ set_row new s.rows)

-- What is moved without an overflow is moved as integers are.
takes_one :
    (status moved : PoolStatus)
    → is_count status.allocated ≡ true
    → is_count status.available ≡ true
    → move_counters (pos 1) status ≡ some moved
    → moved ≡ moved_by (pos 1) status
unfolding move_counters ◌+ℤ◌ ◌-ℤ◌
takes_one status moved a b h = ground arith

gives_back :
    (status moved : PoolStatus)
    → is_count status.allocated ≡ true
    → is_count status.available ≡ true
    → move_counters (negsuc 0) status ≡ some moved
    → moved ≡ moved_by (negsuc 0) status
unfolding move_counters ◌+ℤ◌ ◌-ℤ◌
gives_back status moved a b h = ground arith

taken_counts :
    (status moved : PoolStatus)
    → is_count status.allocated ≡ true
    → is_count status.available ≡ true
    → move_counters (pos 1) status ≡ some moved
    → (is_count moved.allocated ≡ true) × (is_count moved.available ≡ true)
unfolding move_counters ◌+ℤ◌ ◌-ℤ◌
taken_counts status moved a b h = (ground arith, ground arith)

given_counts :
    (status moved : PoolStatus)
    → is_count status.allocated ≡ true
    → is_count status.available ≡ true
    → move_counters (negsuc 0) status ≡ some moved
    → (is_count moved.allocated ≡ true) × (is_count moved.available ≡ true)
unfolding move_counters ◌+ℤ◌ ◌-ℤ◌
given_counts status moved a b h = (ground arith, ground arith)

-- One taken, or one given back.
abbrev pub step : Bool → ℤ
step taken = if taken then pos 1 else negsuc 0

move_counters-moved_by :
    (taken : Bool) (status moved : PoolStatus)
    → is_count status.allocated ≡ true
    → is_count status.available ≡ true
    → move_counters (step taken) status ≡ some moved
    → moved ≡ moved_by (step taken) status
move_counters-moved_by true = takes_one
move_counters-moved_by false = gives_back

move_counters-counts :
    (taken : Bool) (status moved : PoolStatus)
    → is_count status.allocated ≡ true
    → is_count status.available ≡ true
    → move_counters (step taken) status ≡ some moved
    → (is_count moved.allocated ≡ true) × (is_count moved.available ≡ true)
move_counters-counts true = taken_counts
move_counters-counts false = given_counts

module _ (service : Service) where
  pub got_pool :
      (id : String) (tables : Tables) (pool : Object Pool)
      → Unique tables.pools.rows
      → get_pool service id tables ≡ ok pool
      → (row : Row Pool) × (row_at id tables.pools.rows ≡ some row)
        × (pool.id ≡ id)
        × (pool.payload ≡ row.document)
  unfolding object_of
  got_pool id tables pool u h = elim (Result-cases service.server.tenancy.visible_tenants) [
    | inr (e, v) ↦ absurd (ground arith)
    | inl (visible, v) ↦
        let (row, at, seen, same) =
          get_sound service.pools visible id tables.pools pool u (ground arith) in
        let (_, named, _) = find_row-some no_filter id tables.pools.rows row at in
        (row, at, ap (λ x. x.id) same ∙ named, ap (λ x. x.payload) same)
  ]

  pub update_pool_capacity-Moved :
      (id : String) (taken : Bool) (tables after : Tables)
      → IsSound tables.pools
      → update_pool_capacity service id (step taken) tables ≡ ok after
      → Moved id (step taken) tables.pools after.pools × (after.ips ≡ tables.ips)
  unfolding update_pool_capacity
  update_pool_capacity-Moved id taken tables after sound h =
      elim (Result-cases service.server.tenancy.visible_tenants) [
        | inr (e, v) ↦ absurd (ground arith)
        | inl (visible, v) ↦ elim (Result-cases (Dao.get visible id tables.pools)) [
          | inr (e, g) ↦ absurd (ground arith)
          | inl (pool, g) ↦
              elim (Option-cases (move_counters (step taken) (pool_status_of pool.payload))) [
                | inl m ↦ absurd (ground arith)
                | inr (moved, m) ↦
                    let document = record pool.payload { status = some moved } in
                    let changed = record pool { payload = document } in
                    elim (Result-cases (Dao.update service.pools visible changed tables.pools)) [
                      | inr (e, d) ↦ absurd (ground arith)
                      | inl ((made, t), d) ↦
                          let (old, at, doc, rows, stands, waits) =
                            resaved service.pools visible id pool made document tables.pools t
                              sound.unique sound.pending g d in
                          let (a, b) =
                            All-row_at IsCounted id tables.pools.rows old sound.counted at in
                          let exact =
                            move_counters-moved_by taken (pool_status_of old.document) moved a b
                              (rw (← doc) m) in
                          let counts =
                            move_counters-counts taken (pool_status_of old.document) moved a b
                              (rw (← doc) m) in
                          let pools : after.pools ≡ t = ground arith in
                          let new = rewritten visible document old in
                          (
                            (
                              old,
                              new,
                              at,
                              rw (doc, exact) refl,
                              counts,
                              waits,
                              rw pools stands,
                              rw pools rows,
                            ),
                            ground arith,
                          )
                    ]
              ]
        ]
      ]

  pub reference_sound :
      (id : String) (tables : Tables)
      → Unique tables.pools.rows
      → validate_pool_reference service id tables ≡ ok tt
      → (row : Row Pool) × (row_at id tables.pools.rows ≡ some row)
        × (is_ready (pool_status_of row.document).state ≡ true)
        × (is_positive (pool_status_of row.document).available ≡ true)
  unfolding validate_pool_reference
  reference_sound id tables u h = elim (Result-cases (get_pool service id tables)) [
    | inr (e, g) ↦ absurd (ground arith)
    | inl (pool, g) ↦
        let (row, at, named, doc) = got_pool id tables pool u g in
        (row, at, rw (← doc) (ground arith), rw (← doc) (ground arith))
  ]
