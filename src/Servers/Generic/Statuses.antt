-- ===== src/Servers/Generic/Statuses.antt =====
-- internal/servers/generic_server.go: the errors that requests answer with.
use osac_fulfillment_service.Prelude.{
  Bool, true, false, not, ◌≡◌, refl, inl, inr, String, List, [], ◌∷◌, Option, none, some, arith,
  All, Bool-cases,
}
use osac_fulfillment_service.Prelude.Compare.{Comparable, ◌==◌, string_comparable}
use osac_fulfillment_service.Prelude.Int.{ℤ}
use osac_fulfillment_service.Errors.{
  Error, Code, status, invalid_argument, internal, aborted, Result, ok, err, ◌>>=◌, ◌>>◌, refuse,
}
use osac_fulfillment_service.Auth.{TenancyLogic}
use osac_fulfillment_service.Dao.{Object, Store}
use osac_fulfillment_service.Dao.Requests.{translated}
use osac_fulfillment_service.Dao.Requests as Dao
use osac_fulfillment_service.Dao.Filter.{Expr}
use osac_fulfillment_service.Dao.Listing.{Conditions}
use osac_fulfillment_service.Servers.Tenants.{or_internal, determine_assigned_tenant}
use osac_fulfillment_service.Servers.Generic.{
  or_status, version_conflict, metadata_valid, get_tenant, set_tenant, equivalent_objects, Server,
  UpdateRequest, get_status, create_status, update_status, delete_status, get, prepare_for_create,
  create, merge, save, update, delete,
}
use osac_fulfillment_service.Servers.Generic.Reads.{list_status, list_objects, signal}

abbrev pub is_status : Error → Bool
is_status (status code) = true
is_status _ = false

-- If it is an error, then one with a gRPC status.
abbrev pub reported {ℓ} : {A : Type ℓ} → Result A → Bool
reported (ok a) = true
reported (err e) = is_status e

reported-bind {ℓ κ} :
    {A : Type ℓ} {B : Type κ} (first : Result A) (next : A → Result B)
    → reported first ≡ true
    → ((a : A) → reported (next a) ≡ true)
    → reported (first >>= next) ≡ true
reported-bind (ok a) next r s = s a
reported-bind (err e) next r s = r

reported-then {κ} :
    {B : Type κ} (first : Result (Unit {0})) (next : Result B)
    → reported first ≡ true
    → reported next ≡ true
    → reported (first >> next) ≡ true
reported-then (ok done) next r s = s
reported-then (err e) next r s = r

reported-refuse : (b : Bool) (code : Code) → reported (refuse b (status code)) ≡ true
reported-refuse true code = refl
reported-refuse false code = refl

-- A guard before a request.
reported-guarded {κ} :
    {B : Type κ} (b : Bool) (code : Code) (next : Result B)
    → reported next ≡ true
    → reported (refuse b (status code) >> next) ≡ true
reported-guarded true code next s = refl
reported-guarded false code next s = s

reported-translated {ℓ} :
    {A : Type ℓ} (f : Error → Error) (r : Result A)
    → ((e : Error) → is_status (f e) ≡ true)
    → reported (translated f r) ≡ true
reported-translated f (ok a) s = refl
reported-translated f (err e) s = s e

reported-or_internal {ℓ} : {A : Type ℓ} (r : Result A) → reported (or_internal r) ≡ true
reported-or_internal (ok a) = refl
reported-or_internal (err e) = refl

is_status-get_status : (e : Error) → is_status (get_status e) ≡ true
is_status-get_status e = ground arith

is_status-list_status : (e : Error) → is_status (list_status e) ≡ true
is_status-list_status e = ground arith

is_status-create_status : (e : Error) → is_status (create_status e) ≡ true
is_status-create_status e = ground arith

is_status-update_status : (e : Error) → is_status (update_status e) ≡ true
is_status-update_status e = ground arith

is_status-delete_status : (e : Error) → is_status (delete_status e) ≡ true
is_status-delete_status e = ground arith

reported-determine_assigned_tenant :
    (logic : TenancyLogic) (requested current : String)
    → reported (determine_assigned_tenant logic requested current) ≡ true
unfolding determine_assigned_tenant
reported-determine_assigned_tenant logic requested current = ground arith

module _ {D : Type 0} (server : Server D) where
  reported-prepare_for_create :
      (request : Option (Object D)) (template : D)
      → reported (prepare_for_create server request template) ≡ true
  unfolding prepare_for_create
  reported-prepare_for_create none template =
      reported-bind (or_internal server.creator) _ (reported-or_internal server.creator) (λ creator.
        reported-bind _ _ (reported-determine_assigned_tenant server.tenancy _ _) (λ tenant. refl))
  reported-prepare_for_create (some object) template = reported-then _ _ (reported-refuse _ _) (
      reported-bind (or_internal server.creator) _ (reported-or_internal server.creator) (λ creator.
        reported-bind _ _ (reported-determine_assigned_tenant server.tenancy _ _) (λ tenant. refl)))

  reported-get : (id : String) (store : Store D) → reported (get server id store) ≡ true
  unfolding get
  reported-get id store =
      let read = (do visible ← server.tenancy.visible_tenants; Dao.get visible id store) in
      reported-guarded (id == "") invalid_argument (translated get_status read)
        (reported-translated get_status read is_status-get_status)

  reported-signal : (id : String) (store : Store D) → reported (signal server id store) ≡ true
  unfolding signal
  reported-signal id store =
      let read = (do visible ← server.tenancy.visible_tenants; Dao.get visible id store) in
      reported-guarded (id == "") invalid_argument (translated get_status read)
        (reported-translated get_status read is_status-get_status)

  reported-create :
      (request : Option (Object D)) (template : D) (store : Store D)
      → reported (create server request template store) ≡ true
  unfolding create
  reported-create request template store =
      reported-bind (prepare_for_create server request template) _
        (reported-prepare_for_create request template)
        (λ prepared. elim (Bool-cases server.dry_run) [
          | inl dry ↦ rw dry refl
          | inr wet ↦ rw wet (reported-translated create_status _ is_status-create_status)
        ])

  reported-delete : (id : String) (store : Store D) → reported (delete server id store) ≡ true
  unfolding delete
  reported-delete id store =
      let removed = (do
        visible ← server.tenancy.visible_tenants
        Dao.delete server.database visible id store) in
      reported-guarded (id == "") internal (translated delete_status removed)
        (reported-translated delete_status removed is_status-delete_status)

  -- The paths of the mask compile, or fail with a status.
  abbrev pub Knows : Option (List String) → Type 0
  Knows none = Unit
  Knows (some paths) =
      All (λ path. (a b : Object D) → reported (server.apply_path path a b) ≡ true) paths

  reported-merge :
      (mask : Option (List String)) (a b : Object D)
      → Knows mask
      → reported (merge server mask a b) ≡ true
  reported-merge none a b k = refl
  reported-merge (some []) a b k = refl
  reported-merge (some (path ∷ paths)) a b k =
      reported-bind (server.apply_path path a b) _ (k.0 a b)
        (λ c. reported-merge (some paths) a c k.1)

  module _ ⦃c : Comparable D⦄ where
    reported-save :
        (merged current : Object D) (store : Store D)
        → reported (save server merged current store) ≡ true
    unfolding save
    reported-save merged current store = elim (Bool-cases (equivalent_objects merged current)) [
      | inl same ↦ rw same refl
      | inr changed ↦ rw changed (reported-translated update_status _ is_status-update_status)
    ]

    reported-update :
        (request : UpdateRequest D) (store : Store D)
        → Knows request.mask
        → reported (update server request store) ≡ true
    unfolding update
    reported-update request store k =
        reported-bind (or_status invalid_argument request.object) _ (ground arith) (λ object.
          let read = (do
            visible ← server.tenancy.visible_tenants
            Dao.get visible object.id store) in
          reported-guarded (object.id == "") internal _ (
            reported-bind (translated get_status read) _
              (reported-translated get_status read is_status-get_status)
              (λ current.
                reported-guarded
                  (version_conflict server request.lock object.metadata current.metadata) aborted _
                  (reported-bind (merge server request.mask object current) _
                    (reported-merge request.mask object current k)
                    (λ merged. reported-guarded (not (server.valid merged)) invalid_argument _ (
                      reported-guarded (not (metadata_valid merged.metadata)) invalid_argument _ (
                        reported-bind
                          (determine_assigned_tenant server.tenancy (get_tenant merged)
                            (get_tenant current))
                          _
                          (reported-determine_assigned_tenant server.tenancy (get_tenant merged)
                            (get_tenant current))
                          (λ tenant. reported-save (set_tenant tenant merged) current store))))))))

    -- Whatever fails below it, a request to the generic server that answers with an error answers
    -- with one that has a gRPC status, in all six methods, if every path of the update mask
    -- compiles or fails with a status.
    pub reported-requests :
        (id : String) (object : Option (Object D)) (template : D) (request : UpdateRequest D)
        (sql : Conditions D) (filter : Option Expr) (offset limit : ℤ) (store : Store D)
        → Knows request.mask
        → (reported (get server id store) ≡ true)
          × (reported (list_objects server sql filter offset limit store) ≡ true)
          × (reported (create server object template store) ≡ true)
          × (reported (update server request store) ≡ true)
          × (reported (delete server id store) ≡ true)
          × (reported (signal server id store) ≡ true)
    unfolding list_objects
    reported-requests id object template request sql filter offset limit store k = (
      reported-get id store,
      reported-translated list_status _ is_status-list_status,
      reported-create object template store,
      reported-update request store k,
      reported-delete id store,
      reported-signal id store,
    )
