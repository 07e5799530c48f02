-- ===== src/Servers/Generic.antt =====
-- internal/servers/generic_server.go: the requests of the generic server, over the generic DAO.
-- The response of a request is the object that it carries.
pub mod Effects
pub mod Locking
pub mod Replacing
pub mod Reads
pub mod Statuses
mod Examples
use osac_fulfillment_service.Prelude.{
  ℕ, Bool, true, false, not, ◌||◌, ◌&&◌, String, List, [], ◌∷◌, Option, none, some, length, eqb,
  if◌then◌else◌,
}
use osac_fulfillment_service.Prelude.Compare.{Comparable, ◌==◌, string_comparable}
use osac_fulfillment_service.Errors.{
  Error, Code, status, plain, not_found_error, already_exists_error, denied_error, immutable_error,
  reference_error, in_use_error, deadlock_error, sql_error, invalid_argument, not_found,
  already_exists, permission_denied, failed_precondition, aborted, internal, Result, ok, err, ◌>>=◌,
  ◌>>◌, refuse,
}
use osac_fulfillment_service.Auth.{TenancyLogic}
use osac_fulfillment_service.Dao.{Metadata, Object, StringMap, Store, Database, field_or}
use osac_fulfillment_service.Dao.Requests.{translated}
use osac_fulfillment_service.Dao.Requests as Dao
use osac_fulfillment_service.Servers.Labels.{validate_metadata}
use osac_fulfillment_service.Servers.Tenants.{or_internal, determine_assigned_tenant}

-- A server with the subject of one request: its table, what the tenancy and the attribution logic
-- answer, whether the request has the header for a dry run, what protovalidate answers for an
-- object, and one path of an update mask, which takes a field of the second object from the first
-- or refuses the path.
pub record Server (D : Type 0) : Type 0 where
  pub database : Database D
  pub tenancy : TenancyLogic
  pub creator : Result String
  pub dry_run : Bool
  pub valid : Object D → Bool
  pub apply_path : String → Object D → Object D → Result (Object D)

abbrev pub get_status : Error → Error
get_status (not_found_error id) = status not_found
get_status denied_error = status permission_denied
get_status deadlock_error = status aborted
get_status _ = status internal

abbrev pub create_status : Error → Error
create_status (already_exists_error id name reason) = status already_exists
create_status denied_error = status permission_denied
create_status (reference_error reason) = status invalid_argument
create_status deadlock_error = status aborted
create_status _ = status internal

abbrev pub update_status : Error → Error
update_status (already_exists_error id name reason) = status already_exists
update_status (reference_error reason) = status failed_precondition
update_status denied_error = status permission_denied
update_status (immutable_error fields) = status invalid_argument
update_status deadlock_error = status aborted
update_status _ = status internal

abbrev pub delete_status : Error → Error
delete_status (not_found_error id) = status not_found
delete_status denied_error = status permission_denied
delete_status (in_use_error reason) = status failed_precondition
delete_status deadlock_error = status aborted
delete_status _ = status internal

abbrev new_metadata : Metadata
new_metadata = record {
  name = "";
  creation_timestamp = none;
  deletion_timestamp = none;
  finalizers = [];
  creator = "";
  tenant = "";
  project = "";
  labels = [];
  annotations = [];
  version = 0;
}

abbrev pub metadata_or_new : Option Metadata → Metadata
metadata_or_new none = new_metadata
metadata_or_new (some metadata) = metadata

abbrev pub get_tenant : {D : Type 0} → Object D → String
get_tenant object = field_or (λ m. m.tenant) "" object.metadata

abbrev pub set_tenant : {D : Type 0} → String → Object D → Object D
set_tenant tenant object = record object {
  metadata = some (record (metadata_or_new object.metadata) { tenant = tenant });
}

abbrev pub set_creator : {D : Type 0} → String → Object D → Object D
set_creator creator object = record object {
  metadata = some (record (metadata_or_new object.metadata) { creator = creator });
}

abbrev pub metadata_valid : Option Metadata → Bool
metadata_valid none = true
metadata_valid (some metadata) = validate_metadata metadata

abbrev entry_in : StringMap → String → String → Bool
entry_in [] key value = false
entry_in ((k, v) ∷ entries) key value = if k == key then v == value else entry_in entries key value

abbrev entries_in : StringMap → StringMap → Bool
entries_in [] b = true
entries_in ((key, value) ∷ entries) b = entry_in b key value && entries_in entries b

-- Equality of maps, whose keys stand once each.
abbrev same_map : StringMap → StringMap → Bool
same_map a b = eqb (length a) (length b) && entries_in a b

abbrev same_list : List String → List String → Bool
same_list [] [] = true
same_list (x ∷ xs) (y ∷ ys) = x == y && same_list xs ys
same_list _ _ = false

unfoldable pub equivalent_metadata : Option Metadata → Option Metadata → Bool
equivalent_metadata none none = true
equivalent_metadata (some x) (some y) =
    x.name == y.name
    && same_list x.finalizers y.finalizers
    && x.creator == y.creator
    && x.tenant == y.tenant
    && x.project == y.project
    && same_map x.labels y.labels
    && same_map x.annotations y.annotations
equivalent_metadata _ _ = false

unfoldable pub equivalent_objects : {D : Type 0} ⦃c : Comparable D⦄ → Object D → Object D → Bool
unfolding equivalent_metadata
equivalent_objects x y =
    x.id == y.id && equivalent_metadata x.metadata y.metadata && x.payload == y.payload

pub record UpdateRequest (D : Type 0) : Type 0 where
  pub object : Option (Object D)
  pub mask : Option (List String)
  pub lock : Bool

abbrev pub or_status : {D : Type 0} → Code → Option (Object D) → Result (Object D)
or_status code none = err (status code)
or_status code (some object) = ok object

module _ {D : Type 0} (server : Server D) where
  unfoldable pub get : String → Store D → Result (Object D)
  get id store = do
    refuse (id == "") (status invalid_argument)
    translated get_status (do visible ← server.tenancy.visible_tenants; Dao.get visible id store)

  -- A missing object is a copy of the empty template, whose payload is the last argument.
  unfoldable pub prepare_for_create : Option (Object D) → D → Result (Object D)
  prepare_for_create none template = do
    creator ← or_internal server.creator
    let created = set_creator creator (record { id = ""; metadata = none; payload = template })
    tenant ← determine_assigned_tenant server.tenancy (get_tenant created) (get_tenant created)
    ok (set_tenant tenant created)
  prepare_for_create (some object) template = do
    refuse (not (metadata_valid object.metadata)) (status invalid_argument)
    creator ← or_internal server.creator
    let created = set_creator creator object
    tenant ← determine_assigned_tenant server.tenancy (get_tenant created) (get_tenant created)
    ok (set_tenant tenant created)

  unfoldable pub create : Option (Object D) → D → Store D → Result (Object D × Store D)
  create request template store = do
    prepared ← prepare_for_create request template
    if server.dry_run
        then ok (prepared, store)
        else translated create_status (do
          visible ← server.tenancy.visible_tenants
          Dao.create server.database visible prepared store)

  abbrev pub apply_paths : List String → Object D → Object D → Result (Object D)
  apply_paths [] request current = ok current
  apply_paths (path ∷ paths) request current =
      server.apply_path path request current >>= λ next. apply_paths paths request next

  -- Without a mask the object of the request takes the place of the current one.
  abbrev pub merge : Option (List String) → Object D → Object D → Result (Object D)
  merge none request current = ok request
  merge (some paths) request current = apply_paths paths request current

  -- Optimistic locking: the version is compared where both objects have metadata.
  abbrev pub version_conflict : Bool → Option Metadata → Option Metadata → Bool
  version_conflict true (some request) (some current) = not (eqb request.version current.version)
  version_conflict _ _ _ = false

  module _ ⦃c : Comparable D⦄ where
    unfoldable pub save : Object D → Object D → Store D → Result (Object D × Store D)
    save merged current store =
        if not (equivalent_objects merged current)
        then translated update_status (do
          visible ← server.tenancy.visible_tenants
          Dao.update server.database visible merged store)
        else ok (merged, store)

    unfoldable pub update : UpdateRequest D → Store D → Result (Object D × Store D)
    unfolding save
    update request store = do
      object ← or_status invalid_argument request.object
      refuse (object.id == "") (status internal)
      current ←
          translated get_status
            (do visible ← server.tenancy.visible_tenants; Dao.get visible object.id store)
      refuse (version_conflict request.lock object.metadata current.metadata) (status aborted)
      merged ← merge request.mask object current
      refuse (not (server.valid merged)) (status invalid_argument)
      refuse (not (metadata_valid merged.metadata)) (status invalid_argument)
      tenant ← determine_assigned_tenant server.tenancy (get_tenant merged) (get_tenant current)
      save (set_tenant tenant merged) current store

  unfoldable pub delete : String → Store D → Result (Store D)
  delete id store = do
    refuse (id == "") (status internal)
    translated delete_status
        (do visible ← server.tenancy.visible_tenants; Dao.delete server.database visible id store)
