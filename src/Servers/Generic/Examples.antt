-- ===== src/Servers/Generic/Examples.antt =====
-- internal/servers/generic_server.go: the theorems at a concrete server over a table with two rows.
use osac_fulfillment_service.Prelude.{
  none, ℕ, suc, true, false, ◌≡◌, ◌⊎◌, inl, refl, String, [], ◌∷◌, some, arith,
}
use osac_fulfillment_service.Prelude.Compare.{string_comparable, nat_comparable}
use osac_fulfillment_service.Prelude.Sort.{sort_strings, insert_sorted}
use osac_fulfillment_service.Errors.{Result, ok, err}
use osac_fulfillment_service.Collections.{
  Set, contains, empty, universal, finite, inclusions, union, new_set,
}
use osac_fulfillment_service.Collections.Maps.{has_key, put_all, put_key, union_maps}
use osac_fulfillment_service.Auth.{
  Subject, default_tenancy_logic, determine_visible_tenants, determine_assignable_tenants,
  determine_default_tenant,
}
use osac_fulfillment_service.Dao.{
  Metadata, Object, Row, Store, tenancy_filter, admits, filter_tenant, make_metadata, object_of,
  get_finalizers, find_row, set_row, fire_event,
}
use osac_fulfillment_service.Dao.Requests as Dao
use osac_fulfillment_service.Dao.Rows.{row_at}
use osac_fulfillment_service.Dao.Examples.{
  db, store, store-Unique, acme, metadata, renamed, fresh_object,
}
use osac_fulfillment_service.Servers.Labels.{
  validate_metadata, validate_labels, validate_annotations,
}
use osac_fulfillment_service.Servers.Tenants.{determine_assigned_tenant}
use osac_fulfillment_service.Servers.Generic.{
  Server, UpdateRequest, prepare_for_create, create, update, save, equivalent_objects,
  equivalent_metadata,
}
use osac_fulfillment_service.Prelude.Int.{pos}
use osac_fulfillment_service.Dao.Listing.{Conditions}
use osac_fulfillment_service.Servers.Generic.{get, delete}
use osac_fulfillment_service.Servers.Generic.Reads.{list_objects, signal}
use osac_fulfillment_service.Servers.Generic.Statuses.{reported, reported-requests}
use osac_fulfillment_service.Servers.Generic.Effects.{create_assigns}
use osac_fulfillment_service.Servers.Generic.Locking.{update_locked}

abbrev alice : Subject
alice = record { user = "alice"; tenants = acme }

abbrev server : Server ℕ
server = record {
  database = db;
  tenancy = default_tenancy_logic alice;
  creator = ok "alice";
  dry_run = false;
  valid = λ object. true;
  apply_path = λ path request current. ok (record current { payload = request.payload });
}

abbrev ok_or {ℓ} : {A : Type ℓ} → A → Result A → A
ok_or default (ok a) = a
ok_or default (err e) = default

abbrev creation : Object ℕ × Store ℕ
creation = ok_or (renamed, store) (create server (some fresh_object) 0 store)

created : create server (some fresh_object) 0 store ≡ ok (creation.0, creation.1)
unfolding create prepare_for_create validate_metadata validate_labels validate_annotations
    determine_assigned_tenant default_tenancy_logic determine_visible_tenants
    determine_assignable_tenants determine_default_tenant union union_maps new_set put_all put_key
    has_key empty finite inclusions contains Dao.create get_finalizers sort_strings insert_sorted
    Dao.has_row fire_event
created = refl

acme-finite : finite acme ≡ true
unfolding finite
acme-finite = refl

create_assigns_example :
    (row : Row ℕ) × (creation.1.rows ≡ row ∷ store.rows)
    × (server.creator ≡ ok row.creator)
    × (contains alice.tenants row.tenant ≡ true)
    × (row.version ≡ 0)
create_assigns_example =
    create_assigns server alice (some fresh_object) 0 store creation.1 creation.0 refl
      (inl acme-finite) refl created

abbrev rehearsal : Server ℕ
rehearsal = record server { dry_run = true }

abbrev rehearsed : Object ℕ × Store ℕ
rehearsed = ok_or (renamed, store) (create rehearsal (some fresh_object) 0 store)

rehearses : create rehearsal (some fresh_object) 0 store ≡ ok (rehearsed.0, rehearsed.1)
unfolding create prepare_for_create validate_metadata validate_labels validate_annotations
    determine_assigned_tenant default_tenancy_logic determine_visible_tenants
    determine_assignable_tenants determine_default_tenant union union_maps new_set put_all put_key
    has_key empty finite inclusions contains
rehearses = refl

-- The version of the stored row is 4.
abbrev current_metadata : Metadata
current_metadata = record metadata { version = 4 }

abbrev current_object : Object ℕ
current_object = record renamed { metadata = some current_metadata }

abbrev locked : UpdateRequest ℕ
locked = record { object = some current_object; mask = some ("payload" ∷ []); lock = true }

abbrev change : Object ℕ × Store ℕ
change = ok_or (renamed, store) (update server locked store)

changed : update server locked store ≡ ok (change.0, change.1)
unfolding update save equivalent_objects equivalent_metadata validate_metadata validate_labels
    validate_annotations determine_assigned_tenant default_tenancy_logic determine_visible_tenants
    determine_assignable_tenants determine_default_tenant union union_maps new_set put_all put_key
    has_key empty finite universal inclusions contains Dao.get Dao.update Dao.archive_if_done
    tenancy_filter find_row admits object_of make_metadata filter_tenant set_row get_finalizers
    sort_strings insert_sorted fire_event
changed = refl

same_id :
    (path : String) (x y z : Object ℕ)
    → x.id ≡ y.id
    → server.apply_path path x y ≡ ok z
    → z.id ≡ y.id
same_id path x y z e h = ground arith

update_locked_example :
    (old : Row ℕ) × (row_at "c1" store.rows ≡ some old)
    × (old.version ≡ current_metadata.version)
    × ((change.1 ≡ store)
        ⊎ ((visible : Set String) × (new : Row ℕ) × (change.0 ≡ object_of visible new)
            × (new.version ≡ suc current_metadata.version)))
update_locked_example =
    update_locked server locked current_object current_metadata store change.1 change.0 store-Unique
      same_id refl refl refl changed

abbrev any_row : Conditions ℕ
any_row = record { holds = λ n row. true; other = λ op a b. false }

reported-requests_example :
    (reported (get server "c1" store) ≡ true)
    × (reported (list_objects server any_row none (pos 0) (pos 0) store) ≡ true)
    × (reported (create server (some fresh_object) 0 store) ≡ true)
    × (reported (update server locked store) ≡ true)
    × (reported (delete server "c1" store) ≡ true)
    × (reported (signal server "c1" store) ≡ true)
reported-requests_example =
    reported-requests server "c1" (some fresh_object) 0 locked any_row none (pos 0) (pos 0) store
      ((λ a b. refl), tt)
