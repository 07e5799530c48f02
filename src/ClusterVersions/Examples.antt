-- ===== src/ClusterVersions/Examples.antt =====
-- internal/servers/private_cluster_versions_server.go: the theorems at concrete versions.
use osac_fulfillment_service.Prelude.{
  true, false, ◌≡◌, ◌≢◌, refl, String, List, [], ◌∷◌, Option, none, some, arith,
}
use osac_fulfillment_service.Prelude.Compare.{string_comparable}
use osac_fulfillment_service.Prelude.Sort.{sort_strings, insert_sorted}
use osac_fulfillment_service.Errors.{Result, ok, err}
use osac_fulfillment_service.Collections.{
  contains, empty, universal, finite, inclusions, union, difference, negate, intersection, new_set,
}
use osac_fulfillment_service.Collections.Maps.{
  has_key, put_all, put_key, union_maps, diff_maps, intersect_maps,
}
use osac_fulfillment_service.Auth.{
  Subject, default_tenancy_logic, determine_visible_tenants, determine_assignable_tenants,
  determine_default_tenant,
}
use osac_fulfillment_service.Dao.{
  Metadata, Object, Row, Store, Database, tenancy_filter, admits, filter_tenant, make_metadata,
  object_of, get_finalizers, fire_event, find_row, set_row, remove_row, archive,
}
use osac_fulfillment_service.Dao.Requests as Dao
use osac_fulfillment_service.Dao.Filter.{translate, join, prefix_not}
use osac_fulfillment_service.Dao.Filter.Reading.{read, push}
use osac_fulfillment_service.Dao.Filter.Meaning.{value}
use osac_fulfillment_service.Dao.Listing.{
  list, matching, selects, where_text, numbered, order_by_id, insert_by_id,
}
use osac_fulfillment_service.Servers.Labels.{
  validate_metadata, validate_labels, validate_annotations,
}
use osac_fulfillment_service.Servers.Tenants.{determine_assigned_tenant}
use osac_fulfillment_service.Servers.Generic.{
  prepare_for_create, equivalent_objects, equivalent_metadata, save, UpdateRequest,
}
use osac_fulfillment_service.Servers.Generic as Generic
use osac_fulfillment_service.PublicIps.Requests.{update_includes_field}
use osac_fulfillment_service.ClusterVersions.{
  ClusterVersion, VersionSpec, active, deprecated, obsolete, state_unspecified, object_spec, flag,
  enabled_or_default, resolve_state, resolve_is_default, resolve_enabled, deprecation_effects,
  apply_state_effects,
}
use osac_fulfillment_service.ClusterVersions.Validation.{
  validate_create_request, apply_defaults, default_spec, validate_eligibility,
  validate_immutability, validate_explicit_default,
}
use osac_fulfillment_service.ClusterVersions.Requests.{
  Catalogue, create, update, validate_allowed_upgrades, unset_previous_default, list_pages,
  clear_defaults,
}
use osac_fulfillment_service.ClusterVersions.Equality.{version_comparable}
use osac_fulfillment_service.ClusterVersions.Eligibility.{eligible, request_with, after}
use osac_fulfillment_service.ClusterVersions.Creation.{first_stamps, create-eligible}
use osac_fulfillment_service.ClusterVersions.Updating.{history, update-eligible}

abbrev alice : Subject
alice = record { user = "alice"; tenants = record { infinite = false; items = "acme" ∷ [] } }

abbrev permissive : Database ClusterVersion
permissive = record {
  now = 7;
  new_uuid = "u1";
  insert_check = λ rows row. none;
  update_check = λ rows old row. none;
  archive_check = λ row. none;
  remove_check = λ rows row. none;
  notify = λ event. none;
}

abbrev catalogue : Catalogue
catalogue = record {
  server = record {
    database = permissive;
    tenancy = default_tenancy_logic alice;
    creator = ok "alice";
    dry_run = false;
    valid = λ object. true;
    apply_path = λ path request current. ok (record current { payload = request.payload });
  };
  is_semver = λ version. true;
  generated_name = λ version. "v";
}

abbrev plain_spec : VersionSpec
plain_spec = record {
  version = "4.17.0";
  image = "quay.io/release";
  enabled = some true;
  is_default = some true;
  state = active;
  deprecation = none;
  allowed_upgrades = none;
}

abbrev old_row : Row ClusterVersion
old_row = record {
  id = "v1";
  name = "old";
  creation_timestamp = 3;
  deletion_timestamp = 0;
  finalizers = [];
  creator = "alice";
  tenant = "acme";
  project = "";
  labels = [];
  annotations = [];
  version = 0;
  document = record { spec = some plain_spec };
}

abbrev store : Store ClusterVersion
store = record { rows = old_row ∷ []; archived = []; events = [] }

abbrev stored_metadata : Metadata
stored_metadata = record {
  name = "old";
  creation_timestamp = some 3;
  deletion_timestamp = none;
  finalizers = [];
  creator = "alice";
  tenant = "acme";
  project = "";
  labels = [];
  annotations = [];
  version = 0;
}

abbrev stored : Object ClusterVersion
stored = record { id = "v1"; metadata = some stored_metadata; payload = old_row.document }

abbrev ok_or {ℓ} : {A : Type ℓ} → A → Result A → A
ok_or default (ok a) = a
ok_or default (err e) = default

some_path : ◌≢◌ {A = Option (List String)} (some ("spec.state" ∷ [])) (some [])
some_path h = absurd (ground arith)

abbrev later : UpdateRequest ClusterVersion
later =
    after 7 stored stored (record plain_spec { state = deprecated }) (some ("spec.state" ∷ []))
      false some_path

abbrev retired : VersionSpec
retired = record plain_spec { state = obsolete; is_default = some false }

abbrev wanted : Object ClusterVersion
wanted = record {
  id = "";
  metadata = none;
  payload = record {
    spec =
        some (record plain_spec { version = "4.18.0"; enabled = none; state = state_unspecified });
  };
}

abbrev creation : Object ClusterVersion × Store ClusterVersion
creation = ok_or (stored, store) (create catalogue (some wanted) store)

created : create catalogue (some wanted) store ≡ ok (creation.0, creation.1)
unfolding create validate_create_request apply_defaults default_spec validate_eligibility
    validate_allowed_upgrades unset_previous_default list_pages clear_defaults list matching selects
    where_text numbered translate join read push value order_by_id insert_by_id Dao.update
    Dao.archive_if_done find_row set_row Generic.create prepare_for_create validate_metadata
    validate_labels validate_annotations determine_assigned_tenant default_tenancy_logic
    determine_visible_tenants determine_assignable_tenants determine_default_tenant union union_maps
    new_set put_all put_key has_key empty universal finite inclusions contains Dao.create
    get_finalizers sort_strings insert_sorted Dao.has_row fire_event tenancy_filter admits object_of
    make_metadata filter_tenant archive remove_row prefix_not
created = refl

create-eligible_example :
    (spec : VersionSpec) × (creation.0.payload.spec ≡ some spec)
    × (spec.version ≢ "")
    × (spec.state ≢ state_unspecified)
    × (spec.deprecation ≡ first_stamps catalogue 7 spec.state)
    × (flag spec.is_default ≡ true → eligible spec.state (flag spec.enabled) ≡ true)
create-eligible_example =
    create-eligible catalogue (some wanted) creation.0 store creation.1 created

abbrev change : Object ClusterVersion × Store ClusterVersion
change = ok_or (stored, store) (update catalogue (request_with stored retired none false) store)

changed : update catalogue (request_with stored retired none false) store ≡ ok (change.0, change.1)
unfolding update validate_immutability validate_explicit_default update_includes_field resolve_state
    resolve_is_default resolve_enabled deprecation_effects apply_state_effects
    validate_allowed_upgrades difference negate intersection diff_maps intersect_maps Generic.get
    Generic.update save equivalent_objects equivalent_metadata validate_metadata validate_labels
    validate_annotations determine_assigned_tenant default_tenancy_logic determine_visible_tenants
    determine_assignable_tenants determine_default_tenant union union_maps new_set put_all put_key
    has_key empty finite universal inclusions contains Dao.get Dao.update Dao.archive_if_done
    tenancy_filter find_row admits object_of make_metadata filter_tenant set_row get_finalizers
    sort_strings insert_sorted fire_event
changed = refl

update-eligible_example :
    (existing : Object ClusterVersion) × (final : VersionSpec) × (Generic.get catalogue.server "v1"
        store
      ≡ ok existing)
    × (change.0.payload.spec ≡ some final)
    × (final.version ≡ (object_spec existing).version)
    × (final.image ≡ (object_spec existing).image)
    × (final.deprecation ≡ history 7 (object_spec existing) final.state)
    × (flag final.is_default ≡ true
        → eligible final.state (enabled_or_default final.enabled) ≡ true)
update-eligible_example =
    update-eligible catalogue stored change.0 retired false store change.1 changed
