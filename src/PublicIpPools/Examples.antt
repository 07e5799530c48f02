-- ===== src/PublicIpPools/Examples.antt =====
-- internal/servers/private_public_ip_pools_server.go: the theorems at concrete pools.
use mathlib.Core.List.{Perm}
use osac_fulfillment_service.Prelude.{
  true, false, ◌≡◌, ◌↔◌, refl, String, List, [], ◌∷◌, none, some, All,
}
use osac_fulfillment_service.Prelude.Compare.{string_comparable}
use osac_fulfillment_service.Prelude.Sort.{sort_strings, insert_sorted}
use osac_fulfillment_service.Prelude.Int.{pos, ◌+ℤ◌, ◌-ℤ◌}
use osac_fulfillment_service.Errors.{Result, ok, err}
use osac_fulfillment_service.Collections.{
  contains, empty, universal, finite, inclusions, union, new_set, Set,
}
use osac_fulfillment_service.Collections.Maps.{has_key, put_all, put_key, union_maps}
use osac_fulfillment_service.Auth.{
  Subject, default_tenancy_logic, determine_visible_tenants, determine_assignable_tenants,
  determine_default_tenant,
}
use osac_fulfillment_service.Dao.{
  Object, Row, Store, Database, TenancyFilter, tenancy_filter, admits, filter_tenant, make_metadata,
  object_of, get_finalizers, fire_event, find_row, set_row, remove_row, archive,
}
use osac_fulfillment_service.Dao.Requests as Dao
use osac_fulfillment_service.Dao.Listing.{
  list, matching, selects, where_text, order_by_id, insert_by_id,
}
use osac_fulfillment_service.Dao.Filter.Reading.{read}
use osac_fulfillment_service.Dao.Filter.Meaning.{value}
use osac_fulfillment_service.Servers.Labels.{
  validate_metadata, validate_labels, validate_annotations,
}
use osac_fulfillment_service.Servers.Tenants.{determine_assigned_tenant}
use osac_fulfillment_service.Servers.Generic.{Server, prepare_for_create}
use osac_fulfillment_service.Servers.Generic as Generic
use osac_fulfillment_service.PublicIps.{ipv4, Pool, PoolSpec, is_positive, pool_status_of}
use osac_fulfillment_service.PublicIpPools.{
  pool_capacity, add_capacities, cidr_capacity, shift_one, cidrs_overlap, validate_pool_cidr_format,
  canonical_cidrs, refuse_overlaps, validate_no_cidr_self_overlap, cidr_slices_equal,
}
use osac_fulfillment_service.PublicIpPools.Requests.{
  new_status, against_cidr, against_cidrs, against_pools, check_pages,
  validate_no_pool_cidr_overlap, validate_create, validate_update, create, delete,
}
use osac_fulfillment_service.PublicIpPools.Capacity.{usable, capped, pool_capacity-usable}
use osac_fulfillment_service.PublicIpPools.Overlap.{AllApart, ApartFrom}
use osac_fulfillment_service.PublicIpPools.Sample.{net, documented}
use osac_fulfillment_service.PublicIpPools.Paging.{
  rows_seen, objects, validate_no_pool_cidr_overlap_lem,
}
use osac_fulfillment_service.PublicIpPools.Creation.{create_sound, AllCanonical}
use osac_fulfillment_service.PublicIpPools.Updating.{
  cidr_slices_equal_iff, Unchanged, validate_update_iff, delete_unused,
}

abbrev networks : List String
networks = "10.0.0.0/24" ∷ "10.0.1.0/30" ∷ []

pool_capacity-usable_example :
    pool_capacity net networks ipv4 ≡ pos (capped (usable net ipv4 networks))
pool_capacity-usable_example = pool_capacity-usable net documented networks ipv4 (refl, (refl, tt))

cidr_slices_equal_iff_example :
    (cidr_slices_equal networks ("10.0.1.0/30" ∷ "10.0.0.0/24" ∷ []) ≡ true)
    ↔ Perm networks ("10.0.1.0/30" ∷ "10.0.0.0/24" ∷ [])
cidr_slices_equal_iff_example = cidr_slices_equal_iff networks ("10.0.1.0/30" ∷ "10.0.0.0/24" ∷ [])

abbrev acme : Set String
acme = record { infinite = false; items = "acme" ∷ [] }

abbrev alice : Subject
alice = record { user = "alice"; tenants = acme }

abbrev permissive : Database Pool
permissive = record {
  now = 7;
  new_uuid = "u1";
  insert_check = λ rows row. none;
  update_check = λ rows old row. none;
  archive_check = λ row. none;
  remove_check = λ rows row. none;
  notify = λ event. none;
}

abbrev server : Server Pool
server = record {
  database = permissive;
  tenancy = default_tenancy_logic alice;
  creator = ok "alice";
  dry_run = false;
  valid = λ object. true;
  apply_path = λ path request current. ok (record current { payload = request.payload });
}

abbrev small_spec : PoolSpec
small_spec = record {
  cidrs = "10.0.1.0/30" ∷ [];
  ip_family = ipv4;
  implementation_strategy = "metallb";
}

abbrev old_pool : Row Pool
old_pool = record {
  id = "p1";
  name = "";
  creation_timestamp = 3;
  deletion_timestamp = 0;
  finalizers = [];
  creator = "alice";
  tenant = "acme";
  project = "";
  labels = [];
  annotations = [];
  version = 0;
  document = record { spec = some small_spec; status = some (new_status (pos 2)) };
}

abbrev store : Store Pool
store = record { rows = old_pool ∷ []; archived = []; events = [] }

abbrev wanted : Object Pool
wanted = record {
  id = "";
  metadata = none;
  payload = record {
    spec = some (record small_spec { cidrs = "10.0.0.0/24" ∷ [] });
    status = none;
  };
}

abbrev ok_or {ℓ} : {A : Type ℓ} → A → Result A → A
ok_or default (ok a) = a
ok_or default (err e) = default

abbrev seen : Set String
seen = ok_or acme (determine_visible_tenants alice)

abbrev clause : TenancyFilter
clause = ok_or TenancyFilter.no_filter (tenancy_filter seen)

sees : server.tenancy.visible_tenants ≡ ok seen
unfolding default_tenancy_logic determine_visible_tenants union union_maps new_set put_all put_key
    has_key empty universal finite inclusions
sees = refl

written : tenancy_filter seen ≡ ok clause
unfolding tenancy_filter determine_visible_tenants union union_maps new_set put_all put_key has_key
    empty universal finite inclusions
written = refl

validate_no_pool_cidr_overlap_lem_example :
    validate_no_pool_cidr_overlap net server ("10.0.0.0/24" ∷ []) store
    ≡ against_pools net ("10.0.0.0/24" ∷ []) (objects seen (rows_seen clause store))
validate_no_pool_cidr_overlap_lem_example =
    validate_no_pool_cidr_overlap_lem net server store seen clause sees written ("10.0.0.0/24" ∷ [])

abbrev creation : Object Pool × Store Pool
creation = ok_or (wanted, store) (create net server (some wanted) store)

created : create net server (some wanted) store ≡ ok (creation.0, creation.1)
unfolding create validate_create validate_no_pool_cidr_overlap check_pages against_pools
    against_cidrs against_cidr pool_capacity add_capacities cidr_capacity shift_one cidrs_overlap
    validate_pool_cidr_format canonical_cidrs refuse_overlaps validate_no_cidr_self_overlap list
    matching selects where_text order_by_id insert_by_id admits tenancy_filter object_of
    make_metadata filter_tenant Generic.create prepare_for_create validate_metadata validate_labels
    validate_annotations determine_assigned_tenant default_tenancy_logic determine_visible_tenants
    determine_assignable_tenants determine_default_tenant union union_maps new_set put_all put_key
    has_key empty universal finite inclusions contains Dao.create get_finalizers sort_strings
    insert_sorted Dao.has_row fire_event ◌+ℤ◌ ◌-ℤ◌ value read
created = refl

create_sound_example :
    (asked : Object Pool) × (spec : PoolSpec) × (cidrs : List String) × (some wanted ≡ some asked)
    × (asked.payload.spec ≡ some spec)
    × AllCanonical net documented spec.ip_family spec.cidrs cidrs
    × AllApart net documented cidrs
    × All (ApartFrom net documented cidrs) (objects seen (rows_seen clause store))
    × (creation.0.payload.spec ≡ some (record spec { cidrs = cidrs }))
    × (creation.0.payload.status
        ≡ some (new_status (pos (capped (usable net spec.ip_family cidrs)))))
create_sound_example =
    create_sound net documented server store seen clause sees written (some wanted) creation.0
      creation.1 created

abbrev existing : Object Pool
existing = record { id = "p1"; metadata = none; payload = old_pool.document }

abbrev renamed : Object Pool
renamed = record existing {
  payload = record old_pool.document { spec = some (record small_spec { cidrs = [] }) };
}

validate_update_iff_example :
    (validate_update (some renamed) existing ≡ ok tt)
    ↔ Unchanged (record small_spec { cidrs = [] }) small_spec
validate_update_iff_example =
    validate_update_iff renamed existing (record small_spec { cidrs = [] }) refl

abbrev deletion : Store Pool
deletion = ok_or store (delete server "p1" store)

deleted : delete server "p1" store ≡ ok deletion
unfolding delete Generic.get Generic.delete Dao.get Dao.delete Dao.archive_if_done find_row set_row
    remove_row archive get_finalizers sort_strings insert_sorted default_tenancy_logic
    determine_visible_tenants union union_maps new_set put_all put_key has_key empty universal
    finite inclusions contains admits tenancy_filter object_of make_metadata filter_tenant
    fire_event
deleted = refl

delete_unused_example :
    (found : Object Pool) × (Generic.get server "p1" store ≡ ok found)
    × (is_positive (pool_status_of found.payload).allocated ≡ false)
    × (Generic.delete server "p1" store ≡ ok deletion)
delete_unused_example = delete_unused server "p1" store deletion deleted
