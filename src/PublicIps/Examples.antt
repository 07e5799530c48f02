-- ===== src/PublicIps/Examples.antt =====
-- internal/servers/private_public_ips_server.go: the theorems at a concrete pool with one address.
use osac_fulfillment_service.Dao.Listing.{
  list, matching, selects, where_text, numbered, order_by_id, insert_by_id,
}
use osac_fulfillment_service.Dao.Filter.{translate, join}
use osac_fulfillment_service.Dao.Filter.Reading.{read, push}
use osac_fulfillment_service.Dao.Filter.Meaning.{value}
use osac_fulfillment_service.PublicIps.Requests.{select_pool, best_pool}
use osac_fulfillment_service.Prelude.{
  ◌+◌, ◌-◌, ◌^◌, true, false, not, ◌||◌, ◌≡◌, ◌⊎◌, refl, none, some, ltb, eqb, arith, if◌then◌else◌,
}
use osac_fulfillment_service.Prelude.Compare.{◌==◌, string_comparable}
use osac_fulfillment_service.Prelude.Sort.{sort_strings, insert_sorted}
use osac_fulfillment_service.Prelude.Int.{pos, negsuc, ◌+ℤ◌, ◌-ℤ◌}
use osac_fulfillment_service.Errors.{ok}
use osac_fulfillment_service.Collections.{
  contains, empty, universal, finite, inclusions, union, new_set,
}
use osac_fulfillment_service.Collections.Maps.{has_key, put_all, put_key, union_maps}
use osac_fulfillment_service.Auth.{
  default_tenancy_logic, determine_visible_tenants, determine_assignable_tenants,
  determine_default_tenant,
}
use osac_fulfillment_service.Dao.{
  Object, Row, tenancy_filter, admits, filter_tenant, make_metadata, object_of, get_finalizers,
  find_row, set_row, remove_row, fire_event, archive,
}
use osac_fulfillment_service.Dao.Requests as Dao
use osac_fulfillment_service.Dao.Rows.{row_at}
use osac_fulfillment_service.Servers.Labels.{
  validate_metadata, validate_labels, validate_annotations,
}
use osac_fulfillment_service.Servers.Tenants.{determine_assigned_tenant}
use osac_fulfillment_service.Servers.Generic.{
  Server, UpdateRequest, equivalent_objects, equivalent_metadata,
}
use osac_fulfillment_service.Servers.Generic as Generic
use osac_fulfillment_service.PublicIps.{
  PublicIp, ip_allocated, ip_failed, family_unspecified, Pool, Tables, Service, spec_of, status_of,
  pool_status_of, is_positive, move_counters, valid_transition,
}
use osac_fulfillment_service.PublicIps.Pools.{
  is_ready, validate_pool_reference, update_pool_capacity,
}
use osac_fulfillment_service.PublicIps.Requests.{
  same_state, same_family, validate_public_ip, create, update, delete, update_includes_field,
}
use osac_fulfillment_service.PublicIps.Capacity.{counted, move_counters_lem, Moved, IsSound}
use osac_fulfillment_service.PublicIps.Reachability.{
  sum_of, here, next, creates, deletes, Reach-IsSound,
}
use osac_fulfillment_service.PublicIps.Counters.{create_takes_one, delete_gives_back}
use osac_fulfillment_service.PublicIps.Equality.{public_ip_comparable}
use osac_fulfillment_service.PublicIps.Transitions.{update_follows_machine}
use osac_fulfillment_service.PublicIps.Sample.{
  ready_status, service, address_row, tables, ok_or, ips-Unique, pools-IsSound,
}

move_counters_lem_example :
    (move_counters (pos 1) (counted ready_status 0 1) ≡ (
      if eqb 1 0 || not (ltb (0 + 1) (2 ^ 63))
      then none
      else some (counted ready_status (0 + 1) (1 - 1))))
    × (move_counters (negsuc 0) (counted ready_status 0 1) ≡ (
        if eqb 0 0 || not (ltb (1 + 1) (2 ^ 63))
        then none
        else some (counted ready_status (0 - 1) (1 + 1))))
move_counters_lem_example = move_counters_lem ready_status 0 1 (omega arith) (omega arith)

abbrev wanted : Object PublicIp
wanted = record {
  id = "";
  metadata = none;
  payload = record {
    spec = some (record { pool = "p1"; ip_family = family_unspecified });
    status = none;
  };
}

abbrev creation : Service → Object PublicIp × Tables
creation s = ok_or (wanted, tables) (create s (some wanted) tables)

created : create service (some wanted) tables ≡ ok ((creation service).0, (creation service).1)
unfolding create validate_public_ip validate_pool_reference update_pool_capacity move_counters ◌+ℤ◌
    ◌-ℤ◌ Generic.create Generic.prepare_for_create validate_metadata validate_labels
    validate_annotations determine_assigned_tenant default_tenancy_logic determine_visible_tenants
    determine_assignable_tenants determine_default_tenant union union_maps new_set put_all put_key
    has_key empty finite universal inclusions contains Dao.create Dao.get Dao.update
    Dao.archive_if_done tenancy_filter find_row admits object_of make_metadata filter_tenant set_row
    get_finalizers sort_strings insert_sorted Dao.has_row fire_event
created = refl

create_takes_one_example :
    (row : Row Pool) × (row_at (spec_of (creation service).0.payload).pool tables.pools.rows
      ≡ some row)
    × (is_ready (pool_status_of row.document).state ≡ true)
    × (is_positive (pool_status_of row.document).available ≡ true)
    × Moved
        (spec_of (creation service).0.payload).pool
        (pos 1)
        tables.pools
        (creation service).1.pools
create_takes_one_example =
    create_takes_one service (some wanted) tables (creation service).1 (creation service).0
      pools-IsSound created

abbrev rehearsal : Service
rehearsal = record service { server = record service.server { dry_run = true } }

rehearsed :
    create rehearsal (some wanted) tables ≡ ok ((creation rehearsal).0, (creation rehearsal).1)
unfolding create validate_public_ip validate_pool_reference update_pool_capacity move_counters ◌+ℤ◌
    ◌-ℤ◌ Generic.create Generic.prepare_for_create validate_metadata validate_labels
    validate_annotations determine_assigned_tenant default_tenancy_logic determine_visible_tenants
    determine_assignable_tenants determine_default_tenant union union_maps new_set put_all put_key
    has_key empty finite universal inclusions contains Dao.get Dao.update Dao.archive_if_done
    tenancy_filter find_row admits object_of make_metadata filter_tenant set_row get_finalizers
    sort_strings insert_sorted fire_event
rehearsed = refl

abbrev after_delete : Tables
after_delete = ok_or tables (delete service "i1" tables)

deletion : delete service "i1" tables ≡ ok after_delete
unfolding delete update_pool_capacity move_counters ◌+ℤ◌ ◌-ℤ◌ Generic.get Generic.delete
    default_tenancy_logic determine_visible_tenants union union_maps new_set put_all put_key has_key
    empty finite universal inclusions contains Dao.get Dao.delete Dao.update Dao.archive_if_done
    tenancy_filter find_row admits object_of make_metadata filter_tenant set_row remove_row archive
    get_finalizers sort_strings insert_sorted fire_event
deletion = refl

delete_gives_back_example :
    (ip : Row PublicIp) × (row_at "i1" tables.ips.rows ≡ some ip)
    × (same_state (status_of ip.document).state ip_allocated ≡ true)
    × ((((spec_of ip.document).pool == "") ≡ true) × (after_delete.pools ≡ tables.pools)
        ⊎ Moved (spec_of ip.document).pool (negsuc 0) tables.pools after_delete.pools)
delete_gives_back_example =
    delete_gives_back service "i1" tables after_delete ips-Unique pools-IsSound deletion

address_at : row_at "i1" tables.ips.rows ≡ some address_row
unfolding find_row admits
address_at = refl

abbrev failed : Object PublicIp
failed = record {
  id = "i1";
  metadata = none;
  payload = record {
    spec = some (record { pool = "p1"; ip_family = family_unspecified });
    status = some (record {
      state = ip_failed;
      message = none;
      hub = "h";
      address = "10.0.0.1";
      pool = "p1";
      attached = false;
    });
  };
}

abbrev failing : UpdateRequest PublicIp
failing = record { object = some failed; mask = none; lock = false }

abbrev failure : Object PublicIp × Tables
failure = ok_or (failed, tables) (update service failing tables)

fails : update service failing tables ≡ ok (failure.0, failure.1)
unfolding update update_includes_field valid_transition Generic.get Generic.update Generic.save
    equivalent_objects equivalent_metadata validate_metadata validate_labels validate_annotations
    determine_assigned_tenant default_tenancy_logic determine_visible_tenants
    determine_assignable_tenants determine_default_tenant union union_maps new_set put_all put_key
    has_key empty finite universal inclusions contains Dao.get Dao.update Dao.archive_if_done
    tenancy_filter find_row admits object_of make_metadata filter_tenant set_row get_finalizers
    sort_strings insert_sorted fire_event
fails = refl

update_follows_machine_example :
    (old : Row PublicIp) × (row_at "i1" tables.ips.rows ≡ some old)
    × (failure.0.payload ≡ failed.payload)
    × ((spec_of failure.0.payload).pool ≡ (spec_of old.document).pool)
    × (same_family (spec_of failure.0.payload).ip_family (spec_of old.document).ip_family ≡ true)
    × ((same_state (status_of failure.0.payload).state (status_of old.document).state
          || valid_transition (status_of old.document).state (status_of failure.0.payload).state)
        ≡ true)
update_follows_machine_example =
    update_follows_machine service failing failed failure.0 tables failure.1 ips-Unique refl refl
      fails

abbrev after_both : Tables
after_both = ok_or tables (delete service "i1" (creation service).1)

deletion_behind : delete service "i1" (creation service).1 ≡ ok after_both
unfolding create validate_public_ip validate_pool_reference update_pool_capacity move_counters ◌+ℤ◌
    ◌-ℤ◌ Generic.create Generic.prepare_for_create validate_metadata validate_labels
    validate_annotations determine_assigned_tenant default_tenancy_logic determine_visible_tenants
    determine_assignable_tenants determine_default_tenant union union_maps new_set put_all put_key
    has_key empty finite universal inclusions contains Dao.create Dao.get Dao.update
    Dao.archive_if_done tenancy_filter find_row admits object_of make_metadata filter_tenant set_row
    get_finalizers sort_strings insert_sorted Dao.has_row fire_event delete Generic.get
    Generic.delete Dao.delete remove_row archive
deletion_behind = refl

Reach-IsSound_example :
    IsSound after_both.pools
    × (sum_of (row_at "p1" after_both.pools.rows) ≡ sum_of (row_at "p1" tables.pools.rows))
Reach-IsSound_example = Reach-IsSound "p1" tables after_both pools-IsSound (
    next (next here (creates service (some wanted) (creation service).0 created))
      (deletes service "i1" deletion_behind))

abbrev any_pool : Object PublicIp
any_pool = record {
  id = "";
  metadata = none;
  payload = record {
    spec = some (record { pool = ""; ip_family = family_unspecified });
    status = none;
  };
}

abbrev picked : Object PublicIp
picked = ok_or any_pool (select_pool service any_pool tables)

picks : select_pool service any_pool tables ≡ ok picked
unfolding join push select_pool best_pool list matching selects where_text numbered translate read
    value order_by_id insert_by_id default_tenancy_logic determine_visible_tenants union union_maps
    new_set put_all put_key finite tenancy_filter universal empty inclusions sort_strings
    insert_sorted admits has_key object_of make_metadata
picks = refl
