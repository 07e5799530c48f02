-- ===== src/PublicIpAttachments/Examples.antt =====
-- internal/servers/private_public_ip_attachments_server.go: the theorems at one address and one instance.
use osac_fulfillment_service.Dao.Listing.{
  list, matching, selects, where_text, numbered, order_by_id,
}
use osac_fulfillment_service.Dao.Filter.{translate, join}
use osac_fulfillment_service.Dao.Filter.Reading.{read, push}
use osac_fulfillment_service.Dao.Filter.Meaning.{value}
use osac_fulfillment_service.PublicIpAttachments.Requests.{
  create, delete, validate_public_ip_attachment, validate_public_ip_reference,
  validate_compute_instance_reference, validate_uniqueness, update_public_ip_attached_flag,
}
use osac_fulfillment_service.Prelude.{
  ◌∷◌, true, false, ◌||◌, ◌≡◌, ◌⊎◌, refl, String, none, some, arith,
}
use osac_fulfillment_service.Prelude.Compare.{◌==◌, string_comparable}
use osac_fulfillment_service.Prelude.Sort.{sort_strings, insert_sorted}
use osac_fulfillment_service.Errors.{ok}
use osac_fulfillment_service.Collections.{
  contains, empty, universal, finite, inclusions, union, new_set,
}
use osac_fulfillment_service.Collections.Maps.{has_key, put_all, put_key, union_maps}
use osac_fulfillment_service.Auth.{
  default_tenancy_logic, determine_visible_tenants, determine_assignable_tenants,
  determine_default_tenant,
}
use osac_fulfillment_service.Dao.{
  Object, Row, tenancy_filter, admits, filter_tenant, make_metadata, object_of, get_finalizers,
  find_row, set_row, remove_row, fire_event, archive,
}
use osac_fulfillment_service.Dao.Requests as Dao
use osac_fulfillment_service.Dao.Rows.{row_at}
use osac_fulfillment_service.Servers.Labels.{
  validate_metadata, validate_labels, validate_annotations,
}
use osac_fulfillment_service.Servers.Tenants.{determine_assigned_tenant}
use osac_fulfillment_service.Servers.Generic.{
  Server, UpdateRequest, equivalent_objects, equivalent_metadata,
}
use osac_fulfillment_service.Servers.Generic as Generic
use osac_fulfillment_service.PublicIpAttachments.Requests.{
  create, delete, validate_public_ip_attachment, validate_public_ip_reference,
  validate_compute_instance_reference, validate_uniqueness, update_public_ip_attached_flag,
}
use osac_fulfillment_service.PublicIps.{PublicIp, ip_allocated, status_of}
use osac_fulfillment_service.PublicIps.Requests.{same_state}
use osac_fulfillment_service.PublicIps.Sample.{row_of_tenant, permissive, alice, address_row, ok_or}
use osac_fulfillment_service.PublicIpAttachments.{Attachment, Tables, Service}
use osac_fulfillment_service.PublicIpAttachments.Equality.{attachment_comparable}
use osac_fulfillment_service.PublicIpAttachments.Flags.{Flagged}
use osac_fulfillment_service.PublicIpAttachments.Attaching.{ip_of, target_of, create_attaches}
use osac_fulfillment_service.PublicIpAttachments.Detaching.{delete_detaches}
use osac_fulfillment_service.PublicIpAttachments.Reachability.{
  IsValid, here, next, creates, deletes, Reach-IsExclusive,
}
use osac_fulfillment_service.Prelude.{All, ◌&&◌, Bool, []}
use osac_fulfillment_service.Dao.Rows.{Unique, row_at}
use osac_fulfillment_service.Collections.{Set}

-- An instance is given by whether it runs.
abbrev service : Service Bool
service = record {
  server = record {
    database = permissive;
    tenancy = default_tenancy_logic alice;
    creator = ok "alice";
    dry_run = false;
    valid = λ object. true;
    apply_path = λ path request current. ok (record current { payload = request.payload });
  };
  ips = permissive;
  is_running = λ running. running;
}

abbrev tables : Tables Bool
tables = record {
  attachments = record { rows = []; archived = []; events = [] };
  ips = record { rows = address_row ∷ []; archived = []; events = [] };
  instances = record { rows = row_of_tenant "c1" [] true ∷ []; archived = []; events = [] };
}

ips-Unique : Unique tables.ips.rows
unfolding Dao.has_row
ips-Unique = ground arith

abbrev wanted : Object Attachment
wanted = record {
  id = "a1";
  metadata = none;
  payload = record {
    spec = some (record { public_ip = "i1"; compute_instance = some "c1" });
    status = none;
  };
}

abbrev creation : Object Attachment × Tables Bool
creation = ok_or (wanted, tables) (create service (some wanted) tables)

created : create service (some wanted) tables ≡ ok (creation.0, creation.1)
unfolding create validate_public_ip_attachment validate_public_ip_reference
    validate_compute_instance_reference validate_uniqueness update_public_ip_attached_flag list
    matching selects where_text numbered translate join read push value order_by_id Generic.create
    Generic.prepare_for_create validate_metadata validate_labels validate_annotations
    determine_assigned_tenant default_tenancy_logic determine_visible_tenants
    determine_assignable_tenants determine_default_tenant union union_maps new_set put_all put_key
    has_key empty finite universal inclusions contains Dao.create Dao.get Dao.update
    Dao.archive_if_done tenancy_filter find_row admits object_of make_metadata filter_tenant set_row
    get_finalizers sort_strings insert_sorted Dao.has_row fire_event
created = refl

create_attaches_example :
    (attachment : Object Attachment) × (ip : Row PublicIp) × (visible : Set String) × (some wanted
      ≡ some attachment)
    × (row_at (ip_of attachment.payload) tables.ips.rows ≡ some ip)
    × (same_state (status_of ip.document).state ip_allocated ≡ true)
    × (service.server.tenancy.visible_tenants ≡ ok visible)
    × All
        (λ (row : Row Attachment).
          (contains visible row.tenant
            && (ip_of row.document == ip_of attachment.payload
                || target_of row.document == target_of attachment.payload))
          ≡ false)
        tables.attachments.rows
    × Flagged (ip_of attachment.payload) true tables.ips creation.1.ips
create_attaches_example =
    create_attaches service (some wanted) tables creation.1 creation.0 ips-Unique created

abbrev after_delete : Tables Bool
after_delete = ok_or tables (delete service "a1" creation.1)

deletion : delete service "a1" creation.1 ≡ ok after_delete
unfolding delete update_public_ip_attached_flag Generic.get Generic.delete default_tenancy_logic
    determine_visible_tenants union union_maps new_set put_all put_key has_key empty finite
    universal inclusions contains Dao.get Dao.delete Dao.update Dao.archive_if_done tenancy_filter
    find_row admits object_of make_metadata filter_tenant set_row remove_row archive get_finalizers
    sort_strings insert_sorted fire_event create validate_public_ip_attachment
    validate_public_ip_reference validate_compute_instance_reference validate_uniqueness list
    matching Generic.create Generic.prepare_for_create determine_assigned_tenant
    determine_assignable_tenants determine_default_tenant Dao.create Dao.has_row
deletion = refl

attachments-Unique : Unique creation.1.attachments.rows
unfolding delete update_public_ip_attached_flag Generic.get Generic.delete default_tenancy_logic
    determine_visible_tenants union union_maps new_set put_all put_key has_key empty finite
    universal inclusions contains Dao.get Dao.delete Dao.update Dao.archive_if_done tenancy_filter
    find_row admits object_of make_metadata filter_tenant set_row remove_row archive get_finalizers
    sort_strings insert_sorted fire_event create validate_public_ip_attachment
    validate_public_ip_reference validate_compute_instance_reference validate_uniqueness list
    matching Generic.create Generic.prepare_for_create determine_assigned_tenant
    determine_assignable_tenants determine_default_tenant Dao.create Dao.has_row
attachments-Unique = (refl, tt)

ips-Unique_after : Unique creation.1.ips.rows
unfolding delete update_public_ip_attached_flag Generic.get Generic.delete default_tenancy_logic
    determine_visible_tenants union union_maps new_set put_all put_key has_key empty finite
    universal inclusions contains Dao.get Dao.delete Dao.update Dao.archive_if_done tenancy_filter
    find_row admits object_of make_metadata filter_tenant set_row remove_row archive get_finalizers
    sort_strings insert_sorted fire_event create validate_public_ip_attachment
    validate_public_ip_reference validate_compute_instance_reference validate_uniqueness list
    matching Generic.create Generic.prepare_for_create determine_assigned_tenant
    determine_assignable_tenants determine_default_tenant Dao.create Dao.has_row
ips-Unique_after = (refl, tt)

delete_detaches_example :
    (row : Row Attachment) × (row_at "a1" creation.1.attachments.rows ≡ some row)
    × ((((ip_of row.document == "") ≡ true) × (after_delete.ips ≡ creation.1.ips))
        ⊎ Flagged (ip_of row.document) false creation.1.ips after_delete.ips)
delete_detaches_example =
    delete_detaches service "a1" creation.1 after_delete attachments-Unique ips-Unique_after
      deletion

tables-IsValid : IsValid tables
tables-IsValid = record { ips = ips-Unique; attachments = record { unique = tt; exclusive = tt } }

abbrev visible : Set String
visible = ok_or (record { infinite = false; items = [] }) service.server.tenancy.visible_tenants

sees : service.server.tenancy.visible_tenants ≡ ok visible
unfolding default_tenancy_logic determine_visible_tenants union union_maps new_set put_all put_key
    finite
sees = refl

Reach-IsExclusive_example : IsValid after_delete
Reach-IsExclusive_example = Reach-IsExclusive tables after_delete tables-IsValid (
    next (next here (creates service (some wanted) creation.0 visible sees tt created))
      (deletes service "a1" refl deletion))
