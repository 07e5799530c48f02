-- ===== src/PublicIpAttachments/Requests.antt =====
-- internal/servers/private_public_ip_attachments_server.go: the requests on attachments.
use osac_fulfillment_service.Prelude.{
  Bool, true, false, not, ◌||◌, String, Option, none, some, ltb, if◌then◌else◌,
}
use osac_fulfillment_service.Prelude.Compare.{Comparable, ◌==◌, string_comparable}
use osac_fulfillment_service.Prelude.Int.{pos}
use osac_fulfillment_service.Errors.{
  Error, status, not_found_error, invalid_argument, already_exists, failed_precondition, internal,
  Result, ok, err, ◌>>=◌, ◌>>◌, refuse,
}
use osac_fulfillment_service.Dao.{Object}
use osac_fulfillment_service.Dao.Requests as Dao
use osac_fulfillment_service.Dao.Requests.{translated}
use osac_fulfillment_service.Dao.Filter.{Expr, operand}
use osac_fulfillment_service.Dao.Listing.{Conditions, list}
use osac_fulfillment_service.Servers.Generic.{UpdateRequest}
use osac_fulfillment_service.Servers.Generic as Generic
use osac_fulfillment_service.PublicIps.{PublicIp, ip_allocated, status_of}
use osac_fulfillment_service.PublicIps.Requests.{same_state, update_includes_field}
use osac_fulfillment_service.PublicIpAttachments.{
  Attachment, attachment_pending, Tables, Service, spec_of, instance_of, with_state,
}

unfoldable pub validate_public_ip_attachment :
    Option (Object Attachment) → Result (Object Attachment)
validate_public_ip_attachment none = err (status invalid_argument)
validate_public_ip_attachment (some attachment) = elim attachment.payload.spec [
  | none ↦ err (status invalid_argument)
  | some spec ↦ (do
    refuse (spec.public_ip == "") (status invalid_argument)
    refuse (instance_of spec == "") (status invalid_argument)
    ok attachment)
]

abbrev pub reference_status : Error → Error
reference_status (not_found_error id) = status invalid_argument
reference_status _ = status internal

abbrev pub to_internal : Error → Error
to_internal _ = status internal

-- `this.spec.public_ip == …` and `this.spec.compute_instance == …`
abbrev pub one_condition : Expr
one_condition = operand 0

abbrev pub of_ip : String → Conditions Attachment
of_ip id = record {
  holds = λ n row. (spec_of row.document).public_ip == id;
  other = λ op a b. false;
}

abbrev pub of_instance : String → Conditions Attachment
of_instance id = record {
  holds = λ n row. instance_of (spec_of row.document) == id;
  other = λ op a b. false;
}

abbrev pub pending : Object Attachment → Object Attachment
pending attachment = record attachment {
  payload = record attachment.payload {
    status = some (with_state attachment_pending attachment.payload.status);
  };
}

-- `GetStatus().SetAttached(attached)` panics where there is no status; the interceptor of
-- internal/recovery answers with an internal error then.
abbrev pub set_attached : Bool → Object PublicIp → Result (Object PublicIp)
set_attached attached ip = elim ip.payload.status [
  | none ↦ err (status internal)
  | some found ↦ ok (record ip {
    payload = record ip.payload { status = some (record found { attached = attached }) };
  })
]

abbrev pub object_or_empty : Option (Object Attachment) → Object Attachment
object_or_empty none = record {
  id = "";
  metadata = none;
  payload = record { spec = none; status = none };
}
object_or_empty (some object) = object

module _ {I : Type 0} (service : Service I) where
  -- `publicIPDao.Get()`
  abbrev pub get_ip : String → Tables I → Result (Object PublicIp)
  get_ip id tables = do
    visible ← service.server.tenancy.visible_tenants
    Dao.get visible id tables.ips

  unfoldable pub validate_public_ip_reference : String → Tables I → Result (Unit {0})
  validate_public_ip_reference id tables = do
    ip ← translated reference_status (get_ip id tables)
    refuse (not (same_state (status_of ip.payload).state ip_allocated)) (status failed_precondition)

  unfoldable pub validate_compute_instance_reference : String → Tables I → Result (Unit {0})
  validate_compute_instance_reference id tables = do
    instance' ←
        translated reference_status
          (do visible ← service.server.tenancy.visible_tenants; Dao.get visible id tables.instances)
    refuse (not (service.is_running instance'.payload)) (status failed_precondition)

  -- One of the two list requests, with the limit 1.
  abbrev pub refuse_listed : Conditions Attachment → Tables I → Result (Unit {0})
  refuse_listed sql tables = do
    found ← translated to_internal (do
      visible ← service.server.tenancy.visible_tenants
      list sql 100 1000 visible (some one_condition) (pos 0) (pos 1) tables.attachments)
    refuse (ltb 0 found.size) (status already_exists)

  unfoldable pub validate_uniqueness : String → String → Tables I → Result (Unit {0})
  validate_uniqueness ip instance_id tables = do
    refuse_listed (of_ip ip) tables
    refuse_listed (of_instance instance_id) tables

  -- `publicIPDao.Update()`
  abbrev pub save_ip : Object PublicIp → Tables I → Result (Tables I)
  save_ip ip tables = do
    visible ← service.server.tenancy.visible_tenants
    saved ← Dao.update service.ips visible ip tables.ips
    ok (record tables { ips = saved.1 })

  unfoldable pub update_public_ip_attached_flag : String → Bool → Tables I → Result (Tables I)
  update_public_ip_attached_flag id attached tables = do
    ip ← translated to_internal (get_ip id tables)
    changed ← set_attached attached ip
    translated to_internal (save_ip changed tables)

  unfoldable pub create :
      Option (Object Attachment) → Tables I → Result (Object Attachment × Tables I)
  create request tables = do
    attachment ← validate_public_ip_attachment request
    let ip = (spec_of attachment.payload).public_ip
    let instance_id = instance_of (spec_of attachment.payload)
    validate_public_ip_reference ip tables
    validate_compute_instance_reference instance_id tables
    validate_uniqueness ip instance_id tables
    created ←
        Generic.create service.server (some (pending attachment))
          (record { spec = none; status = none }) tables.attachments
    tables' ← update_public_ip_attached_flag ip true (record tables { attachments = created.1 })
    ok (created.0, tables')

  abbrev pub target_changes : Attachment → Attachment → Bool
  target_changes new current =
      not ((spec_of new).public_ip == (spec_of current).public_ip)
      || not (instance_of (spec_of new) == instance_of (spec_of current))

  -- `validateImmutableFieldsPublicIPAttachment`, where the mask includes one of the fields.
  abbrev pub guard_target :
      UpdateRequest Attachment → Object Attachment → Tables I → Result (Unit {0})
  guard_target request new tables =
      if update_includes_field request.mask "spec.public_ip"
        || update_includes_field request.mask "spec.compute_instance"
      then (do
        current ← Generic.get service.server new.id tables.attachments
        refuse (target_changes new.payload current.payload) (status invalid_argument))
      else ok tt

  module _ ⦃c : Comparable Attachment⦄ where
    unfoldable pub update :
        UpdateRequest Attachment → Tables I → Result (Object Attachment × Tables I)
    update request tables = do
      let new = object_or_empty request.object
      refuse (new.id == "") (status invalid_argument)
      guard_target request new tables
      updated ← Generic.update service.server request tables.attachments
      ok (updated.0, record tables { attachments = updated.1 })

  abbrev pub detach : String → Tables I → Result (Tables I)
  detach ip tables =
      if not (ip == "") then update_public_ip_attached_flag ip false tables else ok tables

  unfoldable pub delete : String → Tables I → Result (Tables I)
  delete id tables = do
    refuse (id == "") (status invalid_argument)
    current ← Generic.get service.server id tables.attachments
    attachments ← Generic.delete service.server id tables.attachments
    detach (spec_of current.payload).public_ip (record tables { attachments = attachments })
