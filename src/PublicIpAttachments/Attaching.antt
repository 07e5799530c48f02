-- ===== src/PublicIpAttachments/Attaching.antt =====
-- internal/servers/private_public_ip_attachments_server.go: what creating and deleting an attachment does.
use osac_fulfillment_service.Prelude.{
  true, false, ◌≡◌, ◌≢◌, ◌∙◌, ◌||◌, ◌&&◌, ap, subst, inl, inr, String, List, [], ◌∷◌, Option, none,
  some, arith, Option-cases, All,
}
use osac_fulfillment_service.Prelude.Compare.{◌==◌, string_comparable}
use osac_fulfillment_service.Errors.{ok, >>=-eq-ok, >>-eq-ok, refuse-eq-ok}
use osac_fulfillment_service.Collections.{Set, contains}
use osac_fulfillment_service.Dao.{Object, Row, Store}
use osac_fulfillment_service.Dao.Requests.{translated}
use osac_fulfillment_service.Dao.Rows.{Unique, row_at}
use osac_fulfillment_service.Dao.Filter.Meaning.{meaning, precedence_of}
use osac_fulfillment_service.Dao.Listing.{Conditions}
use osac_fulfillment_service.Dao.Absence.{Unlisted, list-Unlisted}
use osac_fulfillment_service.Servers.Generic as Generic
use osac_fulfillment_service.PublicIps.{PublicIp, ip_allocated, status_of}
use osac_fulfillment_service.PublicIps.Requests.{same_state}
use osac_fulfillment_service.PublicIpAttachments.{Attachment, Tables, Service, spec_of, instance_of}
use osac_fulfillment_service.PublicIpAttachments.Requests.{
  validate_public_ip_attachment, validate_public_ip_reference, validate_compute_instance_reference,
  refuse_listed, validate_uniqueness, update_public_ip_attached_flag, one_condition, of_ip,
  of_instance, pending, create,
}
use osac_fulfillment_service.PublicIpAttachments.Flags.{
  translated-eq-ok, Flagged, update_public_ip_attached_flag-Flagged, ip_reference_sound,
}

abbrev pub ip_of : Attachment → String
ip_of attachment = (spec_of attachment).public_ip

abbrev pub target_of : Attachment → String
target_of attachment = instance_of (spec_of attachment)

one_condition-tight : precedence_of one_condition ≢ 0
one_condition-tight = ground arith

validated :
    (request : Option (Object Attachment)) (attachment : Object Attachment)
    → validate_public_ip_attachment request ≡ ok attachment
    → request ≡ some attachment
unfolding validate_public_ip_attachment
validated none attachment h = absurd (cc)
validated (some object) attachment h = elim (Option-cases object.payload.spec) [
  | inl missing ↦ absurd (ground arith)
  | inr (spec, is) ↦ ground arith
]

pub neither :
    (visible : Set String) (ip target : String) (rows : List (Row Attachment))
    → Unlisted (of_ip ip) visible one_condition rows
    → Unlisted (of_instance target) visible one_condition rows
    → All
        (λ (row : Row Attachment).
          (contains visible row.tenant
            && (ip_of row.document == ip || target_of row.document == target))
          ≡ false)
        rows
unfolding meaning
neither visible ip target [] no_ip no_target = tt
neither visible ip target (row ∷ rows) (i, no_ip) (t, no_target) =
    (ground arith, neither visible ip target rows no_ip no_target)

module _ {I : Type 0} (service : Service I) where
  refuse_listed-Unlisted :
      (sql : Conditions Attachment) (tables : Tables I)
      → refuse_listed service sql tables ≡ ok tt
      → (visible : Set String) × (service.server.tenancy.visible_tenants ≡ ok visible)
        × Unlisted sql visible one_condition tables.attachments.rows
  refuse_listed-Unlisted sql tables h =
      let (found, l, h') = >>=-eq-ok (translated _ _) _ h in
      let (visible, v, l') =
        >>=-eq-ok service.server.tenancy.visible_tenants _ (translated-eq-ok _ _ l) in
      (
        visible,
        v,
        list-Unlisted sql visible one_condition tables.attachments found tt one_condition-tight l'
            (refuse-eq-ok _ _ h'),
      )

  -- What a successful creation did, one step behind the other.
  pub create_steps :
      (request : Option (Object Attachment)) (tables after : Tables I) (made : Object Attachment)
      → create service request tables ≡ ok (made, after)
      → (attachment : Object Attachment) × (attachments : Store Attachment)
        × (validate_public_ip_attachment request ≡ ok attachment)
        × (validate_public_ip_reference service (ip_of attachment.payload) tables ≡ ok tt)
        × (validate_uniqueness service
              (ip_of attachment.payload)
              (target_of attachment.payload)
              tables
            ≡ ok tt)
        × (Generic.create service.server
              (some (pending attachment))
              (record { spec = none; status = none })
              tables.attachments
            ≡ ok (made, attachments))
        × (update_public_ip_attached_flag service
              (ip_of attachment.payload)
              true
              (record tables { attachments = attachments })
            ≡ ok after)
  unfolding create
  create_steps request tables after made h =
      let (attachment, v, h1) = >>=-eq-ok (validate_public_ip_attachment request) _ h in
      let ip = ip_of attachment.payload in
      let target = target_of attachment.payload in
      let (r, h2) = >>-eq-ok (validate_public_ip_reference service ip tables) _ h1 in
      let (c, h3) = >>-eq-ok (validate_compute_instance_reference service target tables) _ h2 in
      let (u, h4) = >>-eq-ok (validate_uniqueness service ip target tables) _ h3 in
      let (created, g, h5) =
        >>=-eq-ok
          (Generic.create service.server (some (pending attachment))
            (record { spec = none; status = none }) tables.attachments)
          _ h4 in
      let (last, f, h6) =
        >>=-eq-ok
          (update_public_ip_attached_flag service ip true
            (record tables { attachments = created.1 }))
          _ h5 in
      let same_made : created.0 ≡ made = ground arith in
      let same_after : last ≡ after = ground arith in
      (
        attachment,
        created.1,
        v,
        r,
        u,
        g ∙ ap (λ (m : Object Attachment). ok (m, created.1)) same_made,
        f ∙ ap ok same_after,
      )

  -- No attachment that the caller sees has the address or the instance.
  pub validate_uniqueness-Unlisted :
      (ip target : String) (tables : Tables I)
      → validate_uniqueness service ip target tables ≡ ok tt
      → (visible : Set String) × (service.server.tenancy.visible_tenants ≡ ok visible)
        × Unlisted (of_ip ip) visible one_condition tables.attachments.rows
        × Unlisted (of_instance target) visible one_condition tables.attachments.rows
  unfolding validate_uniqueness
  validate_uniqueness-Unlisted ip target tables h =
      let (first, second) = >>-eq-ok (refuse_listed service (of_ip ip) tables) _ h in
      let (visible, v, no_ip) = refuse_listed-Unlisted (of_ip ip) tables first in
      let (visible', v', no_target) = refuse_listed-Unlisted (of_instance target) tables second in
      let same : visible' ≡ visible = ground arith in
      (
        visible,
        v,
        no_ip,
        subst (λ s. Unlisted (of_instance target) s one_condition tables.attachments.rows) same
            no_target,
      )

  -- An attachment is created, when identifiers of addresses are unique, only to an address that is
  -- ALLOCATED, and only if no attachment that the caller sees has the address or the instance. The
  -- row of the address is written with the flag set, the rest of its document and the time of its
  -- deletion kept and the version one higher, and stays in the table unless it is then marked as
  -- deleted and has no finalizers.
  pub create_attaches :
      (request : Option (Object Attachment)) (tables after : Tables I) (made : Object Attachment)
      → Unique tables.ips.rows
      → create service request tables ≡ ok (made, after)
      → (attachment : Object Attachment) × (ip : Row PublicIp) × (visible : Set String) × (request
          ≡ some attachment)
        × (row_at (ip_of attachment.payload) tables.ips.rows ≡ some ip)
        × (same_state (status_of ip.document).state ip_allocated ≡ true)
        × (service.server.tenancy.visible_tenants ≡ ok visible)
        × All
            (λ (row : Row Attachment).
              (contains visible row.tenant
                && (ip_of row.document == ip_of attachment.payload
                    || target_of row.document == target_of attachment.payload))
              ≡ false)
            tables.attachments.rows
        × Flagged (ip_of attachment.payload) true tables.ips after.ips
  create_attaches request tables after made u h =
      let (attachment, attachments, v, r, q, g, f) = create_steps request tables after made h in
      let ip_id = ip_of attachment.payload in
      let target = target_of attachment.payload in
      let (ip, at, allocated) = ip_reference_sound service ip_id tables u r in
      let (visible, seen, no_ip, no_target) = validate_uniqueness-Unlisted ip_id target tables q in
      let (flagged, kept) =
        update_public_ip_attached_flag-Flagged service ip_id true
          (record tables { attachments = attachments }) after u f in
      (
        attachment,
        ip,
        visible,
        validated request attachment v,
        at,
        allocated,
        seen,
        neither visible ip_id target tables.attachments.rows no_ip no_target,
        flagged,
      )
