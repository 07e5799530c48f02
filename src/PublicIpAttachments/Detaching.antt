-- ===== src/PublicIpAttachments/Detaching.antt =====
-- internal/servers/private_public_ip_attachments_server.go: what deleting an attachment does.
use osac_fulfillment_service.Prelude.{
  true, false, ◌≡◌, ◌⊎◌, ap, inl, inr, String, some, arith, Bool-cases,
}
use osac_fulfillment_service.Prelude.Compare.{◌==◌, string_comparable}
use osac_fulfillment_service.Errors.{ok, status, >>=-eq-ok, >>-eq-ok, refuse, invalid_argument}
use osac_fulfillment_service.Dao.{Object, Row, Store, object_of}
use osac_fulfillment_service.Dao.Rows.{Unique, row_at}
use osac_fulfillment_service.Dao.Access.{get_sound}
use osac_fulfillment_service.Servers.Generic as Generic
use osac_fulfillment_service.PublicIpAttachments.{Attachment, Tables, Service}
use osac_fulfillment_service.PublicIpAttachments.Requests.{detach, delete}
use osac_fulfillment_service.PublicIpAttachments.Flags.{
  translated-eq-ok, Flagged, update_public_ip_attached_flag-Flagged,
}
use osac_fulfillment_service.PublicIpAttachments.Attaching.{ip_of}

module _ {I : Type 0} (service : Service I) where
  pub detached :
      (ip : String) (tables after : Tables I)
      → Unique tables.ips.rows
      → detach service ip tables ≡ ok after
      → ((((ip == "") ≡ true) × (after.ips ≡ tables.ips)) ⊎ Flagged ip false tables.ips after.ips)
        × (after.attachments ≡ tables.attachments)
  detached ip tables after u h = elim (Bool-cases (ip == "")) [
    | inl e ↦ (inl (e, ground arith), ground arith)
    | inr n ↦
        let (flagged, kept) =
          update_public_ip_attached_flag-Flagged service ip false tables after u (ground arith) in
        (inr flagged, kept)
  ]

  -- What a successful deletion did.
  pub delete_steps :
      (id : String) (tables after : Tables I)
      → delete service id tables ≡ ok after
      → (current : Object Attachment) × (attachments : Store Attachment) × (Generic.get
            service.server id tables.attachments
          ≡ ok current)
        × (Generic.delete service.server id tables.attachments ≡ ok attachments)
        × (detach service (ip_of current.payload) (record tables { attachments = attachments })
            ≡ ok after)
  unfolding delete
  delete_steps id tables after h =
      let (named, h1) = >>-eq-ok (refuse (id == "") (status invalid_argument)) _ h in
      let (current, g, h2) = >>=-eq-ok (Generic.get service.server id tables.attachments) _ h1 in
      let (attachments, d, h3) =
        >>=-eq-ok (Generic.delete service.server id tables.attachments) _ h2 in
      (current, attachments, g, d, h3)

  pub got_attachment :
      (id : String) (attachments : Store Attachment) (current : Object Attachment)
      → Unique attachments.rows
      → Generic.get service.server id attachments ≡ ok current
      → (row : Row Attachment) × (row_at id attachments.rows ≡ some row)
        × (current.payload ≡ row.document)
  unfolding Generic.get object_of
  got_attachment id attachments current u h =
      let (named, h1) = >>-eq-ok (refuse (id == "") (status invalid_argument)) _ h in
      let (visible, v, g) =
        >>=-eq-ok service.server.tenancy.visible_tenants _ (translated-eq-ok _ _ h1) in
      let (row, at, seen, same) =
        get_sound service.server.database visible id attachments current u g in
      (row, at, ap (λ x. x.payload) same)

  -- Deleting an attachment, when identifiers of attachments and of addresses are unique, is of a
  -- row of the table. If it names no address, the addresses stay as they are; otherwise the row of
  -- its address is written with the flag cleared, the rest of its document and the time of its
  -- deletion kept and the version one higher, and stays in the table unless it is then marked as
  -- deleted and has no finalizers.
  pub delete_detaches :
      (id : String) (tables after : Tables I)
      → Unique tables.attachments.rows
      → Unique tables.ips.rows
      → delete service id tables ≡ ok after
      → (row : Row Attachment) × (row_at id tables.attachments.rows ≡ some row)
        × ((((ip_of row.document == "") ≡ true) × (after.ips ≡ tables.ips))
            ⊎ Flagged (ip_of row.document) false tables.ips after.ips)
  delete_detaches id tables after ua ui h =
      let (current, attachments, g, d, k) = delete_steps id tables after h in
      let (row, at, doc) = got_attachment id tables.attachments current ua g in
      let (flagged, kept) =
        detached (ip_of current.payload) (record tables { attachments = attachments }) after ui k in
      (row, at, rw (← doc) flagged)
