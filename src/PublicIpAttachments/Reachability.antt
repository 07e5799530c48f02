-- ===== src/PublicIpAttachments/Reachability.antt =====
-- internal/servers/private_public_ip_attachments_server.go: the invariant of sequences of requests.
use osac_fulfillment_service.Prelude.{
  true, false, ◌≡◌, inl, inr, String, Option, none, some, arith, Bool-cases, eqb,
}
use osac_fulfillment_service.Prelude.Compare.{Comparable, ◌==◌, string_comparable}
use osac_fulfillment_service.Errors.{ok, status, invalid_argument, refuse, >>=-eq-ok, >>-eq-ok}
use osac_fulfillment_service.Collections.{Set}
use osac_fulfillment_service.Dao.{Object}
use osac_fulfillment_service.Dao.Rows.{Unique}
use osac_fulfillment_service.Servers.Generic as Generic
use osac_fulfillment_service.Servers.Generic.{UpdateRequest, set_tenant}
use osac_fulfillment_service.PublicIpAttachments.{Attachment, Tables, Service}
use osac_fulfillment_service.PublicIpAttachments.Requests.{
  create, update, delete, detach, guard_target, object_or_empty,
}
use osac_fulfillment_service.PublicIpAttachments.Flags.{update_public_ip_attached_flag-Unique}
use osac_fulfillment_service.PublicIpAttachments.Attaching.{ip_of, create_steps}
use osac_fulfillment_service.PublicIpAttachments.Detaching.{delete_steps}
use osac_fulfillment_service.PublicIpAttachments.Targets.{IsExclusive}
use osac_fulfillment_service.PublicIpAttachments.Invariant.{
  AllSeen, create-IsExclusive, delete-IsExclusive, update-IsExclusive,
}

module _ {I : Type 0} (service : Service I) where
  created_ips :
      (request : Option (Object Attachment)) (s t : Tables I) (made : Object Attachment)
      → Unique s.ips.rows
      → create service request s ≡ ok (made, t)
      → Unique t.ips.rows
  created_ips request s t made u h =
      let (attachment, attachments, v, r, q, g, f) = create_steps service request s t made h in
      update_public_ip_attached_flag-Unique service (ip_of attachment.payload) true
        (record s { attachments = attachments }) t u f

  detached_ips :
      (ip : String) (s t : Tables I)
      → Unique s.ips.rows
      → detach service ip s ≡ ok t
      → Unique t.ips.rows
  detached_ips ip s t u h = elim (Bool-cases (ip == "")) [
    | inl e ↦ let same : s ≡ t = ground arith in rw (← same) u
    | inr n ↦ update_public_ip_attached_flag-Unique service ip false s t u (ground arith)
  ]

  deleted_ips :
      (id : String) (s t : Tables I)
      → Unique s.ips.rows
      → delete service id s ≡ ok t
      → Unique t.ips.rows
  deleted_ips id s t u h =
      let (current, attachments, g, d, k) = delete_steps service id s t h in
      detached_ips (ip_of current.payload) (record s { attachments = attachments }) t u k

  updated_ips :
      ⦃c : Comparable Attachment⦄ (request : UpdateRequest Attachment) (made : Object Attachment)
      (s t : Tables I)
      → update service request s ≡ ok (made, t)
      → t.ips ≡ s.ips
  unfolding update
  updated_ips request made s t h =
      let object = object_or_empty request.object in
      let (named, h1) = >>-eq-ok (refuse (object.id == "") (status invalid_argument)) _ h in
      let (guard, h2) = >>-eq-ok (guard_target service request object s) _ h1 in
      let (updated, w, h3) = >>=-eq-ok (Generic.update service.server request s.attachments) _ h2 in
      ground arith

-- A request that succeeds. Whoever creates sees the tenants of all attachments, an update has no mask,
-- and the clock of a deletion is past the epoch.
module _ {I : Type 0} ⦃c : Comparable Attachment⦄ where
  pub data Step (s t : Tables I) : Type 0 where
    creates :
        (service : Service I) (request : Option (Object Attachment)) (made : Object Attachment)
        (visible : Set String)
        → service.server.tenancy.visible_tenants ≡ ok visible
        → AllSeen visible s.attachments.rows
        → create service request s ≡ ok (made, t)
        → Step s t
    updates :
        (service : Service I) (request : UpdateRequest Attachment) (new made : Object Attachment)
        → request.object ≡ some new
        → request.mask ≡ none
        → update service request s ≡ ok (made, t)
        → Step s t
    deletes :
        (service : Service I) (id : String)
        → eqb service.server.database.now 0 ≡ false
        → delete service id s ≡ ok t
        → Step s t

  pub data Reach (s : Tables I) : Tables I → Type 0 where
    here : Reach s s
    next : {t u : Tables I} → Reach s t → Step t u → Reach s u

  -- The identifiers of addresses stay unique, and so do the attachments.
  pub record IsValid (tables : Tables I) : Type 0 where
    pub ips : Unique tables.ips.rows
    pub attachments : IsExclusive tables.attachments

  Step-IsValid : (s t : Tables I) → IsValid s → Step s t → IsValid t
  Step-IsValid s t v (creates service request made visible seer seen h) = record {
    ips = created_ips service request s t made v.ips h;
    attachments =
        create-IsExclusive service request s t made visible seer seen v.ips h v.attachments;
  }
  Step-IsValid s t v (updates service request new made o m h) = record {
    ips = rw (updated_ips service request made s t h) v.ips;
    attachments = update-IsExclusive service request new made s t o m h v.attachments;
  }
  Step-IsValid s t v (deletes service id late h) = record {
    ips = deleted_ips service id s t v.ips h;
    attachments = delete-IsExclusive service id s t late v.ips h v.attachments;
  }

  -- After any sequence of creations by callers who see the tenants of all attachments, updates
  -- without a mask, and deletions past the epoch, of attachments, in which every request succeeds,
  -- no address and no compute instance stands in two attachments, and the identifiers of
  -- attachments and of addresses are unique, if that was so before the first of them.
  pub Reach-IsExclusive : (s t : Tables I) → IsValid s → Reach s t → IsValid t
  Reach-IsExclusive s _ v here = v
  Reach-IsExclusive s t v (next {t = u} r st) = Step-IsValid u t (Reach-IsExclusive s u v r) st
