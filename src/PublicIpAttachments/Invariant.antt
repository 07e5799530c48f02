-- ===== src/PublicIpAttachments/Invariant.antt =====
-- internal/servers/private_public_ip_attachments_server.go: what every request keeps of the attachments.
use osac_fulfillment_service.Prelude.{
  true, false, ◌||◌, ◌&&◌, ◌≡◌, ◌∙◌, refl, sym, ap, inl, inr, String, List, [], ◌∷◌, Option, none,
  some, arith, All, eq_iff, eqb, subst,
}
use osac_fulfillment_service.Prelude.Compare.{Comparable, ◌==◌, string_comparable}
use osac_fulfillment_service.Errors.{
  ok, status, invalid_argument, refuse, internal, >>=-eq-ok, >>-eq-ok, refuse-eq-ok,
}
use osac_fulfillment_service.Collections.{Set, contains}
use osac_fulfillment_service.Dao.{Object, Row, Store}
use osac_fulfillment_service.Dao.Rows.{Unique, row_at}
use osac_fulfillment_service.Dao.Access.{found_visible}
use osac_fulfillment_service.Dao.Lifecycle.{delete-Ends, update-Ends}
use osac_fulfillment_service.Servers.Generic as Generic
use osac_fulfillment_service.Servers.Generic.{UpdateRequest, set_tenant}
use osac_fulfillment_service.Servers.Generic.Effects.{create_adds}
use osac_fulfillment_service.Servers.Generic.Locking.{update_steps, saved}
use osac_fulfillment_service.PublicIps.Requests.{update_includes_field}
use osac_fulfillment_service.PublicIpAttachments.{Attachment, Tables, Service}
use osac_fulfillment_service.PublicIpAttachments.Requests.{
  create, update, delete, guard_target, target_changes, object_or_empty, pending,
}
use osac_fulfillment_service.PublicIpAttachments.Flags.{
  translated-eq-ok, update_public_ip_attached_flag-Flagged,
}
use osac_fulfillment_service.PublicIpAttachments.Attaching.{
  ip_of, target_of, create_steps, validate_uniqueness-Unlisted, neither,
}
use osac_fulfillment_service.PublicIpAttachments.Detaching.{delete_steps, got_attachment, detached}
use osac_fulfillment_service.PublicIpAttachments.Targets.{
  pair_of, pairs, clash, IsExclusive, Ends-IsExclusive,
}

-- All rows are of tenants that the caller sees.
abbrev pub AllSeen : Set String → List (Row Attachment) → Type 0
AllSeen visible rows = All (λ (row : Row Attachment). contains visible row.tenant ≡ true) rows

new-Exclusive :
    (visible : Set String) (attachment : Attachment) (rows : List (Row Attachment))
    → AllSeen visible rows
    → All
        (λ (row : Row Attachment).
          (contains visible row.tenant
            && (ip_of row.document == ip_of attachment
                || target_of row.document == target_of attachment))
          ≡ false)
        rows
    → All (λ q. clash (pair_of attachment) q ≡ false) (pairs rows)
new-Exclusive visible attachment [] seen apart = tt
new-Exclusive visible attachment (row ∷ rows) (s, seen) (a, apart) =
    (ground arith, new-Exclusive visible attachment rows seen apart)

module _ {I : Type 0} (service : Service I) where
  pub create-IsExclusive :
      (request : Option (Object Attachment)) (s t : Tables I) (made : Object Attachment)
      (visible : Set String)
      → service.server.tenancy.visible_tenants ≡ ok visible
      → AllSeen visible s.attachments.rows
      → Unique s.ips.rows
      → create service request s ≡ ok (made, t)
      → IsExclusive s.attachments
      → IsExclusive t.attachments
  create-IsExclusive request s t made visible v seen u h valid =
      let (attachment, attachments, _, r, q, g, f) = create_steps service request s t made h in
      let (visible', v', no_ip, no_target) =
        validate_uniqueness-Unlisted service (ip_of attachment.payload)
          (target_of attachment.payload) s q in
      let same : visible' ≡ visible = ground arith in
      let apart =
        neither visible' (ip_of attachment.payload) (target_of attachment.payload)
          s.attachments.rows no_ip no_target in
      let (flagged, kept) =
        update_public_ip_attached_flag-Flagged service (ip_of attachment.payload) true
          (record s { attachments = attachments }) t u f in
      elim (create_adds service.server (pending attachment) (record { spec = none; status = none })
        s.attachments attachments made g) [
          | inl e ↦ rw (kept, e) valid
          | inr (row, rows, doc, fresh) ↦
              let is_new : pair_of row.document ≡ pair_of attachment.payload = ap pair_of doc in
              let first =
                new-Exclusive visible attachment.payload s.attachments.rows seen
                  (rw same at apart) in
              let clear =
                subst (λ p. All (λ q. clash p q ≡ false) (pairs s.attachments.rows)) (sym is_new)
                  first in
              rw kept (record {
                unique = rw rows (fresh, valid.unique);
                exclusive = rw rows (clear, valid.exclusive);
              })
        ]

  pub delete-IsExclusive :
      (id : String) (s t : Tables I)
      → eqb service.server.database.now 0 ≡ false
      → Unique s.ips.rows
      → delete service id s ≡ ok t
      → IsExclusive s.attachments
      → IsExclusive t.attachments
  unfolding Generic.delete
  delete-IsExclusive id s t late u h valid =
      let (current, attachments, g, d, k) = delete_steps service id s t h in
      let (flagged, kept) =
        detached service (ip_of current.payload) (record s { attachments = attachments }) t u k in
      let (named, d1) = >>-eq-ok (refuse (id == "") (status internal)) _ d in
      let (visible, v, d2) =
        >>=-eq-ok service.server.tenancy.visible_tenants _ (translated-eq-ok _ _ d1) in
      let (clause, old, c, f, e) =
        delete-Ends service.server.database visible id s.attachments attachments late d2 in
      let (at, seen, same_id) =
        found_visible service.server.database visible clause id s.attachments.rows old valid.unique
          c f in
      rw kept (
        Ends-IsExclusive service.server.database _ old s.attachments attachments (rw same_id at)
          refl e valid)

  module _ ⦃c : Comparable Attachment⦄ where
    guarded :
        (request : UpdateRequest Attachment) (new : Object Attachment) (s : Tables I)
        → request.mask ≡ none
        → guard_target service request new s ≡ ok tt
        → (current : Object Attachment) × (Generic.get service.server new.id s.attachments
            ≡ ok current)
          × (target_changes service new.payload current.payload ≡ false)
    unfolding update_includes_field
    guarded request new s m h =
        let (current, g, h1) =
          >>=-eq-ok (Generic.get service.server new.id s.attachments) _ (rw m at h) in
        (current, g, refuse-eq-ok _ _ h1)

    same_pair :
        (new current : Attachment)
        → target_changes service new current ≡ false
        → pair_of new ≡ pair_of current
    same_pair new current h =
        ground
          (arith, eq_iff (ip_of new) (ip_of current), eq_iff (target_of new) (target_of current))

    -- What the generic server writes has the pair of the object in the request.
    written-IsExclusive :
        (request : UpdateRequest Attachment) (new made : Object Attachment) (row : Row Attachment)
        (s t : Store Attachment)
        → request.object ≡ some new
        → request.mask ≡ none
        → row_at new.id s.rows ≡ some row
        → pair_of new.payload ≡ pair_of row.document
        → Generic.update service.server request s ≡ ok (made, t)
        → IsExclusive s
        → IsExclusive t
    written-IsExclusive request new made row s t o m at same h valid =
        let (object, visible, current, merged, tenant, o', v, g, k, mg, a, w) =
          update_steps service.server request s t made h in
        let is_new : object ≡ new = ground arith in
        let whole : merged ≡ new = (let e : merged ≡ object = ground arith in e ∙ is_new) in
        elim (saved service.server (set_tenant tenant merged) current made s t w) [
          | inl e ↦ rw e.0 valid
          | inr (seer, d) ↦
              let (clause, old, next, cl, f, r, md, e) =
                update-Ends service.server.database seer (set_tenant tenant merged) made s t d in
              let (at_old, seen, same_id) =
                found_visible service.server.database seer clause merged.id s.rows old valid.unique
                  cl f in
              let at_next : row_at next.id s.rows ≡ some old = rw (r, same_id) at_old in
              let is_row : row ≡ old = ground arith in
              let keeps : pair_of next.document ≡ pair_of old.document =
                ap (λ (x : Row Attachment). pair_of x.document) r
                ∙ ap (λ (x : Object Attachment). pair_of x.payload) whole
                ∙ same
                ∙ ap (λ (x : Row Attachment). pair_of x.document) is_row in
              Ends-IsExclusive service.server.database next old s t at_next keeps e valid
        ]

    pub update-IsExclusive :
        (request : UpdateRequest Attachment) (new made : Object Attachment) (s t : Tables I)
        → request.object ≡ some new
        → request.mask ≡ none
        → update service request s ≡ ok (made, t)
        → IsExclusive s.attachments
        → IsExclusive t.attachments
    unfolding update
    update-IsExclusive request new made s t o m h valid =
        let object = object_or_empty request.object in
        let is_new : object ≡ new = rw o in
        let (named, h1) = >>-eq-ok (refuse (object.id == "") (status invalid_argument)) _ h in
        let (guard, h2) = >>-eq-ok (guard_target service request object s) _ h1 in
        let (updated, w, h3) =
          >>=-eq-ok (Generic.update service.server request s.attachments) _ h2 in
        let (current, g, kept) = guarded request object s m guard in
        let (row, at, doc) =
          got_attachment service object.id s.attachments current valid.unique g in
        let at_new : row_at new.id s.attachments.rows ≡ some row =
          ap (λ (x : Object Attachment). row_at x.id s.attachments.rows) (sym is_new) ∙ at in
        let pair : pair_of new.payload ≡ pair_of row.document =
          ap (λ (x : Object Attachment). pair_of x.payload) (sym is_new)
          ∙ same_pair object.payload current.payload kept
          ∙ ap pair_of doc in
        let after : updated.1 ≡ t.attachments = ground arith in
        rw (← after) (
          written-IsExclusive request new updated.0 row s.attachments updated.1 o m at_new pair w
            valid)
