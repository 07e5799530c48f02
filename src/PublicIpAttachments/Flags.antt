-- ===== src/PublicIpAttachments/Flags.antt =====
-- internal/servers/private_public_ip_attachments_server.go: the flag of an address.
use osac_fulfillment_service.Prelude.{
  Bool, true, suc, ◌≡◌, ◌∙◌, ap, inl, inr, String, none, some, arith, if◌then◌else◌, Option-cases,
}
use osac_fulfillment_service.Prelude.Compare.{string_comparable}
use osac_fulfillment_service.Errors.{ok, err, Result, Error, >>=-eq-ok}
use osac_fulfillment_service.Dao.{Object, Row, Store, object_of, no_filter, set_row}
use osac_fulfillment_service.Dao.Requests as Dao
use osac_fulfillment_service.Dao.Requests.{is_nil, translated}
use osac_fulfillment_service.Dao.Rows.{
  Unique, row_at, is_pending, find_row-some, set_row-Unique, remove_row-Unique,
}
use osac_fulfillment_service.Dao.Lifecycle.{Ends, update-Ends}
use osac_fulfillment_service.Dao.Access.{get_sound, found_visible}
use osac_fulfillment_service.Dao.Outcomes.{Ends-row_at_self}
use osac_fulfillment_service.PublicIps.{PublicIp, PublicIpStatus, ip_allocated, status_of}
use osac_fulfillment_service.PublicIps.Requests.{same_state}
use osac_fulfillment_service.PublicIpAttachments.{Tables, Service}
use osac_fulfillment_service.PublicIpAttachments.Requests.{
  get_ip, save_ip, set_attached, update_public_ip_attached_flag, validate_public_ip_reference,
}

pub translated-eq-ok {ℓ} :
    {A : Type ℓ} (translate : Error → Error) (outcome : Result A) {a : A}
    → translated translate outcome ≡ ok a
    → outcome ≡ ok a
translated-eq-ok translate (ok a) h = h
translated-eq-ok translate (err e) h = absurd (cc)

-- The flag of one address, in the row that is written unless that row can be archived.
abbrev pub Flagged : String → Bool → Store PublicIp → Store PublicIp → Type 0
Flagged id attached s t =
    (old : Row PublicIp) × (new : Row PublicIp) × (found : PublicIpStatus) × (row_at id s.rows
      ≡ some old)
    × (old.document.status ≡ some found)
    × (new.document ≡ record old.document { status = some (record found { attached = attached }) })
    × (new.deletion_timestamp ≡ old.deletion_timestamp)
    × (new.version ≡ suc old.version)
    × (row_at id t.rows ≡ (if is_pending new then some new else none))

set_attached-eq-ok :
    (attached : Bool) (ip changed : Object PublicIp)
    → set_attached attached ip ≡ ok changed
    → (found : PublicIpStatus) × (ip.payload.status ≡ some found)
      × (changed.id ≡ ip.id)
      × (changed.payload
          ≡ record ip.payload { status = some (record found { attached = attached }) })
set_attached-eq-ok attached ip changed h = elim (Option-cases ip.payload.status) [
  | inl missing ↦ absurd (ground arith)
  | inr (found, is) ↦ (found, is, ground arith, ground arith)
]

module _ {I : Type 0} (service : Service I) where
  pub got_ip :
      (id : String) (tables : Tables I) (ip : Object PublicIp)
      → Unique tables.ips.rows
      → get_ip service id tables ≡ ok ip
      → (row : Row PublicIp) × (row_at id tables.ips.rows ≡ some row)
        × (ip.id ≡ id)
        × (ip.payload ≡ row.document)
  unfolding object_of
  got_ip id tables ip u h =
      let (visible, v, g) = >>=-eq-ok service.server.tenancy.visible_tenants _ h in
      let (row, at, seen, same) = get_sound service.ips visible id tables.ips ip u g in
      let (_, named, _) = find_row-some no_filter id tables.ips.rows row at in
      (row, at, ap (λ x. x.id) same ∙ named, ap (λ x. x.payload) same)

  saved_ip :
      (ip : Object PublicIp) (tables after : Tables I)
      → Unique tables.ips.rows
      → save_ip service ip tables ≡ ok after
      → (old : Row PublicIp) × (new : Row PublicIp) × (row_at ip.id tables.ips.rows ≡ some old)
        × (new.document ≡ ip.payload)
        × (new.deletion_timestamp ≡ old.deletion_timestamp)
        × (new.version ≡ suc old.version)
        × (row_at ip.id after.ips.rows ≡ (if is_pending new then some new else none))
        × (after.attachments ≡ tables.attachments)
  saved_ip ip tables after u h =
      let (visible, v, h') = >>=-eq-ok service.server.tenancy.visible_tenants _ h in
      let (saved, d, last) = >>=-eq-ok (Dao.update service.ips visible ip tables.ips) _ h' in
      let (clause, old, new, c, f, r, m, e) =
        update-Ends service.ips visible ip saved.0 tables.ips saved.1 d in
      let (at, seen, same) =
        found_visible service.ips visible clause ip.id tables.ips.rows old u c f in
      let (stored, _, here) = find_row-some clause ip.id tables.ips.rows old f in
      let self = Ends-row_at_self service.ips new tables.ips saved.1 u (ground arith) e in
      (old, new, at, ground arith, ground arith, ground arith, ground (arith, self), ground arith)

  Ends-Unique :
      (row : Row PublicIp) (s t : Store PublicIp)
      → Unique s.rows
      → Ends service.ips row s t
      → Unique t.rows
  Ends-Unique row s t u (inl (p, r, a)) = rw r (set_row-Unique row s.rows u)
  Ends-Unique row s t u (inr (p, r, a)) =
      rw r (remove_row-Unique row.id (set_row row s.rows) (set_row-Unique row s.rows u))

  pub update_public_ip_attached_flag-Flagged :
      (id : String) (attached : Bool) (tables after : Tables I)
      → Unique tables.ips.rows
      → update_public_ip_attached_flag service id attached tables ≡ ok after
      → Flagged id attached tables.ips after.ips × (after.attachments ≡ tables.attachments)
  unfolding update_public_ip_attached_flag
  update_public_ip_attached_flag-Flagged id attached tables after u h =
      let (ip, g, h') = >>=-eq-ok (translated _ (get_ip service id tables)) _ h in
      let (changed, c, h'') = >>=-eq-ok (set_attached attached ip) _ h' in
      let (old, at, named, doc) = got_ip id tables ip u (translated-eq-ok _ _ g) in
      let (found, is, same_id, payload) = set_attached-eq-ok attached ip changed c in
      let (old', new, at', written, deletion, version, put, kept) =
        saved_ip changed tables after u (translated-eq-ok _ _ h'') in
      let same_old : old' ≡ old = ground arith in
      (
        (
          old,
          new,
          found,
          at,
          rw (← doc) is,
          written ∙ rw (← doc) payload,
          rw (← same_old) deletion,
          rw (← same_old) version,
          rw (← named) (rw (← same_id) put),
        ),
        kept,
      )

  pub ip_reference_sound :
      (id : String) (tables : Tables I)
      → Unique tables.ips.rows
      → validate_public_ip_reference service id tables ≡ ok tt
      → (row : Row PublicIp) × (row_at id tables.ips.rows ≡ some row)
        × (same_state (status_of row.document).state ip_allocated ≡ true)
  unfolding validate_public_ip_reference
  ip_reference_sound id tables u h =
      let (ip, g, h') = >>=-eq-ok (translated _ (get_ip service id tables)) _ h in
      let (row, at, named, doc) = got_ip id tables ip u (translated-eq-ok _ _ g) in
      (row, at, rw (← doc) (ground arith))

  -- The identifiers of addresses stay unique.
  pub update_public_ip_attached_flag-Unique :
      (id : String) (attached : Bool) (tables after : Tables I)
      → Unique tables.ips.rows
      → update_public_ip_attached_flag service id attached tables ≡ ok after
      → Unique after.ips.rows
  unfolding update_public_ip_attached_flag
  update_public_ip_attached_flag-Unique id attached tables after u h =
      let (ip, g, h') = >>=-eq-ok (translated _ (get_ip service id tables)) _ h in
      let (changed, c, h'') = >>=-eq-ok (set_attached attached ip) _ h' in
      let (visible, v, s) =
        >>=-eq-ok service.server.tenancy.visible_tenants _ (translated-eq-ok _ _ h'') in
      let (saved, d, last) = >>=-eq-ok (Dao.update service.ips visible changed tables.ips) _ s in
      let (clause, old, row, cl, f, r, m, e) =
        update-Ends service.ips visible changed saved.0 tables.ips saved.1 d in
      let kept : Unique saved.1.rows = Ends-Unique row tables.ips saved.1 u e in
      let same : saved.1 ≡ after.ips = ground arith in rw (← same) kept
