-- ===== src/Servers/Generic/Effects.antt =====
-- internal/servers/generic_server.go: what creation does to the table.
use osac_fulfillment_service.Prelude.{
  true, false, ◌≡◌, ◌∙◌, ◌⊎◌, inl, inr, refl, ap, sym, String, ◌∷◌, Option, none, some, arith,
  if◌then◌else◌, Bool-cases,
}
use osac_fulfillment_service.Prelude.Compare.{◌==◌, string_comparable}
use osac_fulfillment_service.Errors.{ok, Result-cases, >>=-eq-ok}
use osac_fulfillment_service.Collections.{Set, contains, finite, universal}
use osac_fulfillment_service.Auth.{Subject, default_tenancy_logic}
use osac_fulfillment_service.Dao.{
  Object, Row, Store, fire_event, field_or, get_finalizers, object_of,
}
use osac_fulfillment_service.Dao.Requests.{row_of}
use osac_fulfillment_service.Dao.Requests as Dao
use osac_fulfillment_service.Servers.Tenants.{
  determine_assigned_tenant, contains-determine_assigned_tenant,
}
use osac_fulfillment_service.Servers.Generic.{
  Server, prepare_for_create, create, get_tenant, set_tenant, set_creator,
}

module _ {D : Type 0} (server : Server D) where
  -- A dry run answers with the prepared object and changes nothing.
  pub create_dry_run :
      (request : Option (Object D)) (template : D) (s t : Store D) (made : Object D)
      → server.dry_run ≡ true
      → create server request template s ≡ ok (made, t)
      → (t ≡ s) × (prepare_for_create server request template ≡ ok made)
  unfolding create
  create_dry_run request template s t made dry h =
      elim (Result-cases (prepare_for_create server request template)) [
        | inl (p, q) ↦ ground arith
        | inr (e, q) ↦ absurd (ground arith)
      ]

  abbrev object_or_template : Option (Object D) → D → Object D
  object_or_template none template = record { id = ""; metadata = none; payload = template }
  object_or_template (some object) template = object

  prepared :
      (request : Option (Object D)) (template : D) (made : Object D)
      → prepare_for_create server request template ≡ ok made
      → (creator : String) × (tenant : String) × (created : Object D) × (server.creator
          ≡ ok creator)
        × (created ≡ set_creator creator (object_or_template request template))
        × (determine_assigned_tenant server.tenancy (get_tenant created) (get_tenant created)
            ≡ ok tenant)
        × (made ≡ set_tenant tenant created)
  unfolding prepare_for_create
  prepared none template made h = elim (Result-cases server.creator) [
    | inr (e, c) ↦ absurd (ground arith)
    | inl (creator, c) ↦
        let created = set_creator creator (object_or_template none template) in
        elim (Result-cases
          (determine_assigned_tenant server.tenancy (get_tenant created) (get_tenant created))) [
            | inr (e, a) ↦ absurd (ground arith)
            | inl (tenant, a) ↦ (creator, tenant, created, c, refl, a, ground arith)
          ]
  ]
  prepared (some object) template made h = elim (Result-cases server.creator) [
    | inr (e, c) ↦ absurd (ground arith)
    | inl (creator, c) ↦
        let created = set_creator creator object in
        elim (Result-cases
          (determine_assigned_tenant server.tenancy (get_tenant created) (get_tenant created))) [
            | inr (e, a) ↦ absurd (ground arith)
            | inl (tenant, a) ↦ (creator, tenant, created, c, refl, a, ground arith)
          ]
  ]

  -- A row that is inserted for an object has the creator and the tenant of its metadata.
  inserted :
      (visible : Set String) (object made : Object D) (s t : Store D)
      → Dao.create server.database visible object s ≡ ok (made, t)
      → (row : Row D) × (t.rows ≡ row ∷ s.rows)
        × (row.creator ≡ field_or (λ m. m.creator) "" object.metadata)
        × (row.tenant ≡ field_or (λ m. m.tenant) "" object.metadata)
        × (row.version ≡ 0)
  unfolding Dao.create fire_event
  inserted visible object made s t h =
      let id = if object.id == "" then server.database.new_uuid else object.id in
      let creator = field_or (λ m. m.creator) "" object.metadata in
      (
        row_of id (get_finalizers object.metadata) server.database.now 0 creator 0 object,
        ground arith,
        refl,
        refl,
        refl,
      )

  -- An object that a subject with the default tenancy logic creates, outside a dry run, becomes the
  -- first row: with the creator that the attribution logic names, whatever the request says, with a
  -- tenant of the subject's own, and with version 0, if the subject's tenants are finite or
  -- universal.
  pub create_assigns :
      (subject : Subject) (request : Option (Object D)) (template : D) (s t : Store D)
      (made : Object D)
      → server.tenancy ≡ default_tenancy_logic subject
      → (finite subject.tenants ≡ true) ⊎ (universal subject.tenants ≡ true)
      → server.dry_run ≡ false
      → create server request template s ≡ ok (made, t)
      → (row : Row D) × (t.rows ≡ row ∷ s.rows)
        × (server.creator ≡ ok row.creator)
        × (contains subject.tenants row.tenant ≡ true)
        × (row.version ≡ 0)
  unfolding create
  create_assigns subject request template s t made logic kind wet h =
      elim (Result-cases (prepare_for_create server request template)) [
        | inr (e, q) ↦ absurd (ground arith)
        | inl (p, q) ↦ elim (Result-cases server.tenancy.visible_tenants) [
          | inr (e, v) ↦ absurd (ground arith)
          | inl (visible, v) ↦
              let (creator, tenant, created, c, b, a, m) = prepared request template p q in
              let (row, rows, cr, te, ve) = inserted visible p made s t (ground arith) in
              (
                row,
                rows,
                c ∙ ap ok (sym (cr ∙ rw (m, b) refl)),
                rw (te, m)
                    (contains-determine_assigned_tenant subject (get_tenant created) tenant kind
                      (rw (← logic) a)),
                ve,
              )
        ]
      ]

  made_payload :
      (visible : Set String) (object made : Object D) (s t : Store D)
      → Dao.create server.database visible object s ≡ ok (made, t)
      → made.payload ≡ object.payload
  unfolding Dao.create fire_event object_of
  made_payload visible object made s t h = ground arith

  -- The payload is created as the request has it.
  pub create_keeps_payload :
      (object : Object D) (template : D) (s t : Store D) (made : Object D)
      → create server (some object) template s ≡ ok (made, t)
      → made.payload ≡ object.payload
  unfolding create
  create_keeps_payload object template s t made h =
      elim (Result-cases (prepare_for_create server (some object) template)) [
        | inr (e, q) ↦ absurd (ground arith)
        | inl (p, q) ↦
            let (creator, tenant, created, c, b, a, m) = prepared (some object) template p q in
            let same : p.payload ≡ object.payload = rw (m, b) refl in
            elim (Bool-cases server.dry_run) [
              | inl dry ↦ let answer : p ≡ made = ground arith in rw (← answer) same
              | inr wet ↦ elim (Result-cases server.tenancy.visible_tenants) [
                | inr (e, v) ↦ absurd (ground arith)
                | inl (visible, v) ↦ made_payload visible p made s t (ground arith) ∙ same
              ]
            ]
      ]

  inserted_document :
      (visible : Set String) (object made : Object D) (s t : Store D)
      → Dao.create server.database visible object s ≡ ok (made, t)
      → (row : Row D) × (t.rows ≡ row ∷ s.rows)
        × (row.document ≡ object.payload)
        × (Dao.has_row row.id s.rows ≡ false)
  unfolding Dao.create fire_event
  inserted_document visible object made s t h =
      let id = if object.id == "" then server.database.new_uuid else object.id in
      let creator = field_or (λ m. m.creator) "" object.metadata in
      (
        row_of id (get_finalizers object.metadata) server.database.now 0 creator 0 object,
        ground arith,
        refl,
        ground arith,
      )

  -- Creation changes nothing, or it adds a row for the payload of the request.
  pub create_adds :
      (object : Object D) (template : D) (s t : Store D) (made : Object D)
      → create server (some object) template s ≡ ok (made, t)
      → (t ≡ s)
        ⊎ ((row : Row D) × (t.rows ≡ row ∷ s.rows)
            × (row.document ≡ object.payload)
            × (Dao.has_row row.id s.rows ≡ false))
  unfolding create
  create_adds object template s t made h =
      let (p, q, h') = >>=-eq-ok (prepare_for_create server (some object) template) _ h in
      let (creator, tenant, created, c, b, a, m) = prepared (some object) template p q in
      let same : p.payload ≡ object.payload = rw (m, b) refl in
      elim (Bool-cases server.dry_run) [
        | inl dry ↦ inl (ground arith)
        | inr wet ↦ elim (Result-cases server.tenancy.visible_tenants) [
          | inr (e, v) ↦ absurd (ground arith)
          | inl (visible, v) ↦
              let (row, rows, doc, fresh) = inserted_document visible p made s t (ground arith) in
              inr (row, rows, doc ∙ same, fresh)
        ]
      ]
