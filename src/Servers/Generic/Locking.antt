-- ===== src/Servers/Generic/Locking.antt =====
-- internal/servers/generic_server.go: what an update does to the table, and its optimistic locking.
use osac_fulfillment_service.Prelude.{
  ℕ, suc, Bool, true, false, ◌≡◌, ◌∙◌, ◌⊎◌, inl, inr, ap, sym, String, List, [], ◌∷◌, Option, none,
  some, arith, Bool-cases, Option-cases,
}
use osac_fulfillment_service.Prelude.Compare.{Comparable, string_comparable}
use osac_fulfillment_service.Errors.{ok, Result-cases}
use osac_fulfillment_service.Collections.{Set}
use osac_fulfillment_service.Dao.{Metadata, Object, Row, Store, object_of, make_metadata, no_filter}
use osac_fulfillment_service.Dao.Requests.{row_of}
use osac_fulfillment_service.Dao.Lifecycle.{update-Ends}
use osac_fulfillment_service.Dao.Requests as Dao
use osac_fulfillment_service.Dao.Rows.{Unique, row_at, find_row-some}
use osac_fulfillment_service.Dao.Access.{get_sound, found_visible}
use osac_fulfillment_service.Servers.Tenants.{determine_assigned_tenant}
use osac_fulfillment_service.Servers.Generic.{
  Server, UpdateRequest, update, save, get_tenant, set_tenant, equivalent_objects, merge,
  version_conflict, apply_paths,
}

module _ {D : Type 0} (server : Server D) where
  -- What a successful update did, one step behind the other.
  module _ ⦃c : Comparable D⦄ where
    pub update_steps :
        (request : UpdateRequest D) (s t : Store D) (made : Object D)
        → update server request s ≡ ok (made, t)
        → (object : Object D) × (visible : Set String) × (current : Object D) × (merged : Object D)
          × (tenant : String) × (request.object ≡ some object)
          × (server.tenancy.visible_tenants ≡ ok visible)
          × (Dao.get visible object.id s ≡ ok current)
          × (version_conflict server request.lock object.metadata current.metadata ≡ false)
          × (merge server request.mask object current ≡ ok merged)
          × (determine_assigned_tenant server.tenancy (get_tenant merged) (get_tenant current)
              ≡ ok tenant)
          × (save server (set_tenant tenant merged) current s ≡ ok (made, t))
    unfolding update
    update_steps request s t made h = elim (Option-cases request.object) [
      | inl o ↦ absurd (ground arith)
      | inr (object, o) ↦ elim (Result-cases server.tenancy.visible_tenants) [
        | inr (e, v) ↦ absurd (ground arith)
        | inl (visible, v) ↦ elim (Result-cases (Dao.get visible object.id s)) [
          | inr (e, g) ↦ absurd (ground arith)
          | inl (current, g) ↦ elim (Result-cases (merge server request.mask object current)) [
            | inr (e, m) ↦ absurd (ground arith)
            | inl (merged, m) ↦
                elim (Result-cases (
                  determine_assigned_tenant server.tenancy (get_tenant merged)
                    (get_tenant current))) [
                      | inr (e, a) ↦ absurd (ground arith)
                      | inl (tenant, a) ↦ (
                        object,
                        visible,
                        current,
                        merged,
                        tenant,
                        o,
                        v,
                        g,
                        ground arith,
                        m,
                        a,
                        ground arith,
                      )
                    ]
          ]
        ]
      ]
    ]

    apply_paths-id :
        (paths : List String) (request current next : Object D)
        → ((path : String) (x y z : Object D)
            → x.id ≡ y.id
            → server.apply_path path x y ≡ ok z
            → z.id ≡ y.id)
        → request.id ≡ current.id
        → apply_paths server paths request current ≡ ok next
        → next.id ≡ current.id
    apply_paths-id [] request current next keeps same h = ground arith
    apply_paths-id (path ∷ paths) request current next keeps same h =
        elim (Result-cases (server.apply_path path request current)) [
          | inr (e, a) ↦ absurd (ground arith)
          | inl (between, a) ↦
              let step = keeps path request current between same a in
              apply_paths-id paths request between next keeps (same ∙ sym step) (ground arith)
              ∙ step
        ]

    merge-id :
        (mask : Option (List String)) (request current next : Object D)
        → ((path : String) (x y z : Object D)
            → x.id ≡ y.id
            → server.apply_path path x y ≡ ok z
            → z.id ≡ y.id)
        → request.id ≡ current.id
        → merge server mask request current ≡ ok next
        → next.id ≡ current.id
    merge-id none request current next keeps same h = ground arith
    merge-id (some paths) request current next keeps same h =
        apply_paths-id paths request current next keeps same h

    pub saved :
        (object current made : Object D) (s t : Store D)
        → save server object current s ≡ ok (made, t)
        → ((t ≡ s) × (made ≡ object))
          ⊎ ((visible : Set String) × (Dao.update server.database visible object s ≡ ok (made, t)))
    unfolding save
    saved object current made s t h = elim (Bool-cases (equivalent_objects object current)) [
      | inl e ↦ inl (ground arith, ground arith)
      | inr e ↦ elim (Result-cases server.tenancy.visible_tenants) [
        | inr (f, v) ↦ absurd (ground arith)
        | inl (visible, v) ↦ elim (Result-cases (Dao.update server.database visible object s)) [
          | inr (f, d) ↦ absurd (ground arith)
          | inl (answer, d) ↦ inr (visible, d ∙ ground arith)
        ]
      ]
    ]

    version_read :
        (lock : Bool) (object object' current : Object D) (metadata : Metadata)
        (visible : Set String) (old : Row D)
        → object' ≡ object
        → object.metadata ≡ some metadata
        → lock ≡ true
        → current ≡ object_of visible old
        → version_conflict server lock object'.metadata current.metadata ≡ false
        → old.version ≡ metadata.version
    unfolding object_of make_metadata
    version_read lock object object' current metadata visible old same m l cur k =
        let read = rw (same, m, l, cur) at k in ground arith

    same_version :
        (old old' : Row D) (v w : ℕ) (i j : String) (rows : List (Row D))
        → i ≡ j
        → row_at j rows ≡ some old
        → row_at i rows ≡ some old'
        → v ≡ suc old'.version
        → old.version ≡ w
        → v ≡ suc w
    same_version old old' v w i j rows e a b r q = let found = rw e at b in ground arith

    -- Optimistic locking: an update with a lock that succeeds read the version that the request
    -- names, and leaves the table as it was or answers with a row whose version is one higher, if
    -- identifiers are unique and no path of the mask changes an identifier that is the same in
    -- both objects.
    pub update_locked :
        (request : UpdateRequest D) (object : Object D) (metadata : Metadata) (s t : Store D)
        (made : Object D)
        → Unique s.rows
        → ((path : String) (x y z : Object D)
            → x.id ≡ y.id
            → server.apply_path path x y ≡ ok z
            → z.id ≡ y.id)
        → request.object ≡ some object
        → object.metadata ≡ some metadata
        → request.lock ≡ true
        → update server request s ≡ ok (made, t)
        → (old : Row D) × (row_at object.id s.rows ≡ some old)
          × (old.version ≡ metadata.version)
          × ((t ≡ s)
              ⊎ ((visible : Set String) × (new : Row D) × (made ≡ object_of visible new)
                  × (new.version ≡ suc metadata.version)))
    unfolding object_of make_metadata
    update_locked request object metadata s t made u keeps o m l h =
        let (object', visible, current, merged, tenant, o', v, g, k, mg, a, w) =
          update_steps request s t made h in
        let same : object' ≡ object = ground arith in
        let (old, at, seen, cur) = get_sound server.database visible object'.id s current u g in
        let found = find_row-some no_filter object'.id s.rows old at in
        let version : old.version ≡ metadata.version =
          version_read request.lock object object' current metadata visible old same m l cur k in
        let stays : object'.id ≡ current.id = sym (ap (λ x. x.id) cur ∙ found.1) in
        let kept : merged.id ≡ object'.id =
          merge-id request.mask object' current merged keeps stays mg ∙ sym stays in
        (
          old,
          rw (← same) at,
          version,
          elim (saved (set_tenant tenant merged) current made s t w) [
            | inl e ↦ inl e.0
            | inr (seer, d) ↦
                let (clause, old', row, c, f, r, md, e) =
                  update-Ends server.database seer (set_tenant tenant merged) made s t d in
                let (at', _, _) =
                  found_visible server.database seer clause merged.id s.rows old' u c f in
                inr (
                  seer,
                  row,
                  md,
                  same_version old old' row.version metadata.version merged.id object'.id s.rows
                      kept at at' (ap (λ x. x.version) r) version,
                )
          ],
        )
