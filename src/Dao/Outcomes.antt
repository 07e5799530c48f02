-- ===== src/Dao/Outcomes.antt =====
-- internal/database/dao: what the table holds after a request that succeeded.
use osac_fulfillment_service.Prelude.{
  true, false, ◌≡◌, inl, inr, refl, String, ◌∷◌, none, some, eqb, arith, eq_refl, if◌then◌else◌,
}
use osac_fulfillment_service.Prelude.Compare.{string_comparable}
use osac_fulfillment_service.Errors.{ok}
use osac_fulfillment_service.Collections.{Set}
use osac_fulfillment_service.Dao.{Row, Object, Store, Database, set_row, get_finalizers}
use osac_fulfillment_service.Dao.Requests.{is_nil, has_row, update, delete}
use osac_fulfillment_service.Dao.Rows.{
  Unique, row_at, find_row-some, row_at-set_row, row_at-remove_row, is_pending,
}
use osac_fulfillment_service.Dao.Access.{found_visible}
use osac_fulfillment_service.Dao.Lifecycle.{Ends, delete-Ends, update-Ends}

module _ {D : Type 0} (db : Database D) where
  pub Ends-row_at_self :
      (row : Row D) (s t : Store D)
      → Unique s.rows
      → has_row row.id s.rows ≡ true
      → Ends db row s t
      → row_at row.id t.rows ≡ (if is_pending row then some row else none)
  Ends-row_at_self row s t u here (inl (p, r, a)) =
      rw (r, row_at-set_row row.id row s.rows u) (rw (eq_refl row.id, here, p))
  Ends-row_at_self row s t u here (inr (p, r, a)) =
      rw (r, row_at-remove_row row.id row.id (set_row row s.rows)) (rw (eq_refl row.id, p))

  -- When identifiers are unique and the clock is past the epoch, a deletion that succeeds of a row
  -- without finalizers removes it and puts it into the archive; a row with finalizers stays, marked
  -- with the time of the deletion, and the archive does not change.
  pub delete_outcome :
      (visible : Set String) (id : String) (s t : Store D)
      → eqb db.now 0 ≡ false
      → Unique s.rows
      → delete db visible id s ≡ ok t
      → (old : Row D) × (marked : Row D) × (row_at id s.rows ≡ some old)
        × (marked ≡ record old { deletion_timestamp = db.now })
        × (row_at id t.rows ≡ (if is_nil marked.finalizers then none else some marked))
        × (t.archived ≡ (if is_nil marked.finalizers then marked ∷ s.archived else s.archived))
  delete_outcome visible id s t n u h =
      let (clause, old, c, f, e) = delete-Ends db visible id s t n h in
      let (a, same, here) = find_row-some clause id s.rows old f in
      let (at, seen, _) = found_visible db visible clause id s.rows old u c f in
      let self =
        Ends-row_at_self (record old { deletion_timestamp = db.now }) s t u (rw same here) e in
      (
        old,
        record old { deletion_timestamp = db.now },
        at,
        refl,
        ground (arith, self),
        ground arith,
      )

  -- When identifiers are unique, an update that succeeds leaves the row that it wrote for the
  -- object, with the stored time of deletion, unless that row is marked as deleted and the object
  -- has no finalizers left: then the row moves to the archive.
  pub update_outcome :
      (visible : Set String) (object made : Object D) (s t : Store D)
      → Unique s.rows
      → update db visible object s ≡ ok (made, t)
      → (old : Row D) × (row : Row D) × (row_at object.id s.rows ≡ some old)
        × (row.deletion_timestamp ≡ old.deletion_timestamp)
        × (row.finalizers ≡ get_finalizers object.metadata)
        × (row.document ≡ object.payload)
        × (row_at object.id t.rows ≡ (if is_pending row then some row else none))
        × (t.archived ≡ (if is_pending row then s.archived else row ∷ s.archived))
  update_outcome visible object made s t u h =
      let (clause, old, row, c, f, r, m, e) = update-Ends db visible object made s t h in
      let (a, same, here) = find_row-some clause object.id s.rows old f in
      let (at, seen, _) = found_visible db visible clause object.id s.rows old u c f in
      let self = Ends-row_at_self row s t u (ground arith) e in
      (old, row, at, ground arith, ground arith, ground arith, ground (arith, self), ground arith)
