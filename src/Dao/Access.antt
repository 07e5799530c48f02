-- ===== src/Dao/Access.antt =====
-- internal/database/dao: what a request can see and change.
use osac_fulfillment_service.Prelude.{
  suc, true, false, ◌≡◌, ◌≢◌, ◌∙◌, sym, inl, inr, String, List, none, some, eqb, arith, eq_iff,
  Option-cases,
}
use osac_fulfillment_service.Prelude.Compare.{◌==◌, string_comparable}
use osac_fulfillment_service.Errors.{ok, err, not_found_error, Result-cases}
use osac_fulfillment_service.Collections.{Set, contains}
use osac_fulfillment_service.Dao.{
  Row, TenancyFilter, no_filter, Object, Store, Database, tenancy_filter, find_row, set_row,
  object_of, field_or,
}
use osac_fulfillment_service.Dao.Requests.{get, exists, update, delete}
use osac_fulfillment_service.Dao.Rows.{
  Unique, row_at, find_row-some, find_row-row_at, row_at-set_row, row_at-remove_row,
  admits-tenancy_filter,
}
use osac_fulfillment_service.Dao.Lifecycle.{Ends, delete-Ends, update-Ends}

module _ {D : Type 0} (db : Database D) where
  Ends-row_at :
      (row : Row D) (s t : Store D) (j : String)
      → Unique s.rows
      → (row.id == j) ≡ false
      → Ends db row s t
      → row_at j t.rows ≡ row_at j s.rows
  Ends-row_at row s t j u n (inl (p, r, a)) = rw (r, row_at-set_row j row s.rows u) (rw n)
  Ends-row_at row s t j u n (inr (p, r, a)) =
      rw (r, row_at-remove_row j row.id (set_row row s.rows))
        (rw n (rw (row_at-set_row j row s.rows u) (rw n)))

  pub found_visible :
      (visible : Set String) (clause : TenancyFilter) (id : String) (rows : List (Row D))
      (old : Row D)
      → Unique rows
      → tenancy_filter visible ≡ ok clause
      → find_row clause id rows ≡ some old
      → (row_at id rows ≡ some old) × (contains visible old.tenant ≡ true) × (old.id ≡ id)
  found_visible visible clause id rows old u c f =
      let here = find_row-some clause id rows old f in
      (
        ground (arith, find_row-row_at clause id rows u, find_row-some no_filter id rows old),
        sym (admits-tenancy_filter visible clause old.tenant c) ∙ here.0,
        here.1,
      )

  -- A deletion that succeeds is of a row whose tenant the caller sees, and leaves a row with
  -- another identifier as it was, when identifiers are unique and the clock is past the epoch.
  pub delete_isolated :
      (visible : Set String) (id : String) (s t : Store D) (j : String)
      → eqb db.now 0 ≡ false
      → Unique s.rows
      → delete db visible id s ≡ ok t
      → (id == j) ≡ false
      → (old : Row D) × (row_at id s.rows ≡ some old)
        × (contains visible old.tenant ≡ true)
        × (row_at j t.rows ≡ row_at j s.rows)
  delete_isolated visible id s t j n u h ne =
      let (clause, old, c, f, e) = delete-Ends db visible id s t n h in
      let (at, seen, same) = found_visible visible clause id s.rows old u c f in
      (old, at, seen, Ends-row_at _ s t j u (rw same ne) e)

  -- An update that succeeds is of a row whose tenant the caller sees, raises its version by one,
  -- keeps its creator and creation time, and leaves a row with another identifier as it was, when
  -- identifiers are unique.
  pub update_isolated :
      (visible : Set String) (object made : Object D) (s t : Store D) (j : String)
      → Unique s.rows
      → update db visible object s ≡ ok (made, t)
      → (object.id == j) ≡ false
      → (old : Row D) × (row : Row D) × (row_at object.id s.rows ≡ some old)
        × (contains visible old.tenant ≡ true)
        × (made ≡ object_of visible row)
        × (row.version ≡ suc old.version)
        × (row.creator ≡ old.creator)
        × (row.creation_timestamp ≡ old.creation_timestamp)
        × (row.document ≡ object.payload)
        × (row_at j t.rows ≡ row_at j s.rows)
  update_isolated visible object made s t j u h ne =
      let (clause, old, row, c, f, r, m, e) = update-Ends db visible object made s t h in
      let (at, seen, same) = found_visible visible clause object.id s.rows old u c f in
      (
        old,
        row,
        at,
        seen,
        m,
        ground arith,
        ground arith,
        ground arith,
        ground arith,
        Ends-row_at row s t j u (ground arith) e,
      )

  -- To a caller that does not see its tenant an object is as good as missing: with a valid where
  -- clause, unique identifiers, an identifier and a tenant in the request, reading, updating and
  -- deleting it fail with the error of an identifier that does not exist, and the test for
  -- existence answers no.
  pub hidden_as_missing :
      (visible : Set String) (clause : TenancyFilter) (object : Object D) (s : Store D)
      (row : Row D)
      → Unique s.rows
      → tenancy_filter visible ≡ ok clause
      → object.id ≢ ""
      → field_or (λ m. m.tenant) "" object.metadata ≢ ""
      → row_at object.id s.rows ≡ some row
      → contains visible row.tenant ≡ false
      → (get visible object.id s ≡ err (not_found_error object.id))
        × (exists visible object.id s ≡ ok false)
        × (update db visible object s ≡ err (not_found_error object.id))
        × (delete db visible object.id s ≡ err (not_found_error object.id))
  unfolding get exists update delete
  hidden_as_missing visible clause object s row u c named tenanted at hidden =
      let missing : find_row clause object.id s.rows ≡ none =
        find_row-row_at clause object.id s.rows u
        ∙ rw at (rw (admits-tenancy_filter visible clause row.tenant c, hidden)) in
      let named' : (object.id == "") ≡ false = ground (arith, eq_iff object.id "") in
      let tenanted' : (field_or (λ m. m.tenant) "" object.metadata == "") ≡ false =
        ground (arith, eq_iff (field_or (λ m. m.tenant) "" object.metadata) "") in
      (
        rw (c, named', missing),
        rw (c, named', missing),
        rw (c, named', tenanted', missing),
        rw (c, named', missing),
      )

  -- When identifiers are unique, reading returns exactly the row with that identifier, and only if
  -- the caller sees its tenant.
  pub get_sound :
      (visible : Set String) (id : String) (s : Store D) (object : Object D)
      → Unique s.rows
      → get visible id s ≡ ok object
      → (row : Row D) × (row_at id s.rows ≡ some row)
        × (contains visible row.tenant ≡ true)
        × (object ≡ object_of visible row)
  unfolding get
  get_sound visible id s object u h = elim (Result-cases (tenancy_filter visible)) [
    | inr (e, c) ↦ absurd (ground arith)
    | inl (clause, c) ↦ elim (Option-cases (find_row clause id s.rows)) [
      | inl f ↦ absurd (ground arith)
      | inr (row, f) ↦
          let (at, seen, same) = found_visible visible clause id s.rows row u c f in
          (row, at, seen, ground arith)
    ]
  ]
