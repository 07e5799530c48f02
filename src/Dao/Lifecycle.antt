-- ===== src/Dao/Lifecycle.antt =====
-- internal/database/dao: what every request keeps, and how objects leave the table.
use osac_fulfillment_service.Prelude.{
  suc, true, false, ◌≡◌, ◌⊎◌, inl, inr, refl, String, List, [], ◌∷◌, some, eqb, arith, Option-cases,
}
use osac_fulfillment_service.Prelude.Compare.{string_comparable}
use osac_fulfillment_service.Errors.{ok, Result-cases}
use osac_fulfillment_service.Collections.{Set}
use osac_fulfillment_service.Dao.{
  Row, TenancyFilter, Object, Store, Database, tenancy_filter, find_row, set_row, remove_row,
  object_of, get_finalizers, fire_event, archive,
}
use osac_fulfillment_service.Dao.Requests.{row_of, create, update, delete}
use osac_fulfillment_service.Dao.Rows.{
  Unique, AllPending, is_pending, set_row-Unique, set_row-AllPending, remove_row-Unique,
  remove-set-AllPending,
}

abbrev pub AllArchivable : {D : Type 0} → List (Row D) → Type 0
AllArchivable [] = Unit
AllArchivable (row ∷ rows) = (is_pending row ≡ false) × AllArchivable rows

-- Identifiers are unique, a row that is marked as deleted still has finalizers, and a row in the
-- archive was marked as deleted and had none.
pub record IsValid {D : Type 0} (store : Store D) : Type 0 where
  pub unique : Unique store.rows
  pub pending : AllPending store.rows
  pub archivable : AllArchivable store.archived

module _ {D : Type 0} (db : Database D) where
  create-IsValid :
      (visible : Set String) (object made : Object D) (s t : Store D)
      → IsValid s
      → create db visible object s ≡ ok (made, t)
      → IsValid t
  unfolding create fire_event
  create-IsValid visible object made s t v h = record {
    unique = ground arith;
    pending = ground arith;
    archivable = ground arith;
  }

  -- How a successful deletion ends, for the row that it writes.
  abbrev pub Ends : Row D → Store D → Store D → Type 0
  Ends row s t =
      ((is_pending row ≡ true) × (t.rows ≡ set_row row s.rows) × (t.archived ≡ s.archived))
      ⊎ ((is_pending row ≡ false)
          × (t.rows ≡ remove_row row.id (set_row row s.rows))
          × (t.archived ≡ row ∷ s.archived))

  pub delete-Ends :
      (visible : Set String) (id : String) (s t : Store D)
      → eqb db.now 0 ≡ false
      → delete db visible id s ≡ ok t
      → (clause : TenancyFilter) × (old : Row D) × (tenancy_filter visible ≡ ok clause)
        × (find_row clause id s.rows ≡ some old)
        × Ends (record old { deletion_timestamp = db.now }) s t
  unfolding delete fire_event archive
  delete-Ends visible id s t n h = elim (Result-cases (tenancy_filter visible)) [
    | inr (e, c) ↦ absurd (ground arith)
    | inl (clause, c) ↦ elim (Option-cases (find_row clause id s.rows)) [
      | inl f ↦ absurd (ground arith)
      | inr (old, f) ↦ (clause, old, c, f, ground arith)
    ]
  ]

  pub update-Ends :
      (visible : Set String) (object made : Object D) (s t : Store D)
      → update db visible object s ≡ ok (made, t)
      → (clause : TenancyFilter) × (old : Row D) × (row : Row D) × (tenancy_filter visible
          ≡ ok clause)
        × (find_row clause object.id s.rows ≡ some old)
        × (row
            ≡ row_of old.id
                (get_finalizers object.metadata)
                old.creation_timestamp
                old.deletion_timestamp
                old.creator
                (suc old.version)
                object)
        × (made ≡ object_of visible row)
        × Ends row s t
  unfolding update fire_event archive
  update-Ends visible object made s t h = elim (Result-cases (tenancy_filter visible)) [
    | inr (e, c) ↦ absurd (ground arith)
    | inl (clause, c) ↦ elim (Option-cases (find_row clause object.id s.rows)) [
      | inl f ↦ absurd (ground arith)
      | inr (old, f) ↦ (clause, old, _, c, f, refl, ground arith, ground arith)
    ]
  ]

  Ends-IsValid : (row : Row D) (s t : Store D) → IsValid s → Ends row s t → IsValid t
  Ends-IsValid row s t v (inl (p, r, a)) = record {
    unique = rw r (set_row-Unique row s.rows v.unique);
    pending = rw r (set_row-AllPending row s.rows p v.pending);
    archivable = rw a v.archivable;
  }
  Ends-IsValid row s t v (inr (p, r, a)) = record {
    unique =
        rw r (remove_row-Unique row.id (set_row row s.rows) (set_row-Unique row s.rows v.unique));
    pending = rw r (remove-set-AllPending row s.rows v.unique v.pending);
    archivable = rw a (p, v.archivable);
  }

  delete-IsValid :
      (visible : Set String) (id : String) (s t : Store D)
      → eqb db.now 0 ≡ false
      → IsValid s
      → delete db visible id s ≡ ok t
      → IsValid t
  delete-IsValid visible id s t n v h =
      let (clause, old, c, f, e) = delete-Ends visible id s t n h in Ends-IsValid _ s t v e

  update-IsValid :
      (visible : Set String) (object made : Object D) (s t : Store D)
      → IsValid s
      → update db visible object s ≡ ok (made, t)
      → IsValid t
  update-IsValid visible object made s t v h =
      let (clause, old, row, c, f, r, m, e) = update-Ends visible object made s t h in
      Ends-IsValid row s t v e

-- A request that succeeds, with the database and the visible tenants of its moment. The clock is
-- past the epoch.
pub data Step {D : Type 0} (s t : Store D) : Type 0 where
  creates :
      (db : Database D) (visible : Set String) (object made : Object D)
      → create db visible object s ≡ ok (made, t)
      → Step s t
  updates :
      (db : Database D) (visible : Set String) (object made : Object D)
      → update db visible object s ≡ ok (made, t)
      → Step s t
  deletes :
      (db : Database D) (visible : Set String) (id : String)
      → eqb db.now 0 ≡ false
      → delete db visible id s ≡ ok t
      → Step s t

pub data Reach {D : Type 0} (s : Store D) : Store D → Type 0 where
  here : Reach s s
  next : {t u : Store D} → Reach s t → Step t u → Reach s u

Step-IsValid : {D : Type 0} (s t : Store D) → IsValid s → Step s t → IsValid t
Step-IsValid s t v (creates db visible object made h) =
    create-IsValid db visible object made s t v h
Step-IsValid s t v (updates db visible object made h) =
    update-IsValid db visible object made s t v h
Step-IsValid s t v (deletes db visible id n h) = delete-IsValid db visible id s t n v h

-- After any sequence of create, update and delete requests, by anybody and at any times past the
-- epoch, identifiers are unique, a row marked as deleted still has finalizers, and every archived
-- row was marked as deleted and had none, if that was so before the first of them.
pub Reach-IsValid : {D : Type 0} (s t : Store D) → IsValid s → Reach s t → IsValid t
Reach-IsValid s _ v here = v
Reach-IsValid s t v (next {t = u} r st) = Step-IsValid u t (Reach-IsValid s u v r) st
