-- ===== src/Dao/Resaving.antt =====
-- internal/database/dao: reading an object and writing it back with another document.
use osac_fulfillment_service.Prelude.{
  All, subst, suc, true, false, ◌≡◌, ◌∙◌, ap, inl, inr, refl, String, List, [], ◌∷◌, some, arith,
  Bool-cases,
}
use osac_fulfillment_service.Prelude.Compare.{◌==◌, string_comparable}
use osac_fulfillment_service.Prelude.Sort.{sort_strings, insert_sorted}
use osac_fulfillment_service.Errors.{ok}
use osac_fulfillment_service.Collections.{Set, contains}
use osac_fulfillment_service.Collections.Maps.{put_all, put_key, has_key}
use osac_fulfillment_service.Dao.{
  Metadata, Row, Object, Store, Database, no_filter, find_row, set_row, object_of, make_metadata,
  filter_tenant, get_finalizers,
}
use osac_fulfillment_service.Dao.Requests.{is_nil, get, update}
use osac_fulfillment_service.Dao.Rows.{Unique, row_at, AllPending, is_pending, find_row-some}
use osac_fulfillment_service.Dao.Access.{found_visible, get_sound}
use osac_fulfillment_service.Dao.Lifecycle.{update-Ends}
use osac_fulfillment_service.Dao.Outcomes.{Ends-row_at_self}

is_nil-insert_sorted : (x : String) (ys : List String) → is_nil (insert_sorted x ys) ≡ false
unfolding insert_sorted
is_nil-insert_sorted x [] = refl
is_nil-insert_sorted x (y ∷ ys) = ground arith

is_nil-sort_strings : (xs : List String) → is_nil (sort_strings xs) ≡ is_nil xs
unfolding sort_strings
is_nil-sort_strings [] = refl
is_nil-sort_strings (x ∷ xs) = is_nil-insert_sorted x (sort_strings xs)

is_nil-put_all : (xs m : List String) → is_nil m ≡ false → is_nil (put_all xs m) ≡ false
unfolding put_all put_key
is_nil-put_all [] m h = h
is_nil-put_all (x ∷ xs) m h = is_nil-put_all xs (put_key x m) (ground arith)

is_nil-once : (xs : List String) → is_nil (put_all xs []) ≡ is_nil xs
unfolding put_all put_key has_key
is_nil-once [] = refl
is_nil-once (x ∷ xs) = is_nil-put_all xs (x ∷ []) refl

-- Writing the finalizers once each and sorted leaves some where there were some.
pub is_nil-get_finalizers :
    (metadata : Metadata) → is_nil (get_finalizers (some metadata)) ≡ is_nil metadata.finalizers
unfolding get_finalizers
is_nil-get_finalizers metadata =
    is_nil-sort_strings (put_all metadata.finalizers []) ∙ is_nil-once metadata.finalizers

pub filter_tenant-contains :
    (visible : Set String) (tenant : String)
    → contains visible tenant ≡ true
    → filter_tenant visible tenant ≡ tenant
unfolding filter_tenant
filter_tenant-contains visible tenant seen = ground arith

module _ {D : Type 0} where
  AllPending-row_at :
      (id : String) (rows : List (Row D)) (row : Row D)
      → AllPending rows
      → row_at id rows ≡ some row
      → is_pending row ≡ true
  unfolding find_row
  AllPending-row_at id [] row all h = absurd (cc)
  AllPending-row_at id (r ∷ rows) row all h = ground (arith, AllPending-row_at id rows row)

  pub All-row_at {κ} :
      (Q : Row D → Type κ) (id : String) (rows : List (Row D)) (row : Row D)
      → All Q rows
      → row_at id rows ≡ some row
      → Q row
  unfolding find_row
  All-row_at Q id [] row all h = absurd (cc)
  All-row_at Q id (r ∷ rows) row all h = elim (Bool-cases (r.id == id)) [
    | inl here ↦ (let e : r ≡ row = (let f = rw here at h in cc) in subst Q e all.0)
    | inr there ↦ All-row_at Q id rows row all.1 (rw there at h)
  ]

  pub All-set_row {κ} :
      (Q : Row D → Type κ) (new : Row D) (rows : List (Row D))
      → Q new
      → All Q rows
      → All Q (set_row new rows)
  unfolding set_row
  All-set_row Q new [] q all = tt
  All-set_row Q new (r ∷ rows) q all = elim (Bool-cases (r.id == new.id)) [
    | inl here ↦ rw here (q, All-set_row Q new rows q all.1)
    | inr there ↦ rw there (all.0, All-set_row Q new rows q all.1)
  ]

  -- The row that is written back.
  abbrev pub rewritten : Set String → D → Row D → Row D
  rewritten visible document old = record old {
    finalizers = get_finalizers (some (make_metadata visible old));
    version = suc old.version;
    document = document;
  }

module _ {D : Type 0} (db : Database D) where
  -- What is left of the row is as it was, and so are the other rows.
  pub resaved :
      (visible : Set String) (id : String) (object made : Object D) (document : D) (s t : Store D)
      → Unique s.rows
      → AllPending s.rows
      → get visible id s ≡ ok object
      → update db visible (record object { payload = document }) s ≡ ok (made, t)
      → (old : Row D) × (row_at id s.rows ≡ some old)
        × (object.payload ≡ old.document)
        × (t.rows ≡ set_row (rewritten visible document old) s.rows)
        × (row_at id t.rows ≡ some (rewritten visible document old))
        × (is_pending (rewritten visible document old) ≡ true)
  unfolding object_of make_metadata
  resaved visible id object made document s t u alive g h =
      let (old, at, seen, same) = get_sound db visible id s object u g in
      let changed : Object D = record object { payload = document } in
      let (clause, found, row, c, f, r, m, e) = update-Ends db visible changed made s t h in
      let (at', seen', named') = found_visible db visible clause changed.id s.rows found u c f in
      let (_, named, here) = find_row-some no_filter id s.rows old at in
      let named_same : changed.id ≡ id = ap (λ (x : Object D). x.id) same ∙ named in
      let found_old : found ≡ old = let at'' = rw named_same at at' in ground arith in
      let written : row ≡ rewritten visible document old =
        rw (r, same, found_old)
          (ap (λ tenant. record (rewritten visible document old) { tenant = tenant })
            (filter_tenant-contains visible old.tenant seen)) in
      let still : is_pending (rewritten visible document old) ≡ true =
        rw (is_nil-get_finalizers (make_metadata visible old))
          (AllPending-row_at id s.rows old alive at) in
      let waits : is_pending row ≡ true = rw written still in
      let row_id : row.id ≡ id = ap (λ (x : Row D). x.id) written ∙ named in
      let self = Ends-row_at_self db row s t u (rw row_id here) e in
      let kept : t.rows ≡ set_row row s.rows = ground arith in
      let stands : row_at id t.rows ≡ some row = rw (← row_id) (ground (arith, self)) in
      (
        old,
        at,
        ap (λ (x : Object D). x.payload) same,
        rw (← written) kept,
        rw (← written) stands,
        still,
      )
