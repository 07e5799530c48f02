-- ===== src/Dao/Requests.antt =====
-- internal/database/dao: generic_dao_create.go, generic_dao_get.go, generic_dao_exists.go,
-- generic_dao_update.go and generic_dao_delete.go. A request runs inside a transaction, which is
-- rolled back when it fails: an error therefore carries no new store.
use osac_fulfillment_service.Prelude.{
  ℕ, suc, Bool, true, false, not, ◌||◌, ◌&&◌, String, List, [], ◌∷◌, Option, none, some, eqb,
  if◌then◌else◌,
}
use osac_fulfillment_service.Prelude.Compare.{◌==◌, string_comparable}
use osac_fulfillment_service.Errors.{
  Error, Result, ok, err, plain, not_found_error, sql_error, unique_violation, ◌>>=◌, ◌>>◌, refuse,
}
use osac_fulfillment_service.Collections.{Set}
use osac_fulfillment_service.Dao.{
  Object, Row, Store, Database, created, updated, deleted, tenancy_filter, object_of,
  get_finalizers, field_or, find_row, set_row, fire_event, archive,
}
use osac_fulfillment_service.Dao.Translation.{
  translate_create_error, translate_update_error, translate_delete_error,
}

-- The error of a check, translated.
abbrev pub checked : (Error → Error) → Option Error → Result (Unit {0})
checked translate none = ok tt
checked translate (some e) = err (translate e)

abbrev pub or_not_found : {D : Type 0} → String → Option (Row D) → Result (Row D)
or_not_found id none = err (not_found_error id)
or_not_found id (some row) = ok row

abbrev pub is_nil {ℓ} : {A : Type ℓ} → List A → Bool
is_nil [] = true
is_nil (x ∷ xs) = false

abbrev pub translated {ℓ} : {A : Type ℓ} → (Error → Error) → Result A → Result A
translated translate (ok a) = ok a
translated translate (err e) = err (translate e)

module _ {D : Type 0} where
  unfoldable pub get : Set String → String → Store D → Result (Object D)
  get visible id store = do
    clause ← tenancy_filter visible
    refuse (id == "") plain
    row ← or_not_found id (find_row clause id store.rows)
    ok (object_of visible row)

  unfoldable pub exists : Set String → String → Store D → Result Bool
  exists visible id store = do
    clause ← tenancy_filter visible
    refuse (id == "") plain
    elim (find_row clause id store.rows) [ none ↦ ok false | some row ↦ ok true ]

  -- The primary key: a row with this identifier is there already, in whatever tenant.
  unfoldable pub has_row : String → List (Row D) → Bool
  has_row id [] = false
  has_row id (row ∷ rows) = row.id == id || has_row id rows

  -- The row that `insert` and `update` write for an object.
  abbrev pub row_of : String → List String → ℕ → ℕ → String → ℕ → Object D → Row D
  row_of id finalizers creation deletion creator version object = record {
    id = id;
    name = field_or (λ m. m.name) "" object.metadata;
    creation_timestamp = creation;
    deletion_timestamp = deletion;
    finalizers = finalizers;
    creator = creator;
    tenant = field_or (λ m. m.tenant) "" object.metadata;
    project = field_or (λ m. m.project) "" object.metadata;
    labels = field_or (λ m. m.labels) [] object.metadata;
    annotations = field_or (λ m. m.annotations) [] object.metadata;
    version = version;
    document = object.payload;
  }

module _ {D : Type 0} (db : Database D) where
  unfoldable pub create : Set String → Object D → Store D → Result (Object D × Store D)
  create visible object store = do
    let id = if object.id == "" then db.new_uuid else object.id
    let tenant = field_or (λ m. m.tenant) "" object.metadata
    let row =
        row_of id (get_finalizers object.metadata) db.now 0
          (field_or (λ m. m.creator) "" object.metadata) 0 object
    let translate = translate_create_error id tenant row.project row.name
    refuse (tenant == "") plain
    refuse (has_row id store.rows) (
        translate (
          sql_error
            (record { state = unique_violation; constraint = ""; message = ""; columns = none })))
    checked translate (db.insert_check store.rows row)
    store' ←
        fire_event db created (object_of visible row) (record store { rows = row ∷ store.rows })
    ok (object_of visible row, store')

  -- A deleted row without finalizers is archived.
  unfoldable pub archive_if_done : Set String → Row D → Store D → Result (Store D)
  archive_if_done visible row store =
      if not (eqb row.deletion_timestamp 0) && is_nil row.finalizers
      then (do
        archived ← archive db row store
        fire_event db deleted (object_of visible row) archived)
      else ok store

  unfoldable pub update : Set String → Object D → Store D → Result (Object D × Store D)
  unfolding archive_if_done
  update visible object store = do
    clause ← tenancy_filter visible
    refuse (object.id == "") plain
    let tenant = field_or (λ m. m.tenant) "" object.metadata
    refuse (tenant == "") plain
    old ← or_not_found object.id (find_row clause object.id store.rows)
    let row =
        row_of old.id (get_finalizers object.metadata) old.creation_timestamp old.deletion_timestamp
          old.creator (suc old.version) object
    checked (translate_update_error object.id row.name tenant) (db.update_check store.rows old row)
    store' ←
        fire_event db updated (object_of visible row)
          (record store { rows = set_row row store.rows })
    store'' ← archive_if_done visible row store'
    ok (object_of visible row, store'')

  unfoldable pub delete : Set String → String → Store D → Result (Store D)
  delete visible id store = do
    clause ← tenancy_filter visible
    refuse (id == "") plain
    old ← or_not_found id (find_row clause id store.rows)
    let row = record old { deletion_timestamp = db.now }
    -- The tenant that `Scan` has not set yet is empty.
    checked (translate_delete_error "") (db.update_check store.rows old row)
    let marked = record store { rows = set_row row store.rows }
    if not (is_nil row.finalizers)
        then fire_event db updated (object_of visible row) marked
        else (do
          archived ← translated (translate_delete_error row.tenant) (archive db row marked)
          fire_event db deleted (object_of visible row) archived)
