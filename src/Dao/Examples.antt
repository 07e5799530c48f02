-- ===== src/Dao/Examples.antt =====
-- internal/database/dao: the theorems at a concrete table with two rows.
use osac_fulfillment_service.Prelude.{
  ℕ, suc, true, false, ◌≡◌, ◌≢◌, refl, String, [], ◌∷◌, none, some, arith, if◌then◌else◌,
}
use osac_fulfillment_service.Prelude.Compare.{texts_differ, string_comparable}
use osac_fulfillment_service.Prelude.Sort.{sort_strings, insert_sorted}
use osac_fulfillment_service.Errors.{ok, err, not_found_error}
use osac_fulfillment_service.Collections.{Set, contains, empty, universal, inclusions}
use osac_fulfillment_service.Collections.Maps.{has_key, put_all, put_key}
use osac_fulfillment_service.Dao.{
  Metadata, Object, Row, created, updated, deleted, Store, Database, TenancyFilter, tenant_any,
  tenancy_filter, admits, object_of, get_finalizers, find_row, set_row, remove_row, fire_event,
  archive,
}
use osac_fulfillment_service.Dao.Requests.{
  get, exists, has_row, row_of, is_nil, create, update, delete, archive_if_done,
}
use osac_fulfillment_service.Dao.Rows.{Unique, row_at, is_pending}
use osac_fulfillment_service.Dao.Lifecycle.{IsValid, deletes, here, next, Reach-IsValid}
use osac_fulfillment_service.Dao.Access.{delete_isolated, update_isolated, hidden_as_missing}
use osac_fulfillment_service.Dao.Outcomes.{delete_outcome, update_outcome}

-- A database that refuses nothing.
abbrev pub db : Database ℕ
db = record {
  now = 7;
  new_uuid = "u1";
  insert_check = λ rows row. none;
  update_check = λ rows old row. none;
  archive_check = λ row. none;
  remove_check = λ rows row. none;
  notify = λ event. none;
}

abbrev pub acme_row : Row ℕ
acme_row = record {
  id = "c1";
  name = "one";
  creation_timestamp = 3;
  deletion_timestamp = 0;
  finalizers = [];
  creator = "alice";
  tenant = "acme";
  project = "";
  labels = [];
  annotations = [];
  version = 4;
  document = 10;
}

abbrev pub globex_row : Row ℕ
globex_row = record acme_row { id = "c2"; tenant = "globex"; finalizers = "f" ∷ [] }

abbrev pub store : Store ℕ
store = record { rows = acme_row ∷ globex_row ∷ []; archived = []; events = [] }

abbrev pub acme : Set String
acme = record { infinite = false; items = "acme" ∷ [] }

abbrev acme_clause : TenancyFilter
acme_clause = tenant_any ("acme" ∷ [])

abbrev pub metadata : Metadata
metadata = record {
  name = "two";
  creation_timestamp = none;
  deletion_timestamp = none;
  finalizers = "g" ∷ [];
  creator = "mallory";
  tenant = "acme";
  project = "";
  labels = [];
  annotations = [];
  version = 0;
}

abbrev pub renamed : Object ℕ
renamed = record { id = "c1"; metadata = some metadata; payload = 11 }

clause_of_acme : tenancy_filter acme ≡ ok acme_clause
unfolding tenancy_filter universal empty inclusions sort_strings insert_sorted
clause_of_acme = refl

pub store-Unique : Unique store.rows
unfolding has_row
store-Unique = ground arith

store-IsValid : IsValid store
store-IsValid = record { unique = store-Unique; pending = (refl, (refl, tt)); archivable = tt }

abbrev gone : Row ℕ
gone = record acme_row { deletion_timestamp = 7 }

abbrev after_delete : Store ℕ
after_delete = record {
  rows = globex_row ∷ [];
  archived = gone ∷ [];
  events = record { type = deleted; object = object_of acme gone } ∷ [];
}

deletion : delete db acme "c1" store ≡ ok after_delete
unfolding delete tenancy_filter universal empty inclusions sort_strings insert_sorted find_row
    admits has_key set_row remove_row archive fire_event
deletion = refl

Reach-IsValid_example : IsValid after_delete
Reach-IsValid_example =
    Reach-IsValid store after_delete store-IsValid (next here (deletes db acme "c1" refl deletion))

delete_isolated_example :
    (old : Row ℕ) × (row_at "c1" store.rows ≡ some old)
    × (contains acme old.tenant ≡ true)
    × (row_at "c2" after_delete.rows ≡ row_at "c2" store.rows)
delete_isolated_example =
    delete_isolated db acme "c1" store after_delete "c2" refl store-Unique deletion refl

delete_outcome_example :
    (old : Row ℕ) × (marked : Row ℕ) × (row_at "c1" store.rows ≡ some old)
    × (marked ≡ record old { deletion_timestamp = db.now })
    × (row_at "c1" after_delete.rows ≡ (if is_nil marked.finalizers then none else some marked))
    × (after_delete.archived
        ≡ (if is_nil marked.finalizers then marked ∷ store.archived else store.archived))
delete_outcome_example = delete_outcome db acme "c1" store after_delete refl store-Unique deletion

abbrev written : Row ℕ
written = row_of "c1" ("g" ∷ []) 3 0 "alice" 5 renamed

abbrev after_update : Store ℕ
after_update = record {
  rows = written ∷ globex_row ∷ [];
  archived = [];
  events = record { type = updated; object = object_of acme written } ∷ [];
}

change : update db acme renamed store ≡ ok (object_of acme written, after_update)
unfolding update archive_if_done tenancy_filter universal empty inclusions sort_strings
    insert_sorted find_row admits has_key put_all put_key get_finalizers set_row remove_row archive
    fire_event
change = refl

update_isolated_example :
    (old : Row ℕ) × (row : Row ℕ) × (row_at "c1" store.rows ≡ some old)
    × (contains acme old.tenant ≡ true)
    × (object_of acme written ≡ object_of acme row)
    × (row.version ≡ suc old.version)
    × (row.creator ≡ old.creator)
    × (row.creation_timestamp ≡ old.creation_timestamp)
    × (row.document ≡ renamed.payload)
    × (row_at "c2" after_update.rows ≡ row_at "c2" store.rows)
update_isolated_example =
    update_isolated db acme renamed (object_of acme written) store after_update "c2" store-Unique
      change refl

update_outcome_example :
    (old : Row ℕ) × (row : Row ℕ) × (row_at "c1" store.rows ≡ some old)
    × (row.deletion_timestamp ≡ old.deletion_timestamp)
    × (row.finalizers ≡ get_finalizers renamed.metadata)
    × (row.document ≡ renamed.payload)
    × (row_at "c1" after_update.rows ≡ (if is_pending row then some row else none))
    × (after_update.archived ≡ (if is_pending row then store.archived else row ∷ store.archived))
update_outcome_example =
    update_outcome db acme renamed (object_of acme written) store after_update store-Unique change

abbrev foreign : Object ℕ
foreign = record renamed { id = "c2" }

hidden : contains acme "globex" ≡ false
unfolding contains has_key
hidden = refl

seen : contains acme "acme" ≡ true
unfolding contains has_key
seen = refl

globex_at : row_at "c2" store.rows ≡ some globex_row
unfolding find_row admits
globex_at = refl

named : foreign.id ≢ ""
named = texts_differ foreign.id "" refl

tenanted : metadata.tenant ≢ ""
tenanted = texts_differ metadata.tenant "" refl

hidden_as_missing_example :
    (get acme "c2" store ≡ err (not_found_error "c2"))
    × (exists acme "c2" store ≡ ok false)
    × (update db acme foreign store ≡ err (not_found_error "c2"))
    × (delete db acme "c2" store ≡ err (not_found_error "c2"))
hidden_as_missing_example =
    hidden_as_missing db acme acme_clause foreign store globex_row store-Unique clause_of_acme named
      tenanted globex_at hidden

reading : get acme "c1" store ≡ ok (object_of acme acme_row)
unfolding get tenancy_filter universal empty inclusions sort_strings insert_sorted find_row admits
    has_key
reading = refl

abbrev pub fresh_object : Object ℕ
fresh_object = record renamed { id = "" }

abbrev fresh_row : Row ℕ
fresh_row = row_of "u1" ("g" ∷ []) 7 0 "mallory" 0 fresh_object

abbrev after_create : Store ℕ
after_create = record {
  rows = fresh_row ∷ acme_row ∷ globex_row ∷ [];
  archived = [];
  events = record { type = created; object = object_of acme fresh_row } ∷ [];
}

creation : create db acme fresh_object store ≡ ok (object_of acme fresh_row, after_create)
unfolding create get_finalizers put_all put_key has_key has_row sort_strings insert_sorted
    fire_event
creation = refl
