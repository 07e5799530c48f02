-- ===== src/Dao.antt =====
-- internal/database/dao: the rows of one table, and the requests of the generic DAO over it.
-- generic_dao_request.go and the types behind it. The SQL statements of the source are read as
-- functions on the list of rows. The JSON document of a row is the value that it encodes: the
-- object without its identifier and its metadata, which have their own columns. A column
-- `timestamp` is in seconds, and 0 is the epoch that stands for no deletion.
pub mod Translation
pub mod Requests
pub mod Rows
pub mod Lifecycle
pub mod Access
pub mod Outcomes
pub mod Resaving
pub mod Filter
pub mod Listing
pub mod Selection
pub mod Page
pub mod Paging
pub mod Absence
pub mod Examples
use osac_fulfillment_service.Prelude.{
  ℕ, Bool, true, false, not, ◌||◌, ◌&&◌, String, List, [], ◌∷◌, ◌++◌, Option, none, some, length,
  eqb, if◌then◌else◌,
}
use osac_fulfillment_service.Prelude.Compare.{◌==◌, string_comparable}
use osac_fulfillment_service.Prelude.Sort.{sort_strings}
use osac_fulfillment_service.Errors.{
  Error, Result, ok, err, plain, denied_error, not_found_error, ◌>>=◌, ◌>>◌, refuse,
}
use osac_fulfillment_service.Collections.{Set, contains, empty, finite, universal, inclusions}
use osac_fulfillment_service.Collections.Maps.{has_key, put_all}

abbrev pub StringMap : Type 0
StringMap = List (String × String)

pub record Metadata : Type 0 where
  pub name : String
  pub creation_timestamp : Option ℕ
  pub deletion_timestamp : Option ℕ
  pub finalizers : List String
  pub creator : String
  pub tenant : String
  pub project : String
  pub labels : StringMap
  pub annotations : StringMap
  pub version : ℕ

pub record Object (D : Type 0) : Type 0 where
  pub id : String
  pub metadata : Option Metadata
  pub payload : D

pub record Row (D : Type 0) : Type 0 where
  pub id : String
  pub name : String
  pub creation_timestamp : ℕ
  pub deletion_timestamp : ℕ
  pub finalizers : List String
  pub creator : String
  pub tenant : String
  pub project : String
  pub labels : StringMap
  pub annotations : StringMap
  pub version : ℕ
  pub document : D

pub data EventType : Type 0 where
  created updated deleted : EventType

pub record Event (D : Type 0) : Type 0 where
  pub type : EventType
  pub object : Object D

-- The table, the archive table, and the events fired so far, the last one first.
pub record Store (D : Type 0) : Type 0 where
  pub rows : List (Row D)
  pub archived : List (Row D)
  pub events : List (Event D)

-- What the DAO does not implement: the clock, the identifiers of internal/uuid, the constraints and
-- triggers of the database (a check that refuses a row answers with its error), and the callbacks
-- for events.
pub record Database (D : Type 0) : Type 0 where
  pub now : ℕ
  pub new_uuid : String
  pub insert_check : List (Row D) → Row D → Option Error
  pub update_check : List (Row D) → Row D → Row D → Option Error
  pub archive_check : Row D → Option Error
  pub remove_check : List (Row D) → Row D → Option Error
  pub notify : Event D → Option Error

-- The where clause that `addTenancyFilter` writes.
pub data TenancyFilter : Type 0 where
  no_filter : TenancyFilter
  always_false : TenancyFilter
  tenant_any : List String → TenancyFilter

unfoldable pub tenancy_filter : Set String → Result TenancyFilter
tenancy_filter tenants =
    if universal tenants
    then ok no_filter
    else if empty tenants
    then ok always_false
    else elim (inclusions tenants) [
      | some ids ↦ ok (tenant_any (sort_strings ids))
      | none ↦ err denied_error
    ]

-- The condition on the column `tenant`.
unfoldable pub admits : TenancyFilter → String → Bool
admits no_filter tenant = true
admits always_false tenant = false
admits (tenant_any ids) tenant = has_key ids tenant

unfoldable pub filter_tenant : Set String → String → String
filter_tenant tenants tenant =
    if universal tenants then tenant else if contains tenants tenant then tenant else ""

abbrev timestamp_if_set : ℕ → Option ℕ
timestamp_if_set t = if eqb t 0 then none else some t

unfoldable pub make_metadata : {D : Type 0} → Set String → Row D → Metadata
unfolding filter_tenant
make_metadata tenants row = record {
  name = row.name;
  creation_timestamp = timestamp_if_set row.creation_timestamp;
  deletion_timestamp = timestamp_if_set row.deletion_timestamp;
  finalizers = row.finalizers;
  creator = row.creator;
  tenant = filter_tenant tenants row.tenant;
  project = row.project;
  labels = row.labels;
  annotations = row.annotations;
  version = row.version;
}

unfoldable pub object_of : {D : Type 0} → Set String → Row D → Object D
unfolding make_metadata
object_of tenants row = record {
  id = row.id;
  metadata = some (make_metadata tenants row);
  payload = row.document;
}

-- `getFinalizers`: each once, sorted.
unfoldable pub get_finalizers : Option Metadata → List String
get_finalizers none = []
get_finalizers (some m) = sort_strings (put_all m.finalizers [])

-- The value of a field of the metadata, or the zero value where there is no metadata.
abbrev pub field_or {ℓ} : {A : Type ℓ} → (Metadata → A) → A → Option Metadata → A
field_or f zero_value none = zero_value
field_or f zero_value (some m) = f m

module _ {D : Type 0} where
  -- `where <tenancy filter> and id = $n`
  unfoldable pub find_row : TenancyFilter → String → List (Row D) → Option (Row D)
  unfolding admits
  find_row clause id [] = none
  find_row clause id (row ∷ rows) =
      let rest = find_row clause id rows in
      if admits clause row.tenant && row.id == id then some row else rest

  -- `update … where id = …`: the identifier is the primary key.
  unfoldable pub set_row : Row D → List (Row D) → List (Row D)
  set_row new [] = []
  set_row new (row ∷ rows) =
      let rest = set_row new rows in if row.id == new.id then new ∷ rest else row ∷ rest

  -- `delete from … where id = $1`
  unfoldable pub remove_row : String → List (Row D) → List (Row D)
  remove_row id [] = []
  remove_row id (row ∷ rows) =
      let rest = remove_row id rows in if row.id == id then rest else row ∷ rest

abbrev pub check : Option Error → Result (Unit {0})
check none = ok tt
check (some e) = err e

module _ {D : Type 0} (db : Database D) where
  unfoldable pub fire_event : EventType → Object D → Store D → Result (Store D)
  fire_event type object store =
      let event : Event D = record { type = type; object = object } in
      do check (db.notify event); ok (record store { events = event ∷ store.events })

  -- `insert into archived_…`, then `delete from …`.
  unfoldable pub archive : Row D → Store D → Result (Store D)
  archive row store = do
    check (db.archive_check row)
    check (db.remove_check store.rows row)
    ok (record store { rows = remove_row row.id store.rows; archived = row ∷ store.archived })
