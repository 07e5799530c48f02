-- ===== src/Dao/Translation.antt =====
-- internal/database/dao: how each request translates the errors of PostgreSQL.
use Prim.Native.String.{len, slice, ◌++◌}
use text.Mathlib.Text.{find?}
use osac_fulfillment_service.Prelude.{
  Bool, true, false, not, ◌-◌, ◌||◌, ◌&&◌, String, List, [], ◌∷◌, Option, none, some, leb,
  if◌then◌else◌,
}
use osac_fulfillment_service.Prelude.Compare.{◌==◌, string_comparable}
use osac_fulfillment_service.Errors.{
  Error, already_exists_error, immutable_error, reference_error, in_use_error, deadlock_error,
  sql_error, PgError, SqlState, unique_violation, foreign_key_violation, deadlock_detected,
  immutable_code, reference_code, in_use_code, not_unique_code,
}

-- `strings.HasSuffix`, `strings.Contains`
abbrev has_suffix : String → String → Bool
has_suffix s t = leb (len t) (len s) && slice s (len s - len t) (len s) == t

abbrev is_some {ℓ} : {A : Type ℓ} → Option A → Bool
is_some none = false
is_some (some a) = true

abbrev contains_text : String → String → Bool
contains_text s t = is_some (find? s t)

-- A custom message of a trigger becomes the reason.
abbrev not_unique : String → String → Error
not_unique id message =
    if not (message == "")
    then already_exists_error id "" message
    else already_exists_error id "" ""

create_pg_error : (id tenant project name : String) → PgError → SqlState → Error
create_pg_error id tenant project name e unique_violation = already_exists_error id name ""
create_pg_error id tenant project name e reference_code = reference_error e.message
create_pg_error id tenant project name e foreign_key_violation =
    if has_suffix e.constraint "_tenant_fk"
    then reference_error ("tenant '" ++ tenant ++ "' doesn't exist")
    else if has_suffix e.constraint "_parent_project_fk"
    then reference_error ("parent project '" ++ project ++ "' doesn't exist")
    else if has_suffix e.constraint "_project_fk"
    then reference_error ("project '" ++ project ++ "' doesn't exist")
    else reference_error ""
create_pg_error id tenant project name e not_unique_code = not_unique id e.message
create_pg_error id tenant project name e deadlock_detected = deadlock_error
create_pg_error id tenant project name e _ = sql_error e

unfoldable pub translate_create_error : (id tenant project name : String) → Error → Error
unfolding create_pg_error
translate_create_error id tenant project name (sql_error e) =
    create_pg_error id tenant project name e e.state
translate_create_error id tenant project name e = e

-- The loop over the columns that a trigger names.
immutable_fields : List String → List String
immutable_fields [] = []
immutable_fields (column ∷ rest) =
    let others = immutable_fields rest in
    if column == "creator" || column == "name" || column == "project" || column == "tenant"
    then ("metadata." ++ column) ∷ others
    else others

immutable_of : Option (List String) → Error
immutable_of none = immutable_error []
immutable_of (some columns) = immutable_error (immutable_fields columns)

update_pg_error : (id name tenant : String) → PgError → SqlState → Error
update_pg_error id name tenant e unique_violation =
    if contains_text e.constraint "_unique_name_"
    then already_exists_error id name ""
    else already_exists_error id "" ""
update_pg_error id name tenant e foreign_key_violation =
    if has_suffix e.constraint "_tenant_fk"
    then reference_error ("tenant '" ++ tenant ++ "' doesn't exist")
    else reference_error ""
update_pg_error id name tenant e reference_code = reference_error e.message
update_pg_error id name tenant e immutable_code = immutable_of e.columns
update_pg_error id name tenant e not_unique_code = not_unique id e.message
update_pg_error id name tenant e deadlock_detected = deadlock_error
update_pg_error id name tenant e _ = sql_error e

unfoldable pub translate_update_error : (id name tenant : String) → Error → Error
unfolding update_pg_error immutable_of immutable_fields
translate_update_error id name tenant (sql_error e) = update_pg_error id name tenant e e.state
translate_update_error id name tenant e = e

delete_pg_error : String → PgError → SqlState → Error
delete_pg_error tenant e in_use_code = in_use_error e.message
delete_pg_error tenant e foreign_key_violation =
    if e.constraint == "projects_tenant_fk"
    then in_use_error ("tenant '" ++ tenant ++ "' cannot be deleted because it still has projects")
    else sql_error e
delete_pg_error tenant e deadlock_detected = deadlock_error
delete_pg_error tenant e _ = sql_error e

unfoldable pub translate_delete_error : String → Error → Error
unfolding delete_pg_error
translate_delete_error tenant (sql_error e) = delete_pg_error tenant e e.state
translate_delete_error tenant e = e
