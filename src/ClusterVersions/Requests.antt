-- ===== src/ClusterVersions/Requests.antt =====
-- internal/servers/private_cluster_versions_server.go: the requests on cluster versions.
use osac_fulfillment_service.Prelude.{
  ℕ, zero, suc, ◌+◌, Bool, true, false, not, ◌&&◌, String, List, [], ◌∷◌, ◌++◌, map, Option, none,
  some, ltb, length, if◌then◌else◌,
}
use osac_fulfillment_service.Prelude.Compare.{Comparable, ◌==◌, string_comparable}
use osac_fulfillment_service.Prelude.Sort.{sort_strings}
use osac_fulfillment_service.Prelude.Int.{pos}
use osac_fulfillment_service.Errors.{
  Error, status, plain, not_found_error, deadlock_error, invalid_argument, already_exists,
  failed_precondition, aborted, internal, Result, ok, err, ◌>>=◌, ◌>>◌, refuse,
}
use osac_fulfillment_service.Collections.{new_set, difference, inclusions}
use osac_fulfillment_service.Dao.{Object, Store}
use osac_fulfillment_service.Dao.Requests.{translated}
use osac_fulfillment_service.Dao.Requests as Dao
use osac_fulfillment_service.Dao.Filter.{Expr}
use osac_fulfillment_service.Dao.Listing.{Conditions, list}
use osac_fulfillment_service.Servers.Generic.{Server, UpdateRequest, metadata_or_new}
use osac_fulfillment_service.Servers.Generic as Generic
use osac_fulfillment_service.PublicIps.Requests.{update_includes_field}
use osac_fulfillment_service.ClusterVersions.{
  ClusterVersion, object_spec, request_spec, flag, version_names, name_of, resolve_is_default,
  with_spec, apply_state_effects,
}
use osac_fulfillment_service.ClusterVersions.Validation.{
  validate_create_request, apply_defaults, validate_eligibility, validate_immutability,
  validate_explicit_default, validate_names,
}
use osac_fulfillment_service.ClusterVersions.Queries.{
  default_filter, default_condition, has_name, name_condition, upgrade_condition, name_filter,
  conditions,
}

-- The server, with semver.StrictNewVersion as a test, and the name that is generated from a version.
pub record Catalogue : Type 0 where
  pub server : Server ClusterVersion
  pub is_semver : String → Bool
  pub generated_name : String → String

abbrev to_internal : Error → Error
to_internal _ = status internal

-- An object that is gone is skipped, and the store is as it was.
abbrev skip_missing :
    Store ClusterVersion → Result (Store ClusterVersion) → Result (Store ClusterVersion)
skip_missing store (ok after) = ok after
skip_missing store (err (not_found_error id)) = ok store
skip_missing store (err deadlock_error) = err (status aborted)
skip_missing store (err _) = err (status internal)

abbrev without_name : String → List String → List String
without_name name [] = []
without_name name (n ∷ names) =
    let rest = without_name name names in if n == name then rest else n ∷ rest

module _ (catalogue : Catalogue) where
  -- `listAllMatching`. There are no more pages than rows.
  unfoldable pub list_pages :
      ℕ
      → ℕ
      → Conditions ClusterVersion
      → Expr
      → Store ClusterVersion
      → Result (List (Object ClusterVersion))
  list_pages zero offset sql filter store = err plain
  list_pages (suc fuel) offset sql filter store = do
    visible ← catalogue.server.tenancy.visible_tenants
    found ← list sql 100 1000 visible (some filter) (pos offset) (pos 1000) store
    rest ← elim (ltb (length found.items) 1000) [
      | true ↦ ok []
      | false ↦ list_pages fuel (offset + 1000) sql filter store
    ]
    ok (found.items ++ rest)

  abbrev pub list_all_matching :
      Conditions ClusterVersion
      → Expr
      → Store ClusterVersion
      → Result (List (Object ClusterVersion))
  list_all_matching sql filter store =
      translated to_internal (list_pages (suc (length store.rows)) 0 sql filter store)

  -- `s.generic.dao.Update().SetObject(cv).Do(ctx)`
  abbrev pub save_version :
      Object ClusterVersion → Store ClusterVersion → Result (Store ClusterVersion)
  save_version object store = do
    visible ← catalogue.server.tenancy.visible_tenants
    saved ← Dao.update catalogue.server.database visible object store
    ok (saved.1)

  unfoldable pub clear_defaults :
      List (Object ClusterVersion) → Store ClusterVersion → Result (Store ClusterVersion)
  clear_defaults [] store = ok store
  clear_defaults (object ∷ objects) store = do
    after ← skip_missing store (
        save_version (with_spec (record (object_spec object) { is_default = some false }) object)
          store)
    clear_defaults objects after

  -- `unsetPreviousDefaultClusterVersion`
  unfoldable pub unset_previous_default :
      String → Store ClusterVersion → Result (Store ClusterVersion)
  unfolding clear_defaults
  unset_previous_default exclude store = do
    items ←
        list_all_matching (conditions (default_condition exclude)) (default_filter exclude) store
    clear_defaults items store

  unfoldable pub validate_allowed_upgrades :
      List String → String → Store ClusterVersion → Result (Unit {0})
  validate_allowed_upgrades [] self store = ok tt
  validate_allowed_upgrades (name ∷ names) self store = do
    items ← list_all_matching (conditions (name_condition (name ∷ names))) name_filter store
    validate_names items self (name ∷ names)

  -- `removeFromAllowedUpgrades`: each object is read again, and skipped when the name is gone.
  unfoldable pub remove_name :
      String → String → Store ClusterVersion → Result (Store ClusterVersion)
  remove_name name id store = skip_missing store (do
    visible ← catalogue.server.tenancy.visible_tenants
    object ← Dao.get visible id store
    let spec = object_spec object
    if not (has_name (version_names spec) name)
        then ok store
        else save_version
            (with_spec
              (record spec { allowed_upgrades = some (without_name name (version_names spec)) })
              object)
            store)

  unfoldable pub remove_names :
      String → List String → Store ClusterVersion → Result (Store ClusterVersion)
  unfolding remove_name
  remove_names name [] store = ok store
  remove_names name (id ∷ ids) store = remove_name name id store >>= remove_names name ids

  unfoldable pub remove_from_allowed_upgrades :
      String → Store ClusterVersion → Result (Store ClusterVersion)
  unfolding remove_names
  remove_from_allowed_upgrades name store = do
    items ← list_all_matching (conditions (upgrade_condition name)) name_filter store
    remove_names name (sort_strings (map (λ o. o.id) items)) store

  unfoldable pub create :
      Option (Object ClusterVersion)
      → Store ClusterVersion
      → Result (Object ClusterVersion × Store ClusterVersion)
  create request store = do
    valid ← validate_create_request catalogue.is_semver request
    let object = apply_defaults catalogue.server.database.now catalogue.generated_name valid
    validate_allowed_upgrades (version_names (object_spec object)) (name_of object) store
    store' ←
        if flag (object_spec object).is_default
        then validate_eligibility object >> unset_previous_default object.id store
        else ok store
    Generic.create catalogue.server (some object) (record { spec = none }) store'

  abbrev pub added_upgrades : Object ClusterVersion → UpdateRequest ClusterVersion → List String
  added_upgrades existing request = names_of (
      inclusions (
        difference (new_set (version_names (request_spec request)))
          (new_set (version_names (object_spec existing)))))
    where
      -- A difference of finite sets is finite, so it has a list.
      names_of : Option (List String) → List String
      names_of none = []
      names_of (some names) = names

  -- A concurrent change of the default version.
  abbrev pub remap : Bool → Error → Error
  remap true (status already_exists) = status failed_precondition
  remap _ e = e

  abbrev pub id_of : Option (Object ClusterVersion) → String
  id_of none = ""
  id_of (some object) = object.id

  abbrev pub lacks_spec : Option (Object ClusterVersion) → Bool
  lacks_spec none = true
  lacks_spec (some object) = elim object.payload.spec [ none ↦ true | some spec ↦ false ]

  module _ ⦃c : Comparable ClusterVersion⦄ where
    unfoldable pub update :
        UpdateRequest ClusterVersion
        → Store ClusterVersion
        → Result (Object ClusterVersion × Store ClusterVersion)
    update request store = do
      let id = id_of request.object
      refuse (id == "") (status invalid_argument)
      existing ← Generic.get catalogue.server id store
      refuse (update_includes_field request.mask "spec" && lacks_spec request.object)
          (status invalid_argument)
      validate_immutability existing request
      validate_explicit_default existing request
      if update_includes_field request.mask "spec.allowed_upgrades"
          then validate_allowed_upgrades (added_upgrades existing request) (name_of existing) store
          else ok tt
      let request' = apply_state_effects catalogue.server.database.now existing request
      store' ←
          if resolve_is_default existing request' then unset_previous_default id store else ok store
      translated (remap (flag (request_spec request').is_default))
          (Generic.update catalogue.server request' store')

  unfoldable pub delete : String → Store ClusterVersion → Result (Store ClusterVersion)
  delete id store = do
    refuse (id == "") (status invalid_argument)
    existing ← Generic.get catalogue.server id store
    after ← Generic.delete catalogue.server id store
    if not (name_of existing == "")
        then remove_from_allowed_upgrades (name_of existing) after
        else ok after
