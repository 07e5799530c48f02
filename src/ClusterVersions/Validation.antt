-- ===== src/ClusterVersions/Validation.antt =====
-- internal/servers/private_cluster_versions_server.go: the tests on requests, and the defaults of a version.
use Prim.Native.String.{len}
use osac_fulfillment_service.Prelude.{
  ℕ, Bool, not, ◌||◌, ◌&&◌, String, List, [], ◌∷◌, Option, none, some, ltb, if◌then◌else◌,
}
use osac_fulfillment_service.Prelude.Compare.{◌==◌, string_comparable}
use osac_fulfillment_service.Errors.{status, invalid_argument, Result, ok, err, ◌>>◌, refuse}
use osac_fulfillment_service.Dao.{Metadata, Object}
use osac_fulfillment_service.Servers.Generic.{UpdateRequest, metadata_or_new}
use osac_fulfillment_service.PublicIps.Requests.{update_includes_field}
use osac_fulfillment_service.ClusterVersions.{
  ClusterVersion, VersionSpec, VersionState, state_unspecified, active, deprecated, obsolete,
  no_deprecation, object_spec, request_spec, flag, same_state, name_of, enabled_or_default,
  resolve_state, resolve_enabled, stamp,
}

abbrev max_semver_length : ℕ
max_semver_length = 256

-- `validateClusterVersionCreateRequest`, with `validateSemVer`: the object and its specification.
unfoldable pub validate_create_request :
    (String → Bool) → Option (Object ClusterVersion) → Result (Object ClusterVersion × VersionSpec)
validate_create_request is_semver none = err (status invalid_argument)
validate_create_request is_semver (some object) = elim object.payload.spec [
  | none ↦ err (status invalid_argument)
  | some spec ↦ (do
    refuse (spec.version == "") (status invalid_argument)
    refuse (spec.image == "") (status invalid_argument)
    refuse (ltb max_semver_length (len spec.version)) (status invalid_argument)
    refuse (not (is_semver spec.version)) (status invalid_argument)
    ok (object, spec))
]

abbrev state_or_active : VersionState → VersionState
state_or_active state_unspecified = active
state_or_active state = state

abbrev starts_with_stamp : VersionState → Bool
starts_with_stamp state = same_state state deprecated || same_state state obsolete

-- The specification that `applyClusterVersionDefaults` leaves.
unfoldable pub default_spec : ℕ → VersionSpec → VersionSpec
default_spec now spec =
    let state = state_or_active spec.state in
    record spec {
      enabled = some (enabled_or_default spec.enabled);
      is_default = some (flag spec.is_default);
      state = state;
      deprecation = if starts_with_stamp state then some (stamp now state no_deprecation) else none;
    }

abbrev default_name : (String → String) → String → Metadata → Metadata
default_name generated version metadata =
    if metadata.name == "" then record metadata { name = generated version } else metadata

-- `applyClusterVersionDefaults`, and the identifier that is left to the database.
unfoldable pub apply_defaults :
    ℕ → (String → String) → Object ClusterVersion × VersionSpec → Object ClusterVersion
apply_defaults now generated (object, spec) = record {
  id = "";
  metadata = some (default_name generated spec.version (metadata_or_new object.metadata));
  payload = record { spec = some (default_spec now spec) };
}

-- `validateIsDefaultEligibility`
unfoldable pub validate_eligibility : Object ClusterVersion → Result (Unit {0})
validate_eligibility object = do
  refuse (not (flag (object_spec object).enabled)) (status invalid_argument)
  refuse (same_state (object_spec object).state obsolete) (status invalid_argument)

-- `validateClusterVersionImmutability`
unfoldable pub validate_immutability :
    Object ClusterVersion → UpdateRequest ClusterVersion → Result (Unit {0})
validate_immutability existing request = do
  refuse
      (update_includes_field request.mask "spec.version"
        && not ((request_spec request).version == (object_spec existing).version))
      (status invalid_argument)
  refuse
      (update_includes_field request.mask "spec.image"
        && not ((request_spec request).image == (object_spec existing).image))
      (status invalid_argument)
  refuse
      (update_includes_field request.mask "metadata.name"
        && not
            (elim request.object [ none ↦ "" | some object ↦ name_of object ] == name_of existing))
      (status invalid_argument)

-- The test of an explicit `is_default`.
unfoldable pub validate_explicit_default :
    Object ClusterVersion → UpdateRequest ClusterVersion → Result (Unit {0})
validate_explicit_default existing request =
    if update_includes_field request.mask "spec.is_default"
      && flag (request_spec request).is_default
    then (do
      refuse (not (resolve_enabled existing request)) (status invalid_argument)
      refuse (same_state (resolve_state existing request) obsolete) (status invalid_argument))
    else ok tt

-- Go's map keeps the last item of a name.
abbrev found_version : List (Object ClusterVersion) → String → Option (Object ClusterVersion)
found_version [] name = none
found_version (object ∷ objects) name = elim (found_version objects name) [
  | some later ↦ some later
  | none ↦ if name_of object == name then some object else none
]

unfoldable pub validate_names :
    List (Object ClusterVersion) → String → List String → Result (Unit {0})
validate_names found self [] = ok tt
validate_names found self (name ∷ names) =
    let rest = validate_names found self names in
    if name == self then err (status invalid_argument) else elim (found_version found name) [
      | none ↦ err (status invalid_argument)
      | some target ↦
          if not (enabled_or_default (object_spec target).enabled)
            || same_state (object_spec target).state obsolete
          then err (status invalid_argument)
          else rest
    ]
