-- ===== src/ClusterVersions.antt =====
-- internal/servers/private_cluster_versions_server.go: cluster versions, with what an update makes of
-- their state, their deprecation and the flag of the default version.
pub mod Validation
mod Queries
pub mod Listing
pub mod Requests
pub mod Eligibility
pub mod Creation
pub mod Updating
pub mod Equality
mod Examples
use osac_fulfillment_service.Prelude.{
  ℕ, suc, Bool, true, false, not, ◌||◌, ◌&&◌, String, List, [], ◌∷◌, ◌++◌, Option, none, some, eqb,
  ltb, if◌then◌else◌,
}
use osac_fulfillment_service.Prelude.Compare.{◌==◌, string_comparable}
use osac_fulfillment_service.Errors.{status, invalid_argument, Result, ok, err, ◌>>=◌, ◌>>◌, refuse}
use osac_fulfillment_service.Dao.{Metadata, Object, field_or}
use osac_fulfillment_service.Servers.Generic.{UpdateRequest, metadata_or_new}
use osac_fulfillment_service.PublicIps.Requests.{update_includes_field}

-- `ClusterVersionState`. The wire format allows values without a name.
pub data VersionState : Type 0 where
  state_unspecified active deprecated obsolete : VersionState
  state_number : ℕ → VersionState

-- When a version was deprecated, and when it became obsolete.
pub record Deprecation : Type 0 where
  pub deprecation_timestamp : Option ℕ
  pub obsolescence_timestamp : Option ℕ

pub record VersionSpec : Type 0 where
  pub version : String
  pub image : String
  pub enabled : Option Bool
  pub is_default : Option Bool
  pub state : VersionState
  pub deprecation : Option Deprecation
  pub allowed_upgrades : Option (List String)

pub record ClusterVersion : Type 0 where
  pub spec : Option VersionSpec

abbrev pub no_deprecation : Deprecation
no_deprecation = record { deprecation_timestamp = none; obsolescence_timestamp = none }

-- The getters of the generated code answer with the zero value where a message is missing.
abbrev pub empty_spec : VersionSpec
empty_spec = record {
  version = "";
  image = "";
  enabled = none;
  is_default = none;
  state = state_unspecified;
  deprecation = none;
  allowed_upgrades = none;
}

abbrev pub spec_or_empty : Option VersionSpec → VersionSpec
spec_or_empty none = empty_spec
spec_or_empty (some spec) = spec

abbrev pub flag : Option Bool → Bool
flag none = false
flag (some b) = b

abbrev pub version_names : VersionSpec → List String
version_names spec = elim spec.allowed_upgrades [ none ↦ [] | some names ↦ names ]

abbrev pub same_state : VersionState → VersionState → Bool
same_state state_unspecified state_unspecified = true
same_state active active = true
same_state deprecated deprecated = true
same_state obsolete obsolete = true
same_state (state_number m) (state_number n) = eqb m n
same_state _ _ = false

abbrev pub object_spec : Object ClusterVersion → VersionSpec
object_spec object = spec_or_empty object.payload.spec

-- The specification in an update, with the zero value for each message that is missing.
abbrev pub request_spec : UpdateRequest ClusterVersion → VersionSpec
request_spec request = elim request.object [ none ↦ empty_spec | some object ↦ object_spec object ]

abbrev pub name_of : Object ClusterVersion → String
name_of object = field_or (λ m. m.name) "" object.metadata

-- Where a version is not told to be disabled it is enabled.
abbrev pub enabled_or_default : Option Bool → Bool
enabled_or_default none = true
enabled_or_default (some b) = b

unfoldable pub resolve_state : Object ClusterVersion → UpdateRequest ClusterVersion → VersionState
resolve_state existing request =
    if update_includes_field request.mask "spec.state"
    then (request_spec request).state
    else (object_spec existing).state

unfoldable pub resolve_is_default : Object ClusterVersion → UpdateRequest ClusterVersion → Bool
resolve_is_default existing request =
    if update_includes_field request.mask "spec.is_default"
    then flag (request_spec request).is_default
    else flag (object_spec existing).is_default

unfoldable pub resolve_enabled : Object ClusterVersion → UpdateRequest ClusterVersion → Bool
resolve_enabled existing request =
    if update_includes_field request.mask "spec.enabled"
    then enabled_or_default (request_spec request).enabled
    else enabled_or_default (object_spec existing).enabled

abbrev pub with_spec : VersionSpec → Object ClusterVersion → Object ClusterVersion
with_spec spec object = record object { payload = record { spec = some spec } }

-- `mask.Paths = append(mask.Paths, path)`, where there is a mask.
abbrev pub add_path : String → Option (List String) → Option (List String)
add_path path none = none
add_path path (some paths) = some (paths ++ path ∷ [])

abbrev pub deprecation_or_none : Option Deprecation → Deprecation
deprecation_or_none none = no_deprecation
deprecation_or_none (some deprecation) = deprecation

-- The timestamp of the state that a version gets.
abbrev pub stamp : ℕ → VersionState → Deprecation → Deprecation
stamp now deprecated old = record old { deprecation_timestamp = some now }
stamp now obsolete old = record old { obsolescence_timestamp = some now }
stamp now _ old = old

-- What `applyClusterVersionStateEffects` does to the deprecation, and to the mask.
unfoldable pub deprecation_effects :
    ℕ
    → Object ClusterVersion
    → UpdateRequest ClusterVersion
    → Option Deprecation × Option (List String)
deprecation_effects now existing request =
    let old = (object_spec existing).deprecation in
    let state = resolve_state existing request in
    if same_state (object_spec existing).state state then (old, request.mask) else (
      some (stamp now state (deprecation_or_none old)),
      add_path "spec.deprecation" request.mask,
    )

abbrev is_obsolete : VersionState → Bool
is_obsolete state = same_state state obsolete

-- The default flag is cleared on a version that may not be the default any more.
abbrev pub clear_default :
    VersionState
    → Object ClusterVersion
    → UpdateRequest ClusterVersion
    → Object ClusterVersion
    → UpdateRequest ClusterVersion
clear_default state existing request object =
    if resolve_is_default existing request
      && (is_obsolete state || not (resolve_enabled existing request))
    then record request {
      object = some (with_spec (record (object_spec object) { is_default = some false }) object);
      mask = add_path "spec.is_default" request.mask;
    }
    else request

-- `applyClusterVersionStateEffects`. The state is resolved before the mask grows.
unfoldable pub apply_state_effects :
    ℕ → Object ClusterVersion → UpdateRequest ClusterVersion → UpdateRequest ClusterVersion
unfolding deprecation_effects
apply_state_effects now existing request = elim request.object [
  | none ↦ request
  | some object ↦ elim object.payload.spec [
    | none ↦ request
    | some spec ↦
        let effects = deprecation_effects now existing request in
        let object' = with_spec (record spec { deprecation = effects.0 }) object in
        clear_default (resolve_state existing request) existing
          (record request { object = some object'; mask = effects.1 }) object'
  ]
]
