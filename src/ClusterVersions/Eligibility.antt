-- ===== src/ClusterVersions/Eligibility.antt =====
-- internal/servers/private_cluster_versions_server.go: the default version is enabled and not obsolete.
use osac_fulfillment_service.Prelude.{
  ℕ, Bool, true, false, false≢true, not, ◌||◌, ◌&&◌, ◌≡◌, ◌≢◌, ◌∙◌, sym, ap, refl, inl, inr, String,
  List, [], ◌∷◌, ◌++◌, Option, none, some, arith, Bool-cases,
}
use osac_fulfillment_service.Prelude.Compare.{string_comparable}
use osac_fulfillment_service.Dao.{Object}
use osac_fulfillment_service.Servers.Generic.{UpdateRequest}
use osac_fulfillment_service.PublicIps.Requests.{
  update_includes_field, field_in_path, field_in_paths,
}
use osac_fulfillment_service.ClusterVersions.{
  ClusterVersion, VersionSpec, VersionState, Deprecation, obsolete, object_spec, same_state,
  resolve_state, resolve_is_default, resolve_enabled, with_spec, add_path, deprecation_effects,
  apply_state_effects,
}

paths-append :
    (paths : List String) (path field : String)
    → field_in_paths (paths ++ path ∷ []) field
      ≡ (field_in_paths paths field || field_in_path path field)
unfolding field_in_paths
paths-append [] path field = ground arith
paths-append (p ∷ paths) path field = ground (arith, paths-append paths path field)

-- A path that is added to a mask with paths makes no difference to a field that it does not reach.
module _ (path field : String) (apart : field_in_path path field ≡ false) where
  added_apart :
      (mask : Option (List String))
      → mask ≢ some []
      → update_includes_field (add_path path mask) field ≡ update_includes_field mask field
  unfolding update_includes_field
  added_apart none full = refl
  added_apart (some []) full = absurd (full refl)
  added_apart (some (p ∷ paths)) full = paths-append (p ∷ paths) path field ∙ ground arith

added_reached :
    (path : String) (mask : Option (List String))
    → field_in_path path path ≡ true
    → update_includes_field (add_path path mask) path ≡ true
unfolding update_includes_field field_in_paths
added_reached path none h = refl
added_reached path (some []) h = ground arith
added_reached path (some (p ∷ paths)) h = paths-append (p ∷ paths) path path ∙ ground arith

-- The default version may be one of these.
abbrev pub eligible : VersionState → Bool → Bool
eligible state enabled = enabled && not (same_state state obsolete)

-- A request that has a specification.
abbrev pub request_with :
    Object ClusterVersion → VersionSpec → Option (List String) → Bool → UpdateRequest ClusterVersion
request_with object spec mask lock = record {
  object = some (with_spec spec object);
  mask = mask;
  lock = lock;
}

module _ (now : ℕ) (existing object : Object ClusterVersion) (spec : VersionSpec)
    (mask : Option (List String)) (lock : Bool) (full : mask ≢ some []) where
  abbrev pub effects : Option Deprecation × Option (List String)
  effects = deprecation_effects now existing (request_with object spec mask lock)

  abbrev pub staged : UpdateRequest ClusterVersion
  staged = request_with object (record spec { deprecation = effects.0 }) effects.1 lock

  staged_includes :
      (field : String)
      → field_in_path "spec.deprecation" field ≡ false
      → update_includes_field effects.1 field ≡ update_includes_field mask field
  unfolding deprecation_effects
  staged_includes field apart =
      elim (Bool-cases (
        same_state (object_spec existing).state
          (resolve_state existing (request_with object spec mask lock)))) [
            | inl same ↦ rw same refl
            | inr moved ↦ rw moved (added_apart "spec.deprecation" field apart mask full)
          ]

  state_lem :
      resolve_state existing staged ≡ resolve_state existing (request_with object spec mask lock)
  unfolding resolve_state
  state_lem = rw (staged_includes "spec.state" refl) refl

  abbrev state : VersionState
  state = resolve_state existing (request_with object spec mask lock)

  abbrev pub clears : Bool
  clears =
      resolve_is_default existing staged
      && (same_state state obsolete || not (resolve_enabled existing staged))

  abbrev pub cleared : UpdateRequest ClusterVersion
  cleared = record staged {
    object =
        some (with_spec (record spec { deprecation = effects.0; is_default = some false }) object);
    mask = add_path "spec.is_default" effects.1;
  }

  abbrev pub after : UpdateRequest ClusterVersion
  after = apply_state_effects now existing (request_with object spec mask lock)

  pub after-cleared : clears ≡ true → after ≡ cleared
  unfolding apply_state_effects
  after-cleared h = rw h refl

  pub after-staged : clears ≡ false → after ≡ staged
  unfolding apply_state_effects
  after-staged h = rw h refl

  -- After the flag is cleared the version is not the default one, whatever the mask.
  cleared_lem : resolve_is_default existing cleared ≡ false
  unfolding resolve_is_default
  cleared_lem = rw (added_reached "spec.is_default" effects.1 refl) refl

  -- Whatever the mask, if it is not empty: after the effects of an update with a specification, a
  -- version that the update leaves as the default one is enabled and not obsolete, by the values
  -- that the update leaves.
  pub apply_state_effects-eligible :
      resolve_is_default existing after ≡ true
      → eligible (resolve_state existing after) (resolve_enabled existing after) ≡ true
  apply_state_effects-eligible d = elim (Bool-cases clears) [
    | inl h ↦ absurd (
        false≢true (sym cleared_lem ∙ sym (ap (resolve_is_default existing) (after-cleared h)) ∙ d))
    | inr h ↦
        let same = after-staged h in
        let default : resolve_is_default existing staged ≡ true =
          sym (ap (resolve_is_default existing) same) ∙ d in
        rw same (ground (arith, state_lem))
  ]
