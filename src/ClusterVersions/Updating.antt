-- ===== src/ClusterVersions/Updating.antt =====
-- internal/servers/private_cluster_versions_server.go: what versions are like that were updated.
use osac_fulfillment_service.Prelude.{
  ℕ, Bool, true, false, ◌≡◌, ◌≢◌, ◌∙◌, sym, ap, subst, refl, inl, inr, String, List, [], Option,
  none, some, arith, eq_iff, Bool-cases, if◌then◌else◌,
}
use osac_fulfillment_service.Prelude.Compare.{Comparable, string_comparable}
use osac_fulfillment_service.Errors.{ok, Result-cases}
use osac_fulfillment_service.Dao.{Object, Store}
use osac_fulfillment_service.Dao.Requests.{translated}
use osac_fulfillment_service.Servers.Generic.{UpdateRequest}
use osac_fulfillment_service.Servers.Generic as Generic
use osac_fulfillment_service.Servers.Generic.Replacing.{replaced}
use osac_fulfillment_service.PublicIps.Requests.{update_includes_field}
use osac_fulfillment_service.ClusterVersions.{
  deprecation_effects, deprecation_or_none, enabled_or_default, ClusterVersion, VersionSpec,
  VersionState, Deprecation, object_spec, request_spec, flag, name_of, same_state, resolve_state,
  resolve_is_default, resolve_enabled, with_spec, stamp, add_path,
}
use osac_fulfillment_service.ClusterVersions.Validation.{
  validate_immutability, validate_explicit_default,
}
use osac_fulfillment_service.ClusterVersions.Requests.{
  Catalogue, remap, added_upgrades, update, validate_allowed_upgrades, unset_previous_default,
}
use osac_fulfillment_service.ClusterVersions.Eligibility.{
  eligible, request_with, after, clears, after-cleared, after-staged, apply_state_effects-eligible,
}

-- The deprecation that an update to a state leaves: the timestamp of that state, if it is a new one,
-- and the others as they were.
abbrev pub history : ℕ → VersionSpec → VersionState → Option Deprecation
history now old state =
    if same_state old.state state
    then old.deprecation
    else some (stamp now state (deprecation_or_none old.deprecation))

nothing_full : ◌≢◌ {A = Option (List String)} none (some [])
nothing_full h = absurd (ground arith)

module _ (now : ℕ) (existing object : Object ClusterVersion) (spec : VersionSpec)
    (lock : Bool) where
  abbrev past : Option Deprecation
  past = history now (object_spec existing) spec.state

  unmasked_effects :
      deprecation_effects now existing (request_with object spec none lock) ≡ (past, none)
  unfolding deprecation_effects resolve_state update_includes_field
  unmasked_effects = elim (Bool-cases (same_state (object_spec existing).state spec.state)) [
    | inl same ↦ rw same refl
    | inr moved ↦ rw moved refl
  ]

  -- The specification that an update without a mask stores.
  final_spec :
      (final : VersionSpec) × (after now existing object spec none lock nothing_full
        ≡ request_with object final none lock)
      × (final.version ≡ spec.version)
      × (final.image ≡ spec.image)
      × (final.state ≡ spec.state)
      × (final.deprecation ≡ past)
  final_spec = elim (Bool-cases (clears now existing object spec none lock nothing_full)) [
    | inl h ↦ (
      record spec { deprecation = past; is_default = some false },
      after-cleared now existing object spec none lock nothing_full h
          ∙ ap
              (λ e. record {
                object =
                    some (
                      with_spec (record spec { deprecation = e.0; is_default = some false })
                        object);
                mask = add_path "spec.is_default" e.1;
                lock = lock;
              })
              unmasked_effects,
      refl,
      refl,
      refl,
      refl,
    )
    | inr h ↦ (
      record spec { deprecation = past },
      after-staged now existing object spec none lock nothing_full h
          ∙ ap (λ e. request_with object (record spec { deprecation = e.0 }) e.1 lock)
              unmasked_effects,
      refl,
      refl,
      refl,
      refl,
    )
  ]

  final-eligible :
      (final : VersionSpec)
      → after now existing object spec none lock nothing_full ≡ request_with object final none lock
      → flag final.is_default ≡ true
      → eligible final.state (enabled_or_default final.enabled) ≡ true
  unfolding resolve_is_default resolve_state resolve_enabled update_includes_field
  final-eligible final same chosen =
      subst
        (λ a.
          resolve_is_default existing a ≡ true
          → eligible (resolve_state existing a) (resolve_enabled existing a) ≡ true)
        same (apply_state_effects-eligible now existing object spec none lock nothing_full) chosen

-- An update whose specification passes the tests has the version and the image of the pool.
immutable :
    (existing object : Object ClusterVersion) (spec : VersionSpec) (lock : Bool)
    → validate_immutability existing (request_with object spec none lock) ≡ ok tt
    → (spec.version ≡ (object_spec existing).version) × (spec.image ≡ (object_spec existing).image)
unfolding validate_immutability update_includes_field
immutable existing object spec lock h = (
  ground (arith, eq_iff spec.version (object_spec existing).version),
  ground (arith, eq_iff spec.image (object_spec existing).image),
)

module _ (catalogue : Catalogue) ⦃c : Comparable ClusterVersion⦄ where
  updated :
      (request : UpdateRequest ClusterVersion) (store : Store ClusterVersion)
      (made : Object ClusterVersion) (t : Store ClusterVersion)
      → translated
          (remap catalogue (flag (request_spec request).is_default))
          (Generic.update catalogue.server request store)
        ≡ ok (made, t)
      → Generic.update catalogue.server request store ≡ ok (made, t)
  updated request store made t h =
      elim (Result-cases (Generic.update catalogue.server request store)) [
        | inl (answer, d) ↦ ground arith
        | inr (e, d) ↦ absurd (ground arith)
      ]

  update_steps :
      (object made : Object ClusterVersion) (spec : VersionSpec) (lock : Bool)
      (store t : Store ClusterVersion)
      → update catalogue (request_with object spec none lock) store ≡ ok (made, t)
      → (existing : Object ClusterVersion) × (store' : Store ClusterVersion) × (Generic.get
            catalogue.server object.id store
          ≡ ok existing)
        × (validate_immutability existing (request_with object spec none lock) ≡ ok tt)
        × (Generic.update catalogue.server
              (after catalogue.server.database.now existing object spec none lock nothing_full)
              store'
            ≡ ok (made, t))
  unfolding update update_includes_field
  update_steps object made spec lock store t h =
      let request = request_with object spec none lock in
      elim (Result-cases (Generic.get catalogue.server object.id store)) [
        | inr (e, g) ↦ absurd (ground arith)
        | inl (existing, g) ↦
            let later =
              after catalogue.server.database.now existing object spec none lock nothing_full in
            elim (Result-cases (validate_immutability existing request)) [
              | inr (e, i) ↦ absurd (ground arith)
              | inl (done, i) ↦ elim (Result-cases (validate_explicit_default existing request)) [
                | inr (e, x) ↦ absurd (ground arith)
                | inl (fine, x) ↦
                    elim (Result-cases (
                      validate_allowed_upgrades catalogue
                        (added_upgrades catalogue existing request) (name_of existing) store)) [
                          | inr (e, y) ↦ absurd (ground arith)
                          | inl (known, y) ↦ elim (Bool-cases (resolve_is_default existing later)) [
                            | inr other ↦
                                (existing, store, g, i, updated later store made t (ground arith))
                            | inl chosen ↦
                                elim (Result-cases
                                  (unset_previous_default catalogue object.id store)) [
                                    | inr (e, u) ↦ absurd (ground arith)
                                    | inl (store', u) ↦ (
                                      existing,
                                      store',
                                      g,
                                      i,
                                      updated later store' made t (ground arith),
                                    )
                                  ]
                          ]
                        ]
              ]
            ]
      ]

  -- An update without a mask that succeeds, of a request with a specification, leaves a version
  -- that has the version and the image that were stored, whose deprecation has the stored
  -- timestamps and that of a new state, and that is the default only if it is enabled and not
  -- obsolete.
  pub update-eligible :
      (object made : Object ClusterVersion) (spec : VersionSpec) (lock : Bool)
      (store t : Store ClusterVersion)
      → update catalogue (request_with object spec none lock) store ≡ ok (made, t)
      → (existing : Object ClusterVersion) × (final : VersionSpec) × (Generic.get catalogue.server
            object.id store
          ≡ ok existing)
        × (made.payload.spec ≡ some final)
        × (final.version ≡ (object_spec existing).version)
        × (final.image ≡ (object_spec existing).image)
        × (final.deprecation
            ≡ history catalogue.server.database.now (object_spec existing) final.state)
        × (flag final.is_default ≡ true
            → eligible final.state (enabled_or_default final.enabled) ≡ true)
  update-eligible object made spec lock store t h =
      let (existing, store', g, i, d) = update_steps object made spec lock store t h in
      let now = catalogue.server.database.now in
      let (final, same, version, image, state, past) = final_spec now existing object spec lock in
      let (v, w) = immutable existing object spec lock i in
      (
        existing,
        final,
        g,
        ap (λ p. p.spec)
            (replaced catalogue.server (request_with object final none lock)
              (with_spec final object) made store' t refl refl (rw same at d)),
        version ∙ v,
        image ∙ w,
        past ∙ ap (history now (object_spec existing)) (sym state),
        final-eligible now existing object spec lock final same,
      )
