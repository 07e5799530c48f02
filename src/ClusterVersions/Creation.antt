-- ===== src/ClusterVersions/Creation.antt =====
-- internal/servers/private_cluster_versions_server.go: what versions are like that were created.
use osac_fulfillment_service.Prelude.{
  ℕ, true, false, false≢true, ◌≡◌, ◌≢◌, ◌∙◌, sym, ap, refl, inl, inr, Option, none, some, arith,
  eq_iff, Bool-cases, Option-cases,
}
use osac_fulfillment_service.Prelude.Compare.{◌==◌, string_comparable}
use osac_fulfillment_service.Errors.{ok, Result-cases}
use osac_fulfillment_service.Dao.{Object, Store}
use osac_fulfillment_service.Servers.Generic.{UpdateRequest}
use osac_fulfillment_service.Servers.Generic as Generic
use osac_fulfillment_service.Servers.Generic.Effects.{create_keeps_payload}
use osac_fulfillment_service.ClusterVersions.{
  ClusterVersion, VersionSpec, VersionState, Deprecation, state_unspecified, active, deprecated,
  obsolete, state_number, object_spec, flag, version_names, name_of,
}
use osac_fulfillment_service.ClusterVersions.Validation.{
  validate_create_request, apply_defaults, default_spec, validate_eligibility,
}
use osac_fulfillment_service.ClusterVersions.Requests.{
  Catalogue, create, validate_allowed_upgrades, unset_previous_default,
}
use osac_fulfillment_service.ClusterVersions.Eligibility.{eligible}

module _ (catalogue : Catalogue) where
  -- The timestamps that a new version has.
  abbrev pub first_stamps : ℕ → VersionState → Option Deprecation
  first_stamps now deprecated =
      some (record { deprecation_timestamp = some now; obsolescence_timestamp = none })
  first_stamps now obsolete =
      some (record { deprecation_timestamp = none; obsolescence_timestamp = some now })
  first_stamps now _ = none

  first_state :
      (now : ℕ) (spec : VersionSpec)
      → ((default_spec now spec).state ≢ state_unspecified)
        × ((default_spec now spec).deprecation ≡ first_stamps now (default_spec now spec).state)
  unfolding default_spec
  first_state now spec = go spec.state refl
    where
      go :
          (state : VersionState)
          → spec.state ≡ state
          → ((default_spec now spec).state ≢ state_unspecified)
            × ((default_spec now spec).deprecation ≡ first_stamps now (default_spec now spec).state)
      go state_unspecified e = rw e ((λ h. absurd (ground arith)), refl)
      go active e = rw e ((λ h. absurd (ground arith)), refl)
      go deprecated e = rw e ((λ h. absurd (ground arith)), refl)
      go obsolete e = rw e ((λ h. absurd (ground arith)), refl)
      go (state_number n) e = rw e ((λ h. absurd (ground arith)), refl)

  abbrev ready_of : Object ClusterVersion → VersionSpec → Object ClusterVersion
  ready_of object spec =
      apply_defaults catalogue.server.database.now catalogue.generated_name (object, spec)

  versioned :
      (request : Option (Object ClusterVersion)) (object : Object ClusterVersion)
      (spec : VersionSpec)
      → validate_create_request catalogue.is_semver request ≡ ok (object, spec)
      → (spec.version == "") ≡ false
  unfolding validate_create_request
  versioned none object spec h = absurd (ground arith)
  versioned (some asked) object spec h = elim (Option-cases asked.payload.spec) [
    | inl e ↦ absurd (ground arith)
    | inr (given, e) ↦ ground arith
  ]

  version_kept : (now : ℕ) (spec : VersionSpec) → (default_spec now spec).version ≡ spec.version
  unfolding default_spec
  version_kept now spec = refl

  create_steps :
      (request : Option (Object ClusterVersion)) (made : Object ClusterVersion)
      (store t : Store ClusterVersion)
      → create catalogue request store ≡ ok (made, t)
      → (object : Object ClusterVersion) × (spec : VersionSpec) × (store' : Store ClusterVersion)
        × (validate_create_request catalogue.is_semver request ≡ ok (object, spec))
        × (flag (object_spec (ready_of object spec)).is_default ≡ true
            → validate_eligibility (ready_of object spec) ≡ ok tt)
        × (Generic.create catalogue.server
              (some (ready_of object spec))
              (record { spec = none })
              store'
            ≡ ok (made, t))
  unfolding create
  create_steps request made store t h =
      elim (Result-cases (validate_create_request catalogue.is_semver request)) [
        | inr (e, q) ↦ absurd (ground arith)
        | inl ((object, spec), q) ↦
            let ready = ready_of object spec in
            elim (Result-cases (
              validate_allowed_upgrades catalogue (version_names (object_spec ready))
                (name_of ready) store)) [
                  | inr (e, a) ↦ absurd (ground arith)
                  | inl (done, a) ↦ elim (Bool-cases (flag (object_spec ready).is_default)) [
                    | inr plain ↦ (
                      object,
                      spec,
                      store,
                      q,
                      (λ d. absurd (false≢true (sym plain ∙ d))),
                      ground arith,
                    )
                    | inl chosen ↦ elim (Result-cases (validate_eligibility ready)) [
                      | inr (e, v) ↦ absurd (ground arith)
                      | inl (fine, v) ↦
                          elim (Result-cases (unset_previous_default catalogue ready.id store)) [
                            | inr (e, u) ↦ absurd (ground arith)
                            | inl (store', u) ↦ (object, spec, store', q, (λ d. v), ground arith)
                          ]
                    ]
                  ]
                ]
      ]

  -- A version that is created has a version and a state, the timestamp of a deprecated or obsolete
  -- state and no other, whatever the request says, and is the default only if it is enabled and not
  -- obsolete.
  pub create-eligible :
      (request : Option (Object ClusterVersion)) (made : Object ClusterVersion)
      (store t : Store ClusterVersion)
      → create catalogue request store ≡ ok (made, t)
      → (spec : VersionSpec) × (made.payload.spec ≡ some spec)
        × (spec.version ≢ "")
        × (spec.state ≢ state_unspecified)
        × (spec.deprecation ≡ first_stamps catalogue.server.database.now spec.state)
        × (flag spec.is_default ≡ true → eligible spec.state (flag spec.enabled) ≡ true)
  unfolding apply_defaults validate_eligibility
  create-eligible request made store t h =
      let (object, spec, store', q, fine, d) = create_steps request made store t h in
      let now = catalogue.server.database.now in
      let (named, stamps) = first_state now spec in
      (
        default_spec now spec,
        ap (λ p. p.spec)
            (create_keeps_payload catalogue.server (ready_of object spec) (record { spec = none })
              store' t made d),
        (λ e. false≢true (
            sym (versioned request object spec q)
            ∙ ground (arith, version_kept now spec, eq_iff spec.version ""))),
        named,
        stamps,
        (λ chosen. let passed = fine chosen in ground arith),
      )
