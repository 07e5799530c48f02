-- ===== src/ClusterVersions/Equality.antt =====
-- internal/servers/private_cluster_versions_server.go: the equality of messages, as a test.
use osac_fulfillment_service.Prelude.{
  Bool, true, false, not, ◌&&◌, ◌≡◌, ◌↔◌, refl, ap, String, List, [], ◌∷◌, Option, none, some,
  arith, eq_iff,
}
use osac_fulfillment_service.Prelude.Compare.{Comparable, ◌==◌, string_comparable, nat_comparable}
use osac_fulfillment_service.ClusterVersions.{
  ClusterVersion, VersionSpec, VersionState, Deprecation, same_state,
}

module _ {ℓ} {T : Type ℓ} ⦃c : Comparable T⦄ where
  abbrev same_option : Option T → Option T → Bool
  same_option none none = true
  same_option (some x) (some y) = x == y
  same_option _ _ = false

  same_option_iff : (a b : Option T) → (same_option a b ≡ true) ↔ (a ≡ b)
  same_option_iff none none = ground arith
  same_option_iff none (some y) = ground arith
  same_option_iff (some x) none = ground arith
  same_option_iff (some x) (some y) = ground (arith, c.same_iff x y)

  abbrev same_list : List T → List T → Bool
  same_list [] [] = true
  same_list (x ∷ xs) (y ∷ ys) = x == y && same_list xs ys
  same_list _ _ = false

  same_list_iff : (a b : List T) → (same_list a b ≡ true) ↔ (a ≡ b)
  same_list_iff [] [] = ground arith
  same_list_iff [] (y ∷ ys) = ground arith
  same_list_iff (x ∷ xs) [] = ground arith
  same_list_iff (x ∷ xs) (y ∷ ys) = ground (arith, c.same_iff x y, same_list_iff xs ys)

abbrev same_bool : Bool → Bool → Bool
same_bool true b = b
same_bool false b = not b

same_bool_iff : (a b : Bool) → (same_bool a b ≡ true) ↔ (a ≡ b)
same_bool_iff a b = ground arith

instance abbrev bool_comparable : Comparable Bool
bool_comparable = record { same = same_bool; same_iff = same_bool_iff }

instance abbrev texts_comparable : Comparable (List String)
texts_comparable = record { same = same_list; same_iff = same_list_iff }

abbrev same_deprecation : Deprecation → Deprecation → Bool
same_deprecation a b =
    same_option a.deprecation_timestamp b.deprecation_timestamp
    && same_option a.obsolescence_timestamp b.obsolescence_timestamp

same_deprecation_iff : (a b : Deprecation) → (same_deprecation a b ≡ true) ↔ (a ≡ b)
same_deprecation_iff a b = ground (
  arith,
  same_option_iff a.deprecation_timestamp b.deprecation_timestamp,
  same_option_iff a.obsolescence_timestamp b.obsolescence_timestamp,
)

instance abbrev deprecation_comparable : Comparable Deprecation
deprecation_comparable = record { same = same_deprecation; same_iff = same_deprecation_iff }

same_state_iff : (a b : VersionState) → (same_state a b ≡ true) ↔ (a ≡ b)
same_state_iff a b = ground arith

abbrev same_spec : VersionSpec → VersionSpec → Bool
same_spec a b =
    a.version == b.version
    && a.image == b.image
    && same_option a.enabled b.enabled
    && same_option a.is_default b.is_default
    && same_state a.state b.state
    && same_option a.deprecation b.deprecation
    && same_option a.allowed_upgrades b.allowed_upgrades

both : (p q : Bool) → (p && q) ≡ true → (p ≡ true) × (q ≡ true)
both p q h = ground arith

same_spec_iff : (a b : VersionSpec) → (same_spec a b ≡ true) ↔ (a ≡ b)
same_spec_iff a b =
    let version = eq_iff a.version b.version in
    let image = eq_iff a.image b.image in
    let enabled = same_option_iff a.enabled b.enabled in
    let is_default = same_option_iff a.is_default b.is_default in
    let state = same_state_iff a.state b.state in
    let deprecation = same_option_iff a.deprecation b.deprecation in
    let upgrades = same_option_iff a.allowed_upgrades b.allowed_upgrades in
    (
      λ h.
          let (r6, h7) = both _ (same_option a.allowed_upgrades b.allowed_upgrades) h in
          let (r5, h6) = both _ (same_option a.deprecation b.deprecation) r6 in
          let (r4, h5) = both _ (same_state a.state b.state) r5 in
          let (r3, h4) = both _ (same_option a.is_default b.is_default) r4 in
          let (r2, h3) = both _ (same_option a.enabled b.enabled) r3 in
          let (h1, h2) = both (a.version == b.version) (a.image == b.image) r2 in
          λ i. record {
            version = version.0 h1 i;
            image = image.0 h2 i;
            enabled = enabled.0 h3 i;
            is_default = is_default.0 h4 i;
            state = state.0 h5 i;
            deprecation = deprecation.0 h6 i;
            allowed_upgrades = upgrades.0 h7 i;
          },
      λ e.
          rw
            (
              version.1 (ap (λ s. s.version) e),
              image.1 (ap (λ s. s.image) e),
              enabled.1 (ap (λ s. s.enabled) e),
              is_default.1 (ap (λ s. s.is_default) e),
              state.1 (ap (λ s. s.state) e),
              deprecation.1 (ap (λ s. s.deprecation) e),
              upgrades.1 (ap (λ s. s.allowed_upgrades) e),
            )
            refl,
    )

instance abbrev spec_comparable : Comparable VersionSpec
spec_comparable = record { same = same_spec; same_iff = same_spec_iff }

abbrev same_version : ClusterVersion → ClusterVersion → Bool
same_version a b = same_option a.spec b.spec

pub same_version_iff : (a b : ClusterVersion) → (same_version a b ≡ true) ↔ (a ≡ b)
same_version_iff a b = ground (arith, same_option_iff a.spec b.spec)

instance abbrev pub version_comparable : Comparable ClusterVersion
version_comparable = record { same = same_version; same_iff = same_version_iff }
