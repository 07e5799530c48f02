-- ===== src/Servers/Tenants.antt =====
-- internal/servers/generic_server.go: the tenant that is assigned to an object that is created or
-- updated.
use osac_fulfillment_service.Prelude.{
  true, not, ◌≡◌, ◌≢◌, ◌⊎◌, inl, inr, String, arith, eq_iff, if◌then◌else◌,
}
use osac_fulfillment_service.Prelude.Compare.{◌==◌, string_comparable}
use osac_fulfillment_service.Errors.{
  permission_denied, internal, status, Result, ok, err, ◌>>=◌, ◌>>◌, refuse, Result-cases,
}
use osac_fulfillment_service.Collections.{Set, contains, empty, finite, universal}
use osac_fulfillment_service.Auth.{
  Subject, TenancyLogic, default_tenancy_logic, determine_assignable_tenants,
}
use osac_fulfillment_service.Auth.Tenancy.{contains-determine_default_tenant}

-- A failure of the tenancy logic becomes an internal error.
abbrev pub or_internal {ℓ} : {A : Type ℓ} → Result A → Result A
or_internal (ok a) = ok a
or_internal (err e) = err (status internal)

-- The arguments after the logic are the tenants of the request's object and of the current object,
-- empty where there is none.
unfoldable pub determine_assigned_tenant : TenancyLogic → String → String → Result String
determine_assigned_tenant logic request_tenant current_tenant = do
  visible ← or_internal logic.visible_tenants
  refuse (empty visible) (status permission_denied)
  assignable ← or_internal logic.assignable_tenants
  refuse (empty assignable) (status permission_denied)
  default ← or_internal logic.default_tenant
  refuse (default == "") (status permission_denied)
  if not (request_tenant == "")
      then (do
        refuse (not (contains visible request_tenant)) (status permission_denied)
        refuse (not (contains assignable request_tenant)) (status permission_denied)
        ok request_tenant)
      else if not (current_tenant == "")
      then ok current_tenant
      else ok default

-- A tenant that the request names is assigned only if it is both visible and assignable, and then
-- it is the tenant assigned.
pub determine_assigned_tenant_requested :
    (logic : TenancyLogic) (requested current tenant : String)
    → requested ≢ ""
    → determine_assigned_tenant logic requested current ≡ ok tenant
    → (visible assignable : Set String) × (logic.visible_tenants ≡ ok visible)
      × (logic.assignable_tenants ≡ ok assignable)
      × (tenant ≡ requested)
      × (contains visible tenant ≡ true)
      × (contains assignable tenant ≡ true)
unfolding determine_assigned_tenant
determine_assigned_tenant_requested logic requested current tenant named h =
    elim (Result-cases logic.visible_tenants) [
      | inr (e, v) ↦ absurd (ground arith)
      | inl (visible, v) ↦ elim (Result-cases logic.assignable_tenants) [
        | inr (e, a) ↦ absurd (ground arith)
        | inl (assignable, a) ↦ (
          visible,
          assignable,
          v,
          a,
          ground (arith, eq_iff requested ""),
          ground (arith, eq_iff requested ""),
          ground (arith, eq_iff requested ""),
        )
      ]
    ]

-- An object that is created gets a tenant of its creator's own tenants, whether it asks for one
-- or leaves it to the default, if the creator's set of tenants is finite or universal.
pub contains-determine_assigned_tenant :
    (subject : Subject) (requested tenant : String)
    → (finite subject.tenants ≡ true) ⊎ (universal subject.tenants ≡ true)
    → determine_assigned_tenant (default_tenancy_logic subject) requested requested ≡ ok tenant
    → contains subject.tenants tenant ≡ true
unfolding determine_assigned_tenant default_tenancy_logic determine_assignable_tenants
contains-determine_assigned_tenant subject requested tenant kind h =
    ground (arith, contains-determine_default_tenant subject tenant kind)
