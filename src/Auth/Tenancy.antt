-- ===== src/Auth/Tenancy.antt =====
-- internal/auth: which tenants a subject sees, and which tenant its objects get by default.
use osac_fulfillment_service.Prelude.{
  Bool, true, false, ◌||◌, ◌≡◌, ◌⊎◌, inl, inr, refl, String, List, [], ◌∷◌, arith, if◌then◌else◌,
  Bool-cases,
}
use osac_fulfillment_service.Prelude.Compare.{◌==◌, string_comparable}
use osac_fulfillment_service.Errors.{ok}
use osac_fulfillment_service.Collections.{
  Set, new_set, contains, empty, universal, finite, inclusions, union,
}
use osac_fulfillment_service.Collections.Maps.{has_key, has_key_head}
use osac_fulfillment_service.Collections.Membership.{contains-union, contains-new_set}
use osac_fulfillment_service.Auth.{
  Subject, shared_tenant, shared_tenants, determine_default_tenant, determine_visible_tenants,
}

contains-singleton : (k x : String) → contains (new_set (k ∷ [])) x ≡ (k == x)
unfolding has_key
contains-singleton k x = rw contains-new_set (ground arith)

-- With a finite set of tenants a subject sees its tenants and the shared tenant, and no other; with
-- an infinite set it sees exactly that set.
pub determine_visible_tenants_lem :
    (subject : Subject)
    → (visible : Set String) × (determine_visible_tenants subject ≡ ok visible)
      × ((x : String)
          → contains visible x ≡ (
              if finite subject.tenants
              then shared_tenant == x || contains subject.tenants x
              else contains subject.tenants x))
unfolding determine_visible_tenants
determine_visible_tenants_lem subject = elim (Bool-cases (finite subject.tenants)) [
  | inl f ↦
      (union shared_tenants subject.tenants, rw f, λ x. rw (f, contains-union, contains-singleton))
  | inr f ↦ (subject.tenants, rw f, λ x. rw f)
]

default_of :
    (infinite : Bool) (items : List String) (user tenant : String)
    → let s : Set String = record { infinite = infinite; items = items } in
      (finite s ≡ true) ⊎ (universal s ≡ true)
      → determine_default_tenant (record { user = user; tenants = s }) ≡ ok tenant
      → contains s tenant ≡ true
unfolding determine_default_tenant empty finite inclusions universal contains
default_of true [] user tenant h e = unfold has_key in refl
default_of true (y ∷ ys) user tenant h e = ground arith
default_of false [] user tenant h e = cc
default_of false (y ∷ ys) user tenant h e =
    let same : y ≡ tenant = ground arith in rw (← same) (has_key_head y ys)

-- The default tenant is one of the subject's own tenants, in whatever order Go lists them, if the
-- subject's set of tenants is finite or universal.
pub contains-determine_default_tenant :
    (subject : Subject) (tenant : String)
    → (finite subject.tenants ≡ true) ⊎ (universal subject.tenants ≡ true)
    → determine_default_tenant subject ≡ ok tenant
    → contains subject.tenants tenant ≡ true
contains-determine_default_tenant subject tenant h e =
    default_of subject.tenants.infinite subject.tenants.items subject.user tenant h e
