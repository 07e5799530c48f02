-- ===== src/Auth.antt =====
-- internal/auth: the subject of a request, and the logic that derives tenants and creators from it.
-- auth_subject.go, tenancy_logic.go, default_tenancy_logic.go, guest_tenancy_logic.go,
-- default_attribution_logic.go and system_attribution_logic.go. Logging is left out.
pub mod Wire
pub mod Tenancy
mod Examples
use osac_fulfillment_service.Prelude.{
  Bool, true, false, not, ◌||◌, String, List, [], ◌∷◌, Option, none, some, length, ltb,
  if◌then◌else◌,
}
use osac_fulfillment_service.Prelude.Compare.{◌==◌, string_comparable}
use osac_fulfillment_service.Errors.{Error, Result, ok, err, plain, ◌>>=◌}
use osac_fulfillment_service.Collections.{
  Set, new_set, new_universal_set, empty, universal, finite, inclusions, union,
}

pub record Subject : Type 0 where
  pub user : String
  pub tenants : Set String

abbrev pub universal_marker : String
universal_marker = "*"

abbrev pub shared_tenant : String
shared_tenant = "shared"

abbrev pub shared_tenants : Set String
shared_tenants = new_set (shared_tenant ∷ [])

abbrev pub guest_tenants : Set String
guest_tenants = new_set ("guest" ∷ [])

abbrev pub all_tenants : Set String
all_tenants = new_universal_set

-- The loop that looks for the marker stops where it finds it.
unfoldable pub has_marker : List String → Bool
has_marker [] = false
has_marker (tenant ∷ rest) = tenant == universal_marker || has_marker rest

-- `UnmarshalJSON`, on the decoded list of tenants.
unfoldable pub unmarshal_tenants : List String → Result (Set String)
unfolding has_marker
unmarshal_tenants names =
    if has_marker names
    then if ltb 1 (length names) then err plain else ok all_tenants
    else ok (new_set names)

-- `MarshalJSON`, up to the encoding of the list of tenants. `Inclusions` panics only on an
-- infinite set, and is called on a finite one.
unfoldable pub marshal_tenants : Set String → Result (List String)
marshal_tenants tenants =
    if universal tenants
    then ok (universal_marker ∷ [])
    else elim (inclusions tenants) [ none ↦ err plain | some names ↦ ok names ]

-- What an implementation of `TenancyLogic` answers for the subject of one request.
pub record TenancyLogic : Type 0 where
  pub assignable_tenants : Result (Set String)
  pub default_tenant : Result String
  pub visible_tenants : Result (Set String)

unfoldable pub determine_assignable_tenants : Subject → Result (Set String)
determine_assignable_tenants subject =
    if empty subject.tenants then err plain else ok subject.tenants

-- `inclusions[0]`, the first in Go's unspecified iteration order.
abbrev first_of : Option (List String) → String
first_of none = ""
first_of (some []) = ""
first_of (some (tenant ∷ rest)) = tenant

unfoldable pub determine_default_tenant : Subject → Result String
unfolding determine_assignable_tenants
determine_default_tenant subject = do
  assignable ← determine_assignable_tenants subject
  if not (finite assignable) then ok shared_tenant else ok (first_of (inclusions assignable))

unfoldable pub determine_visible_tenants : Subject → Result (Set String)
determine_visible_tenants subject =
    if finite subject.tenants then ok (union shared_tenants subject.tenants) else ok subject.tenants

unfoldable pub default_tenancy_logic : Subject → TenancyLogic
default_tenancy_logic subject = record {
  assignable_tenants = determine_assignable_tenants subject;
  default_tenant = determine_default_tenant subject;
  visible_tenants = determine_visible_tenants subject;
}

unfoldable pub guest_tenancy_logic : TenancyLogic
guest_tenancy_logic = record {
  assignable_tenants = ok guest_tenants;
  default_tenant = ok "guest";
  visible_tenants = ok (union guest_tenants shared_tenants);
}

-- The user identifier resolver is optional; it answers with an error or an identifier.
unfoldable pub determine_assigned_creator : Option (String → Result String) → Subject → String
determine_assigned_creator none subject = subject.user
determine_assigned_creator (some resolver) subject = elim (resolver subject.user) [
  | err e ↦ subject.user
  | ok id ↦ if id == "" then subject.user else id
]

unfoldable pub system_assigned_creator : String
system_assigned_creator = "system"
