-- ===== src/Servers/Examples.antt =====
-- internal/servers/generic_server.go: the theorems on assigned tenants at a concrete subject.
use osac_fulfillment_service.Prelude.{true, false, ◌≡◌, ◌≢◌, refl, String, [], ◌∷◌}
use osac_fulfillment_service.Prelude.Compare.{string_comparable}
use osac_fulfillment_service.Prelude.Compare.{texts_differ}
use osac_fulfillment_service.Errors.{ok}
use osac_fulfillment_service.Collections.{Set, contains, empty, finite, inclusions, union, new_set}
use osac_fulfillment_service.Collections.Maps.{has_key, put_all, put_key, union_maps}
use osac_fulfillment_service.Auth.{
  Subject, default_tenancy_logic, determine_visible_tenants, determine_assignable_tenants,
  determine_default_tenant,
}
use osac_fulfillment_service.Servers.Tenants.{determine_assigned_tenant}

abbrev two_tenants : Set String
two_tenants = record { infinite = false; items = "acme" ∷ "globex" ∷ [] }

abbrev bob : Subject
bob = record { user = "bob"; tenants = two_tenants }

abbrev globex : String
globex = "globex"

named : globex ≢ ""
named = texts_differ globex "" refl

assigned : determine_assigned_tenant (default_tenancy_logic bob) "globex" "globex" ≡ ok "globex"
unfolding determine_assigned_tenant default_tenancy_logic determine_visible_tenants
    determine_assignable_tenants determine_default_tenant empty finite inclusions contains union
    new_set has_key put_all put_key union_maps
assigned = refl

is_finite : finite two_tenants ≡ true
unfolding finite
is_finite = refl
