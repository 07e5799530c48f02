-- ===== src/Auth/Examples.antt =====
-- internal/auth: the theorems at concrete subjects.
use osac_fulfillment_service.Prelude.{true, false, ◌≡◌, refl, String, [], ◌∷◌}
use osac_fulfillment_service.Prelude.Compare.{string_comparable}
use osac_fulfillment_service.Errors.{ok}
use osac_fulfillment_service.Collections.{
  Set, new_set, contains, universal, finite, inclusions, empty,
}
use osac_fulfillment_service.Collections.Maps.{has_key, put_all, put_key}
use osac_fulfillment_service.Auth.{
  Subject, has_marker, universal_marker, unmarshal_tenants, marshal_tenants,
  determine_default_tenant, determine_assignable_tenants,
}
use osac_fulfillment_service.Auth.Wire.{unmarshal-marshal}

abbrev acme : Set String
acme = record { infinite = false; items = "acme" ∷ [] }

abbrev alice : Subject
alice = record { user = "alice"; tenants = acme }

decoded : unmarshal_tenants ("acme" ∷ []) ≡ ok acme
unfolding unmarshal_tenants has_marker new_set put_all put_key has_key
decoded = refl

no_marker : finite acme ≡ true → contains acme universal_marker ≡ false
unfolding contains has_key
no_marker h = refl

encoded : marshal_tenants acme ≡ ok ("acme" ∷ [])
unfolding marshal_tenants universal inclusions
encoded = refl

unmarshal-marshal_example :
    (t : Set String) × (unmarshal_tenants ("acme" ∷ []) ≡ ok t)
    × ((x : String) → contains t x ≡ contains acme x)
unmarshal-marshal_example = unmarshal-marshal acme ("acme" ∷ []) no_marker encoded

is_finite : finite acme ≡ true
unfolding finite
is_finite = refl

default_of_alice : determine_default_tenant alice ≡ ok "acme"
unfolding determine_default_tenant determine_assignable_tenants empty finite inclusions
default_of_alice = refl
