-- ===== src/Auth/Wire.antt =====
-- internal/auth/auth_subject.go: the tenants of a subject survive the JSON form.
use osac_fulfillment_service.Prelude.{
  Bool, true, false, ◌≡◌, ◌∙◌, ◌⊎◌, refl, String, List, [], ◌∷◌, arith,
}
use osac_fulfillment_service.Prelude.Compare.{string_comparable}
use osac_fulfillment_service.Errors.{ok}
use osac_fulfillment_service.Collections.{
  Set, new_set, new_universal_set, contains, universal, finite, inclusions,
}
use osac_fulfillment_service.Collections.Maps.{has_key, has_key-put_all}
use osac_fulfillment_service.Auth.{
  has_marker, universal_marker, unmarshal_tenants, marshal_tenants, all_tenants,
}

has_marker-has_key : (names : List String) → has_marker names ≡ has_key names universal_marker
unfolding has_marker has_key
has_marker-has_key [] = refl
has_marker-has_key (x ∷ xs) = ground (arith, has_marker-has_key xs)

-- A subject that is decoded has all tenants, or a finite set of tenants without the marker.
pub unmarshal_tenants_lem :
    (names : List String) (s : Set String)
    → unmarshal_tenants names ≡ ok s
    → (s ≡ all_tenants) ⊎ ((finite s ≡ true) × (contains s universal_marker ≡ false))
unfolding unmarshal_tenants contains new_set finite has_key
unmarshal_tenants_lem names s h =
    ground (arith, has_marker-has_key names, has_key-put_all names [] universal_marker)

has_marker-new_set :
    (names : List String)
    → contains (new_set names) universal_marker ≡ false
    → has_marker names ≡ false
unfolding contains new_set has_key
has_marker-new_set names h =
    ground (arith, has_marker-has_key names, has_key-put_all names [] universal_marker)

contains-again :
    (names : List String) (x : String)
    → contains (new_set names) x ≡ contains (record { infinite = false; items = names }) x
unfolding contains new_set has_key
contains-again names x = ground (arith, has_key-put_all names [] x)

round_trip :
    (infinite : Bool) (items names : List String)
    → let s : Set String = record { infinite = infinite; items = items } in
      (finite s ≡ true → contains s universal_marker ≡ false)
      → marshal_tenants s ≡ ok names
      → (t : Set String) × (unmarshal_tenants names ≡ ok t)
        × ((x : String) → contains t x ≡ contains s x)
unfolding unmarshal_tenants marshal_tenants universal inclusions finite
round_trip true [] names free h =
    let e : names ≡ universal_marker ∷ [] = ground arith in
    (
      all_tenants,
      rw e (unfold new_universal_set in refl),
      λ x. unfold new_universal_set contains has_key in refl,
    )
round_trip true (y ∷ ys) names free h = absurd (ground arith)
round_trip false items names free h =
    let e : names ≡ items = ground arith in
    let plain_names : has_marker items ≡ false =
      has_marker-new_set items (contains-again items universal_marker ∙ free refl) in
    (new_set items, rw (e, plain_names), contains-again items)

-- Encoding a set of tenants and decoding the list gives a set with the same members, whenever
-- encoding succeeds and a finite set does not hold the marker.
pub unmarshal-marshal :
    (s : Set String) (names : List String)
    → (finite s ≡ true → contains s universal_marker ≡ false)
    → marshal_tenants s ≡ ok names
    → (t : Set String) × (unmarshal_tenants names ≡ ok t)
      × ((x : String) → contains t x ≡ contains s x)
unmarshal-marshal s names free h = round_trip s.infinite s.items names free h
