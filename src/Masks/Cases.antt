-- ===== src/Masks/Cases.antt =====
-- internal/masks/masks_calculator.go: how one field of two messages can differ.
use osac_fulfillment_service.Prelude.{
  Bool, false, ◌≡◌, refl, ◌⊎◌, inl, inr, String, List, [], ◌∷◌, map, Option, none, some, All,
  Bool-cases, Option-cases, arith, eq_refl,
}
use osac_fulfillment_service.Prelude.Compare.{◌==◌, string_comparable}
use osac_fulfillment_service.Masks.{
  Element, Kind, scalar_kind, message_kind, list_kind, map_kind, Field, Schema, Value, scalar,
  message, repeated, keyed, nil, item, Fields, end, slot, populated,
}
use osac_fulfillment_service.Masks.Compiler.{by_name}
use osac_fulfillment_service.Masks.Calculator.{
  Equality, FieldPath, below, items_of, entries_of, compare_lists, compare_maps, compare_entries,
  map_length, compare_field, compare_presence,
}

-- The fields of a type have different names, as the language of protocol definitions demands.
abbrev pub Distinct : List Field → Type 0
Distinct [] = Unit
Distinct (field ∷ fields) =
    All (λ (other : Field). (field.name == other.name) ≡ false) fields × Distinct fields

abbrev pub Listed : List Field → List Field → Type 0
Listed known fields = All (λ (field : Field). by_name field.name known ≡ some field) fields

behind :
    (field : Field) (known fields : List Field)
    → All (λ (other : Field). (field.name == other.name) ≡ false) fields
    → Listed known fields
    → Listed (field ∷ known) fields
unfolding by_name
behind field known [] differ listed = tt
behind field known (g ∷ fields) (d, differ) (l, listed) =
    (rw d l, behind field known fields differ listed)

pub Distinct-Listed : (fields : List Field) → Distinct fields → Listed fields fields
unfolding by_name
Distinct-Listed [] distinct = tt
Distinct-Listed (field ∷ fields) (differ, distinct) =
    (rw (eq_refl field.name), behind field fields fields differ (Distinct-Listed fields distinct))

-- A value that a field has is the one that stands in its slot.
pub populated-lookup :
    (kind : Kind) (o : Option Value) (v : Value) → populated kind o ≡ some v → o ≡ some v
populated-lookup kind none v h = cc
populated-lookup kind (some w) v h = ground arith

module _ (schema : Schema) (equal : Equality) where
  unpopulated_items :
      (element : Element) (o : Option Value)
      → populated (list_kind element) o ≡ none
      → items_of o ≡ nil
  unpopulated_items element none h = refl
  unpopulated_items element (some (repeated nil)) h = refl
  unpopulated_items element (some (repeated (item v items))) h = cc
  unpopulated_items element (some (scalar v)) h = refl
  unpopulated_items element (some (message v)) h = refl
  unpopulated_items element (some (keyed v)) h = refl

  unpopulated_entries :
      (element : Element) (o : Option Value)
      → populated (map_kind element) o ≡ none
      → entries_of o ≡ end
  unpopulated_entries element none h = refl
  unpopulated_entries element (some (keyed end)) h = refl
  unpopulated_entries element (some (keyed (slot k v entries))) h = cc
  unpopulated_entries element (some (scalar v)) h = refl
  unpopulated_entries element (some (message v)) h = refl
  unpopulated_entries element (some (repeated v)) h = refl

  -- A field that neither message has does not differ.
  pub compare_field-unpopulated :
      (sub : String → Fields → List FieldPath) (name : String) (kind : Kind) (o p : Option Value)
      → populated kind o ≡ none
      → populated kind p ≡ none
      → compare_field schema equal sub name kind o p ≡ []
  unfolding compare_field compare_lists compare_maps compare_entries map_length
  compare_field-unpopulated sub name (scalar_kind tracked z) o p h k = rw (h, k)
  compare_field-unpopulated sub name (message_kind t) o p h k = rw (h, k)
  compare_field-unpopulated sub name (list_kind element) o p h k =
      rw (unpopulated_items element o h, unpopulated_items element p k)
  compare_field-unpopulated sub name (map_kind element) o p h k =
      rw (unpopulated_entries element o h, unpopulated_entries element p k)

  -- The differences of a field are none, the field itself, or those of its messages.
  abbrev pub Differences :
      (String → Fields → List FieldPath) → String → Kind → Option Value → Option Value → Type 0
  Differences sub name kind o p =
      (compare_field schema equal sub name kind o p ≡ [])
      ⊎ ((compare_field schema equal sub name kind o p ≡ (name, []) ∷ [])
          ⊎ ((type_name : String) × (x y : Fields) × (kind ≡ message_kind type_name)
              × (o ≡ some (message x))
              × (p ≡ some (message y))
              × (compare_field schema equal sub name kind o p
                  ≡ map (below name) (sub type_name x))))

  scalar_differences :
      (sub : String → Fields → List FieldPath) (name : String) (tracked : Bool) (z : String)
      (o p : Option Value)
      → (compare_presence schema equal sub name (scalar_kind tracked z) o p ≡ [])
        ⊎ (compare_presence schema equal sub name (scalar_kind tracked z) o p ≡ (name, []) ∷ [])
  unfolding compare_presence
  scalar_differences sub name tracked z none none = inl refl
  scalar_differences sub name tracked z (some x) none = inr refl
  scalar_differences sub name tracked z none (some y) = inr refl
  scalar_differences sub name tracked z (some x) (some y) = elim (Bool-cases (equal.values x y)) [
    | inl same ↦ inl (rw same)
    | inr differ ↦ inr (rw differ)
  ]

  pub message-populated :
      (t : String) (o : Option Value) (v : Value)
      → populated (message_kind t) o ≡ some v
      → (x : Fields) × (o ≡ some (message x)) × (v ≡ message x)
  message-populated t none v h = absurd (cc)
  message-populated t (some (message x)) v h = (x, refl, cc)
  message-populated t (some (scalar x)) v h = absurd (cc)
  message-populated t (some (repeated x)) v h = absurd (cc)
  message-populated t (some (keyed x)) v h = absurd (cc)

  pub differences :
      (sub : String → Fields → List FieldPath) (name : String) (kind : Kind) (o p : Option Value)
      → Differences sub name kind o p
  unfolding compare_field
  differences sub name (map_kind element) o p =
      elim (Bool-cases (compare_maps schema equal element (entries_of o) (entries_of p))) [
        | inl same ↦ inl (rw same)
        | inr differ ↦ inr (inl (rw differ))
      ]
  differences sub name (list_kind element) o p =
      elim (Bool-cases (compare_lists schema equal element (items_of o) (items_of p))) [
        | inl same ↦ inl (rw same)
        | inr differ ↦ inr (inl (rw differ))
      ]
  differences sub name (scalar_kind tracked z) o p =
      elim (scalar_differences sub name tracked z (populated (scalar_kind tracked z) o)
        (populated (scalar_kind tracked z) p)) [
          | inl same ↦ inl same
          | inr differ ↦ inr (inl differ)
        ]
  differences sub name (message_kind t) o p = elim (Option-cases (populated (message_kind t) o)) [
    | inl no_o ↦ elim (Option-cases (populated (message_kind t) p)) [
      | inl no_p ↦ inl (rw (no_o, no_p))
      | inr (w, is_p) ↦ inr (inl (rw (no_o, is_p)))
    ]
    | inr (v, is_o) ↦ elim (Option-cases (populated (message_kind t) p)) [
      | inl no_p ↦ inr (inl (rw (is_o, no_p)))
      | inr (w, is_p) ↦
          let (x, at_o, e) = message-populated t o v is_o in
          let (y, at_p, f) = message-populated t p w is_p in
          inr (inr (t, x, y, refl, at_o, at_p, rw (at_o, at_p)))
    ]
  ]
