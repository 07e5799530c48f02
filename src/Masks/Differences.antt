-- ===== src/Masks/Differences.antt =====
-- internal/masks/masks_calculator.go: a message does not differ from itself.
use osac_fulfillment_service.Prelude.{
  true, ◌≡◌, refl, ◌∙◌, String, List, [], ◌∷◌, Option, none, some, Bool-cases, inl, inr, eqb_iff,
  arith, eq_iff,
}
use osac_fulfillment_service.Prelude.Compare.{◌==◌, string_comparable}
use osac_fulfillment_service.Masks.{
  Element, scalar_element, message_element, Kind, scalar_kind, message_kind, list_kind, map_kind,
  Field, Schema, Value, scalar, message, repeated, keyed, Items, nil, item, Fields, end, slot,
  lookup,
}
use osac_fulfillment_service.Masks.Slots.{message_induction}
use osac_fulfillment_service.Masks.Calculator.{
  Equality, FieldPath, items_of, entries_of, map_length, same_element, compare_lists,
  compare_entries, compare_maps, compare_field, compare_fields, nested, compare_messages,
}

-- What is documented of both: a value equals itself.
pub record Reflexive (equal : Equality) : Type 0 where
  pub messages : (m : Fields) → equal.messages m m ≡ true
  pub values : (v : Value) → equal.values v v ≡ true

module _ (schema : Schema) (equal : Equality) where
  at_slot :
      (n : String) (v : Value) (rest : Fields) (name : String) (m : Fields)
      → lookup name (slot n v rest) ≡ some (message m)
      → (n == name) ≡ true
      → (type_name : String) (before : Fields)
      → nested schema equal (slot n v rest) name type_name before
        ≡ compare_messages schema equal before m type_name
  unfolding lookup nested compare_messages
  at_slot n (message x) rest name m found same type_name before =
      let e : x ≡ m = (let f = rw same at found in cc) in rw (same, e)
  at_slot n (scalar x) rest name m found same type_name before = ground arith
  at_slot n (repeated x) rest name m found same type_name before = ground arith
  at_slot n (keyed x) rest name m found same type_name before = ground arith

  -- Where a field holds a message, its comparison is that of the message.
  pub nested-message :
      (after : Fields) (name : String) (m : Fields)
      → lookup name after ≡ some (message m)
      → (type_name : String) (before : Fields)
      → nested schema equal after name type_name before
        ≡ compare_messages schema equal before m type_name
  unfolding lookup nested compare_messages
  nested-message end name m found type_name before = cc
  nested-message (slot n v rest) name m found type_name before = elim (Bool-cases (n == name)) [
    | inl same ↦ at_slot n v rest name m found same type_name before
    | inr differ ↦ rw differ (nested-message rest name m (rw differ at found) type_name before)
  ]

module _ (schema : Schema) (equal : Equality) (reflexive : Reflexive equal) where
  same_element_refl : (element : Element) (v : Value) → same_element schema equal element v v ≡ true
  same_element_refl (scalar_element z) v = reflexive.values v
  same_element_refl (message_element t) (message m) = reflexive.messages m
  same_element_refl (message_element t) (scalar m) = reflexive.values _
  same_element_refl (message_element t) (repeated m) = reflexive.values _
  same_element_refl (message_element t) (keyed m) = reflexive.values _

  compare_lists_refl :
      (element : Element) (items : Items) → compare_lists schema equal element items items ≡ true
  unfolding compare_lists
  compare_lists_refl element nil = refl
  compare_lists_refl element (item v items) =
      rw (same_element_refl element v) (compare_lists_refl element items)

  compare_entries_refl :
      (element : Element) (keys before : Fields)
      → ((key : String) (v : Value)
          → lookup key keys ≡ some v
          → (w : Value) × (lookup key before ≡ some w))
      → compare_entries schema equal element keys before before ≡ true
  unfolding compare_entries lookup
  compare_entries_refl element end before present = refl
  compare_entries_refl element (slot key value keys) before present =
      let (w, found) = present key value (ground (arith, eq_iff key key)) in
      let head = same_element_refl element w in
      let rest = compare_entries_refl element keys before λ k v h. elim (Bool-cases (key == k)) [
        | inl same ↦ present k value (rw same)
        | inr differ ↦ present k v (rw differ h)
      ] in
      rw (found, head, rest)

  compare_maps_refl :
      (element : Element) (entries : Fields)
      → compare_maps schema equal element entries entries ≡ true
  unfolding compare_maps
  compare_maps_refl element entries = rw (
    compare_entries_refl element entries entries (λ k v h. (v, h)),
    (eqb_iff (map_length entries) (map_length entries)).1 refl,
  )

  -- A field whose value is compared with itself.
  pub compare_field_refl :
      (sub : String → Fields → List FieldPath) (name : String) (kind : Kind) (o : Option Value)
      → ((type_name : String) (m : Fields) → o ≡ some (message m) → sub type_name m ≡ [])
      → compare_field schema equal sub name kind o o ≡ []
  unfolding compare_field
  compare_field_refl sub name (map_kind element) o inner =
      rw (compare_maps_refl element (entries_of o))
  compare_field_refl sub name (list_kind element) o inner =
      rw (compare_lists_refl element (items_of o))
  compare_field_refl sub name (scalar_kind tracked z) none inner = refl
  compare_field_refl sub name (scalar_kind tracked z) (some v) inner =
      ground (arith, reflexive.values v)
  compare_field_refl sub name (message_kind t) none inner = refl
  compare_field_refl sub name (message_kind t) (some (message m)) inner = rw (inner t m refl)
  compare_field_refl sub name (message_kind t) (some (scalar m)) inner = refl
  compare_field_refl sub name (message_kind t) (some (repeated m)) inner = refl
  compare_field_refl sub name (message_kind t) (some (keyed m)) inner = refl

  compare_fields_refl :
      (fields : List Field) (m : Fields)
      → ((name : String) (x : Fields)
          → lookup name m ≡ some (message x)
          → (t : String) → compare_messages schema equal x x t ≡ [])
      → compare_fields schema equal (nested schema equal m) fields m m ≡ []
  unfolding compare_fields
  compare_fields_refl [] m inner = refl
  compare_fields_refl (field ∷ fields) m inner =
      let head =
        compare_field_refl (nested schema equal m field.name) field.name field.kind
          (lookup field.name m)
          λ t x found.
            nested-message schema equal m field.name x found t x ∙ inner field.name x found t in
      rw (head, compare_fields_refl fields m inner)

  pub compare_messages_refl :
      (m : Fields) (type_name : String) → compare_messages schema equal m m type_name ≡ []
  unfolding compare_messages
  compare_messages_refl m =
      message_induction (λ x. (t : String) → compare_messages schema equal x x t ≡ [])
        (λ x inner t. compare_fields_refl (schema.fields t) x inner) m
