-- ===== src/Masks/Calculator.antt =====
-- internal/masks/masks_calculator.go: Calculator.Calculate. A path is the pair of its first segment and
-- of those that follow; the Go code joins them by dots.
use osac_fulfillment_service.Prelude.{
  ℕ, ◌+◌, Bool, true, false, ◌&&◌, String, List, [], ◌∷◌, ◌++◌, map, Option, none, some, eqb,
  if◌then◌else◌,
}
use osac_fulfillment_service.Prelude.Compare.{◌==◌, string_comparable}
use osac_fulfillment_service.Masks.{
  Element, message_element, Kind, message_kind, list_kind, map_kind, Field, Schema, Value, message,
  repeated, keyed, Items, nil, item, Fields, end, slot, lookup, populated,
}

abbrev pub FieldPath : Type 0
FieldPath = String × List String

abbrev pub below : String → FieldPath → FieldPath
below name (first, rest) = (name, first ∷ rest)

abbrev pub items_of : Option Value → Items
items_of (some (repeated items)) = items
items_of _ = nil

abbrev pub entries_of : Option Value → Fields
entries_of (some (keyed entries)) = entries
entries_of _ = end

abbrev pub fields_of : Option Value → Fields
fields_of (some (message fields)) = fields
fields_of _ = end

-- The number of keys, each of which counts once.
unfoldable pub map_length : Fields → ℕ
map_length end = 0
map_length (slot key value rest) = elim (lookup key rest) [
  | none ↦ map_length rest + 1
  | some v ↦ map_length rest
]

-- `proto.Equal` and `protoreflect.Value.Equal`.
pub record Equality : Type 0 where
  pub messages : Fields → Fields → Bool
  pub values : Value → Value → Bool

module _ (schema : Schema) (equal : Equality) where
  -- One element of a list or a map.
  abbrev pub same_element : Element → Value → Value → Bool
  same_element (message_element type_name) (message x) (message y) = equal.messages x y
  same_element _ x y = equal.values x y

  unfoldable pub compare_lists : Element → Items → Items → Bool
  compare_lists element nil nil = true
  compare_lists element (item x xs) (item y ys) =
      same_element element x y && compare_lists element xs ys
  compare_lists element _ _ = false

  abbrev pub same_entry : Element → Option Value → Option Value → Bool
  same_entry element (some x) (some y) = same_element element x y
  same_entry element _ _ = false

  -- `Range` over the keys of the first map, with their values in it.
  unfoldable pub compare_entries : Element → (keys before after : Fields) → Bool
  compare_entries element end before after = true
  compare_entries element (slot key value keys) before after =
      same_entry element (lookup key before) (lookup key after)
      && compare_entries element keys before after

  unfoldable pub compare_maps : Element → Fields → Fields → Bool
  unfolding compare_entries
  compare_maps element before after =
      eqb (map_length before) (map_length after) && compare_entries element before before after

  abbrev pub here : String → Bool → List FieldPath
  here name true = []
  here name false = (name, []) ∷ []

  -- Values of a field that both messages have. The first argument compares the message that `after`
  -- has in the field, of the type, with that of `before`.
  unfoldable pub compare_values :
      (String → Fields → List FieldPath) → String → Kind → Value → Value → List FieldPath
  compare_values sub name (message_kind type_name) x y =
      map (below name) (sub type_name (fields_of (some x)))
  compare_values sub name _ x y = here name (equal.values x y)

  unfoldable pub compare_presence :
      (String → Fields → List FieldPath)
      → String
      → Kind
      → Option Value
      → Option Value
      → List FieldPath
  unfolding compare_values
  compare_presence sub name kind (some x) (some y) = compare_values sub name kind x y
  compare_presence sub name kind none none = []
  compare_presence sub name kind _ _ = (name, []) ∷ []

  unfoldable pub compare_field :
      (String → Fields → List FieldPath)
      → String
      → Kind
      → Option Value
      → Option Value
      → List FieldPath
  unfolding compare_maps compare_lists compare_presence
  compare_field sub name (map_kind element) before after =
      here name (compare_maps element (entries_of before) (entries_of after))
  compare_field sub name (list_kind element) before after =
      here name (compare_lists element (items_of before) (items_of after))
  compare_field sub name kind before after =
      compare_presence sub name kind (populated kind before) (populated kind after)

  unfoldable pub compare_fields :
      (String → String → Fields → List FieldPath) → List Field → Fields → Fields → List FieldPath
  unfolding compare_field
  compare_fields sub [] before after = []
  compare_fields sub (field ∷ fields) before after =
      compare_field (sub field.name) field.name field.kind (lookup field.name before)
        (lookup field.name after)
      ++ compare_fields sub fields before after

  -- The comparison of the message in a field of `after`, by recursion on `after`.
  unfoldable mutual
    pub nested : Fields → String → String → Fields → List FieldPath
    nested end name type_name before = []
    nested (slot n value rest) name type_name before =
        if n == name then nested_value value type_name before else nested rest name type_name before

    pub nested_value : Value → String → Fields → List FieldPath
    nested_value (message after) type_name before =
        compare_fields (nested after) (schema.fields type_name) before after
    nested_value _ type_name before = []

  unfoldable pub compare_messages : Fields → Fields → String → List FieldPath
  unfolding nested compare_fields
  compare_messages before after type_name =
      compare_fields (nested after) (schema.fields type_name) before after
