-- ===== src/Masks/Examples.antt =====
-- internal/masks: the theorems at a type of messages with a nested message, a list and a map.
use osac_fulfillment_service.Prelude.{
  eqb, ltb, Bool, true, false, ◌≡◌, refl, String, List, [], ◌∷◌, Option, none, some, if◌then◌else◌,
}
use osac_fulfillment_service.Prelude.Compare.{◌==◌, string_comparable}
use osac_fulfillment_service.Prelude.Int.{ℤ, pos}
use osac_fulfillment_service.Masks.{
  scalar_element, message_element, scalar_kind, message_kind, list_kind, map_kind, Field, Schema,
  Value, scalar, message, repeated, keyed, nil, item, Fields, end, slot, lookup, get_field, ◌>>=◌,
  done, panicked,
}
use osac_fulfillment_service.Masks.Paths.{field_step, list_index, get, set, item_at, count}
use osac_fulfillment_service.Masks.Calculator.{
  Equality, compare_messages, compare_fields, nested, compare_field, compare_presence,
  compare_values, compare_lists, compare_maps, compare_entries, map_length,
}
use osac_fulfillment_service.Masks.Merging.{merge_paths}
use osac_fulfillment_service.Masks.Differences.{Reflexive}
use osac_fulfillment_service.Masks.Cases.{Distinct}
use osac_fulfillment_service.Masks.Sameness.{SameMessage}
use osac_fulfillment_service.Masks.Convergence.{merge_paths-compare_messages}
use osac_fulfillment_service.Masks.Indexes.{get_index_lem}
use osac_fulfillment_service.Masks.Setting.{set_lem}

abbrev id_field : Field
id_field = record { name = "id"; kind = scalar_kind false "" }

abbrev spec_field : Field
spec_field = record { name = "spec"; kind = message_kind "Spec" }

abbrev tags_field : Field
tags_field = record { name = "tags"; kind = list_kind (scalar_element "") }

abbrev labels_field : Field
labels_field = record { name = "labels"; kind = map_kind (scalar_element "") }

abbrev items_field : Field
items_field = record { name = "items"; kind = list_kind (message_element "Spec") }

abbrev region_field : Field
region_field = record { name = "region"; kind = scalar_kind true "" }

abbrev spec_fields : List Field
spec_fields = id_field ∷ region_field ∷ []

abbrev object_fields : List Field
object_fields = id_field ∷ spec_field ∷ tags_field ∷ labels_field ∷ items_field ∷ []

abbrev schema : Schema
schema = record { fields = λ type_name. if type_name == "Spec" then spec_fields else object_fields }

schema-Distinct : (type_name : String) → Distinct (schema.fields type_name)
schema-Distinct type_name = by_test (type_name == "Spec")
  where
    by_test : (test : Bool) → Distinct (if test then spec_fields else object_fields)
    by_test true = ((refl, tt), (tt, tt))
    by_test false = (
      (refl, (refl, (refl, (refl, tt)))),
      ((refl, (refl, (refl, tt))), ((refl, (refl, tt)), ((refl, tt), (tt, tt)))),
    )

abbrev no_number : String → Option ℤ
no_number text = none

-- An equality that takes all values for equal but those of scalars.
abbrev same_scalars : Value → Value → Bool
same_scalars (scalar x) (scalar y) = x == y
same_scalars _ _ = true

abbrev equal : Equality
equal = record { messages = λ x y. true; values = same_scalars }

equal-Reflexive : Reflexive equal
equal-Reflexive = record { messages = λ m. refl; values = equals_itself }
  where
    equals_itself : (v : Value) → same_scalars v v ≡ true
    equals_itself (scalar text) = (string_comparable.same_iff text text).1 refl
    equals_itself (message fields) = refl
    equals_itself (repeated items) = refl
    equals_itself (keyed entries) = refl

abbrev before : Fields
before = slot "id" (scalar "o1") (
    slot "spec" (message (slot "id" (scalar "s1") (slot "region" (scalar "east") end)))
      (slot "tags" (repeated (item (scalar "a") nil)) end))

abbrev after : Fields
after = slot "id" (scalar "o1") (
    slot "spec" (message (slot "id" (scalar "s2") end))
      (slot "labels" (keyed (slot "k" (scalar "v") end)) end))

-- The mask of the two.
mask_of_update :
    compare_messages schema equal before after "Object"
    ≡ ("spec", "id" ∷ []) ∷ ("spec", "region" ∷ []) ∷ ("tags", []) ∷ ("labels", []) ∷ []
unfolding compare_messages compare_fields nested compare_field compare_presence compare_values
    compare_lists compare_maps compare_entries map_length lookup
mask_of_update = refl

merge_paths-compare_messages_example :
    (merged : Fields) × (merge_paths schema no_number "Object" after
        (compare_messages schema equal before after "Object")
        before
      ≡ done merged)
    × SameMessage schema equal merged after "Object"
merge_paths-compare_messages_example =
    merge_paths-compare_messages schema no_number equal equal-Reflexive schema-Distinct before after
      "Object"

set_lem_example :
    (changed : Fields) × (set
        (field_step spec_field ∷ field_step id_field ∷ [])
        (scalar "s3")
        before
      ≡ done changed)
    × (get (field_step spec_field ∷ field_step id_field ∷ []) (message changed)
        ≡ done (some (scalar "s3")))
    × (get (field_step tags_field ∷ []) (message changed)
        ≡ get (field_step tags_field ∷ []) (message before))
set_lem_example =
    set_lem (field_step spec_field) (field_step id_field ∷ []) (scalar "s3") before
      (field_step tags_field) [] refl refl refl

tags_present : get_field tags_field before ≡ some (repeated (item (scalar "a") nil))
unfolding lookup
tags_present = refl

get_index_lem_example : get (list_index tags_field (pos 1) ∷ []) (message before) ≡ (
    if eqb 1 (count (item (scalar "a") nil))
    then panicked
    else if ltb (count (item (scalar "a") nil)) 1
    then done none
    else (item_at (item (scalar "a") nil) 1 >>= λ found. done (some found)))
get_index_lem_example = get_index_lem tags_field 1 (item (scalar "a") nil) before tags_present
