-- ===== src/Masks/Paths.antt =====
-- internal/masks/mask_path.go: Path, with Get, Set and Clear. What the Go code changes in place is
-- returned. A nil message, which all three leave alone, is left out.
use osac_fulfillment_service.Prelude.{
  ℕ, zero, suc, ◌-◌, Bool, false, String, List, [], ◌∷◌, Option, none, some, ltb, if◌then◌else◌,
}
use osac_fulfillment_service.Prelude.Int.{ℤ, pos, negsuc}
use osac_fulfillment_service.Masks.{
  Element, message_kind, list_kind, map_kind, scalar_kind, Kind, Field, Value, message, repeated,
  keyed, Items, nil, item, Fields, lookup, put, remove, get_field, new_element, new_field, Outcome,
  done, panicked, ◌>>=◌,
}

-- One step: a field, an item of a list, or an entry of a map.
pub data PathStep : Type 0 where
  field_step : Field → PathStep
  list_index : Field → ℤ → PathStep
  map_key : Field → String → PathStep

abbrev pub field_of : PathStep → Field
field_of (field_step field) = field
field_of (list_index field index) = field
field_of (map_key field key) = field

abbrev pub count : Items → ℕ
count nil = 0
count (item value items) = suc (count items)

-- `Value.Message`, `Value.List` and `Value.Map`, which panic for another kind.
abbrev pub as_message : Value → Outcome Fields
as_message (message fields) = done fields
as_message _ = panicked

abbrev pub as_list : Value → Outcome Items
as_list (repeated items) = done items
as_list _ = panicked

abbrev pub as_map : Value → Outcome Fields
as_map (keyed entries) = done entries
as_map _ = panicked

-- `List.Get` and `List.Set`, which panic out of range.
unfoldable pub item_at : Items → ℕ → Outcome Value
item_at nil i = panicked
item_at (item value items) zero = done value
item_at (item value items) (suc i) = item_at items i

abbrev pub get_item : Items → ℤ → Outcome Value
get_item items (pos i) = item_at items i
get_item items (negsuc i) = panicked

unfoldable pub replace_at : Items → ℕ → Value → Outcome Items
replace_at nil i new = panicked
replace_at (item value items) zero new = done (item new items)
replace_at (item value items) (suc i) new =
    replace_at items i new >>= λ rest. done (item value rest)

abbrev pub set_item : Items → ℤ → Value → Outcome Items
set_item items (pos i) new = replace_at items i new
set_item items (negsuc i) new = panicked

-- `listItems.Len() < currentStep.index`
abbrev pub shorter : Items → ℤ → Bool
shorter items (pos i) = ltb (count items) i
shorter items (negsuc i) = false

-- The value that a step leads to, from that of its field.
unfoldable pub get_step : PathStep → Value → Outcome (Option Value)
get_step (field_step field) value = done (some value)
get_step (list_index field index) value = do
  items ← as_list value
  if shorter items index then done none else get_item items index >>= λ found. done (some found)
get_step (map_key field key) value = as_map value >>= λ entries. done (lookup key entries)

abbrev pub or_missing : Option Value → (Value → Outcome (Option Value)) → Outcome (Option Value)
or_missing none next = done none
or_missing (some value) next = next value

unfoldable pub get : List PathStep → Value → Outcome (Option Value)
get [] value = done (some value)
get (step ∷ steps) value = do
  fields ← as_message value
  or_missing (get_field (field_of step) fields)
      (λ current. get_step step current >>= λ found. or_missing found (get steps))

abbrev pub current_or_new : Option Value → Kind → Value
current_or_new none kind = new_field kind
current_or_new (some value) kind = value

abbrev pub element_of : Kind → Element
element_of (list_kind element) = element
element_of (map_kind element) = element
element_of (message_kind type_name) = Element.message_element type_name
element_of (scalar_kind tracked zero_value) = Element.scalar_element zero_value

-- `for listItems.Len() <= index { listItems.Append(listItems.NewElement()) }`, from the rounds left.
unfoldable pub append_new : ℕ → Value → Items → Items
append_new zero new items = items
append_new (suc n) new nil = item new (append_new n new nil)
append_new (suc n) new (item value items) = item value (append_new (suc n) new items)

abbrev pub grow : Items → ℤ → Value → Items
grow items (pos i) new = append_new (suc i - count items) new items
grow items (negsuc i) new = items

-- The last step, which writes the value.
unfoldable pub set_last : PathStep → Value → Value → Fields → Outcome Fields
set_last (field_step field) current value fields = done (put field.name value fields)
set_last (list_index field index) current value fields = do
  items ← as_list current
  changed ← set_item (grow items index (new_element (element_of field.kind))) index value
  done (put field.name (repeated changed) fields)
set_last (map_key field key) current value fields = do
  entries ← as_map current
  done (put field.name (keyed (put key value entries)) fields)

-- The value from which the next step goes on, and how what becomes of it is put back.
unfoldable pub descend : PathStep → Value → Fields → Outcome (Value × (Value → Fields))
descend (field_step field) current fields = done (current, λ v. put field.name v fields)
descend (list_index field index) current fields = do
  items ← as_list current
  let grown = repeated (grow items index (new_element (element_of field.kind)))
  done (grown, λ v. put field.name v fields)
descend (map_key field key) current fields = do
  entries ← as_map current
  done (new_element (element_of field.kind), λ v. put field.name (keyed (put key v entries)) fields)

unfoldable pub set : List PathStep → Value → Fields → Outcome Fields
set [] value fields = done fields
set (step ∷ []) value fields =
    let current = current_or_new (get_field (field_of step) fields) (field_of step).kind in
    set_last step current value fields
set (step ∷ next ∷ steps) value fields = do
  let current = current_or_new (get_field (field_of step) fields) (field_of step).kind
  (below, back) ← descend step current fields
  inner ← as_message below
  changed ← set (next ∷ steps) value inner
  done (back (message changed))

-- `Clear` at the last step.
unfoldable pub clear_last : PathStep → Value → Fields → Outcome Fields
clear_last (field_step field) current fields = done (remove field.name fields)
clear_last (list_index field index) current fields = do
  items ← as_list current
  if shorter items index
      then done fields
      else set_item items index (new_element (element_of field.kind)) >>= λ changed.
          done (put field.name (repeated changed) fields)
clear_last (map_key field key) current fields = do
  entries ← as_map current
  done (put field.name (keyed (remove key entries)) fields)

-- `Value.Message` of what `Map.Get` answers for a key that is missing panics too.
abbrev pub or_panic : Option Value → Outcome Value
or_panic none = panicked
or_panic (some value) = done value

-- Where `Clear` goes on, if it does.
unfoldable pub enter :
    PathStep → Value → Fields → Outcome (Option (Value × (Value → Outcome Fields)))
enter (field_step field) current fields = done (some (current, λ v. done (put field.name v fields)))
enter (list_index field index) current fields = do
  items ← as_list current
  if shorter items index
      then done none
      else get_item items index >>= λ found. done (
          some (
            found,
            λ v. set_item items index v >>= λ changed.
                done (put field.name (repeated changed) fields),
          ))
enter (map_key field key) current fields = do
  entries ← as_map current
  found ← or_panic (lookup key entries)
  done (some (found, λ v. done (put field.name (keyed (put key v entries)) fields)))

unfoldable pub clear : List PathStep → Fields → Outcome Fields
clear [] fields = done fields
clear (step ∷ []) fields = elim (get_field (field_of step) fields) [
  | none ↦ done fields
  | some current ↦ clear_last step current fields
]
clear (step ∷ next ∷ steps) fields = elim (get_field (field_of step) fields) [
  | none ↦ done fields
  | some current ↦ enter step current fields >>= λ below. elim below [
    | none ↦ done fields
    | some (value, back) ↦ do
      inner ← as_message value
      changed ← clear (next ∷ steps) inner
      back (message changed)
  ]
]
