-- ===== src/Masks/Laws.antt =====
-- internal/masks/mask_path.go: what Get answers after Set and Clear.
use osac_fulfillment_service.Prelude.{
  and_true, ℕ, zero, suc, Bool, true, false, ◌&&◌, ◌≡◌, refl, ◌∙◌, inl, inr, String, List, [], ◌∷◌,
  Option, some, Bool-cases, arith, ◌<◌,
}
use osac_fulfillment_service.Prelude.Compare.{◌==◌, string_comparable}
use osac_fulfillment_service.Prelude.Int.{ℤ, pos, negsuc}
use osac_fulfillment_service.Masks.{
  Kind, scalar_kind, message_kind, list_kind, map_kind, Field, Value, scalar, message, repeated,
  keyed, Items, nil, item, Fields, end, slot, put, populated, is_populated, get_field, new_element,
  done, panicked, ◌>>=◌,
}
use osac_fulfillment_service.Masks.Paths.{
  PathStep, field_step, list_index, map_key, field_of, count, as_message, as_list, as_map, item_at,
  get_item, replace_at, set_item, shorter, get_step, get, current_or_new, element_of, grow,
  set_last, descend, set,
}
use osac_fulfillment_service.Masks.Slots.{lookup-put_self}
use osac_fulfillment_service.Masks.Nesting.{>>=-done}

-- A step whose kind is that of its field, as `Compile` makes them.
abbrev pub is_list : Kind → Bool
is_list (list_kind element) = true
is_list _ = false

abbrev pub is_map : Kind → Bool
is_map (map_kind element) = true
is_map _ = false

abbrev pub step_fits : PathStep → Bool
step_fits (field_step field) = true
step_fits (list_index field index) = is_list field.kind
step_fits (map_key field key) = is_map field.kind

-- The value is one that the last step's field has once it is set.
abbrev pub value_fits : PathStep → Value → Bool
value_fits (field_step field) value = is_populated field.kind value
value_fits _ value = true

abbrev pub fits : List PathStep → Value → Bool
fits [] value = false
fits (step ∷ []) value = step_fits step && value_fits step value
fits (step ∷ next ∷ steps) value = step_fits step && fits (next ∷ steps) value

pub replaced-item_at :
    (items changed : Items) (i : ℕ) (value : Value)
    → replace_at items i value ≡ done changed
    → item_at changed i ≡ done value
unfolding replace_at item_at
replaced-item_at nil changed i value h = absurd (cc)
replaced-item_at (item v items) changed zero value h =
    let e : item value items ≡ changed = cc in rw (← e)
replaced-item_at (item v items) changed (suc i) value h =
    let (rest, replaced, is) = >>=-done (replace_at items i value) _ h in
    let e : item v rest ≡ changed = cc in rw (← e) (replaced-item_at items rest i value replaced)

pub item_at-in_range :
    (items : Items) (i : ℕ) (value : Value) → item_at items i ≡ done value → i < count items
unfolding item_at
item_at-in_range nil i value h = absurd (cc)
item_at-in_range (item v items) zero value h = omega arith
item_at-in_range (item v items) (suc i) value h = omega (arith, item_at-in_range items i value h)

not_shorter :
    (items : Items) (index : ℤ) (value : Value)
    → get_item items index ≡ done value
    → shorter items index ≡ false
not_shorter items (pos i) value h = ground (arith, item_at-in_range items i value h)
not_shorter items (negsuc i) value h = refl

populated_list :
    (kind : Kind) (items : Items) (index : ℤ) (value : Value)
    → is_list kind ≡ true
    → get_item items index ≡ done value
    → populated kind (some (repeated items)) ≡ some (repeated items)
unfolding item_at
populated_list (list_kind element) (item v items) index value l h = refl
populated_list (list_kind element) nil (pos i) value l h = absurd (cc)
populated_list (list_kind element) nil (negsuc i) value l h = absurd (cc)
populated_list (map_kind element) items index value l h = absurd (cc)
populated_list (scalar_kind tracked z) items index value l h = absurd (cc)
populated_list (message_kind t) items index value l h = absurd (cc)

populated_map :
    (kind : Kind) (key : String) (value : Value) (entries : Fields)
    → is_map kind ≡ true
    → populated kind (some (keyed (put key value entries))) ≡ some (keyed (put key value entries))
unfolding put
populated_map (map_kind element) key value end m = refl
populated_map (map_kind element) key value (slot k v entries) m = elim (Bool-cases (k == key)) [
  | inl same ↦ rw same
  | inr differ ↦ rw differ
]
populated_map (list_kind element) key value entries m = absurd (cc)
populated_map (scalar_kind tracked z) key value entries m = absurd (cc)
populated_map (message_kind t) key value entries m = absurd (cc)

-- A step that finds its value goes on from it.
pub get-cons :
    (step : PathStep) (steps : List PathStep) (fields : Fields) (current next : Value)
    → get_field (field_of step) fields ≡ some current
    → get_step step current ≡ done (some next)
    → get (step ∷ steps) (message fields) ≡ get steps next
unfolding get
get-cons step steps fields current next has found = rw (has, found)

-- What a field has once a value is put there.
get_field-put :
    (field : Field) (value : Value) (fields : Fields)
    → populated field.kind (some value) ≡ some value
    → get_field field (put field.name value fields) ≡ some value
get_field-put field value fields h = rw (lookup-put_self field.name value fields) h

get-field :
    (field : Field) (value : Value) (fields : Fields) (steps : List PathStep)
    → populated field.kind (some value) ≡ some value
    → get (field_step field ∷ steps) (message (put field.name value fields)) ≡ get steps value
unfolding get_step
get-field field value fields steps kept =
    get-cons (field_step field) steps _ value value (get_field-put field value fields kept) refl

get-list :
    (field : Field) (index : ℤ) (items : Items) (fields : Fields) (value : Value)
    → is_list field.kind ≡ true
    → get_item items index ≡ done value
    → get (list_index field index ∷ []) (message (put field.name (repeated items) fields))
      ≡ done (some value)
unfolding get_step get
get-list field index items fields value l h =
    get-cons (list_index field index) [] _ (repeated items) value
      (get_field-put field (repeated items) fields
        (populated_list field.kind items index value l h))
      (rw (not_shorter items index value h, h))

replaced-get_item :
    (items changed : Items) (index : ℤ) (value : Value)
    → set_item items index value ≡ done changed
    → get_item changed index ≡ done value
replaced-get_item items changed (pos i) value h = replaced-item_at items changed i value h
replaced-get_item items changed (negsuc i) value h = absurd (cc)

-- A map step finds what is put under its key.
get-map :
    (field : Field) (key : String) (entries fields : Fields) (value : Value) (steps : List PathStep)
    → is_map field.kind ≡ true
    → get
        (map_key field key ∷ steps)
        (message (put field.name (keyed (put key value entries)) fields))
      ≡ get steps value
unfolding get_step
get-map field key entries fields value steps m =
    get-cons (map_key field key) steps _ (keyed (put key value entries)) value
      (get_field-put field _ fields (populated_map field.kind key value entries m))
      (rw (lookup-put_self key value entries))

get-set_last :
    (step : PathStep) (current value : Value) (fields changed : Fields)
    → step_fits step ≡ true
    → value_fits step value ≡ true
    → set_last step current value fields ≡ done changed
    → get (step ∷ []) (message changed) ≡ done (some value)
unfolding set_last get
get-set_last (field_step field) current value fields changed k v h =
    let e : put field.name value fields ≡ changed = cc in
    let kept : populated field.kind (some value) ≡ some value = rw v in
    rw (← e) (get-field field value fields [] kept)
get-set_last (list_index field index) current value fields changed k v h =
    let (items, is_list', h') = >>=-done (as_list current) _ h in
    let (after, replaced, h'') =
      >>=-done (set_item (grow items index (new_element (element_of field.kind))) index value) _
        h' in
    let e : put field.name (repeated after) fields ≡ changed = cc in
    rw (← e)
      (get-list field index after fields value k (replaced-get_item _ after index value replaced))
get-set_last (map_key field key) current value fields changed k v h =
    let (entries, is_map', h') = >>=-done (as_map current) _ h in
    let e : put field.name (keyed (put key value entries)) fields ≡ changed = cc in
    rw (← e) (get-map field key entries fields value [] k)

-- Where the value of a field, or its new value, is a message, the field has messages.
message_field :
    (kind : Kind) (o : Option Value) (inner x : Fields)
    → as_message (current_or_new (populated kind o) kind) ≡ done inner
    → populated kind (some (message x)) ≡ some (message x)
message_field (message_kind t) o inner x h = refl
message_field (scalar_kind tracked z) o inner x h = absurd (ground arith)
message_field (list_kind element) o inner x h = absurd (ground arith)
message_field (map_kind element) o inner x h = absurd (ground arith)

through_list :
    (field : Field) (index : ℤ) (next : PathStep) (steps : List PathStep) (value current : Value)
    (fields : Fields)
    → (descend (list_index field index) current fields >>= λ found. as_message found.0 >>= λ inner.
        set (next ∷ steps) value inner >>= λ changed. done (found.1 (message changed)))
      ≡ panicked
unfolding descend
through_list field index next steps value (scalar text) fields = refl
through_list field index next steps value (message inner) fields = refl
through_list field index next steps value (repeated items) fields = refl
through_list field index next steps value (keyed entries) fields = refl

-- `Set` panics at every path that goes on behind the index of a list, whatever the message, the
-- index and the value are.
pub set-through_list :
    (field : Field) (index : ℤ) (next : PathStep) (steps : List PathStep) (value : Value)
    (fields : Fields)
    → set (list_index field index ∷ next ∷ steps) value fields ≡ panicked
unfolding set
set-through_list field index next steps value fields =
    through_list field index next steps value _ fields

through_map :
    (field : Field) (key : String) (next : PathStep) (steps : List PathStep) (value current : Value)
    (fields changed : Fields)
    → (descend (map_key field key) current fields >>= λ found. as_message found.0 >>= λ inner.
        set (next ∷ steps) value inner >>= λ below. done (found.1 (message below)))
      ≡ done changed
    → (entries : Fields) × ((as_message (new_element (element_of field.kind)) >>= λ inner.
          set (next ∷ steps) value inner >>= λ below.
          done (put field.name (keyed (put key (message below) entries)) fields))
        ≡ done changed)
unfolding descend
through_map field key next steps value (keyed entries) fields changed h = (entries, h)
through_map field key next steps value (scalar text) fields changed h = absurd (cc)
through_map field key next steps value (message inner) fields changed h = absurd (cc)
through_map field key next steps value (repeated items) fields changed h = absurd (cc)

-- What is set at a path is found at it.
pub get-set :
    (steps : List PathStep) (value : Value) (fields changed : Fields)
    → fits steps value ≡ true
    → set steps value fields ≡ done changed
    → get steps (message changed) ≡ done (some value)
unfolding set descend
get-set [] value fields changed f h = absurd (cc)
get-set (step ∷ []) value fields changed f h =
    let (k, v) = and_true (step_fits step) (value_fits step value) f in
    get-set_last step _ value fields changed k v h
get-set (field_step field ∷ next ∷ steps) value fields changed f h =
    let (inner, is_message, h') =
      >>=-done (as_message (current_or_new (get_field field fields) field.kind)) _ h in
    let (below, below_set, h'') = >>=-done (set (next ∷ steps) value inner) _ h' in
    let e : put field.name (message below) fields ≡ changed = cc in
    rw (← e) (
      get-field field (message below) fields (next ∷ steps)
        (message_field field.kind _ inner below is_message)
      ∙ get-set (next ∷ steps) value inner below f below_set)
get-set (list_index field index ∷ next ∷ steps) value fields changed f h =
    let panics = set-through_list field index next steps value fields in absurd (cc)
get-set (map_key field key ∷ next ∷ steps) value fields changed f h =
    let (k, fit) = and_true (is_map field.kind) (fits (next ∷ steps) value) f in
    let (entries, h') = through_map field key next steps value _ fields changed h in
    let (inner, is_message, in_inner) =
      >>=-done (as_message (new_element (element_of field.kind))) _ h' in
    let (below, below_set, last) = >>=-done (set (next ∷ steps) value inner) _ in_inner in
    let e : put field.name (keyed (put key (message below) entries)) fields ≡ changed = cc in
    rw (← e) (
      get-map field key entries fields (message below) (next ∷ steps) k
      ∙ get-set (next ∷ steps) value inner below fit below_set)
