-- ===== src/Masks/Setting.antt =====
-- internal/masks/mask_path.go: the paths at which Set does not panic, and what it leaves alone.
use osac_fulfillment_service.Prelude.{
  and_true, ℕ, zero, suc, ◌+◌, ◌-◌, Bool, true, false, ◌&&◌, ◌≡◌, refl, String, List, [], ◌∷◌,
  Option, none, some, arith, ◌<◌,
}
use osac_fulfillment_service.Prelude.Compare.{◌==◌, string_comparable}
use osac_fulfillment_service.Prelude.Int.{pos, negsuc}
use osac_fulfillment_service.Masks.{
  message_element, scalar_element, Kind, scalar_kind, message_kind, list_kind, map_kind, Value,
  scalar, message, repeated, keyed, Items, nil, item, Fields, end, slot, lookup, put, populated,
  new_element, done,
}
use osac_fulfillment_service.Masks.Paths.{
  PathStep, field_step, list_index, map_key, field_of, count, as_message, as_list, as_map,
  replace_at, get, current_or_new, element_of, append_new, grow, set_last, descend, set,
}
use osac_fulfillment_service.Masks.Slots.{lookup-put_other}
use osac_fulfillment_service.Masks.Laws.{is_list, is_map, fits, get-set}

-- A path that goes on only behind messages and maps of messages, with no negative index.
abbrev pub ends_well : PathStep → Bool
ends_well (field_step field) = true
ends_well (list_index field (pos i)) = is_list field.kind
ends_well (list_index field (negsuc i)) = false
ends_well (map_key field key) = is_map field.kind

abbrev pub holds_messages : Kind → Bool
holds_messages (message_kind t) = true
holds_messages _ = false

abbrev pub maps_messages : Kind → Bool
maps_messages (map_kind (message_element t)) = true
maps_messages _ = false

abbrev pub leads_on : PathStep → Bool
leads_on (field_step field) = holds_messages field.kind
leads_on (list_index field index) = false
leads_on (map_key field key) = maps_messages field.kind

abbrev pub is_settable : List PathStep → Bool
is_settable [] = false
is_settable (step ∷ []) = ends_well step
is_settable (step ∷ next ∷ steps) = leads_on step && is_settable (next ∷ steps)

count-append_new :
    (n : ℕ) (new : Value) (items : Items) → count (append_new n new items) ≡ n + count items
unfolding append_new
count-append_new zero new items = omega arith
count-append_new (suc n) new nil = omega (arith, count-append_new n new nil)
count-append_new (suc n) new (item value items) = omega (arith, count-append_new (suc n) new items)

replace_at_total :
    (items : Items) (i : ℕ) (value : Value)
    → i < count items
    → (changed : Items) × (replace_at items i value ≡ done changed)
unfolding replace_at
replace_at_total nil i value h = absurd (omega arith)
replace_at_total (item v items) zero value h = (item value items, refl)
replace_at_total (item v items) (suc i) value h =
    let (changed, replaced) = replace_at_total items i value (omega arith) in
    (item v changed, rw replaced)

list_current :
    (kind : Kind) (o : Option Value)
    → is_list kind ≡ true
    → (items : Items) × (as_list (current_or_new (populated kind o) kind) ≡ done items)
list_current (list_kind element) none h = (nil, refl)
list_current (list_kind element) (some (repeated nil)) h = (nil, refl)
list_current (list_kind element) (some (repeated (item v items))) h = (item v items, refl)
list_current (list_kind element) (some (scalar v)) h = (nil, refl)
list_current (list_kind element) (some (message v)) h = (nil, refl)
list_current (list_kind element) (some (keyed v)) h = (nil, refl)
list_current (map_kind element) o h = absurd (cc)
list_current (scalar_kind tracked z) o h = absurd (cc)
list_current (message_kind t) o h = absurd (cc)

map_current :
    (kind : Kind) (o : Option Value)
    → is_map kind ≡ true
    → (entries : Fields) × (as_map (current_or_new (populated kind o) kind) ≡ done entries)
map_current (map_kind element) none h = (end, refl)
map_current (map_kind element) (some (keyed end)) h = (end, refl)
map_current (map_kind element) (some (keyed (slot k v entries))) h = (slot k v entries, refl)
map_current (map_kind element) (some (scalar v)) h = (end, refl)
map_current (map_kind element) (some (message v)) h = (end, refl)
map_current (map_kind element) (some (repeated v)) h = (end, refl)
map_current (list_kind element) o h = absurd (cc)
map_current (scalar_kind tracked z) o h = absurd (cc)
map_current (message_kind t) o h = absurd (cc)

message_current :
    (kind : Kind) (o : Option Value)
    → holds_messages kind ≡ true
    → (inner : Fields) × (as_message (current_or_new (populated kind o) kind) ≡ done inner)
message_current (message_kind t) none h = (end, refl)
message_current (message_kind t) (some (message v)) h = (v, refl)
message_current (message_kind t) (some (scalar v)) h = (end, refl)
message_current (message_kind t) (some (keyed v)) h = (end, refl)
message_current (message_kind t) (some (repeated v)) h = (end, refl)
message_current (map_kind element) o h = absurd (cc)
message_current (list_kind element) o h = absurd (cc)
message_current (scalar_kind tracked z) o h = absurd (cc)

maps_messages-is_map : (kind : Kind) → maps_messages kind ≡ true → is_map kind ≡ true
maps_messages-is_map (map_kind element) h = refl
maps_messages-is_map (list_kind element) h = cc
maps_messages-is_map (scalar_kind tracked z) h = cc
maps_messages-is_map (message_kind t) h = cc

new_message :
    (kind : Kind)
    → maps_messages kind ≡ true
    → as_message (new_element (element_of kind)) ≡ done end
new_message (map_kind (message_element t)) h = refl
new_message (map_kind (scalar_element z)) h = absurd (cc)
new_message (list_kind element) h = absurd (cc)
new_message (scalar_kind tracked z) h = absurd (cc)
new_message (message_kind t) h = absurd (cc)

-- The slot of the first field is all that Set writes.
abbrev Written : List PathStep → Value → Fields → String → Type 0
Written steps value fields name =
    (changed : Fields) × (w : Value) × (set steps value fields ≡ done changed)
    × (changed ≡ put name w fields)

set_last-Written :
    (step : PathStep) (value : Value) (fields : Fields)
    → ends_well step ≡ true
    → Written (step ∷ []) value fields (field_of step).name
unfolding set set_last
set_last-Written (field_step field) value fields h = (_, value, refl, refl)
set_last-Written (list_index field (negsuc i)) value fields h = absurd (cc)
set_last-Written (list_index field (pos i)) value fields h =
    let (items, is_items) = list_current field.kind (lookup field.name fields) h in
    let new = new_element (element_of field.kind) in
    let (changed, replaced) =
      replace_at_total (grow items (pos i) new) i value
        (omega (arith, count-append_new (suc i - count items) new items)) in
    (_, repeated changed, rw (is_items, replaced), refl)
set_last-Written (map_key field key) value fields h =
    let (entries, is_entries) = map_current field.kind (lookup field.name fields) h in
    (_, keyed (put key value entries), rw is_entries, refl)

set-Written :
    (step : PathStep) (steps : List PathStep) (value : Value) (fields : Fields)
    → is_settable (step ∷ steps) ≡ true
    → Written (step ∷ steps) value fields (field_of step).name
unfolding set descend
set-Written step [] value fields h = set_last-Written step value fields h
set-Written (field_step field) (next ∷ steps) value fields h =
    let (leads, rest) = and_true (holds_messages field.kind) (is_settable (next ∷ steps)) h in
    let (inner, is_inner) = message_current field.kind (lookup field.name fields) leads in
    let (below, w, is_set, put_below) = set-Written next steps value inner rest in
    (_, message below, rw (is_inner, is_set), refl)
set-Written (list_index field index) (next ∷ steps) value fields h = absurd (cc)
set-Written (map_key field key) (next ∷ steps) value fields h =
    let (leads, rest) = and_true (maps_messages field.kind) (is_settable (next ∷ steps)) h in
    let (entries, is_entries) =
      map_current field.kind (lookup field.name fields) (maps_messages-is_map field.kind leads) in
    let (below, w, is_set, put_below) = set-Written next steps value end rest in
    (
      _,
      keyed (put key (message below) entries),
      rw (is_entries, new_message field.kind leads, is_set),
      refl,
    )

-- A path with another first field.
get_other :
    (name : String) (w : Value) (fields : Fields) (other : PathStep) (others : List PathStep)
    → (name == (field_of other).name) ≡ false
    → get (other ∷ others) (message (put name w fields)) ≡ get (other ∷ others) (message fields)
unfolding get
get_other name w fields other others differ =
    rw (lookup-put_other name (field_of other).name fields differ w)

-- `Set` at a path that goes on only behind messages and maps of messages, and has no negative
-- index, does not panic: `Get` finds the value at the path, if it is one that the last field can
-- hold, and finds at a path with another first field what it found before.
pub set_lem :
    (step : PathStep) (steps : List PathStep) (value : Value) (fields : Fields) (other : PathStep)
    (others : List PathStep)
    → is_settable (step ∷ steps) ≡ true
    → fits (step ∷ steps) value ≡ true
    → ((field_of step).name == (field_of other).name) ≡ false
    → (changed : Fields) × (set (step ∷ steps) value fields ≡ done changed)
      × (get (step ∷ steps) (message changed) ≡ done (some value))
      × (get (other ∷ others) (message changed) ≡ get (other ∷ others) (message fields))
set_lem step steps value fields other others settable fit differ =
    let (changed, w, is_set, written) = set-Written step steps value fields settable in
    (
      changed,
      is_set,
      get-set (step ∷ steps) value fields changed fit is_set,
      rw written (get_other (field_of step).name w fields other others differ),
    )
