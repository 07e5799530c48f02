-- ===== src/Masks/Sameness.antt =====
-- internal/masks/masks_calculator.go: messages between which Calculator.Calculate finds no difference
-- have the same content.
use osac_fulfillment_service.Prelude.{
  and_true, Bool, true, false, ◌≡◌, refl, sym, ◌∙◌, inl, inr, String, List, [], ◌∷◌, ◌++◌, map,
  Option, none, some, Bool-cases, eq_iff, eqb_iff,
}
use osac_fulfillment_service.Prelude.Compare.{◌==◌, string_comparable}
use osac_fulfillment_service.Masks.{
  Element, Kind, scalar_kind, message_kind, list_kind, map_kind, Field, Schema, Value, message,
  Items, nil, item, Fields, end, slot, lookup, populated,
}
use osac_fulfillment_service.Masks.Compiler.{by_name}
use osac_fulfillment_service.Masks.Calculator.{
  Equality, FieldPath, below, items_of, entries_of, here, same_entry, same_element, compare_lists,
  compare_maps, compare_entries, map_length, compare_field, compare_presence, compare_fields,
  nested, compare_messages,
}
use osac_fulfillment_service.Masks.Slots.{message_induction}
use osac_fulfillment_service.Masks.Differences.{nested-message}
use osac_fulfillment_service.Masks.Cases.{message-populated}

append_nil {ℓ} : {A : Type ℓ} (xs ys : List A) → xs ++ ys ≡ [] → (xs ≡ []) × (ys ≡ [])
append_nil [] ys h = (refl, h)
append_nil (x ∷ xs) ys h = absurd (cc)

map_nil : (name : String) (paths : List FieldPath) → map (below name) paths ≡ [] → paths ≡ []
map_nil name [] h = refl
map_nil name (path ∷ paths) h = absurd (cc)

module _ (schema : Schema) (equal : Equality) where
  -- Lists of the same length with the same values, and maps with as many keys, where each key of the
  -- first has the same value in the second.
  pub data SameItems (element : Element) : Items → Items → Type 0 where
    no_items : SameItems element nil nil
    same_item :
        {x y : Value} {xs ys : Items}
        → same_element schema equal element x y ≡ true
        → SameItems element xs ys
        → SameItems element (item x xs) (item y ys)

  pub record SameEntries (element : Element) (xs ys : Fields) : Type 0 where
    pub as_many : map_length xs ≡ map_length ys
    pub values :
        (key : String) (x : Value)
        → lookup key xs ≡ some x
        → (y : Value) × (lookup key ys ≡ some y) × (same_element schema equal element x y ≡ true)

  -- Messages of a type that have the same fields with the same values.
  mutual
    pub data SameMessage : Fields → Fields → String → Type 0 where
      same_fields :
          {b a : Fields} {type_name : String}
          → ((name : String) (field : Field)
              → by_name name (schema.fields type_name) ≡ some field
              → SameField field.kind (lookup field.name b) (lookup field.name a))
          → SameMessage b a type_name

    pub data SameField : Kind → Option Value → Option Value → Type 0 where
      neither :
          {kind : Kind} {o p : Option Value}
          → populated kind o ≡ none
          → populated kind p ≡ none
          → SameField kind o p
      scalars :
          {tracked : Bool} {z : String} {o p : Option Value} (x y : Value)
          → populated (scalar_kind tracked z) o ≡ some x
          → populated (scalar_kind tracked z) p ≡ some y
          → equal.values x y ≡ true
          → SameField (scalar_kind tracked z) o p
      messages :
          {t : String} {o p : Option Value} (x y : Fields)
          → o ≡ some (message x)
          → p ≡ some (message y)
          → SameMessage x y t
          → SameField (message_kind t) o p
      lists :
          {element : Element} {o p : Option Value}
          → SameItems element (items_of o) (items_of p)
          → SameField (list_kind element) o p
      maps :
          {element : Element} {o p : Option Value}
          → SameEntries element (entries_of o) (entries_of p)
          → SameField (map_kind element) o p

  compare_lists-SameItems :
      (element : Element) (xs ys : Items)
      → compare_lists schema equal element xs ys ≡ true
      → SameItems element xs ys
  unfolding compare_lists
  compare_lists-SameItems element nil nil h = no_items
  compare_lists-SameItems element nil (item y ys) h = absurd (cc)
  compare_lists-SameItems element (item x xs) nil h = absurd (cc)
  compare_lists-SameItems element (item x xs) (item y ys) h =
      let (same, rest) = and_true _ _ h in
      same_item same (compare_lists-SameItems element xs ys rest)

  entry-value :
      (element : Element) (x : Value) (o : Option Value)
      → same_entry schema equal element (some x) o ≡ true
      → (y : Value) × (o ≡ some y) × (same_element schema equal element x y ≡ true)
  entry-value element x none h = absurd (cc)
  entry-value element x (some y) h = (y, refl, h)

  compare_entries-values :
      (element : Element) (keys before after : Fields)
      → compare_entries schema equal element keys before after ≡ true
      → (key : String) (v : Value) → lookup key keys ≡ some v
      → (x : Value) → lookup key before ≡ some x
      → (y : Value) × (lookup key after ≡ some y) × (same_element schema equal element x y ≡ true)
  unfolding compare_entries lookup
  compare_entries-values element end before after h key v at_keys x at_before = absurd (cc)
  compare_entries-values element (slot k w keys) before after h key v at_keys x at_before =
      let (same, rest) =
        and_true (same_entry schema equal element (lookup k before) (lookup k after))
          (compare_entries schema equal element keys before after) h in
      elim (Bool-cases (k == key)) [
        | inl at_k ↦
            let e : k ≡ key = (eq_iff k key).0 at_k in
            entry-value element x (lookup key after) (rw (e, at_before) at same)
        | inr differ ↦
            compare_entries-values element keys before after rest key v (rw differ at at_keys) x
              at_before
      ]

  compare_maps-SameEntries :
      (element : Element) (before after : Fields)
      → compare_maps schema equal element before after ≡ true
      → SameEntries element before after
  unfolding compare_maps
  compare_maps-SameEntries element before after h =
      let (count, entries) = and_true _ _ h in
      record {
        as_many = (eqb_iff (map_length before) (map_length after)).0 count;
        values = λ key x found.
            compare_entries-values element before before after entries key x found x found;
      }

  nothing_here : (name : String) (same : Bool) → here schema equal name same ≡ [] → same ≡ true
  nothing_here name true h = refl
  nothing_here name false h = absurd (cc)

  presence_scalar :
      (sub : String → Fields → List FieldPath) (name : String) (tracked : Bool) (z : String)
      (o p o' p' : Option Value)
      → populated (scalar_kind tracked z) o ≡ o'
      → populated (scalar_kind tracked z) p ≡ p'
      → compare_presence schema equal sub name (scalar_kind tracked z) o' p' ≡ []
      → SameField (scalar_kind tracked z) o p
  unfolding compare_presence
  presence_scalar sub name tracked z o p none none at_o at_p h = neither at_o at_p
  presence_scalar sub name tracked z o p (some x) none at_o at_p h = absurd (cc)
  presence_scalar sub name tracked z o p none (some y) at_o at_p h = absurd (cc)
  presence_scalar sub name tracked z o p (some x) (some y) at_o at_p h =
      scalars x y at_o at_p (nothing_here name (equal.values x y) h)

  presence_message :
      (sub : String → Fields → List FieldPath) (name t : String) (o p o' p' : Option Value)
      → ((x y : Fields) → p ≡ some (message y) → sub t x ≡ [] → SameMessage x y t)
      → populated (message_kind t) o ≡ o'
      → populated (message_kind t) p ≡ p'
      → compare_presence schema equal sub name (message_kind t) o' p' ≡ []
      → SameField (message_kind t) o p
  unfolding compare_presence
  presence_message sub name t o p none none inner at_o at_p h = neither at_o at_p
  presence_message sub name t o p (some x) none inner at_o at_p h = absurd (cc)
  presence_message sub name t o p none (some y) inner at_o at_p h = absurd (cc)
  presence_message sub name t o p (some v) (some w) inner at_o at_p h =
      let (x, is_o, e) = message-populated schema equal t o v at_o in
      let (y, is_p, f) = message-populated schema equal t p w at_p in
      messages x y is_o is_p (inner x y is_p (map_nil name (sub t x) (rw e at h)))

  compare_field-SameField :
      (sub : String → Fields → List FieldPath) (name : String) (kind : Kind) (o p : Option Value)
      → ((t : String) (x y : Fields) → p ≡ some (message y) → sub t x ≡ [] → SameMessage x y t)
      → compare_field schema equal sub name kind o p ≡ []
      → SameField kind o p
  unfolding compare_field
  compare_field-SameField sub name (map_kind element) o p inner h =
      maps (compare_maps-SameEntries element _ _ (nothing_here name _ h))
  compare_field-SameField sub name (list_kind element) o p inner h =
      lists (compare_lists-SameItems element _ _ (nothing_here name _ h))
  compare_field-SameField sub name (scalar_kind tracked z) o p inner h =
      presence_scalar sub name tracked z o p _ _ refl refl h
  compare_field-SameField sub name (message_kind t) o p inner h =
      presence_message sub name t o p _ _ (inner t) refl refl h

  compare_fields-field :
      (sub : String → String → Fields → List FieldPath) (fields : List Field) (b a : Fields)
      → compare_fields schema equal sub fields b a ≡ []
      → (name : String) (field : Field) → by_name name fields ≡ some field
      → compare_field schema equal
          (sub field.name)
          field.name
          field.kind
          (lookup field.name b)
          (lookup field.name a)
        ≡ []
  unfolding compare_fields by_name
  compare_fields-field sub [] b a h name field found = absurd (cc)
  compare_fields-field sub (g ∷ fields) b a h name field found =
      let (at_g, rest) =
        append_nil
          (compare_field schema equal (sub g.name) g.name g.kind (lookup g.name b)
            (lookup g.name a))
          (compare_fields schema equal sub fields b a) h in
      elim (Bool-cases (g.name == name)) [
        | inl same ↦ let e : g ≡ field = (let f = rw same at found in cc) in rw (← e) at_g
        | inr differ ↦ compare_fields-field sub fields b a rest name field (rw differ at found)
      ]

  pub compare_messages-SameMessage :
      (after before : Fields) (type_name : String)
      → compare_messages schema equal before after type_name ≡ []
      → SameMessage before after type_name
  unfolding compare_messages
  compare_messages-SameMessage after =
      message_induction
        (λ a.
          (b : Fields) (t : String) → compare_messages schema equal b a t ≡ [] → SameMessage b a t)
        (λ a inner b type_name h. same_fields λ name field listed.
          compare_field-SameField (nested schema equal a field.name) field.name field.kind _ _
            (λ t x y at_a none_left.
              inner field.name y at_a x t
                (sym (nested-message schema equal a field.name y at_a t x) ∙ none_left))
            (compare_fields-field (nested schema equal a) (schema.fields type_name) b a h name field
              listed))
        after
