-- ===== src/Masks/Convergence.antt =====
-- internal/masks with internal/servers/generic_server.go: an update with the mask that
-- Calculator.Calculate gives.
use osac_fulfillment_service.Prelude.{
  false, ◌≡◌, refl, ◌∙◌, inl, inr, String, List, [], ◌∷◌, map, Option, some, All, eq_iff, arith,
}
use osac_fulfillment_service.Prelude.Compare.{◌==◌, string_comparable}
use osac_fulfillment_service.Prelude.Int.{ℤ}
use osac_fulfillment_service.Masks.{
  Kind, message_kind, Field, Schema, Value, message, Fields, lookup, done,
}
use osac_fulfillment_service.Masks.Compiler.{by_name}
use osac_fulfillment_service.Masks.Calculator.{
  Equality, FieldPath, below, compare_field, compare_fields, nested, compare_messages,
}
use osac_fulfillment_service.Masks.Merging.{merge_paths}
use osac_fulfillment_service.Masks.Slots.{message_induction}
use osac_fulfillment_service.Masks.Differences.{Reflexive, nested-message}
use osac_fulfillment_service.Masks.Cases.{Distinct, Listed, Distinct-Listed, differences}
use osac_fulfillment_service.Masks.Sameness.{SameMessage, compare_messages-SameMessage}
use osac_fulfillment_service.Masks.Nesting.{merge_paths-append, merge_paths-below}
use osac_fulfillment_service.Masks.Wholes.{Agrees, whole_field}

still :
    (name : String) (fields : List Field) (r s b : Fields)
    → All (λ (g : Field). (name == g.name) ≡ false) fields
    → ((key : String) → (name == key) ≡ false → lookup key s ≡ lookup key r)
    → All (λ (g : Field). lookup g.name r ≡ lookup g.name b) fields
    → All (λ (g : Field). lookup g.name s ≡ lookup g.name b) fields
still name [] r s b differ others as_before = tt
still name (g ∷ fields) r s b (d, differ) others (e, as_before) =
    (others g.name d ∙ e, still name fields r s b differ others as_before)

differ_sym :
    (name : String) (fields : List Field)
    → All (λ (g : Field). (name == g.name) ≡ false) fields
    → All (λ (g : Field). (g.name == name) ≡ false) fields
differ_sym name [] differ = tt
differ_sym name (g ∷ fields) (d, differ) =
    (ground (arith, eq_iff name g.name, eq_iff g.name name), differ_sym name fields differ)

unchanged :
    (fields : List Field) (b : Fields)
    → All (λ (g : Field). lookup g.name b ≡ lookup g.name b) fields
unchanged [] b = tt
unchanged (g ∷ fields) b = (refl, unchanged fields b)

module _ (schema : Schema) (atoi : String → Option ℤ) (equal : Equality)
    (reflexive : Reflexive equal) where
  -- A message of `after` that no longer differs once its mask is applied.
  abbrev Converges : Fields → Type 0
  Converges a =
      (type_name : String) (b : Fields)
      → (r : Fields) × (merge_paths schema atoi type_name a
            (compare_messages schema equal b a type_name) b
          ≡ done r)
        × (compare_messages schema equal r a type_name ≡ [])

  compare_field-message :
      (sub : String → Fields → List FieldPath) (name t : String) (y z : Fields) (kind : Kind)
      (o p : Option Value)
      → kind ≡ message_kind t
      → o ≡ some (message y)
      → p ≡ some (message z)
      → sub t y ≡ []
      → compare_field schema equal sub name kind o p ≡ []
  unfolding compare_field
  compare_field-message sub name t y z kind o p k at_o at_p h = rw (k, at_o, at_p, h)

  -- One field, with the messages in it.
  module _ (a : Fields)
      (inner : (name : String) (m : Fields) → lookup name a ≡ some (message m) → Converges m) where
    nested_field :
        (type_name : String) (field : Field) (t : String) (r x ma : Fields)
        → by_name field.name (schema.fields type_name) ≡ some field
        → field.kind ≡ message_kind t
        → lookup field.name r ≡ some (message x)
        → lookup field.name a ≡ some (message ma)
        → (r' : Fields) × (merge_paths schema atoi type_name a
              (map (below field.name) (nested schema equal a field.name t x))
              r
            ≡ done r')
          × Agrees schema equal (nested schema equal a field.name) field a r r'
    nested_field type_name field t r x ma listed kind in_r in_a =
        let (y, merged, none_left) = inner field.name ma in_a t x in
        let same = nested-message schema equal a field.name ma in_a t in
        let (r', merged', at_r', others) =
          merge_paths-below schema atoi type_name t field a ma listed kind in_a
            (compare_messages schema equal x ma t) r x y in_r merged in
        (
          r',
          rw (same x) merged',
          (
            compare_field-message _ field.name t y ma field.kind _ _ kind at_r' in_a
                (same y ∙ none_left),
            others,
          ),
        )

    merge_field :
        (type_name : String) (field : Field)
        → by_name field.name (schema.fields type_name) ≡ some field
        → (r : Fields)
        → (r' : Fields) × (merge_paths schema atoi type_name a
              (compare_field schema equal
                (nested schema equal a field.name)
                field.name
                field.kind
                (lookup field.name r)
                (lookup field.name a))
              r
            ≡ done r')
          × Agrees schema equal (nested schema equal a field.name) field a r r'
    unfolding merge_paths
    merge_field type_name field listed r =
        elim (differences schema equal (nested schema equal a field.name) field.name field.kind
          (lookup field.name r) (lookup field.name a)) [
            | inl none_left ↦ (r, rw none_left, (none_left, λ key differ. refl))
            | inr (inl whole) ↦
                rw whole (whole_field schema atoi equal reflexive type_name field a listed r)
            | inr (inr (t, x, ma, kind, in_r, in_a, paths)) ↦
                rw paths (nested_field type_name field t r x ma listed kind in_r in_a)
          ]

    -- All fields in their order, each from what the object had at first.
    merge_fields :
        (type_name : String) (fields : List Field)
        → Listed (schema.fields type_name) fields
        → Distinct fields
        → (b r : Fields) → All (λ (field : Field). lookup field.name r ≡ lookup field.name b) fields
        → (r' : Fields) × (merge_paths schema atoi type_name a
              (compare_fields schema equal (nested schema equal a) fields b a)
              r
            ≡ done r')
          × (compare_fields schema equal (nested schema equal a) fields r' a ≡ [])
          × ((key : String)
              → All (λ (field : Field). (field.name == key) ≡ false) fields
              → lookup key r' ≡ lookup key r)
    unfolding merge_paths compare_fields
    merge_fields type_name [] listed distinct b r as_before = (r, refl, refl, λ key differ. refl)
    merge_fields type_name (field ∷ fields) (known, listed) (differ, distinct) b r
          (at_b, as_before) =
        let (s, merged, (agrees, others)) = merge_field type_name field known r in
        let (r', merged', none_left, others') =
          merge_fields type_name fields listed distinct b s
            (still field.name fields r s b differ others as_before) in
        let first = rw at_b at merged in
        let kept = others' field.name (differ_sym field.name fields differ) in
        (
          r',
          merge_paths-append schema atoi type_name a _ _ r s first ∙ merged',
          rw (kept, agrees) none_left,
          λ key (d, ds). others' key ds ∙ others key d,
        )

  converges :
      ((type_name : String) → Distinct (schema.fields type_name))
      → (after : Fields) → Converges after
  unfolding compare_messages
  converges distinct = message_induction Converges λ a inner type_name b.
      let (r, merged, none_left, others) =
        merge_fields a inner type_name (schema.fields type_name)
          (Distinct-Listed (schema.fields type_name) (distinct type_name)) (distinct type_name) b b
          (unchanged (schema.fields type_name) b) in
      (r, merged, none_left)

  -- The mask that `Calculate` gives for two messages takes the one to the other: an update of
  -- `before` with that mask and with `after` as the object of the request succeeds, and leaves a
  -- message that has the same fields with the same values as `after`, at every depth, if the fields
  -- of a type have different names and the equality of values is reflexive.
  pub merge_paths-compare_messages :
      ((type_name : String) → Distinct (schema.fields type_name))
      → (before after : Fields) (type_name : String)
      → (merged : Fields) × (merge_paths schema atoi type_name after
            (compare_messages schema equal before after type_name)
            before
          ≡ done merged)
        × SameMessage schema equal merged after type_name
  merge_paths-compare_messages distinct before after type_name =
      let (merged, update, none_left) = converges distinct after type_name before in
      (merged, update, compare_messages-SameMessage schema equal after merged type_name none_left)
