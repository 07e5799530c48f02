-- ===== src/Masks/Wholes.antt =====
-- internal/masks with internal/servers/generic_server.go: an update with a path that is one field.
use osac_fulfillment_service.Prelude.{
  false, ◌≡◌, refl, ◌∙◌, inl, inr, String, List, [], ◌∷◌, Option, none, some, Option-cases,
}
use osac_fulfillment_service.Prelude.Compare.{◌==◌, string_comparable}
use osac_fulfillment_service.Prelude.Int.{ℤ}
use osac_fulfillment_service.Masks.{
  Field, Schema, Value, message, Fields, lookup, put, remove, get_field, Outcome, done, failed,
  panicked, ◌>>=◌,
}
use osac_fulfillment_service.Masks.Paths.{
  field_step, get, get_step, set, set_last, clear, clear_last,
}
use osac_fulfillment_service.Masks.Compiler.{by_name, compile}
use osac_fulfillment_service.Masks.Calculator.{Equality, FieldPath, compare_field, nested}
use osac_fulfillment_service.Masks.Merging.{set_or_clear, merge_steps, merge_paths}
use osac_fulfillment_service.Masks.Slots.{
  lookup-put_self, lookup-remove_self, lookup-put_other, lookup-remove_other,
}
use osac_fulfillment_service.Masks.Differences.{
  Reflexive, nested-message, compare_field_refl, compare_messages_refl,
}
use osac_fulfillment_service.Masks.Cases.{populated-lookup, compare_field-unpopulated}

bind_done :
    (o : Outcome (Option Value)) (f : Option Value → Outcome Fields)
    → ((o >>= f) >>= λ next. done next) ≡ (o >>= λ value. f value >>= λ next. done next)
bind_done (done value) f = refl
bind_done failed f = refl
bind_done panicked f = refl

bind_done_id : (o : Outcome Fields) → (o >>= λ next. done next) ≡ o
bind_done_id (done value) = refl
bind_done_id failed = refl
bind_done_id panicked = refl

module _ (schema : Schema) (equal : Equality) where
  -- After an update, the field no longer differs, and the other fields are as they were.
  abbrev pub Agrees :
      (String → Fields → List FieldPath) → Field → (a r : Fields) → (r' : Fields) → Type 0
  Agrees sub field a r r' =
      (compare_field schema equal sub field.name field.kind (lookup field.name r')
          (lookup field.name a)
        ≡ [])
      × ((key : String) → (field.name == key) ≡ false → lookup key r' ≡ lookup key r)

module _ (schema : Schema) (atoi : String → Option ℤ) (equal : Equality)
    (reflexive : Reflexive equal) where
  module _ (type_name : String) (field : Field) (a : Fields)
      (listed : by_name field.name (schema.fields type_name) ≡ some field) where
    -- The field alone as a path.
    whole_merged :
        (r : Fields)
        → merge_paths schema atoi type_name a ((field.name, []) ∷ []) r ≡ (
            get (field_step field ∷ []) (message a) >>= λ value.
            set_or_clear (field_step field ∷ []) value r >>= λ next. done next)
    unfolding merge_paths compile merge_steps
    whole_merged r = rw listed (
        bind_done (get (field_step field ∷ []) (message a))
          (λ value. set_or_clear (field_step field ∷ []) value r))

    -- The request has the field.
    whole_set :
        (r : Fields) (v : Value)
        → get_field field a ≡ some v
        → merge_paths schema atoi type_name a ((field.name, []) ∷ []) r ≡ done (put field.name v r)
    unfolding get get_step set set_last
    whole_set r v found = rw (whole_merged r, found)

    -- It does not.
    whole_cleared :
        (r : Fields)
        → get_field field a ≡ none
        → merge_paths schema atoi type_name a ((field.name, []) ∷ []) r
          ≡ clear (field_step field ∷ []) r
    unfolding get get_step
    whole_cleared r missing = rw (whole_merged r, missing) (bind_done_id _)

    pub whole_field :
        (r : Fields)
        → (r' : Fields) × (merge_paths schema atoi type_name a ((field.name, []) ∷ []) r ≡ done r')
          × Agrees schema equal (nested schema equal a field.name) field a r r'
    unfolding clear clear_last
    whole_field r = elim (Option-cases (get_field field a)) [
      | inr (v, found) ↦
          let agree : compare_field schema equal (nested schema equal a field.name) field.name
                field.kind (lookup field.name (put field.name v r)) (lookup field.name a)
              ≡ [] =
            rw (lookup-put_self field.name v r, populated-lookup field.kind _ v found)
              (compare_field_refl schema equal reflexive (nested schema equal a field.name)
                field.name field.kind (some v)
                λ t m is_m.
                  nested-message schema equal a field.name m
                    (populated-lookup field.kind _ v found ∙ is_m) t m
                  ∙ compare_messages_refl schema equal reflexive m t) in
          (
            put field.name v r,
            whole_set r v found,
            (agree, λ key differ. lookup-put_other field.name key r differ v),
          )
      | inl missing ↦ elim (Option-cases (get_field field r)) [
        | inl absent ↦ (
          r,
          whole_cleared r missing ∙ rw (absent, clear),
          (
            compare_field-unpopulated schema equal _ field.name field.kind _ _ absent missing,
            λ key differ. refl,
          ),
        )
        | inr (v, present) ↦
            let gone : get_field field (remove field.name r) ≡ none =
              rw (lookup-remove_self field.name r) in
            (
              remove field.name r,
              whole_cleared r missing ∙ rw (present, clear),
              (
                compare_field-unpopulated schema equal _ field.name field.kind _ _ gone missing,
                λ key differ. lookup-remove_other field.name key r differ,
              ),
            )
      ]
    ]
