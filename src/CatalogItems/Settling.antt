-- ===== src/CatalogItems/Settling.antt =====
-- internal/servers/catalog_item_validation.go: what a specification holds behind all field definitions.
use osac_fulfillment_service.Prelude.{
  ◌&&◌, true, false, not, ◌≡◌, ◌∙◌, ◌⊎◌, ap, inl, inr, List, [], ◌∷◌, some, arith, All,
}
use osac_fulfillment_service.Prelude.Compare.{◌==◌, string_comparable}
use osac_fulfillment_service.Errors.{
  ok, status, invalid_argument, refuse, >>=-eq-ok, >>-eq-ok, refuse-eq-ok,
}
use osac_fulfillment_service.Servers.Labels.{dot, split}
use osac_fulfillment_service.CatalogItems.{
  Text, is_nil, Json, object, Members, get_parts, get_nested_value, set_nested_value,
  collect_leaf_paths, is_path_covered, unlisted_paths,
}
use osac_fulfillment_service.CatalogItems.Definitions.{
  FieldDefinition, allowed_paths, Libraries, lacks_default, has_invalid_schema,
  validate_field_definitions, apply_definition, apply_definitions, apply_field_definitions,
}
use osac_fulfillment_service.CatalogItems.Nested.{
  apart, apart_sym, get_parts-set_parts, get_parts-set_parts_other,
}
use osac_fulfillment_service.CatalogItems.Leaves.{
  path_behind, is_object, All-collect_leaf_paths, unlisted_paths-All,
}
use osac_fulfillment_service.CatalogItems.Applying.{
  split-cases, Parted, or_else-eq-ok, Settled, Effect, definition-Effect,
}

get-set_nested_value :
    (members : Members) (path : Text) (value : Json)
    → get_nested_value (set_nested_value members path value) path ≡ some value
get-set_nested_value members path value =
    let (part, parts, e) = split-cases path in rw e (get_parts-set_parts part parts value members)

module _ {C M : Type 0} (libraries : Libraries C M) where
  Effect-Settled :
      (d : FieldDefinition) (members after : Members)
      → Effect libraries d members after
      → Settled libraries d (get_nested_value members d.path) (get_nested_value after d.path)
  Effect-Settled d members after (inl (value, is, editable, same)) =
      inl (value, is, editable, ap (λ m. get_nested_value m d.path) same)
  Effect-Settled d members after (inr (text, value, nothing, is, v, same)) = inr (
    text,
    value,
    nothing,
    is,
    v,
    ap (λ m. get_nested_value m d.path) same ∙ get-set_nested_value members d.path value,
  )

  Effect-apart :
      (d : FieldDefinition) (path : Text) (members after : Members)
      → apart (split dot d.path) (split dot path) ≡ true
      → ((is_nil d.path ≡ true) × (after ≡ members)) ⊎ Effect libraries d members after
      → get_nested_value after path ≡ get_nested_value members path
  Effect-apart d path members after away (inl (unnamed, same)) =
      ap (λ m. get_nested_value m path) same
  Effect-apart d path members after away (inr (inl (value, is, editable, same))) =
      ap (λ m. get_nested_value m path) same
  Effect-apart d path members after away (inr (inr (text, value, nothing, is, v, same))) =
      ap (λ m. get_nested_value m path) same
      ∙ get_parts-set_parts_other (split dot d.path) (split dot path) value members away

  abbrev Defaulted : List FieldDefinition → Type 0
  Defaulted definitions =
      All (λ (d : FieldDefinition). lacks_default libraries d ≡ false) definitions

  definitions_apart :
      (path : Text) (definitions : List FieldDefinition) (compiler : C) (members after : Members)
      → Defaulted definitions
      → All (λ (d : FieldDefinition). apart (split dot path) (split dot d.path) ≡ true) definitions
      → apply_definitions libraries definitions compiler members ≡ ok after
      → get_nested_value after path ≡ get_nested_value members path
  unfolding apply_definitions
  definitions_apart path [] compiler members after valid away h =
      ap (λ m. get_nested_value m path) (let e : after ≡ members = cc in e)
  definitions_apart path (d ∷ definitions) compiler members after valid away h =
      let (applied, a, rest) = >>=-eq-ok (apply_definition libraries d compiler members) _ h in
      let effect = definition-Effect libraries d compiler applied.0 members applied.1 valid.0 a in
      definitions_apart path definitions applied.0 applied.1 after valid.1 away.1 rest
      ∙ Effect-apart d path members applied.1 (apart_sym (split dot path) (split dot d.path) away.0)
          effect

  abbrev AllSettled : List FieldDefinition → Members → Members → Type 0
  AllSettled definitions before after =
      All
        (λ (d : FieldDefinition).
          (is_nil d.path ≡ true)
          ⊎ Settled libraries d (get_nested_value before d.path) (get_nested_value after d.path))
        definitions

  -- What is settled stays so, seen from a map that has the same values at the paths.
  AllSettled-before :
      (d : FieldDefinition) (definitions : List FieldDefinition) (members between after : Members)
      → ((path : Text)
          → apart (split dot d.path) (split dot path) ≡ true
          → get_nested_value between path ≡ get_nested_value members path)
      → All
          (λ (e : FieldDefinition). apart (split dot d.path) (split dot e.path) ≡ true)
          definitions
      → AllSettled definitions between after
      → AllSettled definitions members after
  AllSettled-before d [] members between after same away h = tt
  AllSettled-before d (e ∷ definitions) members between after same away h = (
    rw (← same e.path away.0) h.0,
    AllSettled-before d definitions members between after same away.1 h.1,
  )

  definitions-AllSettled :
      (definitions : List FieldDefinition) (compiler : C) (members after : Members)
      → Defaulted definitions
      → Parted definitions
      → apply_definitions libraries definitions compiler members ≡ ok after
      → AllSettled definitions members after
  unfolding apply_definitions
  definitions-AllSettled [] compiler members after valid parted h = tt
  definitions-AllSettled (d ∷ definitions) compiler members after valid parted h =
      let (applied, a, rest) = >>=-eq-ok (apply_definition libraries d compiler members) _ h in
      let effect = definition-Effect libraries d compiler applied.0 members applied.1 valid.0 a in
      let kept =
        definitions_apart d.path definitions applied.0 applied.1 after valid.1 parted.0 rest in
      (
        elim effect [
          | inl (unnamed, same) ↦ inl unnamed
          | inr e ↦ inr (rw kept (Effect-Settled d members applied.1 e))
        ],
        AllSettled-before d definitions members applied.1 after
            (λ path away. Effect-apart d path members applied.1 away effect) parted.0
            (definitions-AllSettled definitions applied.0 applied.1 after valid.1 parted.1 rest),
      )

  valid-Defaulted :
      (definitions : List FieldDefinition)
      → validate_field_definitions libraries definitions ≡ ok tt
      → Defaulted definitions
  unfolding validate_field_definitions
  valid-Defaulted [] h = tt
  valid-Defaulted (d ∷ definitions) h =
      let (first, h') =
        >>-eq-ok (refuse (lacks_default libraries d) (status invalid_argument)) _ h in
      let (second, rest) =
        >>-eq-ok
          (refuse (not (d.validation_schema == "") && has_invalid_schema libraries d)
            (status invalid_argument))
          _ h' in
      (refuse-eq-ok _ _ first, valid-Defaulted definitions rest)

  applied :
      (spec made : M) (definitions : List FieldDefinition) (members : Members)
      → is_nil definitions ≡ false
      → libraries.marshal spec ≡ some members
      → apply_field_definitions libraries spec definitions ≡ ok made
      → (after : Members) × (is_nil
            (unlisted_paths (allowed_paths definitions) (collect_leaf_paths [] members))
          ≡ true)
        × (apply_definitions libraries definitions libraries.new_compiler members ≡ ok after)
        × (libraries.unmarshal after ≡ some made)
  unfolding apply_field_definitions
  applied spec made definitions members some_defined m h =
      let h1 = rw (some_defined, m) at h in
      let (listed, h2) =
        >>-eq-ok
          (refuse
            (not
              (is_nil (unlisted_paths (allowed_paths definitions) (collect_leaf_paths [] members))))
            (status invalid_argument))
          _ h1 in
      let (after, a, h3) =
        >>=-eq-ok (apply_definitions libraries definitions libraries.new_compiler members) _ h2 in
      (after, ground (arith, refuse-eq-ok _ _ listed), a, or_else-eq-ok _ _ made h3)

  -- When a catalog item has field definitions, all of them valid, no path of one leads through that
  -- of another, and applying them to a specification succeeds, the result is what protojson reads
  -- from a map in which each field that a definition names has the value that the caller gave, if
  -- the caller gave one other than null, and then the field is editable, and otherwise its default
  -- value.
  pub apply_field_definitions_settles :
      (spec made : M) (definitions : List FieldDefinition) (members : Members)
      → is_nil definitions ≡ false
      → validate_field_definitions libraries definitions ≡ ok tt
      → Parted definitions
      → libraries.marshal spec ≡ some members
      → apply_field_definitions libraries spec definitions ≡ ok made
      → (after : Members) × (libraries.unmarshal after ≡ some made)
        × All
            (λ (d : FieldDefinition).
              (is_nil d.path ≡ true)
              ⊎ Settled libraries d
                  (get_nested_value members d.path)
                  (get_nested_value after d.path))
            definitions
  apply_field_definitions_settles spec made definitions members some_defined valid parted m h =
      let (after, listed, a, u) = applied spec made definitions members some_defined m h in
      (
        after,
        u,
        definitions-AllSettled definitions libraries.new_compiler members after
            (valid-Defaulted definitions valid) parted a,
      )

  -- When a catalog item has field definitions and applying them to a specification succeeds, every
  -- value other than a map that the specification has under some keys, at any depth, stands at a
  -- path that `isPathCovered` accepts for the paths of the definitions, `catalog_item`, `template`
  -- and `template_parameters`.
  pub apply_field_definitions_listed :
      (spec made : M) (definitions : List FieldDefinition) (members : Members) (keys : List Text)
      (value : Json)
      → is_nil definitions ≡ false
      → libraries.marshal spec ≡ some members
      → apply_field_definitions libraries spec definitions ≡ ok made
      → get_parts keys (object members) ≡ some value
      → is_object value ≡ false
      → is_path_covered (path_behind [] keys) (allowed_paths definitions) ≡ true
  apply_field_definitions_listed spec made definitions members keys value some_defined m h found
        leaf =
      let (after, listed, a, u) = applied spec made definitions members some_defined m h in
      All-collect_leaf_paths (λ path. is_path_covered path (allowed_paths definitions) ≡ true) keys
        members value (unlisted_paths-All _ _ listed) found leaf
