-- ===== src/CatalogItems/Applying.antt =====
-- internal/servers/catalog_item_validation.go: what applying field definitions leaves.
use osac_fulfillment_service.Prelude.{
  true, false, ◌≡◌, ◌∙◌, ◌⊎◌, refl, ap, inl, inr, String, List, [], ◌∷◌, Option, none, some, eqb,
  arith, Bool-cases, Option-cases, All,
}
use osac_fulfillment_service.Prelude.Compare.{◌==◌, string_comparable}
use osac_fulfillment_service.Errors.{ok, err, status, Error, internal, >>=-eq-ok}
use osac_fulfillment_service.Servers.Labels.{dot, split}
use osac_fulfillment_service.CatalogItems.{
  Text, is_nil, Json, Members, get_nested_value, set_nested_value,
}
use osac_fulfillment_service.CatalogItems.Definitions.{
  FieldDefinition, or_else, Libraries, given, lacks_default, apply_default, validate_against_schema,
  apply_fixed, apply_editable, apply_definition,
}
use osac_fulfillment_service.CatalogItems.Nested.{apart}

pub split-cases : (s : Text) → (part : Text) × (parts : List Text) × (split dot s ≡ part ∷ parts)
unfolding split
split-cases [] = ([], [], refl)
split-cases (c ∷ s) = elim (Bool-cases (eqb c dot)) [
  | inl e ↦ ([], split dot s, rw e refl)
  | inr n ↦ let (part, parts, e) = split-cases s in (c ∷ part, parts, rw (n, e) refl)
]

-- No path of the definitions leads through another one.
abbrev pub Parted : List FieldDefinition → Type 0
Parted [] = Unit
Parted (d ∷ definitions) =
    All (λ (e : FieldDefinition). apart (split dot d.path) (split dot e.path) ≡ true) definitions
    × Parted definitions

pub or_else-eq-ok {ℓ} :
    {A : Type ℓ} (found : Option A) (e : Error) (a : A)
    → or_else found (err e) ≡ ok a
    → found ≡ some a
or_else-eq-ok none e a h = absurd (cc)
or_else-eq-ok (some b) e a h = cc

module _ {C M : Type 0} (libraries : Libraries C M) where
  -- What becomes of the value of one field: one that the caller gave is kept, if the field is
  -- editable, and otherwise the field has its default value.
  abbrev pub Settled : FieldDefinition → Option Json → Option Json → Type 0
  Settled d before after =
      ((value : Json) × (given before ≡ some value) × (d.editable ≡ true) × (after ≡ before))
      ⊎ ((text : String) × (value : Json) × (given before ≡ none)
          × (d.default_value ≡ some text)
          × (libraries.default_json text ≡ some value)
          × (after ≡ some value))

  -- The same with the maps.
  abbrev pub Effect : FieldDefinition → Members → Members → Type 0
  Effect d before after =
      ((value : Json) × (given (get_nested_value before d.path) ≡ some value)
        × (d.editable ≡ true)
        × (after ≡ before))
      ⊎ ((text : String) × (value : Json) × (given (get_nested_value before d.path) ≡ none)
          × (d.default_value ≡ some text)
          × (libraries.default_json text ≡ some value)
          × (after ≡ set_nested_value before d.path value))

  applied_default :
      (members after : Members) (path : Text) (text : String)
      → apply_default libraries members path (some text) ≡ ok after
      → (value : Json) × (libraries.default_json text ≡ some value)
        × (after ≡ set_nested_value members path value)
  unfolding apply_default
  applied_default members after path text h =
      let (value, v, rest) =
        >>=-eq-ok (or_else (libraries.default_json text) (err (status internal))) _ h in
      (value, or_else-eq-ok _ _ value v, cc)

  fixed-Effect :
      (d : FieldDefinition) (members after : Members)
      → lacks_default libraries d ≡ false
      → d.editable ≡ false
      → apply_fixed libraries d (given (get_nested_value members d.path)) members ≡ ok after
      → Effect d members after
  unfolding apply_fixed
  fixed-Effect d members after valid fixed h =
      elim (Option-cases (given (get_nested_value members d.path))) [
        | inr (value, is) ↦ absurd (let f = rw is at h in cc)
        | inl nothing ↦ elim (Option-cases d.default_value) [
          | inl missing ↦ absurd (ground arith)
          | inr (text, is) ↦
              let f = rw (nothing, is) at h in
              let (value, v, same) = applied_default members after d.path text f in
              inr (text, value, nothing, is, v, same)
        ]
      ]

  editable-Effect :
      (d : FieldDefinition) (compiler compiler' : C) (members after : Members)
      → d.editable ≡ true
      → apply_editable libraries d (given (get_nested_value members d.path)) compiler members
        ≡ ok (compiler', after)
      → Effect d members after
  unfolding apply_editable
  editable-Effect d compiler compiler' members after editable h =
      elim (Option-cases (given (get_nested_value members d.path))) [
        | inr (value, is) ↦
            let f = rw is at h in
            inl (
              value,
              is,
              editable,
              elim (Bool-cases (d.validation_schema == "")) [
                | inl plain ↦ (let g = rw plain at f in cc)
                | inr schema ↦
                    let g = rw schema at f in
                    let (checked, c, rest) =
                      >>=-eq-ok
                        (validate_against_schema libraries compiler d.path value
                          d.validation_schema)
                        _ g in
                    cc
              ],
            )
        | inl nothing ↦ elim (Option-cases d.default_value) [
          | inl missing ↦ absurd (let f = rw (nothing, missing) at h in cc)
          | inr (text, is) ↦
              let f = rw (nothing, is) at h in
              let (applied, a, rest) =
                >>=-eq-ok (apply_default libraries members d.path (some text)) _ f in
              let (value, v, same) = applied_default members applied d.path text a in
              inr (text, value, nothing, is, v, cc)
        ]
      ]

  pub definition-Effect :
      (d : FieldDefinition) (compiler compiler' : C) (members after : Members)
      → lacks_default libraries d ≡ false
      → apply_definition libraries d compiler members ≡ ok (compiler', after)
      → ((is_nil d.path ≡ true) × (after ≡ members)) ⊎ Effect d members after
  unfolding apply_definition apply_editable apply_fixed
  definition-Effect d compiler compiler' members after valid h = elim (Bool-cases (is_nil d.path)) [
    | inl unnamed ↦ inl (unnamed, let f = rw unnamed at h in cc)
    | inr named ↦ elim (Bool-cases d.editable) [
      | inl editable ↦
          inr (
            editable-Effect d compiler compiler' members after editable (rw (named, editable) at h))
      | inr fixed ↦
          let f = rw (named, fixed) at h in
          let (applied, a, rest) =
            >>=-eq-ok (apply_fixed libraries d (given (get_nested_value members d.path)) members) _
              f in
          let same : applied ≡ after = cc in
          inr (fixed-Effect d members after valid fixed (a ∙ ap ok same))
    ]
  ]
