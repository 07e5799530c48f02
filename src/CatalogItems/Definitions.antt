-- ===== src/CatalogItems/Definitions.antt =====
-- internal/servers/catalog_item_validation.go: validating and applying the definitions of fields.
use osac_fulfillment_service.Prelude.{
  Bool, true, false, not, ◌&&◌, String, List, [], ◌∷◌, ◌++◌, Option, none, some, eqb, if◌then◌else◌,
}
use osac_fulfillment_service.Prelude.Compare.{◌==◌, string_comparable}
use osac_fulfillment_service.Errors.{
  status, invalid_argument, internal, Result, ok, err, ◌>>=◌, ◌>>◌, refuse,
}
use osac_fulfillment_service.Servers.Labels.{characters, dot}
use osac_fulfillment_service.CatalogItems.{
  Text, is_nil, text_comparable, Json, null_value, plain, object, Members, get_nested_value,
  set_nested_value, collect_leaf_paths, unlisted_paths,
}

-- `privatev1.FieldDefinition`, with its default value and its schema by their text.
pub record FieldDefinition : Type 0 where
  pub path : Text
  pub editable : Bool
  pub default_value : Option String
  pub validation_schema : String

unfoldable pub defined_paths : List FieldDefinition → List Text
defined_paths [] = []
defined_paths (d ∷ definitions) =
    let rest = defined_paths definitions in if is_nil d.path then rest else d.path ∷ rest

abbrev pub allowed_paths : List FieldDefinition → List Text
allowed_paths definitions =
    characters "catalog_item"
    ∷ characters "template"
    ∷ characters "template_parameters"
    ∷ defined_paths definitions

abbrev pub or_else {ℓ} : {A : Type ℓ} → Option A → Result A → Result A
or_else none other = other
or_else (some a) other = ok a

unfoldable pub replace_dots : Text → Text
replace_dots [] = []
replace_dots (c ∷ s) = (if eqb c dot then 95 else c) ∷ replace_dots s

abbrev pub resource_name : Text → Text
resource_name path = characters "schema_" ++ replace_dots path ++ characters ".json"

-- The libraries: `json.Unmarshal` of a schema, the JSON of a `structpb.Value`, the compiler of
-- jsonschema with its state, and protojson on the messages of the resource.
pub record Libraries (C M : Type 0) : Type 0 where
  pub parse : String → Option Json
  pub default_json : String → Option Json
  pub new_compiler : C
  pub add_resource : Text → Json → C → Option C
  pub compile : Text → C → Option ((Json → Bool) × C)
  pub marshal : M → Option Members
  pub unmarshal : Members → Option M

-- A value that the caller gives.
abbrev pub given : Option Json → Option Json
given none = none
given (some null_value) = none
given (some (plain text)) = some (plain text)
given (some (object members)) = some (object members)

module _ {C M : Type 0} (libraries : Libraries C M) where
  abbrev pub has_invalid_schema : FieldDefinition → Bool
  has_invalid_schema d = elim (libraries.parse d.validation_schema) [
    | none ↦ true
    | some doc ↦ false
  ]

  abbrev pub lacks_default : FieldDefinition → Bool
  lacks_default d = elim d.default_value [ none ↦ not d.editable | some text ↦ false ]

  unfoldable pub validate_field_definitions : List FieldDefinition → Result (Unit {0})
  validate_field_definitions [] = ok tt
  validate_field_definitions (d ∷ definitions) = do
    refuse (lacks_default d) (status invalid_argument)
    refuse (not (d.validation_schema == "") && has_invalid_schema d) (status invalid_argument)
    validate_field_definitions definitions

  unfoldable pub apply_default : Members → Text → Option String → Result Members
  apply_default members path none = ok members
  apply_default members path (some text) = do
    parsed ← or_else (libraries.default_json text) (err (status internal))
    ok (set_nested_value members path parsed)

  unfoldable pub validate_against_schema : C → Text → Json → String → Result C
  validate_against_schema compiler path value text = do
    doc ← or_else (libraries.parse text) (err (status internal))
    added ←
        or_else (libraries.add_resource (resource_name path) doc compiler) (err (status internal))
    compiled ← or_else (libraries.compile (resource_name path) added) (err (status internal))
    refuse (not (compiled.0 value)) (status invalid_argument)
    ok compiled.1

  -- A definition of a field that is not editable, and of one that is.
  unfoldable pub apply_fixed : FieldDefinition → Option Json → Members → Result Members
  apply_fixed d (some value) members = err (status invalid_argument)
  apply_fixed d none members = apply_default members d.path d.default_value

  unfoldable pub apply_editable : FieldDefinition → Option Json → C → Members → Result (C × Members)
  apply_editable d (some value) compiler members =
      if d.validation_schema == "" then ok (compiler, members) else (do
        checked ← validate_against_schema compiler d.path value d.validation_schema
        ok (checked, members))
  apply_editable d none compiler members = elim d.default_value [
    | none ↦ err (status invalid_argument)
    | some text ↦ (do applied ← apply_default members d.path (some text); ok (compiler, applied))
  ]

  unfoldable pub apply_definition : FieldDefinition → C → Members → Result (C × Members)
  apply_definition d compiler members =
      let user = given (get_nested_value members d.path) in
      if is_nil d.path
      then ok (compiler, members)
      else if not d.editable
      then (do applied ← apply_fixed d user members; ok (compiler, applied))
      else apply_editable d user compiler members

  unfoldable pub apply_definitions : List FieldDefinition → C → Members → Result Members
  apply_definitions [] compiler members = ok members
  apply_definitions (d ∷ definitions) compiler members = do
    applied ← apply_definition d compiler members
    apply_definitions definitions applied.0 applied.1

  unfoldable pub apply_field_definitions : M → List FieldDefinition → Result M
  apply_field_definitions spec definitions = if is_nil definitions then ok spec else (do
    members ← or_else (libraries.marshal spec) (err (status internal))
    refuse
        (not (is_nil (unlisted_paths (allowed_paths definitions) (collect_leaf_paths [] members))))
        (status invalid_argument)
    applied ← apply_definitions definitions libraries.new_compiler members
    or_else (libraries.unmarshal applied) (err (status internal)))
