-- ===== src/CatalogItems/Examples.antt =====
-- internal/servers/catalog_item_validation.go: the theorems at a field that is fixed and one that is not.
use osac_fulfillment_service.Prelude.{
  ℕ, true, false, ◌≡◌, ◌⊎◌, refl, List, [], ◌∷◌, none, some, All,
}
use osac_fulfillment_service.Prelude.Compare.{string_comparable}
use osac_fulfillment_service.Errors.{ok}
use osac_fulfillment_service.Servers.Labels.{characters, split}
use osac_fulfillment_service.CatalogItems.{
  is_nil, plain, object, Members, end, member, lookup, put, get_parts, get_nested_value, set_parts,
  collect_leaf_paths, is_allowed, is_prefix_allowed, is_path_covered, unlisted_paths,
}
use osac_fulfillment_service.CatalogItems.Definitions.{
  FieldDefinition, defined_paths, allowed_paths, Libraries, validate_field_definitions,
  apply_default, apply_fixed, apply_editable, apply_definition, apply_definitions,
  apply_field_definitions, validate_against_schema, replace_dots,
}
use osac_fulfillment_service.CatalogItems.Applying.{Parted, Settled}
use osac_fulfillment_service.CatalogItems.Settling.{
  apply_field_definitions_settles, apply_field_definitions_listed,
}

-- A schema is the text that a value is to have.
abbrev libraries : Libraries ℕ Members
libraries = record {
  parse = λ text. some (plain text);
  default_json = λ text. some (plain text);
  new_compiler = 0;
  add_resource = λ name doc compiler. some compiler;
  compile = λ name compiler. some ((λ value. true), compiler);
  marshal = λ spec. some spec;
  unmarshal = λ members. some members;
}

abbrev fixed_size : FieldDefinition
fixed_size = record {
  path = characters "size";
  editable = false;
  default_value = some "large";
  validation_schema = "";
}

abbrev open_cidr : FieldDefinition
open_cidr = record {
  path = characters "net.cidr";
  editable = true;
  default_value = none;
  validation_schema = "ten";
}

abbrev definitions : List FieldDefinition
definitions = fixed_size ∷ open_cidr ∷ []

abbrev spec : Members
spec =
    member (characters "template") (plain "t")
      (member (characters "net") (object (member (characters "cidr") (plain "ten") end)) end)

abbrev made : Members
made = member (characters "template") (plain "t") (
    member (characters "net") (object (member (characters "cidr") (plain "ten") end))
      (member (characters "size") (plain "large") end))

applies : apply_field_definitions libraries spec definitions ≡ ok made
unfolding apply_field_definitions apply_definitions apply_definition apply_fixed apply_editable
    apply_default validate_against_schema replace_dots defined_paths unlisted_paths is_path_covered
    is_prefix_allowed is_allowed collect_leaf_paths set_parts get_parts lookup put split
applies = refl

valid : validate_field_definitions libraries definitions ≡ ok tt
unfolding validate_field_definitions
valid = refl

parted : Parted definitions
unfolding split
parted = ((refl, tt), (tt, tt))

apply_field_definitions_settles_example :
    (after : Members) × (libraries.unmarshal after ≡ some made)
    × All
        (λ (d : FieldDefinition).
          (is_nil d.path ≡ true)
          ⊎ Settled libraries d (get_nested_value spec d.path) (get_nested_value after d.path))
        definitions
apply_field_definitions_settles_example =
    apply_field_definitions_settles libraries spec made definitions spec refl valid parted refl
      applies

given_cidr :
    get_parts (characters "net" ∷ characters "cidr" ∷ []) (object spec) ≡ some (plain "ten")
unfolding get_parts lookup
given_cidr = refl

apply_field_definitions_listed_example :
    is_path_covered (characters "net.cidr") (allowed_paths definitions) ≡ true
apply_field_definitions_listed_example =
    apply_field_definitions_listed libraries spec made definitions spec
      (characters "net" ∷ characters "cidr" ∷ []) (plain "ten") refl refl applies given_cidr refl
