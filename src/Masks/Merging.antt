-- ===== src/Masks/Merging.antt =====
-- internal/servers/generic_server.go: how Update takes the fields of an update mask from the object of
-- the request.
use osac_fulfillment_service.Prelude.{String, List, [], ◌∷◌, Option, none, some}
use osac_fulfillment_service.Prelude.Int.{ℤ}
use osac_fulfillment_service.Masks.{Schema, message, Value, Fields, Outcome, done, ◌>>=◌}
use osac_fulfillment_service.Masks.Paths.{PathStep, get, set, clear}
use osac_fulfillment_service.Masks.Compiler.{compile}
use osac_fulfillment_service.Masks.Calculator.{FieldPath}

abbrev pub set_or_clear : List PathStep → Option Value → Fields → Outcome Fields
set_or_clear steps none current = clear steps current
set_or_clear steps (some value) current = set steps value current

unfoldable pub merge_steps : List PathStep → Fields → Fields → Outcome Fields
merge_steps steps request current =
    get steps (message request) >>= λ value. set_or_clear steps value current

module _ (schema : Schema) (atoi : String → Option ℤ) (type_name : String) (request : Fields) where
  abbrev pub merge_path : FieldPath → Fields → Outcome Fields
  merge_path (first, rest) current =
      compile schema atoi type_name (first ∷ rest) >>= λ steps. merge_steps steps request current

  unfoldable pub merge_paths : List FieldPath → Fields → Outcome Fields
  merge_paths [] current = done current
  merge_paths (path ∷ paths) current = merge_path path current >>= λ next. merge_paths paths next
