-- ===== src/Masks/Compiler.antt =====
-- internal/masks/mask_path_compiler.go: PathCompiler.Compile, from the segments of a path. What
-- `split` and strconv.Atoi answer comes from outside: a path is the list of its segments.
use osac_fulfillment_service.Prelude.{String, List, [], ◌∷◌, Option, none, some, if◌then◌else◌}
use osac_fulfillment_service.Prelude.Compare.{◌==◌, string_comparable}
use osac_fulfillment_service.Prelude.Int.{ℤ}
use osac_fulfillment_service.Masks.{
  Element, scalar_element, message_element, Kind, scalar_kind, message_kind, list_kind, map_kind,
  Field, Schema, Outcome, done, failed, ◌>>=◌,
}
use osac_fulfillment_service.Masks.Paths.{PathStep, field_step, list_index, map_key}

-- `Fields().ByName`.
unfoldable pub by_name : String → List Field → Option Field
by_name name [] = none
by_name name (field ∷ fields) = if field.name == name then some field else by_name name fields

-- The type in which the next segment is looked up: it stays the same behind a scalar.
abbrev pub element_type : Element → String → String
element_type (scalar_element zero_value) type_name = type_name
element_type (message_element next) type_name = next

abbrev pub next_type : Kind → String → String
next_type (scalar_kind tracked zero_value) type_name = type_name
next_type (message_kind next) type_name = next
next_type (list_kind element) type_name = element_type element type_name
next_type (map_kind element) type_name = element_type element type_name

abbrev pub prepend : PathStep → Outcome (List PathStep) → Outcome (List PathStep)
prepend step outcome = outcome >>= λ steps. done (step ∷ steps)

abbrev pub or_failed : Option ℤ → Outcome ℤ
or_failed none = failed
or_failed (some index) = done index

abbrev pub or_not_found : Option Field → Outcome Field
or_not_found none = failed
or_not_found (some field) = done field

module _ (schema : Schema) (atoi : String → Option ℤ) where
  -- A segment behind the name of a list is an index, one behind the name of a map is a key. The two
  -- outcomes are those of the segments from the second and from the third one on.
  abbrev pub compile_step :
      Field
      → String
      → (from_second from_third : Outcome (List PathStep)) → Kind
      → Outcome (List PathStep)
  compile_step field second from_second from_third (list_kind element) =
      or_failed (atoi second) >>= λ index. prepend (list_index field index) from_third
  compile_step field second from_second from_third (map_kind element) =
      prepend (map_key field second) from_third
  compile_step field second from_second from_third _ = prepend (field_step field) from_second

  unfoldable pub compile : String → List String → Outcome (List PathStep)
  compile type_name [] = done []
  compile type_name (name ∷ []) = or_not_found (by_name name (schema.fields type_name)) >>= λ field.
      done (field_step field ∷ [])
  compile type_name (name ∷ second ∷ rest) = do
    field ← or_not_found (by_name name (schema.fields type_name))
    let next = next_type field.kind type_name
    compile_step field second (compile next (second ∷ rest)) (compile next rest) field.kind
