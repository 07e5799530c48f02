-- ===== src/Masks.antt =====
-- internal/masks: messages of google.golang.org/protobuf/reflect/protoreflect as far as the package
-- reads and writes them.
pub mod Paths
pub mod Compiler
pub mod Calculator
pub mod Merging
pub mod Slots
pub mod Differences
pub mod Cases
pub mod Sameness
pub mod Nesting
pub mod Wholes
pub mod Convergence
pub mod Laws
pub mod Indexes
pub mod Setting
mod Examples
use osac_fulfillment_service.Prelude.{
  Bool, true, false, not, ◌||◌, String, List, Option, none, some, if◌then◌else◌,
}
use osac_fulfillment_service.Prelude.Compare.{◌==◌, string_comparable}

-- The kinds of the items of lists and maps, a scalar with its zero value, a message with its type.
pub data Element : Type 0 where
  scalar_element : (zero_value : String) → Element
  message_element : (type_name : String) → Element

-- The kinds of fields. A scalar may track its presence, `optional` in the protocol definition.
pub data Kind : Type 0 where
  scalar_kind : (tracked : Bool) → (zero_value : String) → Kind
  message_kind : (type_name : String) → Kind
  list_kind : Element → Kind
  map_kind : Element → Kind

-- `protoreflect.FieldDescriptor`, and the fields of each type of message in their order.
pub record Field : Type 0 where
  pub name : String
  pub kind : Kind

pub record Schema : Type 0 where
  pub fields : String → List Field

-- Values, with scalars by their text. The fields of a message and the entries of a map go by name.
mutual
  pub data Value : Type 0 where
    scalar : String → Value
    message : Fields → Value
    repeated : Items → Value
    keyed : Fields → Value

  pub data Items : Type 0 where
    nil : Items
    item : Value → Items → Items

  pub data Fields : Type 0 where
    end : Fields
    slot : String → Value → Fields → Fields

unfoldable pub lookup : String → Fields → Option Value
lookup name end = none
lookup name (slot n value rest) = if n == name then some value else lookup name rest

unfoldable pub put : String → Value → Fields → Fields
put name value end = slot name value end
put name value (slot n v rest) =
    if n == name then slot name value rest else slot n v (put name value rest)

unfoldable pub remove : String → Fields → Fields
remove name end = end
remove name (slot n v rest) = if n == name then remove name rest else slot n v (remove name rest)

-- What protoreflect has for a field of a kind: no empty list or map, and no zero scalar, unless its
-- presence is tracked.
abbrev pub is_populated : Kind → Value → Bool
is_populated (scalar_kind tracked zero_value) (scalar text) = tracked || not (text == zero_value)
is_populated (message_kind type_name) (message fields) = true
is_populated (list_kind element) (repeated (item value items)) = true
is_populated (map_kind element) (keyed (slot key value entries)) = true
is_populated _ _ = false

-- The value of the field, if the message has it: `Has` and `Get`.
abbrev pub populated : Kind → Option Value → Option Value
populated kind none = none
populated kind (some value) = if is_populated kind value then some value else none

abbrev pub get_field : Field → Fields → Option Value
get_field field fields = populated field.kind (lookup field.name fields)

-- `NewElement` and `NewValue`.
abbrev pub new_element : Element → Value
new_element (scalar_element zero_value) = scalar zero_value
new_element (message_element type_name) = message end

-- `NewField`.
abbrev pub new_field : Kind → Value
new_field (scalar_kind tracked zero_value) = scalar zero_value
new_field (message_kind type_name) = message end
new_field (list_kind element) = repeated nil
new_field (map_kind element) = keyed end

-- What a call comes to: a result, an error, or a panic of the Go program.
pub data Outcome {ℓ} (A : Type ℓ) : Type ℓ where
  done : A → Outcome A
  failed : Outcome A
  panicked : Outcome A

infixl 5 ◌>>=◌
abbrev pub ◌>>=◌ {ℓ κ} : {S : Type ℓ} {T : Type κ} → Outcome S → (S → Outcome T) → Outcome T
done s >>= next = next s
failed >>= next = failed
panicked >>= next = panicked
