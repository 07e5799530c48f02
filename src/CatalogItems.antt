-- ===== src/CatalogItems.antt =====
-- internal/servers/catalog_item_validation.go: the fields that a catalog item defines, and what they do to
-- the specification of a resource. A text is the list of its code points, as in Servers/Labels.antt.
pub mod Definitions
pub mod Nested
pub mod Leaves
pub mod Applying
pub mod Settling
mod Examples
use osac_fulfillment_service.Prelude.{
  ℕ, Bool, true, false, not, ◌||◌, ◌&&◌, ◌≡◌, ◌↔◌, refl, String, List, [], ◌∷◌, ◌++◌, Option, none,
  some, eqb, arith, if◌then◌else◌,
}
use osac_fulfillment_service.Prelude.Compare.{Comparable, ◌==◌, string_comparable}
use osac_fulfillment_service.Errors.{
  status, invalid_argument, internal, Result, ok, err, ◌>>=◌, ◌>>◌, refuse,
}
use osac_fulfillment_service.Servers.Labels.{characters, dot, split}

abbrev pub Text : Type 0
Text = List ℕ

abbrev pub is_nil {ℓ} : {A : Type ℓ} → List A → Bool
is_nil [] = true
is_nil (x ∷ xs) = false

abbrev pub same_text : Text → Text → Bool
same_text [] [] = true
same_text [] (d ∷ t) = false
same_text (c ∷ s) [] = false
same_text (c ∷ s) (d ∷ t) = eqb c d && same_text s t

pub same_text_iff : (s t : Text) → (same_text s t ≡ true) ↔ (s ≡ t)
same_text_iff [] [] = ground arith
same_text_iff [] (d ∷ t) = ground arith
same_text_iff (c ∷ s) [] = ground arith
same_text_iff (c ∷ s) (d ∷ t) = ground (arith, same_text_iff s t)

instance abbrev pub text_comparable : Comparable Text
text_comparable = record { same = same_text; same_iff = same_text_iff }

-- What `json.Unmarshal` puts into a variable of type `any`: numbers, strings, Booleans and arrays by
-- their text, and a Go map by its members.
mutual
  pub data Json : Type 0 where
    null_value : Json
    plain : String → Json
    object : Members → Json

  pub data Members : Type 0 where
    end : Members
    member : Text → Json → Members → Members

unfoldable pub lookup : Text → Members → Option Json
lookup key end = none
lookup key (member k value rest) = if k == key then some value else lookup key rest

unfoldable pub put : Text → Json → Members → Members
put key value end = member key value end
put key value (member k v rest) =
    if k == key then member key value rest else member k v (put key value rest)

unfoldable pub get_parts : List Text → Json → Option Json
get_parts [] value = some value
get_parts (part ∷ parts) (object members) = elim (lookup part members) [
  | none ↦ none
  | some value ↦ get_parts parts value
]
get_parts (part ∷ parts) null_value = none
get_parts (part ∷ parts) (plain text) = none

abbrev pub get_nested_value : Members → Text → Option Json
get_nested_value members path = get_parts (split dot path) (object members)

-- The map under a key, a new one where the key is missing or has another value.
abbrev pub members_in : Option Json → Members
members_in none = end
members_in (some null_value) = end
members_in (some (plain text)) = end
members_in (some (object members)) = members

unfoldable pub set_parts : List Text → Json → Members → Members
set_parts [] value members = members
set_parts (part ∷ []) value members = put part value members
set_parts (part ∷ next ∷ parts) value members =
    put part (object (set_parts (next ∷ parts) value (members_in (lookup part members)))) members

abbrev pub set_nested_value : Members → Text → Json → Members
set_nested_value members path value = set_parts (split dot path) value members

abbrev pub full_path : Text → Text → Text
full_path prefix key = if is_nil prefix then key else prefix ++ dot ∷ key

-- `collectLeafPaths`, at the members of a map and at one value of it.
unfoldable mutual
  pub collect_leaf_paths : Text → Members → List Text
  collect_leaf_paths prefix end = []
  collect_leaf_paths prefix (member key value rest) =
      collect_leaves (full_path prefix key) value ++ collect_leaf_paths prefix rest

  pub collect_leaves : Text → Json → List Text
  collect_leaves path null_value = path ∷ []
  collect_leaves path (plain text) = path ∷ []
  collect_leaves path (object members) = collect_leaf_paths path members

unfoldable pub is_allowed : Text → List Text → Bool
is_allowed path [] = false
is_allowed path (allowed ∷ rest) = allowed == path || is_allowed path rest

-- The loop over the positions of the path.
unfoldable pub is_prefix_allowed : Text → Text → List Text → Bool
is_prefix_allowed before [] allowed = false
is_prefix_allowed before (c ∷ s) allowed =
    (eqb c dot && is_allowed before allowed) || is_prefix_allowed (before ++ c ∷ []) s allowed

unfoldable pub is_path_covered : Text → List Text → Bool
is_path_covered path allowed = is_allowed path allowed || is_prefix_allowed [] path allowed

unfoldable pub unlisted_paths : List Text → List Text → List Text
unlisted_paths allowed [] = []
unlisted_paths allowed (path ∷ paths) =
    let rest = unlisted_paths allowed paths in
    if is_path_covered path allowed then rest else path ∷ rest
