-- ===== src/Servers/Labels.antt =====
-- internal/servers/generic_server.go: the validation of labels and annotations. A text is the list
-- of its code points; where it is not ASCII, Go counts more bytes, but then a character is refused
-- all the same. Every refusal has the code `InvalidArgument`, so a validation is a Boolean.
pub mod Keys
mod Examples
use Prim.Native.Char.{code}
use osac_fulfillment_service.Prelude.{
  ℕ, ◌≤◌, Bool, true, false, not, ◌||◌, ◌&&◌, ◌≡◌, ◌∙◌, ◌⊎◌, inl, inr, refl, String, List, [], ◌∷◌,
  ◌++◌, length, eqb, leb, ltb, arith, if◌then◌else◌, Bool-cases,
}
use osac_fulfillment_service.Dao.{Metadata, StringMap}

-- The characters of a text.
abbrev pub characters : String → List ℕ
characters String.[] = []
characters (String.◌∷◌ c s) = code c ∷ characters s

abbrev pub slash : ℕ
slash = 47

abbrev pub dot : ℕ
dot = 46

abbrev pub hyphen : ℕ
hyphen = 45

abbrev pub is_alphanumeric : ℕ → Bool
is_alphanumeric c = (leb 97 c && leb c 122) || (leb 48 c && leb c 57)

abbrev pub is_dns_character : ℕ → Bool
is_dns_character c = is_alphanumeric c || eqb c hyphen

abbrev pub is_name_character : ℕ → Bool
is_name_character c = is_alphanumeric c || eqb c hyphen || eqb c 95 || eqb c dot

-- The loops over the characters stop at the first one that is refused.
unfoldable pub all_characters : (ℕ → Bool) → List ℕ → Bool
all_characters p [] = true
all_characters p (c ∷ s) = p c && all_characters p s

-- `value[0]` and `value[len(value)-1]`, for a value that is not empty.
abbrev pub first_is : (ℕ → Bool) → List ℕ → Bool
first_is p [] = false
first_is p (c ∷ s) = p c

unfoldable pub last_is : (ℕ → Bool) → List ℕ → Bool
last_is p [] = false
last_is p (c ∷ []) = p c
last_is p (c ∷ d ∷ s) = last_is p (d ∷ s)

-- The first part and the parts after it.
abbrev pub cons_first : ℕ → List (List ℕ) → List (List ℕ)
cons_first c [] = (c ∷ []) ∷ []
cons_first c (part ∷ parts) = (c ∷ part) ∷ parts

-- `strings.Split` by one character.
unfoldable pub split : ℕ → List ℕ → List (List ℕ)
split separator [] = [] ∷ []
split separator (c ∷ s) =
    let rest = split separator s in if eqb c separator then [] ∷ rest else cons_first c rest

unfoldable pub validate_label_name_or_value : List ℕ → Bool
unfolding all_characters last_is
validate_label_name_or_value value =
    if ltb (length value) 1 || ltb 63 (length value)
    then false
    else if not (all_characters is_name_character value)
    then false
    else first_is is_alphanumeric value && last_is is_alphanumeric value

unfoldable pub validate_dns_label : List ℕ → Bool
unfolding all_characters last_is
validate_dns_label label =
    if ltb 63 (length label)
    then false
    else if not (all_characters is_dns_character label)
    then false
    else not (first_is (eqb hyphen) label || last_is (eqb hyphen) label)

abbrev pub is_empty : List ℕ → Bool
is_empty s = eqb (length s) 0

unfoldable pub validate_segments : List (List ℕ) → Bool
unfolding validate_dns_label
validate_segments [] = true
validate_segments (segment ∷ segments) =
    let rest = validate_segments segments in
    if is_empty segment then false else if validate_dns_label segment then rest else false

unfoldable pub validate_label_prefix : List ℕ → Bool
unfolding validate_segments split
validate_label_prefix prefix =
    if ltb (length prefix) 1 || ltb 253 (length prefix)
    then false
    else validate_segments (split dot prefix)

unfoldable pub validate_parts : List (List ℕ) → Bool
unfolding validate_label_prefix validate_label_name_or_value
validate_parts [] = false
validate_parts (name ∷ []) = validate_label_name_or_value name
validate_parts (prefix ∷ name ∷ []) =
    if is_empty prefix || is_empty name
    then false
    else if validate_label_prefix prefix
    then validate_label_name_or_value name
    else false
validate_parts (a ∷ b ∷ c ∷ parts) = false

unfoldable pub validate_label_key : List ℕ → Bool
unfolding validate_parts split
validate_label_key key = if is_empty key then false else validate_parts (split slash key)

unfoldable pub validate_labels : StringMap → Bool
unfolding validate_label_key validate_label_name_or_value
validate_labels [] = true
validate_labels ((key, value) ∷ labels) =
    let rest = validate_labels labels in
    if not (validate_label_key (characters key))
    then false
    else if is_empty (characters value)
    then rest
    else if validate_label_name_or_value (characters value)
    then rest
    else false

unfoldable pub validate_annotations : StringMap → Bool
unfolding validate_label_key
validate_annotations [] = true
validate_annotations ((key, value) ∷ annotations) =
    let rest = validate_annotations annotations in
    if validate_label_key (characters key) then rest else false

unfoldable pub validate_metadata : Metadata → Bool
unfolding validate_labels validate_annotations
validate_metadata metadata =
    if validate_labels metadata.labels then validate_annotations metadata.annotations else false
