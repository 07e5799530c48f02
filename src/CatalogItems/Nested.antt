-- ===== src/CatalogItems/Nested.antt =====
-- internal/servers/catalog_item_validation.go: reading what was written at a path of a nested map.
use osac_fulfillment_service.Prelude.{
  Bool, true, false, ◌≡◌, ◌∙◌, refl, ap, inl, inr, List, [], ◌∷◌, Option, none, some, arith,
  if◌then◌else◌, Bool-cases,
}
use osac_fulfillment_service.CatalogItems.{
  Text, same_text, same_text_iff, text_comparable, Json, null_value, plain, object, Members, end,
  member, lookup, put, get_parts, set_parts, members_in,
}

pub lookup-put :
    (name key : Text) (value : Json) (members : Members)
    → lookup key (put name value members)
      ≡ (if same_text name key then some value else lookup key members)
unfolding lookup put
lookup-put name key value end = refl
lookup-put name key value (member k v rest) = ground (
  arith,
  same_text_iff k name,
  same_text_iff k key,
  same_text_iff name key,
  lookup-put name key value rest,
)

same_text_refl : (s : Text) → same_text s s ≡ true
same_text_refl s = (same_text_iff s s).1 refl

-- Neither path leads through the other: they part at a key.
abbrev pub apart : List Text → List Text → Bool
apart [] qs = false
apart (p ∷ ps) [] = false
apart (p ∷ ps) (q ∷ qs) = if same_text p q then apart ps qs else true

pub apart_sym : (ps qs : List Text) → apart ps qs ≡ true → apart qs ps ≡ true
apart_sym [] qs h = absurd (ground arith)
apart_sym (p ∷ ps) [] h = absurd (ground arith)
apart_sym (p ∷ ps) (q ∷ qs) h =
    ground (arith, same_text_iff p q, same_text_iff q p, apart_sym ps qs)

-- What a path finds behind a key.
get_parts-members_in :
    (q : Text) (qs : List Text) (found : Option Json)
    → get_parts (q ∷ qs) (object (members_in found))
      ≡ (elim found [ none ↦ none | some value ↦ get_parts (q ∷ qs) value ])
unfolding get_parts lookup
get_parts-members_in q qs none = refl
get_parts-members_in q qs (some null_value) = refl
get_parts-members_in q qs (some (plain text)) = refl
get_parts-members_in q qs (some (object members)) = refl

pub get_parts-set_parts :
    (part : Text) (parts : List Text) (value : Json) (members : Members)
    → get_parts (part ∷ parts) (object (set_parts (part ∷ parts) value members)) ≡ some value
unfolding get_parts set_parts
get_parts-set_parts part [] value members =
    rw (get_parts, lookup-put part part value members, same_text_refl part) refl
get_parts-set_parts part (next ∷ parts) value members =
    rw
      (
        get_parts,
        lookup-put part part
            (object (set_parts (next ∷ parts) value (members_in (lookup part members)))) members,
        same_text_refl part,
      )
      (get_parts-set_parts next parts value (members_in (lookup part members)))

pub get_parts-set_parts_other :
    (ps qs : List Text) (value : Json) (members : Members)
    → apart ps qs ≡ true
    → get_parts qs (object (set_parts ps value members)) ≡ get_parts qs (object members)
unfolding get_parts set_parts
get_parts-set_parts_other [] qs value members h = absurd (ground arith)
get_parts-set_parts_other (p ∷ ps) [] value members h = absurd (ground arith)
get_parts-set_parts_other (p ∷ []) (q ∷ qs) value members h =
    rw (get_parts, lookup-put p q value members) (ground arith)
get_parts-set_parts_other (p ∷ next ∷ ps) (q ∷ []) value members h =
    rw
      (
        get_parts,
        lookup-put p q (object (set_parts (next ∷ ps) value (members_in (lookup p members))))
            members,
      )
      (ground arith)
get_parts-set_parts_other (p ∷ next ∷ ps) (q ∷ r ∷ qs) value members h =
    let below = object (set_parts (next ∷ ps) value (members_in (lookup p members))) in
    elim (Bool-cases (same_text p q)) [
      | inr differ ↦ rw (get_parts, lookup-put p q below members, differ) refl
      | inl same ↦
          let e : p ≡ q = (same_text_iff p q).0 same in
          let rest : apart (next ∷ ps) (r ∷ qs) ≡ true = ground arith in
          rw (get_parts, lookup-put p q below members, same)
            (get_parts-set_parts_other (next ∷ ps) (r ∷ qs) value (members_in (lookup p members))
                rest
              ∙ get_parts-members_in r qs (lookup p members)
              ∙ ap (λ k. get_parts (k ∷ r ∷ qs) (object members)) e)
    ]
