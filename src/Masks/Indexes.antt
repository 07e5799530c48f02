-- ===== src/Masks/Indexes.antt =====
-- internal/masks/mask_path.go: what Get answers at the index of a list.
use osac_fulfillment_service.Prelude.{
  eqb, eqb_iff, if◌then◌else◌, ℕ, false, ◌≡◌, refl, inl, inr, [], ◌∷◌, none, some, Bool-cases,
  arith, ltb,
}
use osac_fulfillment_service.Prelude.Compare.{string_comparable}
use osac_fulfillment_service.Prelude.Int.{pos}
use osac_fulfillment_service.Masks.{
  Field, Value, message, repeated, Items, nil, item, Fields, get_field, Outcome, done, failed,
  panicked, ◌>>=◌,
}
use osac_fulfillment_service.Masks.Paths.{list_index, count, item_at, get_step, get, or_missing}

found_item :
    (found : Outcome Value)
    → ((found >>= λ v. done (some v)) >>= λ o. or_missing o (get []))
      ≡ (found >>= λ v. done (some v))
unfolding get
found_item (done v) = refl
found_item failed = refl
found_item panicked = refl

item_at-end : (items : Items) → item_at items (count items) ≡ panicked
unfolding item_at
item_at-end nil = refl
item_at-end (item value items) = item_at-end items

-- `Get` at an index of a list that the message has answers with the item below the length of the
-- list, with nothing above it, and panics at the length itself.
pub get_index_lem :
    (field : Field) (i : ℕ) (items : Items) (fields : Fields)
    → get_field field fields ≡ some (repeated items)
    → get (list_index field (pos i) ∷ []) (message fields) ≡ (
        if eqb i (count items)
        then panicked
        else if ltb (count items) i
        then done none
        else (item_at items i >>= λ found. done (some found)))
unfolding get get_step
get_index_lem field i items fields has = elim (Bool-cases (eqb i (count items))) [
  | inl at_end ↦
      let e : i ≡ count items = (eqb_iff i (count items)).0 at_end in
      let longer : ltb (count items) i ≡ false = ground arith in
      rw (has, at_end, longer, e, item_at-end items)
  | inr inside ↦ elim (Bool-cases (ltb (count items) i)) [
    | inl beyond ↦ rw (has, inside, beyond)
    | inr within ↦ rw (has, inside, within) (found_item (item_at items i))
  ]
]
