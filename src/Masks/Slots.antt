-- ===== src/Masks/Slots.antt =====
-- internal/masks: the fields of a message as a map.
use osac_fulfillment_service.Prelude.{
  false, ◌≡◌, refl, String, none, some, if◌then◌else◌, eq_iff, arith, Bool-cases, inl, inr, subst,
}
use osac_fulfillment_service.Prelude.Compare.{◌==◌, string_comparable}
use osac_fulfillment_service.Masks.{
  Value, scalar, message, repeated, keyed, Fields, end, slot, lookup, put, remove,
}

pub lookup-put :
    (name key : String) (value : Value) (fields : Fields)
    → lookup key (put name value fields) ≡ (if name == key then some value else lookup key fields)
unfolding lookup put
lookup-put name key value end = refl
lookup-put name key value (slot n v rest) =
    ground (arith, eq_iff n name, eq_iff n key, eq_iff name key, lookup-put name key value rest)

pub lookup-remove :
    (name key : String) (fields : Fields)
    → lookup key (remove name fields) ≡ (if name == key then none else lookup key fields)
unfolding lookup remove
lookup-remove name key end = ground arith
lookup-remove name key (slot n v rest) =
    ground (arith, eq_iff n name, eq_iff n key, eq_iff name key, lookup-remove name key rest)

pub lookup-put_self :
    (name : String) (value : Value) (fields : Fields)
    → lookup name (put name value fields) ≡ some value
lookup-put_self name value fields =
    ground (arith, eq_iff name name, lookup-put name name value fields)

pub lookup-remove_self : (name : String) (fields : Fields) → lookup name (remove name fields) ≡ none
lookup-remove_self name fields = ground (arith, eq_iff name name, lookup-remove name name fields)

module _ (name key : String) (fields : Fields) (differ : (name == key) ≡ false) where
  pub lookup-put_other : (value : Value) → lookup key (put name value fields) ≡ lookup key fields
  lookup-put_other value = ground (arith, lookup-put name key value fields)

  pub lookup-remove_other : lookup key (remove name fields) ≡ lookup key fields
  lookup-remove_other = ground (arith, lookup-remove name key fields)

-- Induction on messages: what follows for a message from its fields that are messages holds for all.
module _ (P : Fields → Type 0)
    (step : (fields : Fields)
      → ((name : String) (m : Fields) → lookup name fields ≡ some (message m) → P m)
      → P fields) where
  mutual
    unfolding lookup

    inside :
        (fields : Fields) (name : String) (m : Fields) → lookup name fields ≡ some (message m) → P m
    inside end name m found = absurd (cc)
    inside (slot n v rest) name m found = elim (Bool-cases (n == name)) [
      | inl same ↦ inside_value v m (let e = rw same at found in cc)
      | inr differ ↦ inside rest name m (rw differ at found)
    ]

    inside_value : (v : Value) (m : Fields) → v ≡ message m → P m
    inside_value (message x) m e = subst P (cc) (step x (inside x))
    inside_value (scalar x) m e = absurd (cc)
    inside_value (repeated x) m e = absurd (cc)
    inside_value (keyed x) m e = absurd (cc)

  pub message_induction : (fields : Fields) → P fields
  message_induction fields = step fields (inside fields)
