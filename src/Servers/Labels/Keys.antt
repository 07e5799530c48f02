-- ===== src/Servers/Labels/Keys.antt =====
-- internal/servers/generic_server.go: which keys of labels and annotations are accepted.
use osac_fulfillment_service.Prelude.{
  ℕ, Bool, true, false, not, ◌&&◌, ◌≡◌, ◌≢◌, ◌↔◌, ◌∙◌, ◌⊎◌, inl, inr, refl, sym, List, [], ◌∷◌,
  ◌++◌, eqb, arith, Bool-cases,
}
use osac_fulfillment_service.Servers.Labels.{
  slash, dot, is_name_character, is_dns_character, is_empty, all_characters, split,
  validate_label_name_or_value, validate_dns_label, validate_segments, validate_parts,
  validate_label_prefix, validate_label_key, cons_first,
}

-- A name, or a prefix, has no slash.
all_characters-no_slash :
    (p : ℕ → Bool) (s : List ℕ)
    → p slash ≡ false
    → all_characters p s ≡ true
    → all_characters (λ c. not (eqb c slash)) s ≡ true
unfolding all_characters
all_characters-no_slash p [] nay h = refl
all_characters-no_slash p (c ∷ s) nay h = elim (Bool-cases (eqb c slash)) [
  | inl e ↦ (let same : c ≡ slash = ground arith in absurd (ground arith))
  | inr n ↦ ground (arith, all_characters-no_slash p s nay)
]

split-plain :
    (separator : ℕ) (s : List ℕ)
    → all_characters (λ c. not (eqb c separator)) s ≡ true
    → split separator s ≡ s ∷ []
unfolding split all_characters
split-plain separator [] h = refl
split-plain separator (c ∷ s) h = ground (arith, split-plain separator s)

split-join :
    (separator : ℕ) (s t : List ℕ)
    → all_characters (λ c. not (eqb c separator)) s ≡ true
    → split separator (s ++ separator ∷ t) ≡ s ∷ split separator t
unfolding split all_characters
split-join separator [] t h = ground arith
split-join separator (c ∷ s) t h = rw (split-join separator s t (ground arith)) (ground arith)

abbrev pub unsplit : ℕ → List (List ℕ) → List ℕ
unsplit separator [] = []
unsplit separator (part ∷ []) = part
unsplit separator (part ∷ next ∷ parts) = part ++ separator ∷ unsplit separator (next ∷ parts)

split-nonempty : (separator : ℕ) (s : List ℕ) → split separator s ≢ []
unfolding split
split-nonempty separator [] = ground arith
split-nonempty separator (c ∷ s) = ground (arith, split-nonempty separator s)

unsplit-cons_first :
    (separator c : ℕ) (parts : List (List ℕ))
    → unsplit separator (cons_first c parts) ≡ c ∷ unsplit separator parts
unsplit-cons_first separator c [] = refl
unsplit-cons_first separator c (part ∷ []) = refl
unsplit-cons_first separator c (part ∷ next ∷ parts) = refl

unsplit-open :
    (separator : ℕ) (parts : List (List ℕ))
    → parts ≢ []
    → unsplit separator ([] ∷ parts) ≡ separator ∷ unsplit separator parts
unsplit-open separator [] h = absurd (h refl)
unsplit-open separator (part ∷ parts) h = refl

-- The parts of a text, put together again with the separator between them, are the text.
pub unsplit-split : (separator : ℕ) (s : List ℕ) → unsplit separator (split separator s) ≡ s
unfolding split
unsplit-split separator [] = refl
unsplit-split separator (c ∷ s) = elim (Bool-cases (eqb c separator)) [
  | inl e ↦ rw e (
      unsplit-open separator (split separator s) (split-nonempty separator s)
      ∙ rw (unsplit-split separator s) (ground arith))
  | inr n ↦
      rw n
        (unsplit-cons_first separator c (split separator s) ∙ rw (unsplit-split separator s) refl)
]

name-no_slash :
    (s : List ℕ)
    → validate_label_name_or_value s ≡ true
    → all_characters (λ c. not (eqb c slash)) s ≡ true
unfolding validate_label_name_or_value
name-no_slash s h = all_characters-no_slash is_name_character s refl (ground arith)

dns-no_slash :
    (s : List ℕ) → validate_dns_label s ≡ true → all_characters (λ c. not (eqb c slash)) s ≡ true
unfolding validate_dns_label
dns-no_slash s h = all_characters-no_slash is_dns_character s refl (ground arith)

all_characters-append :
    (p : ℕ → Bool) (s t : List ℕ)
    → all_characters p (s ++ t) ≡ (all_characters p s && all_characters p t)
unfolding all_characters
all_characters-append p [] t = refl
all_characters-append p (c ∷ s) t = ground (arith, all_characters-append p s t)

segments-no_slash :
    (parts : List (List ℕ))
    → validate_segments parts ≡ true
    → all_characters (λ c. not (eqb c slash)) (unsplit dot parts) ≡ true
unfolding validate_segments all_characters
segments-no_slash [] h = refl
segments-no_slash (part ∷ []) h = dns-no_slash part (ground arith)
segments-no_slash (part ∷ next ∷ parts) h =
    let first = dns-no_slash part (ground arith) in
    let rest = segments-no_slash (next ∷ parts) (ground arith) in
    all_characters-append (λ c. not (eqb c slash)) part (dot ∷ unsplit dot (next ∷ parts))
    ∙ rw first rest

prefix-no_slash :
    (s : List ℕ) → validate_label_prefix s ≡ true → all_characters (λ c. not (eqb c slash)) s ≡ true
unfolding validate_label_prefix
prefix-no_slash s h = rw (← unsplit-split dot s) (segments-no_slash (split dot s) (ground arith))

-- The key is a name, or it is a prefix and a name with a slash between them.
abbrev pub IsKey : List ℕ → Type 0
IsKey key =
    (validate_label_name_or_value key ≡ true)
    ⊎ ((prefix : List ℕ) × (name : List ℕ) × (key ≡ prefix ++ slash ∷ name)
        × (validate_label_prefix prefix ≡ true)
        × (validate_label_name_or_value name ≡ true))

parts-IsKey :
    (parts : List (List ℕ)) (key : List ℕ)
    → unsplit slash parts ≡ key
    → validate_parts parts ≡ true
    → IsKey key
unfolding validate_parts
parts-IsKey [] key e h = absurd (ground arith)
parts-IsKey (name ∷ []) key e h = inl (rw (← e) h)
parts-IsKey (prefix ∷ name ∷ []) key e h = inr (prefix, name, sym e, ground arith, ground arith)
parts-IsKey (a ∷ b ∷ c ∷ parts) key e h = absurd (ground arith)

nonempty_name : (s : List ℕ) → validate_label_name_or_value s ≡ true → is_empty s ≡ false
unfolding validate_label_name_or_value
nonempty_name s h = ground arith

nonempty_prefix : (s : List ℕ) → validate_label_prefix s ≡ true → is_empty s ≡ false
unfolding validate_label_prefix
nonempty_prefix s h = ground arith

nonempty_append : (s : List ℕ) (c : ℕ) (t : List ℕ) → is_empty (s ++ c ∷ t) ≡ false
nonempty_append [] c t = ground arith
nonempty_append (d ∷ s) c t = ground arith

IsKey-validate : (key : List ℕ) → IsKey key → validate_label_key key ≡ true
unfolding validate_label_key
IsKey-validate key (inl h) = rw (nonempty_name key h, split-plain slash key (name-no_slash key h)) h
IsKey-validate key (inr (prefix, name, e, p, n)) = rw e (
    rw (
      nonempty_append prefix slash name,
      split-join slash prefix name (prefix-no_slash prefix p),
      split-plain slash name (name-no_slash name n),
      nonempty_prefix prefix p,
      nonempty_name name n,
      p,
      n,
    ))

-- A key is accepted exactly when it is a valid name, or a valid prefix and a valid name with one
-- slash between them.
pub validate_label_key_iff : (key : List ℕ) → (validate_label_key key ≡ true) ↔ IsKey key
unfolding validate_label_key
validate_label_key_iff key = (
  λ h. parts-IsKey (split slash key) key (unsplit-split slash key) (ground arith),
  IsKey-validate key,
)
