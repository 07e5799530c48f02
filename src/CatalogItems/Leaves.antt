-- ===== src/CatalogItems/Leaves.antt =====
-- internal/servers/catalog_item_validation.go: the paths of the values in a nested map.
use osac_fulfillment_service.Prelude.{
  Bool, true, false, ◌≡◌, inl, inr, List, [], ◌∷◌, ◌++◌, some, arith, Bool-cases, Option-cases, All,
  subst,
}
use osac_fulfillment_service.CatalogItems.{
  Text, same_text, same_text_iff, text_comparable, is_nil, Json, null_value, plain, object, Members,
  end, member, lookup, get_parts, full_path, collect_leaf_paths, collect_leaves, is_path_covered,
  unlisted_paths,
}

-- The path that the keys make, as messages name it.
abbrev pub path_behind : Text → List Text → Text
path_behind prefix [] = prefix
path_behind prefix (key ∷ keys) = path_behind (full_path prefix key) keys

abbrev pub is_object : Json → Bool
is_object null_value = false
is_object (plain text) = false
is_object (object members) = true

All-append {ℓ κ} :
    {A : Type ℓ} (P : A → Type κ) (xs ys : List A) → All P (xs ++ ys) → All P xs × All P ys
All-append P [] ys h = (tt, h)
All-append P (x ∷ xs) ys h = let (left, right) = All-append P xs ys h.1 in ((h.0, left), right)

module _ (P : Text → Type 0) where
  All-lookup :
      (prefix key : Text) (value : Json) (members : Members)
      → All P (collect_leaf_paths prefix members)
      → lookup key members ≡ some value
      → All P (collect_leaves (full_path prefix key) value)
  unfolding collect_leaf_paths lookup
  All-lookup prefix key value end h found = absurd (cc)
  All-lookup prefix key value (member k v rest) h found =
      let (here, there) = All-append P (collect_leaves (full_path prefix k) v) _ h in
      elim (Bool-cases (same_text k key)) [
        | inl same ↦
            let e : k ≡ key = (same_text_iff k key).0 same in
            let w : v ≡ value = (let f = rw same at found in cc) in
            subst (λ x. All P (collect_leaves (full_path prefix key) x)) w
              (subst (λ x. All P (collect_leaves (full_path prefix x) v)) e here)
        | inr differ ↦ All-lookup prefix key value rest there (rw differ at found)
      ]

  All-leaf :
      (path : Text) (value : Json)
      → is_object value ≡ false
      → All P (collect_leaves path value)
      → P path
  unfolding collect_leaf_paths
  All-leaf path null_value h all = all.0
  All-leaf path (plain text) h all = all.0
  All-leaf path (object members) h all = absurd (ground arith)

  -- What holds of the paths that are collected holds of the path of every value that is no map.
  All-collected :
      (keys : List Text) (prefix : Text) (at value : Json)
      → All P (collect_leaves prefix at)
      → get_parts keys at ≡ some value
      → is_object value ≡ false
      → P (path_behind prefix keys)
  unfolding get_parts collect_leaf_paths
  All-collected [] prefix at value all found leaf =
      All-leaf prefix at (let e : at ≡ value = cc in rw e leaf) all
  All-collected (key ∷ keys) prefix null_value value all found leaf = absurd (cc)
  All-collected (key ∷ keys) prefix (plain text) value all found leaf = absurd (cc)
  All-collected (key ∷ keys) prefix (object members) value all found leaf =
      elim (Option-cases (lookup key members)) [
        | inl missing ↦ absurd (let f = rw (get_parts, missing) at found in cc)
        | inr (below, is) ↦
            All-collected keys (full_path prefix key) below value
              (All-lookup prefix key below members all is) (rw (get_parts, is) at found) leaf
      ]

  pub All-collect_leaf_paths :
      (keys : List Text) (members : Members) (value : Json)
      → All P (collect_leaf_paths [] members)
      → get_parts keys (object members) ≡ some value
      → is_object value ≡ false
      → P (path_behind [] keys)
  unfolding collect_leaf_paths
  All-collect_leaf_paths keys members value all = All-collected keys [] (object members) value all

pub unlisted_paths-All :
    (allowed paths : List Text)
    → is_nil (unlisted_paths allowed paths) ≡ true
    → All (λ (path : Text). is_path_covered path allowed ≡ true) paths
unfolding unlisted_paths
unlisted_paths-All allowed [] h = tt
unlisted_paths-All allowed (path ∷ paths) h = elim (Bool-cases (is_path_covered path allowed)) [
  | inl covered ↦ (covered, unlisted_paths-All allowed paths (rw covered at h))
  | inr missing ↦ absurd (let f = rw missing at h in ground arith)
]
