-- ===== src/Collections/Maps.antt =====
-- internal/collections/sets.go: the loops over key maps, and what they hold.
use osac_fulfillment_service.Prelude.{
  Bool, true, false, not, ◌&&◌, ◌||◌, ◌≡◌, refl, List, [], ◌∷◌, arith, if◌then◌else◌, Bool-cases,
  inl, inr,
}
use osac_fulfillment_service.Prelude.Compare.{Comparable, ◌==◌}

module _ {ℓ} {A : Type ℓ} ⦃c : Comparable A⦄ where
  -- `_, ok := m[k]`
  unfoldable pub has_key : List A → A → Bool
  has_key [] k = false
  has_key (x ∷ xs) k = x == k || has_key xs k

  -- `m[k] = struct{}{}`
  unfoldable pub put_key : A → List A → List A
  put_key k m = if has_key m k then m else k ∷ m

  -- `for item := range items { m[item] = struct{}{} }`
  unfoldable pub put_all : List A → List A → List A
  put_all [] m = m
  put_all (x ∷ xs) m = put_all xs (put_key x m)

  unfoldable pub union_maps : List A → List A → List A
  union_maps a b = put_all b (put_all a [])

  unfoldable pub keep_in : List A → List A → List A → List A
  keep_in b [] m = m
  keep_in b (x ∷ xs) m = keep_in b xs (if has_key b x then put_key x m else m)

  unfoldable pub intersect_maps : List A → List A → List A
  unfolding keep_in
  intersect_maps a b = keep_in b a []

  unfoldable pub keep_out : List A → List A → List A → List A
  keep_out b [] m = m
  keep_out b (x ∷ xs) m = keep_out b xs (if not (has_key b x) then put_key x m else m)

  unfoldable pub diff_maps : List A → List A → List A
  unfolding keep_out
  diff_maps a b = keep_out b a []

  -- The loops of `Subset` and `Equal`: leave at the first item that fails the test.
  unfoldable pub all_in : List A → List A → Bool
  all_in [] m = true
  all_in (x ∷ xs) m = let rest = all_in xs m in if not (has_key m x) then false else rest

  unfoldable pub none_in : List A → List A → Bool
  none_in [] m = true
  none_in (x ∷ xs) m = let rest = none_in xs m in if has_key m x then false else rest

  pub has_key-put_key : (k j : A) (m : List A) → has_key (put_key k m) j ≡ (k == j || has_key m j)
  unfolding has_key put_key
  has_key-put_key k j m = elim (Bool-cases (k == j)) [
    | inl same ↦ let e = (c.same_iff k j).0 same in rw (← e) (ground arith)
    | inr other ↦ ground arith
  ]

  pub has_key-put_all :
      (xs m : List A) (j : A) → has_key (put_all xs m) j ≡ (has_key xs j || has_key m j)
  unfolding has_key put_all
  has_key-put_all [] m j = refl
  has_key-put_all (x ∷ xs) m j =
      ground (arith, has_key-put_all xs (put_key x m) j, has_key-put_key x j m)

  pub has_key_resp : (m : List A) (k j : A) → k == j ≡ true → has_key m k ≡ has_key m j
  has_key_resp m k j h = rw ((c.same_iff k j).0 h)

  has_key-keep_in :
      (b xs m : List A) (j : A)
      → has_key (keep_in b xs m) j ≡ (has_key xs j && has_key b j || has_key m j)
  unfolding has_key keep_in
  has_key-keep_in b [] m j = refl
  has_key-keep_in b (x ∷ xs) m j = ground (
    arith,
    has_key-keep_in b xs (put_key x m) j,
    has_key-keep_in b xs m j,
    has_key-put_key x j m,
    has_key_resp b x j,
  )

  has_key-keep_out :
      (b xs m : List A) (j : A)
      → has_key (keep_out b xs m) j ≡ (has_key xs j && not (has_key b j) || has_key m j)
  unfolding has_key keep_out
  has_key-keep_out b [] m j = refl
  has_key-keep_out b (x ∷ xs) m j = ground (
    arith,
    has_key-keep_out b xs (put_key x m) j,
    has_key-keep_out b xs m j,
    has_key-put_key x j m,
    has_key_resp b x j,
  )

  pub has_key-union_maps :
      (a b : List A) (j : A) → has_key (union_maps a b) j ≡ (has_key a j || has_key b j)
  unfolding union_maps has_key
  has_key-union_maps a b j =
      ground (arith, has_key-put_all b (put_all a []) j, has_key-put_all a [] j)

  pub has_key-intersect_maps :
      (a b : List A) (j : A) → has_key (intersect_maps a b) j ≡ (has_key a j && has_key b j)
  unfolding intersect_maps has_key
  has_key-intersect_maps a b j = ground (arith, has_key-keep_in b a [] j)

  pub has_key-diff_maps :
      (a b : List A) (j : A) → has_key (diff_maps a b) j ≡ (has_key a j && not (has_key b j))
  unfolding diff_maps has_key
  has_key-diff_maps a b j = ground (arith, has_key-keep_out b a [] j)

  pub all_in_sound :
      (xs m : List A) → all_in xs m ≡ true → (j : A) → has_key xs j ≡ true → has_key m j ≡ true
  unfolding all_in has_key
  all_in_sound [] m h j k = cc
  all_in_sound (x ∷ xs) m h j k =
      ground (arith, all_in_sound xs m (ground arith) j, has_key_resp m x j)

  pub has_key_head : (x : A) (xs : List A) → has_key (x ∷ xs) x ≡ true
  unfolding has_key
  has_key_head x xs = rw ((c.same_iff x x).1 refl)

  pub all_in_complete :
      (xs m : List A) → ((j : A) → has_key xs j ≡ true → has_key m j ≡ true) → all_in xs m ≡ true
  unfolding all_in has_key
  all_in_complete [] m h = refl
  all_in_complete (x ∷ xs) m h =
      let here = h x (has_key_head x xs) in
      let rest = all_in_complete xs m (λ j k. h j (ground arith)) in rw (here, rest)

  pub none_in_sound :
      (xs m : List A) → none_in xs m ≡ true → (j : A) → has_key xs j ≡ true → has_key m j ≡ false
  unfolding none_in has_key
  none_in_sound [] m h j k = cc
  none_in_sound (x ∷ xs) m h j k =
      ground (arith, none_in_sound xs m (ground arith) j, has_key_resp m x j)

  pub none_in_complete :
      (xs m : List A) → ((j : A) → has_key xs j ≡ true → has_key m j ≡ false) → none_in xs m ≡ true
  unfolding none_in has_key
  none_in_complete [] m h = refl
  none_in_complete (x ∷ xs) m h =
      let here = h x (has_key_head x xs) in
      let rest = none_in_complete xs m (λ j k. h j (ground arith)) in rw (here, rest)
