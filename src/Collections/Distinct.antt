-- ===== src/Collections/Distinct.antt =====
-- internal/collections/sets.go: a key map holds each key once, and counting keys decides equality.
use osac_fulfillment_service.Prelude.{
  suc, ◌≤◌, Bool, true, false, not, ◌≡◌, List, [], ◌∷◌, length, arith, if◌then◌else◌, Bool-cases,
  inl, inr,
}
use osac_fulfillment_service.Prelude.Compare.{Comparable, ◌==◌}
use osac_fulfillment_service.Collections.Maps.{
  has_key, put_key, put_all, union_maps, intersect_maps, diff_maps, keep_in, keep_out, has_key_resp,
  has_key_head,
}

module _ {ℓ} {A : Type ℓ} ⦃c : Comparable A⦄ where
  abbrev pub Distinct : List A → Type 0
  Distinct [] = Unit
  Distinct (x ∷ xs) = (has_key xs x ≡ false) × Distinct xs

  put_key-Distinct : (k : A) (m : List A) → Distinct m → Distinct (put_key k m)
  unfolding put_key
  put_key-Distinct k m d = ground arith

  pub put_all-Distinct : (xs m : List A) → Distinct m → Distinct (put_all xs m)
  unfolding put_all
  put_all-Distinct [] m d = d
  put_all-Distinct (x ∷ xs) m d = put_all-Distinct xs (put_key x m) (put_key-Distinct x m d)

  pub union_maps-Distinct : (a b : List A) → Distinct (union_maps a b)
  unfolding union_maps
  union_maps-Distinct a b = put_all-Distinct b (put_all a []) (put_all-Distinct a [] tt)

  put_key_if-Distinct :
      (b : Bool) (x : A) (m : List A) → Distinct m → Distinct (if b then put_key x m else m)
  put_key_if-Distinct true x m d = put_key-Distinct x m d
  put_key_if-Distinct false x m d = d

  keep_in-Distinct : (b xs m : List A) → Distinct m → Distinct (keep_in b xs m)
  unfolding keep_in
  keep_in-Distinct b [] m d = d
  keep_in-Distinct b (x ∷ xs) m d =
      keep_in-Distinct b xs _ (put_key_if-Distinct (has_key b x) x m d)

  keep_out-Distinct : (b xs m : List A) → Distinct m → Distinct (keep_out b xs m)
  unfolding keep_out
  keep_out-Distinct b [] m d = d
  keep_out-Distinct b (x ∷ xs) m d =
      keep_out-Distinct b xs _ (put_key_if-Distinct (not (has_key b x)) x m d)

  pub intersect_maps-Distinct : (a b : List A) → Distinct (intersect_maps a b)
  unfolding intersect_maps
  intersect_maps-Distinct a b = keep_in-Distinct b a [] tt

  pub diff_maps-Distinct : (a b : List A) → Distinct (diff_maps a b)
  unfolding diff_maps
  diff_maps-Distinct a b = keep_out-Distinct b a [] tt

  without : A → List A → List A
  without k [] = []
  without k (x ∷ xs) = let rest = without k xs in if x == k then xs else x ∷ rest

  has_key-without :
      (k j : A) (m : List A)
      → (k == j) ≡ false
      → has_key m j ≡ true
      → has_key (without k m) j ≡ true
  unfolding has_key without
  has_key-without k j [] h i = cc
  has_key-without k j (x ∷ xs) h i =
      ground (arith, has_key-without k j xs h, c.same_iff x k, c.same_iff x j, c.same_iff k j)

  length-without : (k : A) (m : List A) → has_key m k ≡ true → suc (length (without k m)) ≡ length m
  unfolding has_key without
  length-without k [] h = cc
  length-without k (x ∷ xs) h = ground (arith, length-without k xs)

  absent_ne :
      (xs : List A) (x j : A) → has_key xs x ≡ false → has_key xs j ≡ true → (x == j) ≡ false
  absent_ne xs x j a p = elim (Bool-cases (x == j)) [
    | inl e ↦ ground (arith, has_key_resp xs x j e)
    | inr e ↦ e
  ]

  has_key_tail : (x j : A) (xs : List A) → has_key xs j ≡ true → has_key (x ∷ xs) j ≡ true
  unfolding has_key
  has_key_tail x j xs h = ground arith

  -- Distinct keys that all lie in `b` are at most as many as those of `b`.
  pub length_le :
      (a b : List A)
      → Distinct a
      → ((j : A) → has_key a j ≡ true → has_key b j ≡ true)
      → length a ≤ length b
  length_le [] b d h = omega arith
  length_le (x ∷ xs) b d h =
      let fewer : length xs ≤ length (without x b) =
        length_le xs (without x b) d.1
          (λ j p. has_key-without x j b (absent_ne xs x j d.0 p) (h j (has_key_tail x j xs p))) in
      omega (arith, fewer, length-without x b (h x (has_key_head x xs)))

  -- Distinct keys that all lie in `b`, and are as many as those of `b`, are all the keys of `b`.
  pub length_eq :
      (a b : List A) (j : A)
      → Distinct a
      → ((i : A) → has_key a i ≡ true → has_key b i ≡ true)
      → length a ≡ length b
      → has_key b j ≡ true
      → has_key a j ≡ true
  length_eq a b j d h e p = elim (Bool-cases (has_key a j)) [
    | inl found ↦ found
    | inr missing ↦
        let fewer : length a ≤ length (without j b) =
          length_le a (without j b) d
            (λ i q. has_key-without j i b (missing_ne i q missing) (h i q)) in
        absurd (omega (arith, fewer, length-without j b p))
  ]
    where
      missing_ne : (i : A) → has_key a i ≡ true → has_key a j ≡ false → (j == i) ≡ false
      missing_ne i q m = absent_ne a j i m q
