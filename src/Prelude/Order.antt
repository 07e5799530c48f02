-- ===== src/Prelude/Order.antt =====
-- The order of Go's strings, by bytes, is total.
use Prim.Native.Nat.{Ordering}
use Prim.Native.String.compare
use Prim.Native.String.{String, [], ◌∷◌, compare}
use mathlib.Core.Path.{◌≡◌, refl, sym, ◌∙◌, ap}
use mathlib.Core.Bool.{true, false, false≢true}
use text.Mathlib.Text.{is_le}
use text.Mathlib.TextEquality.{path_by_compare}
use native.Mathlib.Omega.{arith}
use osac_fulfillment_service.Prelude.Sort.{str_leb}

abbrev flip : Ordering → Ordering
flip Ordering.lt = Ordering.gt
flip Ordering.eq = Ordering.eq
flip Ordering.gt = Ordering.lt

compare-flip : (s t : String) → compare t s ≡ flip (compare s t)
compare-flip [] [] = rw compare.nil-nil refl
compare-flip [] (d ∷ t) = rw (compare.nil-cons d t, compare.cons-nil d t) refl
compare-flip (c ∷ s) [] = rw (compare.nil-cons c s, compare.cons-nil c s) refl
compare-flip (c ∷ s) (d ∷ t) =
    rw (compare.cons-cons c d s t, compare.cons-cons d c t s, compare-flip s t) (ground arith)

pub str_leb_trans : (s t u : String) → str_leb s t ≡ true → str_leb t u ≡ true → str_leb s u ≡ true
str_leb_trans [] t [] h k = refl
str_leb_trans [] t (e ∷ u) h k = rw (compare.nil-cons e u) refl
str_leb_trans (c ∷ s) [] u h k = absurd (false≢true (sym (ap is_le (compare.cons-nil c s)) ∙ h))
str_leb_trans (c ∷ s) (d ∷ t) [] h k =
    absurd (false≢true (sym (ap is_le (compare.cons-nil d t)) ∙ k))
str_leb_trans (c ∷ s) (d ∷ t) (e ∷ u) h k =
    let first = sym (ap is_le (compare.cons-cons c d s t)) ∙ h in
    let second = sym (ap is_le (compare.cons-cons d e t u)) ∙ k in
    rw (compare.cons-cons c e s u)
      (ground (arith, str_leb_trans s t u, path_by_compare s t, path_by_compare t u))

pub str_leb_total : (s t : String) → str_leb s t ≡ false → str_leb t s ≡ true
str_leb_total s t h = rw (compare-flip s t) (ground arith)

pub str_leb_antisym : (s t : String) → str_leb s t ≡ true → str_leb t s ≡ true → s ≡ t
str_leb_antisym s t h k = let flipped = compare-flip s t in path_by_compare s t (ground arith)
