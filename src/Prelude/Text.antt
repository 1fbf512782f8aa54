-- ===== src/Prelude/Text.antt =====
-- Python's order on `str`: by code points, from the left.
use Prim.Native.Nat.{ℕ, Ordering, compare as compare_ℕ}
use Prim.Native.Char.{code}
use Prim.Native.String.{String, [], ◌∷◌, compare, then}
use Prim.Native.String.compare
use text.Mathlib.TextEquality.{path_by_compare}
use mathlib.Core.Path.{◌≡◌, refl, ◌∙◌, ap₂}
use mathlib.Core.Bool.{Bool, true, false}
use native.Mathlib.Omega.{arith}

abbrev flip : Ordering → Ordering
flip Ordering.lt = Ordering.gt
flip Ordering.eq = Ordering.eq
flip Ordering.gt = Ordering.lt

compare_ℕ_flip : (m n : ℕ) → compare_ℕ m n ≡ flip (compare_ℕ n m)
compare_ℕ_flip m n = ground arith

then-flip : (p q : Ordering) → then (flip p) (flip q) ≡ flip (then p q)
then-flip Ordering.lt q = refl
then-flip Ordering.eq q = refl
then-flip Ordering.gt q = refl

compare-flip : (s t : String) → compare s t ≡ flip (compare t s)
compare-flip [] [] = rw compare.nil-nil
compare-flip [] (d ∷ t) = rw (compare.nil-cons, compare.cons-nil)
compare-flip (c ∷ s) [] = rw (compare.nil-cons, compare.cons-nil)
compare-flip (c ∷ s) (d ∷ t) =
    rw (compare.cons-cons c d s t, compare.cons-cons d c t s)
      (ap₂ then (compare_ℕ_flip (code c) (code d)) (compare-flip s t)
        ∙ then-flip (compare_ℕ (code d) (code c)) (compare t s))

-- `s > t`
abbrev pub text_gt : String → String → Bool
text_gt s t = elim (compare s t) [ Ordering.gt ↦ true | _ ↦ false ]

pub text_gt_asymm : (s t : String) → text_gt s t ≡ true → text_gt t s ≡ false
text_gt_asymm s t h = ground (arith, compare-flip s t)

pub text_gt_total : (s t : String) → text_gt s t ≡ false → text_gt t s ≡ false → s ≡ t
text_gt_total s t h k = path_by_compare s t (ground (arith, compare-flip s t))
