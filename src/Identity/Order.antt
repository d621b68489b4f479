-- ===== src/Identity/Order.antt =====
-- The order of names that `sorted` follows is total.
use Prim.Native.Nat.compare as compare_ℕ
use Prim.Native.Nat.{zero, suc, Ordering, compare as compare_ℕ}
use Prim.Native.Char.{code}
use Prim.Native.String.compare
use Prim.Native.String.{String, [], ◌∷◌, compare, then}
use strategy_engine.Prelude.{ℕ, ◌≡◌, refl, sym, ◌∙◌, ap, ap₂, Bool, true, false}
use strategy_engine.Identity.Node.{str_le}

abbrev flip : Ordering → Ordering
flip Ordering.lt = Ordering.gt
flip Ordering.eq = Ordering.eq
flip Ordering.gt = Ordering.lt

then-flip : (o r : Ordering) → then (flip o) (flip r) ≡ flip (then o r)
then-flip Ordering.lt r = refl
then-flip Ordering.eq r = refl
then-flip Ordering.gt r = refl

numbers-flip : (m n : ℕ) → compare_ℕ n m ≡ flip (compare_ℕ m n)
numbers-flip zero zero = compare_ℕ.zero-zero ∙ ap flip (sym compare_ℕ.zero-zero)
numbers-flip zero (suc n) = compare_ℕ.suc-zero n ∙ ap flip (sym (compare_ℕ.zero-suc n))
numbers-flip (suc m) zero = compare_ℕ.zero-suc m ∙ ap flip (sym (compare_ℕ.suc-zero m))
numbers-flip (suc m) (suc n) =
    compare_ℕ.suc-suc n m ∙ numbers-flip m n ∙ ap flip (sym (compare_ℕ.suc-suc m n))

compare-flip : (s t : String) → compare t s ≡ flip (compare s t)
compare-flip [] [] = refl
compare-flip [] (d ∷ t) = compare.cons-nil d t ∙ ap flip (sym (compare.nil-cons d t))
compare-flip (c ∷ s) [] = compare.nil-cons c s ∙ ap flip (sym (compare.cons-nil c s))
compare-flip (c ∷ s) (d ∷ t) =
    compare.cons-cons d c t s
    ∙ ap₂ then (numbers-flip (code c) (code d)) (compare-flip s t)
    ∙ then-flip (compare_ℕ (code c) (code d)) (compare s t)
    ∙ ap flip (sym (compare.cons-cons c d s t))

abbrev not_gt : Ordering → Bool
not_gt Ordering.gt = false
not_gt _ = true

-- One of two names comes first.
pub str_le_total : (a b : String) → str_le a b ≡ false → str_le b a ≡ true
str_le_total a b h = go (compare a b) (compare b a) (compare-flip a b) h
  where
    go : (o r : Ordering) → r ≡ flip o → not_gt o ≡ false → not_gt r ≡ true
    go Ordering.eq r e h = cc
    go Ordering.lt r e h = cc
    go Ordering.gt r e h = ap not_gt e
