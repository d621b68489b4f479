-- ===== src/Float/Grid.antt =====
-- Numbers on a price grid: whole ticks, with `none` for NaN. They meet the laws of `IsOrdered`, and
-- the tests and examples run on them.
use strategy_engine.Prelude.{
  ℕ, zero, suc, ◌+◌, ◌*◌, ◌/◌, ◌≡◌, Bool, true, false, Option, none, some, if◌then◌else◌, ◌==◌,
  arith,
}
use strategy_engine.Prelude.Int.{ℤ, pos, negsuc, pos_part, neg_part, sub_ℕ, ltb_ℤ, leb_ℤ}
use strategy_engine.Float.{Float, IsOrdered, IsRounded}

abbrev pub Grid : Type 0
Grid = Option ℤ

abbrev compare_by : (ℤ → ℤ → Bool) → Grid → Grid → Bool
compare_by test (some a) (some b) = test a b
compare_by test _ _ = false

abbrev combine : (ℤ → ℤ → ℤ) → Grid → Grid → Grid
combine op (some a) (some b) = some (op a b)
combine op _ _ = none

abbrev neg_ℤ : ℤ → ℤ
neg_ℤ (pos zero) = pos zero
neg_ℤ (pos (suc n)) = negsuc n
neg_ℤ (negsuc n) = pos (suc n)

abbrev pub mul_ℤ : ℤ → ℤ → ℤ
mul_ℤ a b =
    sub_ℕ (pos_part a * pos_part b + neg_part a * neg_part b)
      (pos_part a * neg_part b + neg_part a * pos_part b)

-- Whole ticks, towards zero; `none` for a zero divisor.
abbrev pub div_ℤ : ℤ → ℤ → Grid
div_ℤ a b =
    let size = pos_part b + neg_part b in
    if size == 0
    then none
    else some (sub_ℕ (pos_part (mul_ℤ a b) / (size * size)) (neg_part (mul_ℤ a b) / (size * size)))

abbrev neg_grid : Grid → Grid
neg_grid none = none
neg_grid (some a) = some (neg_ℤ a)

abbrev div_grid : Grid → Grid → Grid
div_grid (some a) (some b) = div_ℤ a b
div_grid _ _ = none

instance abbrev pub grid_float : Float Grid
grid_float = record {
  nan = none;
  nought = some (pos 0);
  lt = compare_by ltb_ℤ;
  le = compare_by leb_ℤ;
  is_finite = elim [ none ↦ false | some _ ↦ true ];
  add = combine λ a b. sub_ℕ (pos_part a + pos_part b) (neg_part a + neg_part b);
  sub = combine λ a b. sub_ℕ (pos_part a + neg_part b) (neg_part a + pos_part b);
  mul = combine mul_ℤ;
  div = div_grid;
  neg = neg_grid;
  abs = elim [ none ↦ none | some a ↦ some (pos (pos_part a + neg_part a)) ];
}

neg_grid_neg : (a : Grid) → neg_grid (neg_grid a) ≡ a
neg_grid_neg a = ground arith

lt-neg_grid : (a b : Grid) → grid_float.lt (neg_grid a) (neg_grid b) ≡ grid_float.lt b a
lt-neg_grid a b = ground arith

le-neg_grid : (a b : Grid) → grid_float.le (neg_grid a) (neg_grid b) ≡ grid_float.le b a
le-neg_grid a b = ground arith

pub Grid-IsOrdered : IsOrdered Grid
Grid-IsOrdered = record {
  le_trans = ground arith;
  number_of_le = ground arith;
  number_of_lt = ground arith;
  lt-eq-not_le = ground arith;
  le_total = ground arith;
  neg_neg = neg_grid_neg;
  lt-neg = lt-neg_grid;
  le-neg = le-neg_grid;
  number_of_finite = ground arith;
}

pub Grid-IsRounded : IsRounded Grid
Grid-IsRounded = record { sub_le = ground arith; le_add = ground arith }

-- Ticks for tests.
abbrev pub tick : ℕ → Grid
tick n = some (pos n)
