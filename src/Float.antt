-- ===== src/Float.antt =====
-- The floating-point values of the program (Python `float`, numpy `float64`). The language has no
-- such numbers, so they are any type with the operations that the code uses, and the laws of the
-- comparisons that a theorem relies on are a record of their own.
pub mod Grid
use strategy_engine.Prelude.{◌≡◌, Bool, true, false, not, ◌⊎◌, if◌then◌else◌}

pub record Float (F : Type 0) : Type 0 where
  pub nan : F
  pub nought : F
  pub lt : F → F → Bool
  pub le : F → F → Bool
  pub is_finite : F → Bool
  pub add : F → F → F
  pub sub : F → F → F
  pub mul : F → F → F
  pub div : F → F → F
  pub neg : F → F
  pub abs : F → F

module _ {F : Type 0} ⦃f : Float F⦄ where
  -- Python's `max(a, b)` and `min(a, b)`: the first argument stays unless the second beats it.
  abbrev pub max : F → F → F
  max a b = if f.lt a b then b else a

  abbrev pub min : F → F → F
  min a b = if f.lt b a then b else a

  -- A value that equals itself, which only NaN does not.
  abbrev pub IsNumber : F → Type 0
  IsNumber a = f.le a a ≡ true

-- What IEEE 754 comparisons and negation satisfy, NaN included.
pub record IsOrdered (F : Type 0) ⦃f : Float F⦄ : Type 0 where
  pub le_trans : (a b c : F) → f.le a b ≡ true → f.le b c ≡ true → f.le a c ≡ true
  pub number_of_le : (a b : F) → f.le a b ≡ true → (f.le a a ≡ true) × (f.le b b ≡ true)
  pub number_of_lt : (a b : F) → f.lt a b ≡ true → (f.le a a ≡ true) × (f.le b b ≡ true)
  pub lt-eq-not_le : (a b : F) → f.le a a ≡ true → f.le b b ≡ true → f.lt a b ≡ not (f.le b a)
  pub le_total :
      (a b : F) → f.le a a ≡ true → f.le b b ≡ true → (f.le a b ≡ true) ⊎ (f.le b a ≡ true)
  pub neg_neg : (a : F) → f.neg (f.neg a) ≡ a
  pub lt-neg : (a b : F) → f.lt (f.neg a) (f.neg b) ≡ f.lt b a
  pub le-neg : (a b : F) → f.le (f.neg a) (f.neg b) ≡ f.le b a
  pub number_of_finite : (a : F) → f.is_finite a ≡ true → f.le a a ≡ true

-- A rounded sum or difference does not cross the term: where it is finite, as IEEE 754 rounds.
pub record IsRounded (F : Type 0) ⦃f : Float F⦄ : Type 0 where
  pub sub_le :
      (a d : F)
      → f.lt f.nought d ≡ true
      → f.is_finite a ≡ true
      → f.is_finite (f.sub a d) ≡ true
      → f.le (f.sub a d) a ≡ true
  pub le_add :
      (a d : F)
      → f.lt f.nought d ≡ true
      → f.is_finite a ≡ true
      → f.is_finite (f.add a d) ≡ true
      → f.le a (f.add a d) ≡ true
