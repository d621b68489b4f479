-- ===== src/Extreme/Window.antt =====
-- What a query of the sparse table returns.
use strategy_engine.Prelude.{ℕ, zero, suc, ◌+◌, ◌-◌, ◌≤◌, ◌<◌, ◌≡◌, refl, arith, Bool, true, false}
use strategy_engine.Extreme.Table.{
  Calls, IsReduce, IsCalls, bit, reduce, level, level_len, level_of, second, window_extreme,
}
use strategy_engine.Extreme.Lattice.{
  extreme_from, IsExtreme, IsExtreme-one, IsExtreme-join, extreme_from-IsExtreme, IsExtreme-unique,
}

bit-pos : (j : ℕ) → 0 < bit j
bit-pos zero = omega arith
bit-pos (suc j) = omega (arith, bit-pos j)

module _ {F : Type 0} (np : Calls F) (laws : IsCalls np) where
  reduces : (largest : Bool) → IsReduce (reduce np largest)
  reduces true = laws.maximum_reduces
  reduces false = laws.minimum_reduces

  module _ (largest : Bool) (values : ℕ → F) where
    abbrev Extreme : ℕ → ℕ → F → Type 0
    Extreme = IsExtreme (reduce np largest) (reduces largest) values

    level_lem : (j i : ℕ) → Extreme i (bit j) (level np largest values j i)
    unfolding level
    level_lem zero i = IsExtreme-one (reduce np largest) (reduces largest) values i
    level_lem (suc j) i =
        IsExtreme-join (reduce np largest) (reduces largest) values i (bit j) (i + bit j) (bit j)
          (bit (suc j)) _ _ (omega arith) (omega arith) (omega arith) (omega arith) (level_lem j i)
          (level_lem j (i + bit j))

    level_len_lem : (size j : ℕ) → bit j ≤ size → level_len np size j + bit j ≡ size + 1
    level_len_lem size zero h = refl
    level_len_lem size (suc j) h =
        omega (arith, level_len_lem size j (omega (arith, bit-pos j)), bit-pos j)

    -- For an associative, commutative and idempotent extreme and the whole part of the logarithm,
    -- a query of the sparse table from low to high inside the array reads two places inside the
    -- level it uses, and returns the extreme of the values from low to high, taken one after the
    -- other.
    pub window_extreme_lem :
        (size low high : ℕ)
        → low ≤ high
        → high < size
        → (low < level_len np size (level_of np low high))
          × (second np low high < level_len np size (level_of np low high))
          × (window_extreme np largest values low high
              ≡ extreme_from (reduce np largest) values low (high - low))
    unfolding window_extreme
    window_extreme_lem size low high h k =
        let j = level_of np low high in
        let below : bit j ≤ high - low + 1 = laws.log2_low (high - low + 1) (omega arith) in
        let above : high - low + 1 < bit (suc j) = laws.log2_high (high - low + 1) (omega arith) in
        let positive = bit-pos j in
        let len = level_len_lem size j (omega arith) in
        let joined =
          IsExtreme-join (reduce np largest) (reduces largest) values low (bit j)
            (second np low high) (bit j) (suc (high - low)) _ _ (omega arith) (omega arith)
            (omega arith) (omega arith) (level_lem j low) (level_lem j (second np low high)) in
        (
          omega arith,
          omega arith,
          IsExtreme-unique (reduce np largest) (reduces largest) values low (suc (high - low)) _ _
              joined
              (extreme_from-IsExtreme (reduce np largest) (reduces largest) values low
                (high - low)),
        )
