-- ===== src/Extreme/Table.antt =====
-- `window_extreme` of src/strategy_engine/strategies/ema_pullback/window_extreme.py, at one query. An
-- array is a function of its index with its length beside it; the code builds the levels that a query
-- reads.
use strategy_engine.Prelude.{ℕ, zero, suc, ◌+◌, ◌-◌, ◌*◌, ◌≤◌, ◌<◌, ◌≡◌, Bool, true, false}

-- `np.maximum`, `np.minimum` and the whole part of `np.log2`.
pub record Calls (F : Type 0) : Type 0 where
  pub maximum : F → F → F
  pub minimum : F → F → F
  pub log2 : ℕ → ℕ

-- `1 << j`
abbrev pub bit : ℕ → ℕ
bit zero = 1
bit (suc j) = 2 * bit j

pub record IsReduce {F : Type 0} (reduce : F → F → F) : Type 0 where
  pub assoc : (a b c : F) → reduce (reduce a b) c ≡ reduce a (reduce b c)
  pub comm : (a b : F) → reduce a b ≡ reduce b a
  pub idem : (a : F) → reduce a a ≡ a

-- The documented behaviour of the calls, NaN included: it wins over a number.
pub record IsCalls {F : Type 0} (np : Calls F) : Type 0 where
  pub maximum_reduces : IsReduce np.maximum
  pub minimum_reduces : IsReduce np.minimum
  pub log2_low : (n : ℕ) → 0 < n → bit (np.log2 n) ≤ n
  pub log2_high : (n : ℕ) → 0 < n → n < bit (suc (np.log2 n))

module _ {F : Type 0} (np : Calls F) where
  abbrev pub reduce : Bool → F → F → F
  reduce true = np.maximum
  reduce false = np.minimum

  -- `levels[j]`: `reduce(previous[:-half], previous[half:])`, and its length.
  unfoldable pub level : Bool → (ℕ → F) → ℕ → ℕ → F
  level largest values zero i = values i
  level largest values (suc j) i =
      reduce largest (level largest values j i) (level largest values j (i + bit j))

  abbrev pub level_len : ℕ → ℕ → ℕ
  level_len size zero = size
  level_len size (suc j) = level_len size j - bit j

  -- The level of a query, and the second place it reads there.
  abbrev pub level_of : ℕ → ℕ → ℕ
  level_of low high = np.log2 (high - low + 1)

  abbrev pub second : ℕ → ℕ → ℕ
  second low high = high + 1 - bit (level_of low high)

  unfoldable pub window_extreme : Bool → (ℕ → F) → ℕ → ℕ → F
  window_extreme largest values low high =
      let j = level_of low high in
      reduce largest (level largest values j low) (level largest values j (second low high))
