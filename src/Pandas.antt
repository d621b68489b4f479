-- ===== src/Pandas.antt =====
-- The calls of pandas that the setups and blockers make. A Boolean series is a function of
-- the bar, and `none` is its NaN.
pub mod Reference
pub mod Peak
use strategy_engine.Prelude.{
  ℕ, zero, suc, ◌+◌, ◌≤◌, ◌<◌, ◌≡◌, ◌↔◌, Bool, true, false, Option, none, some, List, any,
  get_elem?,
}
use strategy_engine.Float.{Float}

-- `series.rolling(window, min_periods=min_periods).max()`
abbrev pub RollingMax : Type 0
RollingMax = (window min_periods : ℕ) → (ℕ → Bool) → ℕ → Option Bool

-- The last `window` bars up to bar `i` have bar `k`.
abbrev pub InWindow : ℕ → ℕ → ℕ → Type 0
InWindow window i k = (k ≤ i) × (i < k + window)

-- The documented behaviour: NaN while the window has less than `min_periods` bars, and otherwise
-- whether one of its bars is true.
pub record IsRollingMax (rolling : RollingMax) : Type 0 where
  pub too_few :
      (window min_periods : ℕ) (v : ℕ → Bool) (i : ℕ)
      → i + 1 < min_periods
      → min_periods ≤ window
      → rolling window min_periods v i ≡ none
  pub of_window :
      (window min_periods : ℕ) (v : ℕ → Bool) (i : ℕ)
      → min_periods ≤ i + 1
      → min_periods ≤ window
      → (b : Bool) × (rolling window min_periods v i ≡ some b)
        × ((b ≡ true) ↔ ((k : ℕ) × InWindow window i k × (v k ≡ true)))

-- `astype(bool)` of a value that may be NaN, and `fillna(1)`: NaN is true.
abbrev pub or_nan : Option Bool → Bool
or_nan none = true
or_nan (some b) = b

-- `series.shift(1, fill_value=False)`
abbrev pub shift : (ℕ → Bool) → ℕ → Bool
shift v zero = false
shift v (suc i) = v i

-- `series.rolling(window, min_periods=min_periods).min()` on zeros and ones
abbrev pub RollingMin : Type 0
RollingMin = (window min_periods : ℕ) → (ℕ → Bool) → ℕ → Option Bool

-- The documented behaviour: NaN while the window has less than `min_periods` bars, and otherwise
-- whether all its bars are true.
pub record IsRollingMin (rolling : RollingMin) : Type 0 where
  pub too_few :
      (window min_periods : ℕ) (v : ℕ → Bool) (i : ℕ)
      → i + 1 < min_periods
      → min_periods ≤ window
      → rolling window min_periods v i ≡ none
  pub of_window :
      (window min_periods : ℕ) (v : ℕ → Bool) (i : ℕ)
      → min_periods ≤ i + 1
      → min_periods ≤ window
      → (b : Bool) × (rolling window min_periods v i ≡ some b)
        × ((b ≡ true) ↔ ((k : ℕ) → InWindow window i k → v k ≡ true))

-- `fillna(0).astype(bool)`: NaN is false.
abbrev pub or_zero : Option Bool → Bool
or_zero none = false
or_zero (some b) = b

-- `pd.concat(series, axis=1).min(axis=1)` on a bar: the values of the row.
abbrev pub RowMin : Type 0 → Type 0
RowMin F = List F → F

-- The documented behaviour: NaN is skipped, and a row without a number has NaN.
pub record IsRowMin {F : Type 0} ⦃f : Float F⦄ (row_min : RowMin F) : Type 0 where
  pub no_number :
      (row : List F) → any (λ a. f.le a a) row ≡ false → f.le (row_min row) (row_min row) ≡ false
  pub number :
      (row : List F) → any (λ a. f.le a a) row ≡ true → f.le (row_min row) (row_min row) ≡ true
  pub among :
      (row : List F)
      → any (λ a. f.le a a) row ≡ true
      → (i : ℕ) × (get_elem? row i ≡ some (row_min row))
  pub lower :
      (row : List F) (i : ℕ) (a : F)
      → get_elem? row i ≡ some a
      → f.le a a ≡ true
      → f.le (row_min row) a ≡ true

-- `series.rolling(window, min_periods=min_periods).max()` of floats, with NaN for no value.
abbrev pub RollingPeak : Type 0 → Type 0
RollingPeak F = (window min_periods : ℕ) → (ℕ → F) → ℕ → F

-- The documented behaviour: the greatest value of a whole window of numbers.
pub record IsRollingPeak {F : Type 0} ⦃f : Float F⦄ (peak : RollingPeak F) : Type 0 where
  pub among :
      (window min_periods : ℕ) (v : ℕ → F) (i : ℕ)
      → 0 < window
      → window ≤ i + 1
      → min_periods ≤ window
      → ((k : ℕ) → InWindow window i k → f.le (v k) (v k) ≡ true)
      → (k : ℕ) × InWindow window i k × (peak window min_periods v i ≡ v k)
  pub upper :
      (window min_periods : ℕ) (v : ℕ → F) (i : ℕ)
      → window ≤ i + 1
      → min_periods ≤ window
      → ((k : ℕ) → InWindow window i k → f.le (v k) (v k) ≡ true)
      → (k : ℕ) → InWindow window i k
      → f.le (v k) (peak window min_periods v i) ≡ true

-- `series.rolling(window, min_periods=min_periods).sum()` of counts, and `none` for NaN.
abbrev pub RollingSum : Type 0
RollingSum = (window min_periods : ℕ) → (ℕ → ℕ) → ℕ → Option ℕ

-- The sum of the last `window` values up to bar `i`, as far as they are there.
abbrev pub window_sum : ℕ → (ℕ → ℕ) → ℕ → ℕ
window_sum zero v i = 0
window_sum (suc window) v zero = v 0
window_sum (suc window) v (suc i) = v (suc i) + window_sum window v i

-- The documented behaviour: NaN while the window has less than `min_periods` bars.
pub record IsRollingSum (sum : RollingSum) : Type 0 where
  pub too_few :
      (window min_periods : ℕ) (v : ℕ → ℕ) (i : ℕ)
      → i + 1 < min_periods
      → min_periods ≤ window
      → sum window min_periods v i ≡ none
  pub of_window :
      (window min_periods : ℕ) (v : ℕ → ℕ) (i : ℕ)
      → min_periods ≤ i + 1
      → min_periods ≤ window
      → sum window min_periods v i ≡ some (window_sum window v i)
