-- ===== src/Numpy.antt =====
-- The calls of numpy that no elementwise rule replaces. An array is a function of its index, and a
-- slice `values[from:to]` is the array with its two bounds.
pub mod Reference
use strategy_engine.Prelude.{ℕ, suc, ◌+◌, ◌≤◌, ◌<◌, ◌≡◌, true, if◌then◌else◌}
use strategy_engine.Prelude.Int.{ℤ, ltb_ℤ}
use strategy_engine.Float.{Float, IsNumber}

pub record Numpy (F : Type 0) : Type 0 where
  -- `np.maximum.accumulate(values)[i]`
  pub running_max : (ℕ → ℤ) → ℕ → ℤ
  -- `np.argmax(values[from:to])`
  pub argmax : (ℕ → F) → ℕ → ℕ → ℕ
  -- `values[from:to].min()`
  pub min_of : (ℕ → F) → ℕ → ℕ → F

-- Two arrays have the same values on `values[from:to]`.
abbrev pub AgreeOn {ℓ} : {A : Type ℓ} → ℕ → ℕ → (ℕ → A) → (ℕ → A) → Type ℓ
AgreeOn from to v w = (k : ℕ) → from ≤ k → k < to → v k ≡ w k

-- The documented behaviour that the theorems rely on.
pub record IsNumpy {F : Type 0} ⦃f : Float F⦄ (np : Numpy F) : Type 0 where
  pub running_max_first : (v : ℕ → ℤ) → np.running_max v 0 ≡ v 0
  pub running_max_next :
      (v : ℕ → ℤ) (i : ℕ)
      → np.running_max v (suc i)
        ≡ (if ltb_ℤ (np.running_max v i) (v (suc i)) then v (suc i) else np.running_max v i)
  pub argmax_within : (v : ℕ → F) (from to : ℕ) → from < to → from + np.argmax v from to < to
  pub argmax_local :
      (v w : ℕ → F) (from to : ℕ)
      → from < to
      → AgreeOn from to v w
      → np.argmax v from to ≡ np.argmax w from to
  pub min_local :
      (v w : ℕ → F) (from to : ℕ)
      → from < to
      → AgreeOn from to v w
      → np.min_of v from to ≡ np.min_of w from to

-- `np.cumsum(values)[i]` of counts, and its documented behaviour.
abbrev pub Cumsum : Type 0
Cumsum = (ℕ → ℕ) → ℕ → ℕ

pub record IsCumsum (cumsum : Cumsum) : Type 0 where
  pub cumsum_first : (v : ℕ → ℕ) → cumsum v 0 ≡ v 0
  pub cumsum_next : (v : ℕ → ℕ) (i : ℕ) → cumsum v (suc i) ≡ cumsum v i + v (suc i)
