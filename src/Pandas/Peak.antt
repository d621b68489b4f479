-- ===== src/Pandas/Peak.antt =====
-- The rolling maximum of floats and the rolling sum by plain scans, for tests and examples.
use strategy_engine.Prelude.{
  ℕ, zero, suc, ◌+◌, ◌≤◌, ◌<◌, ◌≡◌, refl, arith, true, false, ltb, ◌==◌, none, some, if◌then◌else◌,
  Bool-cases, inl, inr, subst,
}
use strategy_engine.Float.{Float, IsOrdered}
use strategy_engine.Pandas.{
  RollingPeak, IsRollingPeak, RollingSum, IsRollingSum, InWindow, window_sum,
}

abbrev pub scan_sum : RollingSum
scan_sum window min_periods v i =
    if ltb (i + 1) min_periods then none else some (window_sum window v i)

pub scan_sum-IsRollingSum : IsRollingSum scan_sum
scan_sum-IsRollingSum = record {
  too_few = λ window min_periods v i h k. ground arith;
  of_window = λ window min_periods v i h k. ground arith;
}

module _ {F : Type 0} ⦃f : Float F⦄ where
  abbrev greater_of : F → F → F
  greater_of a b = if f.lt a b then b else a

  -- The greatest of the `window + 1` values up to bar `i`, as far as they are there.
  abbrev scan : ℕ → (ℕ → F) → ℕ → F
  scan window v zero = v 0
  scan zero v (suc i) = v (suc i)
  scan (suc window) v (suc i) = greater_of (v (suc i)) (scan window v i)

  abbrev pub scan_peak : RollingPeak F
  scan_peak zero min_periods v i = f.nan
  scan_peak (suc window) min_periods v i =
      if ltb (i + 1) min_periods then f.nan else scan window v i

  scan-among :
      (window : ℕ) (v : ℕ → F) (i : ℕ)
      → (k : ℕ) × InWindow (suc window) i k × (scan window v i ≡ v k)
  scan-among window v zero = (0, (omega arith, omega arith), refl)
  scan-among zero v (suc i) = (suc i, (omega arith, omega arith), refl)
  scan-among (suc window) v (suc i) = elim (Bool-cases (f.lt (v (suc i)) (scan window v i))) [
    | inl e ↦
        let (k, w, is) = scan-among window v i in
        (k, (omega (arith, w.0), omega (arith, w.1)), rw e is)
    | inr e ↦ (suc i, (omega arith, omega arith), rw e refl)
  ]

  module _ (order : IsOrdered F) where
    greater_of-upper :
        (a b : F)
        → f.le a a ≡ true
        → f.le b b ≡ true
        → (f.le a (greater_of a b) ≡ true) × (f.le b (greater_of a b) ≡ true)
    greater_of-upper a b ha hb =
        ground (arith, order.lt-eq-not_le a b ha hb, order.le_total a b ha hb)

    scan-upper :
        (window : ℕ) (v : ℕ → F) (i : ℕ)
        → ((k : ℕ) → InWindow (suc window) i k → f.le (v k) (v k) ≡ true)
        → (k : ℕ) → InWindow (suc window) i k
        → f.le (v k) (scan window v i) ≡ true
    scan-upper window v zero all k w =
        let at : 0 ≡ k = omega (arith, w.0) in
        subst (λ (x : ℕ). f.le (v x) (v 0) ≡ true) at (all 0 (omega arith, omega arith))
    scan-upper zero v (suc i) all k w =
        let at : suc i ≡ k = omega (arith, w.0, w.1) in
        subst (λ (x : ℕ). f.le (v x) (v (suc i)) ≡ true) at (all (suc i) (omega arith, omega arith))
    scan-upper (suc window) v (suc i) all k w =
        let below : (j : ℕ) → InWindow (suc window) i j → f.le (v j) (v j) ≡ true =
          λ j u. all j (omega (arith, u.0), omega (arith, u.1)) in
        let (at, u, is) = scan-among window v i in
        let here = all (suc i) (omega arith, omega arith) in
        let rest : f.le (scan window v i) (scan window v i) ≡ true = rw is (below at u) in
        let (first, later) = greater_of-upper (v (suc i)) (scan window v i) here rest in
        elim (Bool-cases (k == suc i)) [
          | inl e ↦
              let same : suc i ≡ k = ground arith in
              subst (λ (x : ℕ). f.le (v x) (greater_of (v (suc i)) (scan window v i)) ≡ true) same
                first
          | inr e ↦
              let up = scan-upper window v i below k (ground (arith, w.0), omega (arith, w.1)) in
              order.le_trans (v k) (scan window v i) (greater_of (v (suc i)) (scan window v i)) up
                later
        ]

    scan_peak-among :
        (window min_periods : ℕ) (v : ℕ → F) (i : ℕ)
        → 0 < window
        → window ≤ i + 1
        → min_periods ≤ window
        → (k : ℕ) × InWindow window i k × (scan_peak window min_periods v i ≡ v k)
    scan_peak-among zero min_periods v i positive whole few = absurd (omega arith)
    scan_peak-among (suc window) min_periods v i positive whole few =
        let full : ltb (i + 1) min_periods ≡ false = ground arith in rw full (scan-among window v i)

    scan_peak-upper :
        (window min_periods : ℕ) (v : ℕ → F) (i : ℕ)
        → window ≤ i + 1
        → min_periods ≤ window
        → ((k : ℕ) → InWindow window i k → f.le (v k) (v k) ≡ true)
        → (k : ℕ) → InWindow window i k
        → f.le (v k) (scan_peak window min_periods v i) ≡ true
    scan_peak-upper zero min_periods v i whole few all k w = absurd (omega (arith, w.0, w.1))
    scan_peak-upper (suc window) min_periods v i whole few all k w =
        let full : ltb (i + 1) min_periods ≡ false = ground arith in
        rw full (scan-upper window v i all k w)

    pub scan_peak-IsRollingPeak : IsRollingPeak scan_peak
    scan_peak-IsRollingPeak = record {
      among = λ window min_periods v i h k few all. scan_peak-among window min_periods v i h k few;
      upper = scan_peak-upper;
    }
