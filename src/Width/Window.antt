-- ===== src/Width/Window.antt =====
-- When the width setup of src/strategy_engine/strategies/ema_pullback/setups.py allows a bar.
use strategy_engine.Prelude.{
  ℕ, zero, suc, ◌+◌, ◌≤◌, ◌<◌, ◌≡◌, ◌↔◌, refl, arith, Bool, true, false, ◌==◌, ◌||◌, ltb,
  if◌then◌else◌, Bool-cases, inl, inr, subst,
}
use strategy_engine.Float.{Float, IsOrdered}
use strategy_engine.Pandas.{
  RollingPeak, IsRollingPeak, RollingSum, IsRollingSum, InWindow, window_sum,
}
use strategy_engine.Prelude.Int.{ℤ, pos, pos_part, leb_ℤ}
use strategy_engine.Result.{Ensures, Ensures-raise_if}
use strategy_engine.Width.Setup.{
  WidthParams, Averages, Narrow, width_of, width_atr, all_finite, recent_max, anchor_stack_width,
  anchor_stack_width_params,
}

-- Sums of zeros and ones.
module _ (flag : ℕ → Bool) where
  abbrev bits : ℕ → ℕ
  bits k = if flag k then 1 else 0

  window_sum-le : (window i : ℕ) → window_sum window bits i ≤ window
  window_sum-le zero i = omega arith
  window_sum-le (suc window) zero = ground arith
  window_sum-le (suc window) (suc i) = ground (arith, window_sum-le window i)

  total→whole : (window i : ℕ) → window_sum window bits i ≡ window → window ≤ i + 1
  total→whole zero i h = omega arith
  total→whole (suc window) zero h = ground arith
  total→whole (suc window) (suc i) h = ground (arith, window_sum-le window i, total→whole window i)

  total→all :
      (window i k : ℕ) → window_sum window bits i ≡ window → InWindow window i k → flag k ≡ true
  total→all zero i k h w = absurd (omega (arith, w.0, w.1))
  total→all (suc window) zero k h w =
      let at : 0 ≡ k = omega (arith, w.0) in subst (λ (x : ℕ). flag x ≡ true) at (ground arith)
  total→all (suc window) (suc i) k h w = elim (Bool-cases (k == suc i)) [
    | inl e ↦
        let at : suc i ≡ k = ground arith in
        subst (λ (x : ℕ). flag x ≡ true) at (ground (arith, window_sum-le window i))
    | inr e ↦
        total→all window i k (ground (arith, window_sum-le window i))
          (ground (arith, w.0), omega (arith, w.1))
  ]

  all→total :
      (window i : ℕ)
      → window ≤ i + 1
      → ((k : ℕ) → InWindow window i k → flag k ≡ true)
      → window_sum window bits i ≡ window
  all→total zero i h all = refl
  all→total (suc window) zero h all = let first = all 0 (omega arith, omega arith) in ground arith
  all→total (suc window) (suc i) h all =
      let last = all (suc i) (omega arith, omega arith) in
      let rest =
        all→total window i (omega arith) λ k w. all k (omega (arith, w.0), omega (arith, w.1)) in
      ground arith

module _ {F : Type 0} ⦃f : Float F⦄ where
  -- The whole window of bars up to bar `i` is there, and its widths are finite.
  abbrev pub WholeWindow : Averages F → ℕ → ℕ → Type 0
  WholeWindow s lookback i =
      (lookback ≤ i + 1) × ((k : ℕ) → InWindow lookback i k → f.is_finite (width_atr s k) ≡ true)

  -- A bar of the whole window reaches the width.
  abbrev pub Reached : Averages F → F → ℕ → ℕ → Type 0
  Reached s width lookback i = (k : ℕ) × InWindow lookback i k × (f.le width (width_atr s k) ≡ true)

  -- What the setup asks of a bar.
  abbrev pub IsWide : WidthParams F → Averages F → ℕ → Type 0
  IsWide p s i =
      (f.is_finite (s.anchor i) ≡ true)
      × WholeWindow s p.lookback i
      × (f.le p.min_current (width_atr s i) ≡ true)
      × Reached s p.min_recent p.lookback i

module _ {F : Type 0} ⦃f : Float F⦄ (peak : RollingPeak F) (sum : RollingSum) (order : IsOrdered F)
    (peaks : IsRollingPeak peak) (sums : IsRollingSum sum)
    (missing : f.is_finite f.nan ≡ false) where
  all_finite-WholeWindow :
      (s : Averages F) (lookback i : ℕ)
      → all_finite peak sum s lookback i ≡ true
      → WholeWindow s lookback i
  unfolding all_finite
  all_finite-WholeWindow s lookback i h = elim (Bool-cases (ltb (i + 1) lookback)) [
    | inl e ↦
        let none_yet =
          sums.too_few lookback lookback (bits (λ k. f.is_finite (width_atr s k))) i (ground arith)
            (omega arith) in
        absurd (ground arith)
    | inr e ↦
        let is =
          sums.of_window lookback lookback (bits (λ k. f.is_finite (width_atr s k))) i
            (ground arith) (omega arith) in
        (
          ground arith,
          λ k. total→all (λ k. f.is_finite (width_atr s k)) lookback i k (ground arith),
        )
  ]

  WholeWindow-all_finite :
      (s : Averages F) (lookback i : ℕ)
      → WholeWindow s lookback i
      → all_finite peak sum s lookback i ≡ true
  unfolding all_finite
  WholeWindow-all_finite s lookback i (h, all) =
      let is =
        sums.of_window lookback lookback (bits (λ k. f.is_finite (width_atr s k))) i (omega arith)
          (omega arith) in
      let total = all→total (λ k. f.is_finite (width_atr s k)) lookback i h all in ground arith

  -- A bar whose width is finite has its indicators.
  pub finite_width :
      (fast slow atr : F)
      → f.is_finite (width_of fast slow atr) ≡ true
      → (f.is_finite fast ≡ true)
        × (f.is_finite slow ≡ true)
        × (f.is_finite atr ≡ true)
        × (f.lt f.nought atr ≡ true)
  finite_width fast slow atr h = ground (arith, missing)

  positive_atr : (atr : F) → f.lt f.nought atr ≡ true → f.le atr f.nought ≡ false
  positive_atr atr h =
      let (zero_number, atr_number) = order.number_of_lt f.nought atr h in
      ground (arith, order.lt-eq-not_le f.nought atr zero_number atr_number)

  -- The maximum of a whole window of finite widths.
  recent_max_lem :
      (s : Averages F) (lookback i : ℕ)
      → 0 < lookback
      → WholeWindow s lookback i
      → (f.is_finite (recent_max peak sum s lookback i) ≡ true)
        × ((width : F)
            → (f.le width (recent_max peak sum s lookback i) ≡ true) ↔ Reached s width lookback i)
  unfolding recent_max
  recent_max_lem s lookback i positive whole =
      let numbers : (k : ℕ) → InWindow lookback i k → f.le (width_atr s k) (width_atr s k) ≡ true =
        λ k w. order.number_of_finite (width_atr s k) (whole.1 k w) in
      let full = WholeWindow-all_finite s lookback i whole in
      let (at, within, is) =
        peaks.among lookback lookback (width_atr s) i positive (whole.0) (omega arith) numbers in
      rw (full, is)
        (
          whole.1 at within,
          λ width. (
            λ h. (at, within, h),
            λ (k, w, h).
                let up =
                  peaks.upper lookback lookback (width_atr s) i (whole.0) (omega arith) numbers k
                    w in
                order.le_trans width (width_atr s k) (width_atr s at) h (rw (← is) up),
          ),
        )

  recent_max-WholeWindow :
      (s : Averages F) (lookback i : ℕ)
      → f.is_finite (recent_max peak sum s lookback i) ≡ true
      → WholeWindow s lookback i
  unfolding recent_max
  recent_max-WholeWindow s lookback i h = elim (Bool-cases (all_finite peak sum s lookback i)) [
    | inl e ↦ all_finite-WholeWindow s lookback i e
    | inr e ↦ absurd (ground (arith, missing))
  ]

  module _ (p : WidthParams F) (s : Averages F) (i : ℕ) where
    anchor_stack_width-IsWide :
        0 < p.lookback → (anchor_stack_width peak sum p s i).allowed ≡ true → IsWide p s i
    unfolding anchor_stack_width
    anchor_stack_width-IsWide positive h =
        let whole = recent_max-WholeWindow s p.lookback i (ground arith) in
        let (finite, reached) = recent_max_lem s p.lookback i positive whole in
        (ground arith, whole, ground arith, (reached p.min_recent).0 (ground arith))

    IsWide-anchor_stack_width :
        0 < p.lookback → IsWide p s i → (anchor_stack_width peak sum p s i).allowed ≡ true
    unfolding anchor_stack_width
    IsWide-anchor_stack_width positive (anchor, whole, current, once) =
        let (finite, reached) = recent_max_lem s p.lookback i positive whole in
        let r = (reached p.min_recent).1 once in
        let width = whole.1 i (omega arith, omega arith) in
        let (fast, slow, atr, above) = finite_width (s.fast i) (s.slow i) (s.atr i) width in
        rw (width, current, r, finite, fast, anchor, slow, atr, positive_atr (s.atr i) above) refl

    wide_iff :
        ((anchor_stack_width peak sum p s i).allowed ≡ true)
        ↔ ((anchor_stack_width peak sum p s i).blocked_reason ≡ Narrow.wide)
    unfolding anchor_stack_width
    wide_iff = ground arith

  -- With the documented rolling maximum and sum of pandas, comparisons with the laws of
  -- `IsOrdered` and a NaN that is not finite: the parameters of the width setup are refused, or it
  -- allows a bar exactly if the anchor is finite, the last lookback bars up to it are there and
  -- have finite widths, its own width is at least the current minimum, and one of these widths is
  -- at least the recent minimum; and exactly then it gives no reason to block.
  pub anchor_stack_width_params-Ensures :
      (min_current min_recent : F) (lookback : ℤ) (s : Averages F)
      → Ensures
          (λ p.
            (i : ℕ)
            → (((anchor_stack_width peak sum p s i).allowed ≡ true) ↔ IsWide p s i)
              × (((anchor_stack_width peak sum p s i).allowed ≡ true)
                  ↔ ((anchor_stack_width peak sum p s i).blocked_reason ≡ Narrow.wide)))
          (anchor_stack_width_params min_current min_recent lookback)
  unfolding anchor_stack_width_params
  anchor_stack_width_params-Ensures min_current min_recent lookback s =
      Ensures-raise_if _
        (f.le min_current f.nought || f.le min_recent f.nought || leb_ℤ lookback (pos 0)) _ _
        λ h i.
          let p : WidthParams F = record {
            min_current = min_current;
            min_recent = min_recent;
            lookback = pos_part lookback;
          } in
          let positive : 0 < pos_part lookback = ground arith in
          (
            (anchor_stack_width-IsWide p s i positive, IsWide-anchor_stack_width p s i positive),
            wide_iff p s i,
          )
