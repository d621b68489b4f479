-- ===== src/Blocker/Tests.antt =====
-- A peak of the ADX at bar 2 that is too old from bar 6 on.
use strategy_engine.Prelude.{ℕ, suc, ◌≡◌, ◌↔◌, ◌⊎◌, refl, true, false, ◌==◌, if◌then◌else◌}
use strategy_engine.Prelude.Int.{pos, ◌-ℤ◌, ◌≤ℤ◌}
use strategy_engine.Float.Grid.{Grid, grid_float, tick}
use strategy_engine.Numpy.Reference.{reference, reference-IsNumpy}
use strategy_engine.Blocker.Trend.{
  Side, TrendParams, TrendSeries, Reason, finite, qualifies, peak_index, too_low, flipped,
  trend_strength_blocker,
}
use strategy_engine.Pandas.{InWindow}
use strategy_engine.Pandas.Reference.{scan_rolling, scan_rolling-IsRollingMax}
use strategy_engine.Result.{ok, err, Error}
use strategy_engine.Blocker.Rsi.{
  RsiParams, rsi_blocker, rsi_blocker_params, IsCalm, rsi_blocker_iff,
}
use strategy_engine.Blocker.Peak.{RecentPeak, trend_strength_blocker_iff}

abbrev params : TrendParams Grid
params = record {
  min_adx_peak = tick 25;
  peak_lookback_bars = pos 60;
  max_bars_since_peak = pos 3;
  min_current_adx = tick 15;
  require_di_alignment = true;
  block_on_opposite_di_flip = true;
  opposite_di_margin = tick 0;
}

abbrev series : TrendSeries Grid
series = record {
  adx = λ i. if i == 2 then tick 30 else tick 20;
  di_plus = λ i. tick 9;
  di_minus = λ i. tick 7;
}

passes_bar_5 : (trend_strength_blocker reference params series Side.long 5).passes ≡ true
unfolding trend_strength_blocker qualifies peak_index ◌-ℤ◌
passes_bar_5 = refl

too_old_at_bar_6 :
    (trend_strength_blocker reference params series Side.long 6).reason ≡ Reason.peak_too_old
unfolding trend_strength_blocker qualifies peak_index ◌-ℤ◌
too_old_at_bar_6 = refl

missing_at_bar_1 :
    (trend_strength_blocker reference params series Side.long 1).reason ≡ Reason.no_recent_adx_peak
unfolding trend_strength_blocker qualifies peak_index ◌-ℤ◌
missing_at_bar_1 = refl

trend_strength_blocker_iff_example :
    (((trend_strength_blocker reference params series Side.long 5).passes ≡ true) ↔ (
      (finite reference params series Side.long 5 ≡ true)
      × RecentPeak reference reference-IsNumpy params series Side.long 5
      × (too_low reference params series Side.long 5 ≡ false)
      × (flipped reference params series Side.long 5 ≡ false)))
    × (((trend_strength_blocker reference params series Side.long 5).passes ≡ true)
        ↔ ((trend_strength_blocker reference params series Side.long 5).reason ≡ Reason.allowed))
trend_strength_blocker_iff_example =
    trend_strength_blocker_iff reference reference-IsNumpy params series Side.long 5

-- An RSI above its bound at bar 4 blocks bars 4 and 5.
abbrev rsi : ℕ → Grid
rsi i = if i == 4 then tick 90 else tick 50

blocked_at_5 :
    (rsi_blocker scan_rolling (record { lookback = 2; threshold = tick 80 }) rsi Side.long 5
      ≡ false)
    × (rsi_blocker scan_rolling (record { lookback = 2; threshold = tick 80 }) rsi Side.long 6
        ≡ true)
unfolding rsi_blocker
blocked_at_5 = (refl, refl)

rsi_blocker_iff_example :
    ((pos 2 ≤ℤ pos 0)
      × (rsi_blocker_params (pos 2) (tick 80) (tick 20) Side.long
          ≡ err (Error.invalid_request "blocker lookback must be positive")))
    ⊎ ((n : ℕ) × (pos 2 ≡ pos (suc n))
        × (p : RsiParams Grid) × (rsi_blocker_params (pos 2) (tick 80) (tick 20) Side.long ≡ ok p)
        × ((i : ℕ)
            → (rsi_blocker scan_rolling p rsi Side.long i ≡ true)
              ↔ ((k : ℕ) → InWindow (suc n) i k → IsCalm Side.long (tick 80) (tick 20) (rsi k))))
rsi_blocker_iff_example =
    rsi_blocker_iff scan_rolling scan_rolling-IsRollingMax (pos 2) (tick 80) (tick 20) rsi Side.long
