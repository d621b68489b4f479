-- ===== src/Untouched/Tests.antt =====
-- A long setup whose price comes down to its anchor at bar 4, after four bars above it.
use strategy_engine.Prelude.{◌≡◌, ◌↔◌, ◌⊎◌, refl, arith, true, false, ◌==◌, if◌then◌else◌}
use strategy_engine.Prelude.Int.{pos}
use strategy_engine.Float.Grid.{Grid, grid_float, tick}
use strategy_engine.Pandas.Reference.{scan_rolling, scan_rolling-IsRollingMax}
use strategy_engine.Result.{ok}
use strategy_engine.Untouched.Setup.{
  Side, Periods, Series, touch, side_ok, untouched_prior, touch_active, untouched_anchor,
  untouched_anchor_params,
}
use strategy_engine.Untouched.Meaning.{Untouched, RecentTouch, untouched_anchor_iff}

abbrev periods : Periods
periods = record { lookback = 3; active_bars = 2 }

abbrev series : Series Grid
series = record {
  anchor = λ i. tick 100;
  close = λ i. tick 104;
  low = λ i. if i == 4 then tick 99 else tick 102;
  high = λ i. tick 105;
}

parsed : untouched_anchor_params (pos 3) (pos 2) ≡ ok periods
unfolding untouched_anchor_params
parsed = refl

allowed_after_the_touch :
    ((untouched_anchor scan_rolling periods series Side.long 2).allowed ≡ false)
    × ((untouched_anchor scan_rolling periods series Side.long 3).allowed ≡ true)
    × ((untouched_anchor scan_rolling periods series Side.long 5).allowed ≡ true)
    × ((untouched_anchor scan_rolling periods series Side.long 6).allowed ≡ false)
unfolding untouched_anchor untouched_prior touch_active
allowed_after_the_touch = (refl, refl, refl, refl)

untouched_anchor_iff_example :
    ((untouched_anchor scan_rolling periods series Side.long 5).allowed ≡ true) ↔ (
      ((side_ok scan_rolling periods series Side.long 5 ≡ true)
        × (touch scan_rolling periods series Side.long 5 ≡ false)
        × Untouched scan_rolling scan_rolling-IsRollingMax periods series Side.long 5)
      ⊎ RecentTouch scan_rolling scan_rolling-IsRollingMax periods series Side.long 5)
untouched_anchor_iff_example =
    untouched_anchor_iff scan_rolling scan_rolling-IsRollingMax periods series Side.long 5
      (omega arith) (omega arith)
