-- ===== src/Width/Tests.antt =====
-- Averages that stand apart at bar 2, and a band of widths from 2 to 5.
use strategy_engine.Prelude.{ℕ, ◌≡◌, ◌↔◌, refl, true, ◌==◌, Option, some, if◌then◌else◌}
use strategy_engine.Prelude.Int.{ℤ, pos, negsuc}
use strategy_engine.Float.Grid.{Grid, grid_float, tick, Grid-IsOrdered}
use strategy_engine.Json.{Json, Fields}
use strategy_engine.Pandas.Peak.{
  scan_peak, scan_peak-IsRollingPeak, scan_sum, scan_sum-IsRollingSum,
}
use strategy_engine.Result.{ok, err, Error, Ensures}
use strategy_engine.Width.Setup.{
  WidthParams, Averages, Narrow, width_atr, all_finite, recent_max, anchor_stack_width,
  anchor_stack_width_params,
}
use strategy_engine.Width.Window.{IsWide, anchor_stack_width_params-Ensures}
use strategy_engine.Width.Band.{
  WidthBandParams, BandReason, band_width, anchor_stack_width_band, parse_width_band_params,
}
use strategy_engine.Width.Inside.{IsBand, InBand, parse_width_band_params-Ensures}

abbrev averages : Averages Grid
averages = record {
  fast = λ i. if i == 2 then tick 106 else tick 103;
  anchor = λ i. tick 101;
  slow = λ i. tick 100;
  atr = λ i. tick 1;
}

abbrev params : WidthParams Grid
params = record { min_current = tick 2; min_recent = tick 4; lookback = 3 }

parsed : anchor_stack_width_params (tick 2) (tick 4) (pos 3) ≡ ok params
unfolding anchor_stack_width_params
parsed = refl

reasons :
    ((anchor_stack_width scan_peak scan_sum params averages 1).blocked_reason
      ≡ Narrow.indicator_not_ready)
    × ((anchor_stack_width scan_peak scan_sum params averages 4).blocked_reason ≡ Narrow.wide)
    × ((anchor_stack_width scan_peak scan_sum params averages 5).blocked_reason
        ≡ Narrow.recent_width_never_expanded)
unfolding anchor_stack_width recent_max all_finite
reasons = (refl, refl, refl)

anchor_stack_width_params-Ensures_example :
    Ensures
      (λ p.
        (i : ℕ)
        → (((anchor_stack_width scan_peak scan_sum p averages i).allowed ≡ true)
            ↔ IsWide p averages i)
          × (((anchor_stack_width scan_peak scan_sum p averages i).allowed ≡ true) ↔ (
              (anchor_stack_width scan_peak scan_sum p averages i).blocked_reason ≡ Narrow.wide)))
      (anchor_stack_width_params (tick 2) (tick 4) (pos 3))
anchor_stack_width_params-Ensures_example =
    anchor_stack_width_params-Ensures scan_peak scan_sum Grid-IsOrdered
      (scan_peak-IsRollingPeak Grid-IsOrdered) scan_sum-IsRollingSum refl (tick 2) (tick 4) (pos 3)
      averages

abbrev of_int : ℤ → Option Grid
of_int n = some (some n)

abbrev body : Fields Grid
body =
    Fields.field "min_width_atr" (Json.int (pos 2))
      (Fields.field "max_width_atr" (Json.float (tick 5)) Fields.end)

band_parsed :
    parse_width_band_params of_int body
    ≡ ok (record {
      min_width = tick 2;
      max_width = some (tick 5);
      atr_timeframe = "base";
      atr_period = 14;
    })
unfolding parse_width_band_params
band_parsed = refl

negative_refused :
    parse_width_band_params of_int (Fields.field "min_width_atr" (Json.int (negsuc 0)) Fields.end)
    ≡ err (Error.invalid_request "min_width_atr must be greater than zero")
unfolding parse_width_band_params
negative_refused = refl

abbrev band : WidthBandParams Grid
band = record {
  min_width = tick 2;
  max_width = some (tick 5);
  atr_timeframe = "base";
  atr_period = 14;
}

band_reasons :
    ((anchor_stack_width_band (tick 1) band averages 1).blocked_reason ≡ BandReason.inside)
    × ((anchor_stack_width_band (tick 1) band averages 2).blocked_reason
        ≡ BandReason.width_above_max)
unfolding anchor_stack_width_band band_width
band_reasons = (refl, refl)

parse_width_band_params-Ensures_example :
    Ensures
      (λ p.
        IsBand p
        × ((i : ℕ)
            → (((anchor_stack_width_band (tick 1) p averages i).allowed ≡ true)
                ↔ InBand p (width_atr averages i))
              × (((anchor_stack_width_band (tick 1) p averages i).allowed ≡ true) ↔ (
                  (anchor_stack_width_band (tick 1) p averages i).blocked_reason
                  ≡ BandReason.inside))))
      (parse_width_band_params of_int body)
parse_width_band_params-Ensures_example =
    parse_width_band_params-Ensures Grid-IsOrdered refl of_int refl (tick 1) averages body
