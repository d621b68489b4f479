-- ===== src/Market/Tests.antt =====
-- A stream of 15-minute bars, and a frame of three one-minute bars.
use strategy_engine.Prelude.{ℕ, ◌+◌, ◌-◌, ◌*◌, ◌/◌, ◌<◌, ◌≡◌, ◌↔◌, refl, some, none, List, [], ◌∷◌}
use strategy_engine.Prelude.Int.{ℤ, pos, negsuc, ◌+ℤ◌}
use strategy_engine.Result.{ok, err, Error}
use strategy_engine.Market.Timeframe.{
  int_of, last, unit_of, timeframe_duration_ms, is_timeframe, is_ticker, market_stream,
}
use strategy_engine.Market.Canonical.{number, is_timeframe-market_stream}
use strategy_engine.Market.Frame.{TimeRange, validate_alignment, check_bars, market_frame}
use strategy_engine.Market.Grid.{grid_of, market_frame_iff}

numbers :
    (int_of " -1_5 " ≡ some (negsuc 14))
    × (int_of "1__5" ≡ none)
    × (int_of "" ≡ none)
    × (int_of "+07" ≡ some (pos 7))
    × (int_of "-" ≡ none)
unfolding int_of
numbers = (refl, refl, refl, refl, refl)

zero_is_refused : timeframe_duration_ms "0h" ≡ err (Error.invalid_request "unsupported timeframe")
unfolding timeframe_duration_ms int_of
zero_is_refused = refl

is_timeframe-market_stream_example :
    (unit step : ℕ) × (market_stream "BTCUSDT.P" "15m" ≡ ok tt)
    × (unit_of (last "15m") ≡ some unit)
    × (timeframe_duration_ms "15m" ≡ ok step)
    × (step ≡ number "15m" 0 * unit)
    × (0 < step)
unfolding is_ticker is_timeframe
is_timeframe-market_stream_example = is_timeframe-market_stream "BTCUSDT.P" "15m" refl refl

abbrev range : TimeRange
range = record { from_ms = pos 60_000; to_ms = pos 240_000 }

abbrev bars : List ℤ
bars = pos 60_000 ∷ pos 120_000 ∷ pos 180_000 ∷ []

accepted : market_frame "1m" range bars ≡ ok tt
unfolding market_frame check_bars timeframe_duration_ms int_of ◌+ℤ◌
accepted = refl

market_frame_iff_example :
    (from to step : ℕ) × (range.from_ms ≡ pos from)
    × (range.to_ms ≡ pos to)
    × (timeframe_duration_ms "1m" ≡ ok step)
    × (from + (to - from) / step * step ≡ to)
    × ((market_frame "1m" range bars ≡ ok tt) ↔ (bars ≡ grid_of step from to))
unfolding validate_alignment timeframe_duration_ms int_of
market_frame_iff_example = market_frame_iff "1m" range bars refl
