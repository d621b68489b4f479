-- ===== src/Market/Frame.antt =====
-- Ranges and frames of bars: `TimeRange.validate_alignment`
-- (src/strategy_engine/domain/ranges.py) and `MarketFrame.__post_init__`
-- (src/strategy_engine/domain/market.py). Of a bar only the open time is read.
use Prim.Native.String.{String}
use strategy_engine.Prelude.{ℕ, suc, ◌%◌, ◌==◌, Bool, false, not, ◌||◌, List, [], ◌∷◌}
use strategy_engine.Prelude.Int.{ℤ, pos, negsuc, ◌+ℤ◌, ltb_ℤ, leb_ℤ}
use strategy_engine.Result.{Result, ok, Error, ◌>>=◌, ◌>>◌, raise_if}
use strategy_engine.Market.Timeframe.{timeframe_duration_ms}

pub record TimeRange : Type 0 where
  pub from_ms : ℤ
  pub to_ms : ℤ

abbrev pub eq_ℤ : ℤ → ℤ → Bool
eq_ℤ (pos a) (pos b) = a == b
eq_ℤ (negsuc a) (negsuc b) = a == b
eq_ℤ _ _ = false

-- `a % b` is not zero, for a positive `b`.
abbrev pub has_rest : ℤ → ℕ → Bool
has_rest (pos a) b = not (a % b == 0)
has_rest (negsuc a) b = not (suc a % b == 0)

unfoldable pub validate_alignment : TimeRange → String → Result (Unit {0})
validate_alignment range timeframe =
    raise_if (ltb_ℤ range.from_ms (pos 0) || leb_ℤ range.to_ms range.from_ms)
      (Error.invalid_request "range must be a positive half-open interval")
    >> (timeframe_duration_ms timeframe >>= λ step_ms.
        raise_if (has_rest range.from_ms step_ms || has_rest range.to_ms step_ms)
          (Error.invalid_request "range boundaries must align to timeframe grid"))

-- The open time expected after the bars.
unfoldable pub check_bars : List ℤ → (step_ms : ℕ) → (expected : ℤ) → Result ℤ
check_bars [] step_ms expected = ok expected
check_bars (open_time_ms ∷ bars) step_ms expected =
    let rest = check_bars bars step_ms (expected +ℤ pos step_ms) in
    raise_if (not (eq_ℤ open_time_ms expected))
      (Error.invalid_request "market frame must contain a complete ordered grid")
    >> rest

unfoldable pub market_frame : (base_timeframe : String) → TimeRange → List ℤ → Result (Unit {0})
market_frame base_timeframe range bars = timeframe_duration_ms base_timeframe >>= λ step_ms.
    check_bars bars step_ms range.from_ms >>= λ expected.
    raise_if (not (eq_ℤ expected range.to_ms))
      (Error.invalid_request "market frame does not cover the complete requested range")
