-- ===== src/Entry/Components.antt =====
-- The components of the entry chain: `_blocker_intrinsic`
-- (src/strategy_engine/strategies/ema_pullback/direction_blockers.py) and the local masks of `_setup`
-- (setups.py beside it), each on its series. The calls of pandas and numpy are fields of `Calls`.
use strategy_engine.Prelude.{ℕ, Bool, true, Option, none, some, List}
use strategy_engine.Prelude.Int.{ℤ}
use strategy_engine.Float.{Float}
use strategy_engine.Numpy.{Numpy}
use strategy_engine.Pandas.{RollingMax, RollingPeak, RollingSum}
use strategy_engine.Json.{Fields}
use strategy_engine.Result.{Result, ok, err, Error, ◌>>=◌}
use strategy_engine.Trade.{Side}
use strategy_engine.Composite.Spec.{Child, CompositePath}
use strategy_engine.Composite.Setup.{composite_core}
use strategy_engine.Vote.Score.{WeightedVoteSpec, weighted_vote}
use strategy_engine.Untouched.Setup.{Series, untouched_anchor_params, untouched_anchor}
use strategy_engine.Bounce.Step
use strategy_engine.Width.Setup.{Averages, anchor_stack_width_params, anchor_stack_width}
use strategy_engine.Width.Band.{parse_width_band_params, anchor_stack_width_band}
use strategy_engine.Blocker.Trend.{TrendParams, TrendSeries, trend_strength_blocker}
use strategy_engine.Blocker.Rsi.{rsi_blocker_params, rsi_blocker}
use strategy_engine.Entry.Masks.{Mask}

pub record Calls (F : Type 0) : Type 0 where
  pub numpy : Numpy F
  pub rolling : RollingMax
  pub peak : RollingPeak F
  pub sum : RollingSum
  pub of_int : ℤ → Option F
  pub one : F

pub record Candles (F : Type 0) : Type 0 where
  pub open_price : ℕ → F
  pub close_price : ℕ → F

-- A blocker with what it reads; `none` where the market bars are not those of the frame.
pub data Blocker (F : Type 0) : Type 0 where
  no_blockers unsupported_blocker : Blocker F
  counter_candle : Option (Candles F) → Blocker F
  rsi_lookback_extreme :
      (lookback : ℤ) (long_block_above short_block_below : F) (rsi : ℕ → F) → Blocker F
  trend_strength_episode : TrendParams F → TrendSeries F → Blocker F

-- A setup with what it reads; the children of a composite and the inputs of a vote are evaluated
-- for each side.
pub data Setup (F : Type 0) : Type 0 where
  untouched : (lookback active_bars : ℤ) → Series F → Setup F
  bounce_counter :
      (max_bounces touch_lookback start_confirm break_confirm : Option ℤ) (is_range_cross : Bool)
      → Step.Bars F
      → Setup F
  stack_width : (min_current min_recent : F) (lookback : ℤ) → Averages F → Setup F
  stack_width_band : Fields F → Averages F → Setup F
  composite : (Side → List (Child Mask)) → List CompositePath → Setup F
  vote : (Side → WeightedVoteSpec F) → Setup F
  unsupported_setup : Setup F

module _ {F : Type 0} ⦃f : Float F⦄ where
  abbrev counter_candle_mask : Candles F → Side → Mask
  counter_candle_mask b Side.long i = f.le (b.open_price i) (b.close_price i)
  counter_candle_mask b Side.short i = f.le (b.close_price i) (b.open_price i)

  -- `_blocker_intrinsic`, behind the check that the component is supported.
  unfoldable pub blocker_intrinsic : Calls F → Blocker F → Side → Result Mask
  blocker_intrinsic c no_blockers side = ok (λ i. true)
  blocker_intrinsic c unsupported_blocker side =
      err (Error.invalid_request "unsupported blocker component")
  blocker_intrinsic c (counter_candle none) side =
      err (Error.invalid_request "market bars unavailable for counter candle blocker")
  blocker_intrinsic c (counter_candle (some b)) side = ok (counter_candle_mask b side)
  blocker_intrinsic c (rsi_lookback_extreme lookback above below rsi) side =
      rsi_blocker_params lookback above below side >>= λ p. ok (rsi_blocker c.rolling p rsi side)
  blocker_intrinsic c (trend_strength_episode p s) side =
      ok (λ i. (trend_strength_blocker c.numpy p s side i).passes)

  -- The mask of `_setup` before its gate.
  unfoldable pub setup_local : Calls F → Setup F → Side → Result Mask
  setup_local c (untouched lookback active_bars s) side =
      untouched_anchor_params lookback active_bars >>= λ p.
      ok (λ i. (untouched_anchor c.rolling p s side i).allowed)
  setup_local c (bounce_counter most touch start broken is_range_cross b) side =
      Step.ema_bounce_counter_params most touch start broken is_range_cross >>= λ p.
      ok (λ i. (Step.row_at p (Step.signals side b) i).setup_allowed)
  setup_local c (stack_width min_current min_recent lookback s) side =
      anchor_stack_width_params min_current min_recent lookback >>= λ p.
      ok (λ i. (anchor_stack_width c.peak c.sum p s i).allowed)
  setup_local c (stack_width_band body s) side = parse_width_band_params c.of_int body >>= λ p.
      ok (λ i. (anchor_stack_width_band c.one p s i).allowed)
  setup_local c (composite children paths) side =
      composite_core (children side) paths >>= λ core. ok core.local
  setup_local c (vote spec) side = ok (weighted_vote (spec side))
  setup_local c unsupported_setup side = err (Error.invalid_request "unsupported setup component")
