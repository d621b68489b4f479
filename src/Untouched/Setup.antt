-- ===== src/Untouched/Setup.antt =====
-- `_untouched_anchor` and its parameters
-- (src/strategy_engine/strategies/ema_pullback/setups.py), on the series of the anchor and the
-- market.
pub use strategy_engine.Trade.{Side}
use strategy_engine.Prelude.{ℕ, suc, Bool, false, not, ◌&&◌, ◌||◌, ltb, if◌then◌else◌}
use strategy_engine.Prelude.Int.{ℤ, pos}
use strategy_engine.Float.{Float}
use strategy_engine.Pandas.{RollingMax, or_nan, shift}
use strategy_engine.Result.{Result, ok, err, Error}

pub record Periods : Type 0 where
  pub lookback : ℕ
  pub active_bars : ℕ

abbrev pub refused : Result Periods
refused = err (Error.invalid_request "untouched anchor setup periods must be positive")

unfoldable pub untouched_anchor_params : (lookback active_bars : ℤ) → Result Periods
untouched_anchor_params (pos (suc n)) (pos (suc m)) =
    ok (record { lookback = suc n; active_bars = suc m })
untouched_anchor_params _ _ = refused

pub record Series (F : Type 0) : Type 0 where
  pub anchor : ℕ → F
  pub close : ℕ → F
  pub low : ℕ → F
  pub high : ℕ → F

pub record SetupRow : Type 0 where
  pub allowed : Bool
  pub touch : Bool
  pub side_ok : Bool
  pub prior_touch : Bool
  pub untouched_prior : Bool
  pub armed_pre : Bool
  pub first_touch : Bool
  pub touch_active : Bool

module _ {F : Type 0} ⦃f : Float F⦄ (rolling : RollingMax) (p : Periods) (s : Series F) where
  abbrev pub touch : Side → ℕ → Bool
  touch Side.long i = f.le (s.low i) (s.anchor i)
  touch Side.short i = f.le (s.anchor i) (s.high i)

  abbrev pub side_ok : Side → ℕ → Bool
  side_ok Side.long i = f.lt (s.anchor i) (s.close i)
  side_ok Side.short i = f.lt (s.close i) (s.anchor i)

  unfoldable pub untouched_prior : Side → ℕ → Bool
  untouched_prior side i =
      if ltb i p.lookback
      then false
      else not (or_nan (rolling p.lookback p.lookback (shift (touch side)) i))

  abbrev pub armed_pre : Side → ℕ → Bool
  armed_pre side i = side_ok side i && untouched_prior side i && not (touch side i)

  abbrev pub first_touch : Side → ℕ → Bool
  first_touch side i = touch side i && untouched_prior side i

  unfoldable pub touch_active : Side → ℕ → Bool
  touch_active side i = or_nan (rolling p.active_bars 1 (first_touch side) i)

  unfoldable pub untouched_anchor : Side → ℕ → SetupRow
  untouched_anchor side i = record {
    allowed = armed_pre side i || touch_active side i;
    touch = touch side i;
    side_ok = side_ok side i;
    prior_touch = shift (touch side) i;
    untouched_prior = untouched_prior side i;
    armed_pre = armed_pre side i;
    first_touch = first_touch side i;
    touch_active = touch_active side i;
  }
