-- ===== src/Entry/Masks.antt =====
-- The masks that make the entries of a side: `_direction`, the blockers' and the setups' masks, the
-- triggers `_rolling_reclaim` and `_touch_anchor`, and the risk layer
-- (src/strategy_engine/strategies/ema_pullback/direction_blockers.py, setups.py, triggers.py, risk.py). A mask is a
-- function of the bar.
pub use strategy_engine.Trade.{Side}
use strategy_engine.Prelude.{
  ℕ, zero, suc, ◌-◌, leb, Bool, true, false, ◌&&◌, ◌||◌, List, if◌then◌else◌, all,
}
use strategy_engine.Float.{Float}
use strategy_engine.Result.{Result, ok, Error, ◌>>◌, raise_if}

pub record Bars (F : Type 0) : Type 0 where
  pub fast : ℕ → F
  pub anchor : ℕ → F
  pub slow : ℕ → F
  pub close : ℕ → F
  pub low : ℕ → F
  pub high : ℕ → F

abbrev pub Mask : Type 0
Mask = ℕ → Bool

-- `and_pair`
abbrev pub and_pair : Mask → Mask → Mask
and_pair left right i = left i && right i

-- `_combine_blocker_masks` and `_combine_setup_masks`: true on every bar where there is no mask.
unfoldable pub combine_masks : List Mask → Mask
combine_masks masks i = all (λ m. m i) masks

-- `any(mask[start : start + count])`
abbrev pub any_from : Mask → ℕ → ℕ → Bool
any_from mask start zero = false
any_from mask start (suc count) = let rest = any_from mask (suc start) count in mask start || rest

unfoldable pub had_prior_probe : ℕ → Mask → Mask
had_prior_probe lookback probe i =
    if leb lookback i then any_from probe (i - lookback) lookback else false

module _ {F : Type 0} ⦃f : Float F⦄ where
  -- a beyond b in the direction of the side
  abbrev beyond : Side → F → F → Bool
  beyond Side.long a b = f.lt b a
  beyond Side.short a b = f.lt a b

  unfoldable pub direction : Side → Bars F → Mask
  direction side b i = beyond side (b.fast i) (b.anchor i) && beyond side (b.anchor i) (b.slow i)

  abbrev probe_of : Side → Bool → Bars F → Mask
  probe_of Side.long close_probe b i =
      if close_probe then f.le (b.close i) (b.anchor i) else f.le (b.low i) (b.anchor i)
  probe_of Side.short close_probe b i =
      if close_probe then f.le (b.anchor i) (b.close i) else f.le (b.anchor i) (b.high i)

  unfoldable pub probed : Side → Bool → Bars F → Mask
  probed side close_probe b = probe_of side close_probe b

  unfoldable pub reclaimed : Side → Bars F → Mask
  reclaimed side b i = beyond side (b.close i) (b.anchor i)

  -- `_rolling_reclaim`; `close_probe` for `strong_reclaim_anchor`
  unfoldable pub rolling_reclaim : Side → ℕ → Bool → Bars F → Result Mask
  rolling_reclaim side lookback close_probe b =
      raise_if (leb lookback 0) (Error.invalid_request "trigger.lookback must be > 0")
      >> ok (λ i. had_prior_probe lookback (probed side close_probe b) i && reclaimed side b i)

  abbrev touch_of : Side → Bars F → Mask
  touch_of Side.long b i = f.le (b.low i) (b.anchor i) && f.le (b.anchor i) (b.close i)
  touch_of Side.short b i = f.le (b.anchor i) (b.high i) && f.le (b.close i) (b.anchor i)

  -- `_touch_anchor`
  unfoldable pub touch_anchor : Side → Bars F → Mask
  touch_anchor side b = touch_of side b

  -- The layers of one side in their order: direction and blockers, setups, trigger, risk. The
  -- supported risk component allows every bar.
  unfoldable pub entry_allowed : Side → Bars F → (blockers setups : List Mask) → Mask → Mask
  entry_allowed side b blockers setups trigger =
      let pre_setup = and_pair (direction side b) (combine_masks blockers) in
      let pre_trigger = and_pair pre_setup (combine_masks setups) in
      let pre_risk = and_pair pre_trigger trigger in and_pair pre_risk (λ i. true)
