-- ===== src/Predicate/Evaluate.antt =====
-- The evaluation of a parsed predicate: `_evaluate_condition`, `_range_mask`, `_state_mask`,
-- `_window_mask` and `_evaluate` (src/strategy_engine/strategies/ema_pullback/predicates.py), without
-- the memo. An operand is the series of its values on the base bars, a constant is the same value on
-- every bar; a mask is a function of the bar.
pub use strategy_engine.Trade.{Side}
use strategy_engine.Prelude.{
  ℕ, zero, suc, ◌+◌, ◌-◌, ◌*◌, ◌/◌, ◌%◌, leb, ltb, ◌==◌, Bool, true, false, not, ◌&&◌, ◌||◌, Option,
  none, some, List, if◌then◌else◌, any,
}
use strategy_engine.Float.{Float}
use strategy_engine.Numpy.{Cumsum}
use strategy_engine.Result.{Result, ok, Error, ◌>>◌, raise_if}

-- `_COMPARE_OPS`
pub data Op : Type 0 where
  gt ge lt le : Op

abbrev pub Mask : Type 0
Mask = ℕ → Bool

-- A condition; the bounds of a range are inclusive unless `exclusive`, and a value that is not finite
-- is let through where `empty` is "pass". `ratio` is the base rows per bar of the operand's own
-- timeframe.
pub data Condition (F : Type 0) : Type 0 where
  compare_op : (left : ℕ → F) → Op → (right : ℕ → F) → Condition F
  range : (operand : ℕ → F) (min max : Option F) (exclusive empty_pass : Bool) → Condition F
  change : (operand : ℕ → F) (lookback ratio : ℕ) → Op → (value : F) → Condition F

pub data Regime : Type 0 where
  aligned countertrend neutral : Regime

-- The masks of a declared context.
pub record ContextOutput : Type 0 where
  pub up : Mask
  pub down : Mask
  pub neutral : Mask

pub data Mode : Type 0 where
  held_for within : Mode

-- A predicate that is not temporal: the conditions of the sides, or the regimes of a context.
pub data Plain (F : Type 0) : Type 0 where
  predicate : (on_long : Condition F) (on_short : Option (Condition F)) → Plain F
  state : ContextOutput → List Regime → Plain F

pub data AnyPredicate (F : Type 0) : Type 0 where
  plain : Plain F → AnyPredicate F
  temporal : Mode → (bars : ℕ) → Plain F → AnyPredicate F

-- `_feature_bar_ratio`, of the durations of the feature's timeframe and of the base one.
unfoldable pub feature_bar_ratio : (is_base : Bool) (bar_ms base_ms : ℕ) → Result ℕ
feature_bar_ratio true bar_ms base_ms = ok 1
feature_bar_ratio false bar_ms base_ms =
    raise_if (not (bar_ms % base_ms == 0)) (
      Error.invalid_request
        "change operand timeframe must be an integral multiple of the base timeframe")
    >> ok (bar_ms / base_ms)

abbrev same_regime : Regime → Regime → Bool
same_regime Regime.aligned Regime.aligned = true
same_regime Regime.countertrend Regime.countertrend = true
same_regime Regime.neutral Regime.neutral = true
same_regime _ _ = false

-- `resolve_htf_regime` of the raw states "up" and "down"; "neutral" is neutral.
abbrev pub regime_up : Side → Regime
regime_up Side.long = Regime.aligned
regime_up Side.short = Regime.countertrend

abbrev pub regime_down : Side → Regime
regime_down Side.long = Regime.countertrend
regime_down Side.short = Regime.aligned

abbrev pub reads_regime : List Regime → Regime → Bool
reads_regime regimes r = any (same_regime r) regimes

unfoldable pub state_mask : ContextOutput → List Regime → Side → Mask
state_mask output regimes side j =
    (reads_regime regimes (regime_up side) && output.up j)
    || (reads_regime regimes (regime_down side) && output.down j)
    || (reads_regime regimes Regime.neutral && output.neutral j)

module _ (cumsum : Cumsum) where
  -- `cumulative[n]`: the true bars before bar `n`.
  unfoldable pub cumulative : Mask → ℕ → ℕ
  cumulative inner zero = 0
  cumulative inner (suc n) = cumsum (λ i. if inner i then 1 else 0) n

  -- The true bars of the last `bars` bars up to bar `j`.
  unfoldable pub window_count : ℕ → Mask → ℕ → ℕ
  window_count bars inner j = cumulative inner (j + 1) - cumulative inner (j + 1 - bars)

  unfoldable pub window_mask : Mode → ℕ → Mask → Mask
  window_mask Mode.held_for bars inner j = window_count bars inner j == bars
  window_mask Mode.within bars inner j = ltb 0 (window_count bars inner j)

module _ {F : Type 0} ⦃f : Float F⦄ where
  abbrev pub compare_by : Op → F → F → Bool
  compare_by Op.gt a b = f.lt b a
  compare_by Op.ge a b = f.le b a
  compare_by Op.lt a b = f.lt a b
  compare_by Op.le a b = f.le a b

  -- A set side imposes its comparison, a missing side nothing.
  abbrev above : Bool → Option F → F → Bool
  above exclusive none value = true
  above exclusive (some min) value = if exclusive then f.lt min value else f.le min value

  abbrev below : Bool → Option F → F → Bool
  below exclusive none value = true
  below exclusive (some max) value = if exclusive then f.lt value max else f.le value max

  unfoldable pub range_mask : Option F → Option F → Bool → Bool → F → Bool
  range_mask min max exclusive empty_pass value =
      let finite = f.is_finite value in
      let inside = finite && above exclusive min value && below exclusive max value in
      if empty_pass then inside || not finite else inside

  -- The value `shift` rows earlier; NaN where there is none.
  abbrev pub shifted : (ℕ → F) → ℕ → ℕ → F
  shifted current shift j = if leb shift j then current (j - shift) else f.nan

  unfoldable pub evaluate_condition : Condition F → Mask
  evaluate_condition (Condition.compare_op left op right) j =
      f.is_finite (left j) && f.is_finite (right j) && compare_by op (left j) (right j)
  evaluate_condition (Condition.range operand min max exclusive empty_pass) j =
      range_mask min max exclusive empty_pass (operand j)
  evaluate_condition (Condition.change operand lookback ratio op value) j =
      let earlier = shifted operand (lookback * ratio) j in
      f.is_finite (operand j)
      && f.is_finite earlier
      && compare_by op (f.sub (operand j) earlier) value

  -- `Predicate.for_side`
  abbrev pub for_side : Side → Condition F → Option (Condition F) → Condition F
  for_side Side.long on_long on_short = on_long
  for_side Side.short on_long none = on_long
  for_side Side.short on_long (some on_short) = on_short

  unfoldable pub evaluate_plain : Plain F → Side → Mask
  evaluate_plain (Plain.predicate on_long on_short) side =
      evaluate_condition (for_side side on_long on_short)
  evaluate_plain (Plain.state output regimes) side = state_mask output regimes side

  unfoldable pub evaluate_predicate : Cumsum → AnyPredicate F → Side → Mask
  evaluate_predicate cumsum (AnyPredicate.plain p) side = evaluate_plain p side
  evaluate_predicate cumsum (AnyPredicate.temporal mode bars p) side =
      window_mask cumsum mode bars (evaluate_plain p side)
