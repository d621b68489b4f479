-- ===== src/Exit/Rules.antt =====
-- The exit rules of src/strategy_engine/strategies/ema_pullback/exits.py: `_exit_rule_head`,
-- `_signal_rule` and `_distance`, and the partial takes of raw_spec_identity.py beside it. A rule
-- holds the texts and numbers of its mapping, `none` where a key is missing, and the planned series
-- that its names resolve to, `none` where the plan has no such series.
use Prim.Native.String.{String}
use text.Mathlib.Text.{◌==◌ as str_eq}
use strategy_engine.Prelude.{
  ℕ, zero, suc, Bool, false, not, ◌&&◌, ◌||◌, Option, none, some, List, [], ◌∷◌, any, if◌then◌else◌,
  ◌==◌,
}
use strategy_engine.Prelude.Int.{ℤ, pos}
use strategy_engine.Float.{Float}
use strategy_engine.Result.{Result, ok, err, Error, ◌>>=◌, ◌>>◌, raise_if}
use strategy_engine.Trade.{Side, long, short}
use strategy_engine.Pandas.{RollingMax, RollingMin, or_zero}

pub record Rule (F : Type 0) : Type 0 where
  pub instance_id : Option String
  pub component_id : Option String
  pub exit_kind : Option String
  pub confirm_bars : Option ℤ
  pub long_exit_above : Option F
  pub short_exit_below : Option F
  pub usd_distance : Option F
  pub pct : Option F
  pub fraction_of_initial : Option F
  pub rsi : Option (ℕ → F)
  pub ema : Option (ℕ → F)
  pub fast_ema : Option (ℕ → F)
  pub slow_ema : Option (ℕ → F)
  pub atr_distance : Option (ℕ → F)

-- `str(rule.get(key, default))`; `str(rule.get(key))` has the default "None".
abbrev pub text_or : String → Option String → String
text_or default none = default
text_or default (some text) = text

pub data Family : Type 0 where
  signal distance partial_take : Family

-- What `_exit_rule_head` returns.
pub record Head : Type 0 where
  pub instance_id : String
  pub component_id : String
  pub exit_kind : String
  pub family : Family

-- `text in texts`
abbrev pub among : String → List String → Bool
among text = any λ t. str_eq t text

abbrev pub signal_components : List String
signal_components =
    "no_signal_exit" ∷ "rsi_signal_exit" ∷ "ema_close_loss_exit" ∷ "ema_cross_loss_exit" ∷ []

abbrev pub distance_components : List String
distance_components =
    "atr_stop_loss" ∷ "atr_take_profit" ∷ "constant_usd_stop_loss" ∷ "constant_usd_take_profit" ∷ []

abbrev pub partial_take_components : List String
partial_take_components = "pct_partial_take" ∷ "atr_partial_take" ∷ []

-- `"stop_loss" in component_id`, for a distance component.
abbrev pub expected_kind : String → String
expected_kind component_id =
    if among component_id ("atr_stop_loss" ∷ "constant_usd_stop_loss" ∷ [])
    then "stop_loss"
    else "take_profit"

-- The components of the kinds, in the order of the tests.
unfoldable pub family_of : String → String → Result Family
family_of component_id exit_kind =
    if among component_id signal_components
    then raise_if (not (str_eq exit_kind "signal"))
        (Error.invalid_request "signal exit component requires exit_kind signal")
      >> ok signal
    else if among component_id distance_components
    then raise_if (not (str_eq exit_kind (expected_kind component_id)))
        (Error.invalid_request "distance exit component has mismatched exit_kind")
      >> ok distance
    else if among component_id partial_take_components
    then raise_if (not (str_eq exit_kind "partial_take"))
        (Error.invalid_request "partial take exit component requires exit_kind partial_take")
      >> ok partial_take
    else err (Error.invalid_request "unsupported exit component")

module _ {F : Type 0} where
  unfoldable pub exit_rule_head : Rule F → Result Head
  exit_rule_head rule = do
    let instance_id = text_or "" rule.instance_id
    let component_id = text_or "" rule.component_id
    let exit_kind = text_or "signal" rule.exit_kind
    raise_if (str_eq instance_id "") (Error.invalid_request "exit rule requires instance_id")
    family ← family_of component_id exit_kind
    ok (record {
      instance_id = instance_id;
      component_id = component_id;
      exit_kind = exit_kind;
      family = family;
    })

  -- A series of the plan, or the error of its lookup.
  abbrev pub planned : Option (ℕ → F) → String → Result (ℕ → F)
  planned none message = err (Error.invalid_request message)
  planned (some series) message = ok series

  abbrev pub required : Option F → String → Result F
  required none message = err (Error.invalid_request message)
  required (some a) message = ok a

-- `_confirm_bars`, and `_require_confirm_bars` on it.
abbrev pub checked_bars : ℤ → Result ℕ
checked_bars (pos (suc n)) = ok (suc n)
checked_bars _ = err (Error.invalid_request "confirm_bars must be >= 1")

abbrev pub confirm_bars : Option ℤ → ℤ
confirm_bars none = pos 1
confirm_bars (some n) = n

-- `_false_signal`, and what `no_signal_exit` gives.
abbrev pub never : ℕ → Bool
never _ = false

module _ (rolling_min : RollingMin) where
  unfoldable pub consecutive_true : (ℕ → Bool) → ℕ → ℕ → Bool
  consecutive_true condition bars i =
      if bars == 1 then condition i else or_zero (rolling_min bars bars condition i)

module _ {F : Type 0} ⦃f : Float F⦄ where
  -- `close < ema if side == "long" else close > ema`, with NaN false
  abbrev pub beyond : Side → (ℕ → F) → (ℕ → F) → ℕ → Bool
  beyond long a b i = f.lt (a i) (b i)
  beyond short a b i = f.lt (b i) (a i)

  -- `cross`, where the bar before the first one has NaN.
  abbrev pub cross : Side → (ℕ → F) → (ℕ → F) → ℕ → Bool
  cross side fast slow zero = false
  cross long fast slow (suc i) = f.lt (fast (suc i)) (slow (suc i)) && f.le (slow i) (fast i)
  cross short fast slow (suc i) = f.lt (slow (suc i)) (fast (suc i)) && f.le (fast i) (slow i)

  module _ (rolling_max : RollingMax) (rolling_min : RollingMin) where
    -- `ema_cross_loss_exit`
    unfoldable pub cross_loss : Side → (ℕ → F) → (ℕ → F) → ℕ → ℕ → Bool
    cross_loss side fast slow bars i =
        if bars == 1
        then cross side fast slow i
        else consecutive_true rolling_min (beyond side fast slow) bars i
          && or_zero (rolling_max bars 1 (cross side fast slow) i)

    -- The threshold of the side, and the bars beyond it.
    abbrev rsi_signal : Rule F → Side → (ℕ → F) → Result (ℕ → Bool)
    rsi_signal rule long values = do
      threshold ← required rule.long_exit_above "rsi_signal_exit requires long_exit_above"
      ok λ i. f.lt threshold (values i)
    rsi_signal rule short values = do
      threshold ← required rule.short_exit_below "rsi_signal_exit requires short_exit_below"
      ok λ i. f.lt (values i) threshold

    unfoldable pub signal_rule : (ℕ → F) → Rule F → Side → Result (ℕ → Bool)
    signal_rule close rule side =
        let component_id = text_or "" rule.component_id in
        if str_eq component_id "no_signal_exit"
        then ok never
        else if str_eq component_id "rsi_signal_exit"
        then planned rule.rsi "missing RSI mapping for exit" >>= rsi_signal rule side
        else if str_eq component_id "ema_close_loss_exit"
        then (do
          ema ← planned rule.ema "missing EMA mapping for exit"
          bars ← checked_bars (confirm_bars rule.confirm_bars)
          ok λ i. consecutive_true rolling_min (beyond side close ema) bars i)
        else if str_eq component_id "ema_cross_loss_exit"
        then (do
          fast ← planned rule.fast_ema "missing EMA mapping for exit"
          slow ← planned rule.slow_ema "missing EMA mapping for exit"
          bars ← checked_bars (confirm_bars rule.confirm_bars)
          ok λ i. cross_loss side fast slow bars i)
        else err (Error.invalid_request "unsupported signal exit component")

  -- `_positive_close`, over the bars of the frame.
  unfoldable pub any_below : ℕ → (ℕ → F) → Bool
  any_below zero close = false
  any_below (suc n) close = any_below n close || f.le (close n) f.nought

  abbrev pub positive_close : ℕ → (ℕ → F) → Result (ℕ → F)
  positive_close length close =
      raise_if (any_below length close)
        (Error.invalid_request "exit distance ratio requires positive close")
      >> ok close

  -- `_positive_finite` of raw_spec_identity.py, on the number that the text or number gives.
  abbrev pub positive_finite : Option F → Result F
  positive_finite none = err (Error.invalid_request "must be a positive number")
  positive_finite (some a) =
      raise_if (not (f.is_finite a) || f.le a f.nought)
        (Error.invalid_request "must be a positive number")
      >> ok a

  -- `resolve_partial_take_fraction`; `one` is the number 1.
  unfoldable pub partial_take_fraction : F → Rule F → Result F
  partial_take_fraction one rule = do
    fraction ← positive_finite rule.fraction_of_initial
    raise_if (f.le one fraction) (Error.invalid_request "must be below 1")
    ok fraction

  -- The absolute distance and its ratio to the close.
  abbrev with_ratio : ℕ → (ℕ → F) → (ℕ → F) → Result ((ℕ → F) × (ℕ → F))
  with_ratio length close apart = do
    checked ← positive_close length close
    ok (apart, λ i. f.div (apart i) (checked i))

  unfoldable pub distance_rule : ℕ → (ℕ → F) → Rule F → Result ((ℕ → F) × (ℕ → F))
  distance_rule length close rule =
      let component_id = text_or "" rule.component_id in
      if among component_id ("atr_stop_loss" ∷ "atr_take_profit" ∷ "atr_partial_take" ∷ [])
      then planned rule.atr_distance "missing ATR distance mapping for exit"
        >>= with_ratio length close
      else if among component_id ("constant_usd_stop_loss" ∷ "constant_usd_take_profit" ∷ [])
      then (do
        usd ← required rule.usd_distance "constant USD exit requires usd_distance"
        with_ratio length close λ _. usd)
      else if str_eq component_id "pct_partial_take"
      then (do
        pct ← positive_finite rule.pct
        checked ← positive_close length close
        ok (λ i. f.mul (checked i) pct, λ _. pct))
      else err (Error.invalid_request "unsupported distance exit component")
