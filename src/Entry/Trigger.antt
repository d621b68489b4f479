-- ===== src/Entry/Trigger.antt =====
-- `evaluate_triggers` (src/strategy_engine/strategies/ema_pullback/triggers.py): the trigger that the
-- specification names, on each side.
use strategy_engine.Prelude.{ℕ, Bool, true, false, List}
use strategy_engine.Float.{Float}
use strategy_engine.Result.{Result, ok, err, Error, ◌>>=◌, ◌>>◌, raise_if, each}
use strategy_engine.Entry.Masks.{Side, Bars, Mask, and_pair, rolling_reclaim, touch_anchor}

-- The component of the trigger rule; the reclaim variants read `lookback`.
pub data TriggerComponent : Type 0 where
  reclaim_anchor strong_reclaim_anchor : (lookback : ℕ) → TriggerComponent
  touch_anchor_component unsupported : TriggerComponent

abbrev pub is_unsupported : TriggerComponent → Bool
is_unsupported TriggerComponent.unsupported = true
is_unsupported _ = false

-- What the setups leave of a side, and what the trigger makes of it.
pub record SideSetup : Type 0 where
  pub side : Side
  pub pre_trigger_allowed : Mask

pub record SideTrigger : Type 0 where
  pub side : Side
  pub trigger : Mask
  pub pre_risk_entry_allowed : Mask

abbrev pub triggered_by : SideSetup → Mask → SideTrigger
triggered_by prior allowed = record {
  side = prior.side;
  trigger = allowed;
  pre_risk_entry_allowed = and_pair prior.pre_trigger_allowed allowed;
}

module _ {F : Type 0} ⦃f : Float F⦄ where
  unfoldable pub evaluate_trigger : TriggerComponent → Side → Bars F → Result Mask
  evaluate_trigger (TriggerComponent.reclaim_anchor lookback) side b =
      rolling_reclaim side lookback false b
  evaluate_trigger (TriggerComponent.strong_reclaim_anchor lookback) side b =
      rolling_reclaim side lookback true b
  evaluate_trigger TriggerComponent.touch_anchor_component side b = ok (touch_anchor side b)
  evaluate_trigger TriggerComponent.unsupported side b =
      err (Error.invalid_request "unsupported trigger component")

  unfoldable pub trigger_side : TriggerComponent → Bars F → SideSetup → Result SideTrigger
  trigger_side component b prior =
      evaluate_trigger component prior.side b >>= λ allowed. ok (triggered_by prior allowed)

  -- The component is checked before any side.
  unfoldable pub evaluate_triggers :
      TriggerComponent → Bars F → List SideSetup → Result (List SideTrigger)
  evaluate_triggers component b setups =
      raise_if (is_unsupported component) (Error.invalid_request "unsupported trigger component")
      >> each (trigger_side component b) setups
