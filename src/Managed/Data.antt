-- ===== src/Managed/Data.antt =====
-- The data of the managed-exit replay (src/strategy_engine/strategies/ema_pullback/managed.py): the
-- state of the trade, the management rules, the events and the decisions of the bars. A rule holds
-- the feature series that the plan resolves for it, `none` where the plan has no such feature.
use Prim.Native.String.{String}
use strategy_engine.Prelude.{ℕ, Bool, Option, none, List, []}
use strategy_engine.Float.{Float}
use strategy_engine.Result.{Result}
use strategy_engine.Predicate.Evaluate.{Op}
use strategy_engine.Composite.Fold.{FoldedComposite}

pub data Side : Type 0 where
  long short : Side

pub data Phase : Type 0 where
  initial_risk proven protected runner exhaustion : Phase

-- `_PHASES.index(phase)`
abbrev pub rank : Phase → ℕ
rank initial_risk = 0
rank proven = 1
rank protected = 2
rank runner = 3
rank exhaustion = 4

-- The value of a feature on each bar; `none` while it is not ready.
abbrev pub Series : Type 0 → Type 0
Series F = ℕ → Option F

pub record State (F : Type 0) : Type 0 where
  pub side : Side
  pub entry_index : ℕ
  pub entry_price : F
  pub bars_in_trade : ℕ
  pub phase : Phase
  pub max_phase_reached : Phase
  pub best_price : F
  pub worst_price : F
  pub mfe_price : F
  pub mfe_pct : F
  pub mae_price : F
  pub mae_pct : F
  pub risk : Option F
  pub active_stop_price : Option F
  pub active_stop_rule_id : Option String
  pub active_take_profile : String
  pub active_take_rule_id : Option String
  pub active_runtime_exit_rules : List String

module _ {F : Type 0} ⦃f : Float F⦄ where
  -- `ManagedTradeState.initial`
  unfoldable pub initial : Side → ℕ → F → State F
  initial side entry_index entry_price = record {
    side = side;
    entry_index = entry_index;
    entry_price = entry_price;
    bars_in_trade = 0;
    phase = Phase.initial_risk;
    max_phase_reached = Phase.initial_risk;
    best_price = entry_price;
    worst_price = entry_price;
    mfe_price = entry_price;
    mfe_pct = f.nought;
    mae_price = entry_price;
    mae_pct = f.nought;
    risk = none;
    active_stop_price = none;
    active_stop_rule_id = none;
    active_take_profile = "initial";
    active_take_rule_id = none;
    active_runtime_exit_rules = [];
  }

-- An atomic phase condition, by its `component_id`.
pub data Condition (F : Type 0) : Type 0 where
  bars_in_trade : ℕ → Condition F
  mfe_pct : F → Condition F
  mfe_atr : F → Option (Series F) → Condition F
  mfe_r : F → Condition F
  adx_di_threshold :
      (adx_threshold : F) (adx di_plus di_minus : Option (Series F)) (require_di_alignment : Bool)
      → Condition F
  unsupported : Condition F

-- The atom `change_since_entry` (src/strategy_engine/strategies/ema_pullback/entry_change.py).
pub record ChangeSinceEntry (F : Type 0) : Type 0 where
  pub feature : Option (Series F)
  pub op : Op
  pub value : F

-- The condition of a phase rule. A composite one comes with what its parser and the fold of its market
-- children give: the folded composite, or the error that they raise.
pub data RuleCondition (F : Type 0) : Type 0 where
  atomic : Condition F → RuleCondition F
  composite : Result (FoldedComposite (Condition F) (ChangeSinceEntry F)) → RuleCondition F

pub record PhaseRule (F : Type 0) : Type 0 where
  pub rule_id : String
  pub to_phase : Phase
  pub condition : RuleCondition F

pub data InitialRStopFormula : Type 0 where
  initial_r_lock initial_r_trail : InitialRStopFormula

-- A stop component: the buffer of `break_even_stop` is a price or a number of ATRs.
pub data StopComponent (F : Type 0) : Type 0 where
  break_even_price : (buffer : F) → StopComponent F
  break_even_atr : (buffer_atr : F) → Option (Series F) → StopComponent F
  lock_profit_stop : (lock_atr : F) → Option (Series F) → StopComponent F
  initial_r_stop : InitialRStopFormula → (trigger_r action_r : F) → StopComponent F
  unsupported : StopComponent F

pub record StopRule (F : Type 0) : Type 0 where
  pub rule_id : String
  pub phase_at_least : Phase
  pub component : StopComponent F

pub record TakeRule : Type 0 where
  pub rule_id : String
  pub phase_at_least : Phase
  pub component_id : String
  pub action : String

pub data RuntimeComponent (F : Type 0) : Type 0 where
  phase_runtime_exit : (exit_price : String) → RuntimeComponent F
  rsi_signal_exit :
      (confirm_bars : ℕ)
      → Series F
      → (long_exit_above short_exit_below : Option F) → RuntimeComponent F
  ema_cross_loss_exit : (confirm_bars : ℕ) (fast slow : Series F) → RuntimeComponent F
  unsupported : (confirm_bars : ℕ) → RuntimeComponent F

pub record RuntimeRule (F : Type 0) : Type 0 where
  pub rule_id : String
  pub phase_at_least : Phase
  pub component : RuntimeComponent F

pub record Config (F : Type 0) : Type 0 where
  pub phase_rules : List (PhaseRule F)
  pub stop_rules : List (StopRule F)
  pub take_rules : List TakeRule
  pub runtime_rules : List (RuntimeRule F)

-- The bars of the evaluation frame; the tolerance is the code's 1e-8.
pub record Frame (F : Type 0) : Type 0 where
  pub size : ℕ
  pub high : ℕ → F
  pub low : ℕ → F
  pub close : ℕ → F
  pub tolerance : F

-- `ManagedPolicyEvent`, with the bar first.
pub data Event (F : Type 0) : Type 0 where
  phase_changed : ℕ → (rule_id : String) (from_phase to_phase : Phase) (price : F) → Event F
  active_stop_updated : ℕ → (rule_id : String) (price : F) → Event F
  active_take_updated : ℕ → (rule_id take_profile : String) → Event F
  runtime_exit_triggered : ℕ → (rule_id : String) (price : F) → Event F

-- `ManagedBarDecision`
pub record Decision (F : Type 0) : Type 0 where
  pub bar_index : ℕ
  pub phase : Phase
  pub bars_in_trade : ℕ
  pub mfe_pct : F
  pub mae_pct : F
  pub active_stop_price : Option F
  pub active_take_profile : String
  pub runtime_exit_rule_ids : List String

-- What a replay has built so far; at its end, the `ManagedCalculationResult`.
pub record Replay (F : Type 0) : Type 0 where
  pub state : State F
  pub events : List (Event F)
  pub bars : List (Decision F)
