-- ===== src/Entry/Sides.antt =====
-- `evaluate_direction_and_blockers` (src/strategy_engine/strategies/ema_pullback/direction_blockers.py),
-- `evaluate_setups` and `evaluate_risk_and_entries` (setups.py and risk.py beside it), and the part of
-- `evaluate_ema_pullback_frame` (evaluation.py) that composes them. The memo is left out.
use Prim.Native.String.{String}
use text.Mathlib.Text.{◌==◌ as str_eq}
use strategy_engine.Prelude.{Bool, true, false, not, Option, none, some, List, [], ◌∷◌, map}
use strategy_engine.Float.{Float}
use strategy_engine.Result.{Result, ok, Error, ◌>>=◌, ◌>>◌, raise_if, each}
use strategy_engine.Trade.{Side}
use strategy_engine.Entry.Masks.{Bars, Mask, and_pair, combine_masks, direction}
use strategy_engine.Entry.Trigger.{SideSetup, SideTrigger, TriggerComponent, evaluate_triggers}
use strategy_engine.Context.Gate.{Context}
use strategy_engine.Entry.Gates.{
  Item, Role, ConsumptionRecord, ComponentMask, gated, build_context_consumption_evidence,
}
use strategy_engine.Entry.Components.{Calls, Blocker, Setup, blocker_intrinsic, setup_local}

-- `SideDirectionBlockers` and `SideSetupEvaluation`, and `SideEntryEvaluation` of risk.py
pub record SideBlockers : Type 0 where
  pub side : Side
  pub blockers : List ComponentMask
  pub pre_setup_allowed : Mask

pub record SideSetups : Type 0 where
  pub side : Side
  pub setups : List ComponentMask
  pub pre_trigger_allowed : Mask

pub record SideEntry : Type 0 where
  pub side : Side
  pub entry_allowed : Mask

abbrev pub no_sides : List Side → Bool
no_sides [] = true
no_sides (side ∷ sides) = false

abbrev pub allowed_masks : List ComponentMask → List Mask
allowed_masks masks = map (λ m. m.allowed) masks

-- `_direction`'s check of its component, and the one of the risk layer.
abbrev pub other_direction : String → Bool
other_direction id = not (str_eq id "ema_anchor_stack_trend")

abbrev pub other_risk : String → Bool
other_risk id = not (str_eq id "no_risk_filter")

abbrev pub direction_supported : String → Result (Unit {0})
direction_supported id =
    raise_if (other_direction id) (Error.invalid_request "unsupported direction component")

abbrev pub risk_supported : String → Result (Unit {0})
risk_supported id = raise_if (other_risk id) (Error.invalid_request "unsupported risk component")

module _ {F : Type 0} where
  -- `_blocker_items`
  abbrev pub blocker_items : List (Item (Blocker F)) → List (Item (Blocker F))
  blocker_items [] =
      record {
        component_id = "no_blockers";
        instance_id = some "no_blockers";
        consumption = none;
        body = Blocker.no_blockers;
      }
      ∷ []
  blocker_items (item ∷ items) = item ∷ items

module _ {F : Type 0} ⦃f : Float F⦄ where
  abbrev pub blocked_by : Side → Bars F → List ComponentMask → SideBlockers
  blocked_by side bars masks = record {
    side = side;
    blockers = masks;
    pre_setup_allowed = and_pair (direction side bars) (combine_masks (allowed_masks masks));
  }

abbrev pub set_up_by : SideBlockers → List ComponentMask → SideSetups
set_up_by prior masks = record {
  side = prior.side;
  setups = masks;
  pre_trigger_allowed = and_pair prior.pre_setup_allowed (combine_masks (allowed_masks masks));
}

module _ {F : Type 0} ⦃f : Float F⦄ (c : Calls F) (records : List ConsumptionRecord) where
  abbrev pub blocker_mask : Side → Item (Blocker F) → Result ComponentMask
  blocker_mask side item =
      blocker_intrinsic c item.body side >>= λ own. ok (gated records Role.blocker item side own)

  abbrev pub setup_mask : Side → Item (Setup F) → Result ComponentMask
  setup_mask side item =
      setup_local c item.body side >>= λ own. ok (gated records Role.setup item side own)

  abbrev pub blocked_side : String → Bars F → List (Item (Blocker F)) → Side → Result SideBlockers
  blocked_side direction_id bars items side =
      direction_supported direction_id
      >> (each (blocker_mask side) items >>= λ masks. ok (blocked_by side bars masks))

  unfoldable pub evaluate_direction_and_blockers :
      String → Bars F → List (Item (Blocker F)) → List Side → Result (List SideBlockers)
  evaluate_direction_and_blockers direction_id bars items sides =
      raise_if (no_sides sides)
        (Error.invalid_request "raw_spec.trade_sides must contain long/short")
      >> each (blocked_side direction_id bars (blocker_items items)) sides

  abbrev pub setup_side : List (Item (Setup F)) → SideBlockers → Result SideSetups
  setup_side items prior =
      each (setup_mask prior.side) items >>= λ masks. ok (set_up_by prior masks)

  unfoldable pub evaluate_setups :
      List (Item (Setup F)) → List SideBlockers → Result (List SideSetups)
  evaluate_setups items prior = each (setup_side items) prior

-- `evaluate_risk_and_entries`
abbrev pub entry_side : SideTrigger → SideEntry
entry_side t = record {
  side = t.side;
  entry_allowed = and_pair t.pre_risk_entry_allowed (λ i. true);
}

unfoldable pub evaluate_risk_and_entries : String → List SideTrigger → Result (List SideEntry)
evaluate_risk_and_entries risk_id triggers = risk_supported risk_id >> ok (map entry_side triggers)

abbrev pub prior_of : SideSetups → SideSetup
prior_of s = record { side = s.side; pre_trigger_allowed = s.pre_trigger_allowed }

-- What a specification says of its entries.
pub record EntrySpec (F : Type 0) : Type 0 where
  pub sides : List Side
  pub direction_id : String
  pub blockers : List (Item (Blocker F))
  pub setups : List (Item (Setup F))
  pub trigger : TriggerComponent
  pub risk_id : String
  pub exit_consumption : Option (String × String)

-- The part of `evaluate_ema_pullback_frame` from the contexts to the entries of the sides.
module _ {F : Type 0} ⦃f : Float F⦄ where
  unfoldable pub evaluate_entries :
      Calls F → List (String × Context) → Bars F → EntrySpec F → Result (List SideEntry)
  evaluate_entries c bundle bars spec = do
    records ←
        build_context_consumption_evidence bundle spec.sides spec.blockers spec.setups
          spec.exit_consumption
    blocked ←
        evaluate_direction_and_blockers c records spec.direction_id bars spec.blockers spec.sides
    set_up ← evaluate_setups c records spec.setups blocked
    triggered ← evaluate_triggers spec.trigger bars (map prior_of set_up)
    evaluate_risk_and_entries spec.risk_id triggered
