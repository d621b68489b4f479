-- ===== src/Entry/Example.antt =====
-- A specification with a gated blocker and a width band, on both sides of an upward market.
use Prim.Native.String.{String}
use strategy_engine.Prelude.{
  ℕ, ◌≡◌, refl, Bool, true, false, ◌&&◌, ◌==◌, Option, none, some, List, [], ◌∷◌, map, All,
  if◌then◌else◌,
}
use strategy_engine.Prelude.Int.{ℤ, pos}
use strategy_engine.Float.Grid.{Grid, grid_float, Grid-IsOrdered, tick}
use strategy_engine.Json.{Json, Fields}
use strategy_engine.Numpy.Reference.{reference}
use strategy_engine.Pandas.Reference.{scan_rolling}
use strategy_engine.Pandas.Peak.{scan_peak, scan_sum}
use strategy_engine.Result.{Result, ok, err, Error, ◌>>=◌, Ensures}
use strategy_engine.Trade.{Side}
use strategy_engine.Context.Gate.{
  Context, Columns, evaluate_stack, gate_record, gate_allowed_regimes, resolve_htf_regime,
}
use strategy_engine.Unique.{unique_from}
use strategy_engine.Width.Band.{parse_width_band_params, anchor_stack_width_band, band_width}
use strategy_engine.Entry.Masks.{Bars, combine_masks, direction, touch_anchor}
use strategy_engine.Entry.Trigger.{
  TriggerComponent, evaluate_trigger, trigger_side, evaluate_triggers,
}
use strategy_engine.Entry.Gates.{
  Consumption, Item, gate_declarations, build_context_consumption_evidence, gate_for,
}
use strategy_engine.Entry.Components.{Calls, Blocker, Setup, blocker_intrinsic, setup_local}
use strategy_engine.Entry.Sides.{
  SideEntry, EntrySpec, evaluate_direction_and_blockers, evaluate_setups, evaluate_risk_and_entries,
  evaluate_entries,
}
use strategy_engine.Entry.Static.{check_entry_semantics}
use strategy_engine.Entry.Allowed.{IsEntry}
use strategy_engine.Entry.Both.{opens, evaluate_entries-exclusive}
use strategy_engine.Entry.Returns.{IsEvaluable, evaluate_entries_lem}

abbrev of_int : ℤ → Option Grid
of_int n = some (some n)

abbrev calls : Calls Grid
calls = record {
  numpy = reference;
  rolling = scan_rolling;
  peak = scan_peak;
  sum = scan_sum;
  of_int = of_int;
  one = tick 1;
}

abbrev bars : Bars Grid
bars = record {
  fast = λ i. tick 103;
  anchor = λ i. tick 101;
  slow = λ i. tick 100;
  close = λ i. tick 102;
  low = λ i. tick 101;
  high = λ i. tick 103;
}

-- Up from bar 1 on.
abbrev columns : Columns Grid
columns = record {
  fast = some (λ i. if i == 0 then none else some (tick 103));
  anchor = some (λ i. some (tick 101));
  slow = some (λ i. some (tick 100));
}

abbrev bundle : List (String × Context)
bundle = ("htf", evaluate_stack columns) ∷ []

abbrev aligned_only : Consumption
aligned_only = record {
  context_ref = "htf";
  policy_id = "htf_regime_gate";
  allowed_regimes = some ("aligned" ∷ []);
}

abbrev candle_blocker : Option String → Item (Blocker Grid)
candle_blocker id = record {
  component_id = "counter_candle_blocker";
  instance_id = id;
  consumption = some aligned_only;
  body =
      Blocker.counter_candle
        (some (record { open_price = λ i. tick 101; close_price = λ i. tick 102 }));
}

abbrev band_setup : Item (Setup Grid)
band_setup = record {
  component_id = "anchor_stack_width_band_setup";
  instance_id = some "band";
  consumption = none;
  body =
      Setup.stack_width_band (Fields.field "min_width_atr" (Json.int (pos 2)) Fields.end) (record {
        fast = λ i. tick 103;
        anchor = λ i. tick 101;
        slow = λ i. tick 100;
        atr = λ i. tick 1;
      });
}

abbrev spec : EntrySpec Grid
spec = record {
  sides = Side.long ∷ Side.short ∷ [];
  direction_id = "ema_anchor_stack_trend";
  blockers = candle_blocker (some "candle") ∷ [];
  setups = band_setup ∷ [];
  trigger = TriggerComponent.touch_anchor_component;
  risk_id = "no_risk_filter";
  exit_consumption = none;
}

checked : check_entry_semantics of_int spec ≡ ok tt
unfolding check_entry_semantics unique_from parse_width_band_params
checked = refl

evaluable : IsEvaluable calls bundle bars spec
unfolding build_context_consumption_evidence gate_declarations gate_record gate_allowed_regimes
    blocker_intrinsic setup_local parse_width_band_params evaluate_trigger evaluate_stack
evaluable = record {
  evidence = (_, refl);
  blockers = (((_, refl), tt), (((_, refl), tt), tt));
  setups = (((_, refl), tt), (((_, refl), tt), tt));
  triggers = ((_, refl), ((_, refl), tt));
}

evaluate_entries_lem_example :
    (entries : List SideEntry) × (evaluate_entries calls bundle bars spec ≡ ok entries)
    × (map (λ e. SideEntry.side e) entries ≡ spec.sides)
    × All (IsEntry calls bundle bars spec) entries
evaluate_entries_lem_example = evaluate_entries_lem calls bundle bars spec checked evaluable

-- The entries of both sides on the first bars.
abbrev entries_at : ℕ → Result (List Bool)
entries_at i = evaluate_entries calls bundle bars spec >>= λ entries.
    ok (map (λ e. SideEntry.entry_allowed e i) entries)

gated_bars : (entries_at 0 ≡ ok (false ∷ false ∷ [])) × (entries_at 1 ≡ ok (true ∷ false ∷ []))
unfolding evaluate_entries build_context_consumption_evidence gate_declarations gate_record
    gate_allowed_regimes resolve_htf_regime gate_for blocker_intrinsic setup_local
    parse_width_band_params anchor_stack_width_band band_width evaluate_trigger evaluate_stack
    evaluate_direction_and_blockers evaluate_setups evaluate_triggers trigger_side
    evaluate_risk_and_entries combine_masks direction touch_anchor
gated_bars = (refl, refl)

-- Without its id the blocker would not find its gate, and the check refuses it.
abbrev unnamed : EntrySpec Grid
unnamed = record spec { blockers = candle_blocker none ∷ [] }

ungated_bars :
    (evaluate_entries calls bundle bars unnamed >>= λ entries.
    ok (map (λ e. SideEntry.entry_allowed e 0) entries))
    ≡ ok (true ∷ false ∷ [])
unfolding evaluate_entries build_context_consumption_evidence gate_declarations gate_record
    gate_allowed_regimes resolve_htf_regime gate_for blocker_intrinsic setup_local
    parse_width_band_params anchor_stack_width_band band_width evaluate_trigger evaluate_stack
    evaluate_direction_and_blockers evaluate_setups evaluate_triggers trigger_side
    evaluate_risk_and_entries combine_masks direction touch_anchor
ungated_bars = refl

evaluate_entries-exclusive_example :
    Ensures
      (λ entries. (i : ℕ) → (opens Side.long entries i && opens Side.short entries i) ≡ false)
      (evaluate_entries calls bundle bars spec)
evaluate_entries-exclusive_example =
    evaluate_entries-exclusive ⦃laws = Grid-IsOrdered⦄ calls bundle bars spec checked

unnamed_refused :
    check_entry_semantics of_int unnamed ≡ err (Error.invalid_request "must be a non-empty string")
unfolding check_entry_semantics unique_from
unnamed_refused = refl
