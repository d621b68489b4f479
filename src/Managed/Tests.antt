-- ===== src/Managed/Tests.antt =====
-- A replay of a long trade on whole ticks: the trade is proven on its second bar, which moves the
-- stop to the entry price and drops the fixed take.
use strategy_engine.Prelude.{◌+◌, ◌≡◌, refl, arith, Bool, true, Option, none, some, List, [], ◌∷◌}
use strategy_engine.Float.Grid.{Grid, grid_float, Grid-IsOrdered, tick}
use strategy_engine.Result.{Result, ok}
use strategy_engine.Predicate.Evaluate.{Op}
use strategy_engine.Composite.Spec.{Child, CompositePath}
use strategy_engine.Composite.Fold.{
  PhaseChild, fold_path, fold_phase_paths, value as child_value, composite_met,
}
use strategy_engine.Managed.Data.{
  Side, Phase, Condition, ChangeSinceEntry, RuleCondition, StopComponent, RuntimeComponent, Config,
  Frame, Replay, initial,
}
use strategy_engine.Managed.Phases.{
  phase_step, enter_phase, phase_met, composite_phase_met, fold_composite_rules, update_extremes,
}
use strategy_engine.Managed.Stops.{
  candidates, stop_price, set_stop, update_stop, set_take, take_step, runtime_signal,
}
use strategy_engine.Managed.Replay.{
  runtime_step, decide, replay_bar, replay_from, opening, managed_replay_core, start_after_entry,
  Projection,
}
use strategy_engine.Managed.Whole.{IsRun, managed_replay_core-IsRun}
use strategy_engine.Managed.Stop.{KeepsStop, start_after_entry-KeepsStop}
use strategy_engine.Managed.Returns.{IsSupported}
use strategy_engine.Managed.Supported.{start_after_entry-returns}

abbrev config : Config Grid
config = record {
  phase_rules =
      record {
        rule_id = "p";
        to_phase = Phase.proven;
        condition = RuleCondition.atomic (Condition.bars_in_trade 3);
      }
      ∷ [];
  stop_rules =
      record {
        rule_id = "s";
        phase_at_least = Phase.proven;
        component = StopComponent.break_even_price (tick 1);
      }
      ∷ [];
  take_rules =
      record {
        rule_id = "t";
        phase_at_least = Phase.proven;
        component_id = "take_profile_switch";
        action = "disable_fixed_tp";
      }
      ∷ [];
  runtime_rules =
      record {
        rule_id = "r";
        phase_at_least = Phase.protected;
        component = RuntimeComponent.phase_runtime_exit "close";
      }
      ∷ [];
}

abbrev frame : Frame Grid
frame = record {
  size = 6;
  high = λ i. tick (100 + i);
  low = λ i. tick (95 + i);
  close = λ i. tick (98 + i);
  tolerance = tick 0;
}

abbrev positive : Grid → Bool
positive d = grid_float.lt (tick 0) d

abbrev unread : Option Grid → Grid
unread none = none
unread (some x) = x

abbrev projection : Result (Projection Grid Grid)
projection =
    start_after_entry positive (λ d. d) unread config frame Side.long (some 1) (some 4) (tick 100)
      (tick 90) (tick 120)

abbrev prices : Result (Projection Grid Grid) → Option (Grid × Option Grid)
prices (ok p) = some (p.desired_stop_price, p.desired_take_price)
prices _ = none

moved_stop : prices projection ≡ some (tick 101, none)
unfolding start_after_entry managed_replay_core replay_from replay_bar opening initial decide
    runtime_step take_step set_take update_stop set_stop candidates stop_price phase_step
    enter_phase phase_met fold_composite_rules update_extremes runtime_signal
moved_stop = refl

abbrev short_run : Result (Replay Grid)
short_run = managed_replay_core config frame Side.short (some 1) none (tick 100) 0 none

abbrev replay_of : Result (Replay Grid) → Replay Grid
replay_of (ok r) = r
replay_of _ = record { state = initial Side.long 0 (tick 0); events = []; bars = [] }

abbrev value : Result (Projection Grid Grid) → Projection Grid Grid
value (ok p) = p
value _ = record {
  replay = replay_of short_run;
  desired_stop_price = tick 0;
  desired_take_price = none;
}

start_after_entry-KeepsStop_example :
    KeepsStop ⦃laws = Grid-IsOrdered⦄ positive
      (λ d. d)
      unread
      Side.long
      (tick 90)
      (value projection)
    × IsRun frame Side.long 1 (some 4) 1 (some (tick 90)) (value projection).replay
unfolding start_after_entry managed_replay_core replay_from replay_bar opening initial decide
    runtime_step take_step set_take update_stop set_stop candidates stop_price phase_step
    enter_phase phase_met fold_composite_rules update_extremes runtime_signal
start_after_entry-KeepsStop_example =
    start_after_entry-KeepsStop ⦃laws = Grid-IsOrdered⦄ positive (λ d. d) unread config frame
      Side.long 1 4 (tick 100) (tick 90) (tick 120) {p = value projection} refl

managed_replay_core-IsRun_example : IsRun frame Side.short 1 none 0 none (replay_of short_run)
unfolding managed_replay_core replay_from replay_bar opening initial decide runtime_step take_step
    set_take update_stop set_stop candidates stop_price phase_step enter_phase phase_met
    fold_composite_rules update_extremes runtime_signal
managed_replay_core-IsRun_example =
    managed_replay_core-IsRun ⦃laws = Grid-IsOrdered⦄ config frame Side.short 1 none (tick 100) 0
      none {r = replay_of short_run} refl

-- The trade is proven by a composite: on a bar of the market child, from the second bar on, with a
-- close above that of the entry.
abbrev children : List (Child (PhaseChild (Condition Grid) (ChangeSinceEntry Grid)))
children =
    record { child_id = "market"; body = PhaseChild.market (λ i. true) }
    ∷ record { child_id = "bars"; body = PhaseChild.trade (Condition.bars_in_trade 2) }
    ∷ record {
      child_id = "rise";
      body =
          PhaseChild.entry_change
            (record { feature = some (λ i. some (tick (98 + i))); op = Op.gt; value = tick 0 });
    }
    ∷ []

abbrev paths : List CompositePath
paths =
    record { path_id = "all"; require = "market" ∷ "bars" ∷ []; at_least = some (1, "rise" ∷ []) }
    ∷ []

abbrev composed : Config Grid
composed = record config {
  phase_rules =
      record {
        rule_id = "c";
        to_phase = Phase.proven;
        condition = RuleCondition.composite (ok (fold_phase_paths children paths));
      }
      ∷ [];
}

composed-IsSupported : IsSupported composed
composed-IsSupported = record {
  phases = (
    record {
      children = children;
      paths = paths;
      folds = refl;
      trades = (tt, (omega arith, (tt, tt)));
      known = (((refl, (refl, tt)), (refl, tt)), tt);
    },
    tt,
  );
  stops = (tt, tt);
  takes = (refl, tt);
  runtimes = (tt, tt);
}

abbrev composed_projection : Result (Projection Grid Grid)
composed_projection =
    start_after_entry positive (λ d. d) unread composed frame Side.long (some 1) (some 4) (tick 100)
      (tick 90) (tick 120)

moved_by_composite : prices composed_projection ≡ some (tick 101, none)
unfolding start_after_entry managed_replay_core replay_from replay_bar opening initial decide
    runtime_step take_step set_take update_stop set_stop candidates stop_price phase_step
    enter_phase phase_met composite_phase_met composite_met fold_phase_paths fold_path child_value
    fold_composite_rules update_extremes runtime_signal
moved_by_composite = refl

start_after_entry-returns_example : (p : Projection Grid Grid) × (composed_projection ≡ ok p)
start_after_entry-returns_example =
    start_after_entry-returns composed composed-IsSupported frame positive (λ d. d) unread Side.long
      1 4 (tick 100) (tick 90) (tick 120) refl refl refl (omega arith) (omega arith)
