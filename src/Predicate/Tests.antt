-- ===== src/Predicate/Tests.antt =====
-- A predicate that a rise of two ticks over two bars held for three bars.
use strategy_engine.Prelude.{
  ℕ, ◌+◌, ◌≤◌, ◌≡◌, ◌↔◌, refl, arith, true, false, none, ◌==◌, if◌then◌else◌,
}
use strategy_engine.Prelude.Int.{◌+ℤ◌, ◌-ℤ◌}
use strategy_engine.Float.Grid.{Grid, grid_float, tick}
use strategy_engine.Numpy.Reference.{scan_sum, scan_sum-IsCumsum}
use strategy_engine.Result.{ok}
use strategy_engine.Predicate.Evaluate.{
  Side, Op, Mask, Condition, Mode, Plain, AnyPredicate, feature_bar_ratio, cumulative, window_count,
  window_mask, evaluate_condition, evaluate_plain, evaluate_predicate,
}
use strategy_engine.Predicate.Window.{InWindow, window_mask_iff}
use strategy_engine.Predicate.History.{
  plain_history, predicate_history, drop_predicate, evaluate_predicate-drop,
}

abbrev price : ℕ → Grid
price i = tick (100 + i)

abbrev rise : AnyPredicate Grid
rise =
    AnyPredicate.temporal Mode.held_for 3
      (Plain.predicate (Condition.change price 2 1 Op.ge (tick 2)) none)

abbrev even_bars : Mask
even_bars i = if i == 2 then true else i == 4

held_from_bar_4 :
    (evaluate_predicate scan_sum rise Side.long 4 ≡ true)
    × (evaluate_predicate scan_sum rise Side.long 3 ≡ false)
unfolding evaluate_predicate evaluate_plain evaluate_condition window_mask window_count cumulative
    ◌+ℤ◌ ◌-ℤ◌
held_from_bar_4 = (refl, refl)

hourly_on_minutes : feature_bar_ratio false 3_600_000 60_000 ≡ ok 60
unfolding feature_bar_ratio
hourly_on_minutes = refl

window_mask_iff_example :
    ((window_mask scan_sum Mode.held_for 2 even_bars 5 ≡ true)
      ↔ ((2 ≤ 5 + 1) × ((k : ℕ) → InWindow 2 5 k → even_bars k ≡ true)))
    × ((window_mask scan_sum Mode.within 2 even_bars 5 ≡ true)
        ↔ ((k : ℕ) × InWindow 2 5 k × (even_bars k ≡ true)))
window_mask_iff_example = window_mask_iff scan_sum scan_sum-IsCumsum 2 even_bars 5 (omega arith)

evaluate_predicate-drop_example :
    evaluate_predicate scan_sum (drop_predicate 7 rise) Side.long 4
    ≡ evaluate_predicate scan_sum rise Side.long (7 + 4)
unfolding predicate_history plain_history
evaluate_predicate-drop_example =
    evaluate_predicate-drop scan_sum scan_sum-IsCumsum 7 rise Side.long 4 (omega arith, omega arith)
      (omega arith)
