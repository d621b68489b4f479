-- ===== src/Entry/Tests.antt =====
-- A market on whole ticks whose third bar reclaims the anchor that the second one probed.
use strategy_engine.Prelude.{
  ℕ, ◌≤◌, ◌≡◌, ◌↔◌, refl, arith, true, false, some, List, [], ◌∷◌, if◌then◌else◌, ◌==◌,
}
use strategy_engine.Float.Grid.{Grid, grid_float, Grid-IsOrdered, tick}
use strategy_engine.Result.{Result, ok}
use strategy_engine.Entry.Masks.{
  Side, Bars, Mask, combine_masks, direction, entry_allowed, had_prior_probe, probed, reclaimed,
  rolling_reclaim, touch_anchor,
}
use strategy_engine.Entry.Events.{Inputs, DecisionEvent, build_decision_events}
use strategy_engine.Entry.Exclusive.{events_from, build_decision_events-entries}
use strategy_engine.Entry.Reclaim.{Probe, rolling_reclaim-fires}

abbrev bars : Bars Grid
bars = record {
  fast = λ i. tick 20;
  anchor = λ i. tick 10;
  slow = λ i. tick 5;
  close = λ i. if i == 2 then tick 12 else tick 10;
  low = λ i. if i == 1 then tick 9 else tick 11;
  high = λ i. tick 13;
}

abbrev trigger_of : Result Mask → Mask
trigger_of (ok m) = m
trigger_of _ = λ i. false

abbrev trigger : Side → Mask
trigger side = trigger_of (rolling_reclaim side 2 false bars)

fires_on_bar_2 : (trigger Side.long 2 ≡ true) × (trigger Side.long 3 ≡ false)
unfolding rolling_reclaim had_prior_probe probed reclaimed
fires_on_bar_2 = (refl, refl)

touches_on_bar_1 : (touch_anchor Side.long bars 1 ≡ true) × (touch_anchor Side.long bars 2 ≡ false)
unfolding touch_anchor
touches_on_bar_1 = (refl, refl)

abbrev masks : Side → List Mask
masks side = (λ i. true) ∷ []

abbrev inputs : Inputs Grid
inputs = record {
  entries_long =
      entry_allowed Side.long bars (masks Side.long) (masks Side.long) (trigger Side.long);
  entries_short =
      entry_allowed Side.short bars (masks Side.short) (masks Side.short) (trigger Side.short);
  stop_loss_ratio_long = λ i. some (tick 1);
  stop_loss_ratio_short = λ i. some (tick 1);
  take_profit_ratio_long = λ i. some (tick 2);
  take_profit_ratio_short = λ i. some (tick 2);
  signal_exit_long = λ i. i == 3;
  signal_exit_short = λ i. false;
  stop_ready_long = λ i. false;
  stop_ready_short = λ i. false;
}

abbrev indexes : List (DecisionEvent Grid) → List ℕ
indexes [] = []
indexes (e ∷ es) = e.bar_index ∷ indexes es

-- The entry on bar 2 and the exit on bar 3.
two_events : indexes (events_from inputs 0 4) ≡ 2 ∷ 3 ∷ []
unfolding entry_allowed direction combine_masks rolling_reclaim had_prior_probe probed reclaimed
two_events = refl

build_decision_events-entries_example : build_decision_events inputs 4 ≡ ok (events_from inputs 0 4)
build_decision_events-entries_example =
    build_decision_events-entries ⦃laws = Grid-IsOrdered⦄ bars masks masks trigger inputs 4
      (λ i. refl) (λ i. refl)

rolling_reclaim-fires_example :
    (m : Mask) × (rolling_reclaim Side.long 2 false bars ≡ ok m)
    × ((i : ℕ)
        → (m i ≡ true)
          ↔ ((2 ≤ i) × Probe Side.long 2 false bars i × (reclaimed Side.long bars i ≡ true)))
rolling_reclaim-fires_example = rolling_reclaim-fires Side.long 2 false bars (omega arith)
