-- ===== src/Potential/Tests.antt =====
-- A long setup over three bars: one is priced, one has no anchor, one is not let through.
use strategy_engine.Prelude.{◌≡◌, ◌⊎◌, refl, Bool, true, false, Option, none, some, List, [], ◌∷◌}
use strategy_engine.Float.Grid.{Grid, grid_float, Grid-IsRounded, tick}
use strategy_engine.Result.{ok, Ensures}
use strategy_engine.Potential.Project.{
  Side, Setup, Trigger, ExitPolicy, PotentialEntry, touch_anchor_close_ok, project_bar,
  project_side, side_matches, project_potential_entries,
}
use strategy_engine.Potential.Prices.{IsEntry, project_side-IsEntry}
use strategy_engine.Potential.Sides.{EntryOf, project_potential_entries-Ensures}

abbrev setup : Setup
setup = record { side = Side.long; pre_trigger_allowed = true ∷ true ∷ false ∷ [] }

abbrev trigger : Trigger
trigger = record {
  side = Side.long;
  component_id = "touch_anchor";
  allowed = false ∷ false ∷ false ∷ [];
  close_ok = some (some true ∷ some true ∷ some true ∷ []);
}

abbrev anchors : List (Option Grid)
anchors = some (tick 100) ∷ none ∷ some (tick 100) ∷ []

abbrev fives : List (Option Grid)
fives = some (tick 5) ∷ some (tick 5) ∷ some (tick 5) ∷ []

abbrev policy : ExitPolicy Grid
policy = record {
  on_long = record { stops = fives; takes = fives };
  on_short = record { stops = []; takes = [] };
}

abbrev oks : List Bool
oks = true ∷ true ∷ true ∷ []

abbrev long_entry : PotentialEntry Grid
long_entry = record {
  side = Side.long;
  entry_price = some (tick 100) ∷ none ∷ none ∷ [];
  stop_price = some (tick 95) ∷ none ∷ none ∷ [];
  take_price = some (tick 105) ∷ none ∷ none ∷ [];
}

projected :
    (out : Side → Option (PotentialEntry Grid)) × (project_potential_entries anchors
        (trigger ∷ [])
        policy
        (setup ∷ [])
      ≡ ok out)
    × (out Side.long ≡ some long_entry)
    × (out Side.short ≡ none)
unfolding project_potential_entries touch_anchor_close_ok project_side project_bar
projected = (_, refl, refl, refl)

project_side-IsEntry_example :
    (e : PotentialEntry Grid) × (project_side setup oks anchors fives fives ≡ ok e)
    × IsEntry setup oks anchors fives fives e
project_side-IsEntry_example =
    project_side-IsEntry Grid-IsRounded setup oks anchors fives fives refl

project_potential_entries-Ensures_example :
    Ensures
      (λ out.
        ((s : Side) → EntryOf anchors (trigger ∷ []) policy s (out s))
        × (((s : Side) → out s ≡ none)
            ⊎ ((s : Side) → side_matches anchors (trigger ∷ []) policy out s ≡ true)))
      (project_potential_entries anchors (trigger ∷ []) policy (setup ∷ []))
project_potential_entries-Ensures_example =
    project_potential_entries-Ensures Grid-IsRounded anchors (trigger ∷ []) policy (setup ∷ [])
