-- ===== src/Exit/Tests.antt =====
-- A policy with rules of every kind, on whole ticks.
use Prim.Native.String.{String}
use strategy_engine.Prelude.{
  ℕ, ◌≡◌, ◌↔◌, refl, Bool, true, false, ltb, leb, none, some, List, [], ◌∷◌, arith, if◌then◌else◌,
}
use strategy_engine.Prelude.Int.{pos}
use strategy_engine.Float.Grid.{Grid, grid_float, Grid-IsOrdered, tick}
use strategy_engine.Result.{Result, ok, err, Error, each}
use strategy_engine.Trade.{Side}
use strategy_engine.Pandas.{InWindow}
use strategy_engine.Pandas.Reference.{
  scan_rolling, scan_rolling-IsRollingMax, scan_rolling_min, scan_rolling_min-IsRollingMin,
  scan_min, scan_min-IsRowMin,
}
use strategy_engine.Exit.Rules.{
  Rule, exit_rule_head, family_of, signal_rule, distance_rule, consecutive_true, beyond, cross,
  cross_loss, any_below, partial_take_fraction,
}
use strategy_engine.Unique.{unique_from}
use strategy_engine.Exit.Found.{id_of}
use strategy_engine.Exit.Policy.{
  Groups, Evaluated, Config, Profile, SideExits, all_rules, selected, evaluate_rule,
  evaluate_exit_policy, side_exits, profile_exits, ids_of, find, gather, min_of, ready,
}
use strategy_engine.Exit.Aggregate.{InForce}
use strategy_engine.Exit.Confirm.{Held, cross_loss_iff}
use strategy_engine.Exit.Whole.{
  long_signal, short_signal, rule_distance, rule_ratio, evaluate_exit_policy-InForce,
}

abbrev rule : String → String → String → Rule Grid
rule id component kind = record {
  instance_id = some id;
  component_id = some component;
  exit_kind = some kind;
  confirm_bars = none;
  long_exit_above = none;
  short_exit_below = none;
  usd_distance = none;
  pct = none;
  fraction_of_initial = none;
  rsi = none;
  ema = none;
  fast_ema = none;
  slow_ema = none;
  atr_distance = none;
}

-- The fast average falls below the slow one at bar 3.
abbrev fast : ℕ → Grid
fast i = if ltb i 3 then tick 9 else tick 4

abbrev slow : ℕ → Grid
slow i = tick 6

-- The average true range is there from bar 2 on.
abbrev atr : ℕ → Grid
atr i = if ltb i 2 then none else tick 3

abbrev usd_stop : Rule Grid
usd_stop = record (rule "usd" "constant_usd_stop_loss" "stop_loss") { usd_distance = some (tick 5) }

abbrev atr_stop : Rule Grid
atr_stop = record (rule "atr" "atr_stop_loss" "stop_loss") { atr_distance = some atr }

abbrev take : Rule Grid
take = record (rule "take" "constant_usd_take_profit" "take_profit") {
  usd_distance = some (tick 8);
}

abbrev leg : Rule Grid
leg = record (rule "leg" "atr_partial_take" "partial_take") {
  atr_distance = some atr;
  fraction_of_initial = some (tick 1);
}

abbrev cross_exit : Rule Grid
cross_exit = record (rule "cross" "ema_cross_loss_exit" "signal") {
  confirm_bars = some (pos 2);
  fast_ema = some fast;
  slow_ema = some slow;
}

abbrev groups : Groups Grid
groups = record {
  always_on = usd_stop ∷ [];
  aligned = atr_stop ∷ take ∷ leg ∷ [];
  countertrend = cross_exit ∷ [];
  neutral = [];
}

-- One position is two ticks, so that the leg of one tick is a part of it. The long profile is aligned
-- up to bar 3.
abbrev config : Config Grid
config = record {
  length = 6;
  close = λ _. tick 1;
  one = tick 2;
  long_enabled = true;
  short_enabled = false;
  profile_long = λ i. if leb i 3 then Profile.aligned else Profile.countertrend;
  profile_short = λ _. Profile.neutral;
}

unique_rules : unique_from id_of [] (all_rules groups) ≡ ok tt
unfolding unique_from
unique_rules = refl

repeated :
    unique_from id_of [] (usd_stop ∷ usd_stop ∷ [])
    ≡ err (Error.invalid_request "instance_id must be unique")
unfolding unique_from
repeated = refl

missing : grid_float.le grid_float.nan grid_float.nan ≡ false
missing = refl

evaluated :
    (es : List (Evaluated Grid)) × (each
        (evaluate_rule scan_rolling scan_rolling_min config)
        (all_rules groups)
      ≡ ok es)
unfolding evaluate_rule exit_rule_head family_of signal_rule distance_rule any_below
    partial_take_fraction
evaluated = (_, refl)

evaluate_exit_policy-InForce_example :
    (on_long : SideExits Grid) × (on_short : SideExits Grid) × (evaluate_exit_policy scan_rolling
        scan_rolling_min scan_min config groups
      ≡ ok (on_long, on_short))
    × ((i : ℕ)
        → InForce
            (long_signal scan_rolling scan_rolling_min config)
            (rule_distance scan_rolling scan_rolling_min config)
            (rule_ratio scan_rolling scan_rolling_min config)
            (selected groups (config.profile_long i))
            on_long
            i
          × InForce
              (short_signal scan_rolling scan_rolling_min config)
              (rule_distance scan_rolling scan_rolling_min config)
              (rule_ratio scan_rolling scan_rolling_min config)
              (selected groups (config.profile_short i))
              on_short
              i)
evaluate_exit_policy-InForce_example =
    evaluate_exit_policy-InForce scan_rolling scan_rolling_min scan_min
      (scan_min-IsRowMin Grid-IsOrdered missing) missing config groups unique_rules evaluated.0
      evaluated.1

abbrev bar : SideExits Grid → ℕ → Bool × Grid × Grid × Bool
bar x i = (x.signal_exit i, x.stop_loss_ratio i, x.take_profit_ratio i, x.stop_ready i)

-- The long side at the bars 1, 2, 4 and 5: its exit signal, its stop and take, and whether it is ready.
abbrev shown : Result (SideExits Grid × SideExits Grid) → List (Bool × Grid × Grid × Bool)
shown (err e) = []
shown (ok (x, y)) = bar x 1 ∷ bar x 2 ∷ bar x 4 ∷ bar x 5 ∷ []

long_exits :
    shown (evaluate_exit_policy scan_rolling scan_rolling_min scan_min config groups)
    ≡ (false, tick 5, tick 8, false)
      ∷ (false, tick 3, tick 8, true)
      ∷ (true, tick 5, none, true)
      ∷ (false, tick 5, none, true)
      ∷ []
unfolding evaluate_exit_policy evaluate_rule exit_rule_head family_of signal_rule distance_rule
    any_below partial_take_fraction side_exits profile_exits gather ids_of find min_of ready
    cross_loss consecutive_true
long_exits = refl

cross_loss_iff_example :
    (cross_loss scan_rolling scan_rolling_min Side.long fast slow 2 4 ≡ true) ↔ (
      Held (beyond Side.long fast slow) 2 4
      × ((k : ℕ) × InWindow 2 4 k × (cross Side.long fast slow k ≡ true)))
cross_loss_iff_example =
    cross_loss_iff scan_rolling scan_rolling-IsRollingMax scan_rolling_min
      scan_rolling_min-IsRollingMin Side.long fast slow 2 4 (omega arith)
