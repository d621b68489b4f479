-- ===== src/Episode/Tests.antt =====
-- Runs of the episode pass on a small market of whole ticks, and the theorems at that market.
use strategy_engine.Prelude.{
  ℕ, ◌<◌, ◌≡◌, refl, arith, true, false, List, [], ◌∷◌, map, Option, none, some, get_elem?, get_or,
  All, ltb, lt→ltb, if◌then◌else◌,
}
use strategy_engine.Prelude.Int.{pos}
use strategy_engine.Float.Grid.{Grid, tick, grid_float}
use strategy_engine.Numpy.Reference.{reference, reference-IsNumpy}
use strategy_engine.Episode.Data.{Phase, Limits, Bars, BarState, Snapshot, Event, Touch}
use strategy_engine.Episode.Step.{
  project_long, run, on_bar, active_bar, idle_bar, advance, start_episode, phase_bar, away_bar,
  open_zone, zone_bar, zone_above, zone_below, zone_contact, false_break_bar, extend_break,
  break_stack, close_entities,
}
use strategy_engine.Episode.Touches.{settle, begin, leave, grow_break, end_last}
use strategy_engine.Episode.Wave.{seed_first_wave, update_forming}
use strategy_engine.Episode.Frame.{key}
use strategy_engine.Episode.Causality.{project_long_causal}
use strategy_engine.Episode.Operand.{entity_row, entity_number, operand_row}
use strategy_engine.Episode.Rows.{IsRow, project_side-IsRow}
use strategy_engine.Episode.Side.{Side, project_side}
use strategy_engine.Episode.Reads.{SameBefore}

abbrev limits : Limits
limits = record { window = 1; break_bars = 1; censor_before = 0 }

abbrev series : List ℕ → ℕ → Grid
series xs i = get_or (map tick xs) i none

-- The anchor is 10 throughout. Bar 0 is below the stack order; bars 1 and 2 are above the anchor,
-- bar 3 touches it, bars 4 and 5 are wholly below it, and bar 6 closes back above it.
abbrev market : Bars Grid
market = record {
  high = series (20 ∷ 22 ∷ 25 ∷ 18 ∷ 9 ∷ 9 ∷ 14 ∷ 20 ∷ []);
  low = series (8 ∷ 12 ∷ 14 ∷ 9 ∷ 7 ∷ 6 ∷ 8 ∷ 11 ∷ []);
  close = series (9 ∷ 20 ∷ 20 ∷ 10 ∷ 8 ∷ 8 ∷ 13 ∷ 18 ∷ []);
  fast = series (9 ∷ 12 ∷ 12 ∷ 12 ∷ 12 ∷ 12 ∷ 12 ∷ 12 ∷ []);
  anchor = series (10 ∷ 10 ∷ 10 ∷ 10 ∷ 10 ∷ 10 ∷ 10 ∷ 10 ∷ []);
  slow = series (8 ∷ 8 ∷ 8 ∷ 8 ∷ 8 ∷ 8 ∷ 8 ∷ 8 ∷ []);
}

abbrev events : List (BarState Grid) → List (Option (Option Event))
events = map λ r. elim r.live [ none ↦ none | some s ↦ some s.event ]

-- Bar 0 starts no episode; the episode starts on bar 1, its first touch on bar 3, the false break on
-- bar 5, and it comes back on bar 6.
episode_events :
    events (project_long limits market reference 8).0
    ≡ none
      ∷ some (some Event.episode_start)
      ∷ some none
      ∷ some (some Event.touch_start)
      ∷ some none
      ∷ some (some Event.false_break_start)
      ∷ some (some Event.comeback)
      ∷ some none
      ∷ []
unfolding project_long run on_bar active_bar idle_bar settle begin leave advance start_episode
    seed_first_wave update_forming phase_bar away_bar open_zone zone_bar zone_above zone_below
    zone_contact false_break_bar extend_break grow_break break_stack close_entities end_last
episode_events = refl

-- The touch on bar 3 as the operands read it from the last bar: row 0, which is touch 1 of episode 1.
one_touch : map key (project_long limits market reference 8).1 ≡ (1, 1) ∷ []
unfolding project_long run on_bar active_bar idle_bar settle begin leave advance start_episode
    seed_first_wave update_forming phase_bar away_bar open_zone zone_bar zone_above zone_below
    zone_contact false_break_bar extend_break grow_break break_stack close_entities end_last
one_touch = refl

-- A market that agrees with `market` up to bar 3 and rises after it.
abbrev other : Bars Grid
other = record market {
  high = λ i. if ltb i 4 then market.high i else tick 40;
  low = λ i. if ltb i 4 then market.low i else tick 30;
}

same : SameBefore 4 market other
same = record {
  high = agree (λ _. tick 40) market.high;
  low = agree (λ _. tick 30) market.low;
  close = λ k h. refl;
  fast = λ k h. refl;
  anchor = λ k h. refl;
  slow = λ k h. refl;
}
  where
    agree : (v : ℕ → Grid) (x : ℕ → Grid) (k : ℕ) → k < 4 → x k ≡ (if ltb k 4 then x k else v k)
    agree v x k h = rw (lt→ltb k 4 h)

project_long_causal_example :
    get_elem? (project_long limits market reference 8).0 3
    ≡ get_elem? (project_long limits other reference 6).0 3
project_long_causal_example =
    project_long_causal reference reference-IsNumpy limits market other 8 6 3 (omega arith)
      (omega arith) same

abbrev zone_row : Touch Grid
zone_row = record {
  episode_id = 1;
  number = 1;
  zone_start = 3;
  zone_end = 3;
  zone_high = tick 18;
  zone_low = tick 9;
  zone_final = true;
  zone_known_at = some 5;
  false_break = some (record {
    fb_start = 4;
    fb_end = 6;
    fb_high = tick 14;
    fb_low = tick 6;
    fb_depth = tick 3;
    fb_outcome_comeback = some true;
    fb_final = true;
    fb_known_at = some 6;
  });
  origin_bar = 0;
  origin_price = tick 8;
  peak_bar = 2;
  peak_price = tick 25;
  touch_bar = 3;
  touch_price = tick 9;
  up_high = tick 25;
  up_low = tick 8;
  down_high = tick 25;
  down_low = tick 9;
}

touch_table : (project_long limits market reference 8).1 ≡ zone_row ∷ []
unfolding project_long run on_bar active_bar idle_bar settle begin leave advance start_episode
    seed_first_wave update_forming phase_bar away_bar open_zone zone_bar zone_above zone_below
    zone_contact false_break_bar extend_break grow_break break_stack close_entities end_last
touch_table = refl

abbrev last_snapshot : Snapshot Grid
last_snapshot = record {
  episode_id = 1;
  bars_since_start = 6;
  touch_number = 1;
  phase = Phase.away;
  false_breaks = 1;
  event = none;
  zone = some zone_row;
  forming = record {
    s_bar = 5;
    p_bar = 7;
    s_low = tick 6;
    p_high = tick 20;
    d_low = tick 11;
    d_high = tick 20;
  };
}

abbrev last_bar : BarState Grid
last_bar = record { active = true; censored = false; live = some last_snapshot }

operand_row_example :
    (r : ℕ) × (entity_row (pos 0) 1 1 (map key (project_long limits market reference 8).1) ≡ some r)
    × (get_elem? (map key (project_long limits market reference 8).1) r ≡ some (1, 1))
unfolding project_long run on_bar active_bar idle_bar settle begin leave advance start_episode
    seed_first_wave update_forming phase_bar away_bar open_zone zone_bar zone_above zone_below
    zone_contact false_break_bar extend_break grow_break break_stack close_entities end_last
    entity_number
operand_row_example =
    operand_row reference reference-IsNumpy limits market 8 7 (omega arith) last_bar last_snapshot
      (pos 0) 1 refl refl refl

project_side-IsRow_example :
    All (IsRow limits) (project_side reference limits market 8 Side.short).touches
project_side-IsRow_example =
    project_side-IsRow limits reference reference-IsNumpy market 8 Side.short
