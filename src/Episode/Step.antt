-- ===== src/Episode/Step.antt =====
-- The pass of `_project_long`: what a bar does to the machine, and the loop over the bars.
use strategy_engine.Prelude.{
  ℕ, zero, suc, ◌+◌, ◌-◌, Bool, true, false, not, ◌&&◌, Option, none, some, List, [], ◌∷◌, ◌++◌,
  if◌then◌else◌, ltb, ◌==◌,
}
use strategy_engine.Float.{Float, max, min}
use strategy_engine.Numpy.{Numpy}
use strategy_engine.Episode.Data.{
  Phase, Event, Limits, Bars, Touch, EpisodeRow, FormingRow, Machine, BarState, initial,
}
use strategy_engine.Episode.Wave.{reset_forming, update_forming, seed_first_wave}
use strategy_engine.Episode.Touches.{
  inactive_bar, grow_break, finish_zone, forming_row, finish_break, begin, end_last, closed, settle,
  on_zone,
}

module _ {F : Type 0} ⦃f : Float F⦄ (l : Limits) (b : Bars F) where
  open f use {lt, le, is_finite, sub}

  -- `fast > anchor > slow`, false on any NaN.
  abbrev pub order : ℕ → Bool
  order i = lt (b.anchor i) (b.fast i) && lt (b.slow i) (b.anchor i)

  -- The bar joins the running false break.
  unfoldable pub extend_break : ℕ → Machine F → Machine F
  extend_break i m = record m {
    fb_low = min m.fb_low (b.low i);
    fb_high = max m.fb_high (b.high i);
    zone = on_zone (grow_break i (min m.fb_low (b.low i)) (max m.fb_high (b.high i))) m.zone;
  }

  -- Open entities become final on the bar of a stack break.
  unfoldable pub close_entities : ℕ → Phase → Machine F → Machine F
  close_entities i Phase.zone m = record m { zone = on_zone (finish_zone i) m.zone }
  close_entities i Phase.false_break m =
      let m' = extend_break i m in record m' { zone = on_zone (finish_break i false) m'.zone }
  close_entities i _ m = m

  unfoldable pub break_stack : ℕ → Machine F → Machine F
  break_stack i m =
      let m' = close_entities i m.phase (record m { wave = update_forming b i m.wave }) in
      record m' {
        phase = Phase.broken;
        episodes = end_last i m'.episodes;
        forming_rows = m'.forming_rows ++ forming_row m' (some i) ∷ [];
      }

  -- Wave `touch_number + 1` is final, and its zone opens.
  abbrev pub new_touch : ℕ → Machine F → Touch F
  new_touch i m = record {
    episode_id = m.episode_id;
    number = m.touch_number + 1;
    zone_start = i;
    zone_end = i;
    zone_high = b.high i;
    zone_low = b.low i;
    zone_final = false;
    zone_known_at = none;
    false_break = none;
    origin_bar = m.wave.s_bar;
    origin_price = m.wave.s_low;
    peak_bar = m.wave.p_bar;
    peak_price = m.wave.p_high;
    touch_bar = i;
    touch_price = b.low i;
    up_high = m.wave.p_high;
    up_low = m.wave.s_low;
    down_high = max m.wave.d_high (b.high i);
    down_low = min m.wave.d_low (b.low i);
  }

  unfoldable pub open_zone : ℕ → Machine F → Machine F
  open_zone i m = record m {
    touch_number = m.touch_number + 1;
    touches = m.touches ++ closed m.zone;
    zone = some (new_touch i m);
    last_contact = i;
    all_low = b.low i;
    all_high = b.high i;
    run = 0;
    run_low = b.low i;
    run_high = b.high i;
    phase = Phase.zone;
    wave = reset_forming b i;
  }

  -- The test of a touch: wholly above on the bar before, in contact on this one.
  abbrev pub touches_anchor : ℕ → Bool
  touches_anchor i =
      lt (b.anchor (i - 1)) (b.low (i - 1))
      && le (b.low i) (b.anchor i)
      && le (b.anchor i) (b.high i)

  unfoldable pub away_bar : ℕ → Machine F → Machine F × Option Event
  away_bar i m =
      if touches_anchor i
      then (open_zone i m, some Event.touch_start)
      else (record m { wave = update_forming b i m.wave }, none)

  -- Wholly above the anchor: the zone ends once its last contact is more than `window` bars old.
  unfoldable pub zone_above : ℕ → Machine F → Machine F × Option Event
  zone_above i m =
      if ltb l.window (i - m.last_contact)
      then (
        record m { run = 0; zone = on_zone (finish_zone i) m.zone; phase = Phase.away },
        some Event.zone_end,
      )
      else (record m { run = 0 }, none)

  -- More than `window` bars in a row wholly below: the zone is final and its false break begins.
  abbrev pub begin_break : ℕ → Machine F → Touch F → Touch F
  begin_break i m z = record z {
    zone_final = true;
    zone_known_at = some i;
    false_break = some (record {
      fb_start = i - m.run + 1;
      fb_end = i;
      fb_high = m.run_high;
      fb_low = m.run_low;
      fb_depth = sub z.zone_low m.run_low;
      fb_outcome_comeback = none;
      fb_final = false;
      fb_known_at = none;
    });
  }

  -- The bar joins the run of bars wholly below the anchor.
  abbrev pub extend_run : ℕ → Machine F → Machine F
  extend_run i m = record m {
    run = m.run + 1;
    run_low = if m.run == 0 then b.low i else min m.run_low (b.low i);
    run_high = if m.run == 0 then b.high i else max m.run_high (b.high i);
  }

  unfoldable pub zone_below : ℕ → Machine F → Machine F × Option Event
  zone_below i m =
      let m' = extend_run i m in
      if ltb l.window m'.run
      then (
        record m' {
          false_breaks = m'.false_breaks + 1;
          fb_low = m'.run_low;
          fb_high = m'.run_high;
          zone = on_zone (begin_break i m') m'.zone;
          phase = Phase.false_break;
        },
        some Event.false_break_start,
      )
      else (m', none)

  unfoldable pub zone_contact : ℕ → Machine F → Machine F
  zone_contact i m = record m {
    last_contact = i;
    run = 0;
    zone =
        on_zone (λ z. record z { zone_end = i; zone_low = m.all_low; zone_high = m.all_high })
          m.zone;
  }

  -- The forming wave and the running extremes of the zone, which every zone bar updates.
  abbrev pub zone_extremes : ℕ → Machine F → Machine F
  zone_extremes i m = record m {
    wave = update_forming b i m.wave;
    all_low = min m.all_low (b.low i);
    all_high = max m.all_high (b.high i);
  }

  unfoldable pub zone_bar : ℕ → Machine F → Machine F × Option Event
  zone_bar i m =
      if lt (b.anchor i) (b.low i)
      then zone_above i (zone_extremes i m)
      else if lt (b.high i) (b.anchor i)
      then zone_below i (zone_extremes i m)
      else (zone_contact i (zone_extremes i m), none)

  unfoldable pub false_break_bar : ℕ → Machine F → Machine F × Option Event
  false_break_bar i m =
      let m' = extend_break i (record m { wave = update_forming b i m.wave }) in
      if lt (b.anchor i) (b.close i)
      then (
        record m' { zone = on_zone (finish_break i true) m'.zone; phase = Phase.away },
        some Event.comeback,
      )
      else (m', none)

  -- A machine that is between bars is in one of the first three phases; `broken` is left of the bar
  -- that set it.
  unfoldable pub phase_bar : ℕ → Phase → Machine F → Machine F × Option Event
  phase_bar i Phase.away m = away_bar i m
  phase_bar i Phase.zone m = zone_bar i m
  phase_bar i Phase.false_break m = false_break_bar i m
  phase_bar i Phase.broken m = false_break_bar i m

  -- A bar of an active episode.
  unfoldable pub advance : ℕ → Machine F → Machine F × Option Event
  advance i m =
      let m' = record m { violation = if order i then 0 else m.violation + 1 } in
      if ltb l.break_bars m'.violation
      then (break_stack i m', some Event.stack_break)
      else if not (is_finite (b.anchor i))
      then (record m' { wave = update_forming b i m'.wave }, none)
      else phase_bar i m'.phase m'

  module _ (np : Numpy F) where
    -- The first bar of an episode.
    unfoldable pub start_episode : ℕ → Machine F → Machine F
    start_episode i m =
        let id = m.episode_id + 1 in
        record m {
          active = true;
          episode_id = id;
          start = i;
          censored = ltb i l.censor_before;
          violation = 0;
          touch_number = 0;
          false_breaks = 0;
          phase = Phase.away;
          zone = none;
          wave = seed_first_wave b np i (reset_forming b i);
          episodes =
              m.episodes
              ++ record {
                episode_id = id;
                start_bar = i;
                end_bar = none;
                censored = ltb i l.censor_before;
              }
                ∷ [];
        }

    unfoldable pub idle_bar : ℕ → Machine F → Machine F × BarState F
    idle_bar i m = if order i then begin i (start_episode i m) else (m, inactive_bar)

    unfoldable pub active_bar : ℕ → Machine F → Machine F × BarState F
    active_bar i m = settle i (advance i m)

    unfoldable pub on_bar : ℕ → Machine F → Machine F × BarState F
    on_bar i m = if m.active then active_bar i m else idle_bar i m

    -- The loop over the first `size` bars.
    unfoldable pub run : ℕ → Machine F × List (BarState F)
    run zero = (initial, [])
    run (suc i) = let (m, rows) = run i in let (m', row) = on_bar i m in (m', rows ++ row ∷ [])

    -- The whole pass: per-bar series, touch table, episodes, forming rows.
    unfoldable pub project_long :
        ℕ → List (BarState F) × List (Touch F) × List EpisodeRow × List (FormingRow F)
    project_long size =
        let (m, rows) = run size in
        (
          rows,
          m.touches ++ closed m.zone,
          m.episodes,
          m.forming_rows ++ (if m.active then forming_row m none ∷ [] else []),
        )
