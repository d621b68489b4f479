-- ===== src/Episode/Touches.antt =====
-- What `_project_long` writes to the rows of its touch table
-- (src/strategy_engine/strategies/ema_pullback/stack_episode.py).
use strategy_engine.Prelude.{
  ℕ, ◌+◌, ◌-◌, Bool, true, false, Option, none, some, List, [], ◌∷◌, ◌++◌, if◌then◌else◌,
}
use strategy_engine.Float.{Float}
use strategy_engine.Episode.Data.{
  Phase, Event, FalseBreak, Touch, EpisodeRow, FormingRow, Machine, Snapshot, BarState,
}

-- The row that a replaced or dropped `zone` leaves in the touch table.
abbrev pub closed : {F : Type 0} → Option (Touch F) → List (Touch F)
closed none = []
closed (some z) = z ∷ []

-- `episodes[-1]["end_bar"] = i`
unfoldable pub end_last : ℕ → List EpisodeRow → List EpisodeRow
end_last i [] = []
end_last i (e ∷ []) = record e { end_bar = some i } ∷ []
end_last i (e ∷ (d ∷ es)) = e ∷ end_last i (d ∷ es)

-- A write to a dict that may be `None`.
abbrev pub on_some : {A : Type 0} → (A → A) → Option A → Option A
on_some g none = none
on_some g (some z) = some (g z)

module _ {F : Type 0} where
  -- `zone[...] = ...` for the row and for its false break.
  abbrev pub on_zone : (Touch F → Touch F) → Option (Touch F) → Option (Touch F)
  on_zone = on_some

  abbrev pub on_break : (FalseBreak F → FalseBreak F) → Touch F → Touch F
  on_break g z = record z { false_break = on_some g z.false_break }

  abbrev pub finish_zone : ℕ → Touch F → Touch F
  finish_zone i z = record z { zone_final = true; zone_known_at = some i }

  abbrev pub finish_break : ℕ → Bool → Touch F → Touch F
  finish_break i comeback =
      on_break
        λ x. record x { fb_outcome_comeback = some comeback; fb_final = true; fb_known_at = some i }

  -- `forming_row(None)` with its `stack_break_bar`
  abbrev pub forming_row : Machine F → Option ℕ → FormingRow F
  forming_row m stack_break = record {
    episode_id = m.episode_id;
    number = m.touch_number + 1;
    wave = m.wave;
    up_high = m.wave.p_high;
    up_low = m.wave.s_low;
    stack_break_bar = stack_break;
  }

module _ {F : Type 0} where
  abbrev pub snapshot : ℕ → Machine F → Option Event → Snapshot F
  snapshot i m event = record {
    episode_id = m.episode_id;
    bars_since_start = i - m.start;
    touch_number = m.touch_number;
    phase = m.phase;
    false_breaks = m.false_breaks;
    event = event;
    zone = m.zone;
    forming = m.wave;
  }

  -- The writes at the end of an active bar.
  abbrev pub publish : ℕ → Machine F → Option Event → BarState F
  publish i m event = record {
    active = true;
    censored = m.censored;
    live = if m.censored then none else some (snapshot i m event);
  }

  abbrev pub inactive_bar : BarState F
  inactive_bar = record { active = false; censored = false; live = none }

  -- `if phase == -1: active = False; zone = None`
  unfoldable pub leave : Phase → Machine F → Machine F
  leave Phase.broken m = record m {
    active = false;
    zone = none;
    touches = m.touches ++ closed m.zone;
  }
  leave _ m = m

  -- A bar ends: it is published, and a broken stack is left.
  unfoldable pub settle : ℕ → Machine F × Option Event → Machine F × BarState F
  settle i (m, event) = (leave m.phase m, publish i m event)

  unfoldable pub begin : ℕ → Machine F → Machine F × BarState F
  begin i m = (m, publish i m (some Event.episode_start))

module _ {F : Type 0} ⦃f : Float F⦄ where
  -- What the running false break becomes with its new extremes.
  unfoldable pub grow_break : ℕ → F → F → Touch F → Touch F
  grow_break i low high z =
      on_break
        (λ x. record x {
          fb_end = i;
          fb_low = low;
          fb_high = high;
          fb_depth = f.sub z.zone_low low;
        })
        z
