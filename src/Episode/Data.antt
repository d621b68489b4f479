-- ===== src/Episode/Data.antt =====
-- The state of `_project_long` (src/strategy_engine/strategies/ema_pullback/stack_episode.py): its locals, the row of a
-- touch (the `zone` dict), the rows of the episode and forming tables, and what one bar publishes.
-- A flag that the code keeps as 1.0 or 0.0 is a Boolean, and a value that may be NaN or `None` where
-- the code tests for it is an option.
use strategy_engine.Prelude.{ℕ, Bool, false, Option, none, List, []}
use strategy_engine.Float.{Float}

-- `_AWAY`, `_ZONE`, `_FALSE_BREAK`, and the -1 that marks the bar of a stack break.
pub data Phase : Type 0 where
  away zone false_break broken : Phase

-- `EVENT_FIELDS`: the `events` of a bar hold at most one of them.
pub data Event : Type 0 where
  episode_start touch_start zone_end false_break_start comeback stack_break : Event

-- `window`, `break_bars` and `censor_before`.
pub record Limits : Type 0 where
  pub window : ℕ
  pub break_bars : ℕ
  pub censor_before : ℕ

-- The price and EMA arrays, by bar.
pub record Bars (F : Type 0) : Type 0 where
  pub high : ℕ → F
  pub low : ℕ → F
  pub close : ℕ → F
  pub fast : ℕ → F
  pub anchor : ℕ → F
  pub slow : ℕ → F

-- The forming wave: origin `S*`, peak `P` and the running extremes of its down leg.
pub record Wave (F : Type 0) : Type 0 where
  pub s_bar : ℕ
  pub p_bar : ℕ
  pub s_low : F
  pub p_high : F
  pub d_low : F
  pub d_high : F

-- The false break of a zone: `fb_*`, there from its first bar on.
pub record FalseBreak (F : Type 0) : Type 0 where
  pub fb_start : ℕ
  pub fb_end : ℕ
  pub fb_high : F
  pub fb_low : F
  pub fb_depth : F
  pub fb_outcome_comeback : Option Bool
  pub fb_final : Bool
  pub fb_known_at : Option ℕ

-- A row of the touch table: the zone, its false break and its final wave.
pub record Touch (F : Type 0) : Type 0 where
  pub episode_id : ℕ
  pub number : ℕ
  pub zone_start : ℕ
  pub zone_end : ℕ
  pub zone_high : F
  pub zone_low : F
  pub zone_final : Bool
  pub zone_known_at : Option ℕ
  pub false_break : Option (FalseBreak F)
  pub origin_bar : ℕ
  pub origin_price : F
  pub peak_bar : ℕ
  pub peak_price : F
  pub touch_bar : ℕ
  pub touch_price : F
  pub up_high : F
  pub up_low : F
  pub down_high : F
  pub down_low : F

pub record EpisodeRow : Type 0 where
  pub episode_id : ℕ
  pub start_bar : ℕ
  pub end_bar : Option ℕ
  pub censored : Bool

pub record FormingRow (F : Type 0) : Type 0 where
  pub episode_id : ℕ
  pub number : ℕ
  pub wave : Wave F
  pub up_high : F
  pub up_low : F
  pub stack_break_bar : Option ℕ

-- The locals of the pass. The row `zone` is the last row of the touch table while it is there, and
-- `touches` holds the rows that the pass no longer writes to.
pub record Machine (F : Type 0) : Type 0 where
  pub active : Bool
  pub censored : Bool
  pub episode_id : ℕ
  pub start : ℕ
  pub violation : ℕ
  pub touch_number : ℕ
  pub false_breaks : ℕ
  pub phase : Phase
  pub zone : Option (Touch F)
  pub last_contact : ℕ
  pub all_low : F
  pub all_high : F
  pub run : ℕ
  pub run_low : F
  pub run_high : F
  pub fb_low : F
  pub fb_high : F
  pub wave : Wave F
  pub touches : List (Touch F)
  pub episodes : List EpisodeRow
  pub forming_rows : List (FormingRow F)

-- What a live bar publishes: `state`, `zone_now`, `fb_now` and `forming`.
pub record Snapshot (F : Type 0) : Type 0 where
  pub episode_id : ℕ
  pub bars_since_start : ℕ
  pub touch_number : ℕ
  pub phase : Phase
  pub false_breaks : ℕ
  pub event : Option Event
  pub zone : Option (Touch F)
  pub forming : Wave F

-- `none` for the fields that are NaN: all of them on an inactive or censored bar.
pub record BarState (F : Type 0) : Type 0 where
  pub active : Bool
  pub censored : Bool
  pub live : Option (Snapshot F)

module _ {F : Type 0} ⦃f : Float F⦄ where
  abbrev pub empty_wave : Wave F
  empty_wave = record {
    s_bar = 0;
    p_bar = 0;
    s_low = f.nought;
    p_high = f.nought;
    d_low = f.nought;
    d_high = f.nought;
  }

  abbrev pub initial : Machine F
  initial = record {
    active = false;
    censored = false;
    episode_id = 0;
    start = 0;
    violation = 0;
    touch_number = 0;
    false_breaks = 0;
    phase = Phase.away;
    zone = none;
    last_contact = 0;
    all_low = f.nought;
    all_high = f.nought;
    run = 0;
    run_low = f.nought;
    run_high = f.nought;
    fb_low = f.nought;
    fb_high = f.nought;
    wave = empty_wave;
    touches = [];
    episodes = [];
    forming_rows = [];
  }
