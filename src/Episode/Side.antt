-- ===== src/Episode/Side.antt =====
-- One side's projection: `project_side`, `_unmirror_row` and the index of first rows
-- (src/strategy_engine/strategies/ema_pullback/stack_episode.py). The short side runs on mirrored prices.
use strategy_engine.Prelude.{ℕ, ◌+◌, Option, none, some, List, [], ◌∷◌, map, if◌then◌else◌, ◌==◌}
use strategy_engine.Float.{Float}
use strategy_engine.Numpy.{Numpy}
use strategy_engine.Episode.Data.{
  Limits, Bars, Wave, FalseBreak, Touch, EpisodeRow, FormingRow, Snapshot, BarState,
}
use strategy_engine.Episode.Step.{project_long}
use strategy_engine.Episode.Touches.{on_some}

pub data Side : Type 0 where
  long short : Side

-- `SideEpisode`, less the constants that it carries along.
pub record SideEpisode (F : Type 0) : Type 0 where
  pub bars : List (BarState F)
  pub touches : List (Touch F)
  pub episodes : List EpisodeRow
  pub forming_rows : List (FormingRow F)

module _ {F : Type 0} ⦃f : Float F⦄ where
  open f use {neg}

  -- Highs and lows swapped and negated.
  unfoldable pub mirror_bars : Bars F → Bars F
  mirror_bars b = record {
    high = λ i. neg (b.low i);
    low = λ i. neg (b.high i);
    close = λ i. neg (b.close i);
    fast = λ i. neg (b.fast i);
    anchor = λ i. neg (b.anchor i);
    slow = λ i. neg (b.slow i);
  }

  -- A false break back in the side's own prices: `fb_high` and `fb_low` change places, and
  -- `fb_depth` is a distance.
  abbrev pub unmirror_break : FalseBreak F → FalseBreak F
  unmirror_break x = record x { fb_high = neg x.fb_low; fb_low = neg x.fb_high }

  unfoldable pub unmirror_row : Touch F → Touch F
  unmirror_row z = record z {
    zone_high = neg z.zone_low;
    zone_low = neg z.zone_high;
    false_break = on_some unmirror_break z.false_break;
    origin_price = neg z.origin_price;
    peak_price = neg z.peak_price;
    touch_price = neg z.touch_price;
    up_high = neg z.up_low;
    up_low = neg z.up_high;
    down_high = neg z.down_low;
    down_low = neg z.down_high;
  }

  -- The forming series: prices negated, the down leg's extremes swapped.
  unfoldable pub unmirror_wave : Wave F → Wave F
  unmirror_wave w = record w {
    s_low = neg w.s_low;
    p_high = neg w.p_high;
    d_high = neg w.d_low;
    d_low = neg w.d_high;
  }

  -- `zone_now` and `fb_now` swap their high and low series as the rows do.
  abbrev pub unmirror_snapshot : Snapshot F → Snapshot F
  unmirror_snapshot s = record s {
    zone = on_some unmirror_row s.zone;
    forming = unmirror_wave s.forming;
  }

  unfoldable pub unmirror_bar : BarState F → BarState F
  unmirror_bar r = record r { live = on_some unmirror_snapshot r.live }

  unfoldable pub unmirror_forming : FormingRow F → FormingRow F
  unmirror_forming r = record r {
    wave = unmirror_wave r.wave;
    up_high = neg r.up_low;
    up_low = neg r.up_high;
  }

  unfoldable pub project_side : Numpy F → Limits → Bars F → ℕ → Side → SideEpisode F
  project_side np l b size Side.long =
      let (rows, touches, episodes, forming) = project_long l b np size in
      record { bars = rows; touches = touches; episodes = episodes; forming_rows = forming }
  project_side np l b size Side.short =
      let (rows, touches, episodes, forming) = project_long l (mirror_bars b) np size in
      record {
        bars = map unmirror_bar rows;
        touches = map unmirror_row touches;
        episodes = episodes;
        forming_rows = map unmirror_forming forming;
      }

-- `first_row[e]`, with `none` for the -1 that it starts from.
unfoldable pub first_row_from : ℕ → ℕ → List (ℕ × ℕ) → Option ℕ
first_row_from k e [] = none
first_row_from k e ((id, n) ∷ rest) =
    let later = first_row_from (k + 1) e rest in if id == e then some k else later

abbrev pub first_row : ℕ → List (ℕ × ℕ) → Option ℕ
first_row = first_row_from 0
