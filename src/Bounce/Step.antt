-- ===== src/Bounce/Step.antt =====
-- The bars of `_ema_bounce_counter` (src/strategy_engine/strategies/ema_pullback/setups.py).
-- `pending_end` is `pending_end_idx`, with `none` for -1.
pub use strategy_engine.Trade.{Side}
use strategy_engine.Prelude.{
  ℕ, zero, suc, ◌+◌, ◌-◌, ltb, leb, ◌==◌, Bool, true, false, not, ◌&&◌, ◌||◌, Option, none, some,
  if◌then◌else◌,
}
use strategy_engine.Prelude.Int.{ℤ, pos, leb_ℤ, pos_part}
use strategy_engine.Float.{Float}
use strategy_engine.Result.{Result, ok, Error, ◌>>◌, raise_if}

pub record Params : Type 0 where
  pub max_bounces : ℕ
  pub touch_lookback : ℕ
  pub start_confirm : ℕ
  pub break_confirm : ℕ

abbrev default : ℕ → Option ℤ → ℤ
default n none = pos n
default n (some x) = x

-- `_ema_bounce_counter_params`, of the integers of the request where it names them;
-- `is_range_cross` tells whether `raw_touch_mode` is absent or "range_cross".
unfoldable pub ema_bounce_counter_params :
    (max_bounces touch_lookback start_confirm break_confirm : Option ℤ) (is_range_cross : Bool)
    → Result Params
ema_bounce_counter_params max_bounces touch_lookback start_confirm break_confirm is_range_cross =
    let m = default 3 max_bounces in
    let t = default 10 touch_lookback in
    let s = default 1 start_confirm in
    let b = default 1 break_confirm in
    raise_if (leb_ℤ m (pos 0) || leb_ℤ t (pos 0) || leb_ℤ s (pos 0) || leb_ℤ b (pos 0))
      (Error.invalid_request "ema bounce counter parameters must be positive")
    >> (raise_if (not is_range_cross) (Error.invalid_request "raw_touch_mode must be range_cross")
        >> ok (record {
          max_bounces = pos_part m;
          touch_lookback = pos_part t;
          start_confirm = pos_part s;
          break_confirm = pos_part b;
        }))

-- The aligned series of the frame.
pub record Bars (F : Type 0) : Type 0 where
  pub fast : ℕ → F
  pub anchor : ℕ → F
  pub slow : ℕ → F
  pub close : ℕ → F
  pub low : ℕ → F
  pub high : ℕ → F

pub data PriceSide : Type 0 where
  above below at : PriceSide

-- What the loop reads of a bar.
pub record Signals : Type 0 where
  pub raw_trend : Bool
  pub armed : Bool
  pub raw_touch : Bool
  pub price_side : PriceSide

module _ {F : Type 0} ⦃f : Float F⦄ where
  abbrev trend_of : Side → F → F → F → Bool
  trend_of Side.long fast anchor slow = f.lt anchor fast && f.lt slow anchor
  trend_of Side.short fast anchor slow = f.lt fast anchor && f.lt anchor slow

  abbrev armed_of : Side → F → F → Bool
  armed_of Side.long close anchor = f.lt anchor close
  armed_of Side.short close anchor = f.lt close anchor

  unfoldable pub signals : Side → Bars F → ℕ → Signals
  signals side b i = record {
    raw_trend = trend_of side (b.fast i) (b.anchor i) (b.slow i);
    armed = armed_of side (b.close i) (b.anchor i);
    raw_touch = f.le (b.low i) (b.anchor i) && f.le (b.anchor i) (b.high i);
    price_side =
        if f.lt (b.anchor i) (b.close i)
        then PriceSide.above
        else (if f.lt (b.close i) (b.anchor i) then PriceSide.below else PriceSide.at);
  }

-- The variables of the loop.
pub record Counter : Type 0 where
  pub trend_active : Bool
  pub trend_episode_id : ℕ
  pub raw_trend_run : ℕ
  pub raw_break_run : ℕ
  pub completed_count : ℕ
  pub pending : Bool
  pub pending_end : Option ℕ

abbrev pub start : Counter
start = record {
  trend_active = false;
  trend_episode_id = 0;
  raw_trend_run = 0;
  raw_break_run = 0;
  completed_count = 0;
  pending = false;
  pending_end = none;
}

pub record Row : Type 0 where
  pub trend_active : Bool
  pub trend_episode_id : ℕ
  pub armed : Bool
  pub raw_touch : Bool
  pub pending_bounce : Bool
  pub in_touch_lookback : Bool
  pub touch_lookback_left : ℕ
  pub completed_bounce_count : ℕ
  pub effective_bounce_number : ℕ
  pub setup_allowed : Bool
  pub price_side_of_anchor : PriceSide
  pub trend_start_event : Bool
  pub trend_break_event : Bool
  pub pending_bounce_start : Bool
  pub pending_bounce_end : Bool

-- Comparisons of the bar with `pending_end_idx`.
abbrev after_end : ℕ → Option ℕ → Bool
after_end index none = true
after_end index (some last) = ltb last index

abbrev at_end : ℕ → Option ℕ → Bool
at_end index none = false
at_end index (some last) = index == last

abbrev left_until : ℕ → Option ℕ → ℕ
left_until index none = 0
left_until index (some last) = last + 1 - index

unfoldable pub complete_due : ℕ → Counter → Counter
complete_due index c =
    if c.pending && after_end index c.pending_end
    then record c { completed_count = c.completed_count + 1; pending = false; pending_end = none }
    else c

abbrev clear : Counter → Counter
clear c = record c { completed_count = 0; pending = false; pending_end = none; raw_break_run = 0 }

-- The trend part of a bar while the trend is active, and while it is not; with the event.
unfoldable pub active_trend : Params → Bool → Counter → Counter × Bool
active_trend p raw_trend c =
    if raw_trend
    then (record c { raw_break_run = 0 }, false)
    else if leb p.break_confirm (c.raw_break_run + 1)
    then (record (clear c) { trend_active = false; raw_trend_run = 0 }, true)
    else (record c { raw_break_run = c.raw_break_run + 1 }, false)

unfoldable pub idle_trend : Params → Bool → Counter → Counter × Bool
idle_trend p raw_trend c =
    if raw_trend
    then (if leb p.start_confirm (c.raw_trend_run + 1)
        then (
          record (clear c) {
            trend_active = true;
            trend_episode_id = c.trend_episode_id + 1;
            raw_trend_run = c.raw_trend_run + 1;
          },
          true,
        )
        else (record c { raw_trend_run = c.raw_trend_run + 1 }, false))
    else (record c { raw_trend_run = 0 }, false)

unfoldable pub begins_bounce : Params → Signals → Counter → Bool
begins_bounce p s c =
    c.trend_active && s.armed && s.raw_touch && not c.pending && ltb c.completed_count p.max_bounces

unfoldable pub open_bounce : Params → ℕ → Bool → Counter → Counter
open_bounce p index begins c =
    if begins
    then record c { pending = true; pending_end = some (index + p.touch_lookback - 1) }
    else c

-- The row of a bar, of the counter at its end and of its three events.
unfoldable pub row_of : Params → ℕ → Signals → (started broke begins : Bool) → Counter → Row
row_of p index s started broke begins c =
    let in_lookback = c.pending && not (after_end index c.pending_end) in
    record {
      trend_active = c.trend_active;
      trend_episode_id = if c.trend_active then c.trend_episode_id else 0;
      armed = s.armed;
      raw_touch = s.raw_touch;
      pending_bounce = c.pending;
      in_touch_lookback = in_lookback;
      touch_lookback_left = if in_lookback then left_until index c.pending_end else 0;
      completed_bounce_count = c.completed_count;
      effective_bounce_number = if c.pending then c.completed_count + 1 else c.completed_count;
      setup_allowed =
          c.trend_active
          && (ltb c.completed_count p.max_bounces
              || c.pending && leb (c.completed_count + 1) p.max_bounces);
      price_side_of_anchor = s.price_side;
      trend_start_event = started;
      trend_break_event = broke;
      pending_bounce_start = begins;
      pending_bounce_end = c.pending && at_end index c.pending_end;
    }

unfoldable pub active_bar : Params → ℕ → Signals → Counter → Counter × Row
active_bar p index s c =
    let t = active_trend p s.raw_trend c in
    let begins = begins_bounce p s t.0 in
    let c' = open_bounce p index begins t.0 in (c', row_of p index s false t.1 begins c')

unfoldable pub idle_bar : Params → ℕ → Signals → Counter → Counter × Row
idle_bar p index s c =
    let t = idle_trend p s.raw_trend c in
    let begins = begins_bounce p s t.0 in
    let c' = open_bounce p index begins t.0 in (c', row_of p index s t.1 false begins c')

-- One bar of the loop.
unfoldable pub bounce_bar : Params → ℕ → Signals → Counter → Counter × Row
bounce_bar p index s c =
    let c' = complete_due index c in
    if c'.trend_active then active_bar p index s c' else idle_bar p index s c'

-- The counter before bar `n`, and the row of bar `n`.
unfoldable pub counter_at : Params → (ℕ → Signals) → ℕ → Counter
counter_at p s zero = start
counter_at p s (suc n) = (bounce_bar p n (s n) (counter_at p s n)).0

unfoldable pub row_at : Params → (ℕ → Signals) → ℕ → Row
row_at p s n = (bounce_bar p n (s n) (counter_at p s n)).1
