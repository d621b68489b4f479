-- ===== src/Blocker/Trend.antt =====
-- The trend strength blocker, `_trend_strength_blocker` of
-- src/strategy_engine/strategies/ema_pullback/direction_blockers.py, on the series of its three
-- indicators. Elementwise array operations are functions of the bar.
pub use strategy_engine.Trade.{Side}
use strategy_engine.Prelude.{ℕ, ◌+◌, Bool, not, ◌&&◌, ◌||◌, if◌then◌else◌}
use strategy_engine.Prelude.Int.{ℤ, pos, negsuc, ◌-ℤ◌, ltb_ℤ, leb_ℤ}
use strategy_engine.Float.{Float}
use strategy_engine.Numpy.{Numpy}

-- `_trend_strength_params`
pub record TrendParams (F : Type 0) : Type 0 where
  pub min_adx_peak : F
  pub peak_lookback_bars : ℤ
  pub max_bars_since_peak : ℤ
  pub min_current_adx : F
  pub require_di_alignment : Bool
  pub block_on_opposite_di_flip : Bool
  pub opposite_di_margin : F

pub record TrendSeries (F : Type 0) : Type 0 where
  pub adx : ℕ → F
  pub di_plus : ℕ → F
  pub di_minus : ℕ → F

pub data Reason : Type 0 where
  allowed indicator_not_ready no_recent_adx_peak peak_too_old : Reason
  current_adx_too_low opposite_di_flip : Reason

-- The trace of a bar.
pub record TrendRow : Type 0 where
  pub passes : Bool
  pub reason : Reason
  pub peak_index : ℤ
  pub bars_since : ℤ

module _ {F : Type 0} ⦃f : Float F⦄ (np : Numpy F) (p : TrendParams F) (s : TrendSeries F)
    (side : Side) where
  abbrev pub finite : ℕ → Bool
  finite i = f.is_finite (s.adx i) && f.is_finite (s.di_plus i) && f.is_finite (s.di_minus i)

  abbrev aligned : Side → ℕ → Bool
  aligned Side.long i = f.lt (s.di_minus i) (s.di_plus i)
  aligned Side.short i = f.lt (s.di_plus i) (s.di_minus i)

  abbrev opposite : Side → ℕ → Bool
  opposite Side.long i = f.lt (f.add (s.di_plus i) p.opposite_di_margin) (s.di_minus i)
  opposite Side.short i = f.lt (f.add (s.di_minus i) p.opposite_di_margin) (s.di_plus i)

  unfoldable pub qualifies : ℕ → Bool
  qualifies i =
      finite i && f.le p.min_adx_peak (s.adx i) && (aligned side i || not p.require_di_alignment)

  abbrev pub candidate : ℕ → ℤ
  candidate i = if qualifies i then pos i else negsuc 0

  unfoldable pub peak_index : ℕ → ℤ
  peak_index i =
      let last = np.running_max candidate i in
      if leb_ℤ (pos (i + 1) -ℤ p.peak_lookback_bars) last then last else negsuc 0

  abbrev pub bars_since : ℕ → ℤ
  bars_since i = if leb_ℤ (pos 0) (peak_index i) then pos i -ℤ peak_index i else negsuc 0

  abbrev pub too_low : ℕ → Bool
  too_low i = f.lt (s.adx i) p.min_current_adx

  abbrev pub flipped : ℕ → Bool
  flipped i = p.block_on_opposite_di_flip && opposite side i

  -- The masks in the order of the code; a later one overwrites the reason.
  unfoldable pub trend_strength_blocker : ℕ → TrendRow
  trend_strength_blocker i =
      let not_ready = not (finite i) in
      let missing = ltb_ℤ (peak_index i) (pos 0) in
      let too_old = not missing && ltb_ℤ p.max_bars_since_peak (bars_since i) in
      let mask_missing = not not_ready && missing in
      let mask_old = not not_ready && not missing && too_old in
      let mask_low = not not_ready && not missing && not too_old && too_low i in
      let mask_flip = not not_ready && not missing && not too_old && not (too_low i) && flipped i in
      record {
        passes = not not_ready && not mask_missing && not mask_old && not mask_low && not mask_flip;
        reason =
            if mask_flip
            then Reason.opposite_di_flip
            else (if mask_low
                then Reason.current_adx_too_low
                else (if mask_old
                    then Reason.peak_too_old
                    else (if mask_missing
                        then Reason.no_recent_adx_peak
                        else (if not_ready then Reason.indicator_not_ready else Reason.allowed))));
        peak_index = if not_ready then negsuc 0 else peak_index i;
        bars_since = if not_ready then negsuc 0 else bars_since i;
      }
