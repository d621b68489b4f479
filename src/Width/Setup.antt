-- ===== src/Width/Setup.antt =====
-- `_anchor_stack_width`, its parameters and its prefix
-- (src/strategy_engine/strategies/ema_pullback/setups.py), on the series of the frame. The two
-- rolling calls of pandas are arguments.
use strategy_engine.Prelude.{
  ℕ, Bool, false, not, ◌&&◌, ◌||◌, ◌==◌, Option, none, some, if◌then◌else◌,
}
use strategy_engine.Prelude.Int.{ℤ, pos, leb_ℤ, pos_part}
use strategy_engine.Float.{Float}
use strategy_engine.Pandas.{RollingPeak, RollingSum}
use strategy_engine.Result.{Result, ok, Error, ◌>>◌, raise_if}

pub record WidthParams (F : Type 0) : Type 0 where
  pub min_current : F
  pub min_recent : F
  pub lookback : ℕ

pub record Averages (F : Type 0) : Type 0 where
  pub fast : ℕ → F
  pub anchor : ℕ → F
  pub slow : ℕ → F
  pub atr : ℕ → F

pub data Narrow : Type 0 where
  wide indicator_not_ready current_width_too_narrow recent_width_never_expanded : Narrow

-- What the loop appends for a bar.
pub record WidthRow (F : Type 0) : Type 0 where
  pub allowed : Bool
  pub blocked_reason : Narrow
  pub current_width : F
  pub recent_max : F
  pub current_ok : Bool
  pub recent_ok : Bool

module _ {F : Type 0} ⦃f : Float F⦄ where
  -- The three numbers of the request, its defaults in place.
  unfoldable pub anchor_stack_width_params :
      (min_current min_recent : F) (lookback : ℤ) → Result (WidthParams F)
  anchor_stack_width_params min_current min_recent lookback =
      raise_if (f.le min_current f.nought || f.le min_recent f.nought || leb_ℤ lookback (pos 0))
        (Error.invalid_request "anchor stack width parameters must be positive")
      >> ok (record {
        min_current = min_current;
        min_recent = min_recent;
        lookback = pos_part lookback;
      })

  -- `width_atr`, of the values of a bar.
  abbrev pub width_of : (fast slow atr : F) → F
  width_of fast slow atr =
      if (f.is_finite fast && f.is_finite slow && f.is_finite atr) && f.lt f.nought atr
      then f.div (f.abs (f.sub fast slow)) atr
      else f.nan

  abbrev pub width_atr : Averages F → ℕ → F
  width_atr s i = width_of (s.fast i) (s.slow i) (s.atr i)

  module _ (peak : RollingPeak F) (sum : RollingSum) where
    abbrev is_total : Option ℕ → ℕ → Bool
    is_total none n = false
    is_total (some m) n = m == n

    abbrev finite_flag : Averages F → ℕ → ℕ
    finite_flag s i = if f.is_finite (width_atr s i) then 1 else 0

    -- `roll_all_finite`
    unfoldable pub all_finite : Averages F → ℕ → ℕ → Bool
    all_finite s lookback i = is_total (sum lookback lookback (finite_flag s) i) lookback

    unfoldable pub recent_max : Averages F → ℕ → ℕ → F
    recent_max s lookback i =
        if all_finite s lookback i then peak lookback lookback (width_atr s) i else f.nan

    module _ (p : WidthParams F) (s : Averages F) (i : ℕ) where
      abbrev pub recent : F
      recent = recent_max s p.lookback i

      abbrev pub not_ready : Bool
      not_ready =
          not (
            f.is_finite (s.fast i)
            && f.is_finite (s.anchor i)
            && f.is_finite (s.slow i)
            && f.is_finite (s.atr i)
            && f.is_finite recent)
          || f.le (s.atr i) f.nought

      abbrev pub current_width_ok : Bool
      current_width_ok = f.is_finite (width_atr s i) && f.le p.min_current (width_atr s i)

      abbrev pub recent_width_ok : Bool
      recent_width_ok = f.is_finite recent && f.le p.min_recent recent

      abbrev pub blocked : Narrow
      blocked =
          if not_ready
          then Narrow.indicator_not_ready
          else (if not current_width_ok
              then Narrow.current_width_too_narrow
              else (if not recent_width_ok
                  then Narrow.recent_width_never_expanded
                  else Narrow.wide))

      unfoldable pub anchor_stack_width : WidthRow F
      anchor_stack_width = record {
        allowed = not not_ready && current_width_ok && recent_width_ok;
        blocked_reason = blocked;
        current_width = width_atr s i;
        recent_max = recent;
        current_ok = current_width_ok;
        recent_ok = recent_width_ok;
      }
