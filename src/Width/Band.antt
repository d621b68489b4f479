-- ===== src/Width/Band.antt =====
-- `_anchor_stack_width_band` (src/strategy_engine/strategies/ema_pullback/setups.py) with its
-- parser (src/strategy_engine/strategies/ema_pullback/raw_spec_identity.py), and which bars its
-- band lets through.
use Prim.Native.String.{String}
use text.Mathlib.Text.{◌==◌ as str_eq}
use strategy_engine.Prelude.{
  ℕ, ◌≡◌, arith, Bool, false, not, ◌&&◌, ◌||◌, any, Option, none, some, if◌then◌else◌,
}
use strategy_engine.Prelude.Int.{ℤ, pos}
use strategy_engine.Float.{Float}
use strategy_engine.Json.{Json, Fields, get, get_default, keys, positive_int}
use strategy_engine.Result.{Result, ok, err, Error, ◌>>=◌, ◌>>◌, raise_if}
use strategy_engine.Width.Setup.{Averages, width_atr}

pub record WidthBandParams (F : Type 0) : Type 0 where
  pub min_width : F
  pub max_width : Option F
  pub atr_timeframe : String
  pub atr_period : ℕ

pub data BandReason : Type 0 where
  inside indicator_not_ready width_below_min width_above_max : BandReason

pub record BandRow (F : Type 0) : Type 0 where
  pub allowed : Bool
  pub blocked_reason : BandReason
  pub width : F

abbrev is_band_key : String → Bool
is_band_key key =
    str_eq key "atr_timeframe"
    || str_eq key "atr_period"
    || str_eq key "min_width_atr"
    || str_eq key "max_width_atr"

abbrev pub unknown_key : String → Bool
unknown_key key = not (is_band_key key)

-- `of_int` is `float(n)` for an integer, and `none` where Python raises an `OverflowError`.
module _ {F : Type 0} ⦃f : Float F⦄ (of_int : ℤ → Option F) where
  abbrev pub finite_number : F → Result F
  finite_number x =
      if f.is_finite x then ok x else err (Error.invalid_request "must be a finite number")

  abbrev pub band_number : Json F → Result F
  band_number (Json.float x) = finite_number x
  band_number (Json.int n) = elim (of_int n) [
    | none ↦ err (Error.raised "OverflowError")
    | some x ↦ finite_number x
  ]
  band_number other = err (Error.invalid_request "must be a finite number")

  abbrev pub min_width_of : Option (Json F) → Result F
  min_width_of none =
      err (Error.invalid_request "anchor_stack_width_band_setup requires min_width_atr")
  min_width_of (some v) = band_number v >>= λ x.
      raise_if (f.le x f.nought) (Error.invalid_request "min_width_atr must be greater than zero")
      >> ok x

  abbrev pub max_width_of : F → Option (Json F) → Result (Option F)
  max_width_of least none = ok none
  max_width_of least (some v) = band_number v >>= λ x.
      raise_if (f.lt x least)
        (Error.invalid_request "max_width_atr must not be less than min_width_atr")
      >> ok (some x)

  abbrev pub timeframe_of : Fields F → Result String
  timeframe_of m = elim (get_default "atr_timeframe" (Json.str "base") m) [
    | Json.str t ↦
        raise_if (str_eq t "") (Error.invalid_request "atr_timeframe must be a non-empty string")
        >> ok t
    | _ ↦ err (Error.invalid_request "atr_timeframe must be a non-empty string")
  ]

  unfoldable pub parse_width_band_params : Fields F → Result (WidthBandParams F)
  parse_width_band_params m =
      raise_if (any unknown_key (keys m))
        (Error.invalid_request "anchor_stack_width_band_setup has unknown params")
      >> do
        least ← min_width_of (get "min_width_atr" m)
        most ← max_width_of least (get "max_width_atr" m)
        timeframe ← timeframe_of m
        period ← positive_int (get_default "atr_period" (Json.int (pos 14)) m)
        ok (record {
          min_width = least;
          max_width = most;
          atr_timeframe = timeframe;
          atr_period = period;
        })

module _ {F : Type 0} ⦃f : Float F⦄ where
  abbrev pub above : Option F → F → Bool
  above none width = false
  above (some most) width = f.lt most width

  -- The masks of the band, of a width.
  abbrev band_row : WidthBandParams F → F → BandRow F
  band_row p width = record {
    allowed = f.is_finite width && not (f.lt width p.min_width) && not (above p.max_width width);
    blocked_reason =
        if not (f.is_finite width)
        then BandReason.indicator_not_ready
        else (if f.lt width p.min_width
            then BandReason.width_below_min
            else (if above p.max_width width
                then BandReason.width_above_max
                else BandReason.inside));
    width = width;
  }

-- `_band_width` and the band on bar `i`; `one` is the float that replaces a missing ATR.
module _ {F : Type 0} ⦃f : Float F⦄ (one : F) (p : WidthBandParams F) (s : Averages F) (i : ℕ) where
  abbrev pub width_ready : Bool
  width_ready =
      f.is_finite (s.fast i)
      && f.is_finite (s.slow i)
      && f.is_finite (s.atr i)
      && f.lt f.nought (s.atr i)

  unfoldable pub band_width : F
  band_width =
      let safe_atr = if width_ready then s.atr i else one in
      if width_ready then f.div (f.abs (f.sub (s.fast i) (s.slow i))) safe_atr else f.nan

  unfoldable pub anchor_stack_width_band : BandRow F
  anchor_stack_width_band = band_row p band_width

  -- The vectorised width is the width of the loop of `_anchor_stack_width_prefix`.
  pub band_width_lem : band_width ≡ width_atr s i
  unfolding band_width
  band_width_lem = ground arith
