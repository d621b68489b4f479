-- ===== src/Width/Inside.antt =====
-- Which bars the band of src/strategy_engine/strategies/ema_pullback/setups.py lets through, and what
-- its parser (raw_spec_identity.py beside it) leaves.
use Prim.Native.String.{String}
use strategy_engine.Prelude.{ℕ, ◌≡◌, ◌<◌, ◌↔◌, refl, arith, true, false, any, Option, none, some}
use strategy_engine.Prelude.Int.{ℤ, pos}
use strategy_engine.Float.{Float, IsOrdered}
use strategy_engine.Json.{Json, Fields, get, get_default, keys, positive_int}
use strategy_engine.Result.{Result, Ensures, Ensures->>=, Ensures-raise_if, Ensures-weaken}
use strategy_engine.Width.Setup.{Averages, width_atr}
use strategy_engine.Width.Band.{
  WidthBandParams, max_width_of, BandReason, band_width_lem, band_number, timeframe_of,
  parse_width_band_params, min_width_of, above, finite_number, anchor_stack_width_band, unknown_key,
}

module _ {F : Type 0} ⦃f : Float F⦄ where
  -- What the parser leaves of a band: finite bounds in order, the lower one above zero.
  abbrev pub IsAtLeast : F → Option F → Type 0
  IsAtLeast least none = Unit
  IsAtLeast least (some most) = (f.is_finite most ≡ true) × (f.le least most ≡ true)

  abbrev pub AtMost : F → Option F → Type 0
  AtMost width none = Unit
  AtMost width (some most) = f.le width most ≡ true

  -- The width of a bar is a number between the bounds.
  abbrev pub InBand : WidthBandParams F → F → Type 0
  InBand p width =
      (f.is_finite width ≡ true) × (f.le p.min_width width ≡ true) × AtMost width p.max_width

  pub record IsBand (p : WidthBandParams F) : Type 0 where
    pub finite : f.is_finite p.min_width ≡ true
    pub positive : f.lt f.nought p.min_width ≡ true
    pub ordered : IsAtLeast p.min_width p.max_width
    pub period : 0 < p.atr_period

  module _ (order : IsOrdered F) (zero_number : f.le f.nought f.nought ≡ true)
      (of_int : ℤ → Option F) where
    finite_number-Ensures : (x : F) → Ensures (λ y. f.is_finite y ≡ true) (finite_number of_int x)
    finite_number-Ensures x = ground arith

    band_number-Ensures : (v : Json F) → Ensures (λ y. f.is_finite y ≡ true) (band_number of_int v)
    band_number-Ensures (Json.float x) = finite_number-Ensures x
    band_number-Ensures (Json.int n) = ground arith
    band_number-Ensures Json.null = tt
    band_number-Ensures (Json.bool b) = tt
    band_number-Ensures (Json.str t) = tt
    band_number-Ensures (Json.arr xs) = tt
    band_number-Ensures (Json.obj m) = tt

    above_not_lt :
        (x y : F) → f.is_finite x ≡ true → f.is_finite y ≡ true → f.lt x y ≡ false → f.le y x ≡ true
    above_not_lt x y hx hy h =
        ground (
          arith,
          order.lt-eq-not_le x y (order.number_of_finite x hx) (order.number_of_finite y hy),
        )

    min_width_of-Ensures :
        (o : Option (Json F))
        → Ensures (λ x. (f.is_finite x ≡ true) × (f.lt f.nought x ≡ true)) (min_width_of of_int o)
    min_width_of-Ensures none = tt
    min_width_of-Ensures (some v) =
        Ensures->>= _ _ (band_number of_int v) _ (band_number-Ensures v) λ x h.
          ground (arith, order.lt-eq-not_le f.nought x zero_number (order.number_of_finite x h))

    max_width_of-Ensures :
        (least : F) (o : Option (Json F))
        → f.is_finite least ≡ true
        → Ensures (IsAtLeast least) (max_width_of of_int least o)
    max_width_of-Ensures least none hl = tt
    max_width_of-Ensures least (some v) hl =
        Ensures->>= _ _ (band_number of_int v) _ (band_number-Ensures v)
          λ x h. ground (arith, above_not_lt x least h hl)

    any_text-Ensures : (m : Result String) → Ensures (λ (t : String). Unit {0}) m
    any_text-Ensures m = ground arith

    positive_int-Ensures : (v : Json F) → Ensures (λ n. 0 < n) (positive_int v)
    positive_int-Ensures v = ground arith

    parse_width_band_params-IsBand :
        (m : Fields F) → Ensures IsBand (parse_width_band_params of_int m)
    unfolding parse_width_band_params
    parse_width_band_params-IsBand m = Ensures-raise_if _ (any unknown_key (keys m)) _ _ λ known.
        Ensures->>= _ _ (min_width_of of_int (get "min_width_atr" m)) _
          (min_width_of-Ensures (get "min_width_atr" m))
          λ least (hl, hp).
            Ensures->>= _ _ (max_width_of of_int least (get "max_width_atr" m)) _
              (max_width_of-Ensures least (get "max_width_atr" m) hl)
              λ most hm.
                Ensures->>= _ _ (timeframe_of of_int m) _ (any_text-Ensures (timeframe_of of_int m))
                  λ t _.
                    Ensures->>= _ _ (positive_int (get_default "atr_period" (Json.int (pos 14)) m))
                      _ (positive_int-Ensures (get_default "atr_period" (Json.int (pos 14)) m))
                      λ n hn. record { finite = hl; positive = hp; ordered = hm; period = hn }

    module _ (missing : f.is_finite f.nan ≡ false) (one : F) (p : WidthBandParams F)
        (s : Averages F) (i : ℕ) where
      abbrev width : F
      width = width_atr s i

      not_above :
          (o : Option F)
          → f.is_finite width ≡ true
          → IsAtLeast p.min_width o
          → (above o width ≡ false) ↔ AtMost width o
      not_above none h g = (λ _. tt, λ _. refl)
      not_above (some most) h (fin, le) =
          let law =
            order.lt-eq-not_le most width (order.number_of_finite most fin)
              (order.number_of_finite width h) in
          ground arith

      not_below :
          f.is_finite width ≡ true
          → f.is_finite p.min_width ≡ true
          → (f.lt width p.min_width ≡ false) ↔ (f.le p.min_width width ≡ true)
      not_below h g =
          let law =
            order.lt-eq-not_le width p.min_width (order.number_of_finite width h)
              (order.number_of_finite p.min_width g) in
          ground arith

      anchor_stack_width_band-InBand :
          IsBand p → ((anchor_stack_width_band one p s i).allowed ≡ true) ↔ InBand p width
      unfolding anchor_stack_width_band
      anchor_stack_width_band-InBand band = rw (band_width_lem one p s i) (
        (λ h.
            let fin : f.is_finite width ≡ true = ground arith in
            (
              fin,
              (not_below fin band.finite).0 (ground arith),
              (not_above p.max_width fin band.ordered).0 (ground arith),
            )),
        λ (fin, lo, hi).
            let b = (not_below fin band.finite).1 lo in
            let a = (not_above p.max_width fin band.ordered).1 hi in rw (fin, b, a) refl,
      )

      inside_iff :
          ((anchor_stack_width_band one p s i).allowed ≡ true)
          ↔ ((anchor_stack_width_band one p s i).blocked_reason ≡ BandReason.inside)
      unfolding anchor_stack_width_band
      inside_iff = ground arith

    -- For comparisons with the laws of `IsOrdered`, a zero that is a number and a NaN that is not
    -- finite: the parameters of the band setup are an error, or they are a positive lower bound,
    -- an upper bound that is at least as large or none, and a positive period, and the setup
    -- allows a bar exactly if the width that the width setup computes there is finite and between
    -- the bounds, both included; and exactly then it gives no reason to block.
    pub parse_width_band_params-Ensures :
        (missing : f.is_finite f.nan ≡ false) (one : F) (s : Averages F) (m : Fields F)
        → Ensures
            (λ p.
              IsBand p
              × ((i : ℕ)
                  → (((anchor_stack_width_band one p s i).allowed ≡ true)
                      ↔ InBand p (width_atr s i))
                    × (((anchor_stack_width_band one p s i).allowed ≡ true) ↔ (
                        (anchor_stack_width_band one p s i).blocked_reason ≡ BandReason.inside))))
            (parse_width_band_params of_int m)
    parse_width_band_params-Ensures missing one s m =
        Ensures-weaken IsBand _ (parse_width_band_params of_int m)
          (parse_width_band_params-IsBand m)
          λ p band. (
            band,
            λ i. (
              anchor_stack_width_band-InBand missing one p s i band,
              inside_iff missing one p s i,
            ),
          )
