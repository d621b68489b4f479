-- ===== src/Predicate/History.antt =====
-- The rows of history that a predicate reads (`_predicate_history_base` of
-- src/strategy_engine/strategies/ema_pullback/live_calculation_requirements.py, where every operand
-- is a feature of the current bar), and that a mask does not change when earlier rows are dropped.
use strategy_engine.Prelude.{
  ℕ, zero, suc, ◌+◌, ◌-◌, ◌*◌, ◌≤◌, ◌<◌, ◌≡◌, refl, arith, ltb, ◌==◌, ◌&&◌, Option, none, some,
  if◌then◌else◌, ap, ap₂, ◌∙◌, sym, le→leb,
}
use strategy_engine.Float.{Float}
use strategy_engine.Numpy.{Cumsum, IsCumsum}
use strategy_engine.Predicate.Window.{count_from, window_count-whole}
use strategy_engine.Predicate.Evaluate.{
  Side, Mask, Condition, Mode, Plain, AnyPredicate, window_count, window_mask, state_mask,
  compare_by, shifted, evaluate_condition, evaluate_plain, evaluate_predicate,
}

-- A requirement in bars of a timeframe with `ratio` base rows per bar.
pub record HistoryRequirement : Type 0 where
  pub ratio : ℕ
  pub bars : ℕ

abbrev pub rows : HistoryRequirement → ℕ
rows r = r.bars * r.ratio

-- The same series without its first `d` rows.
abbrev pub drop_series {ℓ} : {A : Type ℓ} → ℕ → (ℕ → A) → ℕ → A
drop_series d x j = x (d + j)

module _ {F : Type 0} where
  -- The long condition decides: a short override has the same class.
  unfoldable pub plain_history : Plain F → HistoryRequirement
  plain_history (Plain.predicate (Condition.change operand lookback ratio op value) on_short) =
      record { ratio = ratio; bars = lookback }
  plain_history _ = record { ratio = 1; bars = 0 }

  unfoldable pub predicate_history : AnyPredicate F → HistoryRequirement
  predicate_history (AnyPredicate.plain p) = plain_history p
  predicate_history (AnyPredicate.temporal mode bars p) = record {
    ratio = (plain_history p).ratio;
    bars = bars - 1 + (plain_history p).bars;
  }

  abbrev pub drop_condition : ℕ → Condition F → Condition F
  drop_condition d (Condition.compare_op left op right) =
      Condition.compare_op (drop_series d left) op (drop_series d right)
  drop_condition d (Condition.range operand min max exclusive empty_pass) =
      Condition.range (drop_series d operand) min max exclusive empty_pass
  drop_condition d (Condition.change operand lookback ratio op value) =
      Condition.change (drop_series d operand) lookback ratio op value

  abbrev pub drop_plain : ℕ → Plain F → Plain F
  drop_plain d (Plain.predicate on_long none) = Plain.predicate (drop_condition d on_long) none
  drop_plain d (Plain.predicate on_long (some on_short)) =
      Plain.predicate (drop_condition d on_long) (some (drop_condition d on_short))
  drop_plain d (Plain.state output regimes) =
      Plain.state
        (record {
          up = drop_series d output.up;
          down = drop_series d output.down;
          neutral = drop_series d output.neutral;
        })
        regimes

  abbrev pub drop_predicate : ℕ → AnyPredicate F → AnyPredicate F
  drop_predicate d (AnyPredicate.plain p) = AnyPredicate.plain (drop_plain d p)
  drop_predicate d (AnyPredicate.temporal mode bars p) =
      AnyPredicate.temporal mode bars (drop_plain d p)

  -- The rows of one condition.
  abbrev condition_rows : Condition F → ℕ
  condition_rows (Condition.change operand lookback ratio op value) = lookback * ratio
  condition_rows _ = 0

  abbrev ratio_of : Condition F → ℕ
  ratio_of (Condition.change operand lookback ratio op value) = ratio
  ratio_of _ = 1

  -- What the parser makes sure of: the short condition of a predicate reads as far back as its long
  -- one, the ratio of a timeframe is positive, and so is a temporal window.
  abbrev pub IsParsedPlain : Plain F → Type 0
  IsParsedPlain (Plain.predicate on_long none) = 0 < ratio_of on_long
  IsParsedPlain (Plain.predicate on_long (some on_short)) =
      (0 < ratio_of on_long) × (condition_rows on_short ≡ condition_rows on_long)
  IsParsedPlain (Plain.state output regimes) = Unit {0}

  abbrev pub IsParsed : AnyPredicate F → Type 0
  IsParsed (AnyPredicate.plain p) = IsParsedPlain p
  IsParsed (AnyPredicate.temporal mode bars p) = (0 < bars) × IsParsedPlain p

  rows-plain_history :
      (on_long : Condition F) (on_short : Option (Condition F))
      → rows (plain_history (Plain.predicate on_long on_short)) ≡ condition_rows on_long
  unfolding plain_history
  rows-plain_history (Condition.compare_op left op right) on_short = omega arith
  rows-plain_history (Condition.range operand min max exclusive empty_pass) on_short = omega arith
  rows-plain_history (Condition.change operand lookback ratio op value) on_short = refl

module _ (cumsum : Cumsum) (laws : IsCumsum cumsum) (d : ℕ) where
  count_from-drop :
      (inner inner' : Mask) (start count : ℕ)
      → ((k : ℕ) → start ≤ k → inner' k ≡ inner (d + k))
      → count_from inner' start count ≡ count_from inner (d + start) count
  count_from-drop inner inner' start zero h = refl
  count_from-drop inner inner' start (suc count) h =
      let e : d + (start + count) ≡ d + start + count = omega arith in
      ap₂ (λ n b. n + (if b then 1 else 0)) (count_from-drop inner inner' start count h)
        (h (start + count) (omega arith) ∙ ap inner e)

  window_mask-drop :
      (mode : Mode) (bars : ℕ) (inner inner' : Mask) (j : ℕ)
      → bars ≤ j + 1
      → ((k : ℕ) → j + 1 ≤ k + bars → inner' k ≡ inner (d + k))
      → window_mask cumsum mode bars inner' j ≡ window_mask cumsum mode bars inner (d + j)
  unfolding window_mask
  window_mask-drop mode bars inner inner' j le h = by_mode mode
    where
      same : window_count cumsum bars inner' j ≡ window_count cumsum bars inner (d + j)
      same =
          let e : d + (j + 1 - bars) ≡ d + j + 1 - bars = omega arith in
          window_count-whole cumsum laws bars inner' j le
          ∙ count_from-drop inner inner' (j + 1 - bars) bars (λ k l. h k (omega arith))
          ∙ ap (λ n. count_from inner n bars) e
          ∙ sym (window_count-whole cumsum laws bars inner (d + j) (omega arith))

      by_mode :
          (mode : Mode)
          → window_mask cumsum mode bars inner' j ≡ window_mask cumsum mode bars inner (d + j)
      by_mode Mode.held_for = ap (λ n. n == bars) same
      by_mode Mode.within = ap (λ n. ltb 0 n) same

scale_le : (a b r : ℕ) → 0 < r → a + b * r ≤ (a + b) * r
scale_le a b r h = grind arith

module _ {F : Type 0} ⦃f : Float F⦄ (cumsum : Cumsum) (laws : IsCumsum cumsum) (d : ℕ) where
  shifted-drop :
      (x : ℕ → F) (shift j : ℕ)
      → shift ≤ j
      → shifted (drop_series d x) shift j ≡ shifted x shift (d + j)
  shifted-drop x shift j h =
      let e : d + (j - shift) ≡ d + j - shift = omega arith in
      let le : shift ≤ d + j = omega arith in
      rw (le→leb shift j h, le→leb shift (d + j) le) (ap x e)

  condition-drop :
      (c : Condition F) (j : ℕ)
      → condition_rows c ≤ j
      → evaluate_condition (drop_condition d c) j ≡ evaluate_condition c (d + j)
  unfolding evaluate_condition
  condition-drop (Condition.compare_op left op right) j h = refl
  condition-drop (Condition.range operand min max exclusive empty_pass) j h = refl
  condition-drop (Condition.change operand lookback ratio op value) j h =
      ap
        (λ earlier.
          f.is_finite (operand (d + j))
          && f.is_finite earlier
          && compare_by op (f.sub (operand (d + j)) earlier) value)
        (shifted-drop operand (lookback * ratio) j h)

  plain-drop :
      (p : Plain F) (side : Side) (j : ℕ)
      → IsParsedPlain p
      → rows (plain_history p) ≤ j
      → evaluate_plain (drop_plain d p) side j ≡ evaluate_plain p side (d + j)
  unfolding evaluate_plain plain_history state_mask
  plain-drop (Plain.predicate on_long none) Side.long j v h =
      condition-drop on_long j (omega (arith, rows-plain_history on_long none))
  plain-drop (Plain.predicate on_long none) Side.short j v h =
      condition-drop on_long j (omega (arith, rows-plain_history on_long none))
  plain-drop (Plain.predicate on_long (some on_short)) Side.long j v h =
      condition-drop on_long j (omega (arith, rows-plain_history on_long (some on_short)))
  plain-drop (Plain.predicate on_long (some on_short)) Side.short j v h =
      condition-drop on_short j (omega (arith, v.1, rows-plain_history on_long (some on_short)))
  plain-drop (Plain.state output regimes) side j v h = refl

  ratio_pos : (p : Plain F) → IsParsedPlain p → 0 < (plain_history p).ratio
  unfolding plain_history
  ratio_pos (Plain.predicate (Condition.compare_op left op right) on_short) v = omega arith
  ratio_pos (Plain.predicate (Condition.range operand min max exclusive empty_pass) on_short) v =
      omega arith
  ratio_pos (Plain.predicate (Condition.change operand lookback ratio op value) none) v = v
  ratio_pos (Plain.predicate (Condition.change operand lookback ratio op value) (some on_short)) v =
      v.0
  ratio_pos (Plain.state output regimes) v = omega arith

  -- With the documented `np.cumsum`, the history requirement of a parsed predicate is enough:
  -- without any number of rows at the start of its series, its mask is the same on every bar that
  -- has the required rows before it.
  pub evaluate_predicate-drop :
      (p : AnyPredicate F) (side : Side) (j : ℕ)
      → IsParsed p
      → rows (predicate_history p) ≤ j
      → evaluate_predicate cumsum (drop_predicate d p) side j
        ≡ evaluate_predicate cumsum p side (d + j)
  unfolding evaluate_predicate predicate_history
  evaluate_predicate-drop (AnyPredicate.plain p) side j v h = plain-drop p side j v h
  evaluate_predicate-drop (AnyPredicate.temporal mode bars p) side j v h =
      let r = ratio_pos p v.1 in
      let whole : bars - 1 + (plain_history p).bars * (plain_history p).ratio ≤ j =
        omega (arith, h, scale_le (bars - 1) (plain_history p).bars (plain_history p).ratio r) in
      window_mask-drop cumsum laws d mode bars (evaluate_plain p side)
        (evaluate_plain (drop_plain d p) side) j (omega arith)
        (λ k l. plain-drop p side k v.1 (omega arith))
