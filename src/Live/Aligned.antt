-- ===== src/Live/Aligned.antt =====
-- The planned start: before what every requirement needs, and on the grid of every timeframe.
use Prim.Native.String.{String}
use strategy_engine.Prelude.{
  ℕ, ◌+◌, ◌-◌, ◌≡◌, arith, true, false, List, [], ◌∷◌, ◌++◌, All, All-map,
}
use strategy_engine.Prelude.Int.{ℤ, pos, ◌+ℤ◌, ◌-ℤ◌, ◌≤ℤ◌}
use strategy_engine.Result.{ok}
use strategy_engine.Market.Timeframe.{timeframe_duration_ms, is_timeframe}
use strategy_engine.Market.Frame.{has_rest}
use strategy_engine.Live.Multiple.{Divides}
use strategy_engine.Live.Rounding.{
  Positive, floor_to-le, floor_to-ge, floor_to-on_grid, alignment-Divides, set_of-All, All-set_of,
}
use strategy_engine.Live.Resolved.{
  IsKnown, OnGrid, Within, duration_of, winner_lem, durations_lem, higher_lem, higher-All,
}
use strategy_engine.Live.Window.{
  HistoryRequirement, PlannedHistoryStart, resolve_timeframe, span_ms, floor_to, set_of, higher,
  htf_durations, alignment, align_to, align_to_htf_buckets, execute,
}

shift_le : (z from : ℤ) (s : ℕ) → from ≤ℤ z -ℤ pos s → from +ℤ pos s ≤ℤ z
unfolding ◌+ℤ◌ ◌-ℤ◌
shift_le z from s h = ground arith

shift_ge : (z from : ℤ) (s k : ℕ) → z -ℤ pos s ≤ℤ from +ℤ pos k → z ≤ℤ from +ℤ pos (s + k)
unfolding ◌+ℤ◌ ◌-ℤ◌
shift_ge z from s k h = ground arith

-- The start of a plan: the spans of the two winners are those of all requirements at most, the start
-- is before both together, by less than one common multiple of the durations, and on every grid.
pub record IsStart (indicator_reqs strategy_reqs : List HistoryRequirement) (features : List String)
    (base : String) (anchor : ℤ) (plan : PlannedHistoryStart) : Type 0 where
  pub indicator_span : ℕ
  pub strategy_span : ℕ
  pub indicator_largest : span_ms plan.winning_indicator base ≡ ok indicator_span
  pub strategy_largest : span_ms plan.winning_strategy base ≡ ok strategy_span
  pub indicators : All (Within base indicator_span) indicator_reqs
  pub strategies : All (Within base strategy_span) strategy_reqs
  pub before : plan.from_ms +ℤ pos (indicator_span + strategy_span) ≤ℤ anchor
  pub durations : List ℕ
  pub base_duration : ℕ
  pub base_lasts : timeframe_duration_ms base ≡ ok base_duration
  pub features_last : htf_durations features base ≡ ok durations
  pub close :
      anchor
      ≤ℤ plan.from_ms
        +ℤ pos (indicator_span + strategy_span + (alignment durations base_duration - 1))
  pub on_base_grid : OnGrid plan.from_ms base
  pub on_grids : All (λ t. OnGrid plan.from_ms (resolve_timeframe t base)) features

align_to_lem :
    (candidate : ℤ) (ds : List ℕ) (base : String) (base_duration : ℕ)
    → timeframe_duration_ms base ≡ ok base_duration
    → align_to candidate ds base ≡ ok (floor_to candidate (alignment ds base_duration))
align_to_lem candidate [] base d h = rw h
align_to_lem candidate (e ∷ ds) base d h = rw h

module _ (base : String) (features : List String) (candidate : ℤ) where
  -- The aligned start.
  abbrev Aligned : ℤ → Type 0
  Aligned z =
      (ds : List ℕ) × (base_duration : ℕ) × (timeframe_duration_ms base ≡ ok base_duration)
      × (htf_durations features base ≡ ok ds)
      × (z ≤ℤ candidate)
      × (candidate ≤ℤ z +ℤ pos (alignment ds base_duration - 1))
      × OnGrid z base
      × All (λ t. OnGrid z (resolve_timeframe t base)) features

  align_lem :
      is_timeframe base ≡ true
      → All (IsKnown base) features
      → (z : ℤ) × (align_to_htf_buckets candidate features base ≡ ok z) × Aligned z
  unfolding align_to_htf_buckets htf_durations
  align_lem h k =
      let d = duration_of base h in
      let r = durations_lem base (higher base features) (higher_lem base features k) in
      let a = alignment-Divides (set_of r.0) d.0 d.2 (All-set_of Positive r.0 r.2) in
      let m = alignment (set_of r.0) d.0 in
      let z = floor_to candidate m in
      let on_base : OnGrid z base = (d.0, d.1, floor_to-on_grid candidate d.0 m a.0 a.1) in
      let on_higher =
        r.3 (λ e. has_rest z e ≡ false)
          (All-map (λ e. Divides e m) (λ e. has_rest z e ≡ false)
            (λ e q. floor_to-on_grid candidate e m a.0 q) r.0
            (set_of-All (λ e. Divides e m) r.0 a.2)) in
      (
        z,
        rw (r.1) (align_to_lem candidate (set_of r.0) base d.0 d.1),
        (
          set_of r.0,
          d.0,
          d.1,
          rw (r.1),
          floor_to-le candidate m a.0,
          floor_to-ge candidate m a.0,
          on_base,
          higher-All base (OnGrid z) features on_base on_higher,
        ),
      )

-- With canonical timeframes the plan of a live history start is made, its winners have the largest
-- spans of the requirements, its start is at or before the anchor less both spans, by less than
-- one common multiple of the durations in use, and it lies on the grid of the base timeframe and
-- of every feature's timeframe.
pub execute-IsStart :
    (indicator_reqs strategy_reqs : List HistoryRequirement) (features : List String)
    (base : String) (anchor : ℤ)
    → is_timeframe base ≡ true
    → All (λ r. IsKnown base r.timeframe) indicator_reqs
    → All (λ r. IsKnown base r.timeframe) strategy_reqs
    → All (IsKnown base) features
    → (plan : PlannedHistoryStart) × (execute indicator_reqs strategy_reqs features base anchor
        ≡ ok plan)
      × IsStart indicator_reqs strategy_reqs features base anchor plan
unfolding execute
execute-IsStart indicator_reqs strategy_reqs features base anchor h hi hs hf =
    let i = winner_lem base indicator_reqs h hi in
    let s = winner_lem base strategy_reqs h hs in
    let a = align_lem base features (anchor -ℤ pos (i.1 + s.1)) h hf in
    (
      record {
        from_ms = a.0;
        winning_indicator = i.0;
        winning_strategy = s.0;
        requirements = indicator_reqs ++ strategy_reqs;
      },
      rw (i.2, s.2, i.3, s.3, a.1),
      record {
        indicator_span = i.1;
        strategy_span = s.1;
        indicator_largest = i.3;
        strategy_largest = s.3;
        indicators = i.4;
        strategies = s.4;
        before = shift_le anchor a.0 (i.1 + s.1) a.2.4;
        durations = a.2.0;
        base_duration = a.2.1;
        base_lasts = a.2.2;
        features_last = a.2.3;
        close = shift_ge anchor a.0 (i.1 + s.1) _ a.2.5;
        on_base_grid = a.2.6;
        on_grids = a.2.7;
      },
    )
