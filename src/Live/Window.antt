-- ===== src/Live/Window.antt =====
-- `PlanLiveHistoryStart` (src/strategy_engine/strategies/live_calculation/plan_window.py). The
-- requirements of the indicators and of the strategy are its inputs, and so are the timeframes of the
-- planned features. The number of bars of a requirement is not negative.
use Prim.Native.String.{String}
use text.Mathlib.Text.{◌==◌ as str_eq}
use strategy_engine.Prelude.{
  ℕ, suc, ◌+◌, ◌-◌, ◌*◌, ◌/◌, ltb, ◌==◌, List, [], ◌∷◌, ◌++◌, any, if◌then◌else◌,
}
use strategy_engine.Prelude.Int.{ℤ, pos, negsuc, ◌-ℤ◌}
use strategy_engine.Result.{Result, ok, ◌>>=◌, each}
use strategy_engine.Market.Timeframe.{timeframe_duration_ms}
use strategy_engine.Live.Multiple.{lcm}

pub record HistoryRequirement : Type 0 where
  pub timeframe : String
  pub bars : ℕ

pub record PlannedHistoryStart : Type 0 where
  pub from_ms : ℤ
  pub winning_indicator : HistoryRequirement
  pub winning_strategy : HistoryRequirement
  pub requirements : List HistoryRequirement

abbrev pub resolve_timeframe : String → String → String
resolve_timeframe timeframe base = if str_eq timeframe "base" then base else timeframe

unfoldable pub span_ms : HistoryRequirement → String → Result ℕ
span_ms r base = timeframe_duration_ms (resolve_timeframe r.timeframe base) >>= λ d. ok (r.bars * d)

-- Python's `max` with the span as its key: the first of the largest.
abbrev pub best :
    String → List HistoryRequirement → HistoryRequirement → ℕ → Result HistoryRequirement
best base [] found span = ok found
best base (r ∷ rs) found span = span_ms r base >>= λ s.
    best base rs (if ltb span s then r else found) (if ltb span s then s else span)

unfoldable pub winner : List HistoryRequirement → String → Result HistoryRequirement
winner [] base = ok (record { timeframe = "base"; bars = 0 })
winner (r ∷ rs) base = span_ms r base >>= λ s. best base rs r s

-- `a // b` and `a * b` of an integer and a positive number.
abbrev pub floor_div : ℤ → ℕ → ℤ
floor_div (pos a) b = pos (a / b)
floor_div (negsuc a) b = negsuc (a / b)

abbrev pub times : ℤ → ℕ → ℤ
times (pos a) b = pos (a * b)
times (negsuc a) b = negsuc (suc a * b - 1)

abbrev pub floor_to : ℤ → ℕ → ℤ
floor_to a b = times (floor_div a b) b

-- The set of the values of a list.
abbrev pub put : ℕ → List ℕ → List ℕ
put d ds = if any (λ e. d == e) ds then ds else d ∷ ds

abbrev pub set_of : List ℕ → List ℕ
set_of [] = []
set_of (d ∷ ds) = put d (set_of ds)

-- The resolved timeframes of the features that are not the base one.
abbrev pub higher : String → List String → List String
higher base [] = []
higher base (t ∷ ts) =
    let rest = higher base ts in
    if str_eq (resolve_timeframe t base) base then rest else resolve_timeframe t base ∷ rest

unfoldable pub htf_durations : List String → String → Result (List ℕ)
htf_durations features base =
    each timeframe_duration_ms (higher base features) >>= λ ds. ok (set_of ds)

-- `math.lcm` over the durations; a set has no order, and neither has the multiple.
abbrev pub alignment : List ℕ → ℕ → ℕ
alignment [] m = m
alignment (d ∷ ds) m = alignment ds (lcm m d)

abbrev pub align_to : ℤ → List ℕ → String → Result ℤ
align_to candidate [] base =
    timeframe_duration_ms base >>= λ base_duration. ok (floor_to candidate base_duration)
align_to candidate (d ∷ ds) base = timeframe_duration_ms base >>= λ base_duration.
    ok (floor_to candidate (alignment (d ∷ ds) base_duration))

unfoldable pub align_to_htf_buckets : ℤ → List String → String → Result ℤ
align_to_htf_buckets candidate features base =
    htf_durations features base >>= λ durations. align_to candidate durations base

unfoldable pub execute :
    (indicator_reqs strategy_reqs : List HistoryRequirement) (features : List String)
    (base_timeframe : String) (history_anchor_open_time_ms : ℤ)
    → Result PlannedHistoryStart
execute indicator_reqs strategy_reqs features base anchor =
    winner indicator_reqs base >>= λ winning_indicator.
    winner strategy_reqs base >>= λ winning_strategy.
    span_ms winning_indicator base >>= λ indicator_span.
    span_ms winning_strategy base >>= λ strategy_span.
    align_to_htf_buckets (anchor -ℤ pos (indicator_span + strategy_span)) features base
    >>= λ from_ms. ok (record {
      from_ms = from_ms;
      winning_indicator = winning_indicator;
      winning_strategy = winning_strategy;
      requirements = indicator_reqs ++ strategy_reqs;
    })
