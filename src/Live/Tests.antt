-- ===== src/Live/Tests.antt =====
-- A plan with an hourly indicator and a requirement of four base bars.
use Prim.Native.String.{String}
use strategy_engine.Prelude.{◌*◌, ◌≡◌, refl, List, [], ◌∷◌}
use strategy_engine.Prelude.Int.{pos, ◌-ℤ◌}
use strategy_engine.Result.{ok}
use strategy_engine.Market.Timeframe.{int_of, timeframe_duration_ms, is_timeframe}
use strategy_engine.Live.Multiple.{gcd, lcm}
use strategy_engine.Live.Window.{
  HistoryRequirement, PlannedHistoryStart, span_ms, winner, htf_durations, align_to_htf_buckets,
  execute,
}
use strategy_engine.Live.Aligned.{IsStart, execute-IsStart}

abbrev warm_up : HistoryRequirement
warm_up = record { timeframe = "1h"; bars = 1 }

abbrev lookback : HistoryRequirement
lookback = record { timeframe = "base"; bars = 4 }

abbrev features : List String
features = "base" ∷ "1h" ∷ []

abbrev plan : PlannedHistoryStart
plan = record {
  from_ms = pos 3_600_000;
  winning_indicator = warm_up;
  winning_strategy = lookback;
  requirements = warm_up ∷ lookback ∷ [];
}

planned : execute (warm_up ∷ []) (lookback ∷ []) features "1m" (pos (150 * 60_000)) ≡ ok plan
unfolding execute winner span_ms align_to_htf_buckets htf_durations timeframe_duration_ms int_of lcm
    gcd ◌-ℤ◌
planned = refl

execute-IsStart_example :
    (p : PlannedHistoryStart) × (execute
        (warm_up ∷ [])
        (lookback ∷ [])
        features
        "1m"
        (pos (150 * 60_000))
      ≡ ok p)
    × IsStart (warm_up ∷ []) (lookback ∷ []) features "1m" (pos (150 * 60_000)) p
unfolding is_timeframe
execute-IsStart_example =
    execute-IsStart (warm_up ∷ []) (lookback ∷ []) features "1m" (pos (150 * 60_000)) refl
      (refl, tt) (refl, tt) (refl, (refl, tt))
