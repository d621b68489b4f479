-- ===== src/Bounce/Tests.antt =====
-- Bounces on whole ticks: fast over anchor over slow on every bar, and a touch of the anchor on bar 2.
use strategy_engine.Prelude.{
  ℕ, ◌+◌, ◌<◌, ◌≤◌, ◌≡◌, refl, arith, true, none, some, if◌then◌else◌, ◌==◌, ◌⊎◌, inl, inr, subst,
  sym,
}
use strategy_engine.Prelude.Int.{pos}
use strategy_engine.Float.Grid.{Grid, grid_float, tick}
use strategy_engine.Result.{ok}
use strategy_engine.Bounce.Step.{
  Params, Side, Bars, Signals, ema_bounce_counter_params, signals, complete_due, active_trend,
  idle_trend, begins_bounce, open_bounce, row_of, active_bar, idle_bar, bounce_bar, counter_at,
  row_at,
}
use strategy_engine.Bounce.Invariant.{IsRow, row_at-IsRow}
use strategy_engine.Bounce.Window.{IsOpenRow, row_at-bounce}

abbrev params : Params
params = record { max_bounces = 3; touch_lookback = 2; start_confirm = 1; break_confirm = 1 }

params_of_request : ema_bounce_counter_params none (some (pos 2)) none none true ≡ ok params
unfolding ema_bounce_counter_params
params_of_request = refl

abbrev bars : Bars Grid
bars = record {
  fast = λ i. tick 20;
  anchor = λ i. tick 10;
  slow = λ i. tick 5;
  close = λ i. tick 12;
  low = λ i. if i == 2 then tick 9 else tick 11;
  high = λ i. tick 13;
}

abbrev series : ℕ → Signals
series i = signals Side.long bars i

row_at-IsRow_example : IsRow params (row_at params series 3)
row_at-IsRow_example = row_at-IsRow params (omega arith) series 3

trending : (k : ℕ) → 2 < k → k ≤ 2 + 2 → (row_at params series k).trend_active ≡ true
unfolding row_at counter_at bounce_bar active_bar idle_bar row_of open_bounce begins_bounce
    active_trend idle_trend complete_due signals
trending k l u = at_bar k (ground arith)
  where
    at_bar : (k : ℕ) → (k ≡ 3) ⊎ (k ≡ 4) → (row_at params series k).trend_active ≡ true
    at_bar k (inl e) = subst (λ m. (row_at params series m).trend_active ≡ true) (sym e) refl
    at_bar k (inr e) = subst (λ m. (row_at params series m).trend_active ≡ true) (sym e) refl

row_at-bounce_example :
    ((j : ℕ) → j < 2 → IsOpenRow 3 0 (2 + j) (row_at params series (2 + j)))
    × ((row_at params series 4).completed_bounce_count ≡ 1)
unfolding row_at counter_at bounce_bar active_bar idle_bar row_of open_bounce begins_bounce
    active_trend idle_trend complete_due signals
row_at-bounce_example = row_at-bounce params series 2 (omega arith) refl trending
