-- ===== src/Managed/Stops.antt =====
-- The stop, take and runtime rules of the managed-exit replay
-- (src/strategy_engine/strategies/ema_pullback/managed.py).
use Prim.Native.String.{String}
use text.Mathlib.Text.{◌==◌ as str_eq}
use strategy_engine.Prelude.{
  ℕ, zero, suc, ◌+◌, ◌-◌, leb, Bool, true, false, ◌&&◌, Option, none, some, List, [], ◌∷◌, ◌++◌,
  if◌then◌else◌,
}
use strategy_engine.Float.{Float, max, min}
use strategy_engine.Result.{Result, ok, err, Error, ◌>>=◌}
use strategy_engine.Managed.Data.{
  Side, Series, State, InitialRStopFormula, StopComponent, StopRule, TakeRule, RuntimeComponent,
  Frame, Event, Replay,
}
use strategy_engine.Managed.Phases.{at_least, feature_value, mfe_in_r}

abbrev profile_of : String → String
profile_of action =
    if str_eq action "disable_fixed_tp"
    then "disable_initial_tp"
    else (if str_eq action "keep_initial" then "initial" else action)

-- `all(test(pos) for pos in range(start, start + count))`
abbrev all_from : (ℕ → Bool) → ℕ → ℕ → Bool
all_from test start zero = true
all_from test start (suc count) = test start && all_from test (suc start) count

-- The window of `confirm` bars that ends at `index`; it must begin at the evaluation's start.
abbrev confirmed : ℕ → ℕ → ℕ → (ℕ → Bool) → Bool
confirmed first index confirm test =
    leb (first + confirm) (index + 1) && all_from test (index + 1 - confirm) confirm

module _ {F : Type 0} ⦃f : Float F⦄ where
  -- A price `offset` beyond `base` on the winning side, and its opposite.
  abbrev pub ahead : Side → F → F → F
  ahead Side.long base offset = f.add base offset
  ahead Side.short base offset = f.sub base offset

  abbrev pub behind : Side → F → F → F
  behind Side.long base offset = f.sub base offset
  behind Side.short base offset = f.add base offset

  abbrev r_stop_price : InitialRStopFormula → State F → F → F
  r_stop_price InitialRStopFormula.initial_r_lock s offset = ahead s.side s.entry_price offset
  r_stop_price InitialRStopFormula.initial_r_trail s offset = behind s.side s.mfe_price offset

  -- `_initial_r_stop_candidate`
  abbrev r_stop_triggered : InitialRStopFormula → F → F → State F → Option F → Option F → Option F
  r_stop_triggered formula trigger_r action_r s (some risk) (some mfe_r) =
      if f.lt mfe_r trigger_r then none else some (r_stop_price formula s (f.mul action_r risk))
  r_stop_triggered formula trigger_r action_r s _ _ = none

  unfoldable pub initial_r_stop_candidate : InitialRStopFormula → F → F → State F → Option F
  initial_r_stop_candidate formula trigger_r action_r s =
      r_stop_triggered formula trigger_r action_r s s.risk (mfe_in_r s s.risk)

  abbrev atr_stop : F → State F → Option F → Option F
  atr_stop multiple s none = none
  atr_stop multiple s (some atr) = some (ahead s.side s.entry_price (f.mul multiple atr))

  -- The candidate price of one stop component; `none` skips the rule.
  unfoldable pub stop_price : ℕ → ℕ → StopComponent F → State F → Result (Option F)
  stop_price size index (StopComponent.break_even_price buffer) s =
      ok (some (ahead s.side s.entry_price buffer))
  stop_price size index (StopComponent.break_even_atr multiple atr) s =
      ok (atr_stop multiple s (feature_value size atr index))
  stop_price size index (StopComponent.lock_profit_stop multiple atr) s =
      ok (atr_stop multiple s (feature_value size atr index))
  stop_price size index (StopComponent.initial_r_stop formula trigger_r action_r) s =
      ok (initial_r_stop_candidate formula trigger_r action_r s)
  stop_price size index StopComponent.unsupported s =
      err (Error.invalid_request "unsupported stop management component")

  abbrev keep_price : String → Option F → List (F × String) → List (F × String)
  keep_price rule_id none rest = rest
  keep_price rule_id (some price) rest = (price, rule_id) ∷ rest

  -- The candidates of the rules that the phase of the state activates, in the order of the rules.
  unfoldable pub candidates : ℕ → ℕ → State F → List (StopRule F) → Result (List (F × String))
  candidates size index s [] = ok []
  candidates size index s (rule ∷ rules) =
      let rest = candidates size index s rules in
      if at_least s.phase rule.phase_at_least
      then (stop_price size index rule.component s >>= λ price.
          rest >>= λ found. ok (keep_price rule.rule_id price found))
      else rest

  -- A price is strictly closer to profit: above for a long, below for a short.
  abbrev pub closer : Side → F → F → Bool
  closer Side.long price than = f.lt than price
  closer Side.short price than = f.lt price than

  -- `max(candidates, key=price)` for a long and `min` for a short: the first of the best.
  abbrev pub best_of : Side → F × String → List (F × String) → F × String
  best_of side chosen [] = chosen
  best_of side chosen (c ∷ cs) = best_of side (if closer side c.0 chosen.0 then c else chosen) cs

  -- `max(active_stop, chosen)` for a long and `min` for a short.
  abbrev pub tightest : Side → F → F → F
  tightest Side.long active chosen = max active chosen
  tightest Side.short active chosen = min active chosen

  unfoldable pub set_stop : ℕ → F → String → Replay F → Replay F
  set_stop index price rule_id r = record r {
    state = record r.state { active_stop_price = some price; active_stop_rule_id = some rule_id };
    events = r.events ++ (Event.active_stop_updated index rule_id price ∷ []);
  }

  abbrev pub move_stop : F → ℕ → Option F → F × String → Replay F → Replay F
  move_stop tolerance index none chosen r = set_stop index chosen.0 chosen.1 r
  move_stop tolerance index (some active) chosen r =
      let tightened = tightest r.state.side active chosen.0 in
      if f.lt tolerance (f.abs (f.sub tightened active))
      then set_stop index tightened chosen.1 r
      else r

  abbrev pub apply_candidates : F → ℕ → List (F × String) → Replay F → Replay F
  apply_candidates tolerance index [] r = r
  apply_candidates tolerance index (c ∷ cs) r =
      move_stop tolerance index r.state.active_stop_price (best_of r.state.side c cs) r

  unfoldable pub update_stop : Frame F → ℕ → List (StopRule F) → Replay F → Result (Replay F)
  update_stop frame index rules r = candidates frame.size index r.state rules >>= λ found.
      ok (apply_candidates frame.tolerance index found r)

  unfoldable pub set_take : ℕ → TakeRule → Replay F → Replay F
  set_take index rule r =
      let profile = profile_of rule.action in
      if str_eq profile r.state.active_take_profile then r else record r {
        state = record r.state {
          active_take_profile = profile;
          active_take_rule_id = some rule.rule_id;
        };
        events = r.events ++ (Event.active_take_updated index rule.rule_id profile ∷ []);
      }

  unfoldable pub take_step : ℕ → TakeRule → Replay F → Result (Replay F)
  take_step index rule r =
      if at_least r.state.phase rule.phase_at_least
      then (if str_eq rule.component_id "take_profile_switch"
          then ok (set_take index rule r)
          else err (Error.invalid_request "unsupported take management component"))
      else ok r

  abbrev rsi_beyond : Side → F → Option F → Bool
  rsi_beyond side boundary none = false
  rsi_beyond Side.long boundary (some value) = f.le boundary value
  rsi_beyond Side.short boundary (some value) = f.le value boundary

  abbrev threshold_of : Side → Option F → Option F → Option F
  threshold_of Side.long above below = above
  threshold_of Side.short above below = below

  abbrev rsi_signal : Side → Option F → Series F → ℕ → ℕ → ℕ → Bool
  rsi_signal side none values first index confirm = false
  rsi_signal side (some boundary) values first index confirm =
      confirmed first index confirm (λ pos. rsi_beyond side boundary (values pos))

  abbrev crossed : Side → Option F → Option F → Bool
  crossed Side.long (some fast) (some slow) = f.le fast slow
  crossed Side.short (some fast) (some slow) = f.le slow fast
  crossed side _ _ = false

  -- `_runtime_signal`
  unfoldable pub runtime_signal : ℕ → ℕ → RuntimeComponent F → State F → Result Bool
  runtime_signal first index (RuntimeComponent.phase_runtime_exit exit_price) s =
      ok (str_eq exit_price "close")
  runtime_signal first index (RuntimeComponent.rsi_signal_exit confirm rsi above below) s =
      ok (rsi_signal s.side (threshold_of s.side above below) rsi first index confirm)
  runtime_signal first index (RuntimeComponent.ema_cross_loss_exit confirm fast slow) s =
      ok (confirmed first index confirm (λ pos. crossed s.side (fast pos) (slow pos)))
  runtime_signal first index (RuntimeComponent.unsupported confirm) s =
      if leb (first + confirm) (index + 1)
      then err (Error.invalid_request "unsupported runtime exit component")
      else ok false
