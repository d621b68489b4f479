-- ===== src/Managed/Replay.antt =====
-- `_evaluate_managed_replay_core` and the projection that starts after the entry bar
-- (src/strategy_engine/strategies/ema_pullback/managed.py).
use Prim.Native.String.{String}
use text.Mathlib.Text.{◌==◌ as str_eq}
use strategy_engine.Prelude.{
  ℕ, zero, suc, ◌+◌, ◌-◌, leb, ltb, Bool, true, false, ◌||◌, not, Option, none, some, [], ◌∷◌, ◌++◌,
  if◌then◌else◌,
}
use strategy_engine.Float.{Float}
use strategy_engine.Result.{Result, ok, err, Error, ◌>>=◌, ◌>>◌, raise_if}
use strategy_engine.Managed.Data.{Side, State, initial, RuntimeRule, Config, Frame, Event, Replay}
use strategy_engine.Managed.Phases.{
  at_least, for_each, update_extremes, phase_step, fold_composite_rules,
}
use strategy_engine.Managed.Stops.{update_stop, take_step, runtime_signal}

-- `frame.time_ms.index(time)`, by search from the first bar.
abbrev pub find_from : (ℕ → Bool) → ℕ → ℕ → Option ℕ
find_from test start zero = none
find_from test start (suc count) =
    let rest = find_from test (suc start) count in if test start then some start else rest

-- `StartAfterEntryManagedProjection`
pub record Projection (F D : Type 0) : Type 0 where
  pub replay : Replay F
  pub desired_stop_price : D
  pub desired_take_price : Option D

module _ {F : Type 0} ⦃f : Float F⦄ where
  abbrev pub arm : ℕ → F → RuntimeRule F → Bool → Replay F → Replay F
  arm index close rule false r = r
  arm index close rule true r = record r {
    state = record r.state {
      active_runtime_exit_rules = r.state.active_runtime_exit_rules ++ (rule.rule_id ∷ []);
    };
    events = r.events ++ (Event.runtime_exit_triggered index rule.rule_id close ∷ []);
  }

  unfoldable pub runtime_step : ℕ → ℕ → F → RuntimeRule F → Replay F → Result (Replay F)
  runtime_step first index close rule r =
      if at_least r.state.phase rule.phase_at_least
      then (runtime_signal first index rule.component r.state >>= λ fires.
          ok (arm index close rule fires r))
      else ok r

  abbrev pub disarm : Replay F → Replay F
  disarm r = record r { state = record r.state { active_runtime_exit_rules = [] } }

  abbrev pub observe : Frame F → ℕ → Replay F → Replay F
  observe frame index r = record r {
    state = update_extremes index (frame.high index) (frame.low index) r.state;
  }

  -- `ManagedBarDecision(...)` at the end of a bar
  unfoldable pub decide : ℕ → Replay F → Replay F
  decide index r = record r {
    bars =
        r.bars
        ++ (record {
          bar_index = index;
          phase = r.state.phase;
          bars_in_trade = r.state.bars_in_trade;
          mfe_pct = r.state.mfe_pct;
          mae_pct = r.state.mae_pct;
          active_stop_price = r.state.active_stop_price;
          active_take_profile = r.state.active_take_profile;
          runtime_exit_rule_ids = r.state.active_runtime_exit_rules;
        }
            ∷ []);
  }

  -- One bar of the replay's loop.
  unfoldable pub replay_bar : Config F → Frame F → ℕ → ℕ → Replay F → Result (Replay F)
  replay_bar config frame first index r =
      for_each (phase_step frame.size index) config.phase_rules (observe frame index r) >>= λ r1.
      update_stop frame index config.stop_rules r1 >>= λ r2.
      for_each (take_step index) config.take_rules r2 >>= λ r3.
      for_each (runtime_step first index (frame.close index)) config.runtime_rules (disarm r3)
      >>= λ r4. ok (decide index r4)

  -- `for index in range(index, index + count)`
  unfoldable pub replay_from : Config F → Frame F → ℕ → ℕ → ℕ → Replay F → Result (Replay F)
  replay_from config frame first index zero r = ok r
  replay_from config frame first index (suc count) r =
      replay_bar config frame first index r >>= λ r'.
      replay_from config frame first (suc index) count r'

  abbrev risk_of : F → Option F → Option F
  risk_of entry_price none = none
  risk_of entry_price (some stop) = some (f.abs (f.sub entry_price stop))

  -- The state before the first bar.
  unfoldable pub opening : Side → ℕ → F → ℕ → Option F → Replay F
  opening side entry_index entry_price offset initial_stop = record {
    state = record (initial side entry_index entry_price) {
      bars_in_trade = offset;
      active_stop_price = initial_stop;
      risk = risk_of entry_price initial_stop;
    };
    events = [];
    bars = [];
  }

  abbrev pub last_index : Frame F → Option ℕ → ℕ
  last_index frame none = frame.size - 1
  last_index frame (some target) = target

  -- The calculation on a bar that is found: `offset` is 0 or 1, as its two callers pass it.
  unfoldable pub managed_replay_core :
      Config F → Frame F → Side → (entry target : Option ℕ) → F → ℕ → Option F → Result (Replay F)
  managed_replay_core config frame side none target entry_price offset initial_stop =
      err (Error.invalid_request "entry_time_ms is not on the evaluation grid")
  managed_replay_core config frame side (some entry) target entry_price offset initial_stop =
      let last = last_index frame target in
      raise_if (f.le entry_price f.nought) (Error.invalid_request "entry_price must be positive")
      >> (raise_if (ltb last entry || leb frame.size last)
            (Error.invalid_request "target_index is outside the managed replay frame")
          >> (fold_composite_rules config.phase_rules
              >> replay_from config frame (entry + offset) (entry + offset)
                  (last + 1 - (entry + offset))
                  (opening side entry entry_price offset initial_stop)))

  -- `evaluate_managed_replay`: from the entry bar to the end of the frame.
  unfoldable pub managed_replay :
      Config F → Frame F → Side → (entry : Option ℕ) → F → Option F → Result (Replay F)
  managed_replay config frame side entry entry_price initial_stop =
      managed_replay_core config frame side entry none entry_price 0 initial_stop

  -- Decimals are the prices of the request: `to_float` is `float(d)`, and `of_float x` is
  -- `Decimal(str(x))`.
  module _ {D : Type 0} (positive : D → Bool) (to_float : D → F) (of_float : Option F → D) where
    abbrev pub desired_stop : D → Option String → Option F → D
    desired_stop initial_stop none active = initial_stop
    desired_stop initial_stop (some rule_id) active = of_float active

    abbrev pub desired_take : D → State F → Option D
    desired_take initial_take s =
        if str_eq s.active_take_profile "disable_initial_tp" then none else some initial_take

    abbrev pub projection_of : (stop take : D) → Replay F → Projection F D
    projection_of stop take r = record {
      replay = r;
      desired_stop_price = desired_stop stop r.state.active_stop_rule_id r.state.active_stop_price;
      desired_take_price = desired_take take r.state;
    }

    -- `evaluate_start_after_entry_managed_projection`
    unfoldable pub start_after_entry :
        Config F
        → Frame F
        → Side
        → (entry target : Option ℕ) → (entry_price stop take : D) → Result (Projection F D)
    start_after_entry config frame side entry none entry_price stop take =
        err (Error.invalid_request "target_time_ms is not on the evaluation grid")
    start_after_entry config frame side entry (some target) entry_price stop take =
        raise_if (not (positive stop) || not (positive take))
          (Error.invalid_request "initial stop and take prices must be positive")
        >> (managed_replay_core config frame side entry (some target) (to_float entry_price) 1
              (some (to_float stop))
            >>= λ r. ok (projection_of stop take r))
