-- ===== src/Managed/Returns.antt =====
-- A managed-exit replay with supported rules returns.
use text.Mathlib.Text.{◌==◌ as str_eq}
use strategy_engine.Prelude.{ℕ, ◌≡◌, sym, leb, true, List, [], ◌∷◌, All, if◌then◌else◌, subst}
use strategy_engine.Float.{Float}
use strategy_engine.Result.{ok, err, Error}
use strategy_engine.Managed.Data.{
  rank, State, PhaseRule, StopComponent, StopRule, TakeRule, RuntimeComponent, RuntimeRule, Config,
  Replay,
}
use strategy_engine.Managed.Phases.{at_least, rule_met, phase_step}
use strategy_engine.Managed.Stops.{stop_price, candidates, set_take, take_step, runtime_signal}
use strategy_engine.Managed.Replay.{runtime_step}
use strategy_engine.Managed.Atoms.{Succeeds, Succeeds->>=, Succeeds-if}
use strategy_engine.Managed.Folded.{SupportedRule, rule_met-Succeeds}

module _ {F : Type 0} ⦃f : Float F⦄ where
  abbrev pub SupportedStop : StopComponent F → Type 0
  SupportedStop StopComponent.unsupported = ⊥
  SupportedStop _ = Unit {0}

  abbrev pub SupportedRuntime : RuntimeComponent F → Type 0
  SupportedRuntime (RuntimeComponent.unsupported confirm) = ⊥
  SupportedRuntime _ = Unit {0}

  pub record IsSupported (c : Config F) : Type 0 where
    pub phases : All (λ r. SupportedRule r.condition) c.phase_rules
    pub stops : All (λ r. SupportedStop r.component) c.stop_rules
    pub takes : All (λ r. str_eq r.component_id "take_profile_switch" ≡ true) c.take_rules
    pub runtimes : All (λ r. SupportedRuntime r.component) c.runtime_rules

  pub phase_step-Succeeds :
      (size index : ℕ) (rule : PhaseRule F) (r : Replay F)
      → SupportedRule rule.condition
      → Succeeds (phase_step size index rule r)
  unfolding phase_step
  phase_step-Succeeds size index rule r h =
      Succeeds-if (leb (rank rule.to_phase) (rank r.state.phase)) _ _ tt (
        Succeeds->>= (rule_met size rule.condition r.state index) _
          (rule_met-Succeeds size rule.condition r.state index h) (λ met. tt))

  stop_price-Succeeds :
      (size index : ℕ) (c : StopComponent F) (s : State F)
      → SupportedStop c
      → Succeeds (stop_price size index c s)
  unfolding stop_price
  stop_price-Succeeds size index (StopComponent.break_even_price buffer) s h = tt
  stop_price-Succeeds size index (StopComponent.break_even_atr multiple atr) s h = tt
  stop_price-Succeeds size index (StopComponent.lock_profit_stop multiple atr) s h = tt
  stop_price-Succeeds size index (StopComponent.initial_r_stop formula t a) s h = tt
  stop_price-Succeeds size index StopComponent.unsupported s h = absurd h

  pub candidates-Succeeds :
      (size index : ℕ) (s : State F) (rules : List (StopRule F))
      → All (λ r. SupportedStop r.component) rules
      → Succeeds (candidates size index s rules)
  unfolding candidates
  candidates-Succeeds size index s [] h = tt
  candidates-Succeeds size index s (rule ∷ rules) h =
      let later = candidates-Succeeds size index s rules h.1 in
      Succeeds-if (at_least s.phase rule.phase_at_least) _ _
        (Succeeds->>= (stop_price size index rule.component s) _
          (stop_price-Succeeds size index rule.component s h.0)
          (λ price. Succeeds->>= (candidates size index s rules) _ later (λ found. tt)))
        later

  pub take_step-Succeeds :
      (index : ℕ) (rule : TakeRule) (r : Replay F)
      → str_eq rule.component_id "take_profile_switch" ≡ true
      → Succeeds (take_step index rule r)
  unfolding take_step
  take_step-Succeeds index rule r h =
      Succeeds-if (at_least r.state.phase rule.phase_at_least) _ _
        (subst
          (λ b. Succeeds (
            if b
            then ok (set_take index rule r)
            else err (Error.invalid_request "unsupported take management component")))
          (sym h) tt)
        tt

  pub runtime_step-Succeeds :
      (first index : ℕ) (close : F) (rule : RuntimeRule F) (r : Replay F)
      → SupportedRuntime rule.component
      → Succeeds (runtime_step first index close rule r)
  unfolding runtime_step runtime_signal
  runtime_step-Succeeds first index close rule r h =
      Succeeds-if (at_least r.state.phase rule.phase_at_least) _ _
        (Succeeds->>= (runtime_signal first index rule.component r.state) _
          (signal rule.component h) (λ fires. tt))
        tt
    where
      signal :
          (c : RuntimeComponent F)
          → SupportedRuntime c
          → Succeeds (runtime_signal first index c r.state)
      signal (RuntimeComponent.phase_runtime_exit exit_price) h = tt
      signal (RuntimeComponent.rsi_signal_exit confirm rsi above below) h = tt
      signal (RuntimeComponent.ema_cross_loss_exit confirm fast slow) h = tt
      signal (RuntimeComponent.unsupported confirm) h = absurd h
