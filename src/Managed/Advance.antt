-- ===== src/Managed/Advance.antt =====
-- What every step of the managed-exit replay does to the trade: the phase rises, the stop tightens.
use Prim.Native.String.{String}
use text.Mathlib.Text.{◌==◌ as str_eq}
use strategy_engine.Prelude.{
  ℕ, ◌≤◌, ◌≡◌, refl, sym, arith, leb, Bool, true, false, Bool-cases, Option, none, some, List, [],
  ◌∷◌, ◌⊎◌, inl, inr, subst, if◌then◌else◌,
}
use strategy_engine.Float.{Float}
use strategy_engine.Result.{Result, ok, err, ◌>>=◌}
use strategy_engine.Managed.Data.{
  Side, rank, PhaseRule, StopRule, TakeRule, RuntimeRule, Frame, Replay,
}
use strategy_engine.Managed.Phases.{
  update_extremes, rule_met, at_least, enter_if, enter_phase, phase_step,
}
use strategy_engine.Managed.Stops.{
  closer, best_of, tightest, set_stop, move_stop, apply_candidates, candidates, update_stop,
  set_take, take_step, runtime_signal,
}
use strategy_engine.Managed.Replay.{arm, runtime_step, observe}

module _ {F : Type 0} ⦃f : Float F⦄ where
  -- A stop moved strictly towards profit, or a first stop.
  abbrev pub Closer : Side → Option F → Option F → Type 0
  Closer side old none = ⊥
  Closer side none (some new) = Unit {0}
  Closer side (some old) (some new) = closer side new old ≡ true

  abbrev pub Tightens : Side → Option F → Option F → Type 0
  Tightens side old new = (old ≡ new) ⊎ Closer side old new

  pub record Advances (r r' : Replay F) : Type 0 where
    pub same_bars : r'.bars ≡ r.bars
    pub same_side : r'.state.side ≡ r.state.side
    pub same_entry : r'.state.entry_index ≡ r.state.entry_index
    pub same_price : r'.state.entry_price ≡ r.state.entry_price
    pub same_risk : r'.state.risk ≡ r.state.risk
    pub phase_up : rank r.state.phase ≤ rank r'.state.phase
    pub at_peak :
        r.state.max_phase_reached ≡ r.state.phase → r'.state.max_phase_reached ≡ r'.state.phase
    pub stop_tightens : Tightens r.state.side r.state.active_stop_price r'.state.active_stop_price
    pub unmoved :
        r'.state.active_stop_rule_id ≡ none
        → (r.state.active_stop_rule_id ≡ none)
          × (r'.state.active_stop_price ≡ r.state.active_stop_price)

  pub Advances-refl : (r : Replay F) → Advances r r
  Advances-refl r = ground arith

  pub observe-Advances :
      (frame : Frame F) (index : ℕ) (r : Replay F) → Advances r (observe frame index r)
  unfolding update_extremes
  observe-Advances frame index r = ground arith

  enter_phase-Advances :
      (index : ℕ) (rule : PhaseRule F) (r : Replay F)
      → leb (rank rule.to_phase) (rank r.state.phase) ≡ false
      → Advances r (enter_phase index rule r)
  unfolding enter_phase
  enter_phase-Advances index rule r h = ground arith

  set_stop-Advances :
      (index : ℕ) (price : F) (id : String) (r : Replay F)
      → Tightens r.state.side r.state.active_stop_price (some price)
      → Advances r (set_stop index price id r)
  unfolding set_stop
  set_stop-Advances index price id r h = ground arith

  set_take-Advances :
      (index : ℕ) (rule : TakeRule) (r : Replay F) → Advances r (set_take index rule r)
  unfolding set_take
  set_take-Advances index rule r = ground arith

  arm-Advances :
      (index : ℕ) (close : F) (rule : RuntimeRule F) (fires : Bool) (r : Replay F)
      → Advances r (arm index close rule fires r)
  arm-Advances index close rule fires r = ground arith

  tightest-Tightens :
      (s : Side) (active chosen : F) → Tightens s (some active) (some (tightest s active chosen))
  tightest-Tightens s active chosen = ground arith

  move_stop-Advances :
      (tolerance : F) (index : ℕ) (old : Option F) (c : F × String) (r : Replay F)
      → r.state.active_stop_price ≡ old
      → Advances r (move_stop tolerance index old c r)
  move_stop-Advances tolerance index none c r e =
      set_stop-Advances index c.0 c.1 r
        (subst (λ o. Tightens r.state.side o (some c.0)) (sym e) (inr tt))
  move_stop-Advances tolerance index (some active) c r e =
      let s = r.state.side in
      let tightened = tightest s active c.0 in
      elim (Bool-cases (f.lt tolerance (f.abs (f.sub tightened active)))) [
        | inl test ↦
            subst (λ b. Advances r (if b then set_stop index tightened c.1 r else r)) (sym test)
              (set_stop-Advances index tightened c.1 r (
                subst (λ o. Tightens s o (some tightened)) (sym e)
                  (tightest-Tightens s active c.0)))
        | inr test ↦
            subst (λ b. Advances r (if b then set_stop index tightened c.1 r else r)) (sym test)
              (Advances-refl r)
      ]

  apply_candidates-Advances :
      (tolerance : F) (index : ℕ) (found : List (F × String)) (r : Replay F)
      → Advances r (apply_candidates tolerance index found r)
  apply_candidates-Advances tolerance index [] r = Advances-refl r
  apply_candidates-Advances tolerance index (c ∷ cs) r =
      move_stop-Advances tolerance index r.state.active_stop_price (best_of r.state.side c cs) r
        refl

  -- The result, if there is one, has advanced.
  abbrev pub Leads : Replay F → Result (Replay F) → Type 0
  Leads r (ok r') = Advances r r'
  Leads r (err e) = Unit {0}

  Leads-if :
      (r : Replay F) (test : Bool) (x y : Result (Replay F))
      → (test ≡ true → Leads r x)
      → (test ≡ false → Leads r y)
      → Leads r (if test then x else y)
  Leads-if r true x y hx hy = hx refl
  Leads-if r false x y hx hy = hy refl

  pub Leads-value {ℓ} :
      {A : Type ℓ} (r : Replay F) (m : Result A) (k : A → Result (Replay F))
      → ((a : A) → Leads r (k a))
      → Leads r (m >>= k)
  Leads-value r (ok a) k h = h a
  Leads-value r (err e) k h = tt

  pub phase_step-Leads :
      (size index : ℕ) (rule : PhaseRule F) (r : Replay F) → Leads r (phase_step size index rule r)
  unfolding phase_step
  phase_step-Leads size index rule r =
      Leads-if r (leb (rank rule.to_phase) (rank r.state.phase)) _ _ (λ _. Advances-refl r)
        (λ above.
          Leads-value r (rule_met size rule.condition r.state index) _
            (λ met. enter_if-Leads met above))
    where
      enter_if-Leads :
          (met : Bool)
          → leb (rank rule.to_phase) (rank r.state.phase) ≡ false
          → Leads r (ok (enter_if met index rule r))
      enter_if-Leads true above = enter_phase-Advances index rule r above
      enter_if-Leads false above = Advances-refl r

  pub update_stop-Leads :
      (frame : Frame F) (index : ℕ) (rules : List (StopRule F)) (r : Replay F)
      → Leads r (update_stop frame index rules r)
  unfolding update_stop
  update_stop-Leads frame index rules r =
      Leads-value r (candidates frame.size index r.state rules) _
        (λ found. apply_candidates-Advances frame.tolerance index found r)

  pub take_step-Leads :
      (index : ℕ) (rule : TakeRule) (r : Replay F) → Leads r (take_step index rule r)
  unfolding take_step
  take_step-Leads index rule r =
      Leads-if r (at_least r.state.phase rule.phase_at_least) _ _
        (λ _.
          Leads-if r (str_eq rule.component_id "take_profile_switch") _ _
            (λ _. set_take-Advances index rule r) (λ _. tt))
        (λ _. Advances-refl r)

  pub runtime_step-Leads :
      (first index : ℕ) (close : F) (rule : RuntimeRule F) (r : Replay F)
      → Leads r (runtime_step first index close rule r)
  unfolding runtime_step
  runtime_step-Leads first index close rule r =
      Leads-if r (at_least r.state.phase rule.phase_at_least) _ _
        (λ _.
          Leads-value r (runtime_signal first index rule.component r.state) _
            (λ fires. arm-Advances index close rule fires r))
        (λ _. Advances-refl r)
