-- ===== src/Managed/Tighten.antt =====
-- The stop over several steps of the managed-exit replay, and whole bars of it.
use strategy_engine.Prelude.{
  ℕ, ◌≡◌, refl, sym, ◌∙◌, arith, true, Bool-cases, Option, none, some, List, [], ◌∷◌, inl, inr,
  subst,
}
use strategy_engine.Float.{Float, IsOrdered}
use strategy_engine.Result.{Result, ok, err, ◌>>=◌}
use strategy_engine.Managed.Data.{Side, Config, Frame, Replay}
use strategy_engine.Managed.Phases.{for_each, phase_step}
use strategy_engine.Managed.Stops.{update_stop, take_step}
use strategy_engine.Managed.Replay.{runtime_step, disarm, observe, decide, replay_bar}
use strategy_engine.Managed.Advance.{
  Closer, Tightens, Advances, Advances-refl, Leads, observe-Advances, phase_step-Leads,
  update_stop-Leads, take_step-Leads, runtime_step-Leads,
}

module _ {F : Type 0} ⦃f : Float F⦄ ⦃laws : IsOrdered F⦄ where
  lt_trans : (a b c : F) → f.lt a b ≡ true → f.lt b c ≡ true → f.lt a c ≡ true
  lt_trans a b c h k =
      let na = laws.number_of_lt a b h in
      let nc = laws.number_of_lt b c k in
      elim (Bool-cases (f.le c a)) [
        | inl ca ↦ elim (laws.le_total a b na.0 na.1) [
          | inl ab ↦ ground (arith, laws.le_trans c a b ca ab, laws.lt-eq-not_le b c nc.0 nc.1)
          | inr ba ↦ ground (arith, laws.lt-eq-not_le a b na.0 na.1)
        ]
        | inr nca ↦ ground (arith, laws.lt-eq-not_le a c na.0 nc.1)
      ]

  pub Closer-trans : (s : Side) (a b c : Option F) → Closer s a b → Closer s b c → Closer s a c
  Closer-trans s a none c h k = absurd h
  Closer-trans s a (some b) none h k = k
  Closer-trans s none (some b) (some c) h k = tt
  Closer-trans Side.long (some a) (some b) (some c) h k = lt_trans a b c h k
  Closer-trans Side.short (some a) (some b) (some c) h k = lt_trans c b a k h

  pub Tightens-trans :
      (s : Side) (a b c : Option F) → Tightens s a b → Tightens s b c → Tightens s a c
  Tightens-trans s a b c (inl e) k = subst (λ o. Tightens s o c) (sym e) k
  Tightens-trans s a b c (inr h) (inl e) = inr (subst (Closer s a) e h)
  Tightens-trans s a b c (inr h) (inr k) = inr (Closer-trans s a b c h k)

  pub Advances-trans : (r s t : Replay F) → Advances r s → Advances s t → Advances r t
  Advances-trans r s t h k = record {
    same_bars = k.same_bars ∙ h.same_bars;
    same_side = k.same_side ∙ h.same_side;
    same_entry = k.same_entry ∙ h.same_entry;
    same_price = k.same_price ∙ h.same_price;
    same_risk = k.same_risk ∙ h.same_risk;
    phase_up = omega (arith, h.phase_up, k.phase_up);
    at_peak = λ e. k.at_peak (h.at_peak e);
    stop_tightens =
        Tightens-trans r.state.side r.state.active_stop_price s.state.active_stop_price
          t.state.active_stop_price h.stop_tightens
          (subst (λ x. Tightens x s.state.active_stop_price t.state.active_stop_price) h.same_side
            k.stop_tightens);
    unmoved = λ e. let u = k.unmoved e in let v = h.unmoved u.0 in (v.0, u.1 ∙ v.1);
  }

  Leads-trans : (r s : Replay F) (m : Result (Replay F)) → Advances r s → Leads s m → Leads r m
  Leads-trans r s (ok t) h k = Advances-trans r s t h k
  Leads-trans r s (err e) h k = tt

  Leads-then :
      (r : Replay F) (m : Result (Replay F)) (k : Replay F → Result (Replay F))
      → Leads r m
      → ((s : Replay F) → Leads s (k s))
      → Leads r (m >>= k)
  Leads-then r (ok s) k h g = Leads-trans r s (k s) h (g s)
  Leads-then r (err e) k h g = tt

  for_each-Leads {ℓ} :
      {R : Type ℓ} (step : R → Replay F → Result (Replay F))
      → ((x : R) (r : Replay F) → Leads r (step x r))
      → (xs : List R) (r : Replay F) → Leads r (for_each step xs r)
  for_each-Leads step h [] r = Advances-refl r
  for_each-Leads step h (x ∷ xs) r =
      Leads-then r (step x r) (for_each step xs) (h x r) (for_each-Leads step h xs)

  disarm-Advances : (r : Replay F) → Advances r (disarm r)
  disarm-Advances r = ground arith

  -- A bar that ends is a trade that has advanced, and its decision.
  abbrev pub Decided : ℕ → Replay F → Result (Replay F) → Type 0
  Decided index r (ok r') = (s : Replay F) × Advances r s × (r' ≡ decide index s)
  Decided index r (err e) = Unit {0}

  Decided-then :
      (index : ℕ) (r : Replay F) (m : Result (Replay F)) (k : Replay F → Result (Replay F))
      → Leads r m
      → ((s : Replay F) → Advances r s → Decided index r (k s))
      → Decided index r (m >>= k)
  Decided-then index r (ok s) k h g = g s h
  Decided-then index r (err e) k h g = tt

  pub replay_bar-Decided :
      (config : Config F) (frame : Frame F) (first index : ℕ) (r : Replay F)
      → Decided index r (replay_bar config frame first index r)
  unfolding replay_bar
  replay_bar-Decided config frame first index r =
      let o = observe frame index r in
      Decided-then index r (for_each (phase_step frame.size index) config.phase_rules o) _
        (Leads-trans r o _ (observe-Advances frame index r)
          (for_each-Leads _ (phase_step-Leads frame.size index) config.phase_rules o))
        (λ r1 h1.
          Decided-then index r (update_stop frame index config.stop_rules r1) _
            (Leads-trans r r1 _ h1 (update_stop-Leads frame index config.stop_rules r1))
            (λ r2 h2.
              Decided-then index r (for_each (take_step index) config.take_rules r2) _
                (Leads-trans r r2 _ h2
                  (for_each-Leads _ (take_step-Leads index) config.take_rules r2))
                (λ r3 h3. last r3 h3)))
    where
      last :
          (r3 : Replay F)
          → Advances r r3
          → Decided index r (
              for_each
                (runtime_step first index (frame.close index))
                config.runtime_rules
                (disarm r3)
              >>= λ r4. ok (decide index r4))
      last r3 h3 =
          Decided-then index r _ _
            (Leads-trans r (disarm r3) _ (Advances-trans r r3 (disarm r3) h3 (disarm-Advances r3)) (
              for_each-Leads _ (runtime_step-Leads first index (frame.close index))
                config.runtime_rules (disarm r3)))
            (λ r4 h4. (r4, h4, refl))
