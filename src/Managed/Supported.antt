-- ===== src/Managed/Supported.antt =====
-- The projection of an open trade with supported rules returns.
use strategy_engine.Prelude.{
  ℕ, zero, suc, ◌+◌, ◌≤◌, ◌<◌, ◌≡◌, arith, leb, ltb, Bool, true, false, not, ◌||◌, Option, some,
}
use strategy_engine.Float.{Float}
use strategy_engine.Result.{Result, ok, Error, ◌>>◌, raise_if}
use strategy_engine.Managed.Data.{Side, Config, Frame, Replay}
use strategy_engine.Managed.Phases.{phase_step, fold_composite_rules}
use strategy_engine.Managed.Stops.{candidates, update_stop, take_step}
use strategy_engine.Managed.Replay.{
  runtime_step, disarm, observe, replay_bar, replay_from, last_index, managed_replay_core,
  start_after_entry, Projection,
}
use strategy_engine.Managed.Atoms.{Succeeds, Succeeds->>=, for_each-Succeeds, value_of}
use strategy_engine.Managed.Folded.{fold_composite_rules-Succeeds}
use strategy_engine.Managed.Returns.{
  IsSupported, phase_step-Succeeds, candidates-Succeeds, take_step-Succeeds, runtime_step-Succeeds,
}

raise_if-Succeeds :
    {A : Type 0} (test : Bool) (e : Error) (m : Result A)
    → test ≡ false
    → Succeeds m
    → Succeeds (raise_if test e >> m)
raise_if-Succeeds true e m h k = cc
raise_if-Succeeds false e m h k = k

module _ {F : Type 0} ⦃f : Float F⦄ (config : Config F) (supported : IsSupported config)
    (frame : Frame F) where
  replay_bar-Succeeds :
      (first index : ℕ) (r : Replay F) → Succeeds (replay_bar config frame first index r)
  unfolding replay_bar update_stop
  replay_bar-Succeeds first index r =
      Succeeds->>= _ _
        (for_each-Succeeds _ (phase_step frame.size index)
          (λ rule s h. phase_step-Succeeds frame.size index rule s h) config.phase_rules
          (observe frame index r) supported.phases)
        (λ r1.
          Succeeds->>= _ _
            (Succeeds->>= (candidates frame.size index r1.state config.stop_rules) _
              (candidates-Succeeds frame.size index r1.state config.stop_rules supported.stops)
              (λ found. tt))
            (λ r2.
              Succeeds->>= _ _
                (for_each-Succeeds _ (take_step index) (take_step-Succeeds index) config.take_rules
                  r2 supported.takes)
                (λ r3.
                  Succeeds->>= _ _
                    (for_each-Succeeds _ (runtime_step first index (frame.close index))
                      (λ rule s h. runtime_step-Succeeds first index (frame.close index) rule s h)
                      config.runtime_rules (disarm r3) supported.runtimes)
                    (λ r4. tt))))

  replay_from-Succeeds :
      (first index count : ℕ) (r : Replay F)
      → Succeeds (replay_from config frame first index count r)
  unfolding replay_from
  replay_from-Succeeds first index zero r = tt
  replay_from-Succeeds first index (suc count) r =
      Succeeds->>= (replay_bar config frame first index r) _ (replay_bar-Succeeds first index r)
        (λ s. replay_from-Succeeds first (suc index) count s)

  managed_replay_core-Succeeds :
      (side : Side) (entry : ℕ) (target : Option ℕ) (price : F) (offset : ℕ) (stop : Option F)
      → f.le price f.nought ≡ false
      → entry ≤ last_index frame target
      → last_index frame target < frame.size
      → Succeeds (managed_replay_core config frame side (some entry) target price offset stop)
  unfolding managed_replay_core
  managed_replay_core-Succeeds side entry target price offset stop p h l =
      raise_if-Succeeds (f.le price f.nought) _ _ p (
        raise_if-Succeeds
          (ltb (last_index frame target) entry || leb frame.size (last_index frame target)) _ _
          (ground arith)
          (Succeeds->>= (fold_composite_rules config.phase_rules) _
            (fold_composite_rules-Succeeds config.phase_rules supported.phases)
            (λ folded. replay_from-Succeeds (entry + offset) (entry + offset) _ _)))

  -- With supported rules, where the thresholds of the phase conditions and of the trade children
  -- of composite conditions are positive, each composite condition is folded without an error and
  -- its paths name children that it has, positive initial stop and take prices, an entry price
  -- above zero, and an entry bar that is not after the target bar of the frame, the projection of
  -- an open trade returns.
  pub start_after_entry-returns :
      {D : Type 0} (positive : D → Bool) (to_float : D → F) (of_float : Option F → D) (side : Side)
      (entry target : ℕ) (price stop take : D)
      → positive stop ≡ true
      → positive take ≡ true
      → f.le (to_float price) f.nought ≡ false
      → entry ≤ target
      → target < frame.size
      → (p : Projection F D) × (start_after_entry positive to_float of_float config frame side
            (some entry)
            (some target)
            price
            stop
            take
          ≡ ok p)
  unfolding start_after_entry
  start_after_entry-returns positive to_float of_float side entry target price stop take hs ht hp h
        l =
      value_of _ (
        raise_if-Succeeds (not (positive stop) || not (positive take)) _ _ (rw (hs, ht)) (
          Succeeds->>=
            (managed_replay_core config frame side (some entry) (some target) (to_float price) 1
              (some (to_float stop)))
            _
            (managed_replay_core-Succeeds side entry (some target) (to_float price) 1
              (some (to_float stop)) hp h l)
            (λ r. tt)))
