-- ===== src/Managed/Stop.antt =====
-- The stop that the projection of an open trade asks for.
use Prim.Native.String.{String}
use strategy_engine.Prelude.{
  ℕ, ◌≡◌, refl, Bool, not, ◌||◌, Option, none, some, ◌⊎◌, inl, inr, subst,
}
use strategy_engine.Float.{Float, IsOrdered}
use strategy_engine.Result.{ok, ◌>>=◌, raise_if->>, >>=-eq-ok}
use strategy_engine.Managed.Data.{Side, Config, Frame, Replay}
use strategy_engine.Managed.Replay.{
  managed_replay_core, desired_stop, projection_of, start_after_entry, Projection,
}
use strategy_engine.Managed.Advance.{Tightens}
use strategy_engine.Managed.Whole.{IsRun, managed_replay_core-IsRun}

module _ {F D : Type 0} ⦃f : Float F⦄ ⦃laws : IsOrdered F⦄ (positive : D → Bool) (to_float : D → F)
    (of_float : Option F → D) where
  -- The desired stop is the initial one and the trade's stop is its number, or it is the text of a
  -- stop that is no looser.
  abbrev pub KeepsStop : Side → D → Projection F D → Type 0
  KeepsStop side stop p =
      (p.desired_stop_price ≡ stop) × (p.replay.state.active_stop_price ≡ some (to_float stop))
      ⊎ (p.desired_stop_price ≡ of_float p.replay.state.active_stop_price)
        × Tightens side (some (to_float stop)) p.replay.state.active_stop_price

  desired_stop-cases :
      (side : Side) (stop : D) (rule : Option String) (active : Option F)
      → Tightens side (some (to_float stop)) active
      → (rule ≡ none → active ≡ some (to_float stop))
      → (desired_stop positive to_float of_float stop rule active ≡ stop)
          × (active ≡ some (to_float stop))
        ⊎ (desired_stop positive to_float of_float stop rule active ≡ of_float active)
          × Tightens side (some (to_float stop)) active
  desired_stop-cases side stop none active h k = inl (refl, k refl)
  desired_stop-cases side stop (some rule) active h k = inr (refl, h)

  -- For comparisons with the laws of `IsOrdered`: if the projection of an open trade on a found
  -- entry and target bar returns, its desired stop is the initial stop when no rule has set the
  -- stop, and otherwise the text of a stop that equals the initial one or is strictly closer to
  -- profit; the replay under it is one decision for each bar after the entry bar up to the target
  -- bar, in order, where of any two decisions the later one has no lower phase and no looser stop.
  pub start_after_entry-KeepsStop :
      (config : Config F) (frame : Frame F) (side : Side) (entry target : ℕ) (price stop take : D)
      {p : Projection F D}
      → start_after_entry positive to_float of_float config frame side
          (some entry)
          (some target)
          price
          stop
          take
        ≡ ok p
      → KeepsStop side stop p
        × IsRun frame side entry (some target) 1 (some (to_float stop)) p.replay
  unfolding start_after_entry
  start_after_entry-KeepsStop config frame side entry target price stop take {p = p} h =
      let core =
        managed_replay_core config frame side (some entry) (some target) (to_float price) 1
          (some (to_float stop)) in
      let body = λ (r : Replay F). ok (projection_of positive to_float of_float stop take r) in
      let q = raise_if->> (not (positive stop) || not (positive take)) _ (core >>= body) h in
      let c = >>=-eq-ok core body q.1 in
      let run = managed_replay_core-IsRun config frame side entry (some target) _ 1 _ c.1 in
      subst
        (λ x.
          KeepsStop side stop x
          × IsRun frame side entry (some target) 1 (some (to_float stop)) x.replay)
        (ok-inj c.2)
        (
          desired_stop-cases side stop c.0.state.active_stop_rule_id c.0.state.active_stop_price
              run.4 run.5,
          run,
        )
    where
      ok-inj : {x y : Projection F D} → ok x ≡ ok y → x ≡ y
      ok-inj e = cc
