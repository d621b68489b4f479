-- ===== src/Episode/Frame.antt =====
-- What the operations of `_project_long` leave alone, and how the touch table grows.
use strategy_engine.Prelude.{
  ℕ, suc, ◌+◌, ◌≡◌, refl, arith, true, false, Bool-cases, ap, inl, inr, List, [], ◌∷◌, ◌++◌, map,
  Option, none, some, ◌≢◌, ◌⊎◌,
}
use strategy_engine.Float.{Float}
use strategy_engine.Episode.Data.{Phase, Limits, Bars, Machine, Touch, Wave}
use strategy_engine.Episode.Wave.{update_forming}
use strategy_engine.Episode.Step.{
  touches_anchor, begin_break, extend_run, zone_extremes, extend_break, close_entities, break_stack,
  open_zone, away_bar, zone_above, zone_below, zone_contact, zone_bar, false_break_bar, phase_bar,
}
use strategy_engine.Episode.Touches.{closed, on_zone, finish_zone, finish_break, grow_break}
use strategy_engine.Episode.Invariant.{IsWave}

module _ {F : Type 0} where
  -- The episode and the number of a row: what a row is looked up by.
  abbrev pub key : Touch F → ℕ × ℕ
  key z = (z.episode_id, z.number)

  -- The keys of the whole touch table, the open row included.
  abbrev pub table : Machine F → List (ℕ × ℕ)
  table m = map key (m.touches ++ closed m.zone)

  -- The operation writes to no row but the zone, and not to the zone's key.
  pub record Keeps (m m' : Machine F) : Type 0 where
    pub active : m'.active ≡ m.active
    pub censored : m'.censored ≡ m.censored
    pub episode_id : m'.episode_id ≡ m.episode_id
    pub start : m'.start ≡ m.start
    pub violation : m'.violation ≡ m.violation
    pub touch_number : m'.touch_number ≡ m.touch_number
    pub touches : m'.touches ≡ m.touches
    pub zone_key : map key (closed m'.zone) ≡ map key (closed m.zone)

  -- The operation opens the next zone of the episode.
  pub record Opens (m m' : Machine F) : Type 0 where
    pub active : m'.active ≡ m.active
    pub censored : m'.censored ≡ m.censored
    pub episode_id : m'.episode_id ≡ m.episode_id
    pub start : m'.start ≡ m.start
    pub violation : m'.violation ≡ m.violation
    pub touch_number : m'.touch_number ≡ m.touch_number + 1
    pub touches : m'.touches ≡ m.touches ++ closed m.zone
    pub zone_key : map key (closed m'.zone) ≡ (m.episode_id, m.touch_number + 1) ∷ []

  keys-on_zone :
      (g : Touch F → Touch F)
      → ((z : Touch F) → key (g z) ≡ key z)
      → (z : Option (Touch F)) → map key (closed (on_zone g z)) ≡ map key (closed z)
  keys-on_zone g h none = refl
  keys-on_zone g h (some z) = ap (λ k. k ∷ []) (h z)

module _ {F : Type 0} ⦃f : Float F⦄ (l : Limits) (b : Bars F) (i : ℕ) where
  extend_break-Keeps : (m : Machine F) → Keeps m (extend_break l b i m)
  unfolding extend_break grow_break
  extend_break-Keeps m = record {
    active = refl;
    censored = refl;
    episode_id = refl;
    start = refl;
    violation = refl;
    touch_number = refl;
    touches = refl;
    zone_key = keys-on_zone _ (λ z. refl) m.zone;
  }

  zone_bar-Keeps : (m : Machine F) → Keeps m (zone_bar l b i m).0
  unfolding zone_bar zone_above zone_below zone_contact
  zone_bar-Keeps m = ground (
    arith,
    keys-on_zone (finish_zone i) (λ z. refl) m.zone,
    keys-on_zone (begin_break l b i (extend_run l b i (zone_extremes l b i m))) (λ z. refl) m.zone,
  )

  false_break_bar-Keeps : (m : Machine F) → Keeps m (false_break_bar l b i m).0
  unfolding false_break_bar
  false_break_bar-Keeps m =
      let x = record m { wave = update_forming b i m.wave } in
      let m' = extend_break l b i x in
      let k = extend_break-Keeps x in
      ground (arith, k, keys-on_zone (finish_break i true) (λ z. refl) m'.zone)

  close_entities-Keeps : (p : Phase) (m : Machine F) → Keeps m (close_entities l b i p m)
  unfolding close_entities
  close_entities-Keeps Phase.away m = ground arith
  close_entities-Keeps Phase.zone m =
      ground (arith, keys-on_zone (finish_zone i) (λ z. refl) m.zone)
  close_entities-Keeps Phase.false_break m =
      let m' = extend_break l b i m in
      ground (arith, extend_break-Keeps m, keys-on_zone (finish_break i false) (λ z. refl) m'.zone)
  close_entities-Keeps Phase.broken m = ground arith

  pub break_stack-Keeps : (m : Machine F) → Keeps m (break_stack l b i m)
  unfolding break_stack
  break_stack-Keeps m =
      ground (arith, close_entities-Keeps m.phase (record m { wave = update_forming b i m.wave }))

  away_bar_frame : (m : Machine F) → Keeps m (away_bar l b i m).0 ⊎ Opens m (away_bar l b i m).0
  unfolding away_bar open_zone
  away_bar_frame m = elim (Bool-cases (touches_anchor l b i)) [
    | inl touched ↦ rw touched (inr (ground arith))
    | inr clear ↦ rw clear (inl (ground arith))
  ]

  -- A bar of an episode that is not broken keeps the rows, or opens the next one.
  pub phase_bar_frame :
      (p : Phase) (m : Machine F)
      → Keeps m (phase_bar l b i p m).0 ⊎ Opens m (phase_bar l b i p m).0
  unfolding phase_bar
  phase_bar_frame Phase.away m = away_bar_frame m
  phase_bar_frame Phase.zone m = inl (zone_bar-Keeps m)
  phase_bar_frame Phase.false_break m = inl (false_break_bar-Keeps m)
  phase_bar_frame Phase.broken m = inl (false_break_bar-Keeps m)

  -- It does not break the stack.
  pub phase_bar-phase :
      (p : Phase) (m : Machine F)
      → m.phase ≡ p
      → p ≢ Phase.broken
      → (phase_bar l b i p m).0.phase ≢ Phase.broken
  unfolding phase_bar away_bar open_zone zone_bar zone_above zone_below zone_contact false_break_bar
      extend_break
  phase_bar-phase Phase.away m e ne = ground arith
  phase_bar-phase Phase.zone m e ne = ground arith
  phase_bar-phase Phase.false_break m e ne = ground arith
  phase_bar-phase Phase.broken m e ne = absurd (ne refl)

  pub update_forming-IsWave : (w : Wave F) → IsWave i w → IsWave (suc i) (update_forming b i w)
  unfolding update_forming
  update_forming-IsWave w h = ground arith

  pub phase_bar-IsWave :
      (p : Phase) (m : Machine F) → IsWave i m.wave → IsWave (suc i) (phase_bar l b i p m).0.wave
  unfolding phase_bar away_bar open_zone zone_bar zone_above zone_below zone_contact false_break_bar
      extend_break
  phase_bar-IsWave Phase.away m h = ground (arith, update_forming-IsWave m.wave)
  phase_bar-IsWave Phase.zone m h = ground (arith, update_forming-IsWave m.wave)
  phase_bar-IsWave Phase.false_break m h = ground (arith, update_forming-IsWave m.wave)
  phase_bar-IsWave Phase.broken m h = ground (arith, update_forming-IsWave m.wave)

  pub break_stack_frame :
      (m : Machine F)
      → IsWave i m.wave
      → let m' = break_stack l b i m in (m'.phase ≡ Phase.broken) × IsWave (suc i) m'.wave
  unfolding break_stack close_entities extend_break
  break_stack_frame m h = ground (arith, update_forming-IsWave m.wave)
