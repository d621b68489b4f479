-- ===== src/Episode/Causality.antt =====
-- The pass of `_project_long` is causal: what it publishes on a bar depends on no later bar.
use strategy_engine.Prelude.{
  ℕ, zero, suc, ◌+◌, ◌≤◌, ◌<◌, ◌≡◌, refl, sym, ap, ◌∙◌, arith, if◌then◌else◌, Bool, true, false, [],
  ◌∷◌, get_elem?, get_elem?-append, length, length-append,
}
use strategy_engine.Prelude.Int.{ℤ, pos, negsuc, ◌≤ℤ◌}
use native.Mathlib.Decide.{dec_lt}
use strategy_engine.Float.{Float}
use strategy_engine.Numpy.{Numpy, IsNumpy}
use strategy_engine.Episode.Data.{Limits, Bars, Machine, Wave}
use strategy_engine.Episode.Wave.{
  contact_bar, reset_forming, seed_first_wave, seed_from, contact_before,
}
use strategy_engine.Episode.Step.{on_bar, idle_bar, active_bar, run, project_long, start_episode}
use strategy_engine.Episode.Touches.{settle}
use strategy_engine.Episode.Reads.{SameBefore, weaken, advance_congr}

module _ {F : Type 0} ⦃f : Float F⦄ (np : Numpy F) (laws : IsNumpy np) where
  -- The running maximum up to a bar depends on the values up to that bar.
  running_max_congr :
      (v w : ℕ → ℤ) (i : ℕ)
      → ((k : ℕ) → k ≤ i → v k ≡ w k)
      → np.running_max v i ≡ np.running_max w i
  running_max_congr v w zero h =
      laws.running_max_first v ∙ h 0 (omega arith) ∙ sym (laws.running_max_first w)
  running_max_congr v w (suc i) h = rw (
    laws.running_max_next v i,
    laws.running_max_next w i,
    running_max_congr v w i (λ k le. h k (omega arith)),
    h (suc i) (omega arith),
  )

  -- The nearest contact at or before a bar is no later bar.
  pub running_max-le : (b : Bars F) (i : ℕ) → np.running_max (contact_bar b) i ≤ℤ pos i
  running_max-le b zero = rw (laws.running_max_first (contact_bar b)) (ground arith)
  running_max-le b (suc i) =
      rw (laws.running_max_next (contact_bar b) i) (ground (arith, running_max-le b i))

  pub contact_before-le : (b : Bars F) (i : ℕ) → contact_before b np i ≤ℤ pos i
  contact_before-le b zero = omega arith
  contact_before-le b (suc i) = omega (arith, running_max-le b i)

  module _ (b c : Bars F) where
    contact_before_congr :
        (i : ℕ) → SameBefore i b c → contact_before b np i ≡ contact_before c np i
    contact_before_congr zero same = refl
    contact_before_congr (suc i) same = running_max_congr (contact_bar b) (contact_bar c) i λ k le.
        rw (same.high k (omega arith), same.low k (omega arith), same.anchor k (omega arith))

    argmax_congr :
        (j i : ℕ)
        → SameBefore (suc i) b c
        → j ≤ i
        → np.argmax b.high j (i + 1) ≡ np.argmax c.high j (i + 1)
    argmax_congr j i same le =
        laws.argmax_local b.high c.high j (i + 1) (omega arith)
          (λ k from to. same.high k (omega arith))

    -- `seed_first_wave` reads the market from the contact on, up to the first bar of the episode.
    seed_from_congr :
        (j : ℤ) (i : ℕ) (w : Wave F)
        → SameBefore (suc i) b c
        → j ≤ℤ pos i
        → seed_from b np j i w ≡ seed_from c np j i w
    seed_from_congr (negsuc k) i w same le = refl
    seed_from_congr (pos j) i w same le =
        let peak = argmax_congr j i same (omega arith) in
        let p = j + np.argmax c.high j (i + 1) in
        let inside : p < i + 1 = laws.argmax_within c.high j (i + 1) (omega arith) in
        rw (
          peak,
          same.low j (omega arith),
          same.low i (omega arith),
          same.high p (omega arith),
          laws.min_local b.low c.low p (i + 1) inside (λ k from to. same.low k (omega arith)),
        )

    seed_first_wave_congr :
        (i : ℕ) (w : Wave F)
        → SameBefore (suc i) b c
        → seed_first_wave b np i w ≡ seed_first_wave c np i w
    unfolding seed_first_wave
    seed_first_wave_congr i w same =
        rw (contact_before_congr i (weaken same))
          (seed_from_congr (contact_before c np i) i w same (contact_before-le c i))

    start_episode_congr :
        (l : Limits) (i : ℕ) (m : Machine F)
        → SameBefore (suc i) b c
        → start_episode l b np i m ≡ start_episode l c np i m
    unfolding start_episode
    start_episode_congr l i m same = rw (
      same.high i (omega arith),
      same.low i (omega arith),
      seed_first_wave_congr i (reset_forming c i) same,
    )

    idle_bar_congr :
        (l : Limits) (i : ℕ) (m : Machine F)
        → SameBefore (suc i) b c
        → idle_bar l b np i m ≡ idle_bar l c np i m
    unfolding idle_bar
    idle_bar_congr l i m same = rw (
      start_episode_congr l i m same,
      same.fast i (omega arith),
      same.anchor i (omega arith),
      same.slow i (omega arith),
    )

    active_bar_congr :
        (l : Limits) (i : ℕ) (m : Machine F)
        → SameBefore (suc i) b c
        → 0 < i
        → active_bar l b np i m ≡ active_bar l c np i m
    unfolding active_bar
    active_bar_congr l i m same first = ap (settle i) (advance_congr b c i same l m first)

    on_bar_congr :
        (l : Limits) (i : ℕ) (m : Machine F)
        → SameBefore (suc i) b c
        → (m.active ≡ true → 0 < i)
        → on_bar l b np i m ≡ on_bar l c np i m
    unfolding on_bar
    on_bar_congr l i m same first = choose m.active first
      where
        choose :
            (on : Bool)
            → (on ≡ true → 0 < i)
            → (if on then active_bar l b np i m else idle_bar l b np i m)
              ≡ (if on then active_bar l c np i m else idle_bar l c np i m)
        choose true h = active_bar_congr l i m same (h refl)
        choose false h = idle_bar_congr l i m same

    -- No episode is active before the first bar.
    run-active : (l : Limits) (n : ℕ) → (run l b np n).0.active ≡ true → 0 < n
    unfolding run
    run-active l zero h = cc
    run-active l (suc n) h = omega arith

    -- The pass over the first `n` bars depends on those bars alone.
    run_congr : (l : Limits) (n : ℕ) → SameBefore n b c → run l b np n ≡ run l c np n
    unfolding run
    run_congr l zero same = refl
    run_congr l (suc n) same =
        rw (← run_congr l n (weaken same), on_bar_congr l n (run l b np n).0 same (run-active l n))

  module _ (b : Bars F) (l : Limits) where
    -- The pass publishes one row for each bar.
    pub length-run : (n : ℕ) → length (run l b np n).1 ≡ n
    unfolding run
    length-run zero = refl
    length-run (suc n) =
        let (m, rows) = run l b np n in
        let row = (on_bar l b np n m).1 in
        omega (arith, length-append rows (row ∷ []), length-run n)

    -- A published row stays as it is.
    pub run_stays :
        (n t : ℕ) → t < n → get_elem? (run l b np n).1 t ≡ get_elem? (run l b np (suc t)).1 t
    unfolding run
    run_stays zero t h = elim h [ ]
    run_stays (suc n) t h = elim (dec_lt t n) [
      | yes before ↦ get_elem?-append _ _ t (rw (length-run n) before) ∙ run_stays n t before
      | no last ↦ let e : t ≡ n = omega arith in rw e
    ]

  -- What the projection publishes on bar t depends only on the bars up to t: two markets that
  -- agree up to t have the same row there, whatever their lengths and whatever comes later.
  pub project_long_causal :
      (l : Limits) (b c : Bars F) (size size' t : ℕ)
      → t < size
      → t < size'
      → SameBefore (suc t) b c
      → get_elem? (project_long l b np size).0 t ≡ get_elem? (project_long l c np size').0 t
  unfolding project_long
  project_long_causal l b c size size' t h h' same =
      run_stays b l size t h
      ∙ ap (λ r. get_elem? (r.1) t) (run_congr b c l (suc t) same)
      ∙ sym (run_stays c l size' t h')
