-- ===== src/Episode/Pass.antt =====
-- The whole pass of `_project_long` (src/strategy_engine/strategies/ema_pullback/stack_episode.py) is
-- sound.
use strategy_engine.Prelude.{
  ℕ, zero, suc, ◌+◌, ◌≡◌, refl, arith, if◌then◌else◌, Bool, true, false, Bool-cases, subst, sym,
  ◌∙◌, inl, inr, ◌++◌, map, none, All-append, ◌≢◌,
}
use native.Mathlib.Numerals.{add-one}
use mathlib.Core.Bool.{false≢true}
use mathlib.Core.List.{append-nil}
use strategy_engine.Float.{Float}
use strategy_engine.Numpy.{Numpy, IsNumpy}
use strategy_engine.Episode.Data.{Phase, Limits, Bars, Machine}
use strategy_engine.Episode.Wave.{reset_forming, seed_first_wave, seed_from, contact_before}
use strategy_engine.Episode.Step.{order, advance, start_episode, idle_bar, active_bar, on_bar, run}
use strategy_engine.Episode.Touches.{closed, leave, settle, begin, inactive_bar}
use strategy_engine.Episode.Invariant.{FitsAway, Fits, IsWave}
use strategy_engine.Prelude.Int.{ℤ, pos, negsuc, ◌≤ℤ◌}
use strategy_engine.Episode.Causality.{contact_before-le}
use strategy_engine.Episode.Frame.{key}
use strategy_engine.Episode.Sound.{IsDone, Sound, closed-IsDone, advance-Ruled, Table, Ruled}

module _ {F : Type 0} (l : Limits) (i : ℕ) where
  unbroken-Sound : (m : Machine F) → m.phase ≢ Phase.broken → Ruled l i m → Sound l i m
  unbroken-Sound m ne r = record {
    rows = r.rows;
    live = λ on. record {
      unbroken = ne;
      started = r.started;
      calm = grind (arith, r.calm, ne);
      wave = r.wave;
      fits = r.fits;
    };
    idle = λ off. absurd (false≢true (sym off ∙ r.active));
  }

  -- Leaving a broken stack closes the row of its last zone.
  broken-Sound :
      (m : Machine F)
      → FitsAway l i m m.zone
      → Ruled l i m
      → Sound l i (record m { active = false; zone = none; touches = m.touches ++ closed m.zone })
  broken-Sound m h r = record {
    rows = record {
      tabled = rw append-nil r.rows.tabled;
      done =
          All-append (IsDone l) m.touches (closed m.zone) r.rows.done
            (closed-IsDone l i m m.zone h);
    };
    live = λ on. absurd (false≢true on);
    idle = λ off. refl;
  }

  leave-Sound : (p : Phase) (m : Machine F) → m.phase ≡ p → Ruled l i m → Sound l i (leave p m)
  unfolding leave
  leave-Sound Phase.broken m e r = broken-Sound m (subst (λ p. Fits l i m p m.zone) e r.fits) r
  leave-Sound Phase.away m e r = unbroken-Sound m (λ b. absurd (cc e)) r
  leave-Sound Phase.zone m e r = unbroken-Sound m (λ b. absurd (cc e)) r
  leave-Sound Phase.false_break m e r = unbroken-Sound m (λ b. absurd (cc e)) r

module _ {F : Type 0} ⦃f : Float F⦄ (np : Numpy F) (laws : IsNumpy np) (l : Limits)
    (b : Bars F) where
  seed_from-IsWave :
      (j : ℤ) (i : ℕ) → j ≤ℤ pos i → IsWave (suc i) (seed_from b np j i (reset_forming b i))
  seed_from-IsWave (negsuc k) i le = omega arith
  seed_from-IsWave (pos j) i le = ground (arith, laws.argmax_within b.high j (i + 1))

  start_episode-Sound :
      (i : ℕ) (m : Machine F)
      → Sound l i m
      → m.active ≡ false
      → Sound l (suc i) (start_episode l b np i m)
  unfolding start_episode seed_first_wave
  start_episode-Sound i m s off = record {
    rows = record {
      tabled = rw add-one (
          Table.new_episode (
            subst (λ z. Table (map key (m.touches ++ closed z)) m.episode_id m.touch_number)
              (s.idle off) s.rows.tabled));
      done = s.rows.done;
    };
    live = λ on. record {
      unbroken = λ e. cc;
      started = omega arith;
      calm = omega arith;
      wave = seed_from-IsWave (contact_before b np i) i (contact_before-le np laws b i);
      fits = refl;
    };
    idle = λ e. cc;
  }

  on_bar-Sound : (i : ℕ) (m : Machine F) → Sound l i m → Sound l (suc i) (on_bar l b np i m).0
  unfolding on_bar active_bar idle_bar settle begin
  on_bar-Sound i m s = elim (Bool-cases m.active) [
    | inl on ↦
        subst (λ a. Sound l (suc i) (if a then active_bar l b np i m else idle_bar l b np i m).0)
          (sym on)
          (leave-Sound l (suc i) (advance l b i m).0.phase (advance l b i m).0 refl
            (advance-Ruled l b i m s on))
    | inr off ↦
        subst (λ a. Sound l (suc i) (if a then active_bar l b np i m else idle_bar l b np i m).0)
          (sym off) (idle (order l b i) off)
  ]
    where
      idle :
          (o : Bool)
          → m.active ≡ false
          → Sound l (suc i) (if o then begin i (start_episode l b np i m) else (m, inactive_bar)).0
      idle true off = start_episode-Sound i m s off
      idle false off = record {
        rows = s.rows;
        live = λ on. absurd (false≢true (sym off ∙ on));
        idle = s.idle;
      }

  -- The machine is sound before every bar of the pass.
  pub run-Sound : (n : ℕ) → Sound l n (run l b np n).0
  unfolding run
  run-Sound zero = record {
    rows = record { tabled = Table.empty; done = tt };
    live = λ on. absurd (false≢true on);
    idle = λ off. refl;
  }
  run-Sound (suc n) = on_bar-Sound n (run l b np n).0 (run-Sound n)
