-- ===== src/Episode/Sound.antt =====
-- Every bar of `_project_long` keeps the machine sound, and so does the whole pass.
use strategy_engine.Prelude.{
  ℕ, suc, ◌+◌, ◌≤◌, ◌<◌, ◌≡◌, refl, arith, ltb, if◌then◌else◌, true, false, Bool-cases, subst, sym,
  ap₂, ◌∙◌, ltb_false→le, inl, inr, List, [], ◌∷◌, ◌++◌, map, Option, none, some, All, All-append,
  ◌≢◌, ◌⊎◌,
}
use native.Mathlib.Numerals.{add-one}
use mathlib.Core.List.{map-append}
use strategy_engine.Float.{Float}
use strategy_engine.Episode.Data.{Phase, Limits, Bars, Machine, Touch}
use strategy_engine.Episode.Wave.{update_forming}
use strategy_engine.Episode.Step.{
  extend_break, close_entities, break_stack, open_zone, away_bar, zone_above, zone_below,
  zone_contact, zone_bar, false_break_bar, phase_bar, order, advance,
}
use strategy_engine.Episode.Touches.{closed}
use strategy_engine.Episode.Invariant.{
  Numbered, Settled, FitsAway, Fits, IsWave, FitsAway-same, Fits-same, Fits-later, phase_bar-Fits,
  close_entities-Fits,
}
use strategy_engine.Episode.Frame.{
  key, table, Keeps, Opens, break_stack-Keeps, phase_bar_frame, update_forming-IsWave,
  phase_bar-IsWave, break_stack_frame,
}

-- The keys of a touch table, in order, with the episode and the number that come last: an episode
-- adds its touches 1, 2, 3 and so on, behind those of the episodes before it.
pub data Table : List (ℕ × ℕ) → ℕ → ℕ → Type 0 where
  empty : Table [] 0 0
  new_episode : {ks : List (ℕ × ℕ)} {e n : ℕ} → Table ks e n → Table ks (suc e) 0
  new_touch : {ks : List (ℕ × ℕ)} {e n : ℕ} → Table ks e n → Table (ks ++ (e, suc n) ∷ []) e (suc n)

module _ {F : Type 0} where
  -- A row that the pass no longer writes to.
  abbrev pub IsDone : Limits → Touch F → Type 0
  IsDone l z =
      Numbered (suc z.zone_end) z.episode_id z.number z
      × (z.zone_final ≡ true)
      × Settled l.window z.zone_end z.false_break

  pub record Live (l : Limits) (i : ℕ) (m : Machine F) : Type 0 where
    pub unbroken : m.phase ≢ Phase.broken
    pub started : m.start < i
    pub calm : m.violation ≤ l.break_bars
    pub wave : IsWave i m.wave
    pub fits : Fits l i m m.phase m.zone

  -- The touch table.
  pub record Rows (l : Limits) (m : Machine F) : Type 0 where
    pub tabled : Table (table m) m.episode_id m.touch_number
    pub done : All (IsDone l) m.touches

  pub record Sound (l : Limits) (i : ℕ) (m : Machine F) : Type 0 where
    pub rows : Rows l m
    pub live : m.active ≡ true → Live l i m
    pub idle : m.active ≡ false → m.zone ≡ none

  -- After the rules of an active bar, before the bar is settled.
  pub record Ruled (l : Limits) (i : ℕ) (m : Machine F) : Type 0 where
    pub rows : Rows l m
    pub active : m.active ≡ true
    pub started : m.start < i
    pub calm : (m.phase ≡ Phase.broken) ⊎ (m.violation ≤ l.break_bars)
    pub wave : IsWave i m.wave
    pub fits : Fits l i m m.phase m.zone

  pub closed-IsDone :
      (l : Limits) (i : ℕ) (m : Machine F) (z : Option (Touch F))
      → FitsAway l i m z
      → All (IsDone l) (closed z)
  closed-IsDone l i m none h = tt
  closed-IsDone l i m (some z) h = ground arith

  pub Keeps-table : (m m' : Machine F) → Keeps m m' → table m' ≡ table m
  Keeps-table m m' k =
      map-append key m'.touches (closed m'.zone)
      ∙ ap₂ (λ x y. map key x ++ y) k.touches k.zone_key
      ∙ sym (map-append key m.touches (closed m.zone))

  pub Opens-table :
      (m m' : Machine F)
      → Opens m m'
      → table m' ≡ table m ++ (m.episode_id, m.touch_number + 1) ∷ []
  Opens-table m m' k =
      map-append key m'.touches (closed m'.zone) ∙ ap₂ (λ x y. map key x ++ y) k.touches k.zone_key

  -- A machine with the same rows, or with one more, has a table that is numbered.
  Keeps-Table :
      (m m' : Machine F)
      → Table (table m) m.episode_id m.touch_number
      → Keeps m m'
      → Table (table m') m'.episode_id m'.touch_number
  Keeps-Table m m' t k = rw (Keeps-table m m' k, k.episode_id, k.touch_number) t

  Opens-Table :
      (m m' : Machine F)
      → Table (table m) m.episode_id m.touch_number
      → Opens m m'
      → Table (table m') m'.episode_id m'.touch_number
  Opens-Table m m' t k =
      rw (Opens-table m m' k, k.episode_id, k.touch_number, add-one) (Table.new_touch t)

module _ {F : Type 0} ⦃f : Float F⦄ (l : Limits) (b : Bars F) (i : ℕ) where
  -- A zone that is replaced joins the rows that are done.
  phase_bar-IsDone :
      (p : Phase) (m : Machine F)
      → All (IsDone l) m.touches
      → Fits l i m p m.zone
      → All (IsDone l) (phase_bar l b i p m).0.touches
  unfolding phase_bar away_bar open_zone zone_bar zone_above zone_below zone_contact false_break_bar
      extend_break
  phase_bar-IsDone Phase.away m d h =
      ground
        (arith, All-append (IsDone l) m.touches (closed m.zone) d (closed-IsDone l i m m.zone h))
  phase_bar-IsDone Phase.zone m d h = ground arith
  phase_bar-IsDone Phase.false_break m d h = ground arith
  phase_bar-IsDone Phase.broken m d h = ground arith

  frame-Table :
      (m m' : Machine F)
      → Table (table m) m.episode_id m.touch_number
      → Keeps m m' ⊎ Opens m m'
      → Table (table m') m'.episode_id m'.touch_number
  frame-Table m m' t (inl k) = Keeps-Table m m' t k
  frame-Table m m' t (inr k) = Opens-Table m m' t k

  frame_fields :
      (m m' : Machine F)
      → Keeps m m' ⊎ Opens m m'
      → (m'.active ≡ m.active) × (m'.start ≡ m.start) × (m'.violation ≡ m.violation)
  frame_fields m m' (inl k) = (k.active, k.start, k.violation)
  frame_fields m m' (inr k) = (k.active, k.start, k.violation)

  -- A bar whose stack is not broken, in the phase that it starts in.
  rules-Ruled :
      (m : Machine F)
      → Rows l m
      → m.active ≡ true
      → Live l i m
      → Ruled l (suc i) (phase_bar l b i m.phase m).0
  rules-Ruled m s on v =
      let m' = (phase_bar l b i m.phase m).0 in
      let fr = phase_bar_frame l b i m.phase m in
      let same = frame_fields m m' fr in
      record {
        rows = record {
          tabled = frame-Table m m' s.tabled fr;
          done = phase_bar-IsDone m.phase m s.done v.fits;
        };
        active = same.0 ∙ on;
        started = omega (arith, same.1, v.started);
        calm = inr (omega (arith, same.2, v.calm));
        wave = phase_bar-IsWave l b i m.phase m v.wave;
        fits = phase_bar-Fits l b i m.phase m refl v.unbroken v.fits v.wave;
      }

  break-Ruled :
      (m : Machine F)
      → Rows l m
      → m.active ≡ true
      → m.start < i
      → IsWave i m.wave
      → Fits l i m m.phase m.zone
      → Ruled l (suc i) (break_stack l b i m)
  unfolding break_stack
  break-Ruled m s on st w h =
      let x = record m { wave = update_forming b i m.wave } in
      let c = close_entities l b i m.phase x in
      let m' = break_stack l b i m in
      let k = break_stack-Keeps l b i m in
      let (broken, wave) = break_stack_frame l b i m w in
      record {
        rows = record {
          tabled = Keeps-Table m m' s.tabled k;
          done = subst (All (IsDone l)) (sym k.touches) s.done;
        };
        active = k.active ∙ on;
        started = omega (arith, k.start);
        calm = inl broken;
        wave = wave;
        fits =
            FitsAway-same l b (suc i) c m' c.zone
              (close_entities-Fits l b i m.phase x
                (Fits-same l b i m x.wave m.violation m.phase m.zone h))
              refl refl;
      }

  -- A bar with no anchor value only moves the forming wave.
  wait-Ruled :
      (m : Machine F)
      → Rows l m
      → m.active ≡ true
      → Live l i m
      → Ruled l (suc i) (record m { wave = update_forming b i m.wave })
  wait-Ruled m s on v = record {
    rows = record { tabled = s.tabled; done = s.done };
    active = on;
    started = omega (arith, v.started);
    calm = inr v.calm;
    wave = update_forming-IsWave l b i m.wave v.wave;
    fits =
        Fits-same l b (suc i) m (update_forming b i m.wave) m.violation m.phase m.zone
          (Fits-later l b i m m.phase m.zone v.fits);
  }

  pub advance-Ruled :
      (m : Machine F) → Sound l i m → m.active ≡ true → Ruled l (suc i) (advance l b i m).0
  unfolding advance
  advance-Ruled m s on = elim (Bool-cases (ltb l.break_bars count)) [
    | inl over ↦ rw over (break-Ruled x rows on v.started v.wave fits)
    | inr calm ↦ elim (Bool-cases (f.is_finite (b.anchor i))) [
      | inl finite ↦ rw (calm, finite) (rules-Ruled x rows on (live calm))
      | inr missing ↦ rw (calm, missing) (wait-Ruled x rows on (live calm))
    ]
  ]
    where
      v : Live l i m
      v = s.live on

      count : ℕ
      count = if order l b i then 0 else m.violation + 1

      x : Machine F
      x = record m { violation = count }

      rows : Rows l x
      rows = record { tabled = s.rows.tabled; done = s.rows.done }

      fits : Fits l i x m.phase m.zone
      fits = Fits-same l b i m m.wave count m.phase m.zone v.fits

      live : ltb l.break_bars count ≡ false → Live l i x
      live calm = record {
        unbroken = v.unbroken;
        started = v.started;
        calm = ltb_false→le _ _ calm;
        wave = v.wave;
        fits = fits;
      }
