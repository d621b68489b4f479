-- ===== src/Episode/Invariant.antt =====
-- The invariant of the machine of `_project_long`: what its zone is in each phase, how the touch
-- table is numbered, and that every bar keeps both.
use strategy_engine.Prelude.{
  ℕ, suc, ◌+◌, ◌-◌, ◌≤◌, ◌<◌, ◌≡◌, refl, arith, ltb, Bool, true, false, Bool-cases, subst, sym, ◌∙◌,
  ltb→lt, inl, inr, Option, none, some, ◌≢◌,
}
use strategy_engine.Float.{Float}
use strategy_engine.Episode.Data.{Phase, Limits, Bars, Machine, Touch, FalseBreak, Wave}
use strategy_engine.Episode.Wave.{update_forming}
use strategy_engine.Episode.Step.{
  touches_anchor, begin_break, extend_run, zone_extremes, extend_break, close_entities, open_zone,
  away_bar, zone_above, zone_below, zone_contact, zone_bar, false_break_bar, phase_bar,
}
use strategy_engine.Episode.Touches.{on_zone, finish_zone, finish_break, grow_break}

module _ {F : Type 0} where
  -- The row of touch `n` of episode `id`, its bars in order and before bar `i`.
  pub record Numbered (i id n : ℕ) (z : Touch F) : Type 0 where
    pub of_episode : z.episode_id ≡ id
    pub numbered : z.number ≡ n
    pub counted : 0 < n
    pub at_start : z.touch_bar ≡ z.zone_start
    pub zone_bars : z.zone_start ≤ z.zone_end
    pub past : z.zone_end < i
    pub up_bars : z.origin_bar ≤ z.peak_bar
    pub down_bars : z.peak_bar < z.touch_bar

  -- A false break begins after the last contact of its zone and has more than `window` bars.
  abbrev pub IsBreak : ℕ → ℕ → FalseBreak F → Type 0
  IsBreak window zone_end x = (zone_end < x.fb_start) × (x.fb_start + window ≤ x.fb_end)

  -- The false break of a zone, if there is one, has ended; or it is there and still runs.
  abbrev pub Settled : ℕ → ℕ → Option (FalseBreak F) → Type 0
  Settled window zone_end none = Unit {0}
  Settled window zone_end (some x) = (x.fb_final ≡ true) × IsBreak window zone_end x

  abbrev pub Running : ℕ → ℕ → ℕ → Option (FalseBreak F) → Type 0
  Running i window zone_end none = ⊥
  Running i window zone_end (some x) =
      (x.fb_final ≡ false) × (x.fb_end < i) × IsBreak window zone_end x

  abbrev pub FitsAway : Limits → ℕ → Machine F → Option (Touch F) → Type 0
  FitsAway l i m none = m.touch_number ≡ 0
  FitsAway l i m (some z) =
      Numbered i m.episode_id m.touch_number z
      × (z.zone_final ≡ true)
      × Settled l.window z.zone_end z.false_break

  -- What the zone of the machine is in a phase, before bar `i`.
  abbrev pub Fits : Limits → ℕ → Machine F → Phase → Option (Touch F) → Type 0
  Fits l i m Phase.away z = FitsAway l i m z
  Fits l i m Phase.zone none = ⊥
  Fits l i m Phase.zone (some z) =
      Numbered i m.episode_id m.touch_number z
      × (z.zone_final ≡ false)
      × (z.false_break ≡ none)
      × (z.zone_end ≡ m.last_contact)
      × (m.run + m.last_contact < i)
      × (m.run ≤ l.window)
  Fits l i m Phase.false_break none = ⊥
  Fits l i m Phase.false_break (some z) =
      Numbered i m.episode_id m.touch_number z
      × (z.zone_final ≡ true)
      × Running i l.window z.zone_end z.false_break
  Fits l i m Phase.broken z = FitsAway l i m z

  -- The bars of the forming wave, before bar `i`.
  abbrev pub IsWave : ℕ → Wave F → Type 0
  IsWave i w = (w.s_bar ≤ w.p_bar) × (w.p_bar < i)

module _ {F : Type 0} ⦃f : Float F⦄ (l : Limits) (b : Bars F) (i : ℕ) where
  grow_break-Running :
      (low high : F) (w e : ℕ) (z : Touch F)
      → Running i w e z.false_break
      → Running (suc i) w e (grow_break i low high z).false_break
  unfolding grow_break
  grow_break-Running low high w e z h = go z.false_break h
    where
      go :
          (x : Option (FalseBreak F))
          → Running i w e x
          → Running (suc i) w e (grow_break i low high (record z { false_break = x })).false_break
      go none h = h
      go (some x) h = ground arith

  finish_break-Settled :
      (w e : ℕ) (comeback : Bool) (z : Touch F)
      → Running (suc i) w e z.false_break
      → Settled w e (finish_break i comeback z).false_break
  finish_break-Settled w e comeback z h = go z.false_break h
    where
      go :
          (x : Option (FalseBreak F))
          → Running (suc i) w e x
          → Settled w e (finish_break i comeback (record z { false_break = x })).false_break
      go none h = absurd h
      go (some x) h = ground arith

  Running-later : (w e : ℕ) (x : Option (FalseBreak F)) → Running i w e x → Running (suc i) w e x
  Running-later w e none h = h
  Running-later w e (some x) h = ground arith

  extend-Fits :
      (m : Machine F) (low high : F) (z : Option (Touch F))
      → Fits l i m Phase.false_break z
      → Fits l (suc i) m Phase.false_break (on_zone (grow_break i low high) z)
  unfolding grow_break
  extend-Fits m low high none h = h
  extend-Fits m low high (some z) h =
      (ground arith, h.1, grow_break-Running low high l.window z.zone_end z h.2)

  -- An ended false break leaves a row that is final.
  finish-Fits :
      (m : Machine F) (comeback : Bool) (z : Option (Touch F))
      → Fits l (suc i) m Phase.false_break z
      → FitsAway l (suc i) m (on_zone (finish_break i comeback) z)
  finish-Fits m comeback none h = absurd h
  finish-Fits m comeback (some z) h =
      (ground arith, h.1, finish_break-Settled l.window z.zone_end comeback z h.2)

  finish_zone-Fits :
      (m : Machine F) (z : Option (Touch F))
      → Fits l i m Phase.zone z
      → FitsAway l (suc i) m (on_zone (finish_zone i) z)
  finish_zone-Fits m none h = absurd h
  finish_zone-Fits m (some z) h = ground arith

  pub FitsAway-same :
      (m m' : Machine F) (z : Option (Touch F))
      → FitsAway l i m z
      → m'.episode_id ≡ m.episode_id
      → m'.touch_number ≡ m.touch_number
      → FitsAway l i m' z
  FitsAway-same m m' none h ids ns = ns ∙ h
  FitsAway-same m m' (some z) h ids ns = ground arith

  -- The forming wave and the violation count have no part in what fits.
  pub Fits-same :
      (m : Machine F) (w : Wave F) (v : ℕ) (p : Phase) (z : Option (Touch F))
      → Fits l i m p z
      → Fits l i (record m { wave = w; violation = v }) p z
  Fits-same m w v Phase.away none h = h
  Fits-same m w v Phase.away (some z) h = h
  Fits-same m w v Phase.zone none h = h
  Fits-same m w v Phase.zone (some z) h = h
  Fits-same m w v Phase.false_break none h = h
  Fits-same m w v Phase.false_break (some z) h = h
  Fits-same m w v Phase.broken none h = h
  Fits-same m w v Phase.broken (some z) h = h

  pub FitsAway-later :
      (m : Machine F) (z : Option (Touch F)) → FitsAway l i m z → FitsAway l (suc i) m z
  FitsAway-later m none h = h
  FitsAway-later m (some z) h = (ground arith, h.1, h.2)

  pub Fits-later :
      (m : Machine F) (p : Phase) (z : Option (Touch F)) → Fits l i m p z → Fits l (suc i) m p z
  Fits-later m Phase.away z h = FitsAway-later m z h
  Fits-later m Phase.zone none h = h
  Fits-later m Phase.zone (some z) h = ground arith
  Fits-later m Phase.false_break none h = h
  Fits-later m Phase.false_break (some z) h =
      (ground arith, h.1, Running-later l.window z.zone_end z.false_break h.2)
  Fits-later m Phase.broken z h = FitsAway-later m z h

  extend_break-Fits :
      (m : Machine F)
      → Fits l i m Phase.false_break m.zone
      → let m' = extend_break l b i m in Fits l (suc i) m' Phase.false_break m'.zone
  unfolding extend_break
  extend_break-Fits m h = extend-Fits m _ _ m.zone h

  -- A stack break leaves no open entity.
  pub close_entities-Fits :
      (p : Phase) (m : Machine F)
      → Fits l i m p m.zone
      → let m' = close_entities l b i p m in FitsAway l (suc i) m' m'.zone
  unfolding close_entities
  close_entities-Fits Phase.away m h = FitsAway-later m m.zone h
  close_entities-Fits Phase.zone m h = finish_zone-Fits m m.zone h
  close_entities-Fits Phase.false_break m h =
      let m' = extend_break l b i m in finish-Fits m' false m'.zone (extend_break-Fits m h)
  close_entities-Fits Phase.broken m h = FitsAway-later m m.zone h

  open_zone-Fits :
      (m : Machine F)
      → IsWave i m.wave
      → let m' = open_zone l b i m in Fits l (suc i) m' Phase.zone m'.zone
  unfolding open_zone
  open_zone-Fits m w = ground arith

  -- A zone row as it stands fits the machine with a run no longer than before.
  zone_row-Fits :
      (m m' : Machine F) (z : Option (Touch F))
      → Fits l i m Phase.zone z
      → m'.episode_id ≡ m.episode_id
      → m'.touch_number ≡ m.touch_number
      → m'.last_contact ≡ m.last_contact
      → m'.run ≤ m.run + 1
      → m'.run ≤ l.window
      → Fits l (suc i) m' Phase.zone z
  zone_row-Fits m m' none h ids ns cs rs ws = h
  zone_row-Fits m m' (some z) h ids ns cs rs ws = ground arith

  zone_above-Fits :
      (m : Machine F)
      → m.phase ≡ Phase.zone
      → Fits l i m Phase.zone m.zone
      → let m' = (zone_above l b i m).0 in Fits l (suc i) m' m'.phase m'.zone
  unfolding zone_above
  zone_above-Fits m e h = elim (Bool-cases (ltb l.window (i - m.last_contact))) [
    | inl over ↦ rw over (finish_zone-Fits m m.zone h)
    | inr more ↦ rw more (
        subst (λ p. Fits l (suc i) (record m { run = 0 }) p m.zone) (sym e)
          (zone_row-Fits m (record m { run = 0 }) m.zone h refl refl refl (omega arith)
            (omega arith)))
  ]

  begin_break-Fits :
      (m m' : Machine F) (z : Option (Touch F))
      → Fits l i m Phase.zone z
      → m'.run ≡ m.run + 1
      → m'.episode_id ≡ m.episode_id
      → m'.touch_number ≡ m.touch_number
      → l.window < m'.run
      → Fits l (suc i) m' Phase.false_break (on_zone (begin_break l b i m') z)
  begin_break-Fits m m' none h rs ids ns ws = h
  begin_break-Fits m m' (some z) h rs ids ns ws = ground arith

  zone_below-Fits :
      (m : Machine F)
      → m.phase ≡ Phase.zone
      → Fits l i m Phase.zone m.zone
      → let m' = (zone_below l b i m).0 in Fits l (suc i) m' m'.phase m'.zone
  unfolding zone_below
  zone_below-Fits m e h =
      let m' = extend_run l b i m in
      elim (Bool-cases (ltb l.window (m.run + 1))) [
        | inl over ↦ rw over (begin_break-Fits m m' m.zone h refl refl refl (ltb→lt _ _ over))
        | inr more ↦ rw more (
            subst (λ p. Fits l (suc i) m' p m.zone) (sym e)
              (zone_row-Fits m m' m.zone h refl refl refl (omega arith) (ground arith)))
      ]

  zone_contact-Fits :
      (m : Machine F)
      → m.phase ≡ Phase.zone
      → Fits l i m Phase.zone m.zone
      → let m' = zone_contact l b i m in Fits l (suc i) m' m'.phase m'.zone
  unfolding zone_contact
  zone_contact-Fits m e h = subst (λ p. Fits l (suc i) m' p m'.zone) (sym e) (go m.zone h)
    where
      m' : Machine F
      m' = zone_contact l b i m

      go :
          (z : Option (Touch F))
          → Fits l i m Phase.zone z
          → Fits l (suc i) m' Phase.zone (
              on_zone
                (λ z. record z { zone_end = i; zone_low = m.all_low; zone_high = m.all_high })
                z)
      go none h = h
      go (some z) h = ground arith

  zone_bar-Fits :
      (m : Machine F)
      → m.phase ≡ Phase.zone
      → Fits l i m Phase.zone m.zone
      → let m' = (zone_bar l b i m).0 in Fits l (suc i) m' m'.phase m'.zone
  unfolding zone_bar
  zone_bar-Fits m e h =
      let x = zone_extremes l b i m in
      let k : Fits l i x Phase.zone m.zone = same_fields m.zone h in
      elim (Bool-cases (f.lt (b.anchor i) (b.low i))) [
        | inl above ↦ rw above (zone_above-Fits x e k)
        | inr reaches ↦ elim (Bool-cases (f.lt (b.high i) (b.anchor i))) [
          | inl below ↦ rw (reaches, below) (zone_below-Fits x e k)
          | inr covers ↦ rw (reaches, covers) (zone_contact-Fits x e k)
        ]
      ]
    where
      same_fields :
          (z : Option (Touch F))
          → Fits l i m Phase.zone z
          → Fits l i (zone_extremes l b i m) Phase.zone z
      same_fields none h = h
      same_fields (some z) h = h

  false_break_bar-Fits :
      (m : Machine F)
      → m.phase ≡ Phase.false_break
      → Fits l i m Phase.false_break m.zone
      → let m' = (false_break_bar l b i m).0 in Fits l (suc i) m' m'.phase m'.zone
  unfolding false_break_bar extend_break
  false_break_bar-Fits m e h =
      let x = record m { wave = update_forming b i m.wave } in
      let k = extend_break-Fits x (same_fields m.zone h) in
      let m' = extend_break l b i x in
      elim (Bool-cases (f.lt (b.anchor i) (b.close i))) [
        | inl back ↦ rw back (finish-Fits m' true m'.zone k)
        | inr still ↦ rw still (subst (λ p. Fits l (suc i) m' p m'.zone) (sym e) k)
      ]
    where
      same_fields :
          (z : Option (Touch F))
          → Fits l i m Phase.false_break z
          → Fits l i (record m { wave = update_forming b i m.wave }) Phase.false_break z
      same_fields none h = h
      same_fields (some z) h = h

  away_bar-Fits :
      (m : Machine F)
      → m.phase ≡ Phase.away
      → Fits l i m Phase.away m.zone
      → IsWave i m.wave
      → let m' = (away_bar l b i m).0 in Fits l (suc i) m' m'.phase m'.zone
  unfolding away_bar open_zone
  away_bar-Fits m e h w = elim (Bool-cases (touches_anchor l b i)) [
    | inl touched ↦ rw touched (open_zone-Fits m w)
    | inr clear ↦ rw clear (
        subst (λ p. Fits l (suc i) (record m { wave = update_forming b i m.wave }) p m.zone) (sym e)
          (same_fields m.zone (FitsAway-later m m.zone h)))
  ]
    where
      same_fields :
          (z : Option (Touch F))
          → FitsAway l (suc i) m z
          → FitsAway l (suc i) (record m { wave = update_forming b i m.wave }) z
      same_fields none h = h
      same_fields (some z) h = h

  pub phase_bar-Fits :
      (p : Phase) (m : Machine F)
      → m.phase ≡ p
      → p ≢ Phase.broken
      → Fits l i m p m.zone
      → IsWave i m.wave
      → let m' = (phase_bar l b i p m).0 in Fits l (suc i) m' m'.phase m'.zone
  unfolding phase_bar
  phase_bar-Fits Phase.away m e ne h w = away_bar-Fits m e h w
  phase_bar-Fits Phase.zone m e ne h w = zone_bar-Fits m e h
  phase_bar-Fits Phase.false_break m e ne h w = false_break_bar-Fits m e h
  phase_bar-Fits Phase.broken m e ne h w = absurd (ne refl)
