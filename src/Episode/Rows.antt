-- ===== src/Episode/Rows.antt =====
-- Every row of a side's touch table has its bars in order, and its false break is a long one that
-- starts after the zone's last contact.
use strategy_engine.Prelude.{
  ℕ, suc, ◌≤◌, ◌<◌, ◌≡◌, Bool-cases, inl, inr, subst, sym, List, [], ◌∷◌, ◌++◌, map, Option, none,
  some, All, All-append,
}
use strategy_engine.Float.{Float}
use strategy_engine.Numpy.{Numpy, IsNumpy}
use strategy_engine.Episode.Data.{Phase, Limits, Bars, Machine, Touch, FalseBreak}
use strategy_engine.Episode.Step.{run, project_long}
use strategy_engine.Episode.Touches.{closed, on_some}
use strategy_engine.Episode.Side.{Side, mirror_bars, unmirror_row, unmirror_break, project_side}
use strategy_engine.Episode.Invariant.{Numbered, IsBreak, Settled, Running, Fits}
use strategy_engine.Episode.Sound.{IsDone, Sound}
use strategy_engine.Episode.Pass.{run-Sound}

module _ {F : Type 0} where
  abbrev pub HasBreak : ℕ → ℕ → Option (FalseBreak F) → Type 0
  HasBreak window zone_end none = Unit {0}
  HasBreak window zone_end (some x) = IsBreak window zone_end x

  -- Origin, peak, touch and the end of the zone follow one another, and the zone starts at the
  -- touch. A false break starts after the zone's end and has more than `window` bars.
  abbrev pub IsRow : Limits → Touch F → Type 0
  IsRow l z =
      (z.origin_bar ≤ z.peak_bar)
      × (z.peak_bar < z.touch_bar)
      × (z.touch_bar ≡ z.zone_start)
      × (z.zone_start ≤ z.zone_end)
      × HasBreak l.window z.zone_end z.false_break

  Settled-HasBreak : (w e : ℕ) (x : Option (FalseBreak F)) → Settled w e x → HasBreak w e x
  Settled-HasBreak w e none h = tt
  Settled-HasBreak w e (some x) h = h.1

  Running-HasBreak : (i w e : ℕ) (x : Option (FalseBreak F)) → Running i w e x → HasBreak w e x
  Running-HasBreak i w e none h = tt
  Running-HasBreak i w e (some x) h = h.2

  module _ (l : Limits) where
    Numbered-IsRow :
        (i id n : ℕ) (z : Touch F)
        → Numbered i id n z
        → HasBreak l.window z.zone_end z.false_break
        → IsRow l z
    Numbered-IsRow i id n z h k = (h.up_bars, h.down_bars, h.at_start, h.zone_bars, k)

    IsDone-IsRow : (zs : List (Touch F)) → All (IsDone l) zs → All (IsRow l) zs
    IsDone-IsRow [] h = tt
    IsDone-IsRow (z ∷ zs) (h, hs) = (
      Numbered-IsRow (suc z.zone_end) z.episode_id z.number z h.0
          (Settled-HasBreak l.window z.zone_end z.false_break h.2),
      IsDone-IsRow zs hs,
    )

    Fits-IsRow :
        (i : ℕ) (m : Machine F) (p : Phase) (z : Option (Touch F))
        → Fits l i m p z
        → All (IsRow l) (closed z)
    Fits-IsRow i m p none h = tt
    Fits-IsRow i m Phase.away (some z) h = (
      Numbered-IsRow i m.episode_id m.touch_number z h.0
          (Settled-HasBreak l.window z.zone_end z.false_break h.2),
      tt,
    )
    Fits-IsRow i m Phase.zone (some z) h = (
      Numbered-IsRow i m.episode_id m.touch_number z h.0
          (subst (HasBreak l.window z.zone_end) (sym h.2) tt),
      tt,
    )
    Fits-IsRow i m Phase.false_break (some z) h = (
      Numbered-IsRow i m.episode_id m.touch_number z h.0
          (Running-HasBreak i l.window z.zone_end z.false_break h.2),
      tt,
    )
    Fits-IsRow i m Phase.broken (some z) h = (
      Numbered-IsRow i m.episode_id m.touch_number z h.0
          (Settled-HasBreak l.window z.zone_end z.false_break h.2),
      tt,
    )

module _ {F : Type 0} ⦃f : Float F⦄ (l : Limits) where
  Sound-IsRow : (i : ℕ) (m : Machine F) → Sound l i m → All (IsRow l) (m.touches ++ closed m.zone)
  Sound-IsRow i m s =
      All-append (IsRow l) m.touches (closed m.zone) (IsDone-IsRow l m.touches s.rows.done)
        (elim (Bool-cases m.active) [
          | inl on ↦ Fits-IsRow l i m m.phase m.zone (s.live on).fits
          | inr off ↦ subst (λ z. All (IsRow l) (closed z)) (sym (s.idle off)) tt
        ])

  unmirror_row-IsRow :
      (zs : List (Touch F)) → All (IsRow l) zs → All (IsRow l) (map unmirror_row zs)
  unfolding unmirror_row
  unmirror_row-IsRow [] h = tt
  unmirror_row-IsRow (z ∷ zs) (h, hs) =
      ((h.0, h.1, h.2, h.3, flip z.false_break h.4), unmirror_row-IsRow zs hs)
    where
      flip :
          (x : Option (FalseBreak F))
          → HasBreak l.window z.zone_end x
          → HasBreak l.window z.zone_end (on_some unmirror_break x)
      flip none k = tt
      flip (some x) k = k

  -- In the touch table of either side every row has its origin, peak, touch and zone end in this
  -- order, its zone starts at the touch, and a false break starts after the end of the zone and
  -- has more than `window` bars.
  pub project_side-IsRow :
      (np : Numpy F)
      → IsNumpy np
      → (b : Bars F) (size : ℕ) (side : Side)
      → All (IsRow l) (project_side np l b size side).touches
  unfolding project_side project_long
  project_side-IsRow np laws b size Side.long =
      Sound-IsRow size (run l b np size).0 (run-Sound np laws l b size)
  project_side-IsRow np laws b size Side.short =
      unmirror_row-IsRow
        ((run l (mirror_bars b) np size).0.touches ++ closed (run l (mirror_bars b) np size).0.zone)
        (Sound-IsRow size (run l (mirror_bars b) np size).0
          (run-Sound np laws l (mirror_bars b) size))
