-- ===== src/Blocker/Peak.antt =====
-- When the trend strength blocker lets a bar through: what its running maximum stands for.
use strategy_engine.Prelude.{
  ℕ, zero, suc, ◌+◌, ◌≤◌, ◌≡◌, ◌↔◌, ◌⊎◌, inl, inr, refl, arith, Bool, true, false, if◌then◌else◌,
  Bool-cases, ◌∙◌, ap, subst, leb, sym,
}
use strategy_engine.Prelude.Int.{ℤ, pos, negsuc, ◌+ℤ◌, ◌-ℤ◌, ◌≤ℤ◌, ltb_ℤ, leb_ℤ}
use strategy_engine.Float.{Float}
use strategy_engine.Numpy.{Numpy, IsNumpy}
use strategy_engine.Blocker.Trend.{
  Side, TrendParams, TrendSeries, Reason, finite, qualifies, candidate, peak_index, too_low,
  flipped, trend_strength_blocker,
}

-- Bar `k` is one of the `count` bars up to bar `i`.
abbrev pub Recent : ℤ → ℕ → ℕ → Type 0
Recent count i k = (k ≤ i) × (pos (i + 1) ≤ℤ pos k +ℤ count)

module _ {F : Type 0} ⦃f : Float F⦄ (np : Numpy F) (laws : IsNumpy np) (p : TrendParams F)
    (s : TrendSeries F) (side : Side) where
  abbrev q : ℕ → Bool
  q = qualifies np p s side

  abbrev last : ℕ → ℤ
  last = np.running_max (candidate np p s side)

  -- No bar so far qualifies, or it is one that does.
  abbrev Found : ℕ → ℤ → Type 0
  Found i r = (r ≡ negsuc 0) ⊎ ((k : ℕ) × (k ≤ i) × (q k ≡ true) × (r ≡ pos k))

  keep : (i : ℕ) (r : ℤ) → Found i r → (if ltb_ℤ r (negsuc 0) then negsuc 0 else r) ≡ r
  keep i r (inl e) = rw e
  keep i r (inr (k, l, h, e)) = rw e (ground arith)

  take :
      (i : ℕ) (r : ℤ) → Found i r → (if ltb_ℤ r (pos (suc i)) then pos (suc i) else r) ≡ pos (suc i)
  take i r (inl e) = rw e (ground arith)
  take i r (inr (k, l, h, e)) =
      let less : ltb_ℤ (pos k) (pos (suc i)) ≡ true = ground arith in rw (e, less)

  later : (i : ℕ) (r : ℤ) → Found i r → Found (suc i) r
  later i r (inl e) = inl e
  later i r (inr (k, l, h, e)) = inr (k, omega arith, h, e)

  last_lem : (i : ℕ) → Found i (last i)
  last_lem zero = elim (Bool-cases (q 0)) [
    | inl e ↦ inr (0, omega arith, e, laws.running_max_first (candidate np p s side) ∙ rw e)
    | inr e ↦ inl (laws.running_max_first (candidate np p s side) ∙ rw e)
  ]
  last_lem (suc i) =
      let before = last_lem i in
      let step = laws.running_max_next (candidate np p s side) i in
      elim (Bool-cases (q (suc i))) [
        | inl e ↦ inr (suc i, omega arith, e, step ∙ rw e (take i (last i) before))
        | inr e ↦
            subst (Found (suc i)) (sym (step ∙ rw e (keep i (last i) before)))
              (later i (last i) before)
      ]

  -- It is not before a bar that qualifies.
  last-ge : (i k : ℕ) → k ≤ i → q k ≡ true → pos k ≤ℤ last i
  last-ge zero k h e =
      let at : k ≡ 0 = omega arith in
      let first : q 0 ≡ true = subst (λ x. q x ≡ true) at e in
      let is : last 0 ≡ pos 0 = laws.running_max_first (candidate np p s side) ∙ rw first in
      rw (is, at) (omega arith)
  last-ge (suc i) k h e =
      let step = laws.running_max_next (candidate np p s side) i in
      let before = last_lem i in
      elim (Bool-cases (q (suc i))) [
        | inl t ↦
            let is : last (suc i) ≡ pos (suc i) = step ∙ rw t (take i (last i) before) in
            rw is (omega arith)
        | inr t ↦
            let is : last (suc i) ≡ last i = step ∙ rw t (keep i (last i) before) in
            let at : k ≤ i = elim (Bool-cases (leb k i)) [
              | inl g ↦ ground arith
              | inr g ↦
                  let same : k ≡ suc i = ground arith in
                  absurd (ground (arith, subst (λ x. q x ≡ true) same e))
            ] in
            rw is (last-ge i k at e)
      ]

  -- The peak that the bar needs.
  abbrev pub RecentPeak : ℕ → Type 0
  RecentPeak i =
      (k : ℕ) × Recent p.peak_lookback_bars i k
      × (q k ≡ true)
      × (pos i ≤ℤ pos k +ℤ p.max_bars_since_peak)

  abbrev FreshAt : ℕ → ℤ → Type 0
  FreshAt i r =
      (ltb_ℤ r (pos 0) ≡ false)
      × (ltb_ℤ p.max_bars_since_peak (if leb_ℤ (pos 0) r then pos i -ℤ r else negsuc 0) ≡ false)

  abbrev Fresh : ℕ → Type 0
  Fresh i = FreshAt i (peak_index np p s side i)

  in_window : (a b r : ℤ) → leb_ℤ (a -ℤ b) r ≡ true → a ≤ℤ r +ℤ b
  unfolding ◌+ℤ◌ ◌-ℤ◌
  in_window a b r h = ground arith

  window_in : (a b r : ℤ) → a ≤ℤ r +ℤ b → leb_ℤ (a -ℤ b) r ≡ true
  unfolding ◌+ℤ◌ ◌-ℤ◌
  window_in a b r h = ground arith

  not_older : (a b r : ℤ) → ltb_ℤ b (a -ℤ r) ≡ false → a ≤ℤ r +ℤ b
  unfolding ◌+ℤ◌ ◌-ℤ◌
  not_older a b r h = ground arith

  older_not : (a b r : ℤ) → a ≤ℤ r +ℤ b → ltb_ℤ b (a -ℤ r) ≡ false
  unfolding ◌+ℤ◌ ◌-ℤ◌
  older_not a b r h = ground arith

  further : (a b r t : ℤ) → r ≤ℤ t → a ≤ℤ r +ℤ b → a ≤ℤ t +ℤ b
  unfolding ◌+ℤ◌
  further a b r t h l = ground arith

  natural : (k : ℕ) → leb_ℤ (pos 0) (pos k) ≡ true
  natural k = ground arith

  peak_of :
      (i : ℕ) (r : ℤ)
      → last i ≡ r
      → peak_index np p s side i
        ≡ (if leb_ℤ (pos (i + 1) -ℤ p.peak_lookback_bars) r then r else negsuc 0)
  unfolding peak_index
  peak_of i r e = ap (λ x. if leb_ℤ (pos (i + 1) -ℤ p.peak_lookback_bars) x then x else negsuc 0) e

  Fresh-RecentPeak : (i : ℕ) → Fresh i → RecentPeak i
  Fresh-RecentPeak i h = by_last (last i) refl (last_lem i)
    where
      by_last : (r : ℤ) → last i ≡ r → Found i r → RecentPeak i
      by_last r e found = elim (Bool-cases (leb_ℤ (pos (i + 1) -ℤ p.peak_lookback_bars) r)) [
        | inl w ↦
            let is : peak_index np p s side i ≡ r = peak_of i r e ∙ rw w in
            let at : FreshAt i r = subst (FreshAt i) is h in by_found r found w at
        | inr w ↦
            let is : peak_index np p s side i ≡ negsuc 0 = peak_of i r e ∙ rw w in
            let at : FreshAt i (negsuc 0) = subst (FreshAt i) is h in absurd (ground (arith, at.0))
      ]
        where
          by_found :
              (t : ℤ)
              → Found i t
              → leb_ℤ (pos (i + 1) -ℤ p.peak_lookback_bars) t ≡ true
              → FreshAt i t
              → RecentPeak i
          by_found t (inl n) w at = absurd (let x = subst (FreshAt i) n at in ground (arith, x.0))
          by_found t (inr (k, l, g, m)) w at =
              let x = subst (FreshAt i) m at in
              let y = subst (λ z. leb_ℤ (pos (i + 1) -ℤ p.peak_lookback_bars) z ≡ true) m w in
              (
                k,
                (l, in_window (pos (i + 1)) p.peak_lookback_bars (pos k) y),
                g,
                not_older (pos i) p.max_bars_since_peak (pos k) (
                    subst
                      (λ b.
                        ltb_ℤ p.max_bars_since_peak (if b then pos i -ℤ pos k else negsuc 0)
                        ≡ false)
                      (natural k) x.1),
              )

  RecentPeak-Fresh : (i : ℕ) → RecentPeak i → Fresh i
  RecentPeak-Fresh i (k, w, g, age) = by_last (last i) refl (last_lem i) (last-ge i k w.0 g)
    where
      by_last : (r : ℤ) → last i ≡ r → Found i r → pos k ≤ℤ r → Fresh i
      by_last r e (inl n) h = absurd (let x = subst (λ z. pos k ≤ℤ z) n h in omega arith)
      by_last r e (inr (t, l, _, m)) h =
          let h' = subst (λ z. pos k ≤ℤ z) m h in
          let inside =
            window_in (pos (i + 1)) p.peak_lookback_bars (pos t)
              (further (pos (i + 1)) p.peak_lookback_bars (pos k) (pos t) h' w.1) in
          let young =
            older_not (pos i) p.max_bars_since_peak (pos t)
              (further (pos i) p.max_bars_since_peak (pos k) (pos t) h' age) in
          let at : FreshAt i (pos t) = (ground arith, rw (natural t) young) in
          let is : peak_index np p s side i ≡ pos t = peak_of i (pos t) (e ∙ m) ∙ rw inside in
          subst (FreshAt i) (sym is) at

  -- With the documented running maximum of numpy, the trend strength blocker lets a bar through
  -- exactly if its indicators are finite, some bar of the peak lookback up to it qualifies as a
  -- peak and is at most the maximal number of bars old, its ADX is not too low and no opposite
  -- flip blocks it; and exactly then its reason says that it is allowed.
  pub trend_strength_blocker_iff :
      (i : ℕ)
      → (((trend_strength_blocker np p s side i).passes ≡ true) ↔ (
          (finite np p s side i ≡ true)
          × RecentPeak i
          × (too_low np p s side i ≡ false)
          × (flipped np p s side i ≡ false)))
        × (((trend_strength_blocker np p s side i).passes ≡ true)
            ↔ ((trend_strength_blocker np p s side i).reason ≡ Reason.allowed))
  unfolding trend_strength_blocker
  trend_strength_blocker_iff i = (
    (
      (λ h. (
        ground arith,
        Fresh-RecentPeak i (ground arith, ground arith),
        ground arith,
        ground arith,
      )),
      λ h. let r = RecentPeak-Fresh i h.1 in ground (arith, r.0, r.1, h.0, h.2, h.3),
    ),
    (λ h. ground arith, λ h. ground arith),
  )
