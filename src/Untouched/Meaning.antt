-- ===== src/Untouched/Meaning.antt =====
-- When the untouched anchor setup allows a bar.
use strategy_engine.Prelude.{
  ℕ, zero, suc, ◌+◌, ◌≤◌, ◌<◌, ◌≡◌, ◌↔◌, ◌⊎◌, inl, inr, arith, Bool, true, false, not, ltb,
  Bool-cases, and_left, and_right, ◌∙◌, sym,
}
use strategy_engine.Float.{Float}
use strategy_engine.Pandas.{RollingMax, IsRollingMax, InWindow, shift}
use strategy_engine.Untouched.Setup.{
  Side, Periods, Series, touch, side_ok, untouched_prior, armed_pre, first_touch, touch_active,
  untouched_anchor,
}

module _ {F : Type 0} ⦃f : Float F⦄ (rolling : RollingMax) (laws : IsRollingMax rolling)
    (p : Periods) (s : Series F) (side : Side) where
  -- The lookback bars before bar `i` are there, and none of them touched the anchor.
  abbrev pub Untouched : ℕ → Type 0
  Untouched i =
      (p.lookback ≤ i)
      × ((k : ℕ) → (k < i) × (i ≤ k + p.lookback) → touch rolling p s side k ≡ false)

  -- A bar of the last active ones was the first touch.
  abbrev pub RecentTouch : ℕ → Type 0
  RecentTouch i =
      (k : ℕ) × InWindow p.active_bars i k × (touch rolling p s side k ≡ true) × Untouched k

  abbrev touched : ℕ → Bool
  touched = touch rolling p s side

  -- What the window of the shifted touches says, once it is whole.
  abbrev Seen : ℕ → Type 0
  Seen i = (k : ℕ) × InWindow p.lookback i k × (shift touched k ≡ true)

  seen :
      (i : ℕ)
      → 0 < p.lookback
      → p.lookback ≤ i
      → (b : Bool) × (untouched_prior rolling p s side i ≡ not b) × ((b ≡ true) ↔ Seen i)
  unfolding untouched_prior
  seen i positive le =
      let r = laws.of_window p.lookback p.lookback (shift touched) i (omega arith) (omega arith) in
      let late : ltb i p.lookback ≡ false = ground arith in (r.0, rw (late, r.1), r.2)

  untouched_prior-Untouched :
      (i : ℕ) → 0 < p.lookback → untouched_prior rolling p s side i ≡ true → Untouched i
  unfolding untouched_prior
  untouched_prior-Untouched i positive h =
      let le : p.lookback ≤ i = ground arith in
      let r = seen i positive le in
      (
        le,
        λ k w. elim (Bool-cases (touched k)) [
          | inl e ↦
              let b : r.0 ≡ true = r.2.1 (suc k, (omega (arith, w.0), omega (arith, w.1)), e) in
              absurd (ground (arith, r.1, b))
          | inr e ↦ e
        ],
      )

  Untouched-Seen : (i : ℕ) → Untouched i → Seen i → true ≡ false
  Untouched-Seen i h (zero, w, e) = sym e
  Untouched-Seen i h (suc k, w, e) = sym e ∙ h.1 k (omega (arith, w.0), omega (arith, w.1))

  Untouched-untouched_prior :
      (i : ℕ) → 0 < p.lookback → Untouched i → untouched_prior rolling p s side i ≡ true
  Untouched-untouched_prior i positive h =
      let r = seen i positive h.0 in
      elim (Bool-cases r.0) [
        | inl e ↦ absurd (let x = Untouched-Seen i h (r.2.0 e) in cc)
        | inr e ↦ r.1 ∙ rw e
      ]

  -- The bars after the first touch.
  active :
      (i : ℕ)
      → 0 < p.active_bars
      → (touch_active rolling p s side i ≡ true)
        ↔ ((k : ℕ) × InWindow p.active_bars i k × (first_touch rolling p s side k ≡ true))
  unfolding touch_active
  active i positive =
      let r =
        laws.of_window p.active_bars 1 (first_touch rolling p s side) i (omega arith)
          (omega arith) in
      (λ h. r.2.0 (ground (arith, r.1, h)), λ h. let b = r.2.1 h in rw (r.1) b)

  -- With the documented rolling maximum of pandas and positive periods, the untouched anchor setup
  -- allows a bar exactly if either its close is on the side of the trend, it does not touch the
  -- anchor, and none of the whole lookback before it did, or one of the last active bars touched
  -- the anchor after a whole lookback without a touch.
  pub untouched_anchor_iff :
      (i : ℕ)
      → 0 < p.lookback
      → 0 < p.active_bars
      → ((untouched_anchor rolling p s side i).allowed ≡ true) ↔ (
          ((side_ok rolling p s side i ≡ true) × (touch rolling p s side i ≡ false) × Untouched i)
          ⊎ RecentTouch i)
  unfolding untouched_anchor
  untouched_anchor_iff i lookback active_bars = (there, back)
    where
      armed_bar :
          armed_pre rolling p s side i ≡ true
          → (side_ok rolling p s side i ≡ true) × (touch rolling p s side i ≡ false) × Untouched i
      armed_bar h =
          (ground arith, ground arith, untouched_prior-Untouched i lookback (ground arith))

      recent : touch_active rolling p s side i ≡ true → RecentTouch i
      recent h =
          let r = (active i active_bars).0 h in
          (
            r.0,
            r.1,
            and_left (touched r.0) (untouched_prior rolling p s side r.0) r.2,
            untouched_prior-Untouched r.0 lookback
                (and_right (touched r.0) (untouched_prior rolling p s side r.0) r.2),
          )

      there :
          (untouched_anchor rolling p s side i).allowed ≡ true
          → ((side_ok rolling p s side i ≡ true) × (touch rolling p s side i ≡ false) × Untouched i)
            ⊎ RecentTouch i
      there h = elim (Bool-cases (armed_pre rolling p s side i)) [
        | inl e ↦ inl (armed_bar e)
        | inr e ↦ inr (recent (ground arith))
      ]

      back :
          ((side_ok rolling p s side i ≡ true) × (touch rolling p s side i ≡ false) × Untouched i)
            ⊎ RecentTouch i
          → (untouched_anchor rolling p s side i).allowed ≡ true
      back (inl (ok_side, clear, u)) = rw (ok_side, clear, Untouched-untouched_prior i lookback u)
      back (inr (k, w, t, u)) =
          let first : first_touch rolling p s side k ≡ true =
            rw (t, Untouched-untouched_prior k lookback u) in
          let on = (active i active_bars).1 (k, w, first) in ground (arith, on)
