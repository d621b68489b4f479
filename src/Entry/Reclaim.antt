-- ===== src/Entry/Reclaim.antt =====
-- When the reclaim trigger fires.
use strategy_engine.Prelude.{
  ℕ, zero, suc, ◌+◌, ◌-◌, ◌≤◌, ◌<◌, ◌≡◌, ◌↔◌, arith, leb, Bool, true, ◌&&◌, Bool-cases, inl, inr,
  and_left, and_right, subst, le→leb,
}
use strategy_engine.Float.{Float}
use strategy_engine.Result.{ok}
use strategy_engine.Entry.Masks.{
  Side, Bars, Mask, any_from, had_prior_probe, probed, reclaimed, rolling_reclaim,
}

any_from-finds :
    (m : Mask) (start count : ℕ)
    → any_from m start count ≡ true
    → (k : ℕ) × (start ≤ k) × (k < start + count) × (m k ≡ true)
any_from-finds m start zero h = cc
any_from-finds m start (suc count) h = elim (Bool-cases (m start)) [
  | inl e ↦ (start, omega arith, omega arith, e)
  | inr e ↦
      let later = any_from-finds m (suc start) count (ground arith) in
      (later.0, omega (arith, later.1), omega (arith, later.2), later.3)
]

finds-any_from :
    (m : Mask) (start count k : ℕ)
    → start ≤ k
    → k < start + count
    → m k ≡ true
    → any_from m start count ≡ true
finds-any_from m start zero k h l e = absurd (omega arith)
finds-any_from m start (suc count) k h l e = elim (Bool-cases (leb (suc start) k)) [
  | inl later ↦
      let rest = finds-any_from m (suc start) count k (ground arith) (omega arith) e in ground arith
  | inr here ↦ let s : m start ≡ true = subst (λ x. m x ≡ true) (ground arith) e in ground arith
]

had_prior_probe-finds :
    (lookback : ℕ) (m : Mask) (i : ℕ)
    → had_prior_probe lookback m i ≡ true
    → (lookback ≤ i) × (k : ℕ) × (k < i) × (i ≤ k + lookback) × (m k ≡ true)
unfolding had_prior_probe
had_prior_probe-finds lookback m i h = elim (Bool-cases (leb lookback i)) [
  | inl e ↦
      let le : lookback ≤ i = ground arith in
      let x = any_from-finds m (i - lookback) lookback (ground arith) in
      (le, x.0, omega (arith, x.2), omega (arith, x.1), x.3)
  | inr e ↦ absurd (ground arith)
]

finds-had_prior_probe :
    (lookback : ℕ) (m : Mask) (i k : ℕ)
    → lookback ≤ i
    → k < i
    → i ≤ k + lookback
    → m k ≡ true
    → had_prior_probe lookback m i ≡ true
unfolding had_prior_probe
finds-had_prior_probe lookback m i k h l r e =
    let x = finds-any_from m (i - lookback) lookback k (omega arith) (omega arith) e in
    rw (le→leb lookback i h, x)

module _ {F : Type 0} ⦃f : Float F⦄ where
  -- A bar in reach of bar `i` whose price probed the anchor.
  abbrev pub Probe : Side → ℕ → Bool → Bars F → ℕ → Type 0
  Probe side lookback close_probe b i =
      (k : ℕ) × (k < i) × (i ≤ k + lookback) × (probed side close_probe b k ≡ true)

  -- With a positive lookback the reclaim trigger is computed, and it fires on bar i exactly if i
  -- is at least the lookback, one of the lookback bars before i probed the anchor, and bar i
  -- reclaims it.
  pub rolling_reclaim-fires :
      (side : Side) (lookback : ℕ) (close_probe : Bool) (b : Bars F)
      → 0 < lookback
      → (trigger : Mask) × (rolling_reclaim side lookback close_probe b ≡ ok trigger)
        × ((i : ℕ)
            → (trigger i ≡ true) ↔ (
                (lookback ≤ i) × Probe side lookback close_probe b i × (reclaimed side b i ≡ true)))
  unfolding rolling_reclaim
  rolling_reclaim-fires side lookback close_probe b h = (
    trigger,
    ground arith,
    λ i. (
      λ t.
          let x = had_prior_probe-finds lookback probe i (and_left _ _ t) in
          (x.0, (x.1, x.2, x.3, x.4), and_right _ _ t),
      λ w.
          let p = w.1 in
          let x = finds-had_prior_probe lookback probe i p.0 w.0 p.1 p.2 p.3 in rw (x, w.2),
    ),
  )
    where
      probe : Mask
      probe = probed side close_probe b

      trigger : Mask
      trigger i = had_prior_probe lookback probe i && reclaimed side b i
