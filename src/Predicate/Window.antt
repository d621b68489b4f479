-- ===== src/Predicate/Window.antt =====
-- What the cumulative sums of `_window_mask` count.
use strategy_engine.Prelude.{
  ◌∙◌, ℕ, zero, suc, ◌+◌, ◌-◌, ◌≤◌, ◌<◌, ◌≡◌, ◌↔◌, refl, arith, leb, true, Bool-cases, inl, inr,
  if◌then◌else◌, ap, subst,
}
use strategy_engine.Numpy.{Cumsum, IsCumsum}
use strategy_engine.Predicate.Evaluate.{Mask, Mode, cumulative, window_count, window_mask}

-- The true bars of the `count` bars from `start` on.
abbrev pub count_from : Mask → ℕ → ℕ → ℕ
count_from inner start zero = 0
count_from inner start (suc count) =
    count_from inner start count + (if inner (start + count) then 1 else 0)

pub count_from-le : (inner : Mask) (start count : ℕ) → count_from inner start count ≤ count
count_from-le inner start zero = omega arith
count_from-le inner start (suc count) = ground (arith, count_from-le inner start count)

count_from-all :
    (inner : Mask) (start count k : ℕ)
    → count_from inner start count ≡ count
    → k < count
    → inner (start + k) ≡ true
count_from-all inner start zero k h l = absurd (omega arith)
count_from-all inner start (suc count) k h l = elim (Bool-cases (leb count k)) [
  | inl e ↦
      let at_end : inner (start + count) ≡ true = ground (arith, count_from-le inner start count) in
      subst (λ x. inner (start + x) ≡ true) (ground arith) at_end
  | inr e ↦
      count_from-all inner start count k (ground (arith, count_from-le inner start count))
        (ground arith)
]

all-count_from :
    (inner : Mask) (start count : ℕ)
    → ((k : ℕ) → k < count → inner (start + k) ≡ true)
    → count_from inner start count ≡ count
all-count_from inner start zero h = refl
all-count_from inner start (suc count) h =
    rw (h count (omega arith))
      (omega (arith, all-count_from inner start count (λ k l. h k (omega arith))))

count_from-some :
    (inner : Mask) (start count : ℕ)
    → 0 < count_from inner start count
    → (k : ℕ) × (k < count) × (inner (start + k) ≡ true)
count_from-some inner start zero h = absurd (omega arith)
count_from-some inner start (suc count) h = elim (Bool-cases (inner (start + count))) [
  | inl e ↦ (count, omega arith, e)
  | inr e ↦
      let r = count_from-some inner start count (ground arith) in (r.0, omega (arith, r.1), r.2)
]

some-count_from :
    (inner : Mask) (start count k : ℕ)
    → k < count
    → inner (start + k) ≡ true
    → 0 < count_from inner start count
some-count_from inner start zero k l h = absurd (omega arith)
some-count_from inner start (suc count) k l h = elim (Bool-cases (leb count k)) [
  | inl e ↦
      let at_end : inner (start + count) ≡ true =
        subst (λ x. inner (start + x) ≡ true) (ground arith) h in
      rw at_end (omega arith)
  | inr e ↦ omega (arith, some-count_from inner start count k (ground arith) h)
]

-- The window at bar `j` holds bar `k`.
abbrev pub InWindow : ℕ → ℕ → ℕ → Type 0
InWindow bars j k = (k ≤ j) × (j < k + bars)

module _ (cumsum : Cumsum) (laws : IsCumsum cumsum) where
  cumulative-suc :
      (inner : Mask) (n : ℕ)
      → cumulative cumsum inner (suc n) ≡ cumulative cumsum inner n + (if inner n then 1 else 0)
  unfolding cumulative
  cumulative-suc inner zero = laws.cumsum_first (λ i. if inner i then 1 else 0) ∙ omega arith
  cumulative-suc inner (suc n) = laws.cumsum_next (λ i. if inner i then 1 else 0) n

  cumulative-add :
      (inner : Mask) (start count : ℕ)
      → cumulative cumsum inner (start + count)
        ≡ cumulative cumsum inner start + count_from inner start count
  unfolding cumulative
  cumulative-add inner start zero = let e : start + zero ≡ start = omega arith in rw e (omega arith)
  cumulative-add inner start (suc count) =
      let e : start + suc count ≡ suc (start + count) = omega arith in
      rw e (omega (arith, cumulative-add inner start count, cumulative-suc inner (start + count)))

  -- The windows at bar `j`: the whole one, and the one cut at the first bar.
  pub window_count-whole :
      (bars : ℕ) (inner : Mask) (j : ℕ)
      → bars ≤ j + 1
      → window_count cumsum bars inner j ≡ count_from inner (j + 1 - bars) bars
  unfolding window_count
  window_count-whole bars inner j h =
      let e : j + 1 ≡ (j + 1 - bars) + bars = omega arith in
      let total = cumulative-add inner (j + 1 - bars) bars in
      let same : cumulative cumsum inner (j + 1) ≡ cumulative cumsum inner ((j + 1 - bars) + bars) =
        ap (cumulative cumsum inner) e in
      omega (arith, total, same)

  window_count-cut :
      (bars : ℕ) (inner : Mask) (j : ℕ)
      → j + 1 ≤ bars
      → window_count cumsum bars inner j ≡ count_from inner 0 (j + 1)
  unfolding window_count cumulative
  window_count-cut bars inner j h =
      let e : j + 1 - bars ≡ 0 = omega arith in
      let total = cumulative-add inner 0 (j + 1) in
      let same : cumulative cumsum inner (0 + (j + 1)) ≡ cumulative cumsum inner (j + 1) =
        ap (cumulative cumsum inner) (omega arith) in
      rw e (omega (arith, total, same))

  module _ (bars : ℕ) (inner : Mask) (j : ℕ) where
    held :
        window_mask cumsum Mode.held_for bars inner j ≡ true
        → 0 < bars
        → (bars ≤ j + 1) × ((k : ℕ) → InWindow bars j k → inner k ≡ true)
    unfolding window_mask
    held h positive = elim (Bool-cases (leb bars (j + 1))) [
      | inl e ↦
          let le : bars ≤ j + 1 = ground arith in
          let full : count_from inner (j + 1 - bars) bars ≡ bars =
            ground (arith, window_count-whole bars inner j le) in
          (
            le,
            λ k w.
                let at : (j + 1 - bars) + (k - (j + 1 - bars)) ≡ k = omega (arith, w.0, w.1) in
                subst (λ x. inner x ≡ true) at
                  (count_from-all inner (j + 1 - bars) bars (k - (j + 1 - bars)) full
                    (omega (arith, w.0, w.1))),
          )
      | inr e ↦
          let cut = window_count-cut bars inner j (ground arith) in
          let le = count_from-le inner 0 (j + 1) in absurd (ground arith)
    ]

    held_back :
        (bars ≤ j + 1)
        → ((k : ℕ) → InWindow bars j k → inner k ≡ true)
        → window_mask cumsum Mode.held_for bars inner j ≡ true
    unfolding window_mask
    held_back le h =
        let full =
          all-count_from inner (j + 1 - bars) bars
            (λ k l. h ((j + 1 - bars) + k) (omega arith, omega arith)) in
        ground (arith, window_count-whole bars inner j le, full)

    found :
        window_mask cumsum Mode.within bars inner j ≡ true
        → (k : ℕ) × InWindow bars j k × (inner k ≡ true)
    unfolding window_mask
    found h = elim (Bool-cases (leb bars (j + 1))) [
      | inl e ↦
          let le : bars ≤ j + 1 = ground arith in
          let r =
            count_from-some inner (j + 1 - bars) bars
              (ground (arith, window_count-whole bars inner j le)) in
          ((j + 1 - bars) + r.0, (omega (arith, r.1), omega (arith, r.1)), r.2)
      | inr e ↦
          let r =
            count_from-some inner 0 (j + 1)
              (ground (arith, window_count-cut bars inner j (ground arith))) in
          (0 + r.0, (omega (arith, r.1), ground (arith, r.1)), r.2)
    ]

    found_back :
        (k : ℕ)
        → InWindow bars j k
        → inner k ≡ true
        → window_mask cumsum Mode.within bars inner j ≡ true
    unfolding window_mask
    found_back k w h = elim (Bool-cases (leb bars (j + 1))) [
      | inl e ↦
          let le : bars ≤ j + 1 = ground arith in
          let at : k ≡ (j + 1 - bars) + (k - (j + 1 - bars)) = omega (arith, w.0, w.1) in
          let some_bar =
            some-count_from inner (j + 1 - bars) bars (k - (j + 1 - bars)) (omega (arith, w.0, w.1))
              (subst (λ x. inner x ≡ true) at h) in
          ground (arith, window_count-whole bars inner j le, some_bar)
      | inr e ↦
          let some_bar =
            some-count_from inner 0 (j + 1) k (omega (arith, w.0))
              (subst (λ x. inner x ≡ true) (omega arith) h) in
          ground (arith, window_count-cut bars inner j (ground arith), some_bar)
    ]

    -- With the documented `np.cumsum` and a positive number of bars, the mask that `held_for`
    -- computes from cumulative sums is true on a bar exactly if the window of that many bars up to
    -- it is whole and the inner mask is true on each of them, and the mask of `within` exactly if
    -- the inner mask is true on one of them.
    pub window_mask_iff :
        0 < bars
        → ((window_mask cumsum Mode.held_for bars inner j ≡ true)
            ↔ ((bars ≤ j + 1) × ((k : ℕ) → InWindow bars j k → inner k ≡ true)))
          × ((window_mask cumsum Mode.within bars inner j ≡ true)
              ↔ ((k : ℕ) × InWindow bars j k × (inner k ≡ true)))
    window_mask_iff positive =
        ((λ h. held h positive, λ r. held_back r.0 r.1), (found, λ r. found_back r.0 r.1 r.2))
