-- ===== src/Exit/Confirm.antt =====
-- When the signal exits on averages fire.
use strategy_engine.Prelude.{
  ℕ, zero, suc, ◌+◌, ◌≤◌, ◌<◌, ◌≡◌, ◌↔◌, subst, inl, inr, Bool, true, ltb, ◌==◌, ==_iff, arith,
  Bool-cases, and_left,
}
use strategy_engine.Float.{Float}
use strategy_engine.Trade.{Side, long, short}
use strategy_engine.Pandas.{RollingMax, IsRollingMax, RollingMin, IsRollingMin, InWindow}
use strategy_engine.Exit.Rules.{consecutive_true, beyond, cross, cross_loss}

-- The last `bars` bars up to bar `i` are there, and the condition holds on each.
abbrev pub Held : (ℕ → Bool) → ℕ → ℕ → Type 0
Held condition bars i = (bars ≤ i + 1) × ((k : ℕ) → InWindow bars i k → condition k ≡ true)

module _ (rolling_min : RollingMin) (laws : IsRollingMin rolling_min) where
  pub consecutive_true_iff :
      (condition : ℕ → Bool) (bars i : ℕ)
      → 0 < bars
      → (consecutive_true rolling_min condition bars i ≡ true) ↔ Held condition bars i
  unfolding consecutive_true
  consecutive_true_iff condition bars i positive = elim (Bool-cases (bars == 1)) [
    | inl single ↦
        let one : bars ≡ 1 = (==_iff bars 1).0 single in
        (
          λ h. (
            omega arith,
            λ k w.
                let at : i ≡ k = omega (arith, w.0, w.1) in
                subst (λ (j : ℕ). condition j ≡ true) at (ground arith),
          ),
          λ h. ground (arith, h.1 i (omega arith, omega arith)),
        )
    | inr more ↦ elim (Bool-cases (ltb (i + 1) bars)) [
      | inl few ↦
          let none_yet = laws.too_few bars bars condition i (ground arith) (omega arith) in
          (λ h. absurd (ground arith), λ h. absurd (ground (arith, h.0)))
      | inr enough ↦
          let (b, is, all) = laws.of_window bars bars condition i (ground arith) (omega arith) in
          (λ h. (ground arith, all.0 (ground arith)), λ h. let holds = all.1 h.1 in ground arith)
    ]
  ]

module _ {F : Type 0} ⦃f : Float F⦄ (rolling_max : RollingMax) (max_laws : IsRollingMax rolling_max)
    (rolling_min : RollingMin) (min_laws : IsRollingMin rolling_min) where
  cross-beyond :
      (side : Side) (fast slow : ℕ → F) (i : ℕ)
      → cross side fast slow i ≡ true
      → beyond side fast slow i ≡ true
  cross-beyond side fast slow zero h = cc
  cross-beyond long fast slow (suc i) h = and_left _ _ h
  cross-beyond short fast slow (suc i) h = and_left _ _ h

  -- With the documented rolling maximum and minimum of pandas and a positive number of bars to
  -- confirm, the cross loss exit fires on a bar exactly if the last bars of that number are there,
  -- the fast average is beyond the slow one against the side on all of them, and on one of them it
  -- crossed.
  pub cross_loss_iff :
      (side : Side) (fast slow : ℕ → F) (bars i : ℕ)
      → 0 < bars
      → (cross_loss rolling_max rolling_min side fast slow bars i ≡ true) ↔ (
          Held (beyond side fast slow) bars i
          × ((k : ℕ) × InWindow bars i k × (cross side fast slow k ≡ true)))
  unfolding cross_loss
  cross_loss_iff side fast slow bars i positive =
      let held =
        consecutive_true_iff rolling_min min_laws (beyond side fast slow) bars i positive in
      elim (Bool-cases (bars == 1)) [
        | inl single ↦
            let one : bars ≡ 1 = (==_iff bars 1).0 single in
            (
              λ h.
                  let crossed : cross side fast slow i ≡ true = ground arith in
                  (
                    (
                      omega arith,
                      λ k w.
                          let at : i ≡ k = omega (arith, w.0, w.1) in
                          subst (λ (j : ℕ). beyond side fast slow j ≡ true) at
                            (cross-beyond side fast slow i crossed),
                    ),
                    (i, (omega arith, omega arith), crossed),
                  ),
              λ h.
                  let at : h.1.0 ≡ i = omega (arith, h.1.1.0, h.1.1.1) in
                  let crossed : cross side fast slow i ≡ true =
                    subst (λ (j : ℕ). cross side fast slow j ≡ true) at h.1.2 in
                  rw (single, cross_loss) crossed,
            )
        | inr more ↦
            let (b, is, some_cross) =
              max_laws.of_window bars 1 (cross side fast slow) i (omega arith) (omega arith) in
            (
              λ h. (held.0 (ground arith), some_cross.0 (ground arith)),
              λ h. let all_bars = held.1 h.0 in let crossed = some_cross.1 h.1 in ground arith,
            )
      ]
