-- ===== src/Blocker/Rsi.antt =====
-- The RSI blocker, `_rsi_blocker` and its parameters
-- (src/strategy_engine/strategies/ema_pullback/direction_blockers.py), and when it lets a bar
-- through.
use strategy_engine.Prelude.{
  ℕ, zero, suc, ◌<◌, ◌≡◌, ◌↔◌, arith, Bool, true, false, not, ◌&&◌, Bool-cases, ◌⊎◌, inl, inr, refl,
}
use strategy_engine.Prelude.Int.{ℤ, pos, negsuc, ◌≤ℤ◌}
use strategy_engine.Float.{Float}
use strategy_engine.Pandas.{RollingMax, IsRollingMax, InWindow, or_nan}
use strategy_engine.Result.{Result, ok, err, Error}
use strategy_engine.Blocker.Trend.{Side}

pub record RsiParams (F : Type 0) : Type 0 where
  pub lookback : ℕ
  pub threshold : F

module _ {F : Type 0} where
  abbrev threshold_of : Side → (long_block_above short_block_below : F) → F
  threshold_of Side.long above below = above
  threshold_of Side.short above below = below

  unfoldable pub rsi_blocker_params :
      (lookback : ℤ) (long_block_above short_block_below : F) → Side → Result (RsiParams F)
  rsi_blocker_params (pos (suc n)) above below side =
      ok (record { lookback = suc n; threshold = threshold_of side above below })
  rsi_blocker_params _ above below side =
      err (Error.invalid_request "blocker lookback must be positive")

module _ {F : Type 0} ⦃f : Float F⦄ where
  abbrev pub extreme : RsiParams F → (ℕ → F) → Side → ℕ → Bool
  extreme p rsi Side.long i = f.is_finite (rsi i) && f.lt p.threshold (rsi i)
  extreme p rsi Side.short i = f.is_finite (rsi i) && f.lt (rsi i) p.threshold

  unfoldable pub rsi_blocker : RollingMax → RsiParams F → (ℕ → F) → Side → ℕ → Bool
  rsi_blocker rolling p rsi side i = not (or_nan (rolling p.lookback 1 (extreme p rsi side) i))

  -- The bars that an extreme blocks.
  rsi_blocker_lem :
      (rolling : RollingMax)
      → IsRollingMax rolling
      → (p : RsiParams F) (rsi : ℕ → F) (side : Side) (i : ℕ) → 0 < p.lookback
      → (b : Bool) × (rsi_blocker rolling p rsi side i ≡ not b)
        × ((b ≡ true) ↔ ((k : ℕ) × InWindow p.lookback i k × (extreme p rsi side k ≡ true)))
  unfolding rsi_blocker
  rsi_blocker_lem rolling laws p rsi side i h =
      let r = laws.of_window p.lookback 1 (extreme p rsi side) i (omega arith) (omega arith) in
      (r.0, rw (r.1), r.2)

  no_extreme :
      (rolling : RollingMax)
      → IsRollingMax rolling
      → (p : RsiParams F) (rsi : ℕ → F) (side : Side) (i : ℕ) → 0 < p.lookback
      → (rsi_blocker rolling p rsi side i ≡ true)
        ↔ ((k : ℕ) → InWindow p.lookback i k → extreme p rsi side k ≡ false)
  no_extreme rolling laws p rsi side i h =
      let r = rsi_blocker_lem rolling laws p rsi side i h in
      (
        (λ e k w. elim (Bool-cases (extreme p rsi side k)) [
          | inl x ↦ let b : r.0 ≡ true = r.2.1 (k, w, x) in absurd (ground (arith, r.1, b))
          | inr x ↦ x
        ]),
        λ free. elim (Bool-cases r.0) [
          | inl b ↦ let x = r.2.0 b in absurd (let y = free x.0 x.1 in ground (arith, x.2, y))
          | inr b ↦ ground (arith, r.1, b)
        ],
      )

  -- An RSI that does not block: not finite, or on the allowed side of the bound of the side.
  abbrev pub IsCalm : Side → (long_block_above short_block_below : F) → F → Type 0
  IsCalm Side.long above below x = (f.is_finite x ≡ false) ⊎ (f.lt above x ≡ false)
  IsCalm Side.short above below x = (f.is_finite x ≡ false) ⊎ (f.lt x below ≡ false)

  extreme-IsCalm :
      (n : ℕ) (above below : F) (rsi : ℕ → F) (side : Side) (k : ℕ)
      → (extreme (record { lookback = suc n; threshold = threshold_of side above below }) rsi side k
          ≡ false)
        ↔ IsCalm side above below (rsi k)
  extreme-IsCalm n above below rsi Side.long k = (λ e. ground arith, λ c. ground (arith, c))
  extreme-IsCalm n above below rsi Side.short k = (λ e. ground arith, λ c. ground (arith, c))

  -- With the documented rolling maximum of pandas, an RSI blocker whose lookback is not positive
  -- is refused, and otherwise its mask lets a bar through exactly if on each of the lookback bars
  -- up to it, as far as they are there, the RSI is not finite or, on the long side, not above the
  -- long bound and, on the short side, not below the short bound.
  pub rsi_blocker_iff :
      (rolling : RollingMax)
      → IsRollingMax rolling
      → (lookback : ℤ) (above below : F) (rsi : ℕ → F) (side : Side)
      → ((lookback ≤ℤ pos 0)
          × (rsi_blocker_params lookback above below side
              ≡ err (Error.invalid_request "blocker lookback must be positive")))
        ⊎ ((n : ℕ) × (lookback ≡ pos (suc n))
            × (p : RsiParams F) × (rsi_blocker_params lookback above below side ≡ ok p)
            × ((i : ℕ)
                → (rsi_blocker rolling p rsi side i ≡ true)
                  ↔ ((k : ℕ) → InWindow (suc n) i k → IsCalm side above below (rsi k))))
  unfolding rsi_blocker_params
  rsi_blocker_iff rolling laws (pos (suc n)) above below rsi side =
      let p : RsiParams F = record {
        lookback = suc n;
        threshold = threshold_of side above below;
      } in
      inr (
        n,
        refl,
        p,
        refl,
        λ i.
            let r = no_extreme rolling laws p rsi side i (omega arith) in
            (
              λ e k w. (extreme-IsCalm n above below rsi side k).0 (r.0 e k w),
              λ calm. r.1 (λ k w. (extreme-IsCalm n above below rsi side k).1 (calm k w)),
            ),
      )
  rsi_blocker_iff rolling laws (pos zero) above below rsi side = inl (omega arith, refl)
  rsi_blocker_iff rolling laws (negsuc n) above below rsi side = inl (omega arith, refl)
