-- ===== src/Numpy/Reference.antt =====
-- The calls of `Numpy` by plain scans, over any type of floats: they meet the laws, and the tests
-- and examples run on them.
use strategy_engine.Prelude.{ℕ, zero, suc, ◌+◌, ◌-◌, ◌≤◌, ◌<◌, ◌≡◌, refl, if◌then◌else◌, arith}
use strategy_engine.Prelude.Int.{ℤ, ltb_ℤ}
use strategy_engine.Float.{Float, min}
use strategy_engine.Numpy.{Numpy, IsNumpy, Cumsum, IsCumsum}

abbrev pub scan_max : (ℕ → ℤ) → ℕ → ℤ
scan_max v zero = v 0
scan_max v (suc i) = let m = scan_max v i in if ltb_ℤ m (v (suc i)) then v (suc i) else m

module _ {F : Type 0} ⦃f : Float F⦄ where
  -- The offset of the first greatest value among `from` and the `n` places behind it.
  abbrev pub scan_argmax : (ℕ → F) → ℕ → ℕ → ℕ
  scan_argmax v from zero = 0
  scan_argmax v from (suc n) =
      let k = scan_argmax v from n in if f.lt (v (from + k)) (v (from + suc n)) then suc n else k

  abbrev pub scan_min : (ℕ → F) → ℕ → ℕ → F
  scan_min v from zero = v from
  scan_min v from (suc n) = min (scan_min v from n) (v (from + suc n))

  abbrev pub reference : Numpy F
  reference = record {
    running_max = scan_max;
    argmax = λ v from to. scan_argmax v from (to - from - 1);
    min_of = λ v from to. scan_min v from (to - from - 1);
  }

  scan_argmax-le : (v : ℕ → F) (from n : ℕ) → scan_argmax v from n ≤ n
  scan_argmax-le v from zero = omega arith
  scan_argmax-le v from (suc n) = ground (arith, scan_argmax-le v from n)

  scan_argmax_local :
      (v w : ℕ → F) (from n : ℕ)
      → ((k : ℕ) → from ≤ k → k < from + suc n → v k ≡ w k)
      → scan_argmax v from n ≡ scan_argmax w from n
  scan_argmax_local v w from zero h = refl
  scan_argmax_local v w from (suc n) h =
      let below = scan_argmax-le w from n in
      rw (
        scan_argmax_local v w from n (λ k p q. h k p (omega arith)),
        h (from + scan_argmax w from n) (omega arith) (omega arith),
        h (from + suc n) (omega arith) (omega arith),
      )

  scan_min_local :
      (v w : ℕ → F) (from n : ℕ)
      → ((k : ℕ) → from ≤ k → k < from + suc n → v k ≡ w k)
      → scan_min v from n ≡ scan_min w from n
  scan_min_local v w from zero h = h from (omega arith) (omega arith)
  scan_min_local v w from (suc n) h = rw (
    scan_min_local v w from n (λ k p q. h k p (omega arith)),
    h (from + suc n) (omega arith) (omega arith),
  )

  pub reference-IsNumpy : IsNumpy reference
  reference-IsNumpy = record {
    running_max_first = λ v. refl;
    running_max_next = λ v i. refl;
    argmax_within = λ v from to h. omega (arith, scan_argmax-le v from (to - from - 1));
    argmax_local = λ v w from to lt h.
        scan_argmax_local v w from (to - from - 1) (λ k p q. h k p (omega arith));
    min_local =
        λ v w from to lt h. scan_min_local v w from (to - from - 1) (λ k p q. h k p (omega arith));
  }

abbrev pub scan_sum : Cumsum
scan_sum v zero = v 0
scan_sum v (suc i) = scan_sum v i + v (suc i)

pub scan_sum-IsCumsum : IsCumsum scan_sum
scan_sum-IsCumsum = record { cumsum_first = λ v. refl; cumsum_next = λ v i. refl }
