-- ===== src/Extreme/Tests.antt =====
-- A highest value over three bars, which two windows of two bars make up.
use strategy_engine.Prelude.{
  ℕ, zero, suc, ◌-◌, ◌≤◌, ◌<◌, ◌≡◌, refl, arith, true, leb, if◌then◌else◌, ◌==◌, inl, inr,
  Bool-cases,
}
use strategy_engine.Extreme.Table.{
  Calls, IsReduce, IsCalls, bit, reduce, level, level_len, level_of, second, window_extreme,
}
use strategy_engine.Extreme.Lattice.{extreme_from}
use strategy_engine.Extreme.Window.{window_extreme_lem}

-- The whole part of the logarithm, by counting up.
abbrev step_log : ℕ → ℕ → ℕ
step_log k n = if leb (bit (suc k)) n then suc k else k

abbrev log2 : ℕ → ℕ
log2 zero = 0
log2 (suc n) = step_log (log2 n) (suc n)

abbrev larger : ℕ → ℕ → ℕ
larger a b = if leb a b then b else a

abbrev smaller : ℕ → ℕ → ℕ
smaller a b = if leb a b then a else b

abbrev calls : Calls ℕ
calls = record { maximum = larger; minimum = smaller; log2 = log2 }

larger-IsReduce : IsReduce larger
larger-IsReduce = record { assoc = ground arith; comm = ground arith; idem = ground arith }

smaller-IsReduce : IsReduce smaller
smaller-IsReduce = record { assoc = ground arith; comm = ground arith; idem = ground arith }

bit-positive : (k : ℕ) → 0 < bit k
bit-positive zero = omega arith
bit-positive (suc k) = omega (arith, bit-positive k)

step_log-low : (k n : ℕ) → bit k ≤ n → bit (step_log k n) ≤ n
step_log-low k n h = elim (Bool-cases (leb (bit (suc k)) n)) [
  | inl e ↦ rw e (ground arith)
  | inr e ↦ rw e h
]

step_log-high : (k n : ℕ) → n < suc (bit (suc k)) → n < bit (suc (step_log k n))
step_log-high k n h = elim (Bool-cases (leb (bit (suc k)) n)) [
  | inl e ↦ rw e (omega (arith, bit-positive k))
  | inr e ↦ rw e (ground arith)
]

log2-low : (n : ℕ) → 0 < n → bit (log2 n) ≤ n
log2-low zero h = absurd (omega arith)
log2-low (suc zero) h = omega arith
log2-low (suc (suc n)) h =
    step_log-low (log2 (suc n)) (suc (suc n)) (omega (arith, log2-low (suc n) (omega arith)))

log2-high : (n : ℕ) → 0 < n → n < bit (suc (log2 n))
log2-high zero h = absurd (omega arith)
log2-high (suc zero) h = omega arith
log2-high (suc (suc n)) h =
    step_log-high (log2 (suc n)) (suc (suc n)) (omega (arith, log2-high (suc n) (omega arith)))

calls-IsCalls : IsCalls calls
calls-IsCalls = record {
  maximum_reduces = larger-IsReduce;
  minimum_reduces = smaller-IsReduce;
  log2_low = log2-low;
  log2_high = log2-high;
}

abbrev highs : ℕ → ℕ
highs i = if i == 3 then 9 else i

highest : window_extreme calls true highs 1 3 ≡ 9
unfolding window_extreme level
highest = refl

window_extreme-lem_example :
    (1 < level_len calls 5 (level_of calls 1 3))
    × (second calls 1 3 < level_len calls 5 (level_of calls 1 3))
    × (window_extreme calls true highs 1 3 ≡ extreme_from (reduce calls true) highs 1 (3 - 1))
window_extreme-lem_example =
    window_extreme_lem calls calls-IsCalls true highs 5 1 3 (omega arith) (omega arith)
