-- ===== src/Live/Multiple.antt =====
-- Least common multiples (`math.lcm`), by Euclid's algorithm.
use strategy_engine.Prelude.{
  ℕ, zero, suc, ◌+◌, ◌*◌, ◌/◌, ◌%◌, ◌≤◌, ◌<◌, ◌≡◌, refl, arith, ◌==◌, if◌then◌else◌, Bool-cases,
  inl, inr, sym, ◌∙◌, ap,
}
use native.Mathlib.Omega.{div_any}

-- Each step makes `b` smaller, so `b` steps are enough.
abbrev gcd_from : (fuel : ℕ) → ℕ → ℕ → ℕ
gcd_from zero a b = a
gcd_from (suc fuel) a b = let rest = gcd_from fuel b (a % b) in if b == 0 then a else rest

unfoldable pub gcd : ℕ → ℕ → ℕ
gcd a b = gcd_from b a b

unfoldable pub lcm : ℕ → ℕ → ℕ
lcm a b = a / gcd a b * b

-- The quotient, if `a` divides `b`.
abbrev pub Divides : ℕ → ℕ → Type 0
Divides a b = (q : ℕ) × (b ≡ q * a)

rest-lt : (a b : ℕ) → 0 < b → a % b < b
rest-lt a b h = omega arith

turn : (x p g : ℕ) → p * g * x ≡ x * p * g
turn x p g = grind arith

associate : (x y z : ℕ) → x * (y * z) ≡ x * y * z
associate x y z = grind arith

swap : (p q g : ℕ) → p * (q * g) ≡ q * (p * g)
swap p q g = grind arith

whole_lem : (a b g p q : ℕ) → b ≡ p * g → a % b ≡ q * g → a ≡ (a / b * p + q) * g
whole_lem a b g p q h k =
    let whole = div_any a b in
    let left : b * (a / b) ≡ a / b * p * g = ap (λ x. x * (a / b)) h ∙ turn (a / b) p g in
    let sum : a / b * p * g + q * g ≡ (a / b * p + q) * g = grind arith in omega arith

-- A common divisor.
gcd_from-Divides :
    (fuel a b : ℕ) → b ≤ fuel → Divides (gcd_from fuel a b) a × Divides (gcd_from fuel a b) b
gcd_from-Divides zero a b h = ((1, omega arith), (0, omega arith))
gcd_from-Divides (suc fuel) a b h = elim (Bool-cases (b == 0)) [
  | inl e ↦ rw e ((1, omega arith), (0, ground arith))
  | inr e ↦
      let positive : 0 < b = ground arith in
      let r = gcd_from-Divides fuel b (a % b) (omega (arith, rest-lt a b positive)) in
      let whole = div_any a b in
      rw e (
        (a / b * r.0.0 + r.1.0, whole_lem a b (gcd_from fuel b (a % b)) r.0.0 r.1.0 r.0.1 r.1.1),
        r.0,
      )
]

gcd-Divides : (a b : ℕ) → Divides (gcd a b) a × Divides (gcd a b) b
unfolding gcd
gcd-Divides a b = gcd_from-Divides b a b (omega arith)

pub Divides-trans : (a b c : ℕ) → Divides a b → Divides b c → Divides a c
Divides-trans a b c h k = (k.0 * h.0, k.1 ∙ ap (λ x. k.0 * x) h.1 ∙ associate k.0 h.0 a)

quotient : (a g p : ℕ) → a ≡ p * g → 0 < a → a / g ≡ p
quotient a g p h k = grind arith

-- A common multiple, which is positive.
pub lcm-Divides :
    (a b : ℕ) → 0 < a → 0 < b → Divides a (lcm a b) × Divides b (lcm a b) × (0 < lcm a b)
unfolding lcm
lcm-Divides a b h k =
    let r = gcd-Divides a b in
    let g = gcd a b in
    let e : a / g ≡ r.0.0 = quotient a g r.0.0 r.0.1 h in
    let same : r.0.0 * b ≡ r.1.0 * a =
      ap (λ x. r.0.0 * x) r.1.1 ∙ swap r.0.0 r.1.0 g ∙ ap (λ x. r.1.0 * x) (sym r.0.1) in
    let positive : 0 < r.0.0 = grind (arith, r.0.1) in
    rw e ((r.1.0, same), (r.0.0, refl), grind arith)
