-- ===== src/Live/Rounding.antt =====
-- Rounding an instant down, and the multiple that fits all durations.
use native.Mathlib.Nat.{mul-mod_left}
use native.Mathlib.Omega.{div_any}
use strategy_engine.Prelude.{
  ℕ, suc, ◌+◌, ◌-◌, ◌*◌, ◌/◌, ◌%◌, ◌≤◌, ◌<◌, ◌≡◌, refl, arith, ◌==◌, true, false, List, [], ◌∷◌,
  any, All, if◌then◌else◌, Bool-cases, inl, inr, ap, ◌∙◌, subst,
}
use strategy_engine.Prelude.Int.{ℤ, pos, negsuc, ◌+ℤ◌, ◌≤ℤ◌}
use strategy_engine.Market.Frame.{has_rest}
use strategy_engine.Live.Multiple.{lcm, Divides, Divides-trans, lcm-Divides}
use strategy_engine.Live.Window.{floor_to, put, set_of, alignment}

-- Rounding down to a multiple of `m`.
rounded :
    (n m : ℕ) → 0 < m → (n / m * m ≤ n) × (n < n / m * m + m) × (suc (n / m) * m ≡ n / m * m + m)
rounded n m h = (grind arith, omega (arith, div_any n m), grind arith)

pub floor_to-le : (z : ℤ) (m : ℕ) → 0 < m → floor_to z m ≤ℤ z
floor_to-le (pos n) m h = let r = rounded n m h in omega arith
floor_to-le (negsuc n) m h = let r = rounded n m h in omega arith

sum_le : (n x k : ℕ) → n ≤ x + k → pos n ≤ℤ pos x +ℤ pos k
unfolding ◌+ℤ◌
sum_le n x k h = ground arith

neg_sum_le : (n x k : ℕ) → x ≤ n + k → negsuc n ≤ℤ negsuc x +ℤ pos k
unfolding ◌+ℤ◌
neg_sum_le n x k h = ground arith

pub floor_to-ge : (z : ℤ) (m : ℕ) → 0 < m → z ≤ℤ floor_to z m +ℤ pos (m - 1)
floor_to-ge (pos n) m h = let r = rounded n m h in sum_le n (n / m * m) (m - 1) (omega arith)
floor_to-ge (negsuc n) m h =
    let r = rounded n m h in neg_sum_le n (suc (n / m) * m - 1) (m - 1) (omega arith)

multiple_rest : (d m q : ℕ) → Divides d m → q * m % d ≡ 0
multiple_rest d m q h =
    let r = Divides-trans d m (q * m) h (q, refl) in ap (λ x. x % d) r.1 ∙ mul-mod_left r.0 d

pub floor_to-on_grid : (z : ℤ) (d m : ℕ) → 0 < m → Divides d m → has_rest (floor_to z m) d ≡ false
floor_to-on_grid (pos n) d m h k = rw (multiple_rest d m (n / m) k)
floor_to-on_grid (negsuc n) d m h k =
    let r = rounded n m h in
    let e : suc (suc (n / m) * m - 1) ≡ suc (n / m) * m = omega arith in
    rw (e, multiple_rest d m (suc (n / m)) k)

-- The multiple of all durations.
abbrev pub Positive : ℕ → Type 0
Positive d = 0 < d

pub alignment-Divides :
    (ds : List ℕ) (m : ℕ)
    → 0 < m
    → All Positive ds
    → (0 < alignment ds m) × Divides m (alignment ds m) × All (λ d. Divides d (alignment ds m)) ds
alignment-Divides [] m h k = (h, (1, omega arith), tt)
alignment-Divides (d ∷ ds) m h k =
    let s = lcm-Divides m d h k.0 in
    let r = alignment-Divides ds (lcm m d) s.2 k.1 in
    (
      r.0,
      Divides-trans m (lcm m d) (alignment ds (lcm m d)) s.0 r.1,
      (Divides-trans d (lcm m d) (alignment ds (lcm m d)) s.1 r.1, r.2),
    )

module _ (P : ℕ → Type 0) where
  All-any : (d : ℕ) (ds : List ℕ) → any (λ e. d == e) ds ≡ true → All P ds → P d
  All-any d [] h k = absurd cc
  All-any d (e ∷ ds) h k = elim (Bool-cases (d == e)) [
    | inl same ↦ let e' : e ≡ d = ground arith in subst P e' k.0
    | inr other ↦ All-any d ds (ground arith) k.1
  ]

  put-All : (d : ℕ) (ds : List ℕ) → All P (put d ds) → P d × All P ds
  put-All d ds h = elim (Bool-cases (any (λ e. d == e) ds)) [
    | inl e ↦ let r = subst (λ b. All P (if b then ds else d ∷ ds)) e h in (All-any d ds e r, r)
    | inr e ↦ subst (λ b. All P (if b then ds else d ∷ ds)) e h
  ]

  pub set_of-All : (ds : List ℕ) → All P (set_of ds) → All P ds
  set_of-All [] h = tt
  set_of-All (d ∷ ds) h = let r = put-All d (set_of ds) h in (r.0, set_of-All ds r.1)

  pub All-set_of : (ds : List ℕ) → All P ds → All P (set_of ds)
  All-set_of [] h = tt
  All-set_of (d ∷ ds) h = elim (Bool-cases (any (λ e. d == e) (set_of ds))) [
    | inl e ↦ rw e (All-set_of ds h.1)
    | inr e ↦ rw e (h.0, All-set_of ds h.1)
  ]
