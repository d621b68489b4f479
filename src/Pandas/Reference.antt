-- ===== src/Pandas/Reference.antt =====
-- The rolling maximum by a plain scan, for tests and examples.
use strategy_engine.Prelude.{
  ℕ, zero, suc, ◌+◌, ◌≡◌, arith, Bool, true, false, ◌||◌, ltb, none, some, if◌then◌else◌,
  Bool-cases, inl, inr, subst, sym, not, ◌&&◌, List, [], ◌∷◌, any, get_elem?,
}
use strategy_engine.Float.{Float, IsOrdered}
use strategy_engine.Pandas.{
  RollingMax, InWindow, IsRollingMax, RollingMin, IsRollingMin, RowMin, IsRowMin,
}

-- Whether one of the `window` bars up to bar `i` is true.
abbrev pub any_recent : ℕ → (ℕ → Bool) → ℕ → Bool
any_recent zero v i = false
any_recent (suc window) v zero = v 0
any_recent (suc window) v (suc i) = v (suc i) || any_recent window v i

abbrev pub scan_rolling : RollingMax
scan_rolling window min_periods v i =
    if ltb (i + 1) min_periods then none else some (any_recent window v i)

any_recent-find :
    (window : ℕ) (v : ℕ → Bool) (i : ℕ)
    → any_recent window v i ≡ true
    → (k : ℕ) × InWindow window i k × (v k ≡ true)
any_recent-find zero v i h = absurd cc
any_recent-find (suc window) v zero h = (0, (omega arith, omega arith), h)
any_recent-find (suc window) v (suc i) h = elim (Bool-cases (v (suc i))) [
  | inl e ↦ (suc i, (omega arith, omega arith), e)
  | inr e ↦
      let r = any_recent-find window v i (ground arith) in
      (r.0, (omega (arith, r.1.0), omega (arith, r.1.1)), r.2)
]

find-any_recent :
    (window : ℕ) (v : ℕ → Bool) (i k : ℕ)
    → InWindow window i k
    → v k ≡ true
    → any_recent window v i ≡ true
find-any_recent zero v i k w h = absurd (omega (arith, w.0, w.1))
find-any_recent (suc window) v zero k w h =
    let at : k ≡ 0 = omega (arith, w.0) in subst (λ x. v x ≡ true) at h
find-any_recent (suc window) v (suc i) k w h = elim (Bool-cases (ltb i k)) [
  | inl e ↦
      let at : k ≡ suc i = ground (arith, w.0) in
      let last : v (suc i) ≡ true = subst (λ x. v x ≡ true) at h in rw last
  | inr e ↦
      let rest = find-any_recent window v i k (ground arith, omega (arith, w.1)) h in
      rw rest (ground arith)
]

pub scan_rolling-IsRollingMax : IsRollingMax scan_rolling
scan_rolling-IsRollingMax = record {
  too_few = λ window min_periods v i h k. ground arith;
  of_window = λ window min_periods v i h k.
      let full : ltb (i + 1) min_periods ≡ false = ground arith in
      (
        any_recent window v i,
        rw full,
        (any_recent-find window v i, λ r. find-any_recent window v i r.0 r.1 r.2),
      );
}

-- The rolling minimum is the rolling maximum of the negation, negated.
abbrev pub scan_rolling_min : RollingMin
scan_rolling_min window min_periods v i =
    if ltb (i + 1) min_periods then none else some (not (any_recent window (λ k. not (v k)) i))

pub scan_rolling_min-IsRollingMin : IsRollingMin scan_rolling_min
scan_rolling_min-IsRollingMin = record {
  too_few = λ window min_periods v i h k. ground arith;
  of_window = λ window min_periods v i h k.
      let full : ltb (i + 1) min_periods ≡ false = ground arith in
      (
        not (any_recent window (λ k. not (v k)) i),
        rw full,
        (
          λ all j w. elim (Bool-cases (v j)) [
            | inl is ↦ is
            | inr is_not ↦
                let seen = find-any_recent window (λ k. not (v k)) i j w (ground arith) in
                absurd (ground arith)
          ],
          λ all. elim (Bool-cases (any_recent window (λ k. not (v k)) i)) [
            | inl is ↦
                let (j, w, missed) = any_recent-find window (λ k. not (v k)) i is in
                let holds = all j w in absurd (ground arith)
            | inr is_not ↦ ground arith
          ],
        ),
      );
}

-- The least number of a row by a plain scan.
module _ {F : Type 0} ⦃f : Float F⦄ where
  abbrev pub least_of : F → F → F
  least_of x m = if f.le x x then (if f.le m m then (if f.lt m x then m else x) else x) else m

  abbrev pub scan_min : RowMin F
  scan_min [] = f.nan
  scan_min (x ∷ xs) = least_of x (scan_min xs)

  module _ (order : IsOrdered F) (missing : f.le f.nan f.nan ≡ false) where
    scan_min-no_number :
        (row : List F)
        → any (λ a. f.le a a) row ≡ false
        → f.le (scan_min row) (scan_min row) ≡ false
    scan_min-no_number [] h = missing
    scan_min-no_number (x ∷ xs) h = ground (arith, scan_min-no_number xs)

    scan_min-number :
        (row : List F) → any (λ a. f.le a a) row ≡ true → f.le (scan_min row) (scan_min row) ≡ true
    scan_min-number [] h = cc
    scan_min-number (x ∷ xs) h = ground (arith, scan_min-number xs)

    scan_min-among :
        (row : List F)
        → any (λ a. f.le a a) row ≡ true
        → (i : ℕ) × (get_elem? row i ≡ some (scan_min row))
    scan_min-among [] h = cc
    scan_min-among (x ∷ xs) h = elim (Bool-cases (any (λ a. f.le a a) xs)) [
      | inl rest ↦
          let (i, is) = scan_min-among xs rest in
          elim (Bool-cases (f.le x x && not (f.lt (scan_min xs) x))) [
            | inl first ↦ (0, ground (arith, scan_min-number xs))
            | inr later ↦ (suc i, ground (arith, scan_min-number xs))
          ]
      | inr alone ↦ (0, ground (arith, scan_min-no_number xs))
    ]

    le_of_lt : (a b : F) → f.lt a b ≡ true → f.le a b ≡ true
    le_of_lt a b h =
        let (na, nb) = order.number_of_lt a b h in
        elim (order.le_total a b na nb) [
          | inl le ↦ le
          | inr ge ↦ absurd (ground (arith, order.lt-eq-not_le a b na nb))
        ]

    least_of-left : (x m : F) → f.le x x ≡ true → f.le (least_of x m) x ≡ true
    least_of-left x m n = ground (arith, le_of_lt m x)

    least_of-right : (x m : F) → f.le m m ≡ true → f.le (least_of x m) m ≡ true
    least_of-right x m n = ground (arith, order.lt-eq-not_le m x)

    scan_min-lower :
        (row : List F) (i : ℕ) (a : F)
        → get_elem? row i ≡ some a
        → f.le a a ≡ true
        → f.le (scan_min row) a ≡ true
    scan_min-lower [] i a h n = cc
    scan_min-lower (x ∷ xs) zero a h n =
        let at : x ≡ a = ground arith in
        subst (λ (b : F). f.le (least_of x (scan_min xs)) b ≡ true) at
          (least_of-left x (scan_min xs) (subst (λ (b : F). f.le b b ≡ true) (sym at) n))
    scan_min-lower (x ∷ xs) (suc i) a h n =
        let below = scan_min-lower xs i a h n in
        let here = order.number_of_le (scan_min xs) a below in
        order.le_trans (least_of x (scan_min xs)) (scan_min xs) a
          (least_of-right x (scan_min xs) here.0) below

    pub scan_min-IsRowMin : IsRowMin scan_min
    scan_min-IsRowMin = record {
      no_number = scan_min-no_number;
      number = scan_min-number;
      among = scan_min-among;
      lower = scan_min-lower;
    }
