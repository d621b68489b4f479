-- ===== src/Extreme/Lattice.antt =====
-- The order of an extreme: `a` below `b` where the extreme of both is `b`.
use strategy_engine.Prelude.{
  ℕ, zero, suc, ◌+◌, ◌-◌, ◌≤◌, ◌<◌, ◌≡◌, arith, ◌∙◌, ap, sym, subst, leb, Bool-cases, inl, inr,
}
use strategy_engine.Extreme.Table.{IsReduce}

module _ {F : Type 0} (reduce : F → F → F) where
  -- The extreme of the `n + 1` values from `start` on, one after the other.
  abbrev pub extreme_from : (ℕ → F) → ℕ → ℕ → F
  extreme_from values start zero = values start
  extreme_from values start (suc n) = reduce (extreme_from values start n) (values (start + suc n))

module _ {F : Type 0} (reduce : F → F → F) (laws : IsReduce reduce) where
  abbrev pub Below : F → F → Type 0
  Below a b = reduce a b ≡ b

  pub Below-trans : (a b c : F) → Below a b → Below b c → Below a c
  Below-trans a b c h k =
      ap (reduce a) (sym k) ∙ sym (laws.assoc a b c) ∙ ap (λ x. reduce x c) h ∙ k

  pub Below-left : (a b : F) → Below a (reduce a b)
  Below-left a b = sym (laws.assoc a a b) ∙ ap (λ x. reduce x b) (laws.idem a)

  pub Below-right : (a b : F) → Below b (reduce a b)
  Below-right a b = ap (reduce b) (laws.comm a b) ∙ Below-left b a ∙ laws.comm b a

  pub Below-least : (a b c : F) → Below a c → Below b c → Below (reduce a b) c
  Below-least a b c h k = laws.assoc a b c ∙ ap (reduce a) k ∙ h

  pub Below-antisym : (a b : F) → Below a b → Below b a → a ≡ b
  Below-antisym a b h k = sym k ∙ laws.comm b a ∙ h

  -- `x` is the extreme of the values from `start` on, `count` of them.
  pub record IsExtreme (values : ℕ → F) (start count : ℕ) (x : F) : Type 0 where
    pub upper : (k : ℕ) → k < count → Below (values (start + k)) x
    pub least : (y : F) → ((k : ℕ) → k < count → Below (values (start + k)) y) → Below x y

  pub IsExtreme-one : (values : ℕ → F) (start : ℕ) → IsExtreme values start 1 (values start)
  IsExtreme-one values start = record {
    upper = λ k l.
        let e : start + k ≡ start = omega arith in
        subst (λ i. Below (values i) (values start)) (sym e) (laws.idem (values start));
    least = λ y h.
        let e : start + 0 ≡ start = omega arith in
        subst (λ i. Below (values i) y) e (h 0 (omega arith));
  }

  -- Two windows that together make up a third.
  pub IsExtreme-join :
      (values : ℕ → F) (start count next more whole : ℕ) (x y : F)
      → start ≤ next
      → next ≤ start + count
      → start + whole ≡ next + more
      → start + count ≤ next + more
      → IsExtreme values start count x
      → IsExtreme values next more y
      → IsExtreme values start whole (reduce x y)
  IsExtreme-join values start count next more whole x y a b c d one two = record {
    upper = λ k l. elim (Bool-cases (leb (suc k) count)) [
      | inl e ↦ Below-trans _ x _ (one.upper k (ground arith)) (Below-left x y)
      | inr e ↦
          let past : count ≤ k = ground arith in
          let at : next + (start + k - next) ≡ start + k = omega arith in
          let below =
            subst (λ i. Below (values i) y) at (two.upper (start + k - next) (omega arith)) in
          Below-trans _ y _ below (Below-right x y)
    ];
    least = λ z h. Below-least x y z (one.least z (λ k l. h k (omega arith))) (
        two.least z (λ k l.
          let at : start + (next + k - start) ≡ next + k = omega arith in
          subst (λ i. Below (values i) z) at (h (next + k - start) (omega arith))));
  }

  pub extreme_from-IsExtreme :
      (values : ℕ → F) (start n : ℕ)
      → IsExtreme values start (suc n) (extreme_from reduce values start n)
  extreme_from-IsExtreme values start zero = IsExtreme-one values start
  extreme_from-IsExtreme values start (suc n) =
      IsExtreme-join values start (suc n) (start + suc n) 1 (suc (suc n))
        (extreme_from reduce values start n) (values (start + suc n)) (omega arith) (omega arith)
        (omega arith) (omega arith) (extreme_from-IsExtreme values start n)
        (IsExtreme-one values (start + suc n))

  pub IsExtreme-unique :
      (values : ℕ → F) (start count : ℕ) (x y : F)
      → IsExtreme values start count x
      → IsExtreme values start count y
      → x ≡ y
  IsExtreme-unique values start count x y h k =
      Below-antisym x y (h.least y k.upper) (k.least x h.upper)
