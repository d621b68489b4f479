-- ===== src/Episode/Lookup.antt =====
-- The touch table answers by number: touch `k` of episode `e` is the row `first_row[e] + k - 1`,
-- which is where the operands read it.
use strategy_engine.Prelude.{
  ℕ, suc, ◌+◌, ◌-◌, ◌≤◌, ◌<◌, ◌≡◌, refl, arith, sym, ap, ◌∙◌, List, [], ◌∷◌, ◌++◌, none, some,
  get_elem?, get_elem?-append, get_elem?-last, length, length-append,
}
use native.Mathlib.Decide.{dec_lt}
use strategy_engine.Episode.Side.{first_row, first_row_from}
use strategy_engine.Episode.Sound.{Table}

-- The number of the episode of every row in the list is at most `e`.
abbrev pub Below : ℕ → List (ℕ × ℕ) → Type 0
Below e [] = Unit {0}
Below e ((id, n) ∷ ks) = (id ≤ e) × Below e ks

Below-mono : (e e' : ℕ) (ks : List (ℕ × ℕ)) → e ≤ e' → Below e ks → Below e' ks
Below-mono e e' [] le h = tt
Below-mono e e' ((id, n) ∷ ks) le h = (omega arith, Below-mono e e' ks le h.1)

Below-append : (e n : ℕ) (ks : List (ℕ × ℕ)) → Below e ks → Below e (ks ++ (e, n) ∷ [])
Below-append e n [] h = (omega arith, tt)
Below-append e n (k ∷ ks) h = (h.0, Below-append e n ks h.1)

-- An episode that no row is of has no first row.
first_row-none : (j e : ℕ) (ks : List (ℕ × ℕ)) → Below e ks → first_row_from j (suc e) ks ≡ none
unfolding first_row_from
first_row-none j e [] h = refl
first_row-none j e ((id, n) ∷ ks) h = ground (arith, first_row-none (j + 1) e ks h.1)

-- The first row stays where it is when the table grows, and a new episode's is the next one.
pub first_row-append_some :
    (j e r : ℕ) (ks more : List (ℕ × ℕ))
    → first_row_from j e ks ≡ some r
    → first_row_from j e (ks ++ more) ≡ some r
unfolding first_row_from
first_row-append_some j e r [] more h = cc
first_row-append_some j e r ((id, n) ∷ ks) more h =
    ground (arith, first_row-append_some (j + 1) e r ks more)

first_row-append_none :
    (j e n : ℕ) (ks : List (ℕ × ℕ))
    → first_row_from j e ks ≡ none
    → first_row_from j e (ks ++ (e, n) ∷ []) ≡ some (j + length ks)
unfolding first_row_from
first_row-append_none j e n [] h = ground arith
first_row-append_none j e n ((id, k) ∷ ks) h = ground (arith, first_row-append_none (j + 1) e n ks)

-- Where the rows of the last episode stand.
pub record Last (ks : List (ℕ × ℕ)) (e n : ℕ) : Type 0 where
  pub below : Below e ks
  pub fresh : n ≡ 0 → first_row e ks ≡ none
  pub found : 0 < n → first_row e ks ≡ some (length ks - n)
  pub fits : n ≤ length ks
  pub rows : (k : ℕ) → 0 < k → k ≤ n → get_elem? ks (length ks - n + k - 1) ≡ some (e, k)

new_episode-Last : (ks : List (ℕ × ℕ)) (e n : ℕ) → Last ks e n → Last ks (suc e) 0
new_episode-Last ks e n h = record {
  below = Below-mono e (suc e) ks (omega arith) h.below;
  fresh = λ z. first_row-none 0 e ks h.below;
  found = λ p. absurd (omega arith);
  fits = omega arith;
  rows = λ k p q. absurd (omega arith);
}

module _ (ks : List (ℕ × ℕ)) (e n : ℕ) (h : Last ks e n) where
  grown : length (ks ++ (e, suc n) ∷ []) ≡ length ks + 1
  grown = length-append ks ((e, suc n) ∷ [])

  new_touch-found :
      first_row e (ks ++ (e, suc n) ∷ []) ≡ some (length (ks ++ (e, suc n) ∷ []) - suc n)
  new_touch-found = elim (dec_lt 0 n) [
    | yes more ↦
        first_row-append_some 0 e (length ks - n) ks ((e, suc n) ∷ []) (h.found more)
        ∙ ap some (omega (arith, grown))
    | no first ↦
        first_row-append_none 0 e (suc n) ks (h.fresh (omega arith))
        ∙ ap some (omega (arith, grown))
  ]

  new_touch-rows :
      (k : ℕ)
      → 0 < k
      → k ≤ suc n
      → get_elem? (ks ++ (e, suc n) ∷ []) (length (ks ++ (e, suc n) ∷ []) - suc n + k - 1)
        ≡ some (e, k)
  new_touch-rows k p q = elim (dec_lt n k) [
    | yes last ↦
        let at : length (ks ++ (e, suc n) ∷ []) - suc n + k - 1 ≡ length ks =
          omega (arith, grown, h.fits) in
        let is : k ≡ suc n = omega arith in
        rw at (get_elem?-last ks (e, suc n) ∙ ap (λ j. some (e, j)) (sym is))
    | no before ↦
        let at : length (ks ++ (e, suc n) ∷ []) - suc n + k - 1 ≡ length ks - n + k - 1 =
          omega (arith, grown, h.fits) in
        rw at (
          get_elem?-append ks ((e, suc n) ∷ []) (length ks - n + k - 1) (omega (arith, h.fits))
          ∙ h.rows k p (omega arith))
  ]

  new_touch-Last : Last (ks ++ (e, suc n) ∷ []) e (suc n)
  new_touch-Last = record {
    below = Below-append e (suc n) ks h.below;
    fresh = λ z. absurd (omega arith);
    found = λ p. new_touch-found;
    fits = omega (arith, grown, h.fits);
    rows = new_touch-rows;
  }

pub Table-Last : {ks : List (ℕ × ℕ)} {e n : ℕ} → Table ks e n → Last ks e n
unfolding first_row_from
Table-Last Table.empty = record {
  below = tt;
  fresh = λ z. refl;
  found = λ p. absurd (omega arith);
  fits = omega arith;
  rows = λ k p q. absurd (omega arith);
}
Table-Last (Table.new_episode {ks} {e} {n} t) = new_episode-Last ks e n (Table-Last t)
Table-Last (Table.new_touch {ks} {e} {n} t) = new_touch-Last ks e n (Table-Last t)
