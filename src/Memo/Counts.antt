-- ===== src/Memo/Counts.antt =====
-- The counters of the reference counts: `Counter` as its items, in the order of insertion. The keys
-- are the identities of nodes, with the equality that they define.
use strategy_engine.Prelude.{
  ℕ, zero, suc, ◌+◌, ◌-◌, ◌<◌, ◌≤◌, ◌≡◌, ◌↔◌, Bool, true, some, List, [], ◌∷◌, if◌then◌else◌, ltb,
  arith, get_elem?,
}

pub record Identity (K : Type 0) : Type 0 where
  pub same : K → K → Bool
  pub same_iff : (a b : K) → (same a b ≡ true) ↔ (a ≡ b)

module _ {K : Type 0} where
  unfoldable pub set_root : List (List (K × ℕ)) → ℕ → List (K × ℕ) → List (List (K × ℕ))
  set_root [] i counts = []
  set_root (old ∷ roots) zero counts = counts ∷ roots
  set_root (old ∷ roots) (suc i) counts = old ∷ set_root roots i counts

module _ {K : Type 0} ⦃key : Identity K⦄ where
  -- `counts.get(identity, 0)`
  unfoldable pub count : K → List (K × ℕ) → ℕ
  count k [] = 0
  count k ((j, n) ∷ counts) = if key.same j k then n else count k counts

  unfoldable pub add_one : K → List (K × ℕ) → List (K × ℕ)
  add_one k [] = (k, 1) ∷ []
  add_one k ((j, n) ∷ counts) =
      if key.same j k then (j, n + 1) ∷ counts else (j, n) ∷ add_one k counts

  -- `Counter(identities)`
  unfoldable pub counter_from : List (K × ℕ) → List K → List (K × ℕ)
  counter_from counts [] = counts
  counter_from counts (k ∷ ks) = counter_from (add_one k counts) ks

  -- `counts[identity] -= 1`, and `del` of a zero count
  unfoldable pub decrement : K → List (K × ℕ) → List (K × ℕ)
  decrement k [] = []
  decrement k ((j, n) ∷ counts) =
      if key.same j k
      then (if ltb 1 n then (j, n - 1) ∷ counts else counts)
      else (j, n) ∷ decrement k counts

  -- What a counter holds of an identity, taken over all its items.
  unfoldable pub held : K → List (K × ℕ) → ℕ
  held k [] = 0
  held k ((j, n) ∷ counts) = (if key.same j k then n else 0) + held k counts

  pub count-le-held : (k : K) (counts : List (K × ℕ)) → count k counts ≤ held k counts
  unfolding count held
  count-le-held k [] = omega arith
  count-le-held k ((j, n) ∷ counts) = ground (arith, count-le-held k counts)

  pub held-decrement :
      (k i : K) (counts : List (K × ℕ))
      → 0 < count k counts
      → held i (decrement k counts) + (if key.same k i then 1 else 0) ≡ held i counts
  unfolding count held decrement
  held-decrement k i [] h = absurd (omega arith)
  held-decrement k i ((j, n) ∷ counts) h =
      ground
        (arith, key.same_iff j k, key.same_iff j i, key.same_iff k i, held-decrement k i counts)

  -- What all roots hold.
  unfoldable pub held_all : K → List (List (K × ℕ)) → ℕ
  held_all k [] = 0
  held_all k (counts ∷ roots) = held k counts + held_all k roots

  pub held_all-set_root :
      (k : K) (roots : List (List (K × ℕ))) (i : ℕ) (old counts : List (K × ℕ))
      → get_elem? roots i ≡ some old
      → held_all k (set_root roots i counts) + held k old ≡ held_all k roots + held k counts
  unfolding held_all set_root
  held_all-set_root k [] i old counts h = cc
  held_all-set_root k (now ∷ roots) zero old counts h = ground arith
  held_all-set_root k (now ∷ roots) (suc i) old counts h =
      omega (arith, held_all-set_root k roots i old counts h)
