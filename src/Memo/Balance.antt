-- ===== src/Memo/Balance.antt =====
-- The reference counts against the consumptions that the roots still expect.
use strategy_engine.Prelude.{
  ℕ, ◌-◌, ◌<◌, ◌≡◌, ◌≢◌, refl, ◌∙◌, inl, inr, Bool, none, some, List, [], ◌∷◌, if◌then◌else◌,
  get_elem?, arith, Option-cases,
}
use strategy_engine.Memo.Failure.{Python}
use strategy_engine.Memo.Counts.{
  Identity, count, held, held_all, decrement, count-le-held, held-decrement, held_all-set_root,
}
use strategy_engine.Memo.State.{
  Outcome, Entry, EvaluationContext, planned_root, foreseen, consume, pop_memo, hit, store,
  computing, release, release_all, exit_root,
}
use strategy_engine.Memo.Batch.{Evaluation, run}
use strategy_engine.Memo.Induct.{Nodes, Avoids, memoized_inv, run_inv}

module _ {A K V : Type 0} ⦃key : Identity K⦄ where
  -- The consumptions of an identity that all roots still expect.
  abbrev pub expected : K → EvaluationContext A K V → ℕ
  expected k c = elim c.pending [ none ↦ 0 | some roots ↦ held_all k roots ]

  abbrev pub Balanced : EvaluationContext A K V → Type 0
  Balanced c = (k : K) → c.refcounts k ≡ expected k c

  -- Nothing is kept for an identity without consumers.
  abbrev pub Retained : K → EvaluationContext A K V → Type 0
  Retained k c = c.refcounts k ≡ 0 → c.memo k ≡ none

  pub foreseen-eq-some :
      (c : EvaluationContext A K V) (k : K) (root : ℕ) (counts : List (K × ℕ))
      → foreseen c k ≡ some (root, counts)
      → (roots : List (List (K × ℕ))) × (c.pending ≡ some roots)
        × (get_elem? roots root ≡ some counts)
        × (0 < count k counts)
  unfolding foreseen
  foreseen-eq-some c k root counts h = elim (Option-cases c.pending) [
    | inl unplanned ↦ absurd (ground arith)
    | inr (roots, is) ↦ (roots, is, ground arith, ground arith)
  ]

  -- A foreseen consumption is among the expected ones.
  pub foreseen-expected :
      (c : EvaluationContext A K V) (k : K) (at : ℕ × List (K × ℕ))
      → foreseen c k ≡ some at
      → 0 < expected k c
  unfolding held
  foreseen-expected c k (root, counts) h =
      let (roots, planned, found, some_left) = foreseen-eq-some c k root counts h in
      let all = held_all-set_root k roots root counts [] found in
      rw planned (omega (arith, all, count-le-held k counts))

  pub consume-Balanced : (c : EvaluationContext A K V) (k : K) → Balanced c → Balanced (consume c k)
  unfolding consume
  consume-Balanced c k b j = elim (Option-cases (foreseen c k)) [
    | inl unforeseen ↦ ground (arith, b j)
    | inr ((root, counts), is) ↦
        let (roots, planned, found, some_left) = foreseen-eq-some c k root counts is in
        ground (
          arith,
          key.same_iff k j,
          b j,
          held-decrement k j counts,
          held_all-set_root j roots root counts (decrement k counts) found,
        )
  ]

  -- Releasing takes the counts off, and changes neither the roots nor what is retained.
  release-pending :
      (c : EvaluationContext A K V) (k : K) (n : ℕ) → (release c k n).pending ≡ c.pending
  unfolding release
  release-pending c k n = ground arith

  release-refcounts :
      (c : EvaluationContext A K V) (k j : K) (n : ℕ)
      → (release c k n).refcounts j ≡ c.refcounts j - (if key.same k j then n else 0)
  unfolding release
  release-refcounts c k j n = ground (arith, key.same_iff k j)

  release-Retained :
      (c : EvaluationContext A K V) (k j : K) (n : ℕ) → Retained j c → Retained j (release c k n)
  unfolding release
  release-Retained c k j n r = ground (arith, key.same_iff k j)

  pub release_all-pending :
      (c : EvaluationContext A K V) (counts : List (K × ℕ))
      → (release_all c counts).pending ≡ c.pending
  unfolding release_all
  release_all-pending c [] = refl
  release_all-pending c ((k, n) ∷ counts) =
      release_all-pending (release c k n) counts ∙ release-pending c k n

  release_all-refcounts :
      (c : EvaluationContext A K V) (j : K) (counts : List (K × ℕ))
      → (release_all c counts).refcounts j ≡ c.refcounts j - held j counts
  unfolding release_all held
  release_all-refcounts c j [] = omega arith
  release_all-refcounts c j ((k, n) ∷ counts) =
      omega (arith, release_all-refcounts (release c k n) j counts, release-refcounts c k j n)

  release_all-Retained :
      (c : EvaluationContext A K V) (j : K) (counts : List (K × ℕ))
      → Retained j c
      → Retained j (release_all c counts)
  unfolding release_all
  release_all-Retained c j [] r = r
  release_all-Retained c j ((k, n) ∷ counts) r =
      release_all-Retained (release c k n) j counts (release-Retained c k j n r)

  pub exit_root-Balanced :
      (c : EvaluationContext A K V) (index : ℕ) → Balanced c → Balanced (exit_root c index)
  unfolding exit_root held
  exit_root-Balanced c index b j = elim (Option-cases c.pending) [
    | inl unplanned ↦ ground (arith, b j)
    | inr (roots, planned) ↦ elim (Option-cases (get_elem? roots index)) [
      | inl outside ↦ ground (arith, b j)
      | inr (left, found) ↦
          let inside = record c { active_root = none } in
          ground (
            arith,
            b j,
            release_all-pending inside left,
            release_all-refcounts inside j left,
            held_all-set_root j roots index left [] found,
          )
    ]
  ]

  pub exit_root-Retained :
      (c : EvaluationContext A K V) (index : ℕ) (j : K)
      → Retained j c
      → Retained j (exit_root c index)
  unfolding exit_root
  exit_root-Retained c index j r =
      elim (Option-cases (planned_root (record c { active_root = none }) index)) [
        | inl unplanned ↦ ground arith
        | inr (left, found) ↦
            ground (arith, release_all-Retained (record c { active_root = none }) j left)
      ]

module _ {A K V : Type 0} ⦃key : Identity K⦄ (py : Python A) where
  pub hit-Balanced :
      (c : EvaluationContext A K V) (k : K) (e : Entry A V) → Balanced c → Balanced (hit py c k e).1
  unfolding hit pop_memo
  hit-Balanced c k e b j = ground (arith, b j)

  pub store-Balanced :
      (c : EvaluationContext A K V) (retain : Bool) (k : K) (a : Outcome A V)
      → Balanced c
      → Balanced (store py retain k a c)
  unfolding store
  store-Balanced c retain k a b j = ground (arith, b j)

  pub run-Balanced :
      (Q : K → Evaluation A K V → Type 0) (p : Evaluation A K V) (c : EvaluationContext A K V)
      → Nodes Q p
      → Balanced c
      → Balanced (run py p c).1
  run-Balanced Q p c h b =
      run_inv py Balanced Q
        (λ k body _.
          memoized_inv py Balanced k (run py body) (λ d. consume-Balanced d k)
            (λ d e. hit-Balanced d k e) (λ d q. q) (λ d retain a. store-Balanced d retain k a))
        p h c b

  -- Of an identity: its entry, its count and how often it was computed.
  abbrev pub Untouched : K → EvaluationContext A K V → EvaluationContext A K V → Type 0
  Untouched k c d =
      (d.memo k ≡ c.memo k)
      × (d.refcounts k ≡ c.refcounts k)
      × (d.stats.compute_calls k ≡ c.stats.compute_calls k)

  -- The steps for one identity leave every other one.
  module _ (j k : K) (other : j ≢ k) where
    pub consume-Untouched : (c : EvaluationContext A K V) → Untouched k c (consume c j)
    unfolding consume
    consume-Untouched c = ground (arith, key.same_iff j k)

    pub hit-Untouched :
        (c : EvaluationContext A K V) (e : Entry A V) → Untouched k c (hit py c j e).1
    unfolding hit pop_memo
    hit-Untouched c e = ground (arith, key.same_iff j k)

    pub computing-Untouched : (c : EvaluationContext A K V) → Untouched k c (computing c j)
    computing-Untouched c = ground (arith, key.same_iff j k)

    pub store-Untouched :
        (c : EvaluationContext A K V) (retain : Bool) (a : Outcome A V)
        → Untouched k c (store py retain j a c)
    unfolding store
    store-Untouched c retain a = ground (arith, key.same_iff j k)

  pub run-Untouched :
      (k : K) (p : Evaluation A K V) (c : EvaluationContext A K V)
      → Avoids k p
      → Untouched k c (run py p c).1
  run-Untouched k p c h =
      run_inv py (Untouched k c) (λ j _. j ≢ k)
        (λ j body other bodies.
          memoized_inv py (Untouched k c) j (run py body)
            (λ d q. ground (arith, consume-Untouched j k other d))
            (λ d e q. ground (arith, hit-Untouched j k other d e))
            (λ d q. ground (arith, computing-Untouched j k other d))
            (λ d retain a q. ground (arith, store-Untouched j k other d retain a)) bodies)
        p h c (refl, refl, refl)
