-- ===== src/Memo/Cleared.antt =====
-- The roots that are done expect nothing more.
use strategy_engine.Prelude.{
  ℕ, zero, suc, ◌+◌, ◌≤◌, ◌≡◌, ◌≢◌, refl, ap, ◌⊎◌, inl, inr, Bool, none, some, List, [], ◌∷◌,
  get_elem?, arith, Bool-cases, Option-cases, ◌==◌, ==_iff,
}
use strategy_engine.Memo.Failure.{Python}
use strategy_engine.Memo.Counts.{Identity, count, decrement, held, held_all, set_root}
use strategy_engine.Memo.State.{
  Outcome, Entry, EvaluationContext, planned_root, foreseen, consume, hit, store, exit_root,
  pop_memo,
}
use strategy_engine.Memo.Batch.{Evaluation, run}
use strategy_engine.Memo.Induct.{Nodes, memoized_inv, run_inv}
use strategy_engine.Memo.Balance.{foreseen-eq-some, release_all-pending}

module _ {K : Type 0} where
  get_elem?-set_root :
      (roots : List (List (K × ℕ))) (i j : ℕ) (counts found : List (K × ℕ))
      → get_elem? (set_root roots i counts) j ≡ some found
      → ((i ≡ j) × (found ≡ counts)) ⊎ ((i ≢ j) × (get_elem? roots j ≡ some found))
  unfolding set_root
  get_elem?-set_root [] i j counts found h = cc
  get_elem?-set_root (r ∷ roots) zero zero counts found h = inl (refl, ground arith)
  get_elem?-set_root (r ∷ roots) zero (suc j) counts found h = inr (λ e. absurd (omega arith), h)
  get_elem?-set_root (r ∷ roots) (suc i) zero counts found h = inr (λ e. absurd (omega arith), h)
  get_elem?-set_root (r ∷ roots) (suc i) (suc j) counts found h =
      elim (get_elem?-set_root roots i j counts found h) [
        | inl (e, is) ↦ inl (ap suc e, is)
        | inr (e, is) ↦ inr (λ q. e (omega arith), is)
      ]

module _ {A K V : Type 0} where
  -- The roots before the first `n`, and those from `end` on, expect nothing.
  abbrev pub Cleared : ℕ → ℕ → EvaluationContext A K V → Type 0
  Cleared n end c =
      (j : ℕ) (counts : List (K × ℕ))
      → (n ≤ j → end ≤ j)
      → planned_root c j ≡ some counts
      → counts ≡ []

module _ {A K V : Type 0} ⦃key : Identity K⦄ (n end : ℕ) where
  consume-Cleared :
      (c : EvaluationContext A K V) (k : K) → Cleared n end c → Cleared n end (consume c k)
  unfolding consume count
  consume-Cleared c k cleared j counts done found = elim (Option-cases (foreseen c k)) [
    | inl unforeseen ↦ cleared j counts done (ground arith)
    | inr ((root, left), is) ↦
        let (roots, planned, at, some_left) = foreseen-eq-some c k root left is in
        let now : get_elem? (set_root roots root (decrement k left)) j ≡ some counts =
          ground arith in
        elim (get_elem?-set_root roots root j (decrement k left) counts now) [
          | inl (here, _) ↦
              let none_left : left ≡ [] = cleared j left done (ground arith) in
              absurd (ground arith)
          | inr (_, before) ↦ cleared j counts done (ground arith)
        ]
  ]

  Cleared-pending :
      (c d : EvaluationContext A K V) → d.pending ≡ c.pending → Cleared n end c → Cleared n end d
  Cleared-pending c d same cleared j counts done found = cleared j counts done (rw (← same) found)

module _ {A K V : Type 0} ⦃key : Identity K⦄ (py : Python A) (n end : ℕ) where
  hit-pending :
      (c : EvaluationContext A K V) (k : K) (e : Entry A V) → (hit py c k e).1.pending ≡ c.pending
  unfolding hit pop_memo
  hit-pending c k e = ground arith

  store-pending :
      (c : EvaluationContext A K V) (retain : Bool) (k : K) (a : Outcome A V)
      → (store py retain k a c).pending ≡ c.pending
  unfolding store
  store-pending c retain k a = ground arith

  pub run-Cleared :
      (Q : K → Evaluation A K V → Type 0) (p : Evaluation A K V) (c : EvaluationContext A K V)
      → Nodes Q p
      → Cleared n end c
      → Cleared n end (run py p c).1
  run-Cleared Q p c h =
      run_inv py (Cleared n end) Q
        (λ k body _.
          memoized_inv py (Cleared n end) k (run py body) (λ d. consume-Cleared n end d k)
            (λ d e. Cleared-pending n end d (hit py d k e).1 (hit-pending d k e)) (λ d q. q)
            (λ d retain a.
              Cleared-pending n end d (store py retain k a d) (store-pending d retain k a)))
        p h c

module _ {A K V : Type 0} ⦃key : Identity K⦄ where
  exit_root-pending :
      (c : EvaluationContext A K V) (index : ℕ)
      → ((planned_root c index ≡ none) × ((exit_root c index).pending ≡ c.pending))
        ⊎ ((roots : List (List (K × ℕ))) × (c.pending ≡ some roots)
            × ((exit_root c index).pending ≡ some (set_root roots index [])))
  unfolding exit_root
  exit_root-pending c index = elim (Option-cases c.pending) [
    | inl unplanned ↦ inl (ground arith, ground arith)
    | inr (roots, planned) ↦ elim (Option-cases (get_elem? roots index)) [
      | inl outside ↦ inl (ground arith, ground arith)
      | inr (left, at) ↦ inr (
        roots,
        planned,
        ground (arith, release_all-pending (record c { active_root = none }) left),
      )
    ]
  ]

  -- The end of a root clears it.
  pub exit_root-Cleared :
      (c : EvaluationContext A K V) (n end : ℕ)
      → Cleared n end c
      → Cleared (n + 1) end (exit_root c n)
  exit_root-Cleared c n end cleared j counts done found = elim (exit_root-pending c n) [
    | inl (unplanned, same) ↦ elim (Bool-cases (n == j)) [
      | inl here ↦ let is : n ≡ j = (==_iff n j).0 here in absurd (ground arith)
      | inr away ↦ cleared j counts (λ le. done (ground arith)) (ground arith)
    ]
    | inr (roots, planned, after) ↦
        let now : get_elem? (set_root roots n []) j ≡ some counts = ground arith in
        elim (get_elem?-set_root roots n j [] counts now) [
          | inl (_, is) ↦ is
          | inr (away, before) ↦ cleared j counts (λ le. done (omega arith)) (ground arith)
        ]
  ]

module _ {K : Type 0} ⦃key : Identity K⦄ where
  pub held_all-zero :
      (k : K) (roots : List (List (K × ℕ)))
      → ((j : ℕ) (counts : List (K × ℕ)) → get_elem? roots j ≡ some counts → counts ≡ [])
      → held_all k roots ≡ 0
  unfolding held_all held
  held_all-zero k [] h = refl
  held_all-zero k (counts ∷ roots) h =
      let empty : counts ≡ [] = h 0 counts refl in
      let rest : held_all k roots ≡ 0 = held_all-zero k roots (λ j. h (suc j)) in
      rw empty (omega (arith, rest))
