-- ===== src/Memo/Induct.antt =====
-- Invariants of evaluations through the context.
use strategy_engine.Prelude.{◌≢◌, inl, inr, Bool, none, some, Option-cases}
use strategy_engine.Memo.Failure.{Python}
use strategy_engine.Memo.Counts.{Identity}
use strategy_engine.Memo.State.{
  Outcome, value, raise, Entry, EvaluationContext, consume, hit, miss, store, computing, memoized,
  compute_through,
}
use strategy_engine.Memo.Batch.{Evaluation, give, fail, node, go_on, run}

module _ {A K V : Type 0} where
  -- What holds of each node, by its identity and its body.
  abbrev pub Nodes : (K → Evaluation A K V → Type 0) → Evaluation A K V → Type 0
  Nodes P (give v) = Unit
  Nodes P (fail x) = Unit
  Nodes P (node none body next) = Nodes P body × ((v : V) → Nodes P (next v))
  Nodes P (node (some k) body next) = P k body × Nodes P body × ((v : V) → Nodes P (next v))

  -- No node has the identity.
  abbrev pub Avoids : K → Evaluation A K V → Type 0
  Avoids k = Nodes λ j body. j ≢ k

  -- No node has the identity of one that it stands in.
  abbrev pub Nested : Evaluation A K V → Type 0
  Nested = Nodes Avoids

module _ {A K V : Type 0} ⦃key : Identity K⦄ (py : Python A)
    (P : EvaluationContext A K V → Type 0) where
  -- What every step for an identity keeps, its consumption keeps.
  pub memoized_inv :
      (k : K) (compute : EvaluationContext A K V → Outcome A V × EvaluationContext A K V)
      → ((c : EvaluationContext A K V) → P c → P (consume c k))
      → ((c : EvaluationContext A K V) (e : Entry A V) → P c → P (hit py c k e).1)
      → ((c : EvaluationContext A K V) → P c → P (computing c k))
      → ((c : EvaluationContext A K V) (retain : Bool) (a : Outcome A V)
          → P c
          → P (store py retain k a c))
      → ((c : EvaluationContext A K V) → P c → P (compute c).1)
      → (c : EvaluationContext A K V) → P c
      → P (memoized py c k compute).1
  unfolding memoized miss
  memoized_inv k compute consumes hits counts stores computes c p = elim (Option-cases (c.memo k)) [
    | inl missed ↦ rw (missed, memoized) (stores _ _ _ (computes _ (counts _ (consumes c p))))
    | inr (e, found) ↦ rw (found, memoized) (hits _ e (consumes c p))
  ]

  module _ (Q : K → Evaluation A K V → Type 0)
      (step : (k : K) (body : Evaluation A K V)
        → Q k body
        → ((c : EvaluationContext A K V) → P c → P (run py body c).1)
        → (c : EvaluationContext A K V) → P c
        → P (memoized py c k (run py body)).1) where
    go_on_inv :
        (r : Outcome A V × EvaluationContext A K V) (next : V → Evaluation A K V)
        → P r.1
        → ((v : V) (c : EvaluationContext A K V) → P c → P (run py (next v) c).1)
        → P (go_on r λ v. run py (next v)).1
    go_on_inv (value v, c) next p g = g v c p
    go_on_inv (raise x, c) next p g = p

    -- What each consumption keeps, an evaluation keeps.
    pub run_inv :
        (p : Evaluation A K V) → Nodes Q p → (c : EvaluationContext A K V) → P c → P (run py p c).1
    unfolding run compute_through
    run_inv (give v) h c s = s
    run_inv (fail x) h c s = s
    run_inv (node none body next) h c s =
        go_on_inv (run py body c) next (run_inv body h.0 c s)
          (λ v c' s'. run_inv (next v) (h.1 v) c' s')
    run_inv (node (some k) body next) h c s =
        go_on_inv (memoized py c k (run py body)) next
          (step k body h.0 (λ c' s'. run_inv body h.1 c' s') c s)
          (λ v c' s'. run_inv (next v) (h.2 v) c' s')
