-- ===== src/Memo/Batch.antt =====
-- Evaluations that consume nodes through the context of
-- src/strategy_engine/indicators/evaluation_context.py, and `_stream_variants` of
-- src/strategy_engine/strategies/application/evaluate_range_batch.py over them. What an evaluation
-- computes outside the nodes, and what its variants predict, are parameters.
use Prim.Native.String.{String}
use strategy_engine.Prelude.{ℕ, ◌+◌, Option, none, some, List, [], ◌∷◌, map}
use strategy_engine.Memo.Failure.{Exc, Python}
use strategy_engine.Memo.Counts.{Identity}
use strategy_engine.Memo.State.{
  Outcome, value, raise, EvaluationContext, plan_roots, enter_root, exit_root, compute_through,
}

-- An evaluation: it returns, raises, or consumes a node and goes on with its result. The body of a node
-- is an evaluation too, and no exception is caught on the way.
pub data Evaluation (A K V : Type 0) : Type 0 where
  give : V → Evaluation A K V
  fail : Exc A → Evaluation A K V
  node : Option K → Evaluation A K V → (V → Evaluation A K V) → Evaluation A K V

module _ {A V : Type 0} where
  abbrev pub and_then : Outcome A V → (V → Outcome A V) → Outcome A V
  and_then (value v) g = g v
  and_then (raise exc) g = raise exc

module _ {A K V : Type 0} where
  -- Without a context: each node is computed where it is consumed.
  unfoldable pub direct : Evaluation A K V → Outcome A V
  direct (give v) = value v
  direct (fail exc) = raise exc
  direct (node k body next) = and_then (direct body) λ v. direct (next v)

module _ {A K V : Type 0} where
  abbrev pub go_on :
      Outcome A V × EvaluationContext A K V
      → (V → EvaluationContext A K V → Outcome A V × EvaluationContext A K V)
      → Outcome A V × EvaluationContext A K V
  go_on (value v, c) g = g v c
  go_on (raise exc, c) g = (raise exc, c)

module _ {A K V : Type 0} ⦃key : Identity K⦄ (py : Python A) where
  unfoldable pub run :
      Evaluation A K V → EvaluationContext A K V → Outcome A V × EvaluationContext A K V
  run (give v) c = (value v, c)
  run (fail exc) c = (raise exc, c)
  run (node k body next) c = go_on (compute_through py c k (run body)) λ v. run (next v)

pub record Variant (A K V : Type 0) : Type 0 where
  pub variant_id : String
  pub identities : List K
  pub evaluation : Evaluation A K V

-- `BatchVariantOutcome`: a result, or the payload of an engine error.
pub data BatchOutcome (A V : Type 0) : Type 0 where
  success : String → V → BatchOutcome A V
  refused : String → String → String → A → BatchOutcome A V

-- The outcomes that a stream yields, and the exception that ends it, if one does.
pub record Stream (A K V : Type 0) : Type 0 where
  pub outcomes : List (BatchOutcome A V)
  pub escaped : Option (Exc A)
  pub context : EvaluationContext A K V

module _ {A V : Type 0} where
  -- The outcome of a variant; an exception that is not an engine error has none.
  unfoldable pub reported : String → Outcome A V → Option (BatchOutcome A V)
  reported id (value v) = some (success id v)
  reported id (raise exc) = elim exc.engine [
    | none ↦ none
    | some payload ↦ some (refused id payload.code payload.message payload.details)
  ]

  abbrev pub raised_by : Outcome A V → Option (Exc A)
  raised_by (value v) = none
  raised_by (raise exc) = some exc

module _ {A V : Type 0} (py : Python A) where
  -- `root` raises where another root is active, and the loop catches that.
  abbrev pub nested : String → BatchOutcome A V
  nested id =
      refused id "evaluation_invariant_broken" "evaluation context roots cannot nest" py.no_details

module _ {A K V : Type 0} ⦃key : Identity K⦄ (py : Python A) where
  -- `with context.root(index): …`
  unfoldable pub run_root :
      ℕ
      → Evaluation A K V
      → EvaluationContext A K V
      → Option (Outcome A V × EvaluationContext A K V)
  run_root index p c = elim (enter_root c index) [
    | none ↦ none
    | some c' ↦ let (result, after) = run py p c' in some (result, exit_root after index)
  ]

  -- The loop from the variant at `index`.
  unfoldable pub stream_from : ℕ → List (Variant A K V) → EvaluationContext A K V → Stream A K V
  stream_from index [] c = record { outcomes = []; escaped = none; context = c }
  stream_from index (v ∷ vs) c = elim (run_root index v.evaluation c) [
    | none ↦
        let rest = stream_from (index + 1) vs c in
        record rest { outcomes = nested py v.variant_id ∷ rest.outcomes }
    | some (result, after) ↦ elim (reported v.variant_id result) [
      | none ↦ record { outcomes = []; escaped = raised_by result; context = after }
      | some outcome ↦
          let rest = stream_from (index + 1) vs after in
          record rest { outcomes = outcome ∷ rest.outcomes }
    ]
  ]

  -- `none` where the roots were already planned.
  unfoldable pub stream_variants :
      List (Variant A K V) → EvaluationContext A K V → Option (Stream A K V)
  stream_variants vs c = elim (plan_roots c (map (λ v. v.identities) vs)) [
    | none ↦ none
    | some c' ↦ some (stream_from 0 vs c')
  ]
