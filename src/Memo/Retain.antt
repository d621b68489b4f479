-- ===== src/Memo/Retain.antt =====
-- What the memo retains while an evaluation runs.
use strategy_engine.Prelude.{
  ◌≡◌, ◌≢◌, sym, subst, inl, inr, ◌&&◌, none, ltb, arith, Bool-cases, Option-cases,
}
use strategy_engine.Memo.Failure.{Python}
use strategy_engine.Memo.Counts.{Identity}
use strategy_engine.Memo.State.{
  Outcome, Entry, EvaluationContext, consume, pop_memo, hit, store, computing, memoized, miss,
}
use strategy_engine.Memo.Batch.{Evaluation, run}
use strategy_engine.Memo.Refine.{consume-memo}
use strategy_engine.Memo.Induct.{Avoids, Nested, memoized_inv, run_inv}
use strategy_engine.Memo.Balance.{
  Retained, consume-Untouched, hit-Untouched, computing-Untouched, store-Untouched, run-Untouched,
}

module _ {A K V : Type 0} ⦃key : Identity K⦄ (py : Python A) where
  hit_self-Retained :
      (c : EvaluationContext A K V) (k : K) (e : Entry A V) → Retained k (hit py c k e).1
  unfolding hit pop_memo
  hit_self-Retained c k e = ground (arith, key.same_iff k k)

  store_self-Retained :
      (c d : EvaluationContext A K V) (k : K) (a : Outcome A V)
      → d.memo k ≡ none
      → d.refcounts k ≡ c.refcounts k
      → Retained k (store py (c.memo_enabled && ltb 0 (c.refcounts k)) k a d)
  unfolding store
  store_self-Retained c d k a h q = ground (arith, key.same_iff k k)

  memoized_self-Retained :
      (k : K) (body : Evaluation A K V) (c : EvaluationContext A K V)
      → Avoids k body
      → Retained k (memoized py c k (run py body)).1
  unfolding memoized miss
  memoized_self-Retained k body c h = elim (Option-cases (c.memo k)) [
    | inl missed ↦
        let d = consume c k in
        let same = run-Untouched py k body (computing d k) h in
        rw (missed, memoized)
          (store_self-Retained d (run py body (computing d k)).1 k _
            (ground (arith, consume-memo c k)) same.1)
    | inr (e, found) ↦ rw (found, memoized) (hit_self-Retained (consume c k) k e)
  ]

  pub run-Retained :
      (k : K) (p : Evaluation A K V) (c : EvaluationContext A K V)
      → Nested p
      → Retained k c
      → Retained k (run py p c).1
  run-Retained k p c h =
      run_inv py (Retained k) Avoids
        (λ j body avoids bodies d r. elim (Bool-cases (key.same j k)) [
          | inl is ↦
              subst (λ (i : K). Retained k (memoized py d i (run py body)).1)
                (sym ((key.same_iff j k).0 is))
                (memoized_self-Retained k body d
                  (subst (λ (i : K). Avoids i body) ((key.same_iff j k).0 is) avoids))
          | inr is_not ↦
              let other : j ≢ k = λ e. cc (is_not, (key.same_iff j k).1 e) in
              memoized_inv py (Retained k) j (run py body)
                (λ d q. ground (arith, consume-Untouched py j k other d))
                (λ d e q. ground (arith, hit-Untouched py j k other d e))
                (λ d q. ground (arith, computing-Untouched py j k other d))
                (λ d retain a q. ground (arith, store-Untouched py j k other d retain a)) bodies d r
        ])
        p h c
