-- ===== src/Memo/Once.antt =====
-- How often a node is computed.
use strategy_engine.Prelude.{
  ℕ, ◌<◌, ◌≤◌, ◌≡◌, ◌≢◌, refl, sym, ◌∙◌, subst, inl, inr, Bool, true, ◌&&◌, none, some, ltb, arith,
  Bool-cases, Option-cases,
}
use strategy_engine.Memo.Failure.{Python}
use strategy_engine.Memo.Counts.{Identity}
use strategy_engine.Memo.State.{
  Outcome, Entry, EvaluationContext, foreseen, consume, pop_memo, hit, store, computing, entry_of,
  memoized, miss,
}
use strategy_engine.Memo.Batch.{Evaluation, run}
use strategy_engine.Memo.Refine.{consume-memo}
use strategy_engine.Memo.Induct.{Nodes, Avoids, Nested, memoized_inv, run_inv}
use strategy_engine.Memo.Balance.{
  Balanced, foreseen-expected, consume-Balanced, hit-Balanced, store-Balanced, consume-Untouched,
  hit-Untouched, computing-Untouched, store-Untouched, run-Untouched, run-Balanced, run-Balanced,
}

-- At most one computation of an identity, unless a consumption was unforeseen.
module _ {A K V : Type 0} where
  abbrev pub Once : K → EvaluationContext A K V → Type 0
  Once k c =
      c.stats.unforeseen_consumptions ≡ 0
      → (c.stats.compute_calls k ≤ 1)
        × (0 < c.stats.compute_calls k → c.memo k ≡ none → c.refcounts k ≡ 0)

  -- The memo stays on, and unforeseen consumptions stay counted.
  abbrev pub Later : EvaluationContext A K V → EvaluationContext A K V → Type 0
  Later c d =
      (d.memo_enabled ≡ c.memo_enabled)
      × (c.stats.unforeseen_consumptions ≤ d.stats.unforeseen_consumptions)

  pub Later-trans : (c d e : EvaluationContext A K V) → Later c d → Later d e → Later c e
  Later-trans c d e (on, n) (on', n') = (on' ∙ on, omega arith)

  pub Once-Later :
      (k : K) (c d : EvaluationContext A K V)
      → Later c d
      → (d.memo k ≡ c.memo k)
      → (d.refcounts k ≡ c.refcounts k)
      → (d.stats.compute_calls k ≡ c.stats.compute_calls k)
      → Once k c
      → Once k d
  Once-Later k c d later m r q once u =
      let (most, rest) = once (omega arith) in
      (rw q most, λ some_call no_entry. r ∙ rest (rw (← q) some_call) (sym m ∙ no_entry))

module _ {A K V : Type 0} ⦃key : Identity K⦄ where
  -- Counts balance, the memo is on, and the identity is computed at most once.
  abbrev pub Counted : K → EvaluationContext A K V → Type 0
  Counted k c = Balanced c × (c.memo_enabled ≡ true) × Once k c

module _ {A K V : Type 0} ⦃key : Identity K⦄ (py : Python A) where
  consume-Later : (c : EvaluationContext A K V) (k : K) → Later c (consume c k)
  unfolding consume
  consume-Later c k = ground arith

  hit-Later : (c : EvaluationContext A K V) (k : K) (e : Entry A V) → Later c (hit py c k e).1
  unfolding hit pop_memo
  hit-Later c k e = ground arith

  store-Later :
      (c : EvaluationContext A K V) (retain : Bool) (k : K) (a : Outcome A V)
      → Later c (store py retain k a c)
  unfolding store
  store-Later c retain k a = ground arith

  module _ (j k : K) (other : j ≢ k) where
    consume-Counted : (c : EvaluationContext A K V) → Counted k c → Counted k (consume c j)
    consume-Counted c (b, on, once) =
        let (m, r, q) = consume-Untouched py j k other c in
        let later = consume-Later c j in
        (consume-Balanced c j b, later.0 ∙ on, Once-Later k c (consume c j) later m r q once)

    hit-Counted :
        (c : EvaluationContext A K V) (e : Entry A V) → Counted k c → Counted k (hit py c j e).1
    hit-Counted c e (b, on, once) =
        let (m, r, q) = hit-Untouched py j k other c e in
        let later = hit-Later c j e in
        (hit-Balanced py c j e b, later.0 ∙ on, Once-Later k c (hit py c j e).1 later m r q once)

    computing-Counted : (c : EvaluationContext A K V) → Counted k c → Counted k (computing c j)
    computing-Counted c (b, on, once) =
        let (m, r, q) = computing-Untouched py j k other c in
        (b, on, Once-Later k c (computing c j) (refl, omega arith) m r q once)

    store-Counted :
        (c : EvaluationContext A K V) (retain : Bool) (a : Outcome A V)
        → Counted k c
        → Counted k (store py retain j a c)
    store-Counted c retain a (b, on, once) =
        let (m, r, q) = store-Untouched py j k other c retain a in
        let later = store-Later c retain j a in
        (
          store-Balanced py c retain j a b,
          later.0 ∙ on,
          Once-Later k c (store py retain j a c) later m r q once,
        )

  -- A consumption of the identity itself: unless it is unforeseen, it was expected.
  consume_self :
      (c : EvaluationContext A K V) (k : K)
      → Balanced c
      → (consume c k).stats.unforeseen_consumptions ≡ 0
      → (c.stats.unforeseen_consumptions ≡ 0) × (0 < c.refcounts k)
  unfolding consume
  consume_self c k b h = elim (Option-cases (foreseen c k)) [
    | inl unforeseen ↦ absurd (ground arith)
    | inr (at, is) ↦ ground (arith, b k, foreseen-expected c k at is)
  ]

  consume-compute_calls :
      (c : EvaluationContext A K V) (k j : K)
      → (consume c k).stats.compute_calls j ≡ c.stats.compute_calls j
  unfolding consume
  consume-compute_calls c k j = ground arith

  run-Later :
      (Q : K → Evaluation A K V → Type 0) (p : Evaluation A K V) (c : EvaluationContext A K V)
      → Nodes Q p
      → Later c (run py p c).1
  run-Later Q p c h =
      run_inv py (Later c) Q
        (λ k body _.
          memoized_inv py (Later c) k (run py body)
            (λ d q. Later-trans c d (consume d k) q (consume-Later d k))
            (λ d e q. Later-trans c d (hit py d k e).1 q (hit-Later d k e)) (λ d q. q)
            (λ d retain a q. Later-trans c d (store py retain k a d) q (store-Later d retain k a)))
        p h c (refl, omega arith)

  hit_self-Once :
      (c : EvaluationContext A K V) (k : K) (e : Entry A V)
      → c.memo k ≡ some e
      → c.stats.compute_calls k ≤ 1
      → let d = (hit py c k e).1 in
        (d.stats.compute_calls k ≤ 1) × (d.memo k ≡ none → d.refcounts k ≡ 0)
  unfolding hit pop_memo
  hit_self-Once c k e h n = (ground arith, λ q. ground arith)

  store_self-Once :
      (c : EvaluationContext A K V) (enabled : Bool) (refs : ℕ) (k : K) (a : Outcome A V)
      → enabled ≡ true
      → entry_of py a ≢ none
      → c.refcounts k ≡ refs
      → c.stats.compute_calls k ≤ 1
      → let d = store py (enabled && ltb 0 refs) k a c in
        (d.stats.compute_calls k ≤ 1) × (d.memo k ≡ none → d.refcounts k ≡ 0)
  unfolding store
  store_self-Once c enabled refs k a on h r n =
      (ground arith, λ q. ground (arith, key.same_iff k k))

  module _ (faithful : (a : Outcome A V) → entry_of py a ≢ none) where
    miss_self-Once :
        (k : K) (body : Evaluation A K V) (c : EvaluationContext A K V)
        → Avoids k body
        → Counted k c
        → c.memo k ≡ none
        → Once k (miss py (consume c k) k (run py body)).1
    unfolding miss
    miss_self-Once k body c h (b, on, once) missed u =
        let d = consume c k in
        let inside = run py body (computing d k) in
        let (m, r, q) = run-Untouched py k body (computing d k) h in
        let ran = run-Later (λ j _. j ≢ k) body (computing d k) h in
        let stored = store-Later inside.1 (d.memo_enabled && ltb 0 (d.refcounts k)) k inside.0 in
        let (foreseen_before, wanted) = consume_self c k b (omega arith) in
        let uncomputed : c.stats.compute_calls k ≡ 0 =
          elim (Bool-cases (ltb 0 (c.stats.compute_calls k))) [
            | inl yes_once ↦ absurd (ground (arith, (once foreseen_before).1))
            | inr never ↦ ground arith
          ] in
        let result =
          store_self-Once inside.1 d.memo_enabled (d.refcounts k) k inside.0
            ((consume-Later c k).0 ∙ on) (faithful inside.0) r
            (ground (arith, consume-compute_calls c k k, key.same_iff k k)) in
        (result.0, λ _. result.1)

    memoized_self-Counted :
        (k : K) (body : Evaluation A K V) (c : EvaluationContext A K V)
        → Avoids k body
        → Counted k c
        → Counted k (memoized py c k (run py body)).1
    unfolding memoized
    memoized_self-Counted k body c h (b, on, once) =
        let d = consume c k in
        let inside = run py body (computing d k) in
        let retain = d.memo_enabled && ltb 0 (d.refcounts k) in
        let consumed = consume-Balanced c k b in
        let later = consume-Later c k in
        elim (Option-cases (c.memo k)) [
          | inl missed ↦
              rw (missed, memoized, miss)
                (
                  store-Balanced py inside.1 retain k inside.0
                      (run-Balanced py (λ j _. j ≢ k) body (computing d k) h consumed),
                  (store-Later inside.1 retain k inside.0).0
                      ∙ ((run-Later (λ j _. j ≢ k) body (computing d k) h).0 ∙ (later.0 ∙ on)),
                  miss_self-Once k body c h (b, on, once) missed,
                )
          | inr (e, found) ↦
              let hits = hit-Later d k e in
              rw (found, memoized)
                (
                  hit-Balanced py d k e consumed,
                  hits.0 ∙ (later.0 ∙ on),
                  λ u.
                      let before = consume_self c k b (omega arith) in
                      let result =
                        hit_self-Once d k e (ground (arith, consume-memo c k))
                          (ground (arith, consume-compute_calls c k k, (once before.0).0)) in
                      (result.0, λ _. result.1),
                )
        ]

    pub run-Counted :
        (k : K) (p : Evaluation A K V) (c : EvaluationContext A K V)
        → Nested p
        → Counted k c
        → Counted k (run py p c).1
    run-Counted k p c h =
        run_inv py (Counted k) Avoids
          (λ j body avoids bodies d r. elim (Bool-cases (key.same j k)) [
            | inl is ↦
                let at : j ≡ k = (key.same_iff j k).0 is in
                subst (λ (i : K). Counted k (memoized py d i (run py body)).1) (sym at)
                  (memoized_self-Counted k body d (subst (λ (i : K). Avoids i body) at avoids) r)
            | inr is_not ↦
                let other : j ≢ k = λ e. cc (is_not, (key.same_iff j k).1 e) in
                memoized_inv py (Counted k) j (run py body) (consume-Counted j k other)
                  (hit-Counted j k other) (computing-Counted j k other) (store-Counted j k other)
                  bodies d r
          ])
          p h c
