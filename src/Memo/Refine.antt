-- ===== src/Memo/Refine.antt =====
-- Evaluation through the context against direct evaluation.
use strategy_engine.Prelude.{
  ◌≡◌, refl, sym, ◌∙◌, ap, subst, inl, inr, ◌&&◌, Bool-cases, Option-cases, Bool, true, false,
  Option, none, some, arith, ltb,
}
use strategy_engine.Memo.Failure.{
  Exc, FailureRecord, Python, IsPython, observable, capture, capture-replayed,
}
use strategy_engine.Memo.Counts.{Identity}
use strategy_engine.Memo.State.{
  Outcome, value, raise, Entry, kept, failure, EvaluationContext, consume, given, entry_of,
  pop_memo, hit, miss, store, computing, memoized, compute_through,
}
use strategy_engine.Memo.Batch.{Evaluation, give, fail, node, direct, and_then, go_on, run}

-- The same value, or exceptions with the same observables.
module _ {A V : Type 0} (py : Python A) where
  abbrev pub Agree : Outcome A V → Outcome A V → Type 0
  Agree (value v) (value w) = v ≡ w
  Agree (raise x) (raise y) = observable py x ≡ observable py y
  Agree _ _ = ⊥

  pub Agree-refl : (a : Outcome A V) → Agree a a
  Agree-refl (value v) = refl
  Agree-refl (raise x) = refl

  pub Agree-sym : (a b : Outcome A V) → Agree a b → Agree b a
  Agree-sym (value v) (value w) h = sym h
  Agree-sym (raise x) (raise y) h = sym h
  Agree-sym (value v) (raise y) h = h
  Agree-sym (raise x) (value w) h = h

  pub Agree-trans : (a b c : Outcome A V) → Agree a b → Agree b c → Agree a c
  Agree-trans (value u) (value v) (value w) h k = h ∙ k
  Agree-trans (raise x) (raise y) (raise z) h k = h ∙ k
  Agree-trans (value u) (raise y) c h k = absurd h
  Agree-trans (raise x) (value v) c h k = absurd h
  Agree-trans (value u) (value v) (raise z) h k = k
  Agree-trans (raise x) (raise y) (value w) h k = k

  module _ (law : IsPython py) where
    stored-Agree :
        (x : Exc A) (o : Option (FailureRecord A))
        → capture py x ≡ o
        → (e : Entry A V) → elim o [ none ↦ none | some r ↦ some (failure r) ] ≡ some e
        → Agree (given py e) (raise x)
    stored-Agree x none h e eq = cc
    stored-Agree x (some r) h (kept v) eq = cc
    stored-Agree x (some r) h (failure s) eq = capture-replayed py law x s (ground arith)

    pub entry_of-Agree :
        (a : Outcome A V) (e : Entry A V) → entry_of py a ≡ some e → Agree (given py e) a
    unfolding entry_of
    entry_of-Agree (value v) (kept w) h = cc
    entry_of-Agree (value v) (failure r) h = cc
    entry_of-Agree (raise x) e h = stored-Agree x (capture py x) refl e h

-- Consumption and the counts leave the memo.
module _ {A K V : Type 0} ⦃key : Identity K⦄ where
  pub consume-memo : (c : EvaluationContext A K V) (k : K) → (consume c k).memo ≡ c.memo
  unfolding consume
  consume-memo c k = ground arith

module _ {A K V : Type 0} ⦃key : Identity K⦄ (py : Python A) (D : K → Outcome A V) where
  -- Every entry is what the node of its identity gives.
  abbrev pub Sound : EvaluationContext A K V → Type 0
  Sound c = (k : K) (e : Entry A V) → c.memo k ≡ some e → Agree py (given py e) (D k)

  -- The nodes that an evaluation consumes give what their identities stand for.
  abbrev pub Consistent : Evaluation A K V → Type 0
  Consistent (give v) = Unit
  Consistent (fail x) = Unit
  Consistent (node none body next) =
      Consistent body × ((v : V) → direct body ≡ value v → Consistent (next v))
  Consistent (node (some k) body next) =
      Agree py (direct body) (D k)
      × Consistent body
      × ((v : V) → direct body ≡ value v → Consistent (next v))

  pub pop_memo-Sound : (c : EvaluationContext A K V) (k : K) → Sound c → Sound (pop_memo c k)
  unfolding pop_memo
  pop_memo-Sound c k s j e h = s j e (ground arith)

  consume-Sound : (c : EvaluationContext A K V) (k : K) → Sound c → Sound (consume c k)
  consume-Sound c k s j e h =
      s j e (sym (ap (λ (m : K → Option (Entry A V)). m j) (consume-memo c k)) ∙ h)

  hit-Sound :
      (c : EvaluationContext A K V) (k : K) (e : Entry A V) → Sound c → Sound (hit py c k e).1
  unfolding hit
  hit-Sound c k e s j f h = elim (Bool-cases (ltb 0 (c.refcounts k))) [
    | inl more ↦ s j f (ground arith)
    | inr last ↦ pop_memo-Sound c k s j f (ground arith)
  ]

  store-Sound :
      (law : IsPython py) (retain : Bool) (k : K) (a : Outcome A V) (c : EvaluationContext A K V)
      → Agree py a (D k)
      → Sound c
      → Sound (store py retain k a c)
  unfolding store
  store-Sound law false k a c h s j e eq = s j e eq
  store-Sound law true k a c h s j e eq = elim (Option-cases (entry_of py a)) [
    | inl no_entry ↦ s j e (ground arith)
    | inr (f, is) ↦ elim (Bool-cases (key.same k j)) [
      | inl here ↦
          let k_is : k ≡ j = (key.same_iff k j).0 here in
          let f_is : f ≡ e = ground arith in
          subst (λ (i : K). Agree py (given py e) (D i)) k_is
            (Agree-trans py (given py e) a (D k) (entry_of-Agree py law a e (is ∙ ap some f_is)) h)
      | inr away ↦ s j e (ground arith)
    ]
  ]

module _ {A K V : Type 0} ⦃key : Identity K⦄ (py : Python A) (law : IsPython py)
    (D : K → Outcome A V) where
  -- The result is the one of `want`, and the memo is sound.
  abbrev pub Keeps : Outcome A V → Outcome A V × EvaluationContext A K V → Type 0
  Keeps want (a, c) = Agree py a want × Sound py D c

  miss-Keeps :
      (c : EvaluationContext A K V) (k : K) (want : Outcome A V)
      (compute : EvaluationContext A K V → Outcome A V × EvaluationContext A K V)
      → Agree py want (D k)
      → Keeps want (compute (computing c k))
      → Keeps want (miss py c k compute)
  unfolding miss
  miss-Keeps c k want compute same h = (
    h.0,
    store-Sound py D law (c.memo_enabled && ltb 0 (c.refcounts k)) k (compute (computing c k)).0
        (compute (computing c k)).1 (Agree-trans py _ want (D k) h.0 same) h.1,
  )

  memoized-Keeps :
      (c : EvaluationContext A K V) (k : K) (want : Outcome A V)
      (compute : EvaluationContext A K V → Outcome A V × EvaluationContext A K V)
      → Sound py D c
      → Agree py want (D k)
      → ((c' : EvaluationContext A K V) → Sound py D c' → Keeps want (compute c'))
      → Keeps want (memoized py c k compute)
  unfolding memoized
  memoized-Keeps c k want compute s same h = elim (Option-cases (c.memo k)) [
    | inl missed ↦
        rw (missed, memoized)
          (miss-Keeps (consume c k) k want compute same (h _ (consume-Sound py D c k s)))
    | inr (e, found) ↦
        rw (found, memoized)
          (
            Agree-trans py (given py e) (D k) want (s k e found) (Agree-sym py want (D k) same),
            hit-Sound py D (consume c k) k e (consume-Sound py D c k s),
          )
  ]

  go_on-Keeps :
      (r : Outcome A V × EvaluationContext A K V) (want : Outcome A V) (next : V → Evaluation A K V)
      → Keeps want r
      → ((v : V) (c : EvaluationContext A K V)
          → want ≡ value v
          → Sound py D c
          → Keeps (direct (next v)) (run py (next v) c))
      → Keeps (and_then want λ v. direct (next v)) (go_on r λ v. run py (next v))
  go_on-Keeps (value v, c) (value w) next h g =
      let same : v ≡ w = h.0 in
      subst (λ (u : V). Keeps (direct (next u)) (run py (next v) c)) same
        (g v c (ap value (sym same)) h.1)
  go_on-Keeps (raise x, c) (raise y) next h g = h
  go_on-Keeps (value v, c) (raise y) next h g = absurd h.0
  go_on-Keeps (raise x, c) (value w) next h g = absurd h.0

  pub run-Keeps :
      (p : Evaluation A K V) (c : EvaluationContext A K V)
      → Consistent py D p
      → Sound py D c
      → Keeps (direct p) (run py p c)
  unfolding run direct compute_through
  run-Keeps (give v) c h s = (refl, s)
  run-Keeps (fail x) c h s = (refl, s)
  run-Keeps (node none body next) c h s =
      go_on-Keeps (run py body c) (direct body) next (run-Keeps body c h.0 s)
        (λ v c' is s'. run-Keeps (next v) c' (h.1 v is) s')
  run-Keeps (node (some k) body next) c h s =
      go_on-Keeps (memoized py c k (run py body)) (direct body) next
        (memoized-Keeps c k (direct body) (run py body) s h.0 (λ c' s'. run-Keeps body c' h.1 s'))
        (λ v c' is s'. run-Keeps (next v) c' (h.2 v is) s')
