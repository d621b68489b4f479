-- ===== src/Memo/Stream.antt =====
-- The outcomes of a batch against those of its variants evaluated alone.
use Prim.Native.String.{String}
use strategy_engine.Prelude.{
  ℕ, ◌+◌, ◌-◌, ◌≡◌, refl, ◌∙◌, ap, inl, inr, Bool, Option, none, some, List, [], ◌∷◌, All, ltb,
  arith, Bool-cases, Option-cases,
}
use strategy_engine.Memo.Failure.{Exc, Observable, Python, IsPython, observable}
use strategy_engine.Memo.Counts.{Identity}
use strategy_engine.Memo.State.{
  Outcome, value, raise, EvaluationContext, init, plan_roots, release, release_all, enter_root,
  exit_root, planned_root,
}
use strategy_engine.Memo.Batch.{
  Evaluation, direct, run, Variant, BatchOutcome, success, Stream, reported, raised_by, run_root,
  stream_from, stream_variants,
}
use strategy_engine.Memo.Refine.{Agree, Sound, Consistent, pop_memo-Sound, run-Keeps}

module _ {A K V : Type 0} where
  -- The variants evaluated alone, without a context, up to the first exception that is not an engine
  -- error.
  unfoldable pub alone : List (Variant A K V) → List (BatchOutcome A V) × Option (Exc A)
  alone [] = ([], none)
  alone (v ∷ vs) = elim (reported v.variant_id (direct v.evaluation)) [
    | none ↦ ([], raised_by (direct v.evaluation))
    | some outcome ↦ (outcome ∷ (alone vs).0, (alone vs).1)
  ]

module _ {A : Type 0} (py : Python A) where
  -- The same exception as an observer sees it, or none on both sides.
  abbrev pub SameEscape : Option (Exc A) → Option (Exc A) → Type 0
  SameEscape none none = Unit
  SameEscape (some x) (some y) = observable py x ≡ observable py y
  SameEscape _ _ = ⊥

module _ {A V : Type 0} (py : Python A) where
  reported-Agree : (id : String) (a b : Outcome A V) → Agree py a b → reported id a ≡ reported id b
  unfolding reported observable
  reported-Agree id (value v) (value w) h = ap (λ (u : V). some (success id u)) h
  reported-Agree id (raise x) (raise y) h =
      let same : x.engine ≡ y.engine = ap (λ (o : Observable A). o.engine) h in rw (same)
  reported-Agree id (value v) (raise y) h = absurd h
  reported-Agree id (raise x) (value w) h = absurd h

  raised_by-Agree : (a b : Outcome A V) → Agree py a b → SameEscape py (raised_by a) (raised_by b)
  raised_by-Agree (value v) (value w) h = tt
  raised_by-Agree (raise x) (raise y) h = h
  raised_by-Agree (value v) (raise y) h = absurd h
  raised_by-Agree (raise x) (value w) h = absurd h

module _ {A K V : Type 0} ⦃key : Identity K⦄ where
  release-active_root :
      (c : EvaluationContext A K V) (k : K) (n : ℕ) → (release c k n).active_root ≡ c.active_root
  unfolding release
  release-active_root c k n = ground arith

  release_all-active_root :
      (c : EvaluationContext A K V) (counts : List (K × ℕ))
      → (release_all c counts).active_root ≡ c.active_root
  unfolding release_all
  release_all-active_root c [] = refl
  release_all-active_root c ((k, n) ∷ counts) =
      release_all-active_root (release c k n) counts ∙ release-active_root c k n

  pub exit_root-active_root :
      (c : EvaluationContext A K V) (index : ℕ) → (exit_root c index).active_root ≡ none
  unfolding exit_root
  exit_root-active_root c index =
      elim (Option-cases (planned_root (record c { active_root = none }) index)) [
        | inl unplanned ↦ ground arith
        | inr (left, is) ↦
            ground (arith, release_all-active_root (record c { active_root = none }) left)
      ]

module _ {A K V : Type 0} ⦃key : Identity K⦄ (py : Python A) (D : K → Outcome A V) where
  release-Sound :
      (c : EvaluationContext A K V) (k : K) (n : ℕ) → Sound py D c → Sound py D (release c k n)
  unfolding release
  release-Sound c k n s = elim (Bool-cases (ltb 0 (c.refcounts k - n))) [
    | inl more ↦ λ j e h. s j e (ground arith)
    | inr last ↦ λ j e h. pop_memo-Sound py D c k s j e (ground arith)
  ]

  release_all-Sound :
      (c : EvaluationContext A K V) (counts : List (K × ℕ))
      → Sound py D c
      → Sound py D (release_all c counts)
  unfolding release_all
  release_all-Sound c [] s = s
  release_all-Sound c ((k, n) ∷ counts) s =
      release_all-Sound (release c k n) counts (release-Sound c k n s)

  exit_root-Sound :
      (c : EvaluationContext A K V) (index : ℕ) → Sound py D c → Sound py D (exit_root c index)
  unfolding exit_root
  exit_root-Sound c index s =
      elim (Option-cases (planned_root (record c { active_root = none }) index)) [
        | inl unplanned ↦ λ j e h. s j e (ground arith)
        | inr (left, is) ↦
            λ j e h. release_all-Sound (record c { active_root = none }) left s j e (ground arith)
      ]

module _ {A K V : Type 0} ⦃key : Identity K⦄ (py : Python A) where
  pub run_root-run :
      (c : EvaluationContext A K V) (index : ℕ) (p : Evaluation A K V)
      → c.active_root ≡ none
      → let inside = record c { active_root = some index } in
        run_root py index p c ≡ some ((run py p inside).0, exit_root (run py p inside).1 index)
  unfolding run_root enter_root
  run_root-run c index p h = ground arith

module _ {A K V : Type 0} ⦃key : Identity K⦄ (py : Python A) (law : IsPython py)
    (D : K → Outcome A V) where
  -- The stream has these outcomes and this end.
  abbrev pub Yields : List (BatchOutcome A V) × Option (Exc A) → Stream A K V → Type 0
  Yields (outcomes, escaped) s = (s.outcomes ≡ outcomes) × SameEscape py s.escaped escaped

  stream_from-Yields :
      (vs : List (Variant A K V)) (index : ℕ) (c : EvaluationContext A K V)
      → All (λ v. Consistent py D (Variant.evaluation v)) vs
      → c.active_root ≡ none
      → Sound py D c
      → Yields (alone vs) (stream_from py index vs c)
  unfolding stream_from alone
  stream_from-Yields [] index c hs h s = (refl, tt)
  stream_from-Yields (v ∷ vs) index c hs h s =
      let inside = record c { active_root = some index } in
      let kept = run-Keeps py law D v.evaluation inside hs.0 s in
      let after = exit_root (run py v.evaluation inside).1 index in
      let same =
        reported-Agree py v.variant_id (run py v.evaluation inside).0 (direct v.evaluation)
          kept.0 in
      let escape = raised_by-Agree py (run py v.evaluation inside).0 (direct v.evaluation) kept.0 in
      let rest =
        stream_from-Yields vs (index + 1) after hs.1 (exit_root-active_root _ index)
          (exit_root-Sound py D _ index kept.1) in
      rw (run_root-run py c index v.evaluation h, stream_from)
        (rw same (elim (Option-cases (reported v.variant_id (direct v.evaluation))) [
          | inl no_outcome ↦ rw (no_outcome, alone) (refl, escape)
          | inr (o, is) ↦
              rw (is, alone) (ap (λ (os : List (BatchOutcome A V)). o ∷ os) rest.0, rest.1)
        ]))

  -- From a fresh context, with or without its memo, if each identity stands for one result and
  -- every node of the variants with that identity gives it, the batch streams the outcomes that
  -- the variants give when each is evaluated alone, up to the first exception that is not an
  -- engine error, and it ends with the same exception as an observer sees it, or with none.
  pub stream_variants-alone :
      (memo_enabled : Bool) (vs : List (Variant A K V))
      → All (λ v. Consistent py D (Variant.evaluation v)) vs
      → (s : Stream A K V) × (stream_variants py vs (init memo_enabled) ≡ some s)
        × (s.outcomes ≡ (alone vs).0)
        × SameEscape py s.escaped (alone vs).1
  unfolding stream_variants plan_roots init
  stream_variants-alone memo_enabled vs h =
      let yields = stream_from-Yields vs 0 _ h refl (λ k e found. absurd (cc found)) in
      (_, refl, yields.0, yields.1)
