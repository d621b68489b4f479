-- ===== src/Memo/Finish.antt =====
-- The context after the stream of a batch.
use Prim.Native.String.{String}
use strategy_engine.Prelude.{
  ℕ, zero, suc, ◌+◌, ◌≤◌, ◌≡◌, ◌≢◌, refl, ◌∙◌, subst, inl, inr, Bool, true, none, some, List, [],
  ◌∷◌, map, All, length, length-map, if◌then◌else◌, get_elem?, arith, Option-cases,
}
use strategy_engine.Memo.Failure.{Python}
use strategy_engine.Memo.Counts.{Identity, counter_from, held, held_all}
use strategy_engine.Memo.State.{
  Outcome, value, raise, EvaluationContext, init, plan_roots, planned_root, release, release_all,
  exit_root, expect, expect_all, entry_of, pop_memo,
}
use strategy_engine.Memo.Batch.{
  Evaluation, run, Variant, Stream, reported, raised_by, stream_from, stream_variants,
}
use strategy_engine.Memo.Induct.{Avoids, Nested}
use strategy_engine.Memo.Stream.{run_root-run, exit_root-active_root}
use strategy_engine.Memo.Balance.{
  Balanced, Retained, exit_root-Balanced, exit_root-Retained, run-Balanced,
}
use strategy_engine.Memo.Cleared.{Cleared, run-Cleared, exit_root-Cleared, held_all-zero}
use strategy_engine.Memo.Retain.{run-Retained}
use strategy_engine.Memo.Once.{Once, Once-Later, Counted, run-Counted}

module _ {K : Type 0} ⦃key : Identity K⦄ where
  expect_lem :
      (refs : K → ℕ) (counts : List (K × ℕ)) (j : K) → expect refs counts j ≡ refs j + held j counts
  unfolding expect held
  expect_lem refs [] j = omega arith
  expect_lem refs ((k, n) ∷ counts) j = ground (
    arith,
    key.same_iff k j,
    expect_lem (λ i. if key.same k i then refs k + n else refs i) counts j,
  )

  expect_all_lem :
      (refs : K → ℕ) (roots : List (List (K × ℕ))) (j : K)
      → expect_all refs roots j ≡ refs j + held_all j roots
  unfolding expect_all held_all
  expect_all_lem refs [] j = omega arith
  expect_all_lem refs (counts ∷ roots) j =
      omega (arith, expect_all_lem (expect refs counts) roots j, expect_lem refs counts j)

module _ {A V : Type 0} where
  -- Only an exception goes unreported.
  unreported : (id : String) (a : Outcome A V) → reported id a ≡ none → raised_by a ≢ none
  unfolding reported
  unreported id (value v) h e = cc
  unreported id (raise x) h e = cc

-- An invariant by the index of the next variant, from the start of a stream to its end.
module _ {A K V : Type 0} ⦃key : Identity K⦄ (py : Python A)
    (P : ℕ → EvaluationContext A K V → Type 0) (Q : Evaluation A K V → Type 0)
    (step : (index : ℕ) (p : Evaluation A K V) (c : EvaluationContext A K V)
      → Q p
      → P index c
      → P (index + 1) (exit_root (run py p (record c { active_root = some index })).1 index)) where
  abbrev Ends : ℕ → Stream A K V → Type 0
  Ends last s = (n : ℕ) × P n s.context × (s.escaped ≡ none → n ≡ last)

  stream_from-Ends :
      (vs : List (Variant A K V)) (index : ℕ) (c : EvaluationContext A K V)
      → All (λ v. Q (Variant.evaluation v)) vs
      → c.active_root ≡ none
      → P index c
      → Ends (index + length vs) (stream_from py index vs c)
  unfolding stream_from
  stream_from-Ends [] index c h idle p = (index, p, λ _. omega arith)
  stream_from-Ends (v ∷ vs) index c h idle p =
      let inside = record c { active_root = some index } in
      let after = exit_root (run py v.evaluation inside).1 index in
      let result = (run py v.evaluation inside).0 in
      let next = step index v.evaluation c h.0 p in
      let (n, q, last) =
        stream_from-Ends vs (index + 1) after h.1 (exit_root-active_root _ index) next in
      rw (run_root-run py c index v.evaluation idle, stream_from)
        (elim (Option-cases (reported v.variant_id result)) [
          | inl no_outcome ↦
              rw (no_outcome, stream_from)
                (index + 1, next, λ e. absurd (unreported v.variant_id result no_outcome e))
          | inr (o, is) ↦ rw (is, stream_from) (n, q, λ e. omega (arith, last e))
        ])

module _ {A K V : Type 0} ⦃key : Identity K⦄ where
  release-Once : (c : EvaluationContext A K V) (j k : K) (n : ℕ) → Once k c → Once k (release c j n)
  unfolding release pop_memo
  release-Once c j k n once u =
      let (most, rest) = once (ground arith) in
      (ground arith, λ some_call no_entry. ground (arith, key.same_iff j k, rest (ground arith)))

  release_all-Once :
      (c : EvaluationContext A K V) (k : K) (counts : List (K × ℕ))
      → Once k c
      → Once k (release_all c counts)
  unfolding release_all
  release_all-Once c k [] once = once
  release_all-Once c k ((j, n) ∷ counts) once =
      release_all-Once (release c j n) k counts (release-Once c j k n once)

  release-memo_enabled :
      (c : EvaluationContext A K V) (k : K) (n : ℕ) → (release c k n).memo_enabled ≡ c.memo_enabled
  unfolding release pop_memo
  release-memo_enabled c k n = ground arith

  release_all-memo_enabled :
      (c : EvaluationContext A K V) (counts : List (K × ℕ))
      → (release_all c counts).memo_enabled ≡ c.memo_enabled
  unfolding release_all
  release_all-memo_enabled c [] = refl
  release_all-memo_enabled c ((k, n) ∷ counts) =
      release_all-memo_enabled (release c k n) counts ∙ release-memo_enabled c k n

  exit_root-Counted :
      (c : EvaluationContext A K V) (index : ℕ) (k : K)
      → Counted k c
      → Counted k (exit_root c index)
  unfolding exit_root
  exit_root-Counted c index k (b, on, once) =
      let inside = record c { active_root = none } in
      elim (Option-cases (planned_root inside index)) [
        | inl outside ↦ (exit_root-Balanced c index b, ground arith, rw (outside, exit_root) once)
        | inr (left, at) ↦ (
          exit_root-Balanced c index b,
          ground (arith, release_all-memo_enabled inside left),
          Once-Later k (release_all inside left) (exit_root c index) (ground arith, ground arith)
              (ground arith) (ground arith) (ground arith) (release_all-Once inside k left once),
        )
      ]

module _ {A : Type 0} where
  get_elem?-none : (xs : List A) (j : ℕ) → length xs ≤ j → get_elem? xs j ≡ none
  get_elem?-none [] j h = refl
  get_elem?-none (x ∷ xs) zero h = absurd (omega arith)
  get_elem?-none (x ∷ xs) (suc j) h = get_elem?-none xs j (omega arith)

module _ {A K V : Type 0} ⦃key : Identity K⦄ (py : Python A) where
  -- The context in which a batch starts.
  abbrev planned : Bool → List (Variant A K V) → EvaluationContext A K V
  planned memo_enabled vs =
      let roots = map (counter_from []) (map (λ v. Variant.identities v) vs) in
      record (init memo_enabled) { refcounts = expect_all (λ _. 0) roots; pending = some roots }

  planned-Balanced :
      (memo_enabled : Bool) (vs : List (Variant A K V)) → Balanced (planned memo_enabled vs)
  unfolding init
  planned-Balanced memo_enabled vs k = omega (
    arith,
    expect_all_lem (λ _. 0) (map (counter_from []) (map (λ v. Variant.identities v) vs)) k,
  )

  planned-Cleared :
      (memo_enabled : Bool) (vs : List (Variant A K V))
      → Cleared 0 (length vs) (planned memo_enabled vs)
  unfolding init
  planned-Cleared memo_enabled vs j counts done found =
      let roots = map (λ v. Variant.identities v) vs in
      let outside = get_elem?-none (map (counter_from []) roots) j (
        omega (
          arith,
          done (omega arith),
          length-map (counter_from []) roots,
          length-map (λ (v : Variant A K V). v.identities) vs,
        )) in
      cc (found, outside)

  abbrev Finishing : K → ℕ → ℕ → EvaluationContext A K V → Type 0
  Finishing k last n c = Balanced c × Retained k c × Cleared n last c

  root-Finishing :
      (k : K) (last n : ℕ) (p : Evaluation A K V) (c : EvaluationContext A K V)
      → Nested p
      → Finishing k last n c
      → Finishing k last (n + 1) (exit_root (run py p (record c { active_root = some n })).1 n)
  root-Finishing k last n p c nested (b, r, cleared) =
      let inside = record c { active_root = some n } in
      let after = (run py p inside).1 in
      (
        exit_root-Balanced after n (run-Balanced py Avoids p inside nested b),
        exit_root-Retained after n k (run-Retained py k p inside nested r),
        exit_root-Cleared after n last (run-Cleared py n last Avoids p inside nested cleared),
      )

  Finishing-empty :
      (k : K) (last : ℕ) (c : EvaluationContext A K V)
      → Finishing k last last c
      → (c.refcounts k ≡ 0) × (c.memo k ≡ none)
  Finishing-empty k last c (b, r, cleared) =
      let none_left : c.refcounts k ≡ 0 = elim (Option-cases c.pending) [
        | inl unplanned ↦ ground (arith, b k)
        | inr (roots, is) ↦ ground (
          arith,
          b k,
          held_all-zero k roots (λ j counts at. cleared j counts (λ le. le) (ground arith)),
        )
      ] in
      (none_left, r none_left)

  -- From a fresh context, with or without its memo, if no node stands inside a node of its own
  -- identity, a batch that no exception ends leaves every reference count at zero and no entry in
  -- the memo.
  pub stream_variants-empty :
      (memo_enabled : Bool) (vs : List (Variant A K V))
      → All (λ v. Nested (Variant.evaluation v)) vs
      → (s : Stream A K V) × (stream_variants py vs (init memo_enabled) ≡ some s)
        × (s.escaped ≡ none → (k : K) → (s.context.refcounts k ≡ 0) × (s.context.memo k ≡ none))
  unfolding stream_variants plan_roots init
  stream_variants-empty memo_enabled vs h =
      let last = length vs in
      let start = planned memo_enabled vs in
      (
        stream_from py 0 vs start,
        refl,
        λ ended k.
            let (n, p, is) =
              stream_from-Ends py (Finishing k last) Nested (root-Finishing k last) vs 0 start h
                refl
                (planned-Balanced memo_enabled vs, λ _. refl, planned-Cleared memo_enabled vs) in
            let at_end : n ≡ last = omega (arith, is ended) in
            Finishing-empty k last (Stream.context (stream_from py 0 vs start)) (
              subst (λ (m : ℕ). Finishing k last m (Stream.context (stream_from py 0 vs start)))
                at_end p),
      )

  root-Counted :
      (faithful : (a : Outcome A V) → entry_of py a ≢ none) (k : K) (n : ℕ) (p : Evaluation A K V)
      (c : EvaluationContext A K V)
      → Nested p
      → Counted k c
      → Counted k (exit_root (run py p (record c { active_root = some n })).1 n)
  root-Counted faithful k n p c nested counted =
      exit_root-Counted (run py p (record c { active_root = some n })).1 n k
        (run-Counted py faithful k p (record c { active_root = some n }) nested counted)

  -- From a fresh context with its memo, if every failure can be captured and no node stands inside
  -- a node of its own identity, the batch computes each identity at most once, unless some
  -- consumption was unforeseen.
  pub stream_variants-once :
      (vs : List (Variant A K V))
      → ((a : Outcome A V) → entry_of py a ≢ none)
      → All (λ v. Nested (Variant.evaluation v)) vs
      → (s : Stream A K V) × (stream_variants py vs (init true) ≡ some s)
        × (s.context.stats.unforeseen_consumptions ≡ 0
            → (k : K) → s.context.stats.compute_calls k ≤ 1)
  unfolding stream_variants plan_roots init
  stream_variants-once vs faithful h =
      let start = planned true vs in
      (
        stream_from py 0 vs start,
        refl,
        λ foreseen k.
            let (n, p, _) =
              stream_from-Ends py (λ _. Counted k) Nested (root-Counted faithful k) vs 0 start h
                refl
                (
                  planned-Balanced true vs,
                  refl,
                  λ _. (omega arith, λ some_call. absurd (omega arith)),
                ) in
            (p.2 foreseen).0,
      )
