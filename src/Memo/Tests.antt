-- ===== src/Memo/Tests.antt =====
-- Batches of two variants that share nodes, on exceptions whose data are numbers.
use text.Mathlib.Text.{◌==◌ as str_eq}
use text.Mathlib.TextEquality.{eq_iff}
use strategy_engine.Prelude.{
  ℕ, ◌+◌, ◌≤◌, ◌≡◌, ◌≢◌, ◌↔◌, refl, Bool, true, false, ◌&&◌, ◌==◌, Option, none, some, List, [],
  ◌∷◌, arith, if◌then◌else◌,
}
use strategy_engine.Memo.Failure.{
  Exc, Payload, Observable, Python, IsPython, observable, capture, replay, replayed, copy_payload,
}
use strategy_engine.Memo.Counts.{Identity, count, add_one, counter_from, decrement, set_root}
use strategy_engine.Memo.State.{
  Outcome, value, raise, init, plan_roots, entry_of, compute_through, enter_root, exit_root,
  foreseen, consume, hit, miss, memoized, store, pop_memo, release, release_all, expect, expect_all,
}
use strategy_engine.Memo.Batch.{
  Evaluation, give, fail, node, direct, run, Variant, BatchOutcome, success, refused, Stream,
  reported, run_root, stream_from, stream_variants,
}
use strategy_engine.Memo.Induct.{Nested}
use strategy_engine.Memo.Refine.{Consistent}
use strategy_engine.Memo.Stream.{alone, SameEscape, stream_variants-alone}
use strategy_engine.Memo.Finish.{stream_variants-empty, stream_variants-once}

abbrev same_payload : Option (Payload ℕ) → Option (Payload ℕ) → Bool
same_payload none none = true
same_payload (some a) (some b) =
    str_eq a.code b.code
    && (str_eq a.message b.message && (a.details == b.details && a.status_code == b.status_code))
same_payload _ _ = false

abbrev same_observable : Observable ℕ → Observable ℕ → Bool
same_observable a b =
    str_eq a.category b.category
    && (str_eq a.text b.text && (a.args == b.args && same_payload a.engine b.engine))

same_payload_iff : (a b : Option (Payload ℕ)) → (same_payload a b ≡ true) ↔ (a ≡ b)
same_payload_iff none none = ground arith
same_payload_iff (some a) (some b) =
    ground (arith, eq_iff a.code b.code, eq_iff a.message b.message)
same_payload_iff none (some b) = ground arith
same_payload_iff (some a) none = ground arith

same_observable_iff : (a b : Observable ℕ) → (same_observable a b ≡ true) ↔ (a ≡ b)
same_observable_iff a b =
    ground (
      arith,
      eq_iff a.category b.category,
      eq_iff a.text b.text,
      same_payload_iff a.engine b.engine,
    )

abbrev plain : Python ℕ
plain = record {
  deepcopy = λ a. some a;
  text = λ exc. exc.category;
  construct = λ c a. some (record { category = c; args = a; engine = none });
  allocate = λ c a. some (record { category = c; args = a; engine = none });
  set_payload = λ exc p. record exc { engine = some p };
  unrebuilt = record { category = "RuntimeError"; args = 0; engine = none };
  no_details = 0;
  same = same_observable;
}

plain-IsPython : IsPython plain
plain-IsPython = record { same_iff = same_observable_iff }

nat_same_iff : (a b : ℕ) → ((a == b) ≡ true) ↔ (a ≡ b)
nat_same_iff a b = ground arith

instance abbrev nat_identity : Identity ℕ
nat_identity = record { same = λ a b. a == b; same_iff = nat_same_iff }

-- A failure of these exceptions is always rebuilt.
plain-faithful : (a : Outcome ℕ ℕ) → entry_of plain a ≢ none
unfolding entry_of capture replay copy_payload observable
plain-faithful (value v) = cc
plain-faithful (raise exc) =
    ground (arith, eq_iff exc.category exc.category, same_payload_iff exc.engine exc.engine)

abbrev bad_window : Exc ℕ
bad_window = record {
  category = "InvalidRequestError";
  args = 7;
  engine =
      some (record {
        code = "invalid_request";
        message = "bad window";
        details = 3;
        status_code = 422;
      });
}

-- Node 1 reads node 0; node 2 fails.
abbrev average : Evaluation ℕ ℕ ℕ
average = node (some 1) (node (some 0) (give 5) λ v. give (v + 1)) λ v. give (v + 10)

abbrev broken : Evaluation ℕ ℕ ℕ
broken =
    node (some 1) (node (some 0) (give 5) λ v. give (v + 1))
      λ v. node (some 2) (fail bad_window) give

abbrev variants : List (Variant ℕ ℕ ℕ)
variants =
    record { variant_id = "a"; identities = 1 ∷ 0 ∷ []; evaluation = average }
    ∷ record { variant_id = "b"; identities = 1 ∷ 2 ∷ []; evaluation = broken }
    ∷ record { variant_id = "c"; identities = 1 ∷ 2 ∷ []; evaluation = broken }
    ∷ []

abbrev results : ℕ → Outcome ℕ ℕ
results k = if k == 0 then value 5 else (if k == 1 then value 6 else raise bad_window)

-- What a stream shows: its outcomes, how often the nodes 0, 1 and 2 were computed, and its counters.
abbrev shown :
    Option (Stream ℕ ℕ ℕ) → Option (List (BatchOutcome ℕ ℕ) × (ℕ × ℕ × ℕ) × (ℕ × ℕ × ℕ × ℕ))
shown none = none
shown (some s) =
    let stats = s.context.stats in
    let calls = stats.compute_calls in
    some (
      s.outcomes,
      (calls 0, calls 1, calls 2),
      (stats.hits, stats.failure_replays, stats.evictions, stats.unforeseen_consumptions),
    )

abbrev outcomes : List (BatchOutcome ℕ ℕ)
outcomes =
    success "a" 16
    ∷ refused "b" "invalid_request" "bad window" 3
    ∷ refused "c" "invalid_request" "bad window" 3
    ∷ []

with_memo :
    shown (stream_variants plain variants (init true)) ≡ some (outcomes, (1, 1, 1), (3, 1, 2, 0))
unfolding stream_variants plan_roots init expect expect_all counter_from add_one stream_from
    run_root run enter_root exit_root compute_through memoized hit miss store pop_memo consume
    foreseen count decrement set_root release release_all reported entry_of capture replayed replay
    copy_payload observable
with_memo = refl

without_memo :
    shown (stream_variants plain variants (init false)) ≡ some (outcomes, (3, 3, 2), (0, 0, 0, 2))
unfolding stream_variants plan_roots init expect expect_all counter_from add_one stream_from
    run_root run enter_root exit_root compute_through memoized hit miss store pop_memo consume
    foreseen count decrement set_root release release_all reported entry_of capture replayed replay
    copy_payload observable
without_memo = refl

average-Consistent : Consistent plain results average
unfolding direct observable
average-Consistent = (refl, (refl, tt, λ v _. tt), λ v _. tt)

broken-Consistent : Consistent plain results broken
unfolding direct observable
broken-Consistent = (refl, (refl, tt, λ v _. tt), λ v _. (refl, tt, λ w _. tt))

stream_variants-alone_example :
    (s : Stream ℕ ℕ ℕ) × (stream_variants plain variants (init true) ≡ some s)
    × (s.outcomes ≡ (alone variants).0)
    × SameEscape plain s.escaped (alone variants).1
stream_variants-alone_example =
    stream_variants-alone plain plain-IsPython results true variants
      (average-Consistent, (broken-Consistent, (broken-Consistent, tt)))

average-Nested : Nested average
average-Nested = (((λ e. absurd (omega arith)), tt, λ v. tt), ((tt, tt, λ v. tt)), λ v. tt)

broken-Nested : Nested broken
broken-Nested =
    (((λ e. absurd (omega arith)), tt, λ v. tt), ((tt, tt, λ v. tt)), λ v. (tt, tt, λ w. tt))

stream_variants-empty_example :
    (s : Stream ℕ ℕ ℕ) × (stream_variants plain variants (init true) ≡ some s)
    × (s.escaped ≡ none → (k : ℕ) → (s.context.refcounts k ≡ 0) × (s.context.memo k ≡ none))
stream_variants-empty_example =
    stream_variants-empty plain true variants (average-Nested, (broken-Nested, (broken-Nested, tt)))

stream_variants-once_example :
    (s : Stream ℕ ℕ ℕ) × (stream_variants plain variants (init true) ≡ some s)
    × (s.context.stats.unforeseen_consumptions ≡ 0 → (k : ℕ) → s.context.stats.compute_calls k ≤ 1)
stream_variants-once_example =
    stream_variants-once plain variants plain-faithful
      (average-Nested, (broken-Nested, (broken-Nested, tt)))
