-- ===== src/Memo/State.antt =====
-- `EvaluationContext` of src/strategy_engine/indicators/evaluation_context.py: its reference counts,
-- its memo and `compute_through`. A dictionary that is read by `get` alone is a function; the
-- market frame, its arrays and `peak_entries` are left out. An operation that raises one of the
-- context's own errors before it changes anything returns `none`.
use strategy_engine.Prelude.{
  ℕ, ◌+◌, ◌-◌, Bool, ◌&&◌, Option, none, some, List, [], ◌∷◌, map, if◌then◌else◌, ltb, get_elem?,
}
use strategy_engine.Memo.Failure.{Exc, FailureRecord, Python, capture, replayed}
use strategy_engine.Memo.Counts.{Identity, count, counter_from, decrement, set_root}

-- The result of a node, or the exception that it raises.
pub data Outcome (A V : Type 0) : Type 0 where
  value : V → Outcome A V
  raise : Exc A → Outcome A V

pub data Entry (A V : Type 0) : Type 0 where
  kept : V → Entry A V
  failure : FailureRecord A → Entry A V

pub record EvaluationStats (K : Type 0) : Type 0 where
  pub compute_calls : K → ℕ
  pub hit_calls : K → ℕ
  pub hits : ℕ
  pub failure_replays : ℕ
  pub evictions : ℕ
  pub unforeseen_consumptions : ℕ

pub record EvaluationContext (A K V : Type 0) : Type 0 where
  pub memo_enabled : Bool
  pub memo : K → Option (Entry A V)
  pub refcounts : K → ℕ
  pub pending : Option (List (List (K × ℕ)))
  pub active_root : Option ℕ
  pub stats : EvaluationStats K

module _ {K : Type 0} where
  abbrev pub no_stats : EvaluationStats K
  no_stats = record {
    compute_calls = λ _. 0;
    hit_calls = λ _. 0;
    hits = 0;
    failure_replays = 0;
    evictions = 0;
    unforeseen_consumptions = 0;
  }

  abbrev pub evicted : EvaluationStats K → EvaluationStats K
  evicted s = record s { evictions = s.evictions + 1 }

module _ {A K V : Type 0} where
  unfoldable pub init : Bool → EvaluationContext A K V
  init memo_enabled = record {
    memo_enabled = memo_enabled;
    memo = λ _. none;
    refcounts = λ _. 0;
    pending = none;
    active_root = none;
    stats = no_stats;
  }

module _ {A K V : Type 0} where
  -- The counts of a root, if it is planned.
  abbrev pub planned_root : EvaluationContext A K V → ℕ → Option (List (K × ℕ))
  planned_root c i = elim c.pending [ none ↦ none | some roots ↦ get_elem? roots i ]

module _ {K : Type 0} ⦃key : Identity K⦄ where
  abbrev pub update {ℓ} : {B : Type ℓ} → (K → B) → K → B → K → B
  update table k b i = if key.same k i then b else table i

  -- The inner loop of `plan_roots`, and the outer one.
  unfoldable pub expect : (K → ℕ) → List (K × ℕ) → K → ℕ
  expect refcounts [] = refcounts
  expect refcounts ((k, n) ∷ counts) = expect (update refcounts k (refcounts k + n)) counts

  unfoldable pub expect_all : (K → ℕ) → List (List (K × ℕ)) → K → ℕ
  expect_all refcounts [] = refcounts
  expect_all refcounts (counts ∷ roots) = expect_all (expect refcounts counts) roots

module _ {A K V : Type 0} ⦃key : Identity K⦄ where
  plan_fresh : EvaluationContext A K V → List (List K) → EvaluationContext A K V
  plan_fresh c roots =
      let pending = map (counter_from []) roots in
      record c { refcounts = expect_all c.refcounts pending; pending = some pending }

  unfoldable pub plan_roots :
      EvaluationContext A K V → List (List K) → Option (EvaluationContext A K V)
  unfolding plan_fresh
  plan_roots c roots = elim c.pending [
    | some _ ↦ none
    | none ↦ elim c.active_root [ some _ ↦ none | none ↦ some (plan_fresh c roots) ]
  ]

  -- `self._memo.pop(identity, None)`, counted if there was an entry
  unfoldable pub pop_memo : EvaluationContext A K V → K → EvaluationContext A K V
  pop_memo c k = elim (c.memo k) [
    | none ↦ c
    | some _ ↦ record c { memo = update c.memo k none; stats = evicted c.stats }
  ]

  unfoldable pub release : EvaluationContext A K V → K → ℕ → EvaluationContext A K V
  unfolding pop_memo
  release c k n =
      let remaining = c.refcounts k - n in
      if ltb 0 remaining
      then record c { refcounts = update c.refcounts k remaining }
      else pop_memo (record c { refcounts = update c.refcounts k 0 }) k

  unfoldable pub release_all : EvaluationContext A K V → List (K × ℕ) → EvaluationContext A K V
  release_all c [] = c
  release_all c ((k, n) ∷ counts) = release_all (release c k n) counts

  -- The two ends of `root`.
  unfoldable pub enter_root : EvaluationContext A K V → ℕ → Option (EvaluationContext A K V)
  enter_root c index = elim c.active_root [
    | some _ ↦ none
    | none ↦ some (record c { active_root = some index })
  ]

  clear_root : EvaluationContext A K V → ℕ → EvaluationContext A K V
  clear_root c index = elim c.pending [
    | none ↦ c
    | some roots ↦ record c { pending = some (set_root roots index []) }
  ]

  unfoldable pub exit_root : EvaluationContext A K V → ℕ → EvaluationContext A K V
  unfolding clear_root
  exit_root c index =
      let left = record c { active_root = none } in
      elim (planned_root left index) [
        | none ↦ left
        | some leftover ↦ clear_root (release_all left leftover) index
      ]

  -- `self._pending[root][identity]`, where it is positive
  unfoldable pub foreseen : EvaluationContext A K V → K → Option (ℕ × List (K × ℕ))
  foreseen c k = elim c.active_root [
    | none ↦ none
    | some root ↦ elim (planned_root c root) [
      | none ↦ none
      | some counts ↦ if ltb 0 (count k counts) then some (root, counts) else none
    ]
  ]

  take_one : EvaluationContext A K V → K → ℕ → List (K × ℕ) → EvaluationContext A K V
  take_one c k root counts = elim c.pending [
    | none ↦ c
    | some roots ↦ record c {
      pending = some (set_root roots root (decrement k counts));
      refcounts = update c.refcounts k (c.refcounts k - 1);
    }
  ]

  -- The context after a consumption; the result of the method is its reference count.
  unfoldable pub consume : EvaluationContext A K V → K → EvaluationContext A K V
  unfolding foreseen take_one
  consume c k = elim (foreseen c k) [
    | some (root, counts) ↦ take_one c k root counts
    | none ↦ record c {
      stats = record c.stats { unforeseen_consumptions = c.stats.unforeseen_consumptions + 1 };
    }
  ]

  abbrev pub computing : EvaluationContext A K V → K → EvaluationContext A K V
  computing c k = record c {
    stats = record c.stats {
      compute_calls = update c.stats.compute_calls k (c.stats.compute_calls k + 1);
    };
  }

module _ {A V : Type 0} (py : Python A) where
  abbrev pub given : Entry A V → Outcome A V
  given (kept v) = value v
  given (failure r) = raise (replayed py r)

  abbrev replays : Entry A V → ℕ → ℕ
  replays (kept v) n = n
  replays (failure r) n = n + 1

  -- What a miss stores, if anything.
  unfoldable pub entry_of : Outcome A V → Option (Entry A V)
  entry_of (value v) = some (kept v)
  entry_of (raise exc) = elim (capture py exc) [ none ↦ none | some r ↦ some (failure r) ]

module _ {A K V : Type 0} ⦃key : Identity K⦄ (py : Python A) where
  -- A hit, in the context after the consumption.
  unfoldable pub hit :
      EvaluationContext A K V → K → Entry A V → Outcome A V × EvaluationContext A K V
  hit c k entry =
      let after = if ltb 0 (c.refcounts k) then c else pop_memo c k in
      let s = after.stats in
      (
        given py entry,
        record after {
          stats = record s {
            hits = s.hits + 1;
            hit_calls = update s.hit_calls k (s.hit_calls k + 1);
            failure_replays = replays py entry s.failure_replays;
          };
        },
      )

  unfoldable pub store : Bool → K → Outcome A V → EvaluationContext A K V → EvaluationContext A K V
  store retain k result c =
      if retain
      then elim (entry_of py result) [
        | none ↦ c
        | some entry ↦ record c { memo = update c.memo k (some entry) }
      ]
      else c

  -- A miss, in the context after the consumption.
  unfoldable pub miss :
      EvaluationContext A K V
      → K
      → (EvaluationContext A K V → Outcome A V × EvaluationContext A K V)
      → Outcome A V × EvaluationContext A K V
  miss c k compute =
      let retain = c.memo_enabled && ltb 0 (c.refcounts k) in
      let (result, after) = compute (computing c k) in (result, store retain k result after)

  unfoldable pub memoized :
      EvaluationContext A K V
      → K
      → (EvaluationContext A K V → Outcome A V × EvaluationContext A K V)
      → Outcome A V × EvaluationContext A K V
  unfolding hit miss
  memoized c k compute = elim (c.memo k) [
    | some entry ↦ hit (consume c k) k entry
    | none ↦ miss (consume c k) k compute
  ]

  -- With a context; without one the code calls `compute` too.
  unfoldable pub compute_through :
      EvaluationContext A K V
      → Option K
      → (EvaluationContext A K V → Outcome A V × EvaluationContext A K V)
      → Outcome A V × EvaluationContext A K V
  unfolding memoized
  compute_through c none compute = compute c
  compute_through c (some k) compute = memoized c k compute
