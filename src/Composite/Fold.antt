-- ===== src/Composite/Fold.antt =====
-- `fold_phase_paths` and `composite_met`
-- (src/strategy_engine/strategies/ema_pullback/managed_composite.py). The mask of a market child, a
-- predicate or the ADX atom, is the one that its evaluation gives for the folded side.
use Prim.Native.String.{String}
use text.Mathlib.Text.{◌==◌ as str_eq}
use strategy_engine.Prelude.{
  ℕ, ◌+◌, leb, Bool, true, false, ◌&&◌, Option, none, some, List, [], ◌∷◌, map, all, if◌then◌else◌,
}
use strategy_engine.Result.{Result, ok, err, Error, ◌>>=◌, each}
use strategy_engine.Composite.Spec.{Child, CompositePath, refs_of}

abbrev pub Mask : Type 0
Mask = ℕ → Bool

-- The body of a phase child: a market child, `change_since_entry`, or another managed atom.
pub data PhaseChild (C E : Type 0) : Type 0 where
  market : Mask → PhaseChild C E
  entry_change : E → PhaseChild C E
  trade : C → PhaseChild C E

-- A dict of the code, the latest entry first.
abbrev pub lookup {ℓ} : {A : Type ℓ} → String → List (String × A) → Option A
lookup key [] = none
lookup key ((k, a) ∷ rest) = let later = lookup key rest in if str_eq k key then some a else later

abbrev pub is_some {ℓ} : {A : Type ℓ} → Option A → Bool
is_some none = false
is_some (some a) = true

-- `FoldedPath`, without its `path_id`, which stands in the path.
pub record FoldedPath : Type 0 where
  pub path : CompositePath
  pub market : Option Mask
  pub trade_require : List String
  pub at_least : Option (ℕ × List String)
  pub referenced : List String

-- `dict.fromkeys(refs)`
abbrev pub without : String → List String → List String
without x [] = []
without x (y ∷ ys) = let rest = without x ys in if str_eq x y then rest else y ∷ rest

abbrev pub distinct : List String → List String
distinct [] = []
distinct (x ∷ xs) = x ∷ without x (distinct xs)

abbrev pub and_mask : Option Mask → Mask → Mask
and_mask none m = m
and_mask (some folded) m = λ i. folded i && m i

-- A child that is not in the dict counts for nothing here; the code looks up market children only.
abbrev pub mask_bit : Option Mask → Mask
mask_bit none i = false
mask_bit (some m) i = m i

module _ (market : List (String × Mask)) where
  abbrev pub is_market : String → Bool
  is_market ref = is_some (lookup ref market)

  abbrev pub mask_at : ℕ → String → Bool
  mask_at i ref = mask_bit (lookup ref market) i

  abbrev pub fold_ref : Option Mask → Option Mask → Option Mask
  fold_ref none folded = folded
  fold_ref (some m) folded = some (and_mask folded m)

  -- The AND of the required market children.
  abbrev pub fold_require : List String → Option Mask → Option Mask
  fold_require [] folded = folded
  fold_require (ref ∷ refs) folded = fold_require refs (fold_ref (lookup ref market) folded)

  abbrev pub counts : List String → ℕ → ℕ
  counts [] i = 0
  counts (ref ∷ refs) i = (if mask_at i ref then 1 else 0) + counts refs i

  -- The market part and the terms that stay, once `at_least` is folded where it is all market.
  abbrev pub fold_at_least :
      Option (ℕ × List String) → Option Mask → Option Mask × Option (ℕ × List String)
  fold_at_least none folded = (folded, none)
  fold_at_least (some (k, of)) folded =
      if all is_market of
      then (some (and_mask folded (λ i. leb k (counts of i))), none)
      else (folded, some (k, of))

  abbrev pub trade_refs : List String → List String
  trade_refs [] = []
  trade_refs (ref ∷ refs) = let rest = trade_refs refs in if is_market ref then rest else ref ∷ rest

  unfoldable pub fold_path : CompositePath → FoldedPath
  fold_path p =
      let folded = fold_at_least p.at_least (fold_require p.require none) in
      record {
        path = p;
        market = folded.0;
        trade_require = trade_refs p.require;
        at_least = folded.1;
        referenced = distinct (refs_of p);
      }

pub record FoldedComposite (C E : Type 0) : Type 0 where
  pub children : List (Child (PhaseChild C E))
  pub paths : List FoldedPath
  pub market_children : List (String × Mask)
  pub entry_changes : List (String × E)

module _ {C E : Type 0} where
  abbrev pub add_market : String → PhaseChild C E → List (String × Mask) → List (String × Mask)
  add_market id (PhaseChild.market m) found = (id, m) ∷ found
  add_market id (PhaseChild.entry_change e) found = found
  add_market id (PhaseChild.trade t) found = found

  abbrev pub add_change : String → PhaseChild C E → List (String × E) → List (String × E)
  add_change id (PhaseChild.market m) found = found
  add_change id (PhaseChild.entry_change e) found = (id, e) ∷ found
  add_change id (PhaseChild.trade t) found = found

  abbrev pub market_of : List (Child (PhaseChild C E)) → List (String × Mask) → List (String × Mask)
  market_of [] found = found
  market_of (c ∷ cs) found = market_of cs (add_market c.child_id c.body found)

  abbrev pub changes_of : List (Child (PhaseChild C E)) → List (String × E) → List (String × E)
  changes_of [] found = found
  changes_of (c ∷ cs) found = changes_of cs (add_change c.child_id c.body found)

  abbrev trade_body : PhaseChild C E → Result C
  trade_body (PhaseChild.market m) = err (Error.raised "AssertionError")
  trade_body (PhaseChild.entry_change e) = err (Error.raised "AssertionError")
  trade_body (PhaseChild.trade t) = ok t

  -- `spec.child(child_id).condition`; the code asserts that it is there.
  abbrev pub condition_of : List (Child (PhaseChild C E)) → String → Result C
  condition_of [] ref = err (Error.raised "KeyError")
  condition_of (c ∷ cs) ref =
      let rest = condition_of cs ref in if str_eq c.child_id ref then trade_body c.body else rest

  unfoldable pub fold_phase_paths :
      List (Child (PhaseChild C E)) → List CompositePath → FoldedComposite C E
  fold_phase_paths children paths =
      let market = market_of children [] in
      record {
        children = children;
        paths = map (fold_path market) paths;
        market_children = market;
        entry_changes = changes_of children [];
      }

  module _ (folded : FoldedComposite C E) (index : ℕ) (trade_met : C → Result Bool)
      (entry_change_met : E → Bool) where
    abbrev trade_value : String → Option E → Result Bool
    trade_value ref (some change) = ok (entry_change_met change)
    trade_value ref none = condition_of folded.children ref >>= trade_met

    abbrev pub value_of : String → Option Mask → Result Bool
    value_of ref (some mask) = ok (mask index)
    value_of ref none = trade_value ref (lookup ref folded.entry_changes)

    unfoldable pub value : String → Result Bool
    value ref = value_of ref (lookup ref folded.market_children)

    -- `all(value(ref) for ref in refs)`, which stops at the first false value.
    abbrev pub all_values : List String → Result Bool
    all_values [] = ok true
    all_values (ref ∷ refs) =
        let rest = all_values refs in value ref >>= λ b. if b then rest else ok false

    -- `sum(value(ref) for ref in refs)`
    abbrev pub sum_values : List String → Result ℕ
    sum_values [] = ok 0
    sum_values (ref ∷ refs) =
        let rest = sum_values refs in value ref >>= λ b. rest >>= λ n. ok ((if b then 1 else 0) + n)

    abbrev pub enough_values : Option (ℕ × List String) → Result Bool
    enough_values none = ok true
    enough_values (some (k, of)) = sum_values of >>= λ n. ok (leb k n)

    abbrev pub market_passes : Option Mask → Bool
    market_passes none = true
    market_passes (some m) = m index

    abbrev pub path_met : FoldedPath → Result Bool
    path_met p =
        if market_passes p.market
        then (all_values p.trade_require >>= λ b. if b then enough_values p.at_least else ok false)
        else ok false

    abbrev pub pair_value : String → Result (String × Bool)
    pair_value ref = value ref >>= λ b. ok (ref, b)

    -- The first path that is met, with the values of the children that it references.
    abbrev pub met_from : List FoldedPath → Result (Option (CompositePath × List (String × Bool)))
    met_from [] = ok none
    met_from (p ∷ ps) =
        let rest = met_from ps in
        path_met p >>= λ met.
        if met
        then (each pair_value p.referenced >>= λ values. ok (some (p.path, values)))
        else rest

    unfoldable pub composite_met : Result (Option (CompositePath × List (String × Bool)))
    composite_met = met_from folded.paths
