-- ===== src/Composite/Meaning.antt =====
-- What a composite means, path by path, for given values of its children.
use Prim.Native.String.{String}
use strategy_engine.Prelude.{
  ℕ, ◌+◌, leb, Bool, true, ◌&&◌, Option, none, some, List, [], ◌∷◌, all, if◌then◌else◌,
}
use strategy_engine.Composite.Spec.{CompositePath}

-- How many of the children are true.
abbrev pub count_true : (String → Bool) → List String → ℕ
count_true v [] = 0
count_true v (ref ∷ refs) = (if v ref then 1 else 0) + count_true v refs

abbrev pub enough : (String → Bool) → Option (ℕ × List String) → Bool
enough v none = true
enough v (some (k, of)) = leb k (count_true v of)

-- A path holds: all of its required children, and enough of the counted ones.
abbrev pub holds : (String → Bool) → CompositePath → Bool
holds v p = all v p.require && enough v p.at_least

-- The first path that holds, in declared order.
abbrev pub first_path : (String → Bool) → List CompositePath → Option CompositePath
first_path v [] = none
first_path v (p ∷ ps) = if holds v p then some p else first_path v ps
