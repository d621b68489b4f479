-- ===== src/Composite/Setup.antt =====
-- `_composite_core` (src/strategy_engine/strategies/ema_pullback/setups.py): the paths over the masks
-- of the children, without their evidence values. A child arrives with the mask that its setup or
-- predicate evaluates to.
use Prim.Native.String.{String}
use strategy_engine.Prelude.{
  ℕ, suc, ◌+◌, leb, true, false, ◌&&◌, ◌||◌, Option, none, some, List, [], ◌∷◌, if◌then◌else◌,
}
use strategy_engine.Result.{Result, ok, err, Error, ◌>>=◌, each}
use strategy_engine.Composite.Spec.{Child, CompositePath}
use strategy_engine.Composite.Fold.{Mask, lookup}

-- `arrays`, the latest child first.
abbrev pub arrays_of : List (Child Mask) → List (String × Mask) → List (String × Mask)
arrays_of [] found = found
arrays_of (c ∷ cs) found = arrays_of cs ((c.child_id, c.body) ∷ found)

abbrev pub present : Option Mask → Result Mask
present none = err (Error.raised "KeyError")
present (some m) = ok m

abbrev pub array : List (String × Mask) → String → Result Mask
array arrays ref = present (lookup ref arrays)

abbrev pub all_at : List Mask → Mask
all_at [] i = true
all_at (m ∷ ms) i = m i && all_at ms i

abbrev pub count_at : List Mask → ℕ → ℕ
count_at [] i = 0
count_at (m ∷ ms) i = (if m i then 1 else 0) + count_at ms i

-- The mask of a path and its count of `at_least`.
pub record PathCore : Type 0 where
  pub mask : Mask
  pub count : Option (ℕ → ℕ)

abbrev pub path_at_least : List (String × Mask) → Mask → Option (ℕ × List String) → Result PathCore
path_at_least arrays required none = ok (record { mask = required; count = none })
path_at_least arrays required (some (k, of)) = each (array arrays) of >>= λ ms.
    ok (record { mask = λ i. required i && leb k (count_at ms i); count = some (count_at ms) })

unfoldable pub path_core : List (String × Mask) → CompositePath → Result PathCore
path_core arrays p =
    each (array arrays) p.require >>= λ ms. path_at_least arrays (all_at ms) p.at_least

-- The index of the first path that is true on the bar; `none` for -1.
abbrev pub later : Option ℕ → Option ℕ
later none = none
later (some n) = some (suc n)

abbrev pub winning : List PathCore → ℕ → Option ℕ
winning [] i = none
winning (p ∷ ps) i = let rest = winning ps i in if p.mask i then some 0 else later rest

abbrev pub any_path : List PathCore → Mask
any_path [] i = false
any_path (p ∷ ps) i = p.mask i || any_path ps i

-- `CompositeCore`
pub record CompositeCore : Type 0 where
  pub local : Mask
  pub paths : List PathCore
  pub winning_index : ℕ → Option ℕ

unfoldable pub composite_core : List (Child Mask) → List CompositePath → Result CompositeCore
composite_core children paths = each (path_core (arrays_of children [])) paths >>= λ cores.
    ok (record { local = any_path cores; paths = cores; winning_index = winning cores })
