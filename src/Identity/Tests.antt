-- ===== src/Identity/Tests.antt =====
-- Values that Python's `==` merges and their identities do not, with the floats one and zero.
use Prim.Native.String.{String}
use strategy_engine.Prelude.{
  ℕ, ◌⊎◌, some, List, [], ◌∷◌, ◌≡◌, ◌↔◌, refl, Bool, true, false, if◌then◌else◌,
}
use strategy_engine.Prelude.Int.{pos}
use strategy_engine.Identity.Canonical.{
  Value, null, bool, int, float, tuple, nil, cons, Python, eq_ℤ, int_of, python_eq, canonical,
}
use strategy_engine.Result.{ok, err, Error}
use strategy_engine.Identity.Injective.{python_eq-canonical}
use strategy_engine.Identity.Node.{Dependency, NodeSpec, insert, sorted, bad_side, node_spec}
use strategy_engine.Identity.Lookup.{IsIdentity, param-node_spec}

abbrev small : Python Bool
small = record {
  hex = λ a. if a then "0x1.0000000000000p+0" else "0x0.0p+0";
  float_eq = λ a b. eq_ℤ (int_of a) (int_of b);
  int_eq_float = λ a b. eq_ℤ a (int_of b);
}

hex-injective : (a b : Bool) → small.hex a ≡ small.hex b → a ≡ b
hex-injective true true h = refl
hex-injective false false h = refl
hex-injective true false h = cc
hex-injective false true h = cc

-- `True == 1` and `1 == 1.0`, also inside a tuple.
merged :
    python_eq small
      (tuple (cons (bool true) (cons (int (pos 1)) nil)))
      (tuple (cons (int (pos 1)) (cons (float true) nil)))
    ≡ true
unfolding python_eq
merged = refl

apart : python_eq small (canonical small (bool true)) (canonical small (int (pos 1))) ≡ false
unfolding python_eq canonical
apart = refl

python_eq-canonical_example :
    (python_eq small
        (canonical small (tuple (cons (int (pos 1)) (cons null nil))))
        (canonical small (tuple (cons (float true) (cons null nil))))
      ≡ true)
    ↔ (tuple (cons (int (pos 1)) (cons null nil)) ≡ tuple (cons (float true) (cons null nil)))
python_eq-canonical_example =
    python_eq-canonical small hex-injective (tuple (cons (int (pos 1)) (cons null nil)))
      (tuple (cons (float true) (cons null nil)))

abbrev settings : List (String × Value Bool)
settings = ("window", int (pos 3)) ∷ ("anchor", bool true) ∷ []

abbrev inputs : List (String × Dependency ℕ)
inputs =
    ("slow", Dependency.single 2)
    ∷ ("extra", Dependency.absent)
    ∷ ("all", Dependency.several (3 ∷ 1 ∷ 3 ∷ []))
    ∷ []

in_order :
    sorted inputs
    ≡ ("all", Dependency.several (3 ∷ 1 ∷ 3 ∷ []))
      ∷ ("extra", Dependency.absent)
      ∷ ("slow", Dependency.single 2)
      ∷ []
unfolding sorted insert
in_order = refl

param-node_spec_example :
    ((bad_side (some "long") ≡ true)
      × (node_spec small "ema" 1 settings inputs (some "long") ≡ err (Error.raised "ValueError")))
    ⊎ ((bad_side (some "long") ≡ false)
        × ((spec : NodeSpec Bool ℕ) × (node_spec small "ema" 1 settings inputs (some "long")
              ≡ ok spec)
            × IsIdentity small settings inputs spec))
param-node_spec_example = param-node_spec small "ema" 1 settings inputs (some "long")
