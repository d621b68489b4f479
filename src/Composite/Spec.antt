-- ===== src/Composite/Spec.antt =====
-- The structure of a composite: `_path`, `_references` and `_structure`
-- (src/strategy_engine/strategies/ema_pullback/composite_spec.py). The parsers of the children's own
-- bodies are not modelled: a child arrives with its identifier and its body.
use Prim.Native.String.{String}
use text.Mathlib.Text.{◌==◌ as str_eq, find?}
use strategy_engine.Prelude.{
  ℕ, leb, Bool, true, false, not, ◌&&◌, Option, none, some, List, [], ◌∷◌, ◌++◌, map, length, any,
  all, if◌then◌else◌,
}
use strategy_engine.Prelude.Int.{ℤ, pos, negsuc}
use strategy_engine.Result.{Result, ok, err, Error, ◌>>=◌, ◌>>◌, raise_if, each}

pub record Child {ℓ} (B : Type ℓ) : Type ℓ where
  pub child_id : String
  pub body : B

-- `CompositePath`; `at_least` is the pair of `k` and `of`.
pub record CompositePath : Type 0 where
  pub path_id : String
  pub require : List String
  pub at_least : Option (ℕ × List String)

-- A path of the request: `none` for a field that is missing or null, `k` an integer.
pub record RawPath : Type 0 where
  pub path_id : String
  pub require : Option (List String)
  pub at_least : Option (ℤ × List String)

abbrev pub mem_of : String → List String → Bool
mem_of x xs = any (str_eq x) xs

-- `len(set(xs)) == len(xs)`
abbrev pub all_distinct : List String → Bool
all_distinct [] = true
all_distinct (x ∷ xs) = not (mem_of x xs) && all_distinct xs

abbrev pub has_separator : String → Bool
has_separator value = elim (find? value "/") [ none ↦ false | some at ↦ true ]

unfoldable pub identifier : String → Result String
identifier value =
    raise_if (str_eq value "") (Error.invalid_request "must be a non-empty string")
    >> (raise_if (has_separator value) (Error.invalid_request "must not contain '/'") >> ok value)

abbrev pub is_empty {ℓ} : {A : Type ℓ} → List A → Bool
is_empty [] = true
is_empty (x ∷ xs) = false

-- `_references`
unfoldable pub references : List String → Result (List String)
references items =
    raise_if (is_empty items) (Error.invalid_request "must be a non-empty list")
    >> (each identifier items >>= λ refs.
        raise_if (not (all_distinct refs)) (Error.invalid_request "must not repeat a child_id")
        >> ok refs)

abbrev pub optional_references : Option (List String) → Result (List String)
optional_references none = ok []
optional_references (some items) = references items

-- `1 <= k <= len(of)`, as a number
abbrev pub in_count : ℤ → List String → Option ℕ
in_count (pos k) of = if leb 1 k && leb k (length of) then some k else none
in_count (negsuc k) of = none

abbrev pub counted : Option ℕ → List String → Result (Option (ℕ × List String))
counted none of = err (Error.invalid_request "at_least.k must be an integer in 1..len(of)")
counted (some k) of = ok (some (k, of))

unfoldable pub at_least_of : Option (ℤ × List String) → Result (Option (ℕ × List String))
at_least_of none = ok none
at_least_of (some (k, of)) = references of >>= λ refs. counted (in_count k refs) refs

abbrev pub nothing_declared : List String → Option (ℕ × List String) → Bool
nothing_declared require none = is_empty require
nothing_declared require (some a) = false

-- `_path`
unfoldable pub parse_path : RawPath → Result CompositePath
parse_path raw = identifier raw.path_id >>= λ path_id.
    optional_references raw.require >>= λ require. at_least_of raw.at_least >>= λ at_least.
    raise_if (nothing_declared require at_least)
      (Error.invalid_request "must declare require or at_least")
    >> ok (record { path_id = path_id; require = require; at_least = at_least })

abbrev pub counted_refs : Option (ℕ × List String) → List String
counted_refs none = []
counted_refs (some (k, of)) = of

-- The children that a path reads: `(*require, *at_least_of)`.
abbrev pub refs_of : CompositePath → List String
refs_of p = p.require ++ counted_refs p.at_least

abbrev pub all_refs : List CompositePath → List String
all_refs [] = []
all_refs (p ∷ ps) = refs_of p ++ all_refs ps

-- `_structure`, of children whose bodies are parsed.
unfoldable pub structure {ℓ} :
    {B : Type ℓ} → List (Child B) → List RawPath → Result (List (Child B) × List CompositePath)
structure children raw_paths =
    let child_ids = map (λ c. c.child_id) children in
    raise_if (is_empty children) (Error.invalid_request "children must be a non-empty list")
    >> (each identifier child_ids >>= λ ids.
        raise_if (not (all_distinct ids))
          (Error.invalid_request "composite child_id values must be unique")
        >> (raise_if (is_empty raw_paths) (Error.invalid_request "paths must be a non-empty list")
            >> (each parse_path raw_paths >>= λ paths.
                raise_if (not (all_distinct (map (λ p. p.path_id) paths)))
                  (Error.invalid_request "composite path_id values must be unique")
                >> (raise_if (not (all (λ ref. mem_of ref ids) (all_refs paths)))
                      (Error.invalid_request "composite path references an unknown child")
                    >> (raise_if (not (all (λ id. mem_of id (all_refs paths)) ids))
                          (Error.invalid_request "composite children must be referenced by a path")
                        >> ok (children, paths))))))
