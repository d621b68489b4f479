-- ===== src/Json.antt =====
-- The values of a request body: what `Mapping[str, Any]` holds in the code. A mapping is a list of
-- entries with unique keys, as a decoded JSON object is.
use Prim.Native.String.{String}
use text.Mathlib.Text.{◌==◌ as str_eq}
use strategy_engine.Prelude.{ℕ, suc, Bool, Option, none, some, List, [], ◌∷◌, if◌then◌else◌}
use strategy_engine.Prelude.Int.{ℤ, pos}
use strategy_engine.Result.{Result, ok, err, Error}

mutual
  pub data Json (F : Type 0) : Type 0 where
    null : Json F
    bool : Bool → Json F
    int : ℤ → Json F
    float : F → Json F
    str : String → Json F
    arr : Items F → Json F
    obj : Fields F → Json F

  pub data Items (F : Type 0) : Type 0 where
    nil : Items F
    cons : Json F → Items F → Items F

  pub data Fields (F : Type 0) : Type 0 where
    end : Fields F
    field : String → Json F → Fields F → Fields F

module _ {F : Type 0} where
  abbrev pub to_list : Items F → List (Json F)
  to_list nil = []
  to_list (cons x xs) = x ∷ to_list xs

  -- `mapping.get(key)`, with `none` for a missing key.
  abbrev pub get : String → Fields F → Option (Json F)
  get key end = none
  get key (field k v rest) = if str_eq k key then some v else get key rest

  abbrev pub keys : Fields F → List String
  keys end = []
  keys (field k v rest) = k ∷ keys rest

  -- `mapping.get(key, default)`
  abbrev pub get_default : String → Json F → Fields F → Json F
  get_default key default m = elim (get key m) [ none ↦ default | some v ↦ v ]

  -- `mapping.get(key)` as Python returns it: `None` for a missing key.
  abbrev pub get_none : String → Fields F → Json F
  get_none key m = get_default key null m

  -- `_mapping(value, path)`
  abbrev pub mapping : Json F → Result (Fields F)
  mapping (obj m) = ok m
  mapping other = err (Error.invalid_request "must be an object")

  -- `isinstance(value, bool) or not isinstance(value, int) or value <= 0`, negated, with the value.
  abbrev pub positive_int : Json F → Result ℕ
  positive_int (int (pos (suc n))) = ok (suc n)
  positive_int other = err (Error.invalid_request "must be a positive integer")
