-- ===== src/Identity/Canonical.antt =====
-- `canonical` of src/strategy_engine/domain/node_identity.py, on the supported parameter values but the
-- frozen sets, and Python's `==` on the tuples that it gives. `float.hex` and the comparison of a
-- number with a float are parameters.
use Prim.Native.String.{String}
use text.Mathlib.Text.{◌==◌ as str_eq}
use strategy_engine.Prelude.{Bool, true, false, ◌&&◌, ◌==◌}
use strategy_engine.Prelude.Int.{ℤ, pos, negsuc}

-- A normalized parameter.
mutual
  pub data Value (F : Type 0) : Type 0 where
    null : Value F
    bool : Bool → Value F
    int : ℤ → Value F
    float : F → Value F
    str : String → Value F
    tuple : Values F → Value F

  pub data Values (F : Type 0) : Type 0 where
    nil : Values F
    cons : Value F → Values F → Values F

pub record Python (F : Type 0) : Type 0 where
  pub hex : F → String
  pub float_eq : F → F → Bool
  pub int_eq_float : ℤ → F → Bool

abbrev pub eq_ℤ : ℤ → ℤ → Bool
eq_ℤ (pos a) (pos b) = a == b
eq_ℤ (negsuc a) (negsuc b) = a == b
eq_ℤ _ _ = false

-- `True` and `False` are the integers 1 and 0.
abbrev pub int_of : Bool → ℤ
int_of true = pos 1
int_of false = pos 0

module _ {F : Type 0} (py : Python F) where
  -- `==`, where the numbers of all types compare by value.
  unfoldable mutual
    pub python_eq : Value F → Value F → Bool
    python_eq null null = true
    python_eq (bool a) (bool b) = eq_ℤ (int_of a) (int_of b)
    python_eq (bool a) (int b) = eq_ℤ (int_of a) b
    python_eq (bool a) (float b) = py.int_eq_float (int_of a) b
    python_eq (int a) (bool b) = eq_ℤ a (int_of b)
    python_eq (int a) (int b) = eq_ℤ a b
    python_eq (int a) (float b) = py.int_eq_float a b
    python_eq (float a) (bool b) = py.int_eq_float (int_of b) a
    python_eq (float a) (int b) = py.int_eq_float b a
    python_eq (float a) (float b) = py.float_eq a b
    python_eq (str a) (str b) = str_eq a b
    python_eq (tuple as') (tuple bs) = python_eq_all as' bs
    python_eq _ _ = false

    pub python_eq_all : Values F → Values F → Bool
    python_eq_all nil nil = true
    python_eq_all (cons a as') (cons b bs) = python_eq a b && python_eq_all as' bs
    python_eq_all _ _ = false

  abbrev pub tagged : String → Value F → Value F
  tagged tag payload = tuple (cons (str tag) (cons payload nil))

  unfoldable mutual
    pub canonical : Value F → Value F
    canonical null = tuple (cons (str "none") nil)
    canonical (bool a) = tagged "bool" (bool a)
    canonical (int a) = tagged "int" (int a)
    canonical (float a) = tagged "float" (str (py.hex a))
    canonical (str a) = tagged "str" (str a)
    canonical (tuple vs) = tagged "tuple" (tuple (canonical_all vs))

    pub canonical_all : Values F → Values F
    canonical_all nil = nil
    canonical_all (cons v vs) = cons (canonical v) (canonical_all vs)
