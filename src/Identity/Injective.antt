-- ===== src/Identity/Injective.antt =====
-- Which parameters give the same identity.
use text.Mathlib.TextEquality.{eq_iff}
use strategy_engine.Prelude.{
  ◌≡◌, ◌↔◌, refl, ap, ap₂, subst, Bool, true, ==_iff, arith, and_left, and_right,
}
use strategy_engine.Prelude.Int.{ℤ, pos, negsuc}
use strategy_engine.Identity.Canonical.{
  Value, Values, null, bool, int, float, str, tuple, nil, cons, Python, eq_ℤ, int_of, python_eq,
  python_eq_all, canonical, canonical_all,
}

eq_ℤ_iff : (a b : ℤ) → (eq_ℤ a b ≡ true) ↔ (a ≡ b)
eq_ℤ_iff (pos a) (pos b) = ground (arith, ==_iff a b)
eq_ℤ_iff (negsuc a) (negsuc b) = ground (arith, ==_iff a b)
eq_ℤ_iff (pos a) (negsuc b) = ground arith
eq_ℤ_iff (negsuc a) (pos b) = ground arith

int_of-injective : (a b : Bool) → int_of a ≡ int_of b → a ≡ b
int_of-injective a b h = ground arith

module _ {F : Type 0} (py : Python F)
    (hex_injective : (a b : F) → py.hex a ≡ py.hex b → a ≡ b) where
  mutual
    unfolding python_eq python_eq_all canonical canonical_all

    same_value : (a b : Value F) → python_eq py (canonical py a) (canonical py b) ≡ true → a ≡ b
    same_value null null h = refl
    same_value (bool a) (bool b) h =
        ap bool (int_of-injective a b ((eq_ℤ_iff (int_of a) (int_of b)).0 (and_left _ _ h)))
    same_value (int a) (int b) h = ap int ((eq_ℤ_iff a b).0 (and_left _ _ h))
    same_value (float a) (float b) h =
        ap float (hex_injective a b ((eq_iff (py.hex a) (py.hex b)).0 (and_left _ _ h)))
    same_value (str a) (str b) h = ap str ((eq_iff a b).0 (and_left _ _ h))
    same_value (tuple xs) (tuple ys) h = ap tuple (same_values xs ys (and_left _ _ h))
    same_value _ _ h = cc

    same_values :
        (xs ys : Values F)
        → python_eq_all py (canonical_all py xs) (canonical_all py ys) ≡ true
        → xs ≡ ys
    same_values nil nil h = refl
    same_values (cons x xs) (cons y ys) h =
        ap₂ cons (same_value x y (and_left _ _ h)) (same_values xs ys (and_right _ _ h))
    same_values _ _ h = cc

  mutual
    unfolding python_eq python_eq_all canonical canonical_all

    itself : (a : Value F) → python_eq py (canonical py a) (canonical py a) ≡ true
    itself null = refl
    itself (bool a) = ground (arith, eq_ℤ_iff (int_of a) (int_of a))
    itself (int a) = ground (arith, eq_ℤ_iff a a)
    itself (float a) = ground (arith, eq_iff (py.hex a) (py.hex a))
    itself (str a) = ground (arith, eq_iff a a)
    itself (tuple xs) = rw (itself_all xs) refl

    itself_all :
        (xs : Values F) → python_eq_all py (canonical_all py xs) (canonical_all py xs) ≡ true
    itself_all nil = refl
    itself_all (cons x xs) = rw (itself x, itself_all xs) refl

  -- If `float.hex` tells floats apart, the canonical forms of two parameters are equal under
  -- Python's `==` exactly if the parameters are the same value of the same type, tuples item by
  -- item.
  pub python_eq-canonical :
      (a b : Value F) → (python_eq py (canonical py a) (canonical py b) ≡ true) ↔ (a ≡ b)
  python_eq-canonical a b = (
    same_value a b,
    λ e.
        subst (λ (c : Value F). python_eq py (canonical py a) (canonical py c) ≡ true) e (itself a),
  )
