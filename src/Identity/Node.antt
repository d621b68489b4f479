-- ===== src/Identity/Node.antt =====
-- `NodeSpec` and `node_spec` of src/strategy_engine/domain/node_identity.py. A dictionary is the list of
-- its items. A frozenset is the list of its elements, up to their order and repetitions: two of them
-- are equal where they have the same members, as Python's are. The nodes of the slots are of any
-- type whose equality is that of the nodes.
use Prim.Native.Nat.{Ordering}
use Prim.Native.String.{String, compare}
use text.Mathlib.Text.{◌==◌ as str_eq}
use mathlib.Core.List.{Mem}
use mathlib.Core.Quot.{Quot}
use strategy_engine.Prelude.{
  ℕ, Bool, true, false, not, ◌||◌, Option, none, some, List, [], ◌∷◌, map, if◌then◌else◌, ◌↔◌,
}
use strategy_engine.Result.{Result, ok, Error, ◌>>◌, raise_if}
use strategy_engine.Identity.Canonical.{Value, Python, canonical}

abbrev pub SameMembers : {U : Type 0} → List U → List U → Type 0
SameMembers xs ys = (u : _) → Mem u xs ↔ Mem u ys

abbrev pub FrozenSet : Type 0 → Type 0
FrozenSet U = Quot (SameMembers {U = U})

unfoldable pub frozenset : {U : Type 0} → List U → FrozenSet U
frozenset xs = Quot.mk xs

-- A value of the `upstream` argument: `None`, a node, or an iterable of nodes.
pub data Dependency (U : Type 0) : Type 0 where
  absent : Dependency U
  single : U → Dependency U
  several : List U → Dependency U

pub data Upstream (U : Type 0) : Type 0 where
  absent : Upstream U
  single : U → Upstream U
  set : FrozenSet U → Upstream U

pub record NodeSpec (F U : Type 0) : Type 0 where
  pub kind : String
  pub version : ℕ
  pub params : List (String × Value F)
  pub upstream : List (String × Upstream U)
  pub side : Option String

-- `sorted` on the items of a dictionary, which differ in their keys.
abbrev pub str_le : String → String → Bool
str_le a b = elim (compare a b) [ Ordering.gt ↦ false | _ ↦ true ]

module _ {A : Type 0} where
  unfoldable pub insert : String → A → List (String × A) → List (String × A)
  insert k a [] = (k, a) ∷ []
  insert k a ((j, b) ∷ items) =
      if str_le k j then (k, a) ∷ (j, b) ∷ items else (j, b) ∷ insert k a items

  unfoldable pub sorted : List (String × A) → List (String × A)
  sorted [] = []
  sorted ((k, a) ∷ items) = insert k a (sorted items)

  -- The loop of `param` and of `dependency`; `none` is the `KeyError`.
  unfoldable pub lookup : String → List (String × A) → Option A
  lookup name [] = none
  lookup name ((key, a) ∷ items) = if str_eq key name then some a else lookup name items

abbrev pub bad_side : Option String → Bool
bad_side none = false
bad_side (some side) = not (str_eq side "long" || str_eq side "short")

unfoldable pub normalized : {U : Type 0} → Dependency U → Upstream U
normalized Dependency.absent = Upstream.absent
normalized (Dependency.single u) = Upstream.single u
normalized (Dependency.several us) = Upstream.set (frozenset us)

module _ {F U : Type 0} where
  abbrev pub param : NodeSpec F U → String → Option (Value F)
  param spec name = lookup name spec.params

  abbrev pub dependency : NodeSpec F U → String → Option (Upstream U)
  dependency spec role = lookup role spec.upstream

  unfoldable pub node_spec :
      Python F
      → String
      → ℕ
      → List (String × Value F)
      → List (String × Dependency U)
      → Option String
      → Result (NodeSpec F U)
  node_spec py kind version params upstream side =
      raise_if (bad_side side) (Error.raised "ValueError")
      >> ok (record {
        kind = kind;
        version = version;
        params = map (λ p. (p.0, canonical py p.1)) (sorted params);
        upstream = map (λ p. (p.0, normalized p.1)) (sorted upstream);
        side = side;
      })
