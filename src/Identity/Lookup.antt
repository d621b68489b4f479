-- ===== src/Identity/Lookup.antt =====
-- What a built identity gives back.
use Prim.Native.String.{String}
use text.Mathlib.Text.{◌==◌ as str_eq}
use text.Mathlib.TextEquality.{eq_iff}
use mathlib.Core.Quot
use strategy_engine.Prelude.{
  ℕ, Bool, any, ◌≡◌, ◌⊎◌, refl, ap, ◌∙◌, sym, subst, true, false, Option, none, some, List, [], ◌∷◌,
  map, if◌then◌else◌, arith, Bool-cases, inl, inr,
}
use strategy_engine.Result.{ok, err, Error}
use strategy_engine.Identity.Canonical.{Value, Python, canonical}
use strategy_engine.Identity.Node.{
  SameMembers, FrozenSet, frozenset, Dependency, Upstream, NodeSpec, str_le, insert, sorted, lookup,
  bad_side, normalized, param, dependency, node_spec,
}
use strategy_engine.Identity.Members.{any_member}
use strategy_engine.Identity.Order.{str_le_total}

-- The keys follow each other in order.
abbrev pub IsAscending : {A : Type 0} → List (String × A) → Type 0
IsAscending [] = Unit {0}
IsAscending (p ∷ []) = Unit {0}
IsAscending (p ∷ q ∷ items) = (str_le p.0 q.0 ≡ true) × IsAscending (q ∷ items)

module _ {A : Type 0} where
  lookup-insert :
      (name k : String) (a : A) (items : List (String × A))
      → lookup name (insert k a items) ≡ (if str_eq k name then some a else lookup name items)
  unfolding lookup insert
  lookup-insert name k a [] = refl
  lookup-insert name k a ((j, b) ∷ items) =
      ground (arith, eq_iff k j, eq_iff k name, eq_iff j name, lookup-insert name k a items)

  lookup-sorted :
      (name : String) (items : List (String × A)) → lookup name (sorted items) ≡ lookup name items
  unfolding lookup sorted
  lookup-sorted name [] = refl
  lookup-sorted name ((k, a) ∷ items) =
      lookup-insert name k a (sorted items) ∙ rw (lookup-sorted name items) refl

  IsAscending-tail :
      (p : String × A) (items : List (String × A)) → IsAscending (p ∷ items) → IsAscending items
  IsAscending-tail p [] h = tt
  IsAscending-tail p (q ∷ items) h = h.1

  -- An item that comes before the new one stays before what the insertion gives.
  IsAscending-after :
      (p : String × A) (k : String) (a : A) (items : List (String × A))
      → str_le p.0 k ≡ true
      → IsAscending (p ∷ items)
      → IsAscending (insert k a items)
      → IsAscending (p ∷ insert k a items)
  unfolding insert
  IsAscending-after p k a [] e h s = (e, tt)
  IsAscending-after p k a ((j, b) ∷ items) e h s = elim (Bool-cases (str_le k j)) [
    | inl c ↦ rw c (e, rw c at s)
    | inr c ↦ rw c (h.0, rw c at s)
  ]

  insert-IsAscending :
      (k : String) (a : A) (items : List (String × A))
      → IsAscending items
      → IsAscending (insert k a items)
  unfolding insert
  insert-IsAscending k a [] h = tt
  insert-IsAscending k a ((j, b) ∷ items) h = elim (Bool-cases (str_le k j)) [
    | inl c ↦ rw c (c, h)
    | inr c ↦ rw c (
        IsAscending-after (j, b) k a items (str_le_total k j c) h
          (insert-IsAscending k a items (IsAscending-tail (j, b) items h)))
  ]

  sorted-IsAscending : (items : List (String × A)) → IsAscending (sorted items)
  unfolding sorted
  sorted-IsAscending [] = tt
  sorted-IsAscending ((k, a) ∷ items) =
      insert-IsAscending k a (sorted items) (sorted-IsAscending items)

module _ {A B : Type 0} (g : A → B) where
  abbrev on_values : List (String × A) → List (String × B)
  on_values = map (λ p. (p.0, g p.1))

  on_values-IsAscending :
      (items : List (String × A)) → IsAscending items → IsAscending (on_values items)
  on_values-IsAscending [] h = tt
  on_values-IsAscending (p ∷ []) h = tt
  on_values-IsAscending (p ∷ q ∷ items) h = (h.0, on_values-IsAscending (q ∷ items) h.1)

  abbrev pub on_option : Option A → Option B
  on_option none = none
  on_option (some a) = some (g a)

  lookup-on_values :
      (name : String) (items : List (String × A))
      → lookup name (on_values items) ≡ on_option (lookup name items)
  unfolding lookup
  lookup-on_values name [] = refl
  lookup-on_values name ((key, a) ∷ items) = ground (arith, lookup-on_values name items)

-- What is kept of an upstream slot: an iterable counts by its members, and by these alone.
abbrev pub IsKept : {U : Type 0} → Dependency U → Option (Upstream U) → Type 0
IsKept Dependency.absent kept = kept ≡ some Upstream.absent
IsKept (Dependency.single u) kept = kept ≡ some (Upstream.single u)
IsKept {U = U} (Dependency.several us) kept =
    (s : FrozenSet U) × (kept ≡ some (Upstream.set s))
    × ((test : U → Bool) → any_member test s ≡ any test us)
    × ((vs : List U) → SameMembers us vs → s ≡ frozenset vs)

normalized-IsKept : {U : Type 0} (d : Dependency U) → IsKept d (some (normalized d))
unfolding normalized frozenset any_member
normalized-IsKept Dependency.absent = refl
normalized-IsKept (Dependency.single u) = refl
normalized-IsKept (Dependency.several us) =
    (frozenset us, refl, λ test. refl, λ vs same. Quot.sound same)

abbrev pub SlotKept : {U : Type 0} → Option (Dependency U) → Option (Upstream U) → Type 0
SlotKept none kept = kept ≡ none
SlotKept (some d) kept = IsKept d kept

slot-kept : {U : Type 0} (slot : Option (Dependency U)) → SlotKept slot (on_option normalized slot)
slot-kept none = refl
slot-kept (some d) = normalized-IsKept d

module _ {F U : Type 0} where
  -- An identity that is built: what it gives back, and its layout.
  pub record IsIdentity (py : Python F) (params : List (String × Value F))
      (upstream : List (String × Dependency U)) (spec : NodeSpec F U) : Type 0 where
    pub given : (name : String) → param spec name ≡ on_option (canonical py) (lookup name params)
    pub kept : (role : String) → SlotKept (lookup role upstream) (dependency spec role)
    pub params_sorted : IsAscending spec.params
    pub upstream_sorted : IsAscending spec.upstream

  -- A node identity is refused with a `ValueError` if its side is neither missing nor long or
  -- short; otherwise it gives back, under each name, the canonical form of the parameter that the
  -- first item with that name has, or none, and under each role the upstream slot: a missing or
  -- single one as it is, and an iterable as a frozen set that has a member passing a test exactly
  -- if the iterable has one, and that is the frozen set of any list with the same members; the
  -- names of its parameters and its roles follow each other in the order of texts.
  pub param-node_spec :
      (py : Python F) (kind : String) (version : ℕ) (params : List (String × Value F))
      (upstream : List (String × Dependency U)) (side : Option String)
      → ((bad_side side ≡ true)
          × (node_spec py kind version params upstream side ≡ err (Error.raised "ValueError")))
        ⊎ ((bad_side side ≡ false)
            × ((spec : NodeSpec F U) × (node_spec py kind version params upstream side ≡ ok spec)
                × IsIdentity py params upstream spec))
  unfolding node_spec
  param-node_spec py kind version params upstream side = elim (Bool-cases (bad_side side)) [
    | inl bad ↦ inl (bad, rw bad refl)
    | inr good ↦ inr (
      good,
      (
        record {
          kind = kind;
          version = version;
          params = map (λ p. (p.0, canonical py p.1)) (sorted params);
          upstream = map (λ p. (p.0, normalized p.1)) (sorted upstream);
          side = side;
        },
        rw good refl,
        record {
          given = λ name.
              lookup-on_values (canonical py) name (sorted params)
              ∙ ap (on_option (canonical py)) (lookup-sorted name params);
          kept = λ role.
              subst (SlotKept (lookup role upstream))
                (sym (
                  lookup-on_values normalized role (sorted upstream)
                  ∙ ap (on_option normalized) (lookup-sorted role upstream)))
                (slot-kept (lookup role upstream));
          params_sorted =
              on_values-IsAscending (canonical py) (sorted params) (sorted-IsAscending params);
          upstream_sorted =
              on_values-IsAscending normalized (sorted upstream) (sorted-IsAscending upstream);
        },
      ),
    )
  ]
