-- ===== src/Composite/Core.antt =====
-- A composite of the parser is evaluated, and the setup agrees with its meaning on every bar.
use Prim.Native.String.{String}
use text.Mathlib.Text.{◌==◌ as str_eq}
use text.Mathlib.TextEquality.{eq_iff}
use strategy_engine.Prelude.{
  ℕ, ◌≡◌, refl, sym, ◌∙◌, arith, leb, true, ◌&&◌, Bool-cases, Option, none, some, List, [], ◌∷◌,
  ◌++◌, map, all, All, and_left, and_right, inl, inr, get_elem?,
}
use strategy_engine.Result.{ok, each}
use strategy_engine.Composite.Spec.{Child, CompositePath, mem_of, counted_refs, refs_of, all_refs}
use strategy_engine.Composite.Meaning.{count_true, holds, first_path}
use strategy_engine.Composite.Fold.{Mask, lookup, is_some, mask_at}
use strategy_engine.Composite.Setup.{
  arrays_of, array, all_at, count_at, PathCore, path_core, winning, any_path, CompositeCore,
  composite_core, later,
}
use strategy_engine.Composite.Valid.{IsComposite}

str_eq_sym : (x y : String) → str_eq x y ≡ true → str_eq y x ≡ true
str_eq_sym x y h = (eq_iff y x).1 (sym ((eq_iff x y).0 h))

abbrev Present : List (String × Mask) → String → Type 0
Present arrays ref = is_some (lookup ref arrays) ≡ true

Present-put :
    (ref id : String) (m : Mask) (found : List (String × Mask))
    → Present found ref
    → Present ((id, m) ∷ found) ref
Present-put ref id m found h = elim (Bool-cases (str_eq id ref)) [ inl e ↦ rw e | inr e ↦ rw e h ]

Present-arrays_of :
    (ref : String) (cs : List (Child Mask)) (found : List (String × Mask))
    → Present found ref
    → Present (arrays_of cs found) ref
Present-arrays_of ref [] found h = h
Present-arrays_of ref (c ∷ cs) found h =
    Present-arrays_of ref cs ((c.child_id, c.body) ∷ found)
      (Present-put ref c.child_id c.body found h)

mem_of-Present :
    (ref : String) (cs : List (Child Mask)) (found : List (String × Mask))
    → mem_of ref (map (λ c. c.child_id) cs) ≡ true
    → Present (arrays_of cs found) ref
mem_of-Present ref [] found h = cc
mem_of-Present ref (c ∷ cs) found h = elim (Bool-cases (str_eq ref c.child_id)) [
  | inl e ↦
      Present-arrays_of ref cs ((c.child_id, c.body) ∷ found) (rw (str_eq_sym ref c.child_id e))
  | inr e ↦ mem_of-Present ref cs ((c.child_id, c.body) ∷ found) (ground (arith, e))
]

-- The path that an index names.
abbrev pub pick : List CompositePath → Option ℕ → Option CompositePath
pick paths none = none
pick paths (some n) = get_elem? paths n

pick-later :
    (p : CompositePath) (ps : List CompositePath) (n : Option ℕ)
    → pick (p ∷ ps) (later n) ≡ pick ps n
pick-later p ps none = refl
pick-later p ps (some n) = refl

module _ (arrays : List (String × Mask)) where
  -- The arrays of the children that are there.
  arrays_lem :
      (refs : List String)
      → All (Present arrays) refs
      → (ms : List Mask) × (each (array arrays) refs ≡ ok ms)
        × ((i : ℕ) → all_at ms i ≡ all (mask_at arrays i) refs)
        × ((i : ℕ) → count_at ms i ≡ count_true (mask_at arrays i) refs)
  arrays_lem [] h = ([], refl, λ i. refl, λ i. refl)
  arrays_lem (ref ∷ refs) h = here (lookup ref arrays) refl h.0 (arrays_lem refs h.1)
    where
      here :
          (o : Option Mask)
          → lookup ref arrays ≡ o
          → is_some o ≡ true
          → ((ms : List Mask) × (each (array arrays) refs ≡ ok ms)
              × ((i : ℕ) → all_at ms i ≡ all (mask_at arrays i) refs)
              × ((i : ℕ) → count_at ms i ≡ count_true (mask_at arrays i) refs))
          → (ms : List Mask) × (each (array arrays) (ref ∷ refs) ≡ ok ms)
            × ((i : ℕ) → all_at ms i ≡ all (mask_at arrays i) (ref ∷ refs))
            × ((i : ℕ) → count_at ms i ≡ count_true (mask_at arrays i) (ref ∷ refs))
      here none e p rest = cc
      here (some m) e p rest =
          (m ∷ rest.0, rw (e, rest.1), λ i. rw (e, rest.2 i), λ i. rw (e, rest.3 i))

  path_core_lem :
      (p : CompositePath)
      → All (Present arrays) p.require
      → All (Present arrays) (counted_refs p.at_least)
      → (c : PathCore) × (path_core arrays p ≡ ok c)
        × ((i : ℕ) → c.mask i ≡ holds (mask_at arrays i) p)
  unfolding path_core
  path_core_lem p h k = go p.at_least k
    where
      required :
          (ms : List Mask) × (each (array arrays) p.require ≡ ok ms)
          × ((i : ℕ) → all_at ms i ≡ all (mask_at arrays i) p.require)
          × ((i : ℕ) → count_at ms i ≡ count_true (mask_at arrays i) p.require)
      required = arrays_lem p.require h

      go :
          (a : Option (ℕ × List String))
          → All (Present arrays) (counted_refs a)
          → (c : PathCore) × (path_core arrays (record p { at_least = a }) ≡ ok c)
            × ((i : ℕ) → c.mask i ≡ holds (mask_at arrays i) (record p { at_least = a }))
      go none k = (
        record { mask = all_at required.0; count = none },
        rw (required.1),
        λ i. ground (arith, required.2 i),
      )
      go (some (n, of)) k =
          let counted = arrays_lem of k in
          (
            record {
              mask = λ i. all_at required.0 i && leb n (count_at counted.0 i);
              count = some (count_at counted.0);
            },
            rw (required.1, counted.1),
            λ i. rw (required.2 i, counted.3 i),
          )

  abbrev PresentPath : CompositePath → Type 0
  PresentPath p = All (Present arrays) p.require × All (Present arrays) (counted_refs p.at_least)

  cores_lem :
      (paths : List CompositePath)
      → All PresentPath paths
      → (cores : List PathCore) × (each (path_core arrays) paths ≡ ok cores)
        × ((i : ℕ) → any_path cores i ≡ is_some (first_path (mask_at arrays i) paths))
        × ((i : ℕ) → pick paths (winning cores i) ≡ first_path (mask_at arrays i) paths)
  cores_lem [] h = ([], refl, λ i. refl, λ i. refl)
  cores_lem (p ∷ ps) h =
      let one = path_core_lem p h.0.0 h.0.1 in
      let rest = cores_lem ps h.1 in
      (
        one.0 ∷ rest.0,
        rw (one.1, rest.1),
        λ i. elim (Bool-cases (holds (mask_at arrays i) p)) [
          | inl e ↦ rw (one.2 i, e)
          | inr e ↦ rw (one.2 i, e, rest.2 i)
        ],
        λ i. elim (Bool-cases (holds (mask_at arrays i) p)) [
          | inl e ↦ rw (one.2 i, e)
          | inr e ↦ rw (one.2 i, e) (pick-later p ps (winning rest.0 i) ∙ rest.3 i)
        ],
      )

known-Present :
    (children : List (Child Mask)) (refs : List String)
    → all (λ ref. mem_of ref (map (λ c. c.child_id) children)) refs ≡ true
    → All (Present (arrays_of children [])) refs
known-Present children [] h = tt
known-Present children (ref ∷ refs) h =
    (mem_of-Present ref children [] (and_left _ _ h), known-Present children refs (and_right _ _ h))

All-split {ℓ κ} :
    {A : Type ℓ} (P : A → Type κ) (xs ys : List A) → All P (xs ++ ys) → All P xs × All P ys
All-split P [] ys h = (tt, h)
All-split P (x ∷ xs) ys h = let r = All-split P xs ys h.1 in ((h.0, r.0), r.1)

by_path :
    (P : String → Type 0) (paths : List CompositePath)
    → All P (all_refs paths)
    → All (λ p. All P p.require × All P (counted_refs p.at_least)) paths
by_path P [] h = tt
by_path P (p ∷ ps) h =
    let r = All-split P (refs_of p) (all_refs ps) h in
    (All-split P p.require (counted_refs p.at_least) r.0, by_path P ps r.1)

-- A valid composite setup is evaluated without an error, and on every bar its mask is true exactly
-- if one of its paths holds for the masks of the children, and its winning index names the first
-- path in declared order that holds, or none.
pub composite_core_lem :
    (children : List (Child Mask)) (paths : List CompositePath)
    → IsComposite children paths
    → (core : CompositeCore) × (composite_core children paths ≡ ok core)
      × ((i : ℕ)
          → (core.local i ≡ is_some (first_path (mask_at (arrays_of children []) i) paths))
            × (pick paths (core.winning_index i)
                ≡ first_path (mask_at (arrays_of children []) i) paths))
unfolding composite_core
composite_core_lem children paths h =
    let arrays = arrays_of children [] in
    let r =
      cores_lem arrays paths
        (by_path (Present arrays) paths (known-Present children (all_refs paths) h.refs_known)) in
    (
      record { local = any_path r.0; paths = r.0; winning_index = winning r.0 },
      rw (r.1),
      λ i. (r.2 i, r.3 i),
    )
