-- ===== src/Composite/Valid.antt =====
-- What the parser of the structure lets through, and that such a composite is evaluated.
use Prim.Native.String.{String}
use text.Mathlib.Text.{◌==◌ as str_eq}
use strategy_engine.Prelude.{
  ℕ, ◌≤◌, ◌≡◌, refl, ap₂, arith, leb, Bool, true, false, not, ◌&&◌, Bool-cases, Option, none, some,
  List, [], ◌∷◌, map, all, All, length, inl, inr, subst,
}
use strategy_engine.Prelude.Int.{ℤ, pos, negsuc}
use strategy_engine.Result.{Result, ok, err, each, Ensures, Ensures->>=, Ensures-raise_if}
use strategy_engine.Composite.Spec.{
  Child, CompositePath, RawPath, mem_of, all_distinct, identifier, is_empty, has_separator,
  references, optional_references, in_count, counted, at_least_of, nothing_declared, parse_path,
  all_refs, structure,
}

-- Nothing is said of the value.
anything {ℓ} : {A : Type ℓ} (m : Result A) → Ensures (λ x. Unit {0}) m
anything (ok a) = tt
anything (err e) = tt

was_true : {b : Bool} → not b ≡ false → b ≡ true
was_true h = ground arith

-- A path declares something, and its count is one of its children's numbers.
abbrev pub CountOk : Option (ℕ × List String) → Type 0
CountOk none = Unit {0}
CountOk (some (k, of)) = (1 ≤ k) × (k ≤ length of) × (all_distinct of ≡ true)

pub record IsPath (p : CompositePath) : Type 0 where
  pub declares : nothing_declared p.require p.at_least ≡ false
  pub count_ok : CountOk p.at_least
  pub require_distinct : all_distinct p.require ≡ true

abbrev AnyString : String → Type 0
AnyString x = Unit {0}

references-Ensures :
    (items : List String) → Ensures (λ refs. all_distinct refs ≡ true) (references items)
unfolding references
references-Ensures items = Ensures-raise_if _ (is_empty items) _ _ (λ _.
    Ensures->>= (λ x. Unit {0}) _ (each identifier items) _ (anything (each identifier items))
      (λ refs _. Ensures-raise_if _ (not (all_distinct refs)) _ _ (λ d. ground arith)))

at_least_of-Ensures : (a : Option (ℤ × List String)) → Ensures CountOk (at_least_of a)
unfolding at_least_of
at_least_of-Ensures none = tt
at_least_of-Ensures (some (k, of)) =
    Ensures->>= _ _ (references of) _ (references-Ensures of) (λ refs d. counted-ok k refs d)
  where
    counted-ok :
        (k : ℤ) (refs : List String)
        → all_distinct refs ≡ true
        → Ensures CountOk (counted (in_count k refs) refs)
    counted-ok (negsuc k) refs d = tt
    counted-ok (pos k) refs d = elim (Bool-cases (leb 1 k && leb k (length refs))) [
      | inl e ↦ rw e (ground arith)
      | inr e ↦ rw e tt
    ]

optional-Ensures :
    (items : Option (List String))
    → Ensures (λ refs. all_distinct refs ≡ true) (optional_references items)
optional-Ensures none = refl
optional-Ensures (some items) = references-Ensures items

parse_path-Ensures : (raw : RawPath) → Ensures IsPath (parse_path raw)
unfolding parse_path
parse_path-Ensures raw =
    Ensures->>= (λ x. Unit {0}) _ (identifier raw.path_id) _ (anything (identifier raw.path_id))
      (λ path_id _.
        Ensures->>= _ _ (optional_references raw.require) _ (optional-Ensures raw.require)
          (λ require d.
            Ensures->>= CountOk _ (at_least_of raw.at_least) _ (at_least_of-Ensures raw.at_least)
              (λ a c.
                Ensures-raise_if _ (nothing_declared require a) _ _
                  (λ n. record { declares = n; count_ok = c; require_distinct = d }))))

each-Ensures {ℓ κ μ} :
    {A : Type ℓ} {B : Type κ} (P : B → Type μ) (g : A → Result B)
    → ((x : A) → Ensures P (g x))
    → (xs : List A) → Ensures (All P) (each g xs)
each-Ensures P g h [] = tt
each-Ensures P g h (x ∷ xs) =
    Ensures->>= P (All P) (g x) _ (h x)
      (λ y p. Ensures->>= (All P) (All P) (each g xs) _ (each-Ensures P g h xs) (λ ys ps. (p, ps)))

identifier-same : (x : String) → Ensures (λ y. y ≡ x) (identifier x)
unfolding identifier
identifier-same x =
    Ensures-raise_if _ (str_eq x "") _ _ (λ _. Ensures-raise_if _ (has_separator x) _ _ (λ _. refl))

identifiers-same : (xs : List String) → Ensures (λ ys. ys ≡ xs) (each identifier xs)
identifiers-same [] = refl
identifiers-same (x ∷ xs) = Ensures->>= _ _ (identifier x) _ (identifier-same x) (λ y p.
    Ensures->>= _ _ (each identifier xs) _ (identifiers-same xs) (λ ys ps. ap₂ (λ a b. a ∷ b) p ps))

-- A composite as the parser lets it through.
pub record IsComposite {ℓ} {B : Type ℓ} (children : List (Child B)) (paths : List CompositePath)
    : Type 0 where
  pub ids_distinct : all_distinct (map (λ c. c.child_id) children) ≡ true
  pub paths_distinct : all_distinct (map (λ p. p.path_id) paths) ≡ true
  pub paths_valid : All IsPath paths
  pub refs_known : all (λ ref. mem_of ref (map (λ c. c.child_id) children)) (all_refs paths) ≡ true
  pub children_used : all (λ id. mem_of id (all_refs paths)) (map (λ c. c.child_id) children) ≡ true

-- Whatever the parser of a composite accepts has the children it was given, with distinct ids, and
-- paths with distinct ids of which each declares a child, has distinct references and a count from
-- one to the number of its terms; every path references children of the composite, and every child
-- is referenced. Anything else is an error.
pub structure-IsComposite {ℓ} :
    {B : Type ℓ} (children : List (Child B)) (raw_paths : List RawPath)
    → Ensures (λ out. (out.0 ≡ children) × IsComposite out.0 out.1) (structure children raw_paths)
unfolding structure
structure-IsComposite children raw_paths =
    let child_ids = map (λ c. c.child_id) children in
    Ensures-raise_if _ (is_empty children) _ _ (λ _.
      Ensures->>= _ _ (each identifier child_ids) _ (identifiers-same child_ids) (λ ids same.
        Ensures-raise_if _ (not (all_distinct ids)) _ _ (λ d1.
          Ensures-raise_if _ (is_empty raw_paths) _ _ (λ _.
            Ensures->>= (All IsPath) _ (each parse_path raw_paths) _
              (each-Ensures IsPath parse_path parse_path-Ensures raw_paths)
              (λ paths valid.
                Ensures-raise_if _ (not (all_distinct (map (λ p. p.path_id) paths))) _ _ (λ d2.
                  Ensures-raise_if _ (not (all (λ ref. mem_of ref ids) (all_refs paths))) _ _
                    (λ known.
                      Ensures-raise_if _ (not (all (λ id. mem_of id (all_refs paths)) ids)) _ _
                        (λ used. (
                          refl,
                          record {
                            ids_distinct = subst (λ xs. all_distinct xs ≡ true) same (was_true d1);
                            paths_distinct = was_true d2;
                            paths_valid = valid;
                            refs_known =
                                subst (λ xs. all (λ ref. mem_of ref xs) (all_refs paths) ≡ true)
                                  same (was_true known);
                            children_used =
                                subst (λ xs. all (λ id. mem_of id (all_refs paths)) xs ≡ true) same
                                  (was_true used);
                          },
                        )))))))))
