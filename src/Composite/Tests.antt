-- ===== src/Composite/Tests.antt =====
-- A composite of three children and two paths, as a phase condition and as a setup.
use Prim.Native.String.{String}
use text.Mathlib.Text.{◌==◌ as str_eq}
use strategy_engine.Prelude.{
  ℕ, ◌≡◌, refl, arith, leb, if◌then◌else◌, Bool, true, false, none, some, List, [], ◌∷◌, ◌==◌, ltb,
}
use strategy_engine.Prelude.Int.{pos}
use strategy_engine.Result.{Result, ok, Ensures}
use strategy_engine.Composite.Spec.{
  Child, CompositePath, RawPath, identifier, references, at_least_of, parse_path, structure,
}
use strategy_engine.Composite.Meaning.{first_path}
use strategy_engine.Composite.Fold.{
  Mask, PhaseChild, is_some, mask_at, fold_phase_paths, value, composite_met,
}
use strategy_engine.Composite.Naive.{report, composite_met_lem}
use strategy_engine.Composite.Setup.{arrays_of, CompositeCore, composite_core}
use strategy_engine.Composite.Valid.{IsComposite, structure-IsComposite}
use strategy_engine.Composite.Core.{pick, composite_core_lem}

abbrev raw_paths : List RawPath
raw_paths =
    record { path_id = "both"; require = some ("a" ∷ "b" ∷ []); at_least = none }
    ∷ record { path_id = "two"; require = none; at_least = some (pos 2, "a" ∷ "b" ∷ "c" ∷ []) }
    ∷ []

abbrev paths : List CompositePath
paths =
    record { path_id = "both"; require = "a" ∷ "b" ∷ []; at_least = none }
    ∷ record { path_id = "two"; require = []; at_least = some (2, "a" ∷ "b" ∷ "c" ∷ []) }
    ∷ []

abbrev masks : List (Child Mask)
masks =
    record { child_id = "a"; body = λ i. true }
    ∷ record { child_id = "b"; body = λ i. i == 3 }
    ∷ record { child_id = "c"; body = λ i. ltb 1 i }
    ∷ []

abbrev phase_children : List (Child (PhaseChild ℕ ℕ))
phase_children =
    record { child_id = "a"; body = PhaseChild.market (λ i. true) }
    ∷ record { child_id = "b"; body = PhaseChild.trade 3 }
    ∷ record { child_id = "c"; body = PhaseChild.entry_change 7 }
    ∷ []

accepted : structure masks raw_paths ≡ ok (masks, paths)
unfolding structure parse_path references identifier at_least_of
accepted = refl

structure-IsComposite_example :
    Ensures (λ out. (out.0 ≡ masks) × IsComposite out.0 out.1) (structure masks raw_paths)
structure-IsComposite_example = structure-IsComposite masks raw_paths

masks-IsComposite : IsComposite masks paths
masks-IsComposite = record {
  ids_distinct = refl;
  paths_distinct = refl;
  paths_valid = (
    record { declares = refl; count_ok = tt; require_distinct = refl },
    (
      record {
        declares = refl;
        count_ok = (omega arith, omega arith, refl);
        require_distinct = refl;
      },
      tt,
    ),
  );
  refs_known = refl;
  children_used = refl;
}

composite_core-lem_example :
    (core : CompositeCore) × (composite_core masks paths ≡ ok core)
    × ((i : ℕ)
        → (core.local i ≡ is_some (first_path (mask_at (arrays_of masks []) i) paths))
          × (pick paths (core.winning_index i) ≡ first_path (mask_at (arrays_of masks []) i) paths))
composite_core-lem_example = composite_core_lem masks paths masks-IsComposite

-- The trade child is met, the change since the entry is not.
abbrev values : String → Bool
values ref = leb (if str_eq ref "c" then 1 else 0) 0

abbrev trade_met : ℕ → Result Bool
trade_met n = ok true

abbrev change_met : ℕ → Bool
change_met n = false

composite_met-lem_example :
    composite_met (fold_phase_paths phase_children paths) 5 trade_met change_met
    ≡ ok (
        report
          (fold_phase_paths phase_children paths)
          5
          trade_met
          change_met
          values
          (first_path values paths))
unfolding fold_phase_paths value
composite_met-lem_example =
    composite_met_lem phase_children paths 5 trade_met change_met values
      (((refl, (refl, tt)), tt), ((tt, (refl, (refl, (refl, tt)))), tt))
