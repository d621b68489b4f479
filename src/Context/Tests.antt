-- ===== src/Context/Tests.antt =====
-- A context whose stack is up on bar 0, and down from bar 1 on.
use Prim.Native.String.{String}
use strategy_engine.Prelude.{
  none, ◌≡◌, refl, true, false, Option, some, List, [], ◌∷◌, ◌==◌, if◌then◌else◌,
}
use strategy_engine.Float.Grid.{Grid, grid_float, Grid-IsOrdered, tick}
use strategy_engine.Result.{ok, err, Error, Ensures}
use strategy_engine.Predicate.Evaluate.{Side}
use strategy_engine.Context.Gate.{
  Columns, evaluate_stack, resolve_htf_regime, gate_allowed_regimes, GateRecord, gate_record,
}
use strategy_engine.Context.Bundle.{
  Provider, build_context_bundle, ReadsAs, build_context_bundle-ReadsAs,
}
use strategy_engine.Context.Agree.{contexts}

abbrev columns : Columns Grid
columns = record {
  fast = some (λ i. if i == 0 then some (tick 9) else some (tick 3));
  anchor = some (λ i. some (tick 6));
  slow = some (λ i. if i == 0 then some (tick 3) else some (tick 9));
}

abbrev declared : List (String × Columns Grid)
declared = ("htf", columns) ∷ []

abbrev aligned_only : Option (List String)
aligned_only = some ("aligned" ∷ [])

gated_bars :
    (r : GateRecord) × (gate_record
        (contexts declared)
        "htf"
        "htf_regime_gate"
        aligned_only
        Side.long
      ≡ ok r)
    × (r.allowed 0 ≡ true)
    × (r.allowed 1 ≡ false)
unfolding gate_record gate_allowed_regimes evaluate_stack resolve_htf_regime
gated_bars = (_, refl, refl, refl)

unknown :
    gate_record (contexts declared) "ltf" "htf_regime_gate" aligned_only Side.long
    ≡ err (Error.invalid_request "unknown context_ref")
unfolding gate_record gate_allowed_regimes
unknown = refl

abbrev providers : List (Provider Grid)
providers =
    record { context_ref = "htf"; component_id = "htf_context"; columns = some columns } ∷ []

abbrev no_columns : Option (Columns Grid)
no_columns = none

unplanned :
    build_context_bundle
      (record { context_ref = "htf"; component_id = "htf_context"; columns = no_columns } ∷ [])
    ≡ err (Error.invalid_request "context provider has no feature-plan mapping")
unfolding build_context_bundle
unplanned = refl

build_context_bundle-ReadsAs_example :
    Ensures
      (λ bundle.
        Ensures
          (ReadsAs bundle "htf" Side.long)
          (gate_record bundle "htf" "htf_regime_gate" aligned_only Side.long))
      (build_context_bundle providers)
build_context_bundle-ReadsAs_example =
    build_context_bundle-ReadsAs Grid-IsOrdered providers "htf" "htf_regime_gate" aligned_only
      Side.long
