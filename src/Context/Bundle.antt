-- ===== src/Context/Bundle.antt =====
-- `build_context_bundle` (src/strategy_engine/strategies/ema_pullback/contexts.py), and the gates over
-- its contexts.
use Prim.Native.String.{String}
use text.Mathlib.Text.{◌==◌ as str_eq}
use strategy_engine.Prelude.{ℕ, ◌≡◌, refl, ap, ◌∙◌, subst, not, Option, none, some, List, [], ◌∷◌}
use strategy_engine.Float.{Float, IsOrdered}
use strategy_engine.Result.{
  Result, ok, err, Error, ◌>>◌, raise_if, each, Ensures, Ensures->>=, Ensures-raise_if,
  Ensures-weaken,
}
use strategy_engine.Predicate.Evaluate.{Side, state_mask}
use strategy_engine.Context.Gate.{
  Columns, Context, evaluate_stack, find_context, GateRecord, gate_record,
}
use strategy_engine.Context.Agree.{contexts, gate_record-state_mask}

-- A declared provider, with the columns that the plan has for it; `component_id` is empty where the
-- mapping has none.
pub record Provider (F : Type 0) : Type 0 where
  pub context_ref : String
  pub component_id : String
  pub columns : Option (Columns F)

module _ {F : Type 0} ⦃f : Float F⦄ where
  abbrev planned_context : String → Option (Columns F) → Result (String × Context)
  planned_context ref none =
      err (Error.invalid_request "context provider has no feature-plan mapping")
  planned_context ref (some columns) = ok (ref, evaluate_stack columns)

  abbrev context_of : Provider F → Result (String × Context)
  context_of p =
      raise_if (not (str_eq p.component_id "htf_context"))
        (Error.invalid_request "unsupported context provider")
      >> planned_context p.context_ref p.columns

  unfoldable pub build_context_bundle : List (Provider F) → Result (List (String × Context))
  build_context_bundle providers = each context_of providers

module _ (F : Type 0) ⦃f : Float F⦄ where
  abbrev Evaluated : String × Context → Type 0
  Evaluated c = (columns : Columns F) × ((c.0, evaluate_stack columns) ≡ c)

  abbrev IsEvaluated : List (String × Context) → Type 0
  IsEvaluated bundle = (declared : List (String × Columns F)) × (contexts declared ≡ bundle)

module _ {F : Type 0} ⦃f : Float F⦄ where
  planned_context-Evaluated :
      (ref : String) (o : Option (Columns F)) → Ensures (Evaluated F) (planned_context ref o)
  planned_context-Evaluated ref none = tt
  planned_context-Evaluated ref (some columns) = (columns, refl)

  build_context_bundle-IsEvaluated :
      (providers : List (Provider F)) → Ensures (IsEvaluated F) (build_context_bundle providers)
  unfolding build_context_bundle
  build_context_bundle-IsEvaluated [] = ([], refl)
  build_context_bundle-IsEvaluated (p ∷ ps) =
      Ensures->>= (Evaluated F) (IsEvaluated F) (context_of p) _
        (Ensures-raise_if (Evaluated F) (not (str_eq p.component_id "htf_context")) _ _
          λ known. planned_context-Evaluated p.context_ref p.columns)
        λ c (columns, is).
          Ensures->>= (IsEvaluated F) (IsEvaluated F) (each context_of ps) _
            (build_context_bundle-IsEvaluated ps)
            λ cs (declared, are). (
              (c.0, columns) ∷ declared,
              ap (λ (x : String × Context). x ∷ contexts declared) is
                  ∙ ap (λ (xs : List (String × Context)). c ∷ xs) are,
            )

-- The gate reads a context of the bundle, as the state predicate reads it.
abbrev pub ReadsAs : List (String × Context) → String → Side → GateRecord → Type 0
ReadsAs bundle ref side r =
    (c : Context) × (find_context ref bundle ≡ some c)
    × ((i : ℕ) → r.allowed i ≡ state_mask c.output r.allowed_regimes side i)

module _ {F : Type 0} ⦃f : Float F⦄ (laws : IsOrdered F) where
  -- For comparisons with the laws of `IsOrdered` and any declared providers: unless the bundle of
  -- their contexts or the record of a gate is an error, the context that the gate names is one of
  -- the bundle, and the bars that the gate allows are those of the state predicate over that
  -- context, the same regimes and the same side.
  pub build_context_bundle-ReadsAs :
      (providers : List (Provider F)) (context_ref policy_id : String)
      (raw_allowed : Option (List String)) (side : Side)
      → Ensures
          (λ bundle.
            Ensures
              (ReadsAs bundle context_ref side)
              (gate_record bundle context_ref policy_id raw_allowed side))
          (build_context_bundle providers)
  build_context_bundle-ReadsAs providers ref policy_id raw_allowed side =
      Ensures-weaken (IsEvaluated F) _ (build_context_bundle providers)
        (build_context_bundle-IsEvaluated providers)
        λ bundle (declared, is).
          subst
            (λ (x : List (String × Context)).
              Ensures (ReadsAs x ref side) (gate_record x ref policy_id raw_allowed side))
            is (gate_record-state_mask laws declared ref policy_id raw_allowed side)
