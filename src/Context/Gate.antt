-- ===== src/Context/Gate.antt =====
-- `_evaluate_stack` of src/strategy_engine/strategies/ema_pullback/contexts.py, and
-- `resolve_htf_regime`, `_raw_state`, `_gate_allowed_regimes` and `_gate_record` of
-- context_consumption.py beside it. A planned column is the series of its numbers, `none` where a
-- value is missing; the labels of a record are left out.
use Prim.Native.String.{String}
use text.Mathlib.Text.{◌==◌ as str_eq}
use strategy_engine.Prelude.{
  ℕ, Bool, true, false, not, ◌&&◌, Option, none, some, List, [], ◌∷◌, if◌then◌else◌,
}
use strategy_engine.Float.{Float}
use strategy_engine.Result.{Result, ok, err, Error, ◌>>=◌, ◌>>◌, raise_if, each}
use strategy_engine.Predicate.Evaluate.{Side, Mask, Regime, ContextOutput, reads_regime}

pub data RawState : Type 0 where
  up down neutral : RawState

-- The planned columns of a context; one that is not planned is `none`.
pub record Columns (F : Type 0) : Type 0 where
  pub fast : Option (ℕ → Option F)
  pub anchor : Option (ℕ → Option F)
  pub slow : Option (ℕ → Option F)

pub record Context : Type 0 where
  pub state : ℕ → RawState
  pub output : ContextOutput

abbrev pub state_of : Bool → Bool → RawState
state_of true is_down = RawState.up
state_of false true = RawState.down
state_of false false = RawState.neutral

module _ {F : Type 0} ⦃f : Float F⦄ where
  abbrev pub is_up : Option F → Option F → Option F → Bool
  is_up (some fast) (some anchor) (some slow) = f.lt anchor fast && f.lt slow anchor
  is_up _ _ _ = false

  abbrev pub is_down : Option F → Option F → Option F → Bool
  is_down (some fast) (some anchor) (some slow) = f.lt fast anchor && f.lt anchor slow
  is_down _ _ _ = false

  abbrev pub stack_of :
      Option (ℕ → Option F) → Option (ℕ → Option F) → Option (ℕ → Option F) → Context
  stack_of (some fast) (some anchor) (some slow) = record {
    state =
        λ i. state_of (is_up (fast i) (anchor i) (slow i)) (is_down (fast i) (anchor i) (slow i));
    output = record {
      up = λ i. is_up (fast i) (anchor i) (slow i);
      down = λ i. is_down (fast i) (anchor i) (slow i);
      neutral = λ i.
          not (is_up (fast i) (anchor i) (slow i)) && not (is_down (fast i) (anchor i) (slow i));
    };
  }
  stack_of _ _ _ = record {
    state = λ i. RawState.neutral;
    output = record { up = λ i. false; down = λ i. false; neutral = λ i. true };
  }

  unfoldable pub evaluate_stack : Columns F → Context
  evaluate_stack c = stack_of c.fast c.anchor c.slow

unfoldable pub resolve_htf_regime : RawState → Side → Regime
resolve_htf_regime RawState.up Side.long = Regime.aligned
resolve_htf_regime RawState.down Side.long = Regime.countertrend
resolve_htf_regime RawState.up Side.short = Regime.countertrend
resolve_htf_regime RawState.down Side.short = Regime.aligned
resolve_htf_regime RawState.neutral side = Regime.neutral

abbrev regime_of : String → Option Regime
regime_of name =
    if str_eq name "aligned"
    then some Regime.aligned
    else (if str_eq name "countertrend"
        then some Regime.countertrend
        else (if str_eq name "neutral" then some Regime.neutral else none))

abbrev valid : Option Regime → Result Regime
valid (some r) = ok r
valid none = err (Error.invalid_request "allowed_regimes contains invalid values")

-- `allowed_regimes` is `none` where it is not a list.
abbrev regimes_of : Option (List String) → Result (List Regime)
regimes_of (some (x ∷ xs)) = each (λ name. valid (regime_of name)) (x ∷ xs)
regimes_of _ = err (Error.invalid_request "allowed_regimes must be a non-empty list")

unfoldable pub gate_allowed_regimes :
    (policy_id : String) → Option (List String) → Result (List Regime)
gate_allowed_regimes policy_id raw_allowed =
    raise_if (not (str_eq policy_id "htf_regime_gate"))
      (Error.invalid_request "unsupported context consumption policy")
    >> regimes_of raw_allowed

-- The context of a reference, in the order of the bundle.
abbrev pub find_context : String → List (String × Context) → Option Context
find_context ref [] = none
find_context ref ((r, c) ∷ cs) =
    let rest = find_context ref cs in if str_eq r ref then some c else rest

abbrev pub raw_state : Option Context → Result (ℕ → RawState)
raw_state none = err (Error.invalid_request "unknown context_ref")
raw_state (some c) = ok c.state

pub record GateRecord : Type 0 where
  pub raw_state : ℕ → RawState
  pub resolved_regime : ℕ → Regime
  pub allowed : Mask
  pub allowed_regimes : List Regime

unfoldable pub gate_record :
    List (String × Context)
    → (context_ref policy_id : String) → Option (List String)
    → Side
    → Result GateRecord
gate_record bundle context_ref policy_id raw_allowed side =
    gate_allowed_regimes policy_id raw_allowed >>= λ regimes.
    raw_state (find_context context_ref bundle) >>= λ raw. ok (record {
      raw_state = raw;
      resolved_regime = λ i. resolve_htf_regime (raw i) side;
      allowed = λ i. reads_regime regimes (resolve_htf_regime (raw i) side);
      allowed_regimes = regimes;
    })
