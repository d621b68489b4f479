-- ===== src/Entry/Gates.antt =====
-- The context gates of blockers and setups: `_gate_declarations` and
-- `build_context_consumption_evidence` (src/strategy_engine/strategies/ema_pullback/context_consumption.py),
-- and `_gate_for` and `_apply_gate` of direction_blockers.py and setups.py beside it. A declared item
-- arrives with the texts of its mapping.
use Prim.Native.String.{String}
use text.Mathlib.Text.{◌==◌ as str_eq}
use strategy_engine.Prelude.{
  ℕ, Bool, true, false, not, ◌&&◌, Option, none, some, List, [], ◌∷◌, ◌++◌, any, if◌then◌else◌,
}
use strategy_engine.Result.{Result, ok, Error, ◌>>=◌, ◌>>◌, raise_if, each}
use strategy_engine.Trade.{Side}
use strategy_engine.Predicate.Evaluate.{Regime}
use strategy_engine.Context.Gate.{
  RawState, Context, gate_record, find_context, raw_state, resolve_htf_regime,
}
use strategy_engine.Entry.Masks.{Mask, and_pair}

-- `(context_ref, policy_id, params)`; `allowed_regimes` is `none` where it is not a list.
pub record Consumption : Type 0 where
  pub context_ref : String
  pub policy_id : String
  pub allowed_regimes : Option (List String)

pub record Item (A : Type 0) : Type 0 where
  pub component_id : String
  pub instance_id : Option String
  pub consumption : Option Consumption
  pub body : A

pub data Role : Type 0 where
  blocker setup exit_policy : Role

abbrev pub same_role : Role → Role → Bool
same_role Role.blocker Role.blocker = true
same_role Role.setup Role.setup = true
same_role Role.exit_policy Role.exit_policy = true
same_role _ _ = false

abbrev pub same_side : Side → Side → Bool
same_side Side.long Side.long = true
same_side Side.short Side.short = true
same_side _ _ = false

-- What `_gate_declarations` yields.
pub record Declaration : Type 0 where
  pub role : Role
  pub instance_id : Option String
  pub consumption : Consumption
  pub side : Side

-- `ContextConsumptionRecord`, without the labels that no gate reads.
pub record ConsumptionRecord : Type 0 where
  pub role : Role
  pub instance_id : Option String
  pub side : Option Side
  pub allowed : Option Mask
  pub profile_long : Option (ℕ → Regime)
  pub profile_short : Option (ℕ → Regime)

abbrev pub declare : Role → Option String → Option Consumption → List Side → List Declaration
declare role id none sides = []
declare role id (some c) [] = []
declare role id (some c) (side ∷ sides) =
    record { role = role; instance_id = id; consumption = c; side = side }
    ∷ declare role id (some c) sides

module _ {A : Type 0} where
  -- The id that the uniqueness check reads, and the one that the evaluation falls back from.
  abbrev pub declared_id : Item A → String
  declared_id item = elim (item.instance_id) [ none ↦ "" | some id ↦ id ]

  abbrev pub instance_of : Item A → String
  instance_of item = elim (item.instance_id) [ none ↦ item.component_id | some id ↦ id ]

  unfoldable pub gate_declarations : Role → List (Item A) → List Side → List Declaration
  gate_declarations role [] sides = []
  gate_declarations role (item ∷ items) sides =
      declare role item.instance_id item.consumption sides ++ gate_declarations role items sides

abbrev pub consumption_record : List (String × Context) → Declaration → Result ConsumptionRecord
consumption_record bundle d =
    gate_record bundle d.consumption.context_ref d.consumption.policy_id
      d.consumption.allowed_regimes d.side
    >>= λ r. ok (record {
      role = d.role;
      instance_id = d.instance_id;
      side = some d.side;
      allowed = some (r.allowed);
      profile_long = none;
      profile_short = none;
    })

-- The regimes of an exit profile, neutral for a side that is not traded.
abbrev profile_of : Bool → Side → (ℕ → RawState) → ℕ → Regime
profile_of traded side raw i = if traded then resolve_htf_regime (raw i) side else Regime.neutral

abbrev pub exit_record :
    List (String × Context) → List Side → Option (String × String) → Result (List ConsumptionRecord)
exit_record bundle sides none = ok []
exit_record bundle sides (some (context_ref, policy_id)) =
    raise_if (not (str_eq policy_id "exit_profile_by_htf_state"))
      (Error.invalid_request "unsupported exit context policy")
    >> (raw_state (find_context context_ref bundle) >>= λ raw. ok (
        record {
          role = Role.exit_policy;
          instance_id = none;
          side = none;
          allowed = none;
          profile_long = some (profile_of (any (same_side Side.long) sides) Side.long raw);
          profile_short = some (profile_of (any (same_side Side.short) sides) Side.short raw);
        }
        ∷ []))

module _ {A B : Type 0} where
  -- `exit_consumption` is the context reference and the policy of the exit profiles.
  unfoldable pub build_context_consumption_evidence :
      List (String × Context)
      → List Side
      → List (Item A)
      → List (Item B)
      → (exit_consumption : Option (String × String)) → Result (List ConsumptionRecord)
  build_context_consumption_evidence bundle sides blockers setups exit_consumption = do
    gates ←
        each (consumption_record bundle) (
          gate_declarations Role.blocker blockers sides
          ++ gate_declarations Role.setup setups sides)
    exits ← exit_record bundle sides exit_consumption
    ok (gates ++ exits)

abbrev pub has_id : Option String → String → Bool
has_id none id = false
has_id (some x) id = str_eq x id

abbrev pub on_side : Option Side → Side → Bool
on_side none side = false
on_side (some s) side = same_side s side

-- `_gate_for`: the first record with the role, the id and the side.
unfoldable pub gate_for : List ConsumptionRecord → Role → String → Side → Option Mask
gate_for [] role id side = none
gate_for (r ∷ rs) role id side =
    let rest = gate_for rs role id side in
    if same_role r.role role && has_id r.instance_id id && on_side r.side side
    then r.allowed
    else rest

-- `_apply_gate`
abbrev pub apply_gate : Mask → Option Mask → Mask
apply_gate intrinsic none = intrinsic
apply_gate intrinsic (some gate) = and_pair intrinsic gate

-- `ComponentMask` and `SetupMask`, without the trace.
pub record ComponentMask : Type 0 where
  pub component_id : String
  pub instance_id : String
  pub side : Side
  pub intrinsic_allowed : Mask
  pub context_allowed : Option Mask
  pub allowed : Mask

-- `_blocker` and `_setup` once the component's own mask is there.
module _ {A : Type 0} where
  abbrev pub gated : List ConsumptionRecord → Role → Item A → Side → Mask → ComponentMask
  gated records role item side own =
      let gate = gate_for records role (instance_of item) side in
      record {
        component_id = item.component_id;
        instance_id = instance_of item;
        side = side;
        intrinsic_allowed = own;
        context_allowed = gate;
        allowed = apply_gate own gate;
      }
