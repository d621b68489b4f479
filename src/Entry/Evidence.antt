-- ===== src/Entry/Evidence.antt =====
-- The records of `build_context_consumption_evidence`
-- (src/strategy_engine/strategies/ema_pullback/context_consumption.py) give every blocker and setup
-- its own gate.
use Prim.Native.String.{String}
use text.Mathlib.Text.{◌==◌ as str_eq}
use strategy_engine.Prelude.{
  ◌≡◌, refl, sym, ◌∙◌, subst, arith, true, false, not, Option, none, some, List, [], ◌∷◌, ◌++◌, any,
  All, All-map, All-zip,
}
use strategy_engine.Result.{ok, Error, >>=-eq-ok, raise_if->>, each}
use strategy_engine.Trade.{Side}
use strategy_engine.Context.Gate.{Context, raw_state, find_context}
use strategy_engine.Unique.{unique_from, unique_from-Distinct, unique_from-named}
use strategy_engine.Entry.Gates.{
  Consumption, Item, Role, same_role, same_side, Declaration, ConsumptionRecord, declared_id,
  instance_of, gate_declarations, consumption_record, exit_record,
  build_context_consumption_evidence, gate_for,
}
use strategy_engine.Entry.Lookup.{
  find_declared, find_declared-append, find_declared-Unasked, IsGate, each-find_declared, Finds,
  Unasked, gate_declarations-Finds, ok-same,
}

pub All-always {ℓ κ} : {A : Type ℓ} (P : A → Type κ) → ((a : A) → P a) → (xs : List A) → All P xs
All-always P h [] = tt
All-always P h (x ∷ xs) = (h x, All-always P h xs)

find_declared-right :
    (xs ys : List Declaration) (role : Role) (id : String) (side : Side)
    → find_declared ys role id side ≡ none
    → find_declared (xs ++ ys) role id side ≡ find_declared xs role id side
find_declared-right [] ys role id side h = h
find_declared-right (d ∷ ds) ys role id side h =
    ground (arith, find_declared-right ds ys role id side h)

gate_for-append :
    (rs es : List ConsumptionRecord) (role : Role) (id : String) (side : Side)
    → gate_for es role id side ≡ none
    → gate_for (rs ++ es) role id side ≡ gate_for rs role id side
unfolding gate_for
gate_for-append [] es role id side h = h
gate_for-append (r ∷ rs) es role id side h = ground (arith, gate_for-append rs es role id side h)

-- The record of the exit profiles is no gate.
exit_record-gate_for :
    (bundle : List (String × Context)) (sides : List Side) (o : Option (String × String))
    (es : List ConsumptionRecord) (role : Role) (id : String) (side : Side)
    → same_role Role.exit_policy role ≡ false
    → exit_record bundle sides o ≡ ok es
    → gate_for es role id side ≡ none
unfolding gate_for
exit_record-gate_for bundle sides none es role id side h e =
    let empty : [] ≡ es = cc in
    subst (λ (x : List ConsumptionRecord). gate_for x role id side ≡ none) empty refl
exit_record-gate_for bundle sides (some (ref, policy)) es role id side h e =
    let (known, k) =
      raise_if->> (not (str_eq policy "exit_profile_by_htf_state"))
        (Error.invalid_request "unsupported exit context policy") _ e in
    let (raw, is, made) = >>=-eq-ok (raw_state (find_context ref bundle)) _ k in
    let one : _ ∷ [] ≡ es = ok-same made in
    subst (λ (x : List ConsumptionRecord). gate_for x role id side ≡ none) one (rw h refl)

module _ {A : Type 0} where
  -- Every item of a group has the gate that it declares.
  abbrev pub HasGate :
      List (String × Context) → List ConsumptionRecord → Role → Side → Item A → Type 0
  HasGate bundle records role side item =
      IsGate bundle side item.consumption (gate_for records role (instance_of item) side)

  named-instance_of :
      (item : Item A) → str_eq (declared_id item) "" ≡ false → instance_of item ≡ declared_id item
  named-instance_of item = by_id item.instance_id
    where
      by_id :
          (o : Option String)
          → str_eq (elim o [ none ↦ "" | some id ↦ id ]) "" ≡ false
          → elim o [ none ↦ item.component_id | some id ↦ id ] ≡ elim o [ none ↦ "" | some id ↦ id ]
      by_id none h = absurd cc
      by_id (some id) h = refl

  -- A group whose items find their consumptions among the declarations.
  group-HasGate :
      (bundle : List (String × Context)) (ds : List Declaration)
      (rs records : List ConsumptionRecord) (role : Role) (side : Side) (items : List (Item A))
      → each (consumption_record bundle) ds ≡ ok rs
      → ((id : String) → gate_for records role id side ≡ gate_for rs role id side)
      → All (λ item. str_eq (declared_id item) "" ≡ false) items
      → All (Finds role ds side) items
      → All (HasGate bundle records role side) items
  group-HasGate bundle ds rs records role side items made same names finds =
      All-map (λ item. (str_eq (declared_id item) "" ≡ false) × Finds role ds side item)
        (HasGate bundle records role side)
        (λ item (named, found).
          let gate = each-find_declared bundle ds rs role (declared_id item) side made in
          subst
            (λ (id : String). IsGate bundle side item.consumption (gate_for records role id side))
            (sym (named-instance_of item named))
            (rw (same (declared_id item)) (
              subst
                (λ (o : Option Consumption).
                  IsGate bundle side o (gate_for rs role (declared_id item) side))
                found gate)))
        items (All-zip _ _ items names finds)

module _ {F G : Type 0} (blockers : List (Item F)) (setups : List (Item G)) (sides : List Side)
    (side : Side) (on : any (λ s. same_side s side) sides ≡ true) where
  abbrev declarations : List Declaration
  declarations =
      gate_declarations Role.blocker blockers sides ++ gate_declarations Role.setup setups sides

  -- No group declares a gate of the other one.
  blockers-Finds :
      unique_from declared_id [] blockers ≡ ok tt
      → All (Finds Role.blocker declarations side) blockers
  blockers-Finds unique =
      let bs = gate_declarations Role.blocker blockers sides in
      let ss = gate_declarations Role.setup setups sides in
      let not_there : (id : String) → find_declared ss Role.blocker id side ≡ none = λ id.
        find_declared-Unasked Role.setup setups sides Role.blocker id side
          (All-always (Unasked Role.setup Role.blocker id) (λ s. refl) setups) in
      All-map (Finds Role.blocker bs side) (Finds Role.blocker declarations side)
        (λ item e.
          let id = declared_id item in
          find_declared-right bs ss Role.blocker id side (not_there id) ∙ e)
        blockers
        (gate_declarations-Finds Role.blocker blockers sides side on
          (unique_from-named declared_id [] blockers unique)
          (unique_from-Distinct declared_id [] blockers unique).1)

  setups-Finds :
      unique_from declared_id [] setups ≡ ok tt → All (Finds Role.setup declarations side) setups
  setups-Finds unique =
      let bs = gate_declarations Role.blocker blockers sides in
      let ss = gate_declarations Role.setup setups sides in
      let not_there : (id : String) → find_declared bs Role.setup id side ≡ none = λ id.
        find_declared-Unasked Role.blocker blockers sides Role.setup id side
          (All-always (Unasked Role.blocker Role.setup id) (λ s. refl) blockers) in
      All-map (Finds Role.setup ss side) (Finds Role.setup declarations side)
        (λ item e.
          let id = declared_id item in
          find_declared-append bs ss Role.setup id side (not_there id) ∙ e)
        setups
        (gate_declarations-Finds Role.setup setups sides side on
          (unique_from-named declared_id [] setups unique)
          (unique_from-Distinct declared_id [] setups unique).1)

  -- With unique ids in both groups.
  pub build_context_consumption_evidence-HasGate :
      (bundle : List (String × Context)) (exit : Option (String × String))
      (records : List ConsumptionRecord)
      → build_context_consumption_evidence bundle sides blockers setups exit ≡ ok records
      → unique_from declared_id [] blockers ≡ ok tt
      → unique_from declared_id [] setups ≡ ok tt
      → All (HasGate bundle records Role.blocker side) blockers
        × All (HasGate bundle records Role.setup side) setups
  unfolding build_context_consumption_evidence
  build_context_consumption_evidence-HasGate bundle exit records h ub us =
      let (gates, made, k) = >>=-eq-ok (each (consumption_record bundle) declarations) _ h in
      let (exits, none_of, whole) = >>=-eq-ok (exit_record bundle sides exit) _ k in
      let all_of : gates ++ exits ≡ records = ok-same whole in
      let same : (role : Role)
          → same_role Role.exit_policy role ≡ false
          → (id : String) → gate_for records role id side ≡ gate_for gates role id side =
        λ role apart id.
          subst
            (λ (x : List ConsumptionRecord). gate_for x role id side ≡ gate_for gates role id side)
            all_of
            (gate_for-append gates exits role id side
              (exit_record-gate_for bundle sides exit exits role id side apart none_of)) in
      (
        group-HasGate bundle declarations gates records Role.blocker side blockers made
            (same Role.blocker refl) (unique_from-named declared_id [] blockers ub)
            (blockers-Finds ub),
        group-HasGate bundle declarations gates records Role.setup side setups made
            (same Role.setup refl) (unique_from-named declared_id [] setups us) (setups-Finds us),
      )

module _ (F : Type 0) {G : Type 0} where
  -- Without blockers no record is the gate of one.
  pub no_blockers-gate_for :
      (bundle : List (String × Context)) (sides : List Side) (setups : List (Item G))
      (exit : Option (String × String)) (records : List ConsumptionRecord) (id : String)
      (side : Side)
      → build_context_consumption_evidence {A = F} bundle sides [] setups exit ≡ ok records
      → gate_for records Role.blocker id side ≡ none
  unfolding build_context_consumption_evidence gate_declarations
  no_blockers-gate_for bundle sides setups exit records id side h =
      let ss = gate_declarations Role.setup setups sides in
      let (gates, made, k) = >>=-eq-ok (each (consumption_record bundle) ss) _ h in
      let (exits, none_of, whole) = >>=-eq-ok (exit_record bundle sides exit) _ k in
      let unasked =
        find_declared-Unasked Role.setup setups sides Role.blocker id side
          (All-always (Unasked Role.setup Role.blocker id) (λ s. refl) setups) in
      let gate = each-find_declared bundle ss gates Role.blocker id side made in
      let missing : gate_for gates Role.blocker id side ≡ none =
        subst
          (λ (o : Option Consumption). IsGate bundle side o (gate_for gates Role.blocker id side))
          unasked gate in
      subst (λ (x : List ConsumptionRecord). gate_for x Role.blocker id side ≡ none) (ok-same whole)
        (gate_for-append gates exits Role.blocker id side
            (exit_record-gate_for bundle sides exit exits Role.blocker id side refl none_of)
          ∙ missing)
