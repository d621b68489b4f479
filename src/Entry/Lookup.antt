-- ===== src/Entry/Lookup.antt =====
-- `_gate_for` finds the gate that a blocker or a setup declares, if the ids of its group are unique
-- (src/strategy_engine/strategies/ema_pullback/direction_blockers.py, setups.py and
-- context_consumption.py).
use Prim.Native.String.{String}
use text.Mathlib.Text.{◌==◌ as str_eq}
use text.Mathlib.TextEquality.{eq_iff}
use strategy_engine.Prelude.{
  ◌≡◌, ◌≢◌, refl, sym, ◌∙◌, subst, arith, true, false, ◌&&◌, Option, none, some, List, [], ◌∷◌,
  ◌++◌, any, All, All-map, All-zip, if◌then◌else◌, Bool-cases, inl, inr,
}
use strategy_engine.Result.{Result, ok, >>=-eq-ok, each}
use strategy_engine.Trade.{Side}
use strategy_engine.Context.Gate.{Context, GateRecord, gate_record}
use strategy_engine.Unique.{Distinct}
use strategy_engine.Entry.Masks.{Mask}
use strategy_engine.Entry.Gates.{
  Consumption, Item, Role, same_role, same_side, Declaration, ConsumptionRecord, declared_id,
  declare, gate_declarations, consumption_record, has_id, gate_for,
}

-- What `_gate_for` looks for, among the declarations.
abbrev pub find_declared : List Declaration → Role → String → Side → Option Consumption
find_declared [] role id side = none
find_declared (d ∷ ds) role id side =
    let rest = find_declared ds role id side in
    if same_role d.role role && has_id d.instance_id id && same_side d.side side
    then some (d.consumption)
    else rest

-- The gate of a consumption on a side.
abbrev pub IsGate : List (String × Context) → Side → Option Consumption → Option Mask → Type 0
IsGate bundle side none gate = gate ≡ none
IsGate bundle side (some c) gate =
    (r : GateRecord) × (gate_record bundle c.context_ref c.policy_id c.allowed_regimes side ≡ ok r)
    × (gate ≡ some (r.allowed))

pub same_side-eq : (a b : Side) → same_side a b ≡ true → a ≡ b
same_side-eq Side.long Side.long h = refl
same_side-eq Side.short Side.short h = refl
same_side-eq Side.long Side.short h = cc
same_side-eq Side.short Side.long h = cc

pub find_declared-append :
    (xs ys : List Declaration) (role : Role) (id : String) (side : Side)
    → find_declared xs role id side ≡ none
    → find_declared (xs ++ ys) role id side ≡ find_declared ys role id side
find_declared-append [] ys role id side h = refl
find_declared-append (d ∷ ds) ys role id side h =
    ground (arith, find_declared-append ds ys role id side)

find_declared-left :
    (xs ys : List Declaration) (role : Role) (id : String) (side : Side) (c : Consumption)
    → find_declared xs role id side ≡ some c
    → find_declared (xs ++ ys) role id side ≡ some c
find_declared-left [] ys role id side c h = absurd cc
find_declared-left (d ∷ ds) ys role id side c h =
    ground (arith, find_declared-left ds ys role id side c)

declare-other :
    (role : Role) (own : Option String) (o : Option Consumption) (sides : List Side) (asked : Role)
    (id : String) (side : Side)
    → (same_role role asked && has_id own id) ≡ false
    → find_declared (declare role own o sides) asked id side ≡ none
declare-other role own none sides asked id side h = refl
declare-other role own (some c) [] asked id side h = refl
declare-other role own (some c) (s ∷ sides) asked id side h =
    ground (arith, declare-other role own (some c) sides asked id side h)

declare-own :
    (role : Role) (own : Option String) (c : Consumption) (sides : List Side) (asked : Role)
    (id : String) (side : Side)
    → (same_role role asked && has_id own id) ≡ true
    → any (λ s. same_side s side) sides ≡ true
    → find_declared (declare role own (some c) sides) asked id side ≡ some c
declare-own role own c [] asked id side h k = absurd cc
declare-own role own c (s ∷ sides) asked id side h k =
    ground (arith, declare-own role own c sides asked id side h)

pub ok-same : {A : Type 0} {a b : A} → Result.ok a ≡ Result.ok b → a ≡ b
ok-same h = cc

-- The records of the declarations have their gates.
pub each-find_declared :
    (bundle : List (String × Context)) (ds : List Declaration) (rs : List ConsumptionRecord)
    (role : Role) (id : String) (side : Side)
    → each (consumption_record bundle) ds ≡ ok rs
    → IsGate bundle side (find_declared ds role id side) (gate_for rs role id side)
unfolding gate_for
each-find_declared bundle [] rs role id side h =
    let none_left : [] ≡ rs = cc in
    subst (λ (x : List ConsumptionRecord). gate_for x role id side ≡ none) none_left refl
each-find_declared bundle (d ∷ ds) rs role id side h =
    let (r, is, k) = >>=-eq-ok (consumption_record bundle d) _ h in
    let (later, are, made) = >>=-eq-ok (each (consumption_record bundle) ds) _ k in
    let (g, gate_is, made_r) =
      >>=-eq-ok
        (gate_record bundle d.consumption.context_ref d.consumption.policy_id
          d.consumption.allowed_regimes d.side)
        _ is in
    let whole : r ∷ later ≡ rs = cc in
    let rest = each-find_declared bundle ds later role id side are in
    subst
      (λ (x : List ConsumptionRecord).
        IsGate bundle side (find_declared (d ∷ ds) role id side) (gate_for x role id side))
      whole
      (subst
        (λ (x : ConsumptionRecord).
          IsGate bundle side (find_declared (d ∷ ds) role id side)
            (gate_for (x ∷ later) role id side))
        (ok-same made_r)
        (elim (Bool-cases
          (same_role d.role role && has_id d.instance_id id && same_side d.side side)) [
            | inl e ↦
                let at : d.side ≡ side = same_side-eq d.side side (ground arith) in
                let there =
                  subst
                    (λ (s : Side).
                      gate_record bundle d.consumption.context_ref d.consumption.policy_id
                        d.consumption.allowed_regimes s
                      ≡ ok g)
                    at gate_is in
                rw e (g, there, refl)
            | inr e ↦ rw e rest
          ]))

same_role_refl : (r : Role) → same_role r r ≡ true
same_role_refl r = ground arith

has_id-own :
    (o : Option String)
    → str_eq (elim o [ none ↦ "" | some id ↦ id ]) "" ≡ false
    → has_id o (elim o [ none ↦ "" | some id ↦ id ]) ≡ true
has_id-own none h = cc
has_id-own (some id) h = (eq_iff id id).1 refl

has_id-apart :
    (o : Option String) (id : String)
    → elim o [ none ↦ "" | some own ↦ own ] ≢ id
    → has_id o id ≡ false
has_id-apart none id h = refl
has_id-apart (some own) id h = elim (Bool-cases (str_eq own id)) [
  | inl e ↦ absurd (h ((eq_iff own id).0 e))
  | inr e ↦ e
]

module _ {A : Type 0} where
  -- A group declares no gate of another role, and none under an id that no item has.
  abbrev pub Unasked : Role → Role → String → Item A → Type 0
  Unasked role asked id item = (same_role role asked && has_id (item.instance_id) id) ≡ false

  pub find_declared-Unasked :
      (role : Role) (items : List (Item A)) (sides : List Side) (asked : Role) (id : String)
      (side : Side)
      → All (Unasked role asked id) items
      → find_declared (gate_declarations role items sides) asked id side ≡ none
  unfolding gate_declarations
  find_declared-Unasked role [] sides asked id side h = refl
  find_declared-Unasked role (x ∷ xs) sides asked id side (h, hs) =
      let here = declare-other role x.instance_id x.consumption sides asked id side h in
      let rest = find_declared-Unasked role xs sides asked id side hs in
      let skip =
        find_declared-append (declare role x.instance_id x.consumption sides)
          (gate_declarations role xs sides) asked id side here in
      ground (arith, skip, rest)

  apart-Unasked :
      (role : Role) (x s : Item A)
      → str_eq (declared_id x) "" ≡ false
      → declared_id s ≢ declared_id x
      → Unasked role role (declared_id x) s
  apart-Unasked role x s named apart = ground (arith, eq_iff (declared_id s) (declared_id x))

  -- In a group with unique ids each item finds its own consumption.
  abbrev pub Finds : Role → List Declaration → Side → Item A → Type 0
  Finds role ds side item = find_declared ds role (declared_id item) side ≡ Item.consumption item

  finds-here :
      (role : Role) (x : Item A) (sides : List Side) (ds : List Declaration) (side : Side)
      → any (λ s. same_side s side) sides ≡ true
      → str_eq (declared_id x) "" ≡ false
      → find_declared ds role (declared_id x) side ≡ none
      → (o : Option Consumption) → x.consumption ≡ o
      → find_declared (declare role x.instance_id o sides ++ ds) role (declared_id x) side ≡ o
  finds-here role x sides ds side on named fresh none e = fresh
  finds-here role x sides ds side on named fresh (some c) e =
      find_declared-left (declare role x.instance_id (some c) sides) ds role (declared_id x) side c
        (declare-own role x.instance_id c sides role (declared_id x) side
          (let same = same_role_refl role in
            let mine = has_id-own x.instance_id named in ground (arith, same, mine))
          on)

  pub gate_declarations-Finds :
      (role : Role) (items : List (Item A)) (sides : List Side) (side : Side)
      → any (λ s. same_side s side) sides ≡ true
      → All (λ item. str_eq (declared_id item) "" ≡ false) items
      → Distinct declared_id items
      → All (Finds role (gate_declarations role items sides) side) items
  unfolding gate_declarations
  gate_declarations-Finds role [] sides side on named distinct = tt
  gate_declarations-Finds role (x ∷ xs) sides side on (named, names) (apart, distinct) =
      let ds = gate_declarations role xs sides in
      let fresh : find_declared ds role (declared_id x) side ≡ none =
        find_declared-Unasked role xs sides role (declared_id x) side (
          All-map (λ s. declared_id x ≢ declared_id s) (Unasked role role (declared_id x))
            (λ s h. apart-Unasked role x s named λ e. h (sym e)) xs apart) in
      (
        finds-here role x sides ds side on named fresh x.consumption refl,
        All-map (λ s. (declared_id x ≢ declared_id s) × Finds role ds side s)
            (Finds role (declare role x.instance_id x.consumption sides ++ ds) side)
            (λ s (h, e).
              find_declared-append (declare role x.instance_id x.consumption sides) ds role
                (declared_id s) side
                (declare-other role x.instance_id x.consumption sides role (declared_id s) side (
                  let other = has_id-apart x.instance_id (declared_id s) h in
                  ground (arith, other)))
              ∙ e)
            xs
            (All-zip _ _ xs apart (gate_declarations-Finds role xs sides side on names distinct)),
      )
