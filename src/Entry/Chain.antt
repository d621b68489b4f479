-- ===== src/Entry/Chain.antt =====
-- Which bars a group of blockers or setups lets through, with their gates
-- (src/strategy_engine/strategies/ema_pullback/direction_blockers.py and setups.py beside it).
use Prim.Native.String.{String}
use strategy_engine.Prelude.{
  ℕ, ◌≡◌, ◌↔◌, refl, sym, ◌∙◌, subst, true, Option, none, some, List, [], ◌∷◌, all, map, All,
  and_left, and_right,
}
use strategy_engine.Result.{Result, ok, ◌>>=◌, >>=-eq-ok, each}
use strategy_engine.Trade.{Side}
use strategy_engine.Context.Gate.{Context, GateRecord, gate_record}
use strategy_engine.Entry.Masks.{Mask, combine_masks}
use strategy_engine.Entry.Gates.{
  Consumption, Item, Role, ConsumptionRecord, ComponentMask, instance_of, gate_for, apply_gate,
  gated,
}
use strategy_engine.Entry.Lookup.{IsGate, ok-same}
use strategy_engine.Entry.Evidence.{HasGate}

-- What the gate of an item says of a bar.
abbrev pub GateOpen : List (String × Context) → Side → Option Consumption → ℕ → Type 0
GateOpen bundle side none i = Unit
GateOpen bundle side (some c) i =
    (r : GateRecord) × (gate_record bundle c.context_ref c.policy_id c.allowed_regimes side ≡ ok r)
    × (r.allowed i ≡ true)

apply_gate-GateOpen :
    (bundle : List (String × Context)) (side : Side) (o : Option Consumption) (own : Mask)
    (gate : Option Mask) (i : ℕ)
    → IsGate bundle side o gate
    → (apply_gate own gate i ≡ true) ↔ ((own i ≡ true) × GateOpen bundle side o i)
apply_gate-GateOpen bundle side none own gate i e = rw e ((λ h. (h, tt)), λ h. h.0)
apply_gate-GateOpen bundle side (some c) own gate i (r, is, e) = rw e (
  (λ h. (and_left (own i) (r.allowed i) h, (r, is, and_right (own i) (r.allowed i) h))),
  λ (h, (s, is_s, k)).
      let same : s ≡ r = ok-same (sym is_s ∙ is) in
      let open_r : r.allowed i ≡ true = subst (λ (x : GateRecord). x.allowed i ≡ true) same k in
      rw (h, open_r) refl,
)

module _ {A : Type 0} (bundle : List (String × Context)) (side : Side)
    (local : A → Result Mask) where
  -- The item has a mask, and it and its gate let the bar through.
  abbrev pub Lets : ℕ → Item A → Type 0
  Lets i item =
      (own : Mask) × (local item.body ≡ ok own)
      × (own i ≡ true)
      × GateOpen bundle side item.consumption i

module _ {A : Type 0} (bundle : List (String × Context)) (records : List ConsumptionRecord)
    (role : Role) (side : Side) (local : A → Result Mask) where
  abbrev mask_of : Item A → Result ComponentMask
  mask_of item = local item.body >>= λ own. ok (gated records role item side own)

  -- The masks of a group, combined.
  pub combine_masks-Lets :
      (items : List (Item A)) (masks : List ComponentMask) (i : ℕ)
      → each mask_of items ≡ ok masks
      → All (HasGate bundle records role side) items
      → (combine_masks (map (λ m. ComponentMask.allowed m) masks) i ≡ true)
        ↔ All (Lets bundle side local i) items
  unfolding combine_masks
  combine_masks-Lets [] masks i h g =
      let empty : [] ≡ masks = ok-same h in
      subst
        (λ (x : List ComponentMask).
          (all (λ (m : Mask). m i) (map (λ m. ComponentMask.allowed m) x) ≡ true) ↔ Unit)
        empty ((λ _. tt), λ _. refl)
  combine_masks-Lets (x ∷ xs) masks i h (gate, gates) =
      let (m, is, k) = >>=-eq-ok (mask_of x) _ h in
      let (ms, are, made) = >>=-eq-ok (each mask_of xs) _ k in
      let (own, own_is, made_m) = >>=-eq-ok (local x.body) _ is in
      let (there, back) = combine_masks-Lets xs ms i are gates in
      let (opens, shuts) =
        apply_gate-GateOpen bundle side x.consumption own
          (gate_for records role (instance_of x) side) i gate in
      let same_m : gated records role x side own ≡ m = ok-same made_m in
      subst
        (λ (z : List ComponentMask).
          (all (λ (m : Mask). m i) (map (λ m. ComponentMask.allowed m) z) ≡ true)
          ↔ All (Lets bundle side local i) (x ∷ xs))
        (ok-same made)
        (subst
          (λ (z : ComponentMask).
            (all (λ (m : Mask). m i) (map (λ m. ComponentMask.allowed m) (z ∷ ms)) ≡ true)
            ↔ All (Lets bundle side local i) (x ∷ xs))
          same_m
          (
            (λ e.
                let (own_on, gate_on) = opens (and_left _ _ e) in
                ((own, own_is, own_on, gate_on), there (and_right _ _ e))),
            λ ((own', is', on, gate_on), rest).
                let same : own' ≡ own = ok-same (sym is' ∙ own_is) in
                let here = shuts (subst (λ (z : Mask). z i ≡ true) same on, gate_on) in
                let later = back rest in rw (here, later) refl,
          ))
