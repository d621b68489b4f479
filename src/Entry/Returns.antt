-- ===== src/Entry/Returns.antt =====
-- When `evaluate_ema_pullback_frame` (src/strategy_engine/strategies/ema_pullback/evaluation.py) gets to
-- the entries of the sides.
use Prim.Native.String.{String}
use strategy_engine.Prelude.{
  ◌≡◌, refl, sym, subst, false, List, [], ◌∷◌, map, All, All-map, All-zip,
}
use strategy_engine.Float.{Float}
use strategy_engine.Result.{Result, ok, ◌>>=◌, each, Ensures}
use strategy_engine.Trade.{Side}
use strategy_engine.Context.Gate.{Context}
use strategy_engine.Entry.Masks.{Bars}
use strategy_engine.Entry.Trigger.{SideSetup, evaluate_trigger, trigger_side, evaluate_triggers}
use strategy_engine.Entry.Gates.{Item, ConsumptionRecord, build_context_consumption_evidence}
use strategy_engine.Entry.Components.{Calls, Blocker, blocker_intrinsic, setup_local}
use strategy_engine.Entry.Sides.{
  SideBlockers, SideSetups, SideEntry, EntrySpec, other_direction, blocker_items, blocker_mask,
  setup_mask, blocked_side, setup_side, entry_side, prior_of, evaluate_direction_and_blockers,
  evaluate_setups, evaluate_risk_and_entries, evaluate_entries,
}
use strategy_engine.Entry.Static.{IsChecked, check_entry_semantics, check_entry_semantics-IsChecked}
use strategy_engine.Entry.Allowed.{IsEntry}
use strategy_engine.Entry.Steps.{each-All}
use strategy_engine.Entry.Whole.{blocked_side-side, setup_side-side, evaluate_entries-IsEntry}

abbrev pub Returns : {A : Type 0} → Result A → Type 0
Returns {A} m = (a : A) × (m ≡ ok a)

module _ {A B : Type 0} where
  each-Returns :
      (g : A → Result B) (xs : List A) → All (λ x. Returns (g x)) xs → Returns (each g xs)
  each-Returns g [] h = ([], refl)
  each-Returns g (x ∷ xs) ((y, is), hs) =
      let (ys, are) = each-Returns g xs hs in (y ∷ ys, rw (is, are) refl)

  >>=-Returns : (m : Result A) (k : A → B) → Returns m → Returns (m >>= λ a. ok (k a))
  >>=-Returns m k (a, is) = (k a, rw is refl)

module _ {F : Type 0} ⦃f : Float F⦄ (c : Calls F) (bundle : List (String × Context)) (bars : Bars F)
    (spec : EntrySpec F) where
  abbrev BlockersReturn : Side → Type 0
  BlockersReturn side =
      All (λ item. Returns (blocker_intrinsic c (Item.body item) side)) spec.blockers

  abbrev SetupsReturn : Side → Type 0
  SetupsReturn side = All (λ item. Returns (setup_local c (Item.body item) side)) spec.setups

  abbrev TriggerReturns : Side → Type 0
  TriggerReturns side = Returns (evaluate_trigger spec.trigger side bars)

  -- Every component has what it reads, and the gates their contexts.
  pub record IsEvaluable : Type 0 where
    pub evidence : Returns (
        build_context_consumption_evidence bundle spec.sides spec.blockers spec.setups
          spec.exit_consumption)
    pub blockers : All BlockersReturn spec.sides
    pub setups : All SetupsReturn spec.sides
    pub triggers : All TriggerReturns spec.sides

  module _ (records : List ConsumptionRecord) where
    blocker_masks-Returns :
        (side : Side) (items : List (Item (Blocker F)))
        → All (λ item. Returns (blocker_intrinsic c (Item.body item) side)) items
        → Returns (each (blocker_mask c records side) (blocker_items items))
    unfolding blocker_intrinsic
    blocker_masks-Returns side [] h = (_, refl)
    blocker_masks-Returns side (x ∷ xs) h = each-Returns (blocker_mask c records side) (x ∷ xs) (
        All-map _ _ (λ item r. >>=-Returns (blocker_intrinsic c (Item.body item) side) _ r) (x ∷ xs)
          h)

    blocked_side-Returns :
        (side : Side)
        → other_direction spec.direction_id ≡ false
        → BlockersReturn side
        → Returns (blocked_side c records spec.direction_id bars (blocker_items spec.blockers) side)
    blocked_side-Returns side directed h = rw directed (
        >>=-Returns (each (blocker_mask c records side) (blocker_items spec.blockers)) _
          (blocker_masks-Returns side spec.blockers h))

    setup_side-Returns :
        (b : SideBlockers) → SetupsReturn b.side → Returns (setup_side c records spec.setups b)
    setup_side-Returns b h = >>=-Returns (each (setup_mask c records b.side) spec.setups) _ (
        each-Returns (setup_mask c records b.side) spec.setups (
          All-map _ _ (λ item r. >>=-Returns (setup_local c (Item.body item) b.side) _ r)
            spec.setups h))

    trigger_side-Returns :
        (s : SideSetup) → TriggerReturns s.side → Returns (trigger_side spec.trigger bars s)
    unfolding trigger_side
    trigger_side-Returns s h = >>=-Returns (evaluate_trigger spec.trigger s.side bars) _ h

    prior-Returns :
        (xs : List SideSetups)
        → All (λ s. TriggerReturns (SideSetups.side s)) xs
        → All (λ s. TriggerReturns (SideSetup.side s)) (map prior_of xs)
    prior-Returns [] h = tt
    prior-Returns (x ∷ xs) h = (h.0, prior-Returns xs h.1)

  evaluate_entries-Returns :
      IsChecked c.of_int spec → IsEvaluable → Returns (evaluate_entries c bundle bars spec)
  unfolding evaluate_entries evaluate_direction_and_blockers evaluate_setups evaluate_triggers
      evaluate_risk_and_entries
  evaluate_entries-Returns checked e =
      let (records, found) = e.evidence in
      let (blocked, b) = each-Returns _ spec.sides (
        All-map BlockersReturn _ (λ s h. blocked_side-Returns records s checked.directed h)
          spec.sides e.blockers) in
      let sides =
        each-All _ (λ s. SetupsReturn s × TriggerReturns s)
          (λ x. SetupsReturn (SideBlockers.side x) × TriggerReturns (SideBlockers.side x))
          (λ s x h is.
            let at = sym (blocked_side-side c records bars spec s x is) in
            subst (λ (z : Side). SetupsReturn z × TriggerReturns z) at h)
          spec.sides blocked (All-zip _ _ spec.sides e.setups e.triggers) b in
      let (set_up, s) =
        each-Returns _ blocked
          (All-map _ _ (λ x h. setup_side-Returns records x h.0) blocked sides) in
      let fires =
        each-All _ (λ x. SetupsReturn (SideBlockers.side x) × TriggerReturns (SideBlockers.side x))
          (λ x. TriggerReturns (SideSetups.side x))
          (λ x y h is. subst TriggerReturns (sym (setup_side-side c records bars spec x y is)) h.1)
          blocked set_up sides s in
      let (triggered, t) = each-Returns _ (map prior_of set_up) (
        All-map _ _ (λ x h. trigger_side-Returns records x h) (map prior_of set_up)
          (prior-Returns records set_up fires)) in
      (
        map entry_side triggered,
        rw (found, checked.traded, b, s, checked.supported, t, checked.risked) refl,
      )

  -- If a specification passes the static check of its entries, its context records can be built,
  -- and every component has what it reads, the entries of the sides are computed, one for each
  -- traded side in order, and on each bar the entry of a side is allowed exactly if its direction
  -- holds, every blocker and every setup lets the bar through on its own and by the context gate
  -- that it declares, and the trigger of the side fires.
  pub evaluate_entries_lem :
      check_entry_semantics c.of_int spec ≡ ok tt
      → IsEvaluable
      → (entries : List SideEntry) × (evaluate_entries c bundle bars spec ≡ ok entries)
        × (map (λ e. SideEntry.side e) entries ≡ spec.sides)
        × All (IsEntry c bundle bars spec) entries
  evaluate_entries_lem h e =
      let checked = check_entry_semantics-IsChecked c.of_int spec h in
      let (entries, is) = evaluate_entries-Returns checked e in
      let (sides, each_is) = subst (Ensures _) is (
        evaluate_entries-IsEntry c bundle bars spec checked.unique_blockers
          checked.unique_setups) in
      (entries, is, sides, each_is)
