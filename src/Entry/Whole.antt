-- ===== src/Entry/Whole.antt =====
-- The entries of the sides, from the context records to the risk layer: the part of
-- `evaluate_ema_pullback_frame` (src/strategy_engine/strategies/ema_pullback/evaluation.py).
use Prim.Native.String.{String}
use strategy_engine.Prelude.{◌≡◌, refl, sym, ◌∙◌, ap, subst, List, [], ◌∷◌, map, All, and_left}
use strategy_engine.Float.{Float}
use strategy_engine.Result.{Result, ok, err, Error, >>=-eq-ok, raise_if->>, each, Ensures}
use strategy_engine.Trade.{Side}
use strategy_engine.Context.Gate.{Context}
use strategy_engine.Unique.{unique_from}
use strategy_engine.Entry.Masks.{Bars}
use strategy_engine.Entry.Trigger.{
  SideSetup, SideTrigger, evaluate_trigger, trigger_side, triggered_by, is_unsupported,
  evaluate_triggers,
}
use strategy_engine.Entry.Gates.{ConsumptionRecord, declared_id, build_context_consumption_evidence}
use strategy_engine.Entry.Components.{Calls}
use strategy_engine.Entry.Sides.{
  SideBlockers, SideSetups, SideEntry, EntrySpec, other_direction, other_risk, no_sides, blocked_by,
  set_up_by, blocker_items, blocker_mask, setup_mask, blocked_side, setup_side,
  evaluate_direction_and_blockers, evaluate_setups, entry_side, prior_of, evaluate_risk_and_entries,
  evaluate_entries,
}
use strategy_engine.Entry.Lookup.{ok-same}
use strategy_engine.Entry.Allowed.{IsEntry, IsTriggered, All-Known, chain-IsEntry}
use strategy_engine.Entry.Steps.{each-sides, map_id}

module _ {F : Type 0} ⦃f : Float F⦄ (c : Calls F) (records : List ConsumptionRecord) (bars : Bars F)
    (spec : EntrySpec F) where
  pub blocked_side-side :
      (side : Side) (b : SideBlockers)
      → blocked_side c records spec.direction_id bars (blocker_items spec.blockers) side ≡ ok b
      → b.side ≡ side
  blocked_side-side side b h =
      let (supported, k) =
        raise_if->> (other_direction spec.direction_id)
          (Error.invalid_request "unsupported direction component") _ h in
      let (masks, are, made) =
        >>=-eq-ok (each (blocker_mask c records side) (blocker_items spec.blockers)) _ k in
      let same : blocked_by side bars masks ≡ b = ok-same made in sym (ap SideBlockers.side same)

  pub setup_side-side :
      (b : SideBlockers) (s : SideSetups)
      → setup_side c records spec.setups b ≡ ok s
      → s.side ≡ b.side
  setup_side-side b s h =
      let (masks, are, made) = >>=-eq-ok (each (setup_mask c records b.side) spec.setups) _ h in
      let same : set_up_by b masks ≡ s = ok-same made in sym (ap SideSetups.side same)

  trigger_side-side :
      (s : SideSetup) (t : SideTrigger) → trigger_side spec.trigger bars s ≡ ok t → t.side ≡ s.side
  unfolding trigger_side
  trigger_side-side s t h =
      let (m, is, made) = >>=-eq-ok (evaluate_trigger spec.trigger s.side bars) _ h in
      let same : triggered_by s m ≡ t = ok-same made in sym (ap SideTrigger.side same)

  prior_sides :
      (xs : List SideSetups)
      → map (λ s. SideSetup.side s) (map prior_of xs) ≡ map (λ s. SideSetups.side s) xs
  prior_sides [] = refl
  prior_sides (x ∷ xs) = ap (λ (z : List Side). x.side ∷ z) (prior_sides xs)

  entry_sides :
      (xs : List SideTrigger)
      → map (λ e. SideEntry.side e) (map entry_side xs) ≡ map (λ t. SideTrigger.side t) xs
  entry_sides [] = refl
  entry_sides (x ∷ xs) = ap (λ (z : List Side). x.side ∷ z) (entry_sides xs)

  -- Each layer keeps the sides and their order.
  chain_sides :
      (blocked : List SideBlockers) (set_up : List SideSetups) (triggered : List SideTrigger)
      → each
          (blocked_side c records spec.direction_id bars (blocker_items spec.blockers))
          spec.sides
        ≡ ok blocked
      → each (setup_side c records spec.setups) blocked ≡ ok set_up
      → each (trigger_side spec.trigger bars) (map prior_of set_up) ≡ ok triggered
      → map (λ e. SideEntry.side e) (map entry_side triggered) ≡ spec.sides
  chain_sides blocked set_up triggered b s t =
      entry_sides triggered
      ∙ each-sides _ _ _ trigger_side-side (map prior_of set_up) triggered t
      ∙ prior_sides set_up
      ∙ each-sides _ _ _ setup_side-side blocked set_up s
      ∙ each-sides _ _ _ blocked_side-side spec.sides blocked b
      ∙ map_id spec.sides

Ensures-intro {κ} :
    {A : Type 0} (P : A → Type κ) (m : Result A) → ((a : A) → m ≡ ok a → P a) → Ensures P m
Ensures-intro P (ok a) h = h a refl
Ensures-intro P (err e) h = tt

module _ {F : Type 0} ⦃f : Float F⦄ (c : Calls F) (bundle : List (String × Context)) (bars : Bars F)
    (spec : EntrySpec F) where
  entries-IsEntry :
      (records : List ConsumptionRecord) (triggered : List SideTrigger)
      → All (IsTriggered c bundle bars spec records) triggered
      → All (IsEntry c bundle bars spec) (map entry_side triggered)
  entries-IsEntry records [] h = tt
  entries-IsEntry records (t ∷ ts) (h, hs) = (
    λ i. (λ e. (h i).0 (and_left _ _ e), λ d. let on = (h i).1 d in rw on refl),
    entries-IsEntry records ts hs,
  )

  -- Whatever the chain returns.
  pub evaluate_entries-IsEntry :
      unique_from declared_id [] spec.blockers ≡ ok tt
      → unique_from declared_id [] spec.setups ≡ ok tt
      → Ensures
          (λ entries.
            (map (λ e. SideEntry.side e) entries ≡ spec.sides)
            × All (IsEntry c bundle bars spec) entries)
          (evaluate_entries c bundle bars spec)
  unfolding evaluate_entries evaluate_direction_and_blockers evaluate_setups evaluate_triggers
      evaluate_risk_and_entries
  evaluate_entries-IsEntry ub us =
      Ensures-intro _ (evaluate_entries c bundle bars spec) λ entries h.
        let (records, found, h) =
          >>=-eq-ok
            (build_context_consumption_evidence bundle spec.sides spec.blockers spec.setups
              spec.exit_consumption)
            _ h in
        let (blocked, b, h) =
          >>=-eq-ok
            (evaluate_direction_and_blockers c records spec.direction_id bars spec.blockers
              spec.sides)
            _ h in
        let (set_up, s, h) = >>=-eq-ok (evaluate_setups c records spec.setups blocked) _ h in
        let (triggered, t, h) =
          >>=-eq-ok (evaluate_triggers spec.trigger bars (map prior_of set_up)) _ h in
        let (traded, b) =
          raise_if->> (no_sides spec.sides)
            (Error.invalid_request "raw_spec.trade_sides must contain long/short") _ b in
        let (supported, t) =
          raise_if->> (is_unsupported spec.trigger)
            (Error.invalid_request "unsupported trigger component") _ t in
        let (risk, made) =
          raise_if->> (other_risk spec.risk_id) (Error.invalid_request "unsupported risk component")
            _ h in
        let same : map entry_side triggered ≡ entries = ok-same made in
        subst
          (λ (z : List SideEntry).
            (map (λ e. SideEntry.side e) z ≡ spec.sides) × All (IsEntry c bundle bars spec) z)
          same
          (
            chain_sides c records bars spec blocked set_up triggered b s t,
            entries-IsEntry records triggered (
                chain-IsEntry c bundle bars spec records blocked set_up triggered
                  (All-Known c bundle bars spec records found ub us) b s t),
          )
