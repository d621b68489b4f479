-- ===== src/Entry/Allowed.antt =====
-- The entries of `evaluate_ema_pullback_frame` (src/strategy_engine/strategies/ema_pullback/evaluation.py).
use Prim.Native.String.{String}
use strategy_engine.Prelude.{
  ℕ, ◌≡◌, ◌↔◌, refl, sym, ◌∙◌, subst, true, List, [], ◌∷◌, any, map, All, All-map, and_left,
  and_right,
}
use strategy_engine.Float.{Float}
use strategy_engine.Result.{ok, Error, >>=-eq-ok, raise_if->>, each}
use strategy_engine.Trade.{Side}
use strategy_engine.Context.Gate.{Context}
use strategy_engine.Unique.{unique_from}
use strategy_engine.Entry.Masks.{Bars, Mask, direction}
use strategy_engine.Entry.Trigger.{
  SideSetup, SideTrigger, evaluate_trigger, trigger_side, triggered_by,
}
use strategy_engine.Entry.Gates.{
  Item, Role, ConsumptionRecord, same_side, declared_id, build_context_consumption_evidence,
}
use strategy_engine.Entry.Components.{Calls, Blocker, blocker_intrinsic, setup_local}
use strategy_engine.Entry.Sides.{
  SideBlockers, SideSetups, SideEntry, EntrySpec, other_direction, blocked_by, set_up_by,
  blocker_items, blocker_mask, setup_mask, blocked_side, setup_side, prior_of,
}
use strategy_engine.Entry.Lookup.{ok-same}
use strategy_engine.Entry.Evidence.{
  HasGate, build_context_consumption_evidence-HasGate, no_blockers-gate_for,
}
use strategy_engine.Entry.Chain.{Lets, combine_masks-Lets}
use strategy_engine.Entry.Steps.{both, own_sides, each-All}

module _ {F : Type 0} ⦃f : Float F⦄ (c : Calls F) (bundle : List (String × Context)) (bars : Bars F)
    (spec : EntrySpec F) where
  -- What the layers ask of a bar on a side, one after the other.
  abbrev pub Blocked : Side → ℕ → Type 0
  Blocked side i =
      (direction side bars i ≡ true)
      × All (Lets bundle side (λ b. blocker_intrinsic c b side) i) spec.blockers

  abbrev pub SetUp : Side → ℕ → Type 0
  SetUp side i = Blocked side i × All (Lets bundle side (λ s. setup_local c s side) i) spec.setups

  abbrev pub Fires : Side → ℕ → Type 0
  Fires side i = (m : Mask) × (evaluate_trigger spec.trigger side bars ≡ ok m) × (m i ≡ true)

  -- The entry mask of a side lets through the bars that every layer lets through.
  abbrev pub IsEntry : SideEntry → Type 0
  IsEntry e = (i : ℕ) → (e.entry_allowed i ≡ true) ↔ (SetUp e.side i × Fires e.side i)

  module _ (records : List ConsumptionRecord) where
    -- What the evidence says of a side.
    abbrev Known : Side → Type 0
    Known side =
        All (HasGate bundle records Role.blocker side) (blocker_items spec.blockers)
        × All (HasGate bundle records Role.setup side) spec.setups

    abbrev IsBlocked : SideBlockers → Type 0
    IsBlocked b = Known b.side × ((i : ℕ) → (b.pre_setup_allowed i ≡ true) ↔ Blocked b.side i)

    abbrev IsSetUp : SideSetup → Type 0
    IsSetUp s = (i : ℕ) → (s.pre_trigger_allowed i ≡ true) ↔ SetUp s.side i

    abbrev pub IsTriggered : SideTrigger → Type 0
    IsTriggered t =
        (i : ℕ) → (t.pre_risk_entry_allowed i ≡ true) ↔ (SetUp t.side i × Fires t.side i)

    -- The item that stands for no blockers lets every bar through.
    blocker_items-Lets :
        (side : Side) (i : ℕ) (items : List (Item (Blocker F)))
        → All (Lets bundle side (λ b. blocker_intrinsic c b side) i) (blocker_items items)
          ↔ All (Lets bundle side (λ b. blocker_intrinsic c b side) i) items
    unfolding blocker_intrinsic
    blocker_items-Lets side i [] = ((λ _. tt), λ _. (((λ _. true), refl, refl, tt), tt))
    blocker_items-Lets side i (x ∷ xs) = ((λ h. h), λ h. h)

    blocked_side-IsBlocked :
        (side : Side) (b : SideBlockers)
        → Known side
        → blocked_side c records spec.direction_id bars (blocker_items spec.blockers) side ≡ ok b
        → IsBlocked b
    blocked_side-IsBlocked side b known h =
        let (supported, k) =
          raise_if->> (other_direction spec.direction_id)
            (Error.invalid_request "unsupported direction component") _ h in
        let (masks, are, made) =
          >>=-eq-ok (each (blocker_mask c records side) (blocker_items spec.blockers)) _ k in
        let same : blocked_by side bars masks ≡ b = ok-same made in
        subst IsBlocked same (
          known,
          λ i.
              let (there, back) =
                combine_masks-Lets bundle records Role.blocker side
                  (λ b. blocker_intrinsic c b side) (blocker_items spec.blockers) masks i are
                  known.0 in
              let (less, more) = blocker_items-Lets side i spec.blockers in
              (
                λ e. (and_left _ _ e, less (there (and_right _ _ e))),
                λ (d, lets). both (direction side bars i) _ d (back (more lets)),
              ),
        )

    setup_side-IsSetUp :
        (b : SideBlockers) (s : SideSetups)
        → IsBlocked b
        → setup_side c records spec.setups b ≡ ok s
        → IsSetUp (prior_of s)
    setup_side-IsSetUp b s (known, blocked) h =
        let (masks, are, made) = >>=-eq-ok (each (setup_mask c records b.side) spec.setups) _ h in
        let same : set_up_by b masks ≡ s = ok-same made in
        subst (λ (z : SideSetups). IsSetUp (prior_of z)) same
          λ i.
            let (there, back) =
              combine_masks-Lets bundle records Role.setup b.side (λ s. setup_local c s b.side)
                spec.setups masks i are known.1 in
            (
              λ e. ((blocked i).0 (and_left _ _ e), there (and_right _ _ e)),
              λ (d, lets). both (b.pre_setup_allowed i) _ ((blocked i).1 d) (back lets),
            )

    trigger_side-IsTriggered :
        (s : SideSetup) (t : SideTrigger)
        → IsSetUp s
        → trigger_side spec.trigger bars s ≡ ok t
        → IsTriggered t
    unfolding trigger_side
    trigger_side-IsTriggered s t set_up h =
        let (m, is, made) = >>=-eq-ok (evaluate_trigger spec.trigger s.side bars) _ h in
        let same : triggered_by s m ≡ t = ok-same made in
        subst IsTriggered same λ i. (
          λ e. ((set_up i).0 (and_left _ _ e), (m, is, and_right _ _ e)),
          λ (d, (m', is', on)).
              let agree : m' ≡ m = ok-same (sym is' ∙ is) in
              both (s.pre_trigger_allowed i) (m i) ((set_up i).1 d)
                (subst (λ (z : Mask). z i ≡ true) agree on),
        )

    known_blockers :
        (items : List (Item (Blocker F))) (side : Side)
        → build_context_consumption_evidence bundle spec.sides items spec.setups
            spec.exit_consumption
          ≡ ok records
        → unique_from declared_id [] items ≡ ok tt
        → unique_from declared_id [] spec.setups ≡ ok tt
        → any (λ s. same_side s side) spec.sides ≡ true
        → All (HasGate bundle records Role.blocker side) (blocker_items items)
    known_blockers [] side h ub us on = (
      no_blockers-gate_for (Blocker F) bundle spec.sides spec.setups spec.exit_consumption records
          "no_blockers" side h,
      tt,
    )
    known_blockers (x ∷ xs) side h ub us on =
        (build_context_consumption_evidence-HasGate (x ∷ xs) spec.setups spec.sides side on bundle
          spec.exit_consumption records h ub us).0

    pub All-Known :
        build_context_consumption_evidence bundle spec.sides spec.blockers spec.setups
            spec.exit_consumption
          ≡ ok records
        → unique_from declared_id [] spec.blockers ≡ ok tt
        → unique_from declared_id [] spec.setups ≡ ok tt
        → All Known spec.sides
    All-Known h ub us =
        All-map (λ side. any (λ s. same_side s side) spec.sides ≡ true) Known
          (λ side on. (
            known_blockers spec.blockers side h ub us on,
            (build_context_consumption_evidence-HasGate spec.blockers spec.setups spec.sides side on
                bundle spec.exit_consumption records h ub us).1,
          ))
          spec.sides (own_sides spec.sides)

    All-prior :
        (xs : List SideSetups) → All (λ s. IsSetUp (prior_of s)) xs → All IsSetUp (map prior_of xs)
    All-prior [] h = tt
    All-prior (x ∷ xs) h = (h.0, All-prior xs h.1)

    -- The steps after the evidence.
    pub chain-IsEntry :
        (blocked : List SideBlockers) (set_up : List SideSetups) (triggered : List SideTrigger)
        → All Known spec.sides
        → each
            (blocked_side c records spec.direction_id bars (blocker_items spec.blockers))
            spec.sides
          ≡ ok blocked
        → each (setup_side c records spec.setups) blocked ≡ ok set_up
        → each (trigger_side spec.trigger bars) (map prior_of set_up) ≡ ok triggered
        → All IsTriggered triggered
    chain-IsEntry blocked set_up triggered known b s t =
        let all_blocked =
          each-All _ Known IsBlocked blocked_side-IsBlocked spec.sides blocked known b in
        let all_set_up =
          each-All _ IsBlocked (λ s. IsSetUp (prior_of s)) setup_side-IsSetUp blocked set_up
            all_blocked s in
        each-All _ IsSetUp IsTriggered trigger_side-IsTriggered (map prior_of set_up) triggered
          (All-prior set_up all_set_up) t
