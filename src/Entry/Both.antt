-- ===== src/Entry/Both.antt =====
-- The entries of `evaluate_ema_pullback_frame` (src/strategy_engine/strategies/ema_pullback/evaluation.py)
-- on both sides at once.
use Prim.Native.String.{String}
use strategy_engine.Prelude.{
  ℕ, ◌≡◌, arith, Bool, true, false, ◌&&◌, List, [], ◌∷◌, any, All, Bool-cases, inl, inr, and_left,
  and_right, subst,
}
use strategy_engine.Float.{Float, IsOrdered}
use strategy_engine.Result.{ok, Ensures, Ensures-weaken}
use strategy_engine.Trade.{Side}
use strategy_engine.Context.Gate.{Context}
use strategy_engine.Entry.Masks.{Bars, direction}
use strategy_engine.Entry.Gates.{same_side}
use strategy_engine.Entry.Components.{Calls}
use strategy_engine.Entry.Sides.{SideEntry, EntrySpec, evaluate_entries}
use strategy_engine.Entry.Lookup.{same_side-eq}
use strategy_engine.Entry.Static.{check_entry_semantics, check_entry_semantics-IsChecked}
use strategy_engine.Entry.Allowed.{IsEntry}
use strategy_engine.Entry.Whole.{evaluate_entries-IsEntry}
use strategy_engine.Entry.Exclusive.{direction-exclusive}

-- An entry of the side is allowed on the bar.
abbrev pub opens : Side → List SideEntry → ℕ → Bool
opens side entries i =
    any (λ e. same_side (SideEntry.side e) side && SideEntry.entry_allowed e i) entries

module _ {F : Type 0} ⦃f : Float F⦄ ⦃laws : IsOrdered F⦄ (c : Calls F)
    (bundle : List (String × Context)) (bars : Bars F) (spec : EntrySpec F) where
  opens-direction :
      (side : Side) (entries : List SideEntry) (i : ℕ)
      → All (IsEntry c bundle bars spec) entries
      → opens side entries i ≡ true
      → direction side bars i ≡ true
  opens-direction side [] i h k = absurd cc
  opens-direction side (e ∷ es) i (h, hs) k =
      elim (Bool-cases (same_side e.side side && e.entry_allowed i)) [
        | inl here ↦
            let same = same_side-eq e.side side (and_left _ _ here) in
            subst (λ (s : Side). direction s bars i ≡ true) same
              ((h i).0 (and_right _ _ here)).0.0.0
        | inr not_here ↦ opens-direction side es i hs (ground arith)
      ]

  -- For comparisons with the laws of `IsOrdered`: if a specification passes the static check of
  -- its entries, then, unless their evaluation is an error, no bar has an allowed entry of each
  -- side.
  pub evaluate_entries-exclusive :
      check_entry_semantics c.of_int spec ≡ ok tt
      → Ensures
          (λ entries. (i : ℕ) → (opens Side.long entries i && opens Side.short entries i) ≡ false)
          (evaluate_entries c bundle bars spec)
  evaluate_entries-exclusive h =
      let checked = check_entry_semantics-IsChecked c.of_int spec h in
      Ensures-weaken _ _ (evaluate_entries c bundle bars spec)
        (evaluate_entries-IsEntry c bundle bars spec checked.unique_blockers checked.unique_setups)
        λ entries (sides, is) i.
          elim (Bool-cases (opens Side.long entries i && opens Side.short entries i)) [
            | inl both ↦ absurd (
                direction-exclusive bars i
                  (opens-direction Side.long entries i is (and_left _ _ both))
                  (opens-direction Side.short entries i is (and_right _ _ both)))
            | inr e ↦ e
          ]
