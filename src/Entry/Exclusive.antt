-- ===== src/Entry/Exclusive.antt =====
-- The entries of the two sides exclude each other, so the decision events of a frame are built.
use strategy_engine.Prelude.{
  ℕ, zero, suc, ◌≡◌, refl, arith, true, false, ◌&&◌, Bool-cases, List, [], ◌∷◌, inl, inr, sym,
  if◌then◌else◌, ◌∙◌, and_left, and_right,
}
use strategy_engine.Float.{Float, IsOrdered}
use strategy_engine.Result.{ok}
use strategy_engine.Entry.Masks.{Side, Bars, Mask, direction, entry_allowed}
use strategy_engine.Entry.Events.{
  Inputs, DecisionEvent, event_of, says_something, bar_events, build_from, build_decision_events,
}

module _ {F : Type 0} where
  -- The bars of a range whose event says something, and their events.
  abbrev pub events_from : Inputs F → ℕ → ℕ → List (DecisionEvent F)
  events_from x i zero = []
  events_from x i (suc count) =
      let rest = events_from x (suc i) count in
      if says_something (event_of x i) then event_of x i ∷ rest else rest

  build_from-exclusive :
      (x : Inputs F) (i count : ℕ)
      → ((k : ℕ) → (x.entries_long k && x.entries_short k) ≡ false)
      → build_from x i count ≡ ok (events_from x i count)
  unfolding build_from bar_events
  build_from-exclusive x i zero h = refl
  build_from-exclusive x i (suc count) h = rw (build_from-exclusive x (suc i) count h, h i)

module _ {F : Type 0} ⦃f : Float F⦄ ⦃laws : IsOrdered F⦄ where
  lt_asym : (a b : F) → f.lt a b ≡ true → f.lt b a ≡ true → ⊥
  lt_asym a b h k =
      let n = laws.number_of_lt a b h in
      elim (laws.le_total a b n.0 n.1) [
        | inl ab ↦ ground (arith, laws.lt-eq-not_le b a n.1 n.0)
        | inr ba ↦ ground (arith, laws.lt-eq-not_le a b n.0 n.1)
      ]

  pub direction-exclusive :
      (b : Bars F) (i : ℕ) → direction Side.long b i ≡ true → direction Side.short b i ≡ true → ⊥
  unfolding direction
  direction-exclusive b i h k = lt_asym (b.anchor i) (b.fast i) (and_left _ _ h) (and_left _ _ k)

  entry_allowed-direction :
      (side : Side) (b : Bars F) (blockers setups : List Mask) (trigger : Mask) (i : ℕ)
      → entry_allowed side b blockers setups trigger i ≡ true
      → direction side b i ≡ true
  unfolding entry_allowed
  entry_allowed-direction side b blockers setups trigger i h =
      and_left _ _ (and_left _ _ (and_left _ _ (and_left _ _ h)))

  -- For comparisons with the laws of `IsOrdered`: if the entries of the two sides are those of the
  -- layers over one market, each with its own blockers, setups and trigger, the decision events of
  -- any number of bars are built without the error on a bar with both entries, and they are the
  -- events, in the order of the bars, of exactly the bars whose event has an entry, a signal exit
  -- or a ready stop.
  pub build_decision_events-entries :
      (b : Bars F) (blockers setups : Side → List Mask) (trigger : Side → Mask) (x : Inputs F)
      (bar_count : ℕ)
      → ((i : ℕ)
          → x.entries_long i
            ≡ entry_allowed Side.long b
                (blockers Side.long)
                (setups Side.long)
                (trigger Side.long)
                i)
      → ((i : ℕ)
          → x.entries_short i
            ≡ entry_allowed Side.short b
                (blockers Side.short)
                (setups Side.short)
                (trigger Side.short)
                i)
      → build_decision_events x bar_count ≡ ok (events_from x 0 bar_count)
  unfolding build_decision_events
  build_decision_events-entries b blockers setups trigger x bar_count hl hs =
      build_from-exclusive x 0 bar_count (λ k. exclusive k)
    where
      exclusive : (k : ℕ) → (x.entries_long k && x.entries_short k) ≡ false
      exclusive k = elim (Bool-cases (x.entries_long k && x.entries_short k)) [
        | inl both ↦ absurd (
            direction-exclusive b k
              (entry_allowed-direction Side.long b _ _ _ k (sym (hl k) ∙ and_left _ _ both))
              (entry_allowed-direction Side.short b _ _ _ k (sym (hs k) ∙ and_right _ _ both)))
        | inr e ↦ e
      ]
