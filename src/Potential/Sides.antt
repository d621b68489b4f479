-- ===== src/Potential/Sides.antt =====
-- The entries of the sides: each from a setup and the trigger of its side.
use Prim.Native.String.{String}
use text.Mathlib.Text.{◌==◌ as str_eq}
use strategy_engine.Prelude.{
  ◌≡◌, ◌⊎◌, inl, inr, refl, arith, Bool, true, false, not, Option, none, some, List, [], ◌∷◌,
  if◌then◌else◌, Bool-cases, and_left, and_right, subst,
}
use strategy_engine.Float.{Float, IsRounded}
use strategy_engine.Result.{ok, Ensures, Ensures->>=, Ensures-raise_if, Ensures-weaken}
use strategy_engine.Potential.Project.{
  Side, same_side, Setup, Trigger, ExitPolicy, PotentialEntry, touch_anchor_close_ok, distances_for,
  put, find, project_side, entry_of, each_setup, side_matches, sides_match, touch_entries,
  unique_sides, shared_component, by_component, project_potential_entries,
}
use strategy_engine.Potential.Prices.{IsEntry, project_side-Ensures, self, same_side-eq}

by_side : (P : Side → Type 0) → P Side.long → P Side.short → (s : Side) → P s
by_side P h k Side.long = h
by_side P h k Side.short = k

-- The entry of a side comes from a setup and the trigger of that side.
module _ {F : Type 0} ⦃f : Float F⦄ (anchors : List (Option F)) (triggers : List Trigger)
    (policy : ExitPolicy F) where
  pub record IsEntryOf (side : Side) (e : PotentialEntry F) : Type 0 where
    pub setup : Setup
    pub trigger : Trigger
    pub close_ok : List Bool
    pub on_side : setup.side ≡ side
    pub triggered : find triggers setup.side ≡ some trigger
    pub traced : touch_anchor_close_ok trigger ≡ ok close_ok
    pub entry :
        IsEntry setup close_ok anchors
          (distances_for policy setup.side).stops
          (distances_for policy setup.side).takes
          e

  abbrev pub EntryOf : Side → Option (PotentialEntry F) → Type 0
  EntryOf side none = Unit {0}
  EntryOf side (some e) = IsEntryOf side e

module _ {F : Type 0} ⦃f : Float F⦄ (laws : IsRounded F) (anchors : List (Option F))
    (triggers : List Trigger) (policy : ExitPolicy F) where
  abbrev OfSide : Side → Option (PotentialEntry F) → Type 0
  OfSide = EntryOf anchors triggers policy

  abbrev IsOf : Side → PotentialEntry F → Type 0
  IsOf = IsEntryOf anchors triggers policy

  entry_of-Ensures :
      (setup : Setup) (o : Option Trigger)
      → find triggers setup.side ≡ o
      → Ensures (IsOf setup.side) (entry_of anchors triggers policy setup o)
  entry_of-Ensures setup none h = tt
  entry_of-Ensures setup (some t) h =
      Ensures->>= (λ close_ok. touch_anchor_close_ok t ≡ ok close_ok) _ (touch_anchor_close_ok t) _
        (self (touch_anchor_close_ok t))
        (λ close_ok traced.
          Ensures-weaken
            (IsEntry setup close_ok anchors (distances_for policy setup.side).stops
              (distances_for policy setup.side).takes)
            (IsOf setup.side)
            (project_side setup close_ok anchors (distances_for policy setup.side).stops
              (distances_for policy setup.side).takes)
            (project_side-Ensures laws setup close_ok anchors
              (distances_for policy setup.side).stops (distances_for policy setup.side).takes)
            (λ e entry. record {
              setup = setup;
              trigger = t;
              close_ok = close_ok;
              on_side = refl;
              triggered = h;
              traced = traced;
              entry = entry;
            }))

  put-EntryOf :
      (side : Side) (e : PotentialEntry F) (out : Side → Option (PotentialEntry F))
      → IsOf side e
      → ((s : Side) → OfSide s (out s))
      → (s : Side) → OfSide s (put side e out s)
  put-EntryOf side e out h k s = elim (Bool-cases (same_side side s)) [
    | inl t ↦ let at : side ≡ s = same_side-eq side s t in rw t (subst (λ x. IsOf x e) at h)
    | inr t ↦ rw t (k s)
  ]

  each_setup-Ensures :
      (setups : List Setup) (out : Side → Option (PotentialEntry F))
      → ((s : Side) → OfSide s (out s))
      → Ensures (λ r. (s : Side) → OfSide s (r s)) (each_setup anchors triggers policy setups out)
  each_setup-Ensures [] out h = h
  each_setup-Ensures (setup ∷ setups) out h =
      Ensures->>= (IsOf setup.side) _
        (entry_of anchors triggers policy setup (find triggers setup.side)) _
        (entry_of-Ensures setup (find triggers setup.side) refl)
        (λ e entry.
          each_setup-Ensures setups (put setup.side e out) (put-EntryOf setup.side e out entry h))

  abbrev Matched : (Side → Option (PotentialEntry F)) → Type 0
  Matched out =
      ((s : Side) → OfSide s (out s))
      × (((s : Side) → out s ≡ none)
          ⊎ ((s : Side) → side_matches anchors triggers policy out s ≡ true))

  by_component-Ensures :
      (setups : List Setup) (o : Option String)
      → Ensures Matched (by_component anchors triggers policy o setups)
  by_component-Ensures setups none = tt
  by_component-Ensures setups (some id) = by_test (not (str_eq id "touch_anchor"))
    where
      by_test :
          (test : Bool)
          → Ensures Matched
              (if test then ok (λ side. none) else touch_entries anchors triggers policy setups)
      by_test true = (λ s. tt, inl (λ s. refl))
      by_test false = Ensures-raise_if Matched (not (unique_sides triggers)) _ _ (λ unique.
          Ensures->>= (λ r. (s : Side) → OfSide s (r s)) Matched
            (each_setup anchors triggers policy setups (λ side. none)) _
            (each_setup-Ensures setups (λ side. none) (λ s. tt))
            (λ out entries.
              Ensures-raise_if Matched (not (sides_match anchors triggers policy out)) _ (ok out)
                (λ n.
                  let both : sides_match anchors triggers policy out ≡ true = ground arith in
                  (
                    entries,
                    inr (
                        by_side (λ s. side_matches anchors triggers policy out s ≡ true)
                          (and_left _ _ both) (and_right _ _ both)),
                  ))))

  -- For floats whose sums and differences round without crossing a term: unless the projection of
  -- potential entries is an error, the entry of a side comes from a setup and the trigger of that
  -- side with its aligned `close_ok` trace, and its prices are ordered as the side asks; and
  -- either no side has an entry, or exactly the sides of the triggers have one.
  pub project_potential_entries-Ensures :
      (setups : List Setup)
      → Ensures
          (λ out.
            ((s : Side) → EntryOf anchors triggers policy s (out s))
            × (((s : Side) → out s ≡ none)
                ⊎ ((s : Side) → side_matches anchors triggers policy out s ≡ true)))
          (project_potential_entries anchors triggers policy setups)
  unfolding project_potential_entries
  project_potential_entries-Ensures setups = by_component-Ensures setups (shared_component triggers)
