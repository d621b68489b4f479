-- ===== src/Potential/Project.antt =====
-- `project_potential_entries` and what it calls, of
-- src/strategy_engine/strategies/ema_pullback/potential_entries.py, and `touch_anchor_close_ok` of
-- triggers.py beside it. The anchor series arrives read, as a tuple.
use Prim.Native.String.{String}
use text.Mathlib.Text.{◌==◌ as str_eq}
pub use strategy_engine.Trade.{Side}
use strategy_engine.Prelude.{
  ℕ, ◌==◌, Bool, true, false, not, ◌&&◌, Option, none, some, List, [], ◌∷◌, map, length, any, all,
  if◌then◌else◌,
}
use strategy_engine.Float.{Float}
use strategy_engine.Result.{Result, ok, err, Error, ◌>>=◌, ◌>>◌, raise_if}

abbrev pub same_side : Side → Side → Bool
same_side Side.long Side.long = true
same_side Side.short Side.short = true
same_side _ _ = false

pub record Setup : Type 0 where
  pub side : Side
  pub pre_trigger_allowed : List Bool

-- An item of the `close_ok` trace is `none` where it is not a bool.
pub record Trigger : Type 0 where
  pub side : Side
  pub component_id : String
  pub allowed : List Bool
  pub close_ok : Option (List (Option Bool))

pub record Distances (F : Type 0) : Type 0 where
  pub stops : List (Option F)
  pub takes : List (Option F)

pub record ExitPolicy (F : Type 0) : Type 0 where
  pub on_long : Distances F
  pub on_short : Distances F

pub record PotentialEntry (F : Type 0) : Type 0 where
  pub side : Side
  pub entry_price : List (Option F)
  pub stop_price : List (Option F)
  pub take_price : List (Option F)

-- The values of one bar, and its prices.
pub record BarInput (F : Type 0) : Type 0 where
  pub allowed : Bool
  pub close_ok : Bool
  pub anchor : Option F
  pub stop_distance : Option F
  pub take_distance : Option F

pub record Prices (F : Type 0) : Type 0 where
  pub entry : F
  pub stop : F
  pub take : F

abbrev bools : List (Option Bool) → Option (List Bool)
bools [] = some []
bools (none ∷ xs) = none
bools (some b ∷ xs) = elim (bools xs) [ none ↦ none | some bs ↦ some (b ∷ bs) ]

abbrev aligned : Option (List Bool) → ℕ → Result (List Bool)
aligned (some bs) n =
    raise_if (not (length bs == n))
      (Error.invalid_request "must expose a bar-aligned boolean close_ok trace")
    >> ok bs
aligned none n = err (Error.invalid_request "must expose a bar-aligned boolean close_ok trace")

abbrev trace_of : Option (List (Option Bool)) → Option (List Bool)
trace_of none = none
trace_of (some values) = bools values

unfoldable pub touch_anchor_close_ok : Trigger → Result (List Bool)
touch_anchor_close_ok t =
    raise_if (not (str_eq t.component_id "touch_anchor"))
      (Error.invalid_request "potential entry trigger must be touch_anchor")
    >> aligned (trace_of t.close_ok) (length t.allowed)

module _ {F : Type 0} where
  abbrev pub distances_for : ExitPolicy F → Side → Distances F
  distances_for policy Side.long = policy.on_long
  distances_for policy Side.short = policy.on_short

  abbrev pub zip_bars :
      List Bool
      → List Bool
      → List (Option F)
      → List (Option F)
      → List (Option F)
      → List (BarInput F)
  zip_bars (a ∷ oks) (c ∷ cs) (x ∷ xs) (s ∷ ss) (t ∷ ts) =
      record { allowed = a; close_ok = c; anchor = x; stop_distance = s; take_distance = t }
      ∷ zip_bars oks cs xs ss ts
  zip_bars _ _ _ _ _ = []

  abbrev pub price_of : (Prices F → F) → Option (Prices F) → Option F
  price_of g none = none
  price_of g (some p) = some (g p)

  -- The output dict, by side.
  abbrev pub put :
      Side
      → PotentialEntry F
      → (Side → Option (PotentialEntry F))
      → Side
      → Option (PotentialEntry F)
  put side e out s = if same_side side s then some e else out s

abbrev pub find : List Trigger → Side → Option Trigger
find [] side = none
find (t ∷ ts) side = let rest = find ts side in if same_side t.side side then some t else rest

abbrev pub has_trigger : List Trigger → Side → Bool
has_trigger ts side = any (λ t. same_side t.side side) ts

abbrev pub unique_sides : List Trigger → Bool
unique_sides [] = true
unique_sides (t ∷ ts) = not (has_trigger ts t.side) && unique_sides ts

-- The one component of the triggers, if there is one.
abbrev pub shared_component : List Trigger → Option String
shared_component [] = none
shared_component (t ∷ ts) =
    if all (λ u. str_eq u.component_id t.component_id) ts then some t.component_id else none

module _ {F : Type 0} ⦃f : Float F⦄ where
  abbrev pub positive : F → Bool
  positive x = f.is_finite x && f.lt f.nought x

  abbrev pub prices_at : Side → F → F → F → Prices F
  prices_at Side.long a s t = record { entry = a; stop = f.sub a s; take = f.add a t }
  prices_at Side.short a s t = record { entry = a; stop = f.add a s; take = f.sub a t }

  abbrev pub checked : Prices F → Option (Prices F)
  checked p = if not (positive p.entry && positive p.stop && positive p.take) then none else some p

  abbrev pub priced : Side → Option F → Option F → Option F → Option (Prices F)
  priced side (some a) (some s) (some t) =
      if not (positive a && positive s && positive t) then none else checked (prices_at side a s t)
  priced side _ _ _ = none

  unfoldable pub project_bar : Side → BarInput F → Option (Prices F)
  project_bar side b =
      if b.allowed && b.close_ok then priced side b.anchor b.stop_distance b.take_distance else none

  unfoldable pub project_side :
      Setup
      → List Bool
      → List (Option F)
      → List (Option F)
      → List (Option F)
      → Result (PotentialEntry F)
  project_side setup close_ok anchors stops takes =
      let n = length anchors in
      let bars =
        map (project_bar setup.side)
          (zip_bars setup.pre_trigger_allowed close_ok anchors stops takes) in
      raise_if
        (not (
          length setup.pre_trigger_allowed == n
          && length close_ok == n
          && length stops == n
          && length takes == n))
        (Error.invalid_request "potential entry inputs must share the bar axis")
      >> ok (record {
        side = setup.side;
        entry_price = map (price_of (λ p. p.entry)) bars;
        stop_price = map (price_of (λ p. p.stop)) bars;
        take_price = map (price_of (λ p. p.take)) bars;
      })

  module _ (anchors : List (Option F)) (triggers : List Trigger) (policy : ExitPolicy F) where
    abbrev pub entry_of : Setup → Option Trigger → Result (PotentialEntry F)
    entry_of setup none =
        err (Error.invalid_request "missing trigger evaluation for potential entry side")
    entry_of setup (some t) = touch_anchor_close_ok t >>= λ close_ok.
        project_side setup close_ok anchors (distances_for policy setup.side).stops
          (distances_for policy setup.side).takes

    abbrev pub each_setup :
        List Setup → (Side → Option (PotentialEntry F)) → Result (Side → Option (PotentialEntry F))
    each_setup [] out = ok out
    each_setup (s ∷ ss) out =
        entry_of s (find triggers s.side) >>= λ e. each_setup ss (put s.side e out)

    -- `set(trigger_by_side) == set(output)`
    abbrev is_some : Option (PotentialEntry F) → Bool
    is_some none = false
    is_some (some e) = true

    abbrev pub side_matches : (Side → Option (PotentialEntry F)) → Side → Bool
    side_matches out side =
        if is_some (out side) then has_trigger triggers side else not (has_trigger triggers side)

    abbrev pub sides_match : (Side → Option (PotentialEntry F)) → Bool
    sides_match out = side_matches out Side.long && side_matches out Side.short

    -- What follows for touches of the anchor.
    abbrev pub touch_entries : List Setup → Result (Side → Option (PotentialEntry F))
    touch_entries setups =
        raise_if (not (unique_sides triggers))
          (Error.invalid_request "potential entry triggers must have unique sides")
        >> (each_setup setups (λ side. none) >>= λ out.
            raise_if (not (sides_match out))
              (Error.invalid_request "setup and trigger sides must match")
            >> ok out)

    abbrev pub by_component : Option String → List Setup → Result (Side → Option (PotentialEntry F))
    by_component none setups =
        err (Error.invalid_request "potential entry triggers must share one component")
    by_component (some id) setups =
        if not (str_eq id "touch_anchor") then ok (λ side. none) else touch_entries setups

    unfoldable pub project_potential_entries :
        List Setup → Result (Side → Option (PotentialEntry F))
    project_potential_entries setups = by_component (shared_component triggers) setups
