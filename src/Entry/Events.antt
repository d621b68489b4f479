-- ===== src/Entry/Events.antt =====
-- `build_decision_events` (src/strategy_engine/strategies/decision_events.py).
use strategy_engine.Prelude.{
  ℕ, zero, suc, Bool, true, false, ◌&&◌, ◌||◌, Option, none, some, List, [], ◌∷◌, if◌then◌else◌,
}
use strategy_engine.Result.{Result, ok, err, Error, ◌>>=◌}
use strategy_engine.Entry.Masks.{Side, Mask}

pub record DecisionEntry (F : Type 0) : Type 0 where
  pub side : Side
  pub stop_loss_ratio : Option F
  pub take_profit_ratio : Option F

-- `DecisionSignalExit` and `DecisionStopReady`
pub record SideFlags : Type 0 where
  pub long : Bool
  pub short : Bool

pub record DecisionEvent (F : Type 0) : Type 0 where
  pub bar_index : ℕ
  pub entry : Option (DecisionEntry F)
  pub signal_exit : Option SideFlags
  pub stop_ready : Option SideFlags

pub record Inputs (F : Type 0) : Type 0 where
  pub entries_long : Mask
  pub entries_short : Mask
  pub stop_loss_ratio_long : ℕ → Option F
  pub stop_loss_ratio_short : ℕ → Option F
  pub take_profit_ratio_long : ℕ → Option F
  pub take_profit_ratio_short : ℕ → Option F
  pub signal_exit_long : Mask
  pub signal_exit_short : Mask
  pub stop_ready_long : Mask
  pub stop_ready_short : Mask

abbrev flags : Bool → Bool → Option SideFlags
flags long short = if long || short then some (record { long = long; short = short }) else none

abbrev is_some {ℓ} : {A : Type ℓ} → Option A → Bool
is_some none = false
is_some (some a) = true

module _ {F : Type 0} where
  abbrev entry_of : Inputs F → ℕ → Option (DecisionEntry F)
  entry_of x i =
      if x.entries_long i
      then some (record {
        side = Side.long;
        stop_loss_ratio = x.stop_loss_ratio_long i;
        take_profit_ratio = x.take_profit_ratio_long i;
      })
      else (if x.entries_short i
          then some (record {
            side = Side.short;
            stop_loss_ratio = x.stop_loss_ratio_short i;
            take_profit_ratio = x.take_profit_ratio_short i;
          })
          else none)

  abbrev pub event_of : Inputs F → ℕ → DecisionEvent F
  event_of x i = record {
    bar_index = i;
    entry = entry_of x i;
    signal_exit = flags (x.signal_exit_long i) (x.signal_exit_short i);
    stop_ready = flags (x.stop_ready_long i) (x.stop_ready_short i);
  }

  abbrev pub says_something : DecisionEvent F → Bool
  says_something e = is_some e.entry || is_some e.signal_exit || is_some e.stop_ready

  -- The body of the loop, in front of the events of the later bars.
  unfoldable pub bar_events :
      Inputs F → ℕ → Result (List (DecisionEvent F)) → Result (List (DecisionEvent F))
  bar_events x i rest =
      if x.entries_long i && x.entries_short i
      then err (
          Error.evaluation_invariant_broken
            "entries[long] and entries[short] were both true on the same bar")
      else (rest >>= λ later.
          ok (if says_something (event_of x i) then event_of x i ∷ later else later))

  -- The events of the `count` bars from `i` on.
  unfoldable pub build_from : Inputs F → ℕ → ℕ → Result (List (DecisionEvent F))
  build_from x i zero = ok []
  build_from x i (suc count) = let rest = build_from x (suc i) count in bar_events x i rest

  unfoldable pub build_decision_events :
      Inputs F → (bar_count : ℕ) → Result (List (DecisionEvent F))
  build_decision_events x bar_count = build_from x 0 bar_count
