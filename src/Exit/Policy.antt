-- ===== src/Exit/Policy.antt =====
-- `evaluate_exit_policy` of src/strategy_engine/strategies/ema_pullback/exits.py. The memo of the
-- evaluation context is left out: every node is computed where it is consumed.
use Prim.Native.String.{String}
use text.Mathlib.Text.{◌==◌ as str_eq}
use strategy_engine.Prelude.{
  ℕ, Bool, true, false, not, ◌&&◌, Option, none, some, List, [], ◌∷◌, ◌++◌, any, all, map,
  if◌then◌else◌,
}
use strategy_engine.Float.{Float}
use strategy_engine.Result.{Result, ok, err, Error, ◌>>=◌, each}
use strategy_engine.Trade.{Side, long, short}
use strategy_engine.Pandas.{RollingMax, RollingMin, RowMin}
use strategy_engine.Exit.Rules.{
  Rule, never, Family, signal, distance, partial_take, text_or, exit_rule_head, signal_rule,
  distance_rule, partial_take_fraction,
}

-- The names of `_PROFILE_ORDER`, which the consumption record gives for each bar.
pub data Profile : Type 0 where
  aligned countertrend neutral : Profile

pub record Groups (F : Type 0) : Type 0 where
  pub always_on : List (Rule F)
  pub aligned : List (Rule F)
  pub countertrend : List (Rule F)
  pub neutral : List (Rule F)

-- What an evaluated rule leaves in the maps by instance id.
pub record Evaluated (F : Type 0) : Type 0 where
  pub instance_id : String
  pub family : Family
  pub signal_long : ℕ → Bool
  pub signal_short : ℕ → Bool
  pub distance : ℕ → F
  pub ratio : ℕ → F

pub record Config (F : Type 0) : Type 0 where
  pub length : ℕ
  pub close : ℕ → F
  pub one : F
  pub long_enabled : Bool
  pub short_enabled : Bool
  pub profile_long : ℕ → Profile
  pub profile_short : ℕ → Profile

-- The series of a side.
pub record SideExits (F : Type 0) : Type 0 where
  pub signal_exit : ℕ → Bool
  pub stop_loss_ratio : ℕ → F
  pub take_profit_ratio : ℕ → F
  pub stop_loss_distance : ℕ → F
  pub take_profit_distance : ℕ → F
  pub stop_ready : ℕ → Bool

module _ {F : Type 0} where
  abbrev pub group_of : Groups F → Profile → List (Rule F)
  group_of g Profile.aligned = g.aligned
  group_of g Profile.countertrend = g.countertrend
  group_of g Profile.neutral = g.neutral

  -- The rules in the order in which the groups are evaluated.
  abbrev pub all_rules : Groups F → List (Rule F)
  all_rules g = g.always_on ++ (g.aligned ++ (g.countertrend ++ g.neutral))

  -- `groups["always_on"] + groups[profile]`
  abbrev pub selected : Groups F → Profile → List (Rule F)
  selected g p = g.always_on ++ group_of g p

  -- The ids of the rules of a kind, in the declared order; signals are the default kind.
  abbrev pub is_kind : String → String → Rule F → Bool
  is_kind default kind rule = str_eq (text_or default rule.exit_kind) kind

  unfoldable pub ids_of : (Rule F → Bool) → List (Rule F) → List String
  ids_of test [] = []
  ids_of test (r ∷ rs) =
      if test r then text_or "None" r.instance_id ∷ ids_of test rs else ids_of test rs

  -- A map by instance id, where the last entry of a key counts.
  unfoldable pub find : (Evaluated F → Bool) → String → List (Evaluated F) → Option (Evaluated F)
  find test id [] = none
  find test id (e ∷ es) = elim (find test id es) [
    | some later ↦ some later
    | none ↦ if test e && str_eq e.instance_id id then some e else none
  ]

  abbrev pub is_signal : Evaluated F → Bool
  is_signal e = elim e.family [ signal ↦ true | _ ↦ false ]

  abbrev pub is_distance : Evaluated F → Bool
  is_distance e = not (is_signal e)

  -- `[by_instance[instance_id] for instance_id in ids]`
  abbrev pub found : Option (Evaluated F) → Result (Evaluated F)
  found none = err (Error.raised "KeyError")
  found (some e) = ok e

  unfoldable pub gather :
      (Evaluated F → Bool) → List (Evaluated F) → List String → Result (List (Evaluated F))
  gather test es ids = each (λ id. found (find test id es)) ids

module _ {F : Type 0} ⦃f : Float F⦄ where
  -- The entries of a signal rule, and of a distance rule.
  abbrev pub of_signals : String → (ℕ → Bool) → (ℕ → Bool) → Evaluated F
  of_signals id on_long on_short = record {
    instance_id = id;
    family = signal;
    signal_long = on_long;
    signal_short = on_short;
    distance = λ _. f.nan;
    ratio = λ _. f.nan;
  }

  abbrev pub of_distances : String → Family → (ℕ → F) × (ℕ → F) → Evaluated F
  of_distances id family both = record {
    instance_id = id;
    family = family;
    signal_long = never;
    signal_short = never;
    distance = both.0;
    ratio = both.1;
  }

module _ {F : Type 0} ⦃f : Float F⦄ (rolling_max : RollingMax) (rolling_min : RollingMin) where
  -- `_false_signal` on a side that is not enabled.
  abbrev pub side_signal : Bool → Config F → Rule F → Side → Result (ℕ → Bool)
  side_signal true c rule side = signal_rule rolling_max rolling_min c.close rule side
  side_signal false c rule side = ok never

  abbrev pub evaluate_family : Config F → Rule F → String → Family → Result (Evaluated F)
  evaluate_family c rule id signal = do
    signal_long ← side_signal c.long_enabled c rule long
    signal_short ← side_signal c.short_enabled c rule short
    ok (of_signals id signal_long signal_short)
  evaluate_family c rule id distance = do
    both ← distance_rule c.length c.close rule
    ok (of_distances id distance both)
  evaluate_family c rule id partial_take = do
    both ← distance_rule c.length c.close rule
    fraction ← partial_take_fraction c.one rule
    ok (of_distances id partial_take both)

  -- The loop's body for a rule.
  unfoldable pub evaluate_rule : Config F → Rule F → Result (Evaluated F)
  evaluate_rule c rule = exit_rule_head rule >>= λ h. evaluate_family c rule h.instance_id h.family

-- `_select` and `_select_bool`: the column of the bar's profile.
abbrev pub column {ℓ} : {A : Type ℓ} → A → A → A → Profile → A
column a b c Profile.aligned = a
column a b c Profile.countertrend = b
column a b c Profile.neutral = c

module _ {F : Type 0} where
  -- `_or`, `_min` and `_ready` on a bar.
  abbrev pub or_of : (Evaluated F → ℕ → Bool) → List (Evaluated F) → ℕ → Bool
  or_of signals es i = any (λ e. signals e i) es

  -- The rules that a profile reads.
  abbrev pub configured : String → List (Rule F) → Bool
  configured kind = any (is_kind "None" kind)

  abbrev pub select : SideExits F → SideExits F → SideExits F → (ℕ → Profile) → SideExits F
  select a b c profile = record {
    signal_exit = λ i. column (a.signal_exit i) (b.signal_exit i) (c.signal_exit i) (profile i);
    stop_loss_ratio =
        λ i. column (a.stop_loss_ratio i) (b.stop_loss_ratio i) (c.stop_loss_ratio i) (profile i);
    take_profit_ratio = λ i.
        column (a.take_profit_ratio i) (b.take_profit_ratio i) (c.take_profit_ratio i) (profile i);
    stop_loss_distance = λ i.
        column (a.stop_loss_distance i) (b.stop_loss_distance i) (c.stop_loss_distance i)
          (profile i);
    take_profit_distance = λ i.
        column (a.take_profit_distance i) (b.take_profit_distance i) (c.take_profit_distance i)
          (profile i);
    stop_ready = λ i. column (a.stop_ready i) (b.stop_ready i) (c.stop_ready i) (profile i);
  }

module _ {F : Type 0} ⦃f : Float F⦄ where
  -- `notna()`
  abbrev pub is_number : F → Bool
  is_number a = f.le a a

  unfoldable pub ready : F → F → Bool → Bool → List F → Bool
  ready sl tp sl_configured tp_configured partial_takes =
      (if sl_configured then is_number sl else true)
      && ((if tp_configured then is_number tp else true) && all is_number partial_takes)

module _ {F : Type 0} ⦃f : Float F⦄ (row_min : RowMin F) where
  unfoldable pub min_of : (Evaluated F → ℕ → F) → List (Evaluated F) → ℕ → F
  min_of ratios [] i = f.nan
  min_of ratios (e ∷ es) i = row_min (map (λ x. ratios x i) (e ∷ es))

  -- The aggregates of a profile over its partial takes, signals, stops and profits.
  abbrev pub aggregate :
      (Evaluated F → ℕ → Bool)
      → List (Rule F)
      → (takes signal_rules stops profits : List (Evaluated F)) → SideExits F
  aggregate signals rules takes signal_rules stops profits = record {
    signal_exit = or_of signals signal_rules;
    stop_loss_ratio = min_of (λ e. e.ratio) stops;
    take_profit_ratio = min_of (λ e. e.ratio) profits;
    stop_loss_distance = min_of (λ e. e.distance) stops;
    take_profit_distance = min_of (λ e. e.distance) profits;
    stop_ready = λ i.
        ready (min_of (λ e. e.ratio) stops i) (min_of (λ e. e.ratio) profits i)
          (configured "stop_loss" rules) (configured "take_profit" rules)
          (map (λ e. Evaluated.ratio e i) takes);
  }

  unfoldable pub profile_exits :
      (Evaluated F → ℕ → Bool) → Groups F → List (Evaluated F) → Profile → Result (SideExits F)
  profile_exits signals g es p = do
    takes ← gather is_distance es (ids_of (is_kind "None" "partial_take") (selected g p))
    signal_rules ← gather is_signal es (ids_of (is_kind "signal" "signal") (selected g p))
    stops ← gather is_distance es (ids_of (is_kind "None" "stop_loss") (selected g p))
    profits ← gather is_distance es (ids_of (is_kind "None" "take_profit") (selected g p))
    ok (aggregate signals (selected g p) takes signal_rules stops profits)

  unfoldable pub side_exits :
      (Evaluated F → ℕ → Bool)
      → (ℕ → Profile)
      → Groups F
      → List (Evaluated F)
      → Result (SideExits F)
  side_exits signals profile g es = do
    a ← profile_exits signals g es Profile.aligned
    b ← profile_exits signals g es Profile.countertrend
    c ← profile_exits signals g es Profile.neutral
    ok (select a b c profile)

module _ {F : Type 0} ⦃f : Float F⦄ (rolling_max : RollingMax) (rolling_min : RollingMin)
    (row_min : RowMin F) where
  -- The exits of the long side and of the short side.
  unfoldable pub evaluate_exit_policy : Config F → Groups F → Result (SideExits F × SideExits F)
  evaluate_exit_policy c g = do
    es ← each (evaluate_rule rolling_max rolling_min c) (all_rules g)
    long_exits ← side_exits row_min (λ e. e.signal_long) c.profile_long g es
    short_exits ← side_exits row_min (λ e. e.signal_short) c.profile_short g es
    ok (long_exits, short_exits)
