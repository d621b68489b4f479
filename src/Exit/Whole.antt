-- ===== src/Exit/Whole.antt =====
-- The exits of a policy whose instance ids are unique.
use Prim.Native.String.{String}
use text.Mathlib.Text.{◌==◌ as str_eq}
use strategy_engine.Prelude.{
  All-zip, ℕ, ◌≡◌, refl, ◌∙◌, ap, Bool, true, false, not, Option, none, some, List, [], ◌++◌, All,
  All-map, map,
}
use strategy_engine.Float.{Float}
use strategy_engine.Result.{ok, each}
use strategy_engine.Trade.{Side}
use strategy_engine.Pandas.{RollingMax, RollingMin, RowMin, IsRowMin}
use strategy_engine.Exit.Rules.{Rule, text_or}
use strategy_engine.Exit.Policy.{
  Groups, Evaluated, Config, Profile, SideExits, all_rules, selected, group_of, find, evaluate_rule,
  is_signal, is_distance, evaluate_exit_policy,
}
use strategy_engine.Unique.{unique_from, unique_from-Distinct, unique_from-named}
use strategy_engine.Exit.Found.{All-left, All-right, All-both, id_of, Distinct-IsFound}
use strategy_engine.Exit.Value.{
  signal_at, distance_at, signal_kind, IsOf, value_of, value_of-own, each-value_of,
}
use strategy_engine.Exit.Aggregate.{InForce, Known}
use strategy_engine.Exit.InForce.{side_exits-InForce}

module _ {F : Type 0} where
  named_from :
      (r : Rule F) (o : Option String)
      → str_eq (text_or "" o) "" ≡ false
      → text_or "None" o ≡ text_or "" o
  named_from r none h = cc
  named_from r (some id) h = refl

module _ {F : Type 0} where
  selected-All :
      (P : Rule F → Type 0) (g : Groups F) (p : Profile)
      → All P (all_rules g)
      → All P (selected g p)
  selected-All P g p h =
      let rest = All-right P g.always_on (g.aligned ++ (g.countertrend ++ g.neutral)) h in
      let last = All-right P g.aligned (g.countertrend ++ g.neutral) rest in
      All-both P g.always_on (group_of g p) (All-left P g.always_on _ h) (by_profile p rest last)
    where
      by_profile :
          (q : Profile)
          → All P (g.aligned ++ (g.countertrend ++ g.neutral))
          → All P (g.countertrend ++ g.neutral)
          → All P (group_of g q)
      by_profile Profile.aligned rest last = All-left P g.aligned (g.countertrend ++ g.neutral) rest
      by_profile Profile.countertrend rest last = All-left P g.countertrend g.neutral last
      by_profile Profile.neutral rest last = All-right P g.countertrend g.neutral last

module _ {F : Type 0} ⦃f : Float F⦄ (rolling_max : RollingMax) (rolling_min : RollingMin)
    (c : Config F) where
  abbrev pub value : Rule F → Evaluated F
  value = value_of rolling_max rolling_min c

  abbrev pub long_signal : Rule F → ℕ → Bool
  long_signal r = signal_at rolling_max rolling_min c r Side.long c.long_enabled

  abbrev pub short_signal : Rule F → ℕ → Bool
  short_signal r = signal_at rolling_max rolling_min c r Side.short c.short_enabled

  abbrev pub rule_distance : Rule F → ℕ → F
  rule_distance r = (distance_at rolling_max rolling_min c r).0

  abbrev pub rule_ratio : Rule F → ℕ → F
  rule_ratio r = (distance_at rolling_max rolling_min c r).1

module _ {F : Type 0} ⦃f : Float F⦄ (rolling_max : RollingMax) (rolling_min : RollingMin)
    (row_min : RowMin F) (laws : IsRowMin row_min) (missing : f.le f.nan f.nan ≡ false)
    (c : Config F) (g : Groups F) where
  rules-Known :
      (signals : Evaluated F → ℕ → Bool) (signal_of : Rule F → ℕ → Bool)
      → unique_from id_of [] (all_rules g) ≡ ok tt
      → All
          (λ r. IsOf rolling_max rolling_min c r (value rolling_max rolling_min c r))
          (all_rules g)
      → ((r : Rule F)
          → IsOf rolling_max rolling_min c r (value rolling_max rolling_min c r)
          → signal_kind r ≡ true
          → signals (value rolling_max rolling_min c r) ≡ signal_of r)
      → All
          (Known row_min laws missing
            (value rolling_max rolling_min c)
            (map (value rolling_max rolling_min c) (all_rules g))
            signals
            signal_of
            (rule_distance rolling_max rolling_min c)
            (rule_ratio rolling_max rolling_min c))
          (all_rules g)
  rules-Known signals signal_of unique of gives =
      let rules = all_rules g in
      let es = map (value rolling_max rolling_min c) rules in
      let distinct = (unique_from-Distinct id_of [] rules unique).1 in
      let own = value_of-own rolling_max rolling_min c in
      let in_signals =
        Distinct-IsFound is_signal (value rolling_max rolling_min c) rules own distinct in
      let in_distances =
        Distinct-IsFound is_distance (value rolling_max rolling_min c) rules own distinct in
      All-map _ _
        (λ r h.
          let it = h.1.0 in
          (
            λ k.
                (ap (λ (id : String). find is_signal id es) h.0 ∙ h.1.1.0 (it.1 ∙ k), gives r it k),
            λ k. (
              ap (λ (id : String). find is_distance id es) h.0 ∙ h.1.1.1 (ap not (it.1 ∙ k)),
              (it.3 k).0,
              (it.3 k).1,
            ),
          ))
        rules
        (All-zip _ _ rules
          (All-map _ _ (λ (r : Rule F) h. named_from r r.instance_id h) rules
            (unique_from-named id_of [] rules unique))
          (All-zip _ _ rules of (All-zip _ _ rules in_signals in_distances)))

  -- With the documented row minimum of pandas and a NaN that is no number, if the instance ids of
  -- all exit rules pass the uniqueness check and each rule can be evaluated, the exit policy
  -- returns for both sides, and on each bar, over the always-on rules and those of the bar's
  -- profile: the exit signal is given exactly if a signal rule gives it, each stop and take level,
  -- as a ratio and as a distance, is the least number of its rules or no number if they have none,
  -- and the bar is ready exactly if each configured kind has a level and every partial take has a
  -- ratio.
  pub evaluate_exit_policy-InForce :
      unique_from id_of [] (all_rules g) ≡ ok tt
      → (es : List (Evaluated F))
      → each (evaluate_rule rolling_max rolling_min c) (all_rules g) ≡ ok es
      → (on_long : SideExits F) × (on_short : SideExits F) × (evaluate_exit_policy rolling_max
            rolling_min row_min c g
          ≡ ok (on_long, on_short))
        × ((i : ℕ)
            → InForce
                (long_signal rolling_max rolling_min c)
                (rule_distance rolling_max rolling_min c)
                (rule_ratio rolling_max rolling_min c)
                (selected g (c.profile_long i))
                on_long
                i
              × InForce
                  (short_signal rolling_max rolling_min c)
                  (rule_distance rolling_max rolling_min c)
                  (rule_ratio rolling_max rolling_min c)
                  (selected g (c.profile_short i))
                  on_short
                  i)
  unfolding evaluate_exit_policy
  evaluate_exit_policy-InForce unique es evaluated =
      let (same, of) = each-value_of rolling_max rolling_min c (all_rules g) es evaluated in
      let kept = map (value rolling_max rolling_min c) (all_rules g) in
      let long_known =
        rules-Known (λ e. e.signal_long) (long_signal rolling_max rolling_min c) unique of
          (λ r it k. (it.2 k).0) in
      let short_known =
        rules-Known (λ e. e.signal_short) (short_signal rolling_max rolling_min c) unique of
          (λ r it k. (it.2 k).1) in
      let (l, el, fl) =
        side_exits-InForce row_min laws missing (value rolling_max rolling_min c) kept
          (λ e. e.signal_long) (long_signal rolling_max rolling_min c)
          (rule_distance rolling_max rolling_min c) (rule_ratio rolling_max rolling_min c) g
          c.profile_long (λ p. selected-All _ g p long_known) in
      let (s, es', fs) =
        side_exits-InForce row_min laws missing (value rolling_max rolling_min c) kept
          (λ e. e.signal_short) (short_signal rolling_max rolling_min c)
          (rule_distance rolling_max rolling_min c) (rule_ratio rolling_max rolling_min c) g
          c.profile_short (λ p. selected-All _ g p short_known) in
      (
        l,
        s,
        rw (evaluated ∙ ap ok same, evaluate_exit_policy)
            (rw (el, evaluate_exit_policy) (rw es' refl)),
        λ i. (fl i, fs i),
      )
