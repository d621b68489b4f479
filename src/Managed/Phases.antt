-- ===== src/Managed/Phases.antt =====
-- `_update_extremes`, `_phase_met` and the phase rules of the managed-exit replay
-- (src/strategy_engine/strategies/ema_pullback/managed.py).
use strategy_engine.Prelude.{
  ℕ, ◌+◌, ◌-◌, leb, ltb, Bool, true, false, not, ◌&&◌, ◌||◌, Option, none, some, List, [], ◌∷◌,
  ◌++◌, if◌then◌else◌,
}
use strategy_engine.Float.{Float, max, min}
use strategy_engine.Result.{Result, ok, err, Error, ◌>>=◌, ◌>>◌, raise_if}
use strategy_engine.Managed.Data.{
  Side, Phase, rank, Series, State, Condition, ChangeSinceEntry, RuleCondition, PhaseRule, Event,
  Replay,
}
use strategy_engine.Predicate.Evaluate.{compare_by}
use strategy_engine.Composite.Fold.{FoldedComposite, composite_met, is_some}

-- `_at_least`
abbrev pub at_least : Phase → Phase → Bool
at_least current threshold = leb (rank threshold) (rank current)

-- A `for` loop over rules that may raise.
abbrev pub for_each {ℓ κ} : {R : Type ℓ} {S : Type κ} → (R → S → Result S) → List R → S → Result S
for_each step [] s = ok s
for_each step (r ∷ rs) s = step r s >>= λ s'. for_each step rs s'

abbrev positive_count : ℕ → Result ℕ
positive_count value =
    raise_if (ltb value 1) (Error.invalid_request "must be an integer >= 1") >> ok value

module _ {F : Type 0} ⦃f : Float F⦄ where
  abbrev pub feature_value : ℕ → Option (Series F) → ℕ → Option F
  feature_value size none index = none
  feature_value size (some values) index = if ltb index size then values index else none

  abbrev long_extremes : F → F → State F → State F
  long_extremes high low s =
      let best = max s.best_price high in
      let worst = min s.worst_price low in
      record s {
        best_price = best;
        worst_price = worst;
        mfe_price = best;
        mae_price = worst;
        mfe_pct = f.div (f.sub best s.entry_price) s.entry_price;
        mae_pct = f.div (f.sub s.entry_price worst) s.entry_price;
      }

  abbrev short_extremes : F → F → State F → State F
  short_extremes high low s =
      let best = min s.best_price low in
      let worst = max s.worst_price high in
      record s {
        best_price = best;
        worst_price = worst;
        mfe_price = best;
        mae_price = worst;
        mfe_pct = f.div (f.sub s.entry_price best) s.entry_price;
        mae_pct = f.div (f.sub worst s.entry_price) s.entry_price;
      }

  abbrev extremes_of : Side → F → F → State F → State F
  extremes_of Side.long high low s = long_extremes high low s
  extremes_of Side.short high low s = short_extremes high low s

  unfoldable pub update_extremes : ℕ → F → F → State F → State F
  update_extremes index high low s =
      extremes_of s.side high low (record s { bars_in_trade = index - s.entry_index + 1 })

  -- `_float(value, path, positive=True)` of a number
  abbrev positive_float : F → Result F
  positive_float value =
      raise_if (not (f.is_finite value) || f.le value f.nought)
        (Error.invalid_request "must be finite and positive")
      >> ok value

  -- `mfe_atr`: unmet until the ATR is ready and positive
  abbrev mfe_atr_met : F → State F → Option F → Bool
  mfe_atr_met threshold s none = false
  mfe_atr_met threshold s (some value) =
      if f.le value f.nought
      then false
      else f.le (f.mul threshold value) (f.abs (f.sub s.mfe_price s.entry_price))

  -- |mfe - entry| in units of the initial risk; `none` without a positive risk
  abbrev pub mfe_in_r : State F → Option F → Option F
  mfe_in_r s none = none
  mfe_in_r s (some risk) =
      if f.le risk f.nought
      then none
      else some (f.div (f.abs (f.sub s.mfe_price s.entry_price)) risk)

  abbrev reached : F → Option F → Bool
  reached threshold none = false
  reached threshold (some r) = f.le threshold r

  abbrev di_aligned : Side → F → F → Bool
  di_aligned Side.long plus minus = f.lt minus plus
  di_aligned Side.short plus minus = f.lt plus minus

  abbrev adx_di_met : F → Bool → Side → Option F → Option F → Option F → Result Bool
  adx_di_met threshold require side (some adx) (some plus) (some minus) =
      positive_float threshold >>= λ t.
      ok (f.le t adx && (not require || di_aligned side plus minus))
  adx_di_met threshold require side _ _ _ = ok false

  -- `_phase_met`
  unfoldable pub phase_met : ℕ → Condition F → State F → ℕ → Result Bool
  phase_met size (Condition.bars_in_trade threshold) s index =
      positive_count threshold >>= λ t. ok (leb t s.bars_in_trade)
  phase_met size (Condition.mfe_pct threshold) s index =
      positive_float threshold >>= λ t. ok (f.le t s.mfe_pct)
  phase_met size (Condition.mfe_atr threshold atr) s index =
      positive_float threshold >>= λ t. ok (mfe_atr_met t s (feature_value size atr index))
  phase_met size (Condition.mfe_r threshold) s index =
      positive_float threshold >>= λ t. ok (reached t (mfe_in_r s s.risk))
  phase_met size (Condition.adx_di_threshold threshold adx plus minus require) s index =
      adx_di_met threshold require s.side (feature_value size adx index)
        (feature_value size plus index) (feature_value size minus index)
  phase_met size Condition.unsupported s index =
      err (Error.invalid_request "unsupported phase condition")

  -- `ChangeSinceEntry.met`
  abbrev difference_met : ChangeSinceEntry F → Option F → Option F → Bool
  difference_met change (some current) (some anchor) =
      f.is_finite current
      && f.is_finite anchor
      && compare_by change.op (f.sub current anchor) change.value
  difference_met change _ _ = false

  -- A `change_since_entry` child, from the entry bar to the bar at hand.
  abbrev pub change_met : ℕ → State F → ℕ → ChangeSinceEntry F → Bool
  change_met size s index change =
      difference_met change (feature_value size change.feature index)
        (feature_value size change.feature s.entry_index)

  -- `_composite_phase_met`
  unfoldable pub composite_phase_met :
      ℕ → FoldedComposite (Condition F) (ChangeSinceEntry F) → State F → ℕ → Result Bool
  composite_phase_met size folded s index =
      composite_met folded index (λ c. phase_met size c s index) (change_met size s index)
      >>= λ met. ok (is_some met)

  -- The condition of a rule, atomic or folded.
  abbrev pub rule_met : ℕ → RuleCondition F → State F → ℕ → Result Bool
  rule_met size (RuleCondition.atomic c) s index = phase_met size c s index
  rule_met size (RuleCondition.composite fold) s index =
      fold >>= λ folded. composite_phase_met size folded s index

  abbrev pub fold_of : RuleCondition F → Result (Unit {0})
  fold_of (RuleCondition.atomic c) = ok tt
  fold_of (RuleCondition.composite fold) = fold >>= λ folded. ok tt

  -- `_fold_composite_rules`: the first error of a parser or a fold is raised.
  unfoldable pub fold_composite_rules : List (PhaseRule F) → Result (Unit {0})
  fold_composite_rules [] = ok tt
  fold_composite_rules (rule ∷ rules) = fold_of rule.condition >> fold_composite_rules rules

  -- The body of the phase loop once its condition is met.
  unfoldable pub enter_phase : ℕ → PhaseRule F → Replay F → Replay F
  enter_phase index rule r = record r {
    state = record r.state {
      phase = rule.to_phase;
      max_phase_reached =
          if ltb (rank r.state.max_phase_reached) (rank rule.to_phase)
          then rule.to_phase
          else r.state.max_phase_reached;
    };
    events =
        r.events
        ++ (Event.phase_changed index rule.rule_id r.state.phase rule.to_phase r.state.mfe_price
            ∷ []);
  }

  abbrev pub enter_if : Bool → ℕ → PhaseRule F → Replay F → Replay F
  enter_if true index rule r = enter_phase index rule r
  enter_if false index rule r = r

  unfoldable pub phase_step : ℕ → ℕ → PhaseRule F → Replay F → Result (Replay F)
  phase_step size index rule r =
      if leb (rank rule.to_phase) (rank r.state.phase)
      then ok r
      else rule_met size rule.condition r.state index >>= λ met. ok (enter_if met index rule r)
