-- ===== src/Managed/Folded.antt =====
-- The conditions of phase rules, composite ones included, are folded and evaluated.
use strategy_engine.Prelude.{ℕ, ◌≡◌, List, [], ◌∷◌, All, All-map}
use strategy_engine.Float.{Float}
use strategy_engine.Result.{Result, ok}
use strategy_engine.Composite.Spec.{Child, CompositePath}
use strategy_engine.Composite.Fold.{PhaseChild, FoldedComposite, fold_phase_paths, composite_met}
use strategy_engine.Managed.Data.{State, Condition, ChangeSinceEntry, RuleCondition, PhaseRule}
use strategy_engine.Managed.Phases.{
  phase_met, change_met, composite_phase_met, rule_met, fold_of, fold_composite_rules,
}
use strategy_engine.Managed.Atoms.{Succeeds, Succeeds->>=, SupportedCondition, phase_met-Succeeds}
use strategy_engine.Managed.Children.{KnownRefs, TradeBody, composite_met-Succeeds}

module _ {F : Type 0} ⦃f : Float F⦄ where
  -- A composite that is folded from children with supported trade conditions, and whose paths name
  -- these children.
  pub record SupportedComposite (fold : Result (FoldedComposite (Condition F) (ChangeSinceEntry F)))
      : Type 0 where
    pub children : List (Child (PhaseChild (Condition F) (ChangeSinceEntry F)))
    pub paths : List CompositePath
    pub folds : fold ≡ ok (fold_phase_paths children paths)
    pub trades : All (λ c. TradeBody SupportedCondition c.body) children
    pub known : All (KnownRefs children) paths

  abbrev pub SupportedRule : RuleCondition F → Type 0
  SupportedRule (RuleCondition.atomic c) = SupportedCondition c
  SupportedRule (RuleCondition.composite fold) = SupportedComposite fold

  body-Succeeds :
      (size : ℕ) (s : State F) (index : ℕ) (b : PhaseChild (Condition F) (ChangeSinceEntry F))
      → TradeBody SupportedCondition b
      → TradeBody (λ c. Succeeds (phase_met size c s index)) b
  body-Succeeds size s index (PhaseChild.market m) h = tt
  body-Succeeds size s index (PhaseChild.entry_change e) h = tt
  body-Succeeds size s index (PhaseChild.trade t) h = phase_met-Succeeds size t s index h

  pub rule_met-Succeeds :
      (size : ℕ) (c : RuleCondition F) (s : State F) (index : ℕ)
      → SupportedRule c
      → Succeeds (rule_met size c s index)
  unfolding composite_phase_met
  rule_met-Succeeds size (RuleCondition.atomic c) s index h = phase_met-Succeeds size c s index h
  rule_met-Succeeds size (RuleCondition.composite fold) s index h = rw h.folds (
      Succeeds->>=
        (composite_met (fold_phase_paths h.children h.paths) index (λ c. phase_met size c s index)
          (change_met size s index))
        _
        (composite_met-Succeeds h.children h.paths index (λ c. phase_met size c s index)
          (change_met size s index)
          (All-map _ _ (λ c t. body-Succeeds size s index c.body t) h.children h.trades) h.known)
        (λ met. tt))

  fold_of-Succeeds : (c : RuleCondition F) → SupportedRule c → Succeeds (fold_of c)
  fold_of-Succeeds (RuleCondition.atomic c) h = tt
  fold_of-Succeeds (RuleCondition.composite fold) h = rw h.folds tt

  pub fold_composite_rules-Succeeds :
      (rules : List (PhaseRule F))
      → All (λ r. SupportedRule r.condition) rules
      → Succeeds (fold_composite_rules rules)
  unfolding fold_composite_rules
  fold_composite_rules-Succeeds [] h = tt
  fold_composite_rules-Succeeds (rule ∷ rules) h =
      Succeeds->>= (fold_of rule.condition) _ (fold_of-Succeeds rule.condition h.0)
        (λ folded. fold_composite_rules-Succeeds rules h.1)
