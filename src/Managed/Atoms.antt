-- ===== src/Managed/Atoms.antt =====
-- Atomic phase conditions with positive thresholds are evaluated.
use strategy_engine.Prelude.{
  ℕ, ◌<◌, ◌≡◌, refl, arith, Bool, true, false, List, [], ◌∷◌, All, if◌then◌else◌,
}
use strategy_engine.Float.{Float}
use strategy_engine.Result.{Result, ok, err, ◌>>=◌}
use strategy_engine.Managed.Data.{State, Condition}
use strategy_engine.Managed.Phases.{for_each, phase_met}

abbrev pub Succeeds {ℓ} : {A : Type ℓ} → Result A → Type 0
Succeeds (ok a) = Unit {0}
Succeeds (err e) = ⊥

pub Succeeds->>= {ℓ κ} :
    {A : Type ℓ} {B : Type κ} (m : Result A) (k : A → Result B)
    → Succeeds m
    → ((a : A) → Succeeds (k a))
    → Succeeds (m >>= k)
Succeeds->>= (ok a) k h g = g a
Succeeds->>= (err e) k h g = absurd h

pub Succeeds-if {ℓ} :
    {A : Type ℓ} (test : Bool) (x y : Result A)
    → Succeeds x
    → Succeeds y
    → Succeeds (if test then x else y)
Succeeds-if true x y h k = h
Succeeds-if false x y h k = k

pub for_each-Succeeds {ℓ κ ι} :
    {R : Type ℓ} {S : Type κ} (P : R → Type ι) (step : R → S → Result S)
    → ((x : R) (s : S) → P x → Succeeds (step x s))
    → (xs : List R) (s : S) → All P xs
    → Succeeds (for_each step xs s)
for_each-Succeeds P step g [] s h = tt
for_each-Succeeds P step g (x ∷ xs) s h =
    Succeeds->>= (step x s) (for_each step xs) (g x s h.0)
      (λ s'. for_each-Succeeds P step g xs s' h.1)

pub value_of {ℓ} : {A : Type ℓ} (m : Result A) → Succeeds m → (a : A) × (m ≡ ok a)
value_of (ok a) h = (a, refl)
value_of (err e) h = absurd h

module _ {F : Type 0} ⦃f : Float F⦄ where
  abbrev pub IsPositive : F → Type 0
  IsPositive x = (f.is_finite x ≡ true) × (f.le x f.nought ≡ false)

  -- The thresholds that the condition checks are positive.
  abbrev pub SupportedCondition : Condition F → Type 0
  SupportedCondition (Condition.bars_in_trade threshold) = 0 < threshold
  SupportedCondition (Condition.mfe_pct threshold) = IsPositive threshold
  SupportedCondition (Condition.mfe_atr threshold atr) = IsPositive threshold
  SupportedCondition (Condition.mfe_r threshold) = IsPositive threshold
  SupportedCondition (Condition.adx_di_threshold threshold adx plus minus require) =
      IsPositive threshold
  SupportedCondition Condition.unsupported = ⊥

  pub phase_met-Succeeds :
      (size : ℕ) (c : Condition F) (s : State F) (index : ℕ)
      → SupportedCondition c
      → Succeeds (phase_met size c s index)
  unfolding phase_met
  phase_met-Succeeds size (Condition.bars_in_trade threshold) s index h = ground arith
  phase_met-Succeeds size (Condition.mfe_pct threshold) s index h = ground arith
  phase_met-Succeeds size (Condition.mfe_atr threshold atr) s index h = ground arith
  phase_met-Succeeds size (Condition.mfe_r threshold) s index h = ground arith
  phase_met-Succeeds size (Condition.adx_di_threshold threshold adx plus minus require) s index h =
      ground arith
  phase_met-Succeeds size Condition.unsupported s index h = absurd h
