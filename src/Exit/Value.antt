-- ===== src/Exit/Value.antt =====
-- What an evaluated rule holds, by its kind.
use Prim.Native.String.{String}
use text.Mathlib.Text.{◌==◌ as str_eq}
use text.Mathlib.TextEquality.{eq_iff}
use strategy_engine.Prelude.{
  ℕ, ◌≡◌, refl, sym, ◌∙◌, subst, ap, inl, inr, Bool, true, false, not, List, [], ◌∷◌, All, map,
  arith, Bool-cases,
}
use strategy_engine.Float.{Float}
use strategy_engine.Result.{
  Result, ok, err, ◌>>=◌, each, Ensures, Ensures-raise_if, Ensures->>=, >>=-eq-ok,
}
use strategy_engine.Trade.{Side}
use strategy_engine.Pandas.{RollingMax, RollingMin}
use strategy_engine.Exit.Rules.{
  Rule, Family, Head, expected_kind, family_of, among, signal_components, distance_components,
  partial_take_components, never, signal, distance, partial_take, text_or, exit_rule_head,
  distance_rule, partial_take_fraction,
}
use strategy_engine.Exit.Policy.{
  Evaluated, Config, evaluate_rule, evaluate_family, of_signals, of_distances, side_signal,
  is_signal,
}
use strategy_engine.Exit.Found.{id_of}

abbrev pub signal_family : Family → Bool
signal_family signal = true
signal_family distance = false
signal_family partial_take = false

-- A text that equals another one, with the tests that this decides.
str_eq-subst : (a b c : String) → str_eq a b ≡ true → str_eq a c ≡ str_eq b c
str_eq-subst a b c h = ap (λ (t : String). str_eq t c) ((eq_iff a b).0 h)

expected_kind-not_signal : (component : String) → str_eq (expected_kind component) "signal" ≡ false
expected_kind-not_signal component =
    elim (Bool-cases (among component ("atr_stop_loss" ∷ "constant_usd_stop_loss" ∷ []))) [
      | inl is ↦ rw is refl
      | inr is_not ↦ rw is_not refl
    ]

family_of-signal_family :
    (component kind : String)
    → Ensures (λ family. signal_family family ≡ str_eq kind "signal") (family_of component kind)
unfolding family_of
family_of-signal_family component kind =
    let IsKind : Family → Type 0 = λ family. signal_family family ≡ str_eq kind "signal" in
    elim (Bool-cases (among component signal_components)) [
      | inl is ↦
          rw (is, family_of)
            (Ensures-raise_if IsKind (not (str_eq kind "signal")) _ (ok signal) (λ h. ground arith))
      | inr no_signal ↦ elim (Bool-cases (among component distance_components)) [
        | inl is ↦
            rw (no_signal, is, family_of)
              (Ensures-raise_if IsKind (not (str_eq kind (expected_kind component))) _ (ok distance)
                (λ h. sym (
                  str_eq-subst kind (expected_kind component) "signal" (ground arith)
                  ∙ expected_kind-not_signal component)))
        | inr no_distance ↦ elim (Bool-cases (among component partial_take_components)) [
          | inl is ↦
              rw (no_signal, no_distance, is, family_of)
                (Ensures-raise_if IsKind (not (str_eq kind "partial_take")) _ (ok partial_take)
                  (λ h. sym (str_eq-subst kind "partial_take" "signal" (ground arith))))
          | inr none_of ↦ rw (no_signal, no_distance, none_of, family_of) tt
        ]
      ]
    ]

Ensures-any {ℓ} : {A : Type ℓ} (m : Result A) → Ensures (λ _. Unit {0}) m
Ensures-any (ok a) = tt
Ensures-any (err e) = tt

Ensures-self {ℓ} : {A : Type ℓ} (m : Result A) → Ensures (λ a. m ≡ ok a) m
Ensures-self (ok a) = refl
Ensures-self (err e) = tt

module _ {F : Type 0} where
  abbrev pub signal_kind : Rule F → Bool
  signal_kind r = str_eq (text_or "signal" r.exit_kind) "signal"

module _ {F : Type 0} ⦃f : Float F⦄ (rolling_max : RollingMax) (rolling_min : RollingMin)
    (c : Config F) where
  -- The signal of a rule on a side; a side that is not enabled has none.
  abbrev pub signal_at : Rule F → Side → Bool → ℕ → Bool
  signal_at r side enabled = elim (side_signal rolling_max rolling_min enabled c r side) [
    | ok s ↦ s
    | err _ ↦ never
  ]

  -- The distance of a rule and its ratio.
  abbrev pub distance_at : Rule F → (ℕ → F) × (ℕ → F)
  distance_at r = elim (distance_rule c.length c.close r) [
    | ok d ↦ d
    | err _ ↦ (λ _. f.nan, λ _. f.nan)
  ]

  abbrev pub IsOf : Rule F → Evaluated F → Type 0
  IsOf r e =
      (e.instance_id ≡ id_of r)
      × (is_signal e ≡ signal_kind r)
      × (signal_kind r ≡ true
          → (e.signal_long ≡ signal_at r Side.long c.long_enabled)
            × (e.signal_short ≡ signal_at r Side.short c.short_enabled))
      × (signal_kind r ≡ false → (e.distance ≡ (distance_at r).0) × (e.ratio ≡ (distance_at r).1))

  evaluate_family-IsOf :
      (r : Rule F) (family : Family)
      → signal_family family ≡ signal_kind r
      → Ensures (IsOf r) (evaluate_family rolling_max rolling_min c r (id_of r) family)
  evaluate_family-IsOf r signal h =
      Ensures->>= (λ s. side_signal rolling_max rolling_min c.long_enabled c r Side.long ≡ ok s)
        (IsOf r) (side_signal rolling_max rolling_min c.long_enabled c r Side.long)
        (λ s. side_signal rolling_max rolling_min c.short_enabled c r Side.short >>= λ t.
          ok (of_signals (id_of r) s t))
        (Ensures-self _)
        λ s is.
          Ensures->>=
            (λ t. side_signal rolling_max rolling_min c.short_enabled c r Side.short ≡ ok t)
            (IsOf r) (side_signal rolling_max rolling_min c.short_enabled c r Side.short)
            (λ t. ok (of_signals (id_of r) s t)) (Ensures-self _)
            λ t is'.
              (refl, h, λ _. (rw (is, signal_at) refl, rw (is', signal_at) refl), λ q. cc (h, q))
  evaluate_family-IsOf r distance h =
      Ensures->>= (λ d. distance_rule c.length c.close r ≡ ok d) (IsOf r)
        (distance_rule c.length c.close r) (λ d. ok (of_distances (id_of r) distance d))
        (Ensures-self _)
        λ d is.
          (refl, h, λ q. cc (h, q), λ _. (rw (is, distance_at) refl, rw (is, distance_at) refl))
  evaluate_family-IsOf r partial_take h =
      Ensures->>= (λ d. distance_rule c.length c.close r ≡ ok d) (IsOf r)
        (distance_rule c.length c.close r)
        (λ d. partial_take_fraction c.one r >>= λ _. ok (of_distances (id_of r) partial_take d))
        (Ensures-self _)
        λ d is.
          Ensures->>= (λ _. Unit {0}) (IsOf r) (partial_take_fraction c.one r)
            (λ _. ok (of_distances (id_of r) partial_take d)) (Ensures-any _)
            λ _ _.
              (refl, h, λ q. cc (h, q), λ _. (rw (is, distance_at) refl, rw (is, distance_at) refl))

  head-IsOf :
      (r : Rule F)
      → Ensures
          (λ h. (h.instance_id ≡ id_of r) × (signal_family (Head.family h) ≡ signal_kind r))
          (exit_rule_head r)
  unfolding exit_rule_head
  head-IsOf r =
      let IsHead : Head → Type 0 =
        λ h. (h.instance_id ≡ id_of r) × (signal_family h.family ≡ signal_kind r) in
      Ensures-raise_if IsHead (str_eq (id_of r) "") _ _ λ _.
        Ensures->>= (λ family. signal_family family ≡ signal_kind r) IsHead
          (family_of (text_or "" r.component_id) (text_or "signal" r.exit_kind)) _
          (family_of-signal_family (text_or "" r.component_id) (text_or "signal" r.exit_kind))
          λ family is. (refl, is)

  evaluate_rule-IsOf : (r : Rule F) → Ensures (IsOf r) (evaluate_rule rolling_max rolling_min c r)
  unfolding evaluate_rule
  evaluate_rule-IsOf r =
      Ensures->>= (λ h. (h.instance_id ≡ id_of r) × (signal_family (Head.family h) ≡ signal_kind r))
        (IsOf r) (exit_rule_head r) _ (head-IsOf r)
        λ h is.
          subst (λ id. Ensures (IsOf r) (evaluate_family rolling_max rolling_min c r id h.family))
            (sym is.0) (evaluate_family-IsOf r h.family is.1)

  -- The evaluation of a rule, and a blank one where it is an error.
  unfoldable pub value_of : Rule F → Evaluated F
  value_of r = elim (evaluate_rule rolling_max rolling_min c r) [
    | ok e ↦ e
    | err _ ↦ of_signals (id_of r) never never
  ]

  value_of-ok :
      (r : Rule F) (e : Evaluated F)
      → evaluate_rule rolling_max rolling_min c r ≡ ok e
      → value_of r ≡ e
  unfolding value_of
  value_of-ok r e h = rw (h, value_of) refl

  pub value_of-own : (r : Rule F) → (value_of r).instance_id ≡ id_of r
  unfolding value_of
  value_of-own r = own_from (evaluate_rule rolling_max rolling_min c r) refl
    where
      own_from :
          (m : Result (Evaluated F))
          → evaluate_rule rolling_max rolling_min c r ≡ m
          → (value_of r).instance_id ≡ id_of r
      own_from (ok e) is = rw (is, value_of) (subst (Ensures (IsOf r)) is (evaluate_rule-IsOf r)).0
      own_from (err e) is = rw (is, value_of) refl

  -- A successful loop over the rules leaves the evaluation of each.
  pub each-value_of :
      (rs : List (Rule F)) (es : List (Evaluated F))
      → each (evaluate_rule rolling_max rolling_min c) rs ≡ ok es
      → (es ≡ map value_of rs) × All (λ r. IsOf r (value_of r)) rs
  each-value_of [] es h = (ground arith, tt)
  each-value_of (r ∷ rs) es h =
      let (e, is, more) = >>=-eq-ok (evaluate_rule rolling_max rolling_min c r) _ h in
      let (rest, those, all) =
        >>=-eq-ok (each (evaluate_rule rolling_max rolling_min c) rs) _ more in
      let (same, props) = each-value_of rs rest those in
      let mine : IsOf r e = subst (Ensures (IsOf r)) is (evaluate_rule-IsOf r) in
      let own : value_of r ≡ e = value_of-ok r e is in (ground (arith), (rw own mine, props))
