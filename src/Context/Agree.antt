-- ===== src/Context/Agree.antt =====
-- A gate and a state predicate over one context agree: the one reads the state of a bar, the other
-- its masks.
use Prim.Native.String.{String}
use text.Mathlib.Text.{◌==◌ as str_eq}
use strategy_engine.Prelude.{
  ℕ, ◌≡◌, refl, arith, Bool, true, false, not, ◌&&◌, ◌||◌, Option, none, some, List, [], ◌∷◌, map,
  if◌then◌else◌, Bool-cases, inl, inr, and_left, subst, sym,
}
use strategy_engine.Float.{Float, IsOrdered}
use strategy_engine.Result.{Result, ok, err, ◌>>=◌, Ensures, Ensures->>=}
use strategy_engine.Predicate.Evaluate.{
  Side, Regime, reads_regime, regime_up, regime_down, state_mask,
}
use strategy_engine.Context.Gate.{
  Columns, Context, state_of, is_up, is_down, evaluate_stack, stack_of, resolve_htf_regime,
  gate_allowed_regimes, find_context, raw_state, GateRecord, gate_record,
}

module _ {F : Type 0} ⦃f : Float F⦄ (laws : IsOrdered F) where
  not_both : (a b : F) → f.lt a b ≡ true → f.lt b a ≡ true → true ≡ false
  not_both a b h k =
      let n = laws.number_of_lt a b h in
      elim (laws.le_total a b n.0 n.1) [
        | inl e ↦ let x = laws.lt-eq-not_le b a n.1 n.0 in ground (arith, x, e, k)
        | inr e ↦ let x = laws.lt-eq-not_le a b n.0 n.1 in ground (arith, x, e, h)
      ]

  up_not_down :
      (fast anchor slow : Option F)
      → is_up fast anchor slow ≡ true
      → is_down fast anchor slow ≡ false
  up_not_down (some x) (some a) (some s) h = elim (Bool-cases (f.lt x a)) [
    | inl e ↦ absurd (let y = not_both a x (and_left _ _ h) e in cc)
    | inr e ↦ rw e
  ]
  up_not_down none a s h = absurd cc
  up_not_down (some x) none s h = absurd cc
  up_not_down (some x) (some a) none h = absurd cc

anything {ℓ} : {A : Type ℓ} (m : Result A) → Ensures (λ a. Unit {0}) m
anything (ok a) = tt
anything (err e) = tt

some-same {ℓ} : {A : Type ℓ} {a b : A} → Option.some a ≡ some b → a ≡ b
some-same h = cc

-- One of the three masks is true on a bar, that of its state.
by_state :
    (regimes : List Regime) (side : Side) (is_up is_down : Bool)
    → (is_up ≡ true → is_down ≡ false)
    → reads_regime regimes (resolve_htf_regime (state_of is_up is_down) side) ≡ (
        (reads_regime regimes (regime_up side) && is_up)
        || (reads_regime regimes (regime_down side) && is_down)
        || (reads_regime regimes Regime.neutral && (not is_up && not is_down)))
unfolding resolve_htf_regime
by_state regimes Side.long true true h = absurd (let x = h refl in cc)
by_state regimes Side.short true true h = absurd (let x = h refl in cc)
by_state regimes Side.long true false h = ground arith
by_state regimes Side.short true false h = ground arith
by_state regimes Side.long false true h = ground arith
by_state regimes Side.short false true h = ground arith
by_state regimes Side.long false false h = ground arith
by_state regimes Side.short false false h = ground arith

module _ {F : Type 0} ⦃f : Float F⦄ where
  -- The evaluated contexts of the declared columns.
  abbrev pub contexts : List (String × Columns F) → List (String × Context)
  contexts declared = map (λ d. (d.0, evaluate_stack d.1)) declared

  -- The record agrees with the predicate over the context that it finds.
  abbrev pub Agrees : List (String × Columns F) → String → Side → GateRecord → Type 0
  Agrees declared ref side r =
      (c : Context) × (find_context ref (contexts declared) ≡ some c)
      × ((i : ℕ) → r.allowed i ≡ state_mask c.output r.allowed_regimes side i)

module _ {F : Type 0} ⦃f : Float F⦄ (laws : IsOrdered F) where
  evaluate_stack-state_mask :
      (columns : Columns F) (regimes : List Regime) (side : Side) (i : ℕ)
      → reads_regime regimes (resolve_htf_regime ((evaluate_stack columns).state i) side)
        ≡ state_mask (evaluate_stack columns).output regimes side i
  unfolding evaluate_stack state_mask resolve_htf_regime
  evaluate_stack-state_mask columns regimes side i =
      by_columns columns.fast columns.anchor columns.slow
    where
      by_columns :
          (x a s : Option (ℕ → Option F))
          → reads_regime regimes (resolve_htf_regime ((stack_of x a s).state i) side)
            ≡ state_mask (stack_of x a s).output regimes side i
      by_columns (some x) (some a) (some s) =
          by_state regimes side (is_up (x i) (a i) (s i)) (is_down (x i) (a i) (s i))
            (up_not_down laws (x i) (a i) (s i))
      by_columns none a s = by_state regimes side false false (λ h. refl)
      by_columns (some x) none s = by_state regimes side false false (λ h. refl)
      by_columns (some x) (some a) none = by_state regimes side false false (λ h. refl)

  find_contexts :
      (ref : String) (declared : List (String × Columns F)) (c : Context)
      → find_context ref (contexts declared) ≡ some c
      → (columns : Columns F) × (c ≡ evaluate_stack columns)
  find_contexts ref [] c h = absurd cc
  find_contexts ref (d ∷ ds) c h = elim (Bool-cases (str_eq d.0 ref)) [
    | inl e ↦
        let same : some (evaluate_stack d.1) ≡ some c =
          subst
            (λ b.
              (if b then some (evaluate_stack d.1) else find_context ref (contexts ds)) ≡ some c)
            e h in
        (d.1, sym (some-same same))
    | inr e ↦ find_contexts ref ds c (
        subst
          (λ b. (if b then some (evaluate_stack d.1) else find_context ref (contexts ds)) ≡ some c)
          e h)
  ]

  by_context :
      (declared : List (String × Columns F)) (ref : String) (side : Side) (regimes : List Regime)
      (o : Option Context)
      → find_context ref (contexts declared) ≡ o
      → Ensures (Agrees declared ref side) (
          raw_state o >>= λ raw. ok (record {
            raw_state = raw;
            resolved_regime = λ i. resolve_htf_regime (raw i) side;
            allowed = λ i. reads_regime regimes (resolve_htf_regime (raw i) side);
            allowed_regimes = regimes;
          }))
  by_context declared ref side regimes none h = tt
  by_context declared ref side regimes (some c) h =
      let r = find_contexts ref declared c h in
      (
        c,
        h,
        λ i.
            subst
              (λ x.
                reads_regime regimes (resolve_htf_regime (x.state i) side)
                ≡ state_mask x.output regimes side i)
              (sym r.1) (evaluate_stack-state_mask r.0 regimes side i),
      )

  -- For comparisons with the laws of `IsOrdered` and any declared contexts: unless the record of a
  -- gate is an error, its context is one of them, and the bars that the gate allows are those of
  -- the state predicate over that context, the same regimes and the same side.
  pub gate_record-state_mask :
      (declared : List (String × Columns F)) (context_ref policy_id : String)
      (raw_allowed : Option (List String)) (side : Side)
      → Ensures
          (Agrees declared context_ref side)
          (gate_record (contexts declared) context_ref policy_id raw_allowed side)
  unfolding gate_record
  gate_record-state_mask declared ref policy_id raw_allowed side =
      Ensures->>= (λ regimes. Unit {0}) (Agrees declared ref side)
        (gate_allowed_regimes policy_id raw_allowed) _
        (anything (gate_allowed_regimes policy_id raw_allowed))
        (λ regimes _.
          by_context declared ref side regimes (find_context ref (contexts declared)) refl)
