-- ===== src/Exit/Aggregate.antt =====
-- The exits that are in force on a bar.
use Prim.Native.String.{String}
use text.Mathlib.Text.{◌==◌ as str_eq}
use text.Mathlib.TextEquality.{eq_iff}
use strategy_engine.Prelude.{
  ℕ, ◌≡◌, ◌↔◌, ◌⊎◌, refl, sym, ◌∙◌, subst, ap, inl, inr, Bool, true, false, Option, none, some,
  List, [], ◌∷◌, any, all, All, All-map, map, get_elem?, arith, Bool-cases,
}
use strategy_engine.Float.{Float}
use strategy_engine.Result.{ok}
use strategy_engine.Pandas.{RowMin, IsRowMin}
use strategy_engine.Exit.Rules.{Rule, text_or}
use strategy_engine.Exit.Policy.{
  Evaluated, SideExits, ids_of, find, gather, is_signal, is_distance, is_kind, is_number, min_of,
  or_of, ready, configured,
}
use strategy_engine.Exit.Found.{keep, gather-keep}
use strategy_engine.Exit.Value.{signal_kind}

module _ {F : Type 0} ⦃f : Float F⦄ where
  -- The least number of the values, or NaN if none is a number.
  abbrev pub IsLeast : List F → F → Type 0
  IsLeast values least =
      ((any is_number values ≡ false) × (is_number least ≡ false))
      ⊎ ((is_number least ≡ true)
          × ((i : ℕ) × (get_elem? values i ≡ some least))
          × ((i : ℕ) (a : F)
              → get_elem? values i ≡ some a
              → is_number a ≡ true
              → f.le least a ≡ true))

  abbrev pub row_of : (Evaluated F → ℕ → F) → List (Evaluated F) → ℕ → List F
  row_of ratios es i = map (λ e. ratios e i) es

  min_of-IsLeast :
      (row_min : RowMin F)
      → IsRowMin row_min
      → f.le f.nan f.nan ≡ false
      → (ratios : Evaluated F → ℕ → F) (es : List (Evaluated F)) (i : ℕ)
      → IsLeast (row_of ratios es i) (min_of row_min ratios es i)
  unfolding min_of
  min_of-IsLeast row_min laws missing ratios [] i = inl (refl, missing)
  min_of-IsLeast row_min laws missing ratios (e ∷ es) i =
      elim (Bool-cases (any is_number (row_of ratios (e ∷ es) i))) [
        | inl some_number ↦ inr (
          laws.number (row_of ratios (e ∷ es) i) some_number,
          laws.among (row_of ratios (e ∷ es) i) some_number,
          λ j a. laws.lower (row_of ratios (e ∷ es) i) j a,
        )
        | inr no_number ↦ inl (no_number, laws.no_number (row_of ratios (e ∷ es) i) no_number)
      ]

module _ {F : Type 0} where
  abbrev pub of_kind : String → List (Rule F) → List (Rule F)
  of_kind kind = keep (is_kind "None" kind)

-- What the rules in force say on a bar: the exit signal is given exactly if a signal rule gives it,
-- each level is the least number of its rules, and the bar is ready exactly if every configured kind has
-- a level and every partial take a ratio.
module _ {F : Type 0} ⦃f : Float F⦄ (signal_of : Rule F → ℕ → Bool)
    (distance_of ratio_of : Rule F → ℕ → F) where
  abbrev pub Ready : List (Rule F) → F → F → ℕ → Type 0
  Ready rules sl tp i =
      (configured "stop_loss" rules ≡ true → is_number sl ≡ true)
      × (configured "take_profit" rules ≡ true → is_number tp ≡ true)
      × (all is_number (map (λ r. ratio_of r i) (of_kind "partial_take" rules)) ≡ true)

  abbrev pub InForce : List (Rule F) → SideExits F → ℕ → Type 0
  InForce rules x i =
      ((x.signal_exit i ≡ true)
        ↔ (any (λ r. signal_of r i) (keep (is_kind "signal" "signal") rules) ≡ true))
      × IsLeast (map (λ r. ratio_of r i) (of_kind "stop_loss" rules)) (x.stop_loss_ratio i)
      × IsLeast (map (λ r. ratio_of r i) (of_kind "take_profit" rules)) (x.take_profit_ratio i)
      × IsLeast (map (λ r. distance_of r i) (of_kind "stop_loss" rules)) (x.stop_loss_distance i)
      × IsLeast (map (λ r. distance_of r i) (of_kind "take_profit" rules))
          (x.take_profit_distance i)
      × ((x.stop_ready i ≡ true) ↔ Ready rules (x.stop_loss_ratio i) (x.take_profit_ratio i) i)

module _ {F : Type 0} ⦃f : Float F⦄ where
  pub ready_iff :
      (sl tp : F) (stops takes : Bool) (legs : List F)
      → (ready sl tp stops takes legs ≡ true) ↔ (
          (stops ≡ true → is_number sl ≡ true)
          × (takes ≡ true → is_number tp ≡ true)
          × (all is_number legs ≡ true))
  unfolding ready
  ready_iff sl tp true true legs = ground arith
  ready_iff sl tp true false legs = ground arith
  ready_iff sl tp false true legs = ground arith
  ready_iff sl tp false false legs = ground arith

keep-values {ℓ} :
    {F : Type 0} {X : Type ℓ} (value : Rule F → Evaluated F) (get : Evaluated F → ℕ → X)
    (spec : Rule F → ℕ → X) (kind : Rule F → Bool) (rs : List (Rule F))
    → All (λ r. kind r ≡ true → get (value r) ≡ spec r) rs
    → (i : ℕ) → map (λ e. get e i) (map value (keep kind rs)) ≡ map (λ r. spec r i) (keep kind rs)
keep-values value get spec kind [] h i = refl
keep-values value get spec kind (r ∷ rs) h i =
    let rest = keep-values value get spec kind rs h.1 i in
    elim (Bool-cases (kind r)) [
      | inl is ↦ rw (is, keep, h.0 is, rest) refl
      | inr is_not ↦ rw (is_not, keep) rest
    ]

any-map {ℓ} :
    {A : Type ℓ} (test : A → Bool) (xs : List A) → any test xs ≡ any (λ b. b) (map test xs)
any-map test [] = refl
any-map test (x ∷ xs) = rw (any-map test xs) refl

-- A rule of another kind is no signal rule.
other_kind :
    {F : Type 0} (r : Rule F) (kind : String)
    → str_eq kind "signal" ≡ false
    → str_eq "None" kind ≡ false
    → is_kind "None" kind r ≡ true
    → signal_kind r ≡ false
other_kind r kind apart named is = by_kind r.exit_kind is
  where
    by_kind :
        (o : Option String)
        → str_eq (text_or "None" o) kind ≡ true
        → str_eq (text_or "signal" o) "signal" ≡ false
    by_kind none h = cc
    by_kind (some text) h = ap (λ (t : String). str_eq t "signal") ((eq_iff text kind).0 h) ∙ apart

module _ {F : Type 0} ⦃f : Float F⦄ (row_min : RowMin F) (laws : IsRowMin row_min)
    (missing : f.le f.nan f.nan ≡ false) (value : Rule F → Evaluated F) (es : List (Evaluated F))
    (signals : Evaluated F → ℕ → Bool) (signal_of : Rule F → ℕ → Bool)
    (distance_of ratio_of : Rule F → ℕ → F) where
  -- What a rule is found as, by its kind.
  abbrev pub Known : Rule F → Type 0
  Known r =
      (signal_kind r ≡ true
        → (find is_signal (text_or "None" r.instance_id) es ≡ some (value r))
          × (signals (value r) ≡ signal_of r))
      × (signal_kind r ≡ false
          → (find is_distance (text_or "None" r.instance_id) es ≡ some (value r))
            × ((value r).distance ≡ distance_of r)
            × ((value r).ratio ≡ ratio_of r))

  module _ (rules : List (Rule F)) (known : All Known rules) where
    pub of_signals_gathered :
        gather is_signal es (ids_of (is_kind "signal" "signal") rules)
        ≡ ok (map value (keep (is_kind "signal" "signal") rules))
    of_signals_gathered =
        gather-keep is_signal value es (is_kind "signal" "signal") rules
          (All-map Known _ (λ r k is. (k.0 is).0) rules known)

    pub signals-any :
        (i : ℕ)
        → or_of signals (map value (keep (is_kind "signal" "signal") rules)) i
          ≡ any (λ r. signal_of r i) (keep (is_kind "signal" "signal") rules)
    signals-any i =
        any-map (λ e. signals e i) (map value (keep (is_kind "signal" "signal") rules))
        ∙ (ap (any (λ b. b)) (
              keep-values value signals signal_of (is_kind "signal" "signal") rules
                (All-map Known _ (λ r k is. (k.0 is).1) rules known) i)
            ∙ sym (any-map (λ r. signal_of r i) (keep (is_kind "signal" "signal") rules)))

    module _ (kind : String) (apart : str_eq kind "signal" ≡ false)
        (named : str_eq "None" kind ≡ false) where
      pub kind_gathered :
          gather is_distance es (ids_of (is_kind "None" kind) rules)
          ≡ ok (map value (keep (is_kind "None" kind) rules))
      kind_gathered =
          gather-keep is_distance value es (is_kind "None" kind) rules
            (All-map Known _ (λ r k is. (k.1 (other_kind r kind apart named is)).0) rules known)

      pub ratio_values :
          (i : ℕ)
          → map (λ e. Evaluated.ratio e i) (map value (keep (is_kind "None" kind) rules))
            ≡ map (λ r. ratio_of r i) (keep (is_kind "None" kind) rules)
      ratio_values =
          keep-values value (λ e. e.ratio) ratio_of (is_kind "None" kind) rules
            (All-map Known _ (λ r k is. (k.1 (other_kind r kind apart named is)).2) rules known)

      distance_values :
          (i : ℕ)
          → map (λ e. Evaluated.distance e i) (map value (keep (is_kind "None" kind) rules))
            ≡ map (λ r. distance_of r i) (keep (is_kind "None" kind) rules)
      distance_values =
          keep-values value (λ e. e.distance) distance_of (is_kind "None" kind) rules
            (All-map Known _ (λ r k is. (k.1 (other_kind r kind apart named is)).1) rules known)

      pub ratio-IsLeast :
          (i : ℕ)
          → IsLeast
              (map (λ r. ratio_of r i) (keep (is_kind "None" kind) rules))
              (min_of row_min (λ e. e.ratio) (map value (keep (is_kind "None" kind) rules)) i)
      ratio-IsLeast i =
          let level =
            min_of row_min (λ e. e.ratio) (map value (keep (is_kind "None" kind) rules)) i in
          subst (λ values. IsLeast values level) (ratio_values i)
            (min_of-IsLeast row_min laws missing (λ e. e.ratio)
              (map value (keep (is_kind "None" kind) rules)) i)

      pub distance-IsLeast :
          (i : ℕ)
          → IsLeast
              (map (λ r. distance_of r i) (keep (is_kind "None" kind) rules))
              (min_of row_min (λ e. e.distance) (map value (keep (is_kind "None" kind) rules)) i)
      distance-IsLeast i =
          let level =
            min_of row_min (λ e. e.distance) (map value (keep (is_kind "None" kind) rules)) i in
          subst (λ values. IsLeast values level) (distance_values i)
            (min_of-IsLeast row_min laws missing (λ e. e.distance)
              (map value (keep (is_kind "None" kind) rules)) i)
