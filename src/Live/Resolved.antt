-- ===== src/Live/Resolved.antt =====
-- What known timeframes resolve to: spans, winners and durations.
use Prim.Native.String.{String}
use text.Mathlib.Text.{◌==◌ as str_eq}
use text.Mathlib.TextEquality.{eq_iff}
use strategy_engine.Prelude.{
  ℕ, ◌*◌, ◌≤◌, ◌<◌, ◌≡◌, refl, arith, ltb, true, false, List, [], ◌∷◌, All, if◌then◌else◌,
  Bool-cases, inl, inr, sym, subst,
}
use strategy_engine.Prelude.Int.{ℤ}
use strategy_engine.Result.{ok, each}
use strategy_engine.Market.Timeframe.{timeframe_duration_ms, is_timeframe}
use strategy_engine.Market.Canonical.{is_timeframe-duration}
use strategy_engine.Market.Frame.{has_rest}
use strategy_engine.Live.Rounding.{Positive}
use strategy_engine.Live.Window.{
  HistoryRequirement, resolve_timeframe, span_ms, best, winner, higher,
}

-- The base timeframe is canonical, and so are the ones that are not "base".
abbrev pub IsKnown : String → String → Type 0
IsKnown base timeframe = is_timeframe (resolve_timeframe timeframe base) ≡ true

-- The timeframe has a duration, on which the instant lies.
abbrev pub OnGrid : ℤ → String → Type 0
OnGrid z timeframe = (d : ℕ) × (timeframe_duration_ms timeframe ≡ ok d) × (has_rest z d ≡ false)

abbrev pub duration_of :
    (timeframe : String)
    → is_timeframe timeframe ≡ true
    → (d : ℕ) × (timeframe_duration_ms timeframe ≡ ok d) × (0 < d)
duration_of timeframe h = let r = is_timeframe-duration timeframe h in (r.1, r.3, r.5)

module _ (base : String) where
  span_lem : (r : HistoryRequirement) → IsKnown base r.timeframe → (s : ℕ) × (span_ms r base ≡ ok s)
  unfolding span_ms
  span_lem r h =
      let d = duration_of (resolve_timeframe r.timeframe base) h in (r.bars * d.0, rw d.1)

  -- The span of each requirement is at most `s`.
  abbrev pub Within : ℕ → HistoryRequirement → Type 0
  Within s r = (t : ℕ) × (span_ms r base ≡ ok t) × (t ≤ s)

  best_lem :
      (rs : List HistoryRequirement) (found : HistoryRequirement) (span : ℕ)
      → span_ms found base ≡ ok span
      → All (λ r. IsKnown base r.timeframe) rs
      → (w : HistoryRequirement) × (s : ℕ) × (best base rs found span ≡ ok w)
        × (span_ms w base ≡ ok s)
        × (span ≤ s)
        × All (Within s) rs
  best_lem [] found span h k = (found, span, refl, h, omega arith, tt)
  best_lem (r ∷ rs) found span h k =
      let t = span_lem r k.0 in
      elim (Bool-cases (ltb span t.0)) [
        | inl e ↦
            let b = best_lem rs r t.0 t.1 k.1 in
            (b.0, b.1, rw (t.1, e) b.2, b.3, ground (arith, b.4), ((t.0, t.1, b.4), b.5))
        | inr e ↦
            let b = best_lem rs found span h k.1 in
            (b.0, b.1, rw (t.1, e) b.2, b.3, b.4, ((t.0, t.1, ground (arith, b.4)), b.5))
      ]

  pub winner_lem :
      (rs : List HistoryRequirement)
      → is_timeframe base ≡ true
      → All (λ r. IsKnown base r.timeframe) rs
      → (w : HistoryRequirement) × (s : ℕ) × (winner rs base ≡ ok w)
        × (span_ms w base ≡ ok s)
        × All (Within s) rs
  unfolding winner
  winner_lem [] h k =
      let t = span_lem (record { timeframe = "base"; bars = 0 }) h in
      (record { timeframe = "base"; bars = 0 }, t.0, refl, t.1, tt)
  winner_lem (r ∷ rs) h k =
      let t = span_lem r k.0 in
      let b = best_lem rs r t.0 t.1 k.1 in (b.0, b.1, rw (t.1) b.2, b.3, ((t.0, t.1, b.4), b.5))

  -- The durations of the higher timeframes.
  abbrev Lasts : String → ℕ → Type 0
  Lasts t d = (timeframe_duration_ms t ≡ ok d) × (0 < d)

  pub durations_lem :
      (ts : List String)
      → All (λ t. is_timeframe t ≡ true) ts
      → (ds : List ℕ) × (each timeframe_duration_ms ts ≡ ok ds)
        × All Positive ds
        × ((P : ℕ → Type 0)
            → All P ds
            → All (λ t. (d : ℕ) × (timeframe_duration_ms t ≡ ok d) × P d) ts)
  durations_lem [] h = ([], refl, tt, λ P k. tt)
  durations_lem (t ∷ ts) h =
      let d = duration_of t h.0 in
      let r = durations_lem ts h.1 in
      (d.0 ∷ r.0, rw (d.1, r.1), (d.2, r.2), λ P k. ((d.0, d.1, k.0), r.3 P k.1))

  pub higher_lem :
      (ts : List String) → All (IsKnown base) ts → All (λ t. is_timeframe t ≡ true) (higher base ts)
  higher_lem [] h = tt
  higher_lem (t ∷ ts) h = elim (Bool-cases (str_eq (resolve_timeframe t base) base)) [
    | inl e ↦ rw e (higher_lem ts h.1)
    | inr e ↦ rw e (h.0, higher_lem ts h.1)
  ]

  pub higher-All :
      (P : String → Type 0) (ts : List String)
      → P base
      → All P (higher base ts)
      → All (λ t. P (resolve_timeframe t base)) ts
  higher-All P [] b h = tt
  higher-All P (t ∷ ts) b h = elim (Bool-cases (str_eq (resolve_timeframe t base) base)) [
    | inl e ↦
        let r =
          subst
            (λ x. All P (if x then higher base ts else resolve_timeframe t base ∷ higher base ts)) e
            h in
        (subst P (sym ((eq_iff _ _).0 e)) b, higher-All P ts b r)
    | inr e ↦
        let r =
          subst
            (λ x. All P (if x then higher base ts else resolve_timeframe t base ∷ higher base ts)) e
            h in
        (r.0, higher-All P ts b r.1)
  ]
