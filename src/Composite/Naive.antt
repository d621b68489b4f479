-- ===== src/Composite/Naive.antt =====
-- The folded evaluation of a composite agrees with its meaning.
use Prim.Native.String.{String}
use text.Mathlib.Text.{◌==◌ as str_eq}
use strategy_engine.Prelude.{
  ℕ, ◌≡◌, refl, ◌∙◌, ap, subst, arith, leb, Bool, true, false, ◌&&◌, Bool-cases, Option, none, some,
  List, [], ◌∷◌, map, all, All, All-append, and_left, and_right, inl, inr, if◌then◌else◌,
}
use strategy_engine.Result.{Result, ok, ◌>>=◌, each}
use strategy_engine.Composite.Spec.{Child, CompositePath, counted_refs, refs_of}
use strategy_engine.Composite.Meaning.{count_true, enough, holds, first_path}
use strategy_engine.Composite.Fold.{
  Mask, PhaseChild, lookup, is_some, distinct, without, and_mask, is_market, mask_bit, fold_require,
  counts, trade_refs, fold_path, FoldedComposite, fold_phase_paths, value, value_of, all_values,
  sum_values, enough_values, market_passes, path_met, pair_value, met_from, composite_met,
}

ok-inj {ℓ} : {A : Type ℓ} {a b : A} → Result.ok a ≡ ok b → a ≡ b
ok-inj h = cc

if-ok : (b c : Bool) → (if b then ok c else ok false) ≡ ok (b && c)
if-ok true c = refl
if-ok false c = refl

guarded-ok :
    (b t w : Bool) (values more : Result Bool)
    → values ≡ ok t
    → more ≡ ok w
    → (if b then (values >>= λ x. if x then more else ok false) else ok false) ≡ ok (b && (t && w))
guarded-ok false t w values more h k = refl
guarded-ok true true w values more h k = rw (h, k)
guarded-ok true false w values more h k = rw h

module _ {C E : Type 0} (folded : FoldedComposite C E) (index : ℕ) (trade_met : C → Result Bool)
    (entry_change_met : E → Bool) (v : String → Bool) where
  -- The value of a child on the bar is computed, and is the given one.
  abbrev pub HasValue : String → Type 0
  HasValue ref = value folded index trade_met entry_change_met ref ≡ ok (v ref)

  abbrev dict : List (String × Mask)
  dict = folded.market_children

  abbrev passes : Option Mask → Bool
  passes = market_passes folded index trade_met entry_change_met

  market-value :
      (ref : String) (m : Mask) → HasValue ref → lookup ref dict ≡ some m → m index ≡ v ref
  unfolding value
  market-value ref m h e =
      ok-inj (subst (λ o. value_of folded index trade_met entry_change_met ref o ≡ ok (v ref)) e h)

  -- The required children: a market part and a trade part.
  abbrev Splits : List String → Option Mask → Type 0
  Splits refs part =
      (passes (fold_require dict refs part) && all v (trade_refs dict refs))
      ≡ (passes part && all v refs)

  Splits-step :
      (ref : String) (refs : List String) (part : Option Mask) (o : Option Mask)
      → lookup ref dict ≡ o
      → HasValue ref
      → ((part' : Option Mask) → Splits refs part')
      → Splits (ref ∷ refs) part
  Splits-step ref refs part none e h ih = rw e (ground (arith, ih part))
  Splits-step ref refs none (some m) e h ih =
      rw e (ground (arith, ih (some m), market-value ref m h e))
  Splits-step ref refs (some p) (some m) e h ih =
      rw e (ground (arith, ih (some (λ i. p i && m i)), market-value ref m h e))

  fold_require_lem :
      (refs : List String) (part : Option Mask) → All HasValue refs → Splits refs part
  fold_require_lem [] part h = refl
  fold_require_lem (ref ∷ refs) part h =
      Splits-step ref refs part (lookup ref dict) refl h.0
        (λ part'. fold_require_lem refs part' h.1)

  abbrev values : List String → Result Bool
  values = all_values folded index trade_met entry_change_met

  trade-values :
      (refs : List String)
      → All HasValue refs
      → values (trade_refs dict refs) ≡ ok (all v (trade_refs dict refs))
  trade-values [] h = refl
  trade-values (ref ∷ refs) h =
      let ih = trade-values refs h.1 in
      elim (Bool-cases (is_market dict ref)) [
        | inl e ↦ rw (e, ih)
        | inr e ↦ rw (e, h.0, ih) (if-ok (v ref) _)
      ]

  sum-values :
      (refs : List String)
      → All HasValue refs
      → sum_values folded index trade_met entry_change_met refs ≡ ok (count_true v refs)
  sum-values [] h = refl
  sum-values (ref ∷ refs) h = rw (h.0, sum-values refs h.1)

  bit-value :
      (ref : String) (o : Option Mask)
      → lookup ref dict ≡ o
      → HasValue ref
      → is_some o ≡ true
      → mask_bit o index ≡ v ref
  bit-value ref none e h m = cc
  bit-value ref (some mask) e h m = market-value ref mask h e

  counts_lem :
      (refs : List String)
      → All HasValue refs
      → all (is_market dict) refs ≡ true
      → counts dict refs index ≡ count_true v refs
  counts_lem [] h m = refl
  counts_lem (ref ∷ refs) h m =
      let here = bit-value ref (lookup ref dict) refl h.0 (and_left _ _ m) in
      let there = counts_lem refs h.1 (and_right _ _ m) in rw (here, there)

  passes-and :
      (part : Option Mask) (m : Mask) → passes (some (and_mask part m)) ≡ (passes part && m index)
  passes-and none m = refl
  passes-and (some p) m = refl

  fold_path-met :
      (p : CompositePath)
      → All HasValue p.require
      → All HasValue (counted_refs p.at_least)
      → path_met folded index trade_met entry_change_met (fold_path dict p) ≡ ok (holds v p)
  unfolding fold_path
  fold_path-met p h k = go p.at_least k
    where
      part : Option Mask
      part = fold_require dict p.require none

      split : (passes part && all v (trade_refs dict p.require)) ≡ all v p.require
      split = fold_require_lem p.require none h

      trades : values (trade_refs dict p.require) ≡ ok (all v (trade_refs dict p.require))
      trades = trade-values p.require h

      tail : Option (ℕ × List String) → Result Bool
      tail = enough_values folded index trade_met entry_change_met

      go :
          (a : Option (ℕ × List String))
          → All HasValue (counted_refs a)
          → path_met folded index trade_met entry_change_met
              (fold_path dict (record p { at_least = a }))
            ≡ ok (all v p.require && enough v a)
      go none k =
          guarded-ok (passes part) _ true _ (tail none) trades refl ∙ ap ok (ground (arith, split))
      go (some (n, of)) k = elim (Bool-cases (all (is_market dict) of)) [
        | inl e ↦ rw e (
            guarded-ok _ _ true _ (tail none) trades refl
            ∙ ap ok (
                ground (
                  arith,
                  split,
                  passes-and part (λ i. leb n (counts dict of i)),
                  counts_lem of k e,
                )))
        | inr e ↦ rw e (
            guarded-ok (passes part) _ (leb n (count_true v of)) _ (tail (some (n, of))) trades
              (rw (sum-values of k))
            ∙ ap ok (ground (arith, split)))
      ]

  -- What the composite reports: the first path that holds, and the values of its children.
  abbrev pub report : Option CompositePath → Option (CompositePath × List (String × Bool))
  report none = none
  report (some p) = some (p, map (λ ref. (ref, v ref)) (distinct (refs_of p)))

  pairs_lem :
      (refs : List String)
      → All HasValue refs
      → each (pair_value folded index trade_met entry_change_met) refs
        ≡ ok (map (λ ref. (ref, v ref)) refs)
  pairs_lem [] h = refl
  pairs_lem (ref ∷ refs) h = rw (h.0, pairs_lem refs h.1)

  without-All :
      (x : String) (refs : List String) → All HasValue refs → All HasValue (without x refs)
  without-All x [] h = tt
  without-All x (y ∷ ys) h = elim (Bool-cases (str_eq x y)) [
    | inl e ↦ rw e (without-All x ys h.1)
    | inr e ↦ rw e (h.0, without-All x ys h.1)
  ]

  distinct-All : (refs : List String) → All HasValue refs → All HasValue (distinct refs)
  distinct-All [] h = tt
  distinct-All (x ∷ xs) h = (h.0, without-All x (distinct xs) (distinct-All xs h.1))

  path_lem : (p : CompositePath) → (fold_path dict p).path ≡ p
  unfolding fold_path
  path_lem p = refl

  referenced_lem :
      (p : CompositePath)
      → All HasValue p.require
      → All HasValue (counted_refs p.at_least)
      → each (pair_value folded index trade_met entry_change_met) (fold_path dict p).referenced
        ≡ ok (map (λ ref. (ref, v ref)) (distinct (refs_of p)))
  unfolding fold_path
  referenced_lem p h k =
      pairs_lem (distinct (refs_of p))
        (distinct-All (refs_of p) (All-append HasValue p.require (counted_refs p.at_least) h k))

  met_from_lem :
      (paths : List CompositePath)
      → All (λ p. All HasValue p.require × All HasValue (counted_refs p.at_least)) paths
      → met_from folded index trade_met entry_change_met (map (fold_path dict) paths)
        ≡ ok (report (first_path v paths))
  met_from_lem [] h = refl
  met_from_lem (p ∷ ps) h = elim (Bool-cases (holds v p)) [
    | inl e ↦ rw (fold_path-met p h.0.0 h.0.1, e, referenced_lem p h.0.0 h.0.1, path_lem p)
    | inr e ↦ rw (fold_path-met p h.0.0 h.0.1, e) (met_from_lem ps h.1)
  ]

-- On a bar where every child that the paths reference has a value, the folded evaluation of a
-- composite phase condition returns the first path in declared order that holds for these values,
-- with the values of the children it references, or nothing where no path holds.
pub composite_met_lem :
    {C E : Type 0} (children : List (Child (PhaseChild C E))) (paths : List CompositePath)
    (index : ℕ) (trade_met : C → Result Bool) (entry_change_met : E → Bool) (v : String → Bool)
    → All
        (λ p.
          All
            (HasValue (fold_phase_paths children paths) index trade_met entry_change_met v)
            p.require
          × All
              (HasValue (fold_phase_paths children paths) index trade_met entry_change_met v)
              (counted_refs p.at_least))
        paths
    → composite_met (fold_phase_paths children paths) index trade_met entry_change_met
      ≡ ok (
          report
            (fold_phase_paths children paths)
            index
            trade_met
            entry_change_met
            v
            (first_path v paths))
unfolding composite_met fold_phase_paths
composite_met_lem children paths index trade_met entry_change_met v h =
    met_from_lem (fold_phase_paths children paths) index trade_met entry_change_met v paths h
