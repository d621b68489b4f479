-- ===== src/Managed/Course.antt =====
-- The course of a managed-exit replay: its decisions, bar by bar, and the trade at its end.
use strategy_engine.Prelude.{
  All-map, ℕ, zero, suc, ◌+◌, ◌≤◌, ◌≡◌, refl, sym, ◌∙◌, ap, arith, Option, List, [], ◌∷◌, ◌++◌, map,
  All, subst,
}
use strategy_engine.Float.{Float, IsOrdered}
use strategy_engine.Managed.Data.{Side, Phase, rank, Decision, Replay}
use strategy_engine.Managed.Replay.{decide}
use strategy_engine.Managed.Advance.{Tightens, Advances}
use strategy_engine.Managed.Tighten.{Tightens-trans}

-- Every item is related to every later one.
abbrev pub Pairwise {ℓ κ} : {A : Type ℓ} → (A → A → Type κ) → List A → Type κ
Pairwise R [] = Unit
Pairwise R (x ∷ xs) = All (R x) xs × Pairwise R xs

All-snoc {ℓ κ} :
    {A : Type ℓ} (P : A → Type κ) (xs : List A) (y : A) → All P xs → P y → All P (xs ++ (y ∷ []))
All-snoc P [] y h k = (k, tt)
All-snoc P (x ∷ xs) y h k = (h.0, All-snoc P xs y h.1 k)

Pairwise-snoc {ℓ κ} :
    {A : Type ℓ} (R : A → A → Type κ) (xs : List A) (y : A)
    → Pairwise R xs
    → All (λ x. R x y) xs
    → Pairwise R (xs ++ (y ∷ []))
Pairwise-snoc R [] y h k = (tt, tt)
Pairwise-snoc R (x ∷ xs) y h k = (All-snoc (R x) xs y h.0 k.0, Pairwise-snoc R xs y h.1 k.1)

-- The numbers from `start` on, `count` of them.
abbrev pub count_from : ℕ → ℕ → List ℕ
count_from start zero = []
count_from start (suc count) = start ∷ count_from (suc start) count

count_from-snoc :
    (start count : ℕ)
    → count_from start (suc count) ≡ count_from start count ++ ((start + count) ∷ [])
count_from-snoc start zero = ap (λ n. n ∷ []) (omega arith)
count_from-snoc start (suc count) =
    ap (λ xs. start ∷ xs)
      (count_from-snoc (suc start) count
        ∙ ap (λ n. count_from (suc start) count ++ (n ∷ [])) (omega arith))

map-snoc {ℓ κ} :
    {A : Type ℓ} {B : Type κ} (g : A → B) (xs : List A) (y : A)
    → map g (xs ++ (y ∷ [])) ≡ map g xs ++ (g y ∷ [])
map-snoc g [] y = refl
map-snoc g (x ∷ xs) y = ap (λ ys. g x ∷ ys) (map-snoc g xs y)

module _ {F : Type 0} ⦃f : Float F⦄ where
  -- What a decision and a later one, or the trade after it, have to do with each other: the phase
  -- has not fallen and the stop has not loosened.
  abbrev pub NoWorse : Side → Phase → Option F → Phase → Option F → Type 0
  NoWorse side phase stop phase' stop' = (rank phase ≤ rank phase') × Tightens side stop stop'

  abbrev pub Later : Side → Decision F → Decision F → Type 0
  Later side d d' = NoWorse side d.phase d.active_stop_price d'.phase d'.active_stop_price

  abbrev Before : Replay F → Decision F → Type 0
  Before r d =
      NoWorse r.state.side d.phase d.active_stop_price r.state.phase r.state.active_stop_price

  -- The decisions of a replay on `count` bars from `first` on.
  pub record IsCourse (side : Side) (first count : ℕ) (r : Replay F) : Type 0 where
    pub in_order : map (λ d. d.bar_index) r.bars ≡ count_from first count
    pub pairs : Pairwise (Later side) r.bars

  pub record Tracks (first count : ℕ) (r : Replay F) : Type 0 where
    pub course : IsCourse r.state.side first count r
    pub before : All (Before r) r.bars

  module _ ⦃laws : IsOrdered F⦄ where
    Before-advanced :
        (r r' : Replay F) → Advances r r' → (d : Decision F) → Before r d → Before r' d
    Before-advanced r r' h d b =
        let tighter =
          Tightens-trans r.state.side d.active_stop_price r.state.active_stop_price
            r'.state.active_stop_price b.1 h.stop_tightens in
        (
          omega (arith, h.phase_up, b.0),
          subst (λ s. Tightens s d.active_stop_price r'.state.active_stop_price) (sym h.same_side)
              tighter,
        )

    pub Tracks-advanced :
        (first count : ℕ) (r s : Replay F)
        → Tracks first count r
        → Advances r s
        → Tracks first count s
    Tracks-advanced first count r s t h = record {
      course = record {
        in_order = ap (map (λ d. d.bar_index)) h.same_bars ∙ t.course.in_order;
        pairs =
            subst (λ side. Pairwise (Later side) s.bars) (sym h.same_side)
              (subst (Pairwise (Later r.state.side)) (sym h.same_bars) t.course.pairs);
      };
      before =
          subst (All (Before s)) (sym h.same_bars)
            (All-map (Before r) (Before s) (Before-advanced r s h) r.bars t.before);
    }

    pub Tracks-decided :
        (first count : ℕ) (s : Replay F)
        → Tracks first count s
        → Tracks first (suc count) (decide (first + count) s)
    unfolding decide
    Tracks-decided first count s t = record {
      course = record {
        in_order =
            map-snoc (λ d. d.bar_index) s.bars _
            ∙ ap (λ xs. xs ++ ((first + count) ∷ [])) t.course.in_order
            ∙ sym (count_from-snoc first count);
        pairs = Pairwise-snoc (Later s.state.side) s.bars _ t.course.pairs t.before;
      };
      before = All-snoc (Before s) s.bars _ t.before (ground arith);
    }
