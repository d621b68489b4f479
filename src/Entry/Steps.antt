-- ===== src/Entry/Steps.antt =====
-- What each step of the entry chain makes of its input, and the sides that it keeps
-- (src/strategy_engine/strategies/ema_pullback/evaluation.py).
use strategy_engine.Prelude.{
  ◌≡◌, refl, ap, subst, arith, Bool, true, ◌&&◌, List, [], ◌∷◌, any, map, All, All-map,
}
use strategy_engine.Result.{Result, ok, >>=-eq-ok, each}
use strategy_engine.Trade.{Side}
use strategy_engine.Entry.Gates.{same_side}
use strategy_engine.Entry.Lookup.{ok-same}

module _ {ℓ κ} {A B : Type 0} (g : A → Result B) (P : A → Type ℓ) (Q : B → Type κ) where
  -- What each step makes of its input, over the list.
  pub each-All :
      ((a : A) (b : B) → P a → g a ≡ ok b → Q b)
      → (xs : List A) (ys : List B) → All P xs
      → each g xs ≡ ok ys
      → All Q ys
  each-All step [] ys h e = subst (λ (z : List B). All Q z) (ok-same e) tt
  each-All step (x ∷ xs) ys (h, hs) e =
      let (y, is, k) = >>=-eq-ok (g x) _ e in
      let (later, are, made) = >>=-eq-ok (each g xs) _ k in
      subst (λ (z : List B). All Q z) (ok-same made) (step x y h is, each-All step xs later hs are)

module _ {A B : Type 0} (g : A → Result B) (k : A → Side) (l : B → Side)
    (keeps : (a : A) (b : B) → g a ≡ ok b → l b ≡ k a) where
  pub each-sides : (xs : List A) (ys : List B) → each g xs ≡ ok ys → map l ys ≡ map k xs
  each-sides [] ys e = subst (λ (z : List B). map l z ≡ []) (ok-same e) refl
  each-sides (x ∷ xs) ys e =
      let (y, is, rest) = >>=-eq-ok (g x) _ e in
      let (later, are, made) = >>=-eq-ok (each g xs) _ rest in
      subst (λ (z : List B). map l z ≡ map k (x ∷ xs)) (ok-same made)
        (rw (keeps x y is, each-sides xs later are) refl)

same_side_refl : (s : Side) → same_side s s ≡ true
same_side_refl s = ground arith

pub own_sides : (sides : List Side) → All (λ s. any (λ t. same_side t s) sides ≡ true) sides
own_sides [] = tt
own_sides (s ∷ sides) = (
  rw (same_side_refl s) refl,
  All-map (λ t. any (λ u. same_side u t) sides ≡ true)
      (λ t. any (λ u. same_side u t) (s ∷ sides) ≡ true) (λ t h. rw h (ground arith)) sides
      (own_sides sides),
)

pub both : (a b : Bool) → a ≡ true → b ≡ true → (a && b) ≡ true
both a b h k = ground arith

pub map_id : (sides : List Side) → map (λ s. s) sides ≡ sides
map_id [] = refl
map_id (s ∷ sides) = ap (λ (z : List Side). s ∷ z) (map_id sides)
