-- ===== src/Exit/Found.antt =====
-- The maps by instance id give each rule its own evaluation.
use Prim.Native.String.{String}
use text.Mathlib.TextEquality.{eq_iff}
use strategy_engine.Prelude.{
  ◌≡◌, ◌≢◌, refl, inl, inr, Bool, true, none, some, List, [], ◌∷◌, ◌++◌, All, All-map, map,
  if◌then◌else◌, arith, Bool-cases,
}
use strategy_engine.Result.{ok}
use strategy_engine.Exit.Rules.{Rule, text_or}
use strategy_engine.Exit.Policy.{Evaluated, ids_of, find, gather}
use strategy_engine.Unique.{Distinct}

module _ {ℓ κ} {A : Type ℓ} where
  pub All-left : (P : A → Type κ) (xs ys : List A) → All P (xs ++ ys) → All P xs
  All-left P [] ys h = tt
  All-left P (x ∷ xs) ys h = (h.0, All-left P xs ys h.1)

  pub All-right : (P : A → Type κ) (xs ys : List A) → All P (xs ++ ys) → All P ys
  All-right P [] ys h = h
  All-right P (x ∷ xs) ys h = All-right P xs ys h.1

  pub All-both : (P : A → Type κ) (xs ys : List A) → All P xs → All P ys → All P (xs ++ ys)
  All-both P [] ys _ q = q
  All-both P (x ∷ xs) ys p q = (p.0, All-both P xs ys p.1 q)

module _ {F : Type 0} where
  abbrev pub id_of : Rule F → String
  id_of r = text_or "" r.instance_id

  -- Over the rules of a map: each is found under its id, and no other id is.
  find-fresh :
      (test : Evaluated F → Bool) (value : Rule F → Evaluated F) (id : String) (rs : List (Rule F))
      → ((r : Rule F) → (value r).instance_id ≡ id_of r)
      → All (λ s. id ≢ id_of s) rs
      → find test id (map value rs) ≡ none
  unfolding find
  find-fresh test value id [] own h = refl
  find-fresh test value id (r ∷ rs) own h =
      ground
        (arith, find-fresh test value id rs own h.1, own r, h.0, eq_iff (value r).instance_id id)

  abbrev pub IsFound :
      (Evaluated F → Bool) → (Rule F → Evaluated F) → List (Evaluated F) → Rule F → Type 0
  IsFound test value es r = test (value r) ≡ true → find test (id_of r) es ≡ some (value r)

  pub Distinct-IsFound :
      (test : Evaluated F → Bool) (value : Rule F → Evaluated F) (rs : List (Rule F))
      → ((r : Rule F) → (value r).instance_id ≡ id_of r)
      → Distinct id_of rs
      → All (IsFound test value (map value rs)) rs
  unfolding find
  Distinct-IsFound test value [] own d = tt
  Distinct-IsFound test value (r ∷ rs) own (apart, d) = (
    λ t. ground (
      arith,
      find-fresh test value (id_of r) rs own apart,
      own r,
      eq_iff (value r).instance_id (id_of r),
    ),
    All-map (IsFound test value (map value rs)) (IsFound test value (value r ∷ map value rs))
        (λ s h t. rw (h t, find)) rs (Distinct-IsFound test value rs own d),
  )

module _ {F : Type 0} where
  -- The rules of a kind.
  abbrev pub keep : (Rule F → Bool) → List (Rule F) → List (Rule F)
  keep test [] = []
  keep test (r ∷ rs) = if test r then r ∷ keep test rs else keep test rs

  pub gather-keep :
      (test : Evaluated F → Bool) (value : Rule F → Evaluated F) (es : List (Evaluated F))
      (kind : Rule F → Bool) (rs : List (Rule F))
      → All
          (λ r. kind r ≡ true → find test (text_or "None" (Rule.instance_id r)) es ≡ some (value r))
          rs
      → gather test es (ids_of kind rs) ≡ ok (map value (keep kind rs))
  unfolding gather ids_of
  gather-keep test value es kind [] h = refl
  gather-keep test value es kind (r ∷ rs) h = elim (Bool-cases (kind r)) [
    | inl is ↦
        let rest = gather-keep test value es kind rs h.1 in rw (is, ids_of, h.0 is, rest) refl
    | inr is_not ↦ rw (is_not, ids_of) (gather-keep test value es kind rs h.1)
  ]
