-- ===== src/Unique.antt =====
-- `require_unique_instance_ids` (src/strategy_engine/strategies/ema_pullback/raw_spec_identity.py) on
-- a list of declared items. `id_of` reads the id of an item, with an empty text where it is missing.
use Prim.Native.String.{String}
use text.Mathlib.Text.{◌==◌ as str_eq}
use text.Mathlib.TextEquality.{eq_iff}
use strategy_engine.Prelude.{◌≡◌, ◌≢◌, false, List, [], ◌∷◌, any, All, All-map, arith}
use strategy_engine.Result.{Result, ok, Error, ◌>>◌, raise_if, raise_if->>}

module _ {A : Type 0} (id_of : A → String) where
  -- With the ids seen so far.
  unfoldable pub unique_from : List String → List A → Result (Unit {0})
  unique_from seen [] = ok tt
  unique_from seen (r ∷ rs) =
      raise_if (str_eq (id_of r) "") (Error.invalid_request "must be a non-empty string")
      >> (raise_if (any (λ s. str_eq s (id_of r)) seen)
            (Error.invalid_request "instance_id must be unique")
          >> unique_from (id_of r ∷ seen) rs)

  -- No two items have the same id.
  abbrev pub Distinct : List A → Type 0
  Distinct [] = Unit
  Distinct (r ∷ rs) = All (λ s. id_of r ≢ id_of s) rs × Distinct rs

  unseen :
      (r : A) (seen : List String) (rs : List A)
      → All (λ s. any (λ t. str_eq t (id_of s)) (id_of r ∷ seen) ≡ false) rs
      → All (λ s. id_of r ≢ id_of s) rs
  unseen r seen =
      All-map (λ s. any (λ t. str_eq t (id_of s)) (id_of r ∷ seen) ≡ false) (λ s. id_of r ≢ id_of s)
        λ s h e. absurd (ground (arith, eq_iff (id_of r) (id_of s)))

  seen_less :
      (r : A) (seen : List String) (rs : List A)
      → All (λ s. any (λ t. str_eq t (id_of s)) (id_of r ∷ seen) ≡ false) rs
      → All (λ s. any (λ t. str_eq t (id_of s)) seen ≡ false) rs
  seen_less r seen =
      All-map (λ s. any (λ t. str_eq t (id_of s)) (id_of r ∷ seen) ≡ false)
        (λ s. any (λ t. str_eq t (id_of s)) seen ≡ false) λ s h. ground arith

  pub unique_from-Distinct :
      (seen : List String) (rs : List A)
      → unique_from seen rs ≡ ok tt
      → All (λ s. any (λ t. str_eq t (id_of s)) seen ≡ false) rs × Distinct rs
  unfolding unique_from
  unique_from-Distinct seen [] h = (tt, tt)
  unique_from-Distinct seen (r ∷ rs) h =
      let (named, rest) =
        raise_if->> (str_eq (id_of r) "") (Error.invalid_request "must be a non-empty string") _
          h in
      let (fresh, more) =
        raise_if->> (any (λ s. str_eq s (id_of r)) seen)
          (Error.invalid_request "instance_id must be unique") (unique_from (id_of r ∷ seen) rs)
          rest in
      let (apart, distinct) = unique_from-Distinct (id_of r ∷ seen) rs more in
      ((fresh, seen_less r seen rs apart), (unseen r seen rs apart, distinct))

  -- The id of every item is not empty.
  pub unique_from-named :
      (seen : List String) (rs : List A)
      → unique_from seen rs ≡ ok tt
      → All (λ r. str_eq (id_of r) "" ≡ false) rs
  unfolding unique_from
  unique_from-named seen [] h = tt
  unique_from-named seen (r ∷ rs) h =
      let (named, rest) =
        raise_if->> (str_eq (id_of r) "") (Error.invalid_request "must be a non-empty string") _
          h in
      let (fresh, more) =
        raise_if->> (any (λ s. str_eq s (id_of r)) seen)
          (Error.invalid_request "instance_id must be unique") (unique_from (id_of r ∷ seen) rs)
          rest in
      (named, unique_from-named (id_of r ∷ seen) rs more)
