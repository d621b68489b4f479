-- ===== src/Identity/Members.antt =====
-- Tests on the members of a frozen set, which forgets the order and the repetitions.
use mathlib.Core.Bool.{Bool-set}
use mathlib.Core.List.{Mem, not-mem-nil, forall_mem-cons}
use mathlib.Core.Quot
use strategy_engine.Prelude.{
  ◌≡◌, refl, sym, ◌∙◌, arith, Bool, false, Bool-cases, inl, inr, List, [], ◌∷◌, any,
}
use strategy_engine.Identity.Node.{SameMembers, FrozenSet}

module _ {U : Type 0} (test : U → Bool) where
  any-all_false : (us : List U) → any test us ≡ false → (u : U) → Mem u us → test u ≡ false
  any-all_false [] h = λ u m. absurd (not-mem-nil m)
  any-all_false (x ∷ us) h =
      (forall_mem-cons {p = λ u. test u ≡ false} (λ u. Bool-set (test u) false)).1
        (ground arith, any-all_false us (ground arith))

  all_false-any : (us : List U) → ((u : U) → Mem u us → test u ≡ false) → any test us ≡ false
  all_false-any [] h = refl
  all_false-any (x ∷ us) h =
      let both = (forall_mem-cons {p = λ u. test u ≡ false} (λ u. Bool-set (test u) false)).0 h in
      ground (arith, both.0, all_false-any us both.1)

  pub any-SameMembers : (us vs : List U) → SameMembers us vs → any test us ≡ any test vs
  any-SameMembers us vs same = elim (Bool-cases (any test us)) [
    | inl e ↦ elim (Bool-cases (any test vs)) [
      | inl k ↦ e ∙ sym k
      | inr k ↦
          absurd
            (let none_here = all_false-any us (λ u m. any-all_false vs k u ((same u).0 m)) in cc)
    ]
    | inr e ↦ e ∙ sym (all_false-any vs (λ u m. any-all_false us e u ((same u).1 m)))
  ]

  -- Whether some member of a frozen set passes a test.
  unfoldable pub any_member : FrozenSet U → Bool
  any_member = Quot.lift Bool-set (any test) any-SameMembers
