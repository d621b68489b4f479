-- ===== src/Managed/Children.antt =====
-- The children that the paths of a composite name are found, and their values are computed.
use Prim.Native.String.{String}
use text.Mathlib.Text.{◌==◌ as str_eq}
use strategy_engine.Prelude.{
  ℕ, ◌≡◌, refl, sym, arith, Bool, true, false, Bool-cases, Option, none, some, List, [], ◌∷◌, any,
  All, All-map, ◌⊎◌, inl, inr, subst,
}
use strategy_engine.Result.{Result, ok, err}
use strategy_engine.Composite.Spec.{Child, CompositePath, counted_refs}
use strategy_engine.Composite.Fold.{
  PhaseChild, lookup, is_some, add_market, add_change, market_of, changes_of, condition_of,
  fold_phase_paths, value, composite_met,
}
use strategy_engine.Composite.Naive.{HasValue, composite_met_lem}
use strategy_engine.Managed.Atoms.{Succeeds}

module _ {C E : Type 0} where
  -- A path may only name a child that is there.
  abbrev pub Known : List (Child (PhaseChild C E)) → String → Type 0
  Known children ref = any (λ c. str_eq c.child_id ref) children ≡ true

  abbrev pub KnownRefs : List (Child (PhaseChild C E)) → CompositePath → Type 0
  KnownRefs children p =
      All (Known children) p.require × All (Known children) (counted_refs p.at_least)

  add_market-kept :
      (id : String) (b : PhaseChild C E) (ref : String) (found : List (String × (ℕ → Bool)))
      → is_some (lookup ref found) ≡ true
      → is_some (lookup ref (add_market id b found)) ≡ true
  add_market-kept id (PhaseChild.market m) ref found h = ground arith
  add_market-kept id (PhaseChild.entry_change e) ref found h = h
  add_market-kept id (PhaseChild.trade t) ref found h = h

  market_of-kept :
      (cs : List (Child (PhaseChild C E))) (ref : String) (found : List (String × (ℕ → Bool)))
      → is_some (lookup ref found) ≡ true
      → is_some (lookup ref (market_of cs found)) ≡ true
  market_of-kept [] ref found h = h
  market_of-kept (c ∷ cs) ref found h =
      market_of-kept cs ref (add_market c.child_id c.body found)
        (add_market-kept c.child_id c.body ref found h)

  add_change-kept :
      (id : String) (b : PhaseChild C E) (ref : String) (found : List (String × E))
      → is_some (lookup ref found) ≡ true
      → is_some (lookup ref (add_change id b found)) ≡ true
  add_change-kept id (PhaseChild.market m) ref found h = h
  add_change-kept id (PhaseChild.entry_change e) ref found h = ground arith
  add_change-kept id (PhaseChild.trade t) ref found h = h

  changes_of-kept :
      (cs : List (Child (PhaseChild C E))) (ref : String) (found : List (String × E))
      → is_some (lookup ref found) ≡ true
      → is_some (lookup ref (changes_of cs found)) ≡ true
  changes_of-kept [] ref found h = h
  changes_of-kept (c ∷ cs) ref found h =
      changes_of-kept cs ref (add_change c.child_id c.body found)
        (add_change-kept c.child_id c.body ref found h)

  module _ (P : C → Type 0) where
    abbrev pub TradeBody : PhaseChild C E → Type 0
    TradeBody (PhaseChild.trade t) = P t
    TradeBody _ = Unit {0}

    -- A name that is there is that of a market child, of a change, or of a trade condition.
    abbrev Found : List (Child (PhaseChild C E)) → String → Type 0
    Found cs ref =
        ((found : _) → is_some (lookup ref (market_of cs found)) ≡ true)
        ⊎ ((found : _) → is_some (lookup ref (changes_of cs found)) ≡ true)
        ⊎ ((t : C) × (condition_of cs ref ≡ ok t) × P t)

    trade-here :
        (id : String) (b : PhaseChild C E) (cs : List (Child (PhaseChild C E))) (ref : String)
        → str_eq id ref ≡ true
        → TradeBody b
        → Found (record { child_id = id; body = b } ∷ cs) ref
    trade-here id (PhaseChild.market m) cs ref e h =
        inl (λ found. market_of-kept cs ref ((id, m) ∷ found) (ground (arith, e)))
    trade-here id (PhaseChild.entry_change x) cs ref e h =
        inr (inl (λ found. changes_of-kept cs ref ((id, x) ∷ found) (ground (arith, e))))
    trade-here id (PhaseChild.trade t) cs ref e h = inr (inr (t, rw e refl, h))

    later :
        (c : Child (PhaseChild C E)) (cs : List (Child (PhaseChild C E))) (ref : String)
        → str_eq c.child_id ref ≡ false
        → Found cs ref
        → Found (c ∷ cs) ref
    later c cs ref e (inl h) = inl (λ found. h _)
    later c cs ref e (inr (inl h)) = inr (inl (λ found. h _))
    later c cs ref e (inr (inr h)) = inr (inr (h.0, rw e h.1, h.2))

    pub found-Known :
        (cs : List (Child (PhaseChild C E))) (ref : String)
        → All (λ c. TradeBody c.body) cs
        → Known cs ref
        → Found cs ref
    found-Known [] ref h k = cc
    found-Known (c ∷ cs) ref h k = elim (Bool-cases (str_eq c.child_id ref)) [
      | inl e ↦ trade-here c.child_id c.body cs ref e h.0
      | inr e ↦ later c cs ref e (found-Known cs ref h.1 (ground arith))
    ]

  -- The values of the children that the paths name are computed where the trade conditions are.
  module _ (children : List (Child (PhaseChild C E))) (paths : List CompositePath) (index : ℕ)
      (trade_met : C → Result Bool) (entry_change_met : E → Bool)
      (trades : All (λ c. TradeBody (λ t. Succeeds (trade_met t)) c.body) children) where
    abbrev valued : String → Result Bool
    valued = value (fold_phase_paths children paths) index trade_met entry_change_met

    value-Succeeds : (ref : String) → Known children ref → Succeeds (valued ref)
    unfolding value fold_phase_paths
    value-Succeeds ref k =
        go (lookup ref (market_of children [])) refl (lookup ref (changes_of children [])) refl
          (found-Known _ children ref trades k)
      where
        go :
            (m : Option (ℕ → Bool))
            → lookup ref (market_of children []) ≡ m
            → (x : Option E) → lookup ref (changes_of children []) ≡ x
            → Found (λ t. Succeeds (trade_met t)) children ref
            → Succeeds (valued ref)
        go (some m) em x ex h = rw em tt
        go none em (some x) ex h = rw (em, ex) tt
        go none em none ex (inl h) = absurd (let y = h [] in ground (arith, em, y))
        go none em none ex (inr (inl h)) = absurd (let y = h [] in ground (arith, ex, y))
        go none em none ex (inr (inr h)) = rw (em, ex, h.1) h.2

    abbrev bit : Result Bool → Bool
    bit (ok b) = b
    bit (err e) = false

    bit-ok : (m : Result Bool) → Succeeds m → m ≡ ok (bit m)
    bit-ok (ok b) h = refl
    bit-ok (err e) h = absurd h

    abbrev HasBit : String → Type 0
    HasBit =
        HasValue (fold_phase_paths children paths) index trade_met entry_change_met
          (λ ref. bit (valued ref))

    has_bits : (refs : List String) → All (Known children) refs → All HasBit refs
    has_bits = All-map (Known children) HasBit (λ ref k. bit-ok (valued ref) (value-Succeeds ref k))

    pub composite_met-Succeeds :
        All (KnownRefs children) paths
        → Succeeds
            (composite_met (fold_phase_paths children paths) index trade_met entry_change_met)
    composite_met-Succeeds known =
        subst Succeeds
          (sym (
            composite_met_lem children paths index trade_met entry_change_met
              (λ ref. bit (valued ref))
              (All-map (KnownRefs children)
                (λ p. All HasBit p.require × All HasBit (counted_refs p.at_least))
                (λ p k. (has_bits p.require k.0, has_bits (counted_refs p.at_least) k.1)) paths
                known)))
          tt
