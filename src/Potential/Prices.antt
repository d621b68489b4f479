-- ===== src/Potential/Prices.antt =====
-- The prices of a potential entry: positive, finite, and on the right sides of the entry.
use strategy_engine.Prelude.{
  suc, ◌≡◌, refl, arith, ◌==◌, Bool, true, false, not, ◌&&◌, Option, none, some, List, [], ◌∷◌, map,
  length, if◌then◌else◌, and_left, and_right, ap,
}
use strategy_engine.Float.{Float, IsRounded}
use strategy_engine.Result.{Result, ok, err, Ensures, Ensures-raise_if}
use strategy_engine.Potential.Project.{
  Side, same_side, Setup, PotentialEntry, BarInput, Prices, zip_bars, price_of, positive, prices_at,
  checked, priced, project_bar, project_side,
}

abbrev Never : Type 0
Never = true ≡ false

module _ {F : Type 0} ⦃f : Float F⦄ where
  abbrev pub IsOrderedFor : Side → F → F → F → Type 0
  IsOrderedFor Side.long e s t = (f.le s e ≡ true) × (f.le e t ≡ true)
  IsOrderedFor Side.short e s t = (f.le t e ≡ true) × (f.le e s ≡ true)

  abbrev pub IsPriced : Side → F → F → F → Type 0
  IsPriced side e s t =
      (positive e ≡ true) × (positive s ≡ true) × (positive t ≡ true) × IsOrderedFor side e s t

  -- The three prices of a bar: there together, and then on a bar that is let through.
  abbrev pub IsBar : Side → BarInput F → Option F → Option F → Option F → Type 0
  IsBar side b none none none = Unit {0}
  IsBar side b (some e) (some s) (some t) =
      (b.allowed ≡ true) × (b.close_ok ≡ true) × (b.anchor ≡ some e) × IsPriced side e s t
  IsBar side b _ _ _ = Never

  abbrev pub AllBars :
      Side → List (BarInput F) → List (Option F) → List (Option F) → List (Option F) → Type 0
  AllBars side [] [] [] [] = Unit {0}
  AllBars side (b ∷ bs) (e ∷ es) (s ∷ ss) (t ∷ ts) = IsBar side b e s t × AllBars side bs es ss ts
  AllBars side _ _ _ _ = Never

  -- The entry of a side, on the bars it is given.
  pub record IsEntry (setup : Setup) (close_ok : List Bool) (anchors stops takes : List (Option F))
      (e : PotentialEntry F) : Type 0 where
    pub same_side_as : e.side ≡ setup.side
    pub bars :
        AllBars setup.side
          (zip_bars setup.pre_trigger_allowed close_ok anchors stops takes)
          e.entry_price
          e.stop_price
          e.take_price
    pub whole :
        length (zip_bars setup.pre_trigger_allowed close_ok anchors stops takes) ≡ length anchors

  abbrev pub aligned :
      Setup → List Bool → List (Option F) → List (Option F) → List (Option F) → Bool
  aligned setup close_ok anchors stops takes =
      length setup.pre_trigger_allowed == length anchors
      && length close_ok == length anchors
      && length stops == length anchors
      && length takes == length anchors

  zip_bars-length :
      (oks cs : List Bool) (xs ss ts : List (Option F))
      → length oks ≡ length xs
      → length cs ≡ length xs
      → length ss ≡ length xs
      → length ts ≡ length xs
      → length (zip_bars oks cs xs ss ts) ≡ length xs
  zip_bars-length [] cs [] ss ts a b c d = refl
  zip_bars-length (o ∷ oks) cs [] ss ts a b c d = absurd (omega arith)
  zip_bars-length [] cs (x ∷ xs) ss ts a b c d = absurd (omega arith)
  zip_bars-length (o ∷ oks) [] (x ∷ xs) ss ts a b c d = absurd (omega arith)
  zip_bars-length (o ∷ oks) (k ∷ cs) (x ∷ xs) [] ts a b c d = absurd (omega arith)
  zip_bars-length (o ∷ oks) (k ∷ cs) (x ∷ xs) (s ∷ ss) [] a b c d = absurd (omega arith)
  zip_bars-length (o ∷ oks) (k ∷ cs) (x ∷ xs) (s ∷ ss) (t ∷ ts) a b c d =
      ap suc
        (zip_bars-length oks cs xs ss ts (omega arith) (omega arith) (omega arith) (omega arith))

  module _ (laws : IsRounded F) where
    prices_at-IsOrderedFor :
        (side : Side) (a s t : F)
        → positive a ≡ true
        → positive s ≡ true
        → positive t ≡ true
        → positive (prices_at side a s t).stop ≡ true
        → positive (prices_at side a s t).take ≡ true
        → IsOrderedFor side a (prices_at side a s t).stop (prices_at side a s t).take
    prices_at-IsOrderedFor Side.long a s t ha hs ht hx hy = (
      laws.sub_le a s (and_right _ _ hs) (and_left _ _ ha) (and_left _ _ hx),
      laws.le_add a t (and_right _ _ ht) (and_left _ _ ha) (and_left _ _ hy),
    )
    prices_at-IsOrderedFor Side.short a s t ha hs ht hx hy = (
      laws.sub_le a t (and_right _ _ ht) (and_left _ _ ha) (and_left _ _ hy),
      laws.le_add a s (and_right _ _ hs) (and_left _ _ ha) (and_left _ _ hx),
    )

    abbrev BarOut : Side → BarInput F → Option (Prices F) → Type 0
    BarOut side b o =
        IsBar side b (price_of (λ p. p.entry) o) (price_of (λ p. p.stop) o)
          (price_of (λ p. p.take) o)

    three : (x y z : Bool) → not (x && y && z) ≡ false → (x ≡ true) × (y ≡ true) × (z ≡ true)
    three x y z h = ground arith

    if_out :
        (side : Side) (b : BarInput F) (test : Bool) (o : Option (Prices F))
        → (test ≡ true → BarOut side b o)
        → BarOut side b (if test then o else none)
    if_out side b true o h = h refl
    if_out side b false o h = tt

    unless_out :
        (side : Side) (b : BarInput F) (test : Bool) (o : Option (Prices F))
        → (test ≡ false → BarOut side b o)
        → BarOut side b (if test then none else o)
    unless_out side b true o h = tt
    unless_out side b false o h = h refl

    checked-BarOut :
        (side : Side) (b : BarInput F) (a s t : F)
        → b.allowed ≡ true
        → b.close_ok ≡ true
        → b.anchor ≡ some a
        → positive s ≡ true
        → positive t ≡ true
        → BarOut side b (checked (prices_at side a s t))
    checked-BarOut Side.long b a s t h k m hs ht =
        unless_out Side.long b (not (positive a && positive (f.sub a s) && positive (f.add a t))) _
          (λ n.
            let r = three (positive a) (positive (f.sub a s)) (positive (f.add a t)) n in
            (h, k, m, (r.0, r.1, r.2, prices_at-IsOrderedFor Side.long a s t r.0 hs ht r.1 r.2)))
    checked-BarOut Side.short b a s t h k m hs ht =
        unless_out Side.short b (not (positive a && positive (f.add a s) && positive (f.sub a t))) _
          (λ n.
            let r = three (positive a) (positive (f.add a s)) (positive (f.sub a t)) n in
            (h, k, m, (r.0, r.1, r.2, prices_at-IsOrderedFor Side.short a s t r.0 hs ht r.1 r.2)))

    priced-BarOut :
        (side : Side) (b : BarInput F) (x y z : Option F)
        → b.allowed ≡ true
        → b.close_ok ≡ true
        → b.anchor ≡ x
        → BarOut side b (priced side x y z)
    priced-BarOut side b none y z h k m = tt
    priced-BarOut side b (some a) none z h k m = tt
    priced-BarOut side b (some a) (some s) none h k m = tt
    priced-BarOut side b (some a) (some s) (some t) h k m =
        unless_out side b (not (positive a && positive s && positive t)) _ (λ n.
          let r = three (positive a) (positive s) (positive t) n in
          checked-BarOut side b a s t h k m r.1 r.2)

    project_bar-IsBar : (side : Side) (b : BarInput F) → BarOut side b (project_bar side b)
    unfolding project_bar
    project_bar-IsBar side b = if_out side b (b.allowed && b.close_ok) _ (λ h.
        priced-BarOut side b b.anchor b.stop_distance b.take_distance (and_left _ _ h)
          (and_right _ _ h) refl)

    map-AllBars :
        (side : Side) (bs : List (BarInput F))
        → AllBars side bs
            (map (price_of (λ p. p.entry)) (map (project_bar side) bs))
            (map (price_of (λ p. p.stop)) (map (project_bar side) bs))
            (map (price_of (λ p. p.take)) (map (project_bar side) bs))
    map-AllBars side [] = tt
    map-AllBars side (b ∷ bs) = (project_bar-IsBar side b, map-AllBars side bs)

    -- For floats whose sums and differences round without crossing a term: if the masks and the
    -- distances are as long as the anchors, the projection of a side returns, and on each bar its
    -- three prices are there together or not at all; where they are, the bar is let through, the
    -- entry is the anchor, all are finite and positive, and on the long side stop ≤ entry ≤ take,
    -- on the short side take ≤ entry ≤ stop.
    pub project_side-IsEntry :
        (setup : Setup) (close_ok : List Bool) (anchors stops takes : List (Option F))
        → aligned setup close_ok anchors stops takes ≡ true
        → (e : PotentialEntry F) × (project_side setup close_ok anchors stops takes ≡ ok e)
          × IsEntry setup close_ok anchors stops takes e
    unfolding project_side
    project_side-IsEntry setup close_ok anchors stops takes h =
        let bs = zip_bars setup.pre_trigger_allowed close_ok anchors stops takes in
        let bars = map (project_bar setup.side) bs in
        (
          record {
            side = setup.side;
            entry_price = map (price_of (λ p. p.entry)) bars;
            stop_price = map (price_of (λ p. p.stop)) bars;
            take_price = map (price_of (λ p. p.take)) bars;
          },
          rw h,
          record {
            same_side_as = refl;
            bars = map-AllBars setup.side bs;
            whole =
                zip_bars-length setup.pre_trigger_allowed close_ok anchors stops takes
                  (ground arith) (ground arith) (ground arith) (ground arith);
          },
        )

    pub project_side-Ensures :
        (setup : Setup) (close_ok : List Bool) (anchors stops takes : List (Option F))
        → Ensures
            (IsEntry setup close_ok anchors stops takes)
            (project_side setup close_ok anchors stops takes)
    unfolding project_side
    project_side-Ensures setup close_ok anchors stops takes =
        Ensures-raise_if _ (not (aligned setup close_ok anchors stops takes)) _ _ (λ n.
          let h : aligned setup close_ok anchors stops takes ≡ true = ground arith in
          record {
            same_side_as = refl;
            bars =
                map-AllBars setup.side
                  (zip_bars setup.pre_trigger_allowed close_ok anchors stops takes);
            whole =
                zip_bars-length setup.pre_trigger_allowed close_ok anchors stops takes
                  (ground arith) (ground arith) (ground arith) (ground arith);
          })

pub self : {A : Type 0} (m : Result A) → Ensures (λ a. m ≡ ok a) m
self (ok a) = refl
self (err e) = tt

pub same_side-eq : (a b : Side) → same_side a b ≡ true → a ≡ b
same_side-eq Side.long Side.long h = refl
same_side-eq Side.short Side.short h = refl
same_side-eq Side.long Side.short h = absurd cc
same_side-eq Side.short Side.long h = absurd cc
