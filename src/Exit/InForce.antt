-- ===== src/Exit/InForce.antt =====
-- The exits in force on the bars of a frame.
use Prim.Native.String.{String}
use strategy_engine.Prelude.{ℕ, ◌≡◌, ◌↔◌, refl, sym, subst, Bool, true, false, List, All, map}
use strategy_engine.Float.{Float}
use strategy_engine.Result.{ok}
use strategy_engine.Pandas.{RowMin, IsRowMin}
use strategy_engine.Exit.Rules.{Rule}
use strategy_engine.Exit.Policy.{
  Groups, Evaluated, Profile, SideExits, selected, is_kind, min_of, ready, configured, aggregate,
  profile_exits, select, side_exits,
}
use strategy_engine.Exit.Found.{keep}
use strategy_engine.Exit.Aggregate.{
  of_kind, Ready, InForce, ready_iff, Known, of_signals_gathered, signals-any, kind_gathered,
  ratio_values, ratio-IsLeast, distance-IsLeast,
}

module _ {F : Type 0} ⦃f : Float F⦄ (row_min : RowMin F) (laws : IsRowMin row_min)
    (missing : f.le f.nan f.nan ≡ false) (value : Rule F → Evaluated F) (es : List (Evaluated F))
    (signals : Evaluated F → ℕ → Bool) (signal_of : Rule F → ℕ → Bool)
    (distance_of ratio_of : Rule F → ℕ → F) where
  abbrev pub Knows : List (Rule F) → Type 0
  Knows = All (Known row_min laws missing value es signals signal_of distance_of ratio_of)

  profile_exits-InForce :
      (g : Groups F) (p : Profile)
      → Knows (selected g p)
      → (x : SideExits F) × (profile_exits row_min signals g es p ≡ ok x)
        × ((i : ℕ) → InForce signal_of distance_of ratio_of (selected g p) x i)
  unfolding profile_exits
  profile_exits-InForce g p known =
      let rules = selected g p in
      let signal_rules =
        of_signals_gathered row_min laws missing value es signals signal_of distance_of ratio_of
          rules known in
      let takes =
        kind_gathered row_min laws missing value es signals signal_of distance_of ratio_of rules
          known "partial_take" refl refl in
      let stops =
        kind_gathered row_min laws missing value es signals signal_of distance_of ratio_of rules
          known "stop_loss" refl refl in
      let profits =
        kind_gathered row_min laws missing value es signals signal_of distance_of ratio_of rules
          known "take_profit" refl refl in
      let all_of = λ (kind : String). map value (of_kind kind rules) in
      (
        aggregate row_min signals rules (all_of "partial_take")
            (map value (keep (is_kind "signal" "signal") rules)) (all_of "stop_loss")
            (all_of "take_profit"),
        rw (takes, profile_exits)
            (rw (signal_rules, profile_exits) (rw (stops, profile_exits) (rw (profits) refl))),
        λ i. (
          rw
              (signals-any row_min laws missing value es signals signal_of distance_of ratio_of
                rules known i)
              (λ h. h, λ h. h),
          ratio-IsLeast row_min laws missing value es signals signal_of distance_of ratio_of rules
              known "stop_loss" refl refl i,
          ratio-IsLeast row_min laws missing value es signals signal_of distance_of ratio_of rules
              known "take_profit" refl refl i,
          distance-IsLeast row_min laws missing value es signals signal_of distance_of ratio_of
              rules known "stop_loss" refl refl i,
          distance-IsLeast row_min laws missing value es signals signal_of distance_of ratio_of
              rules known "take_profit" refl refl i,
          (let legs = map (λ r. ratio_of r i) (of_kind "partial_take" rules) in
              let same =
                ratio_values row_min laws missing value es signals signal_of distance_of ratio_of
                  rules known "partial_take" refl refl i in
              let sl = min_of row_min (λ e. e.ratio) (all_of "stop_loss") i in
              let tp = min_of row_min (λ e. e.ratio) (all_of "take_profit") i in
              subst
                (λ (values : List F).
                  (ready sl tp (configured "stop_loss" rules) (configured "take_profit" rules)
                      values
                    ≡ true)
                  ↔ Ready signal_of distance_of ratio_of rules sl tp i)
                (sym same)
                (ready_iff sl tp (configured "stop_loss" rules) (configured "take_profit" rules)
                  legs)),
        ),
      )

  pub side_exits-InForce :
      (g : Groups F) (profile : ℕ → Profile)
      → ((p : Profile) → Knows (selected g p))
      → (x : SideExits F) × (side_exits row_min signals profile g es ≡ ok x)
        × ((i : ℕ) → InForce signal_of distance_of ratio_of (selected g (profile i)) x i)
  unfolding side_exits
  side_exits-InForce g profile known =
      let (a, ea, fa) = profile_exits-InForce g Profile.aligned (known Profile.aligned) in
      let (b, eb, fb) = profile_exits-InForce g Profile.countertrend (known Profile.countertrend) in
      let (c, ec, fc) = profile_exits-InForce g Profile.neutral (known Profile.neutral) in
      (
        select a b c profile,
        rw (ea, side_exits) (rw (eb, side_exits) (rw (ec) refl)),
        λ i. at_profile a b c (profile i) i refl (fa i) (fb i) (fc i),
      )
    where
      at_profile :
          (a b c : SideExits F) (p : Profile) (i : ℕ)
          → profile i ≡ p
          → InForce signal_of distance_of ratio_of (selected g Profile.aligned) a i
          → InForce signal_of distance_of ratio_of (selected g Profile.countertrend) b i
          → InForce signal_of distance_of ratio_of (selected g Profile.neutral) c i
          → InForce signal_of distance_of ratio_of (selected g p) (select a b c profile) i
      at_profile a b c Profile.aligned i is x y z = rw is x
      at_profile a b c Profile.countertrend i is x y z = rw is y
      at_profile a b c Profile.neutral i is x y z = rw is z
