-- ===== src/Entry/Static.antt =====
-- `check_ema_pullback_static_semantics`
-- (src/strategy_engine/strategies/ema_pullback/static_semantics.py), from the sides to the setups: what a
-- specification must say of its entries before anything is evaluated.
use strategy_engine.Prelude.{◌≡◌, Bool, true, false, Option, List, [], ◌∷◌}
use strategy_engine.Prelude.Int.{ℤ}
use strategy_engine.Float.{Float}
use strategy_engine.Result.{Result, ok, Error, ◌>>=◌, ◌>>◌, raise_if, raise_if->>, >>=-eq-ok}
use strategy_engine.Unique.{unique_from}
use strategy_engine.Width.Band.{parse_width_band_params}
use strategy_engine.Entry.Trigger.{is_unsupported}
use strategy_engine.Entry.Gates.{Item, declared_id}
use strategy_engine.Entry.Components.{Blocker, Setup}
use strategy_engine.Entry.Sides.{EntrySpec, no_sides, other_direction, other_risk}

module _ {F : Type 0} ⦃f : Float F⦄ (of_int : ℤ → Option F) where
  abbrev other_blocker : Blocker F → Bool
  other_blocker Blocker.unsupported_blocker = true
  other_blocker _ = false

  abbrev other_setup : Setup F → Bool
  other_setup Setup.unsupported_setup = true
  other_setup _ = false

  -- The bodies of the two loops.
  abbrev check_blockers : List (Item (Blocker F)) → Result (Unit {0})
  check_blockers [] = ok tt
  check_blockers (item ∷ items) =
      raise_if (other_blocker item.body) (Error.invalid_request "unsupported blocker component")
      >> check_blockers items

  abbrev check_setup : Setup F → Result (Unit {0})
  check_setup (Setup.stack_width_band body s) = parse_width_band_params of_int body >>= λ _. ok tt
  check_setup _ = ok tt

  abbrev check_setups : List (Item (Setup F)) → Result (Unit {0})
  check_setups [] = ok tt
  check_setups (item ∷ items) =
      raise_if (other_setup item.body) (Error.invalid_request "unsupported setup component")
      >> (check_setup item.body >> check_setups items)

  unfoldable pub check_entry_semantics : EntrySpec F → Result (Unit {0})
  check_entry_semantics spec =
      raise_if (no_sides spec.sides)
        (Error.invalid_request "raw_spec.trade_sides must contain long/short")
      >> (raise_if (other_direction spec.direction_id)
            (Error.invalid_request "unsupported direction component")
          >> (check_blockers spec.blockers
              >> (unique_from declared_id [] spec.blockers
                  >> (raise_if (is_unsupported spec.trigger)
                        (Error.invalid_request "unsupported trigger component")
                      >> (raise_if (other_risk spec.risk_id)
                            (Error.invalid_request "unsupported risk component")
                          >> (check_setups spec.setups
                              >> unique_from declared_id [] spec.setups))))))

  -- What a specification that passes has.
  pub record IsChecked (spec : EntrySpec F) : Type 0 where
    pub traded : no_sides spec.sides ≡ false
    pub directed : other_direction spec.direction_id ≡ false
    pub unique_blockers : unique_from declared_id [] spec.blockers ≡ ok tt
    pub supported : is_unsupported spec.trigger ≡ false
    pub risked : other_risk spec.risk_id ≡ false
    pub unique_setups : unique_from declared_id [] spec.setups ≡ ok tt

  pub check_entry_semantics-IsChecked :
      (spec : EntrySpec F) → check_entry_semantics spec ≡ ok tt → IsChecked spec
  unfolding check_entry_semantics
  check_entry_semantics-IsChecked spec h =
      let (traded, h) =
        raise_if->> (no_sides spec.sides)
          (Error.invalid_request "raw_spec.trade_sides must contain long/short") _ h in
      let (directed, h) =
        raise_if->> (other_direction spec.direction_id)
          (Error.invalid_request "unsupported direction component") _ h in
      let (_, checked, h) = >>=-eq-ok (check_blockers spec.blockers) _ h in
      let (one, unique, h) = >>=-eq-ok (unique_from declared_id [] spec.blockers) _ h in
      let (supported, h) =
        raise_if->> (is_unsupported spec.trigger)
          (Error.invalid_request "unsupported trigger component") _ h in
      let (risked, h) =
        raise_if->> (other_risk spec.risk_id) (Error.invalid_request "unsupported risk component") _
          h in
      let (_, checked_setups, h) = >>=-eq-ok (check_setups spec.setups) _ h in
      record {
        traded = traded;
        directed = directed;
        unique_blockers = unique;
        supported = supported;
        risked = risked;
        unique_setups = h;
      }
