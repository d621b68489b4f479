-- ===== src/Episode/Wave.antt =====
-- The forming wave of `_project_long`: `reset_forming`, `seed_first_wave`, `update_forming`.
use strategy_engine.Prelude.{ℕ, zero, suc, ◌+◌, Bool, not, ◌&&◌, if◌then◌else◌}
use strategy_engine.Prelude.Int.{ℤ, pos, negsuc}
use strategy_engine.Float.{Float}
use strategy_engine.Numpy.{Numpy}
use strategy_engine.Episode.Data.{Bars, Wave}

module _ {F : Type 0} ⦃f : Float F⦄ (b : Bars F) where
  open f use {lt, le}

  -- The range of the bar covers the anchor.
  abbrev pub contact : ℕ → Bool
  contact i = le (b.low i) (b.anchor i) && le (b.anchor i) (b.high i)

  -- `np.where(contact, np.arange(size), -1)`
  abbrev pub contact_bar : ℕ → ℤ
  contact_bar i = if contact i then pos i else negsuc 0

  abbrev pub reset_forming : ℕ → Wave F
  reset_forming i = record {
    s_bar = i;
    p_bar = i;
    s_low = b.low i;
    p_high = b.high i;
    d_low = b.low i;
    d_high = b.high i;
  }

  unfoldable pub update_forming : ℕ → Wave F → Wave F
  update_forming i w =
      if lt (b.low i) w.s_low
      then reset_forming i
      else if lt w.p_high (b.high i)
      then record w { p_bar = i; p_high = b.high i; d_high = b.high i; d_low = b.low i }
      else if lt (b.low i) w.d_low
      then record w { d_low = b.low i }
      else w

  module _ (np : Numpy F) where
    -- The nearest contact left of bar `i`: `latest_contact[i - 1] if i > 0 else -1`.
    abbrev pub contact_before : ℕ → ℤ
    contact_before zero = negsuc 0
    contact_before (suc i) = np.running_max contact_bar i

    abbrev pub seed_from : ℤ → ℕ → Wave F → Wave F
    seed_from (negsuc k) i w = w
    seed_from (pos j) i w =
        let p = j + np.argmax b.high j (i + 1) in
        if not (lt (b.low j) (b.low i)) then w else record {
          s_bar = j;
          p_bar = p;
          s_low = b.low j;
          p_high = b.high p;
          d_low = np.min_of b.low p (i + 1);
          d_high = b.high p;
        }

    unfoldable pub seed_first_wave : ℕ → Wave F → Wave F
    seed_first_wave i = seed_from (contact_before i) i
