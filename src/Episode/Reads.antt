-- ===== src/Episode/Reads.antt =====
-- What one bar of `_project_long` reads of the market: the bar and the one before it.
use strategy_engine.Prelude.{ℕ, suc, ◌+◌, ◌-◌, ◌<◌, ◌≡◌, refl, arith, if◌then◌else◌, Bool}
use strategy_engine.Float.{Float}
use strategy_engine.Episode.Data.{Phase, Limits, Bars, Machine, Wave}
use strategy_engine.Episode.Wave.{update_forming}
use strategy_engine.Episode.Step.{
  advance, away_bar, zone_bar, false_break_bar, phase_bar, break_stack, order, open_zone,
  extend_break, close_entities, zone_above, zone_below, zone_contact,
}

-- Two markets with the same values on the bars before `n`.
pub record SameBefore {F : Type 0} (n : ℕ) (b c : Bars F) : Type 0 where
  pub high : (k : ℕ) → k < n → b.high k ≡ c.high k
  pub low : (k : ℕ) → k < n → b.low k ≡ c.low k
  pub close : (k : ℕ) → k < n → b.close k ≡ c.close k
  pub fast : (k : ℕ) → k < n → b.fast k ≡ c.fast k
  pub anchor : (k : ℕ) → k < n → b.anchor k ≡ c.anchor k
  pub slow : (k : ℕ) → k < n → b.slow k ≡ c.slow k

pub weaken : {F : Type 0} {n : ℕ} {b c : Bars F} → SameBefore (suc n) b c → SameBefore n b c
weaken s = record {
  high = λ k h. s.high k (omega arith);
  low = λ k h. s.low k (omega arith);
  close = λ k h. s.close k (omega arith);
  fast = λ k h. s.fast k (omega arith);
  anchor = λ k h. s.anchor k (omega arith);
  slow = λ k h. s.slow k (omega arith);
}

module _ {F : Type 0} ⦃f : Float F⦄ (b c : Bars F) (i : ℕ) (same : SameBefore (suc i) b c) where
  pub update_forming_congr : (w : Wave F) → update_forming b i w ≡ update_forming c i w
  unfolding update_forming
  update_forming_congr w = rw (same.high i (omega arith), same.low i (omega arith))

  pub extend_break_congr :
      (l : Limits) (m : Machine F) → extend_break l b i m ≡ extend_break l c i m
  unfolding extend_break
  extend_break_congr l m = rw (same.high i (omega arith), same.low i (omega arith))

  pub close_entities_congr :
      (l : Limits) (p : Phase) (m : Machine F) → close_entities l b i p m ≡ close_entities l c i p m
  unfolding close_entities
  close_entities_congr l Phase.away m = refl
  close_entities_congr l Phase.zone m = refl
  close_entities_congr l Phase.false_break m = rw (extend_break_congr l m)
  close_entities_congr l Phase.broken m = refl

  pub break_stack_congr : (l : Limits) (m : Machine F) → break_stack l b i m ≡ break_stack l c i m
  unfolding break_stack
  break_stack_congr l m = rw (
    update_forming_congr m.wave,
    close_entities_congr l m.phase (record m { wave = update_forming c i m.wave }),
  )

  pub away_bar_congr : (l : Limits) (m : Machine F) → 0 < i → away_bar l b i m ≡ away_bar l c i m
  unfolding away_bar open_zone
  away_bar_congr l m first = rw (
    update_forming_congr m.wave,
    same.high i (omega arith),
    same.low i (omega arith),
    same.anchor i (omega arith),
    same.low (i - 1) (omega arith),
    same.anchor (i - 1) (omega arith),
  )

  pub zone_bar_congr : (l : Limits) (m : Machine F) → zone_bar l b i m ≡ zone_bar l c i m
  unfolding zone_bar zone_above zone_below zone_contact
  zone_bar_congr l m = rw (
    update_forming_congr m.wave,
    same.high i (omega arith),
    same.low i (omega arith),
    same.anchor i (omega arith),
  )

  pub false_break_bar_congr :
      (l : Limits) (m : Machine F) → false_break_bar l b i m ≡ false_break_bar l c i m
  unfolding false_break_bar
  false_break_bar_congr l m = rw (
    update_forming_congr m.wave,
    extend_break_congr l (record m { wave = update_forming c i m.wave }),
    same.anchor i (omega arith),
    same.close i (omega arith),
  )

  pub phase_bar_congr :
      (l : Limits) (p : Phase) (m : Machine F) → 0 < i → phase_bar l b i p m ≡ phase_bar l c i p m
  unfolding phase_bar
  phase_bar_congr l Phase.away m first = away_bar_congr l m first
  phase_bar_congr l Phase.zone m first = zone_bar_congr l m
  phase_bar_congr l Phase.false_break m first = false_break_bar_congr l m
  phase_bar_congr l Phase.broken m first = false_break_bar_congr l m

  pub order_congr : (l : Limits) → order l b i ≡ order l c i
  order_congr l =
      rw (same.fast i (omega arith), same.anchor i (omega arith), same.slow i (omega arith))

  pub advance_congr : (l : Limits) (m : Machine F) → 0 < i → advance l b i m ≡ advance l c i m
  unfolding advance
  advance_congr l m first =
      let count = λ (o : Bool). record m { violation = if o then 0 else m.violation + 1 } in
      rw (
        same.fast i (omega arith),
        same.anchor i (omega arith),
        same.slow i (omega arith),
        break_stack_congr l (count (order l c i)),
        update_forming_congr m.wave,
        phase_bar_congr l m.phase (count (order l c i)) first,
      )
