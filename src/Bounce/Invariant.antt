-- ===== src/Bounce/Invariant.antt =====
-- The invariant of the bounce counter, and what it makes of every row.
use strategy_engine.Prelude.{
  ℕ, zero, suc, ◌+◌, ◌≤◌, ◌<◌, ◌≡◌, arith, ltb, ◌==◌, Bool, true, false, ◌&&◌, Bool-cases, Option,
  none, some, inl, inr, subst, sym, if◌then◌else◌,
}
use strategy_engine.Bounce.Step.{
  Params, Signals, Counter, start, Row, complete_due, active_trend, idle_trend, begins_bounce,
  open_bounce, row_of, active_bar, idle_bar, bounce_bar, counter_at, row_at,
}

-- A pending window that holds bar `n` and is no longer than the lookback.
abbrev pub Within : ℕ → ℕ → Option ℕ → Type 0
Within n lookback none = ⊥
Within n lookback (some last) = (n ≤ last) × (last + 1 ≤ n + lookback)

-- The counter within and after bar `n`, once the window that is over is counted.
pub record IsCounter (p : Params) (n : ℕ) (c : Counter) : Type 0 where
  pub counted : c.completed_count ≤ p.max_bounces
  pub active : c.pending ≡ true → c.trend_active ≡ true
  pub room : c.pending ≡ true → c.completed_count < p.max_bounces
  pub window : c.pending ≡ true → Within n p.touch_lookback c.pending_end

complete_due-start : (p : Params) → IsCounter p 0 (complete_due 0 start)
unfolding complete_due
complete_due-start p = ground arith

complete_due-IsCounter :
    (p : Params) (n : ℕ) (c : Counter)
    → IsCounter p n c
    → IsCounter p (suc n) (complete_due (suc n) c)
unfolding complete_due
complete_due-IsCounter p n c h = go c.pending_end h.window
  where
    go :
        (e : Option ℕ)
        → (c.pending ≡ true → Within n p.touch_lookback e)
        → IsCounter p (suc n) (complete_due (suc n) (record c { pending_end = e }))
    go none w = ground arith
    go (some last) w = ground arith

active_trend-IsCounter :
    (p : Params) (n : ℕ) (raw_trend : Bool) (c : Counter)
    → c.trend_active ≡ true
    → IsCounter p n c
    → IsCounter p n (active_trend p raw_trend c).0
unfolding active_trend
active_trend-IsCounter p n raw_trend c a h = ground arith

idle_trend-IsCounter :
    (p : Params) (n : ℕ) (raw_trend : Bool) (c : Counter)
    → c.trend_active ≡ false
    → IsCounter p n c
    → IsCounter p n (idle_trend p raw_trend c).0
unfolding idle_trend
idle_trend-IsCounter p n raw_trend c a h = ground arith

open_bounce-IsCounter :
    (p : Params) (n : ℕ) (s : Signals) (c : Counter)
    → 0 < p.touch_lookback
    → IsCounter p n c
    → IsCounter p n (open_bounce p n (begins_bounce p s c) c)
unfolding open_bounce begins_bounce
open_bounce-IsCounter p n s c positive h = ground arith

-- What holds of every row: of a pending bounce, `left` bars remain.
pub record IsRow (p : Params) (r : Row) : Type 0 where
  pub counted : r.completed_bounce_count ≤ p.max_bounces
  pub numbered : r.effective_bounce_number ≤ p.max_bounces
  pub allowed : r.setup_allowed ≡ (r.trend_active && ltb r.completed_bounce_count p.max_bounces)
  pub in_trend : r.pending_bounce ≡ true → r.trend_active ≡ true
  pub in_lookback : r.in_touch_lookback ≡ r.pending_bounce
  pub left_bound : r.touch_lookback_left ≤ p.touch_lookback
  pub ends : r.pending_bounce_end ≡ (r.touch_lookback_left == 1)

row_of-IsRow :
    (p : Params) (n : ℕ) (s : Signals) (started broke begins : Bool) (c : Counter)
    → IsCounter p n c
    → IsRow p (row_of p n s started broke begins c)
unfolding row_of
row_of-IsRow p n s started broke begins c h = go c.pending_end h.window
  where
    go :
        (e : Option ℕ)
        → (c.pending ≡ true → Within n p.touch_lookback e)
        → IsRow p (row_of p n s started broke begins (record c { pending_end = e }))
    go none w = ground arith
    go (some last) w = ground arith

module _ (p : Params) (positive : 0 < p.touch_lookback) where
  active_bar-IsCounter :
      (n : ℕ) (s : Signals) (c : Counter)
      → c.trend_active ≡ true
      → IsCounter p n c
      → IsCounter p n (active_bar p n s c).0 × IsRow p (active_bar p n s c).1
  unfolding active_bar
  active_bar-IsCounter n s c a h =
      let t = active_trend p s.raw_trend c in
      let k =
        open_bounce-IsCounter p n s t.0 positive (active_trend-IsCounter p n s.raw_trend c a h) in
      (k, row_of-IsRow p n s false t.1 (begins_bounce p s t.0) _ k)

  idle_bar-IsCounter :
      (n : ℕ) (s : Signals) (c : Counter)
      → c.trend_active ≡ false
      → IsCounter p n c
      → IsCounter p n (idle_bar p n s c).0 × IsRow p (idle_bar p n s c).1
  unfolding idle_bar
  idle_bar-IsCounter n s c a h =
      let t = idle_trend p s.raw_trend c in
      let k =
        open_bounce-IsCounter p n s t.0 positive (idle_trend-IsCounter p n s.raw_trend c a h) in
      (k, row_of-IsRow p n s t.1 false (begins_bounce p s t.0) _ k)

  abbrev bar_of : ℕ → Signals → Counter → Bool → Counter × Row
  bar_of n s c active = if active then active_bar p n s c else idle_bar p n s c

  bounce_bar-IsCounter :
      (n : ℕ) (s : Signals) (c : Counter)
      → IsCounter p n (complete_due n c)
      → IsCounter p n (bounce_bar p n s c).0 × IsRow p (bounce_bar p n s c).1
  unfolding bounce_bar
  bounce_bar-IsCounter n s c h =
      let d = complete_due n c in
      elim (Bool-cases d.trend_active) [
        | inl e ↦
            subst (λ b. IsCounter p n (bar_of n s d b).0 × IsRow p (bar_of n s d b).1) (sym e)
              (active_bar-IsCounter n s d e h)
        | inr e ↦
            subst (λ b. IsCounter p n (bar_of n s d b).0 × IsRow p (bar_of n s d b).1) (sym e)
              (idle_bar-IsCounter n s d e h)
      ]

  counter_at-IsCounter :
      (s : ℕ → Signals) (n : ℕ) → IsCounter p n (complete_due n (counter_at p s n))
  unfolding counter_at
  counter_at-IsCounter s zero = complete_due-start p
  counter_at-IsCounter s (suc n) =
      complete_due-IsCounter p n _
        (bounce_bar-IsCounter n (s n) (counter_at p s n) (counter_at-IsCounter s n)).0

  -- With a positive touch lookback, on every row of the bounce counter the completed count and the
  -- effective bounce number are at most the maximum, the setup is allowed exactly while the trend
  -- is active and the completed count is below the maximum, a pending bounce lies in the trend and
  -- in its lookback, the bars left are at most the lookback, and the bounce ends exactly on the
  -- bar with one bar left.
  pub row_at-IsRow : (s : ℕ → Signals) (n : ℕ) → IsRow p (row_at p s n)
  unfolding row_at
  row_at-IsRow s n = (bounce_bar-IsCounter n (s n) (counter_at p s n) (counter_at-IsCounter s n)).1
