-- ===== src/Bounce/Window.antt =====
-- A bounce of the counter from its start: its window, and the bar after it.
use strategy_engine.Prelude.{ℕ, zero, suc, ◌+◌, ◌-◌, ◌≤◌, ◌<◌, ◌≡◌, arith, true, some, subst}
use strategy_engine.Bounce.Step.{
  Params, Signals, Counter, Row, complete_due, active_trend, begins_bounce, open_bounce, row_of,
  active_bar, idle_bar, bounce_bar, counter_at, row_at,
}

-- A pending bounce whose window ends on bar `last`.
record IsOpen (last count : ℕ) (c : Counter) : Type 0 where
  pending : c.pending ≡ true
  in_trend : c.trend_active ≡ true
  ends : c.pending_end ≡ some last
  counted : c.completed_count ≡ count

-- The row of bar `n` of such a bounce.
pub record IsOpenRow (last count n : ℕ) (r : Row) : Type 0 where
  pub pending : r.pending_bounce ≡ true
  pub left : r.touch_lookback_left + n ≡ last + 1
  pub counted : r.completed_bounce_count ≡ count

module _ (p : Params) (s : Signals) (n : ℕ) where
  -- A bar that reports the start of a bounce opens its window.
  bounce_bar-begins :
      (c : Counter)
      → 0 < p.touch_lookback
      → (bounce_bar p n s c).1.pending_bounce_start ≡ true
      → IsOpen
          (n + p.touch_lookback - 1)
          (bounce_bar p n s c).1.completed_bounce_count
          (bounce_bar p n s c).0
        × IsOpenRow
            (n + p.touch_lookback - 1)
            (bounce_bar p n s c).1.completed_bounce_count
            n
            (bounce_bar p n s c).1
  unfolding bounce_bar active_bar idle_bar row_of open_bounce begins_bounce
  bounce_bar-begins c positive h = ground arith

  complete_due-IsOpen :
      (c : Counter) (last count : ℕ)
      → n ≤ last
      → IsOpen last count c
      → IsOpen last count (complete_due n c)
  unfolding complete_due
  complete_due-IsOpen c last count h o = ground arith

  -- A bar within the window keeps it, as long as the trend goes on.
  active_bar-IsOpen :
      (c : Counter) (last count : ℕ)
      → n ≤ last
      → IsOpen last count c
      → (active_bar p n s c).1.trend_active ≡ true
      → IsOpen last count (active_bar p n s c).0 × IsOpenRow last count n (active_bar p n s c).1
  unfolding active_bar row_of open_bounce begins_bounce active_trend
  active_bar-IsOpen c last count h o t = ground arith

  bounce_bar-IsOpen :
      (c : Counter) (last count : ℕ)
      → n ≤ last
      → IsOpen last count c
      → (bounce_bar p n s c).1.trend_active ≡ true
      → IsOpen last count (bounce_bar p n s c).0 × IsOpenRow last count n (bounce_bar p n s c).1
  unfolding bounce_bar
  bounce_bar-IsOpen c last count h o t =
      let d = complete_due n c in
      let k = complete_due-IsOpen c last count h o in
      ground (arith, k.in_trend, active_bar-IsOpen d last count h k)

  -- The bar after the window counts the bounce, if the trend still goes on.
  bounce_bar-counts :
      (c : Counter) (last count : ℕ)
      → n ≡ last + 1
      → IsOpen last count c
      → (bounce_bar p n s c).1.trend_active ≡ true
      → (bounce_bar p n s c).1.completed_bounce_count ≡ count + 1
  unfolding bounce_bar complete_due active_bar row_of open_bounce begins_bounce active_trend
  bounce_bar-counts c last count h o t = ground arith

module _ (p : Params) (s : ℕ → Signals) (n : ℕ) (positive : 0 < p.touch_lookback) where
  abbrev last : ℕ
  last = n + p.touch_lookback - 1

  abbrev count : ℕ
  count = (row_at p s n).completed_bounce_count

  -- After bar `m` the bounce is still open, and the row of bar `m` is one of it.
  abbrev OpenAt : ℕ → Type 0
  OpenAt m =
      IsOpen last count (bounce_bar p m (s m) (counter_at p s m)).0
      × IsOpenRow last count m (row_at p s m)

  OpenAt-next :
      (m : ℕ) → suc m ≤ last → (row_at p s (suc m)).trend_active ≡ true → OpenAt m → OpenAt (suc m)
  unfolding counter_at row_at
  OpenAt-next m h t o =
      bounce_bar-IsOpen p (s (suc m)) (suc m) (counter_at p s (suc m)) last count h o.0 t

  OpenAt-from :
      (j : ℕ)
      → j < p.touch_lookback
      → (row_at p s n).pending_bounce_start ≡ true
      → ((k : ℕ) → n < k → k ≤ n + j → (row_at p s k).trend_active ≡ true)
      → OpenAt (n + j)
  unfolding row_at
  OpenAt-from zero h b t =
      subst OpenAt (omega arith) (bounce_bar-begins p (s n) n (counter_at p s n) positive b)
  OpenAt-from (suc j) h b t = subst OpenAt (omega arith) (
      OpenAt-next (n + j) (omega arith)
        (subst (λ m. (row_at p s m).trend_active ≡ true) (omega arith)
          (t (n + suc j) (omega arith) (omega arith)))
        (OpenAt-from j (omega arith) b (λ k l u. t k l (omega arith))))

  OpenAt-counts :
      (m : ℕ)
      → suc m ≡ last + 1
      → (row_at p s (suc m)).trend_active ≡ true
      → OpenAt m
      → (row_at p s (suc m)).completed_bounce_count ≡ count + 1
  unfolding counter_at row_at
  OpenAt-counts m e t o =
      bounce_bar-counts p (s (suc m)) (suc m) (counter_at p s (suc m)) last count e o.0 t

  -- If the touch lookback is positive, bar n reports the start of a bounce and the trend is active
  -- on each bar after n up to bar n + lookback, then the rows of the lookback bars from n on are
  -- pending with one bar less left on each, down to 1, and one completed count throughout, and the
  -- row of bar n + lookback counts one bounce more.
  pub row_at-bounce :
      (row_at p s n).pending_bounce_start ≡ true
      → ((k : ℕ) → n < k → k ≤ n + p.touch_lookback → (row_at p s k).trend_active ≡ true)
      → ((j : ℕ) → j < p.touch_lookback → IsOpenRow last count (n + j) (row_at p s (n + j)))
        × ((row_at p s (n + p.touch_lookback)).completed_bounce_count ≡ count + 1)
  row_at-bounce b t = (
    λ j h. (OpenAt-from j h b (λ k l u. t k l (omega arith))).1,
    counted (p.touch_lookback - 1) (omega arith),
  )
    where
      counted :
          (j : ℕ)
          → suc j ≡ p.touch_lookback
          → (row_at p s (n + p.touch_lookback)).completed_bounce_count ≡ count + 1
      counted j e =
          let eq : suc (n + j) ≡ n + p.touch_lookback = omega arith in
          subst (λ m. (row_at p s m).completed_bounce_count ≡ count + 1) eq
            (OpenAt-counts (n + j) (omega arith) (t (suc (n + j)) (omega arith) (omega arith))
              (OpenAt-from j (omega arith) b (λ k l u. t k l (omega arith))))
