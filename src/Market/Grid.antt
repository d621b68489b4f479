-- ===== src/Market/Grid.antt =====
-- The frames that are accepted: those of the whole grid of their range.
use Prim.Native.String.{String}
use strategy_engine.Prelude.{
  ℕ, zero, suc, ◌+◌, ◌-◌, ◌*◌, ◌/◌, ◌%◌, ◌≤◌, ◌<◌, ◌≡◌, ◌↔◌, refl, arith, ◌==◌, Bool, true, false,
  not, ◌||◌, List, [], ◌∷◌, ap, subst, sym, ◌∙◌, ap₂,
}
use native.Mathlib.Omega.{div_any}
use strategy_engine.Prelude.Int.{ℤ, pos, negsuc, ◌+ℤ◌, ltb_ℤ, leb_ℤ}
use strategy_engine.Result.{Result, ok, err, Error, ◌>>=◌, ◌>>◌, raise_if, >>=-eq-ok}
use strategy_engine.Market.Timeframe.{timeframe_duration_ms}
use strategy_engine.Market.Frame.{
  TimeRange, eq_ℤ, has_rest, validate_alignment, check_bars, market_frame,
}

-- The open times of `count` bars on the grid.
abbrev pub grid : ℕ → ℕ → ℕ → List ℤ
grid step start zero = []
grid step start (suc count) = pos start ∷ grid step (start + step) count

-- The bars of the range from `from` up to, and without, `to`.
abbrev pub grid_of : ℕ → ℕ → ℕ → List ℤ
grid_of step from to = grid step from ((to - from) / step)

eq_ℤ_iff : (a b : ℤ) → (eq_ℤ a b ≡ true) ↔ (a ≡ b)
eq_ℤ_iff a b = ground arith

accepted :
    {A : Type 0} (test : Bool) (e : Error) (m : Result A) {a : A}
    → (raise_if test e >> m) ≡ ok a
    → (test ≡ false) × (m ≡ ok a)
accepted true e m h = cc
accepted false e m h = (refl, h)

add_pos : (a b : ℕ) → pos a +ℤ pos b ≡ pos (a + b)
unfolding ◌+ℤ◌
add_pos a b = ground arith

-- The bars that pass the check.
check_bars-grid :
    (bars : List ℤ) (step start : ℕ) (last : ℤ)
    → check_bars bars step (pos start) ≡ ok last
    → (count : ℕ) × (bars ≡ grid step start count) × (last ≡ pos (start + count * step))
unfolding check_bars
check_bars-grid [] step start last h =
    (0, refl, let e : start + 0 * step ≡ start = omega arith in rw e cc)
check_bars-grid (t ∷ bars) step start last h =
    let r = accepted _ _ (check_bars bars step (pos start +ℤ pos step)) h in
    let same : t ≡ pos start = (eq_ℤ_iff t (pos start)).0 (ground arith) in
    let next = subst (λ e. check_bars bars step e ≡ ok last) (add_pos start step) r.1 in
    let s = check_bars-grid bars step (start + step) last next in
    let end : start + step + s.0 * step ≡ start + suc s.0 * step = grind arith in
    (suc s.0, ap₂ (λ x xs. x ∷ xs) same s.1, s.2 ∙ ap pos end)

grid-check_bars :
    (count step start : ℕ)
    → check_bars (grid step start count) step (pos start) ≡ ok (pos (start + count * step))
unfolding check_bars
grid-check_bars zero step start = ap (λ n. ok (pos n)) (omega arith)
grid-check_bars (suc count) step start =
    let same : (start == start) ≡ true = ground arith in
    let end : start + step + count * step ≡ start + suc count * step = grind arith in
    rw (same, add_pos start step)
      (grid-check_bars count step (start + step) ∙ ap (λ n. ok (pos n)) end)

count_steps :
    (from count step : ℕ) → from < from + count * step → (from + count * step - from) / step ≡ count
count_steps from count step h = grind arith

whole_steps :
    (from to step : ℕ)
    → from % step ≡ 0
    → to % step ≡ 0
    → from < to
    → from + (to - from) / step * step ≡ to
whole_steps from to step h k l =
    let low : from ≡ from / step * step = omega (arith, div_any from step) in
    let high : to ≡ to / step * step = omega (arith, div_any to step) in
    let less : from / step ≤ to / step = grind arith in
    let apart : from + (to / step - from / step) * step ≡ to = grind arith in
    let count = count_steps from (to / step - from / step) step (omega arith) in
    let same : (to - from) / step ≡ to / step - from / step =
      subst (λ x. (x - from) / step ≡ to / step - from / step) apart count in
    rw same apart

-- The ranges that pass their check.
aligned :
    (from_ms to_ms : ℤ) (r : Result ℕ) (e e' : Error)
    → (raise_if (ltb_ℤ from_ms (pos 0) || leb_ℤ to_ms from_ms) e
        >> (r >>= λ step_ms. raise_if (has_rest from_ms step_ms || has_rest to_ms step_ms) e'))
      ≡ ok tt
    → (from to step : ℕ) × (from_ms ≡ pos from)
      × (to_ms ≡ pos to)
      × (r ≡ ok step)
      × (from < to)
      × (from % step ≡ 0)
      × (to % step ≡ 0)
aligned (pos from) (pos to) (ok step) e e' h =
    let one = accepted (ltb_ℤ (pos from) (pos 0) || leb_ℤ (pos to) (pos from)) e _ h in
    (from, to, step, refl, refl, refl, ground arith, ground arith, ground arith)
aligned (pos from) (pos to) (err x) e e' h =
    absurd (let one = accepted (ltb_ℤ (pos from) (pos 0) || leb_ℤ (pos to) (pos from)) e _ h in cc)
aligned (pos from) (negsuc to) r e e' h = absurd (ground arith)
aligned (negsuc from) to_ms r e e' h = absurd (ground arith)

covered :
    (bars : List ℤ) (step from to : ℕ) (e : Error)
    → from < to
    → from % step ≡ 0
    → to % step ≡ 0
    → ((check_bars bars step (pos from) >>= λ expected. raise_if (not (eq_ℤ expected (pos to))) e)
        ≡ ok tt)
      ↔ (bars ≡ grid_of step from to)
covered bars step from to e l m n = (
  (λ h.
      let r =
        >>=-eq-ok (check_bars bars step (pos from))
          (λ expected. raise_if (not (eq_ℤ expected (pos to))) e) h in
      let s = check_bars-grid bars step from r.0 r.1 in
      let end : r.0 ≡ pos to = (eq_ℤ_iff r.0 (pos to)).0 (ground arith) in
      let total : from + s.0 * step ≡ to = ground (arith, s.2, end) in
      let count : (to - from) / step ≡ s.0 =
        subst (λ x. (x - from) / step ≡ s.0) total (count_steps from s.0 step (omega arith)) in
      s.1 ∙ ap (grid step from) (sym count)),
  λ h.
      let same = grid-check_bars ((to - from) / step) step from in
      let end = whole_steps from to step m n l in
      let test : (to == to) ≡ true = ground arith in rw (h, same, end, test),
)

-- For a range that passes its alignment check, whose bounds are then instants a whole number of
-- steps apart, a market frame is accepted exactly if its bars are those of the range's grid, from
-- the start on and without the end.
pub market_frame_iff :
    (timeframe : String) (range : TimeRange) (bars : List ℤ)
    → validate_alignment range timeframe ≡ ok tt
    → (from to step : ℕ) × (range.from_ms ≡ pos from)
      × (range.to_ms ≡ pos to)
      × (timeframe_duration_ms timeframe ≡ ok step)
      × (from + (to - from) / step * step ≡ to)
      × ((market_frame timeframe range bars ≡ ok tt) ↔ (bars ≡ grid_of step from to))
unfolding validate_alignment market_frame
market_frame_iff timeframe range bars h =
    let r = aligned range.from_ms range.to_ms (timeframe_duration_ms timeframe) _ _ h in
    (
      r.0,
      r.1,
      r.2,
      r.3,
      r.4,
      r.5,
      whole_steps r.0 r.1 r.2 r.7 r.8 r.6,
      rw (r.3, r.4, r.5) (covered bars r.2 r.0 r.1 _ r.6 r.7 r.8),
    )
