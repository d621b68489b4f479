-- ===== src/Episode/Operand.antt =====
-- Which row an operand reads: the gather of `episode_operand_values`
-- (src/strategy_engine/strategies/ema_pullback/stack_episode.py) for an entity with an integer index.
use strategy_engine.Prelude.{
  ℕ, zero, suc, ◌+◌, ◌-◌, ◌≤◌, ◌<◌, ◌≡◌, refl, arith, Bool, true, false, sym, ap, ap₂, ◌∙◌, subst,
  List, [], ◌∷◌, ◌++◌, ◌⊎◌, inl, inr, map, Option, none, some, get_elem?, get_elem?-append,
  get_elem?-last, length, if◌then◌else◌, leb, Bool-cases, ltb,
}
use native.Mathlib.Decide.{dec_lt}
use mathlib.Core.Option.{some-injective}
use mathlib.Core.List.{append-nil, append_assoc}
use strategy_engine.Prelude.Int.{ℤ, pos, negsuc}
use strategy_engine.Float.{Float}
use strategy_engine.Numpy.{Numpy, IsNumpy}
use strategy_engine.Episode.Data.{Phase, Limits, Bars, Machine, BarState, Snapshot}
use strategy_engine.Episode.Step.{
  run, project_long, on_bar, active_bar, idle_bar, advance, break_stack, phase_bar, start_episode,
  order,
}
use strategy_engine.Episode.Touches.{closed, settle, begin, leave, inactive_bar}
use strategy_engine.Episode.Side.{first_row}
use strategy_engine.Episode.Frame.{key, table, Keeps, Opens, phase_bar_frame, break_stack-Keeps}
use strategy_engine.Episode.Causality.{run_stays, length-run}
use strategy_engine.Episode.Sound.{Sound, Keeps-table, Opens-table}
use strategy_engine.Episode.Pass.{run-Sound}
use strategy_engine.Episode.Lookup.{Table-Last, first_row-append_some}

-- `number = m + index if index <= 0 else index`, kept where `1 <= number <= m`.
unfoldable pub entity_number : ℤ → ℕ → Option ℕ
entity_number (pos zero) m = if leb 1 m then some m else none
entity_number (pos (suc k)) m = if leb (suc k) m then some (suc k) else none
entity_number (negsuc k) m = if leb (suc (suc k)) m then some (m - suc k) else none

-- `rows = first + number - 1`, where the number is valid.
abbrev row_at : Option ℕ → Option ℕ → Option ℕ
row_at (some number) (some first) = some (first + number - 1)
row_at _ _ = none

unfoldable pub entity_row : ℤ → ℕ → ℕ → List (ℕ × ℕ) → Option ℕ
entity_row index episode m ks = row_at (entity_number index m) (first_row episode ks)

entity_number_bounds : (index : ℤ) (m k : ℕ) → entity_number index m ≡ some k → (0 < k) × (k ≤ m)
unfolding entity_number
entity_number_bounds (pos zero) m k h = ground arith
entity_number_bounds (pos (suc j)) m k h = ground arith
entity_number_bounds (negsuc j) m k h = ground arith

-- The keys of a later table begin with those of an earlier one.
abbrev Grows : List (ℕ × ℕ) → List (ℕ × ℕ) → Type 0
Grows ks ks' = (more : List (ℕ × ℕ)) × (ks' ≡ ks ++ more)

Grows-trans : (ks ls ms : List (ℕ × ℕ)) → Grows ks ls → Grows ls ms → Grows ks ms
Grows-trans ks ls ms (x, p) (y, q) = (x ++ y, q ∙ ap (λ l. l ++ y) p ∙ append_assoc ks x y)

Grows-refl : (ks ls : List (ℕ × ℕ)) → ls ≡ ks → Grows ks ls
Grows-refl ks ls e = ([], e ∙ sym (append-nil ks))

module _ {F : Type 0} where
  frame-Grows : (m m' : Machine F) → Keeps m m' ⊎ Opens m m' → Grows (table m) (table m')
  frame-Grows m m' (inl k) = Grows-refl (table m) (table m') (Keeps-table m m' k)
  frame-Grows m m' (inr k) = ((m.episode_id, m.touch_number + 1) ∷ [], Opens-table m m' k)

  leave-table : (p : Phase) (m : Machine F) → table (leave p m) ≡ table m
  unfolding leave
  leave-table Phase.broken m = ap (map key) (append-nil (m.touches ++ closed m.zone))
  leave-table Phase.away m = refl
  leave-table Phase.zone m = refl
  leave-table Phase.false_break m = refl

  leave_fields :
      (p : Phase) (m : Machine F)
      → ((leave p m).episode_id ≡ m.episode_id) × ((leave p m).touch_number ≡ m.touch_number)
  unfolding leave
  leave_fields Phase.broken m = (refl, refl)
  leave_fields Phase.away m = (refl, refl)
  leave_fields Phase.zone m = (refl, refl)
  leave_fields Phase.false_break m = (refl, refl)

module _ {F : Type 0} ⦃f : Float F⦄ (l : Limits) (b : Bars F) (i : ℕ) where
  advance-Grows : (m : Machine F) → Grows (table m) (table (advance l b i m).0)
  unfolding advance
  advance-Grows m = elim (Bool-cases (ltb l.break_bars count)) [
    | inl over ↦ rw over (frame-Grows x (break_stack l b i x) (inl (break_stack-Keeps l b i x)))
    | inr calm ↦ elim (Bool-cases (f.is_finite (b.anchor i))) [
      | inl finite ↦
          rw (calm, finite)
            (frame-Grows x (phase_bar l b i m.phase x).0 (phase_bar_frame l b i m.phase x))
      | inr missing ↦ rw (calm, missing) (Grows-refl (table m) (table m) refl)
    ]
  ]
    where
      count : ℕ
      count = if order l b i then 0 else m.violation + 1

      x : Machine F
      x = record m { violation = count }

start_episode-table :
    {F : Type 0} ⦃f : Float F⦄ (np : Numpy F) (l : Limits) (b : Bars F) (i : ℕ) (m : Machine F)
    → m.zone ≡ none
    → table (start_episode l b np i m) ≡ table m
unfolding start_episode
start_episode-table np l b i m e = ap (λ z. map key (m.touches ++ closed z)) (sym e)

module _ {F : Type 0} ⦃f : Float F⦄ (np : Numpy F) (laws : IsNumpy np) (l : Limits)
    (b : Bars F) where
  on_bar-Grows :
      (i : ℕ) (m : Machine F) → Sound l i m → Grows (table m) (table (on_bar l b np i m).0)
  unfolding on_bar active_bar idle_bar settle begin
  on_bar-Grows i m s = go m.active s.idle
    where
      m' : Machine F
      m' = (advance l b i m).0

      idle :
          (o : Bool)
          → m.zone ≡ none
          → Grows
              (table m)
              (table (if o then begin i (start_episode l b np i m) else (m, inactive_bar)).0)
      idle true e =
          Grows-refl (table m) (table (start_episode l b np i m)) (start_episode-table np l b i m e)
      idle false e = Grows-refl (table m) (table m) refl

      go :
          (a : Bool)
          → (a ≡ false → m.zone ≡ none)
          → Grows (table m) (table (if a then active_bar l b np i m else idle_bar l b np i m).0)
      go true e =
          Grows-trans (table m) (table m') (table (leave m'.phase m')) (advance-Grows l b i m)
            (Grows-refl (table m') (table (leave m'.phase m')) (leave-table m'.phase m'))
      go false e = idle (order l b i) (e refl)

  -- The table of the pass over `t` bars begins every longer pass's.
  run-Grows : (t n : ℕ) → t ≤ n → Grows (table (run l b np t).0) (table (run l b np n).0)
  unfolding run
  run-Grows t zero h = let e : t ≡ zero = omega arith in Grows-refl _ _ (rw e)
  run-Grows t (suc n) h = elim (dec_lt n t) [
    | yes all ↦ let e : t ≡ suc n = omega arith in Grows-refl _ _ (rw e)
    | no more ↦
        Grows-trans _ _ _ (run-Grows t n (omega arith))
          (on_bar-Grows n (run l b np n).0 (run-Sound np laws l b n))
  ]

  -- A live bar publishes the episode and the touch number of the machine that it leaves.
  on_bar-live :
      (i : ℕ) (m : Machine F) (s : Snapshot F)
      → (on_bar l b np i m).1.live ≡ some s
      → (s.episode_id ≡ (on_bar l b np i m).0.episode_id)
        × (s.touch_number ≡ (on_bar l b np i m).0.touch_number)
  unfolding on_bar active_bar idle_bar settle begin
  on_bar-live i m s h = let m' = (advance l b i m).0 in ground (arith, leave_fields m'.phase m')

  module _ (size t : ℕ) (inside : t < size) (row : BarState F) (s : Snapshot F) where
    -- The row that the pass publishes on bar `t` is the one of its step there.
    published :
        get_elem? (project_long l b np size).0 t ≡ some row
        → row ≡ (on_bar l b np t (run l b np t).0).1
    unfolding project_long run
    published h = some-injective _ _ (
        sym h
        ∙ run_stays np laws b l size t inside
        ∙ subst
            (λ k. get_elem? (run l b np (suc t)).1 k ≡ some (on_bar l b np t (run l b np t).0).1)
            (length-run np laws b l t) (get_elem?-last (run l b np t).1 _))

    -- On a live bar of the pass, an entity operand whose index selects touch k of the episode
    -- reads a row of the final touch table, and that row is touch k of the bar's own episode.
    pub operand_row :
        (index : ℤ) (k : ℕ)
        → get_elem? (project_long l b np size).0 t ≡ some row
        → row.live ≡ some s
        → entity_number index s.touch_number ≡ some k
        → (r : ℕ) × (entity_row index s.episode_id s.touch_number
              (map key (project_long l b np size).1)
            ≡ some r)
          × (get_elem? (map key (project_long l b np size).1) r ≡ some (s.episode_id, k))
    unfolding project_long entity_row run
    operand_row index k h live number =
        let before = (run l b np (suc t)).0 in
        let (id, n) =
          on_bar-live t (run l b np t).0 s (subst (λ r. r.live ≡ some s) (published h) live) in
        let (pos_k, le_k) = entity_number_bounds index s.touch_number k number in
        let last = Table-Last (run-Sound np laws l b (suc t)).rows.tabled in
        let (more, grown) = run-Grows (suc t) size inside in
        let start = length (table before) - before.touch_number in
        let first : first_row s.episode_id (table (run l b np size).0) ≡ some start =
          rw (grown, id)
            (first_row-append_some 0 before.episode_id start (table before) more
              (last.found (omega (arith, n)))) in
        let inside_table : start + k - 1 < length (table before) = omega (arith, n, last.fits) in
        (
          start + k - 1,
          ap₂ row_at number first,
          rw (grown, id)
              (get_elem?-append (table before) more (start + k - 1) inside_table
                ∙ last.rows k pos_k (omega (arith, n))),
        )
