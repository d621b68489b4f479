-- ===== src/Managed/Whole.antt =====
-- Whole replays of a managed exit: what a calculation that returns has done, and the prices of the
-- projection that starts after the entry bar.
use strategy_engine.Prelude.{
  ℕ, zero, suc, ◌+◌, ◌-◌, ◌≤◌, ◌<◌, ◌≡◌, refl, sym, arith, leb, ltb, ◌||◌, Option, none, some, [],
  subst,
}
use strategy_engine.Float.{Float, IsOrdered}
use strategy_engine.Result.{Result, ok, err, Error, ◌>>=◌, ◌>>◌, raise_if, raise_if->>, >>=-eq-ok}
use strategy_engine.Managed.Data.{Side, Config, Frame, Replay, initial}
use strategy_engine.Managed.Phases.{fold_composite_rules}
use strategy_engine.Managed.Replay.{
  decide, replay_bar, replay_from, opening, last_index, managed_replay_core,
}
use strategy_engine.Managed.Advance.{Tightens, Advances, Advances-refl}
use strategy_engine.Managed.Tighten.{Advances-trans, Decided, replay_bar-Decided}
use strategy_engine.Managed.Course.{IsCourse, Tracks, Tracks-advanced, Tracks-decided}

module _ {F : Type 0} ⦃f : Float F⦄ where
  abbrev forget : Replay F → Replay F
  forget r = record r { bars = [] }

  -- The trade has advanced, whatever was decided meanwhile.
  abbrev Moves : Replay F → Replay F → Type 0
  Moves r s = Advances (forget r) (forget s)

  Moves-advanced : (r s : Replay F) → Advances r s → Moves r s
  Moves-advanced r s h = record {
    same_bars = refl;
    same_side = h.same_side;
    same_entry = h.same_entry;
    same_price = h.same_price;
    same_risk = h.same_risk;
    phase_up = h.phase_up;
    at_peak = h.at_peak;
    stop_tightens = h.stop_tightens;
    unmoved = h.unmoved;
  }

  forget-decide : (index : ℕ) (s : Replay F) → forget (decide index s) ≡ forget s
  unfolding decide
  forget-decide index s = refl

  -- A calculation that returns: its decisions, and the trade since `r`.
  abbrev Ran : ℕ → ℕ → Replay F → Result (Replay F) → Type 0
  Ran first count r (ok s) = Tracks first count s × Moves r s
  Ran first count r (err e) = Unit {0}

  -- A calculation that returns, by its input: its decisions, and the trade at its end.
  abbrev pub IsRun :
      Frame F → Side → (entry : ℕ) → Option ℕ → (offset : ℕ) → Option F → Replay F → Type 0
  IsRun frame side entry target offset stop r =
      IsCourse side (entry + offset) (last_index frame target + 1 - (entry + offset)) r
      × (entry ≤ last_index frame target)
      × (last_index frame target < frame.size)
      × (r.state.max_phase_reached ≡ r.state.phase)
      × Tightens side stop r.state.active_stop_price
      × (r.state.active_stop_rule_id ≡ none → r.state.active_stop_price ≡ stop)

  module _ ⦃laws : IsOrdered F⦄ where
    Ran-later :
        (first count : ℕ) (r s : Replay F) (m : Result (Replay F))
        → Moves r s
        → Ran first count s m
        → Ran first count r m
    Ran-later first count r s (ok t) h k =
        (k.0, Advances-trans (forget r) (forget s) (forget t) h k.1)
    Ran-later first count r s (err e) h k = tt

    bar-Ran :
        (first count : ℕ) (r : Replay F) (m : Result (Replay F))
        → Tracks first count r
        → Decided (first + count) r m
        → Ran first (suc count) r m
    bar-Ran first count r (ok r') t d =
        let s = d.0 in
        let e = sym d.2 in
        subst (λ x. Ran first (suc count) r (ok x)) e
          (
            Tracks-decided first count s (Tracks-advanced first count r s t d.1),
            subst (Advances (forget r)) (sym (forget-decide (first + count) s))
                (Moves-advanced r s d.1),
          )
    bar-Ran first count r (err e) t d = tt

    Ran-then :
        (first done count : ℕ) (r : Replay F) (m : Result (Replay F))
        (k : Replay F → Result (Replay F))
        → Ran first done r m
        → ((s : Replay F) → Tracks first done s → Ran first count s (k s))
        → Ran first count r (m >>= k)
    Ran-then first done count r (ok s) k h g = Ran-later first count r s (k s) h.1 (g s h.0)
    Ran-then first done count r (err e) k h g = tt

    replay_from-Ran :
        (config : Config F) (frame : Frame F) (first done count : ℕ) (r : Replay F)
        → Tracks first done r
        → Ran first (done + count) r (replay_from config frame first (first + done) count r)
    unfolding replay_from
    replay_from-Ran config frame first done zero r t =
        subst (λ n. Ran first n r (ok r)) (omega arith) (t, Advances-refl (forget r))
    replay_from-Ran config frame first done (suc count) r t =
        Ran-then first (suc done) (done + suc count) r
          (replay_bar config frame first (first + done) r) _
          (bar-Ran first done r _ t (replay_bar-Decided config frame first (first + done) r))
          (λ s ts.
            subst (λ n. Ran first n s (replay_from config frame first (suc (first + done)) count s))
              (omega arith)
              (subst
                (λ i. Ran first (suc done + count) s (replay_from config frame first i count s))
                (omega arith) (replay_from-Ran config frame first (suc done) count s ts)))

    all_bars-Ran :
        (config : Config F) (frame : Frame F) (first count : ℕ) (r : Replay F)
        → Tracks first 0 r
        → Ran first count r (replay_from config frame first first count r)
    all_bars-Ran config frame first count r t =
        subst (λ i. Ran first count r (replay_from config frame first i count r)) (omega arith)
          (subst (λ n. Ran first n r (replay_from config frame first (first + 0) count r))
            (omega arith) (replay_from-Ran config frame first 0 count r t))

    opening-Tracks :
        (first : ℕ) (side : Side) (entry : ℕ) (price : F) (offset : ℕ) (stop : Option F)
        → Tracks first 0 (opening side entry price offset stop)
    unfolding opening
    opening-Tracks first side entry price offset stop = record {
      course = record { in_order = refl; pairs = tt };
      before = tt;
    }

    -- For comparisons with the laws of `IsOrdered`: if the replay on a found entry bar returns,
    -- its decisions are one for each bar from the start of the evaluation to the target bar, in
    -- order, of any two the later one has no lower phase and no looser stop, the target lies in
    -- the frame, the phase at the end is the highest one reached, and a stop that no rule has set
    -- is the initial stop.
    pub managed_replay_core-IsRun :
        (config : Config F) (frame : Frame F) (side : Side) (entry : ℕ) (target : Option ℕ)
        (price : F) (offset : ℕ) (stop : Option F) {r : Replay F}
        → managed_replay_core config frame side (some entry) target price offset stop ≡ ok r
        → IsRun frame side entry target offset stop r
    unfolding managed_replay_core opening initial
    managed_replay_core-IsRun config frame side entry target price offset stop {r = r} h =
        let first = entry + offset in
        let start = opening side entry price offset stop in
        let last = last_index frame target in
        let n = last + 1 - first in
        let loop = replay_from config frame first first n start in
        let body = fold_composite_rules config.phase_rules >> loop in
        let outside = Error.invalid_request "target_index is outside the managed replay frame" in
        let p =
          raise_if->> (f.le price f.nought) (Error.invalid_request "entry_price must be positive")
            (raise_if (ltb last entry || leb frame.size last) outside >> body) h in
        let q = raise_if->> (ltb last entry || leb frame.size last) outside body p.1 in
        let folded = >>=-eq-ok (fold_composite_rules config.phase_rules) (λ _. loop) q.1 in
        let t = subst (Ran first n start) folded.2 (
          all_bars-Ran config frame first n start
            (opening-Tracks first side entry price offset stop)) in
        outcome n t.0 t.1 (ground (arith, q.0))
      where
        outcome :
            (n : ℕ)
            → Tracks (entry + offset) n r
            → Moves (opening side entry price offset stop) r
            → (entry ≤ last_index frame target) × (last_index frame target < frame.size)
            → (IsCourse side (entry + offset) n r
                × (entry ≤ last_index frame target)
                × (last_index frame target < frame.size)
                × (r.state.max_phase_reached ≡ r.state.phase)
                × Tightens side stop r.state.active_stop_price
                × (r.state.active_stop_rule_id ≡ none → r.state.active_stop_price ≡ stop))
        outcome n t m inside = (
          subst (λ s. IsCourse s (entry + offset) n r) m.same_side t.course,
          inside.0,
          inside.1,
          m.at_peak refl,
          m.stop_tightens,
          λ none_set. (m.unmoved none_set).1,
        )
