-- ===== src/Vote/Tests.antt =====
-- A vote of two voters, on whole ticks.
use strategy_engine.Prelude.{
  ℕ, ◌<◌, ◌≡◌, ◌↔◌, refl, leb, ltb, Bool, true, false, Option, none, some, List, [], ◌∷◌, map,
  if◌then◌else◌, arith,
}
use strategy_engine.Float.Grid.{Grid, grid_float, tick}
use strategy_engine.Vote.Score.{
  VoteStep, at_least, operand, count, Voter, WeightedVoteSpec, veto, score, count_true,
  vote_input_crossings, input_weight, input_veto, voter_weight, voter_veto, total, any_veto, int64,
  by_score, first_veto, blocked_by, weighted_vote,
}
use strategy_engine.Vote.Meaning.{Strengths, sum, vetoed_by, weighted_vote_iff}

abbrev step : {L : Type 0} → L → Option ℕ → VoteStep L
step level weight = record { level = level; weight = weight }

-- The speed grows by a tick a bar, and there is no value at bar 0.
abbrev speed : ℕ → Grid
speed i = if ltb i 1 then none else tick i

abbrev late : ℕ → Bool
late i = leb 3 i

abbrev speed_voter : Voter Grid
speed_voter = record {
  voter_id = "speed";
  inputs =
      operand at_least speed
        (step (tick 1) (some 2) ∷ step (tick 3) (some 5) ∷ step (tick 6) none ∷ [])
      ∷ [];
}

abbrev count_voter : Voter Grid
count_voter = record {
  voter_id = "count";
  inputs = count (late ∷ (λ i. leb 5 i) ∷ []) (step 1 (some 1) ∷ step 2 (some 4) ∷ []) ∷ [];
}

abbrev spec : WeightedVoteSpec Grid
spec = record { threshold = 7; voters = speed_voter ∷ count_voter ∷ [] }

votes : map (weighted_vote spec) (0 ∷ 2 ∷ 4 ∷ 5 ∷ 6 ∷ []) ≡ true ∷ true ∷ true ∷ false ∷ false ∷ []
unfolding weighted_vote any_veto voter_veto vote_input_crossings input_veto by_score int64 total
    voter_weight input_weight count_true
votes = refl

reasons : map (blocked_by spec) (4 ∷ 5 ∷ 6 ∷ []) ≡ none ∷ some score ∷ some (veto "speed") ∷ []
unfolding blocked_by first_veto any_veto voter_veto vote_input_crossings input_veto by_score int64
    total voter_weight input_weight count_true
reasons = refl

small : total (WeightedVoteSpec.voters spec) 5 < 9223372036854775808
unfolding total voter_weight vote_input_crossings input_weight count_true
small = omega arith

weighted_vote_iff_example :
    (ws : List ℕ) × Strengths 5 (WeightedVoteSpec.voters spec) ws
    × ((weighted_vote spec 5 ≡ true)
        ↔ ((vetoed_by 5 (WeightedVoteSpec.voters spec) ≡ false) × (sum ws < 7)))
    × ((blocked_by spec 5 ≡ none) ↔ (weighted_vote spec 5 ≡ true))
weighted_vote_iff_example = weighted_vote_iff 5 spec small
