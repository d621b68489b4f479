-- ===== src/Vote/Score.antt =====
-- `_vote_input_crossings` and `_weighted_vote_compute` of
-- src/strategy_engine/strategies/ema_pullback/setups.py, for inputs without an exponent or a linear
-- ladder, whose arithmetic is on integers; the data is that of weighted_vote_spec.py beside it. An
-- operand input has the values of its operand, and a count input the masks of its predicates.
use Prim.Native.String.{String}
use strategy_engine.Prelude.{
  ℕ, ◌+◌, ◌-◌, ◌%◌, ltb, leb, Bool, false, not, ◌&&◌, ◌||◌, Option, none, some, List, [], ◌∷◌, any,
  map, if◌then◌else◌,
}
use strategy_engine.Prelude.Int.{ℤ, pos, negsuc, leb_ℤ}
use strategy_engine.Float.{Float}

-- The weight is in units of 10**-9; a veto step has none.
pub record VoteStep (L : Type 0) : Type 0 where
  pub level : L
  pub weight : Option ℕ

pub data Direction : Type 0 where
  at_most at_least : Direction

pub data VoteInput (F : Type 0) : Type 0 where
  operand : Direction → (ℕ → F) → List (VoteStep F) → VoteInput F
  count : List (ℕ → Bool) → List (VoteStep ℕ) → VoteInput F

pub record Voter (F : Type 0) : Type 0 where
  pub voter_id : String
  pub inputs : List (VoteInput F)

pub record WeightedVoteSpec (F : Type 0) : Type 0 where
  pub threshold : ℕ
  pub voters : List (Voter F)

-- A step on a bar: its weight and whether it is crossed.
abbrev pub Crossing : Type 0
Crossing = Option ℕ × Bool

unfoldable pub count_true : List (ℕ → Bool) → ℕ → ℕ
count_true [] i = 0
count_true (m ∷ ms) i = (if m i then 1 else 0) + count_true ms i

module _ {F : Type 0} ⦃f : Float F⦄ where
  abbrev pub crosses : Direction → F → F → Bool
  crosses at_most a level = f.is_finite a && f.le a level
  crosses at_least a level = f.is_finite a && f.le level a

  unfoldable pub vote_input_crossings : VoteInput F → ℕ → List Crossing
  vote_input_crossings (operand direction values steps) i =
      map (λ s. (VoteStep.weight s, crosses direction (values i) (VoteStep.level s))) steps
  vote_input_crossings (count masks steps) i =
      map (λ s. (VoteStep.weight s, leb (VoteStep.level s) (count_true masks i))) steps

-- `np.maximum`
abbrev pub larger : ℕ → ℕ → ℕ
larger a b = if ltb a b then b else a

-- The loop over the steps of an input, from the weight and the veto so far.
abbrev pub step_weight : Crossing → ℕ → ℕ
step_weight (none, crossed) weight = weight
step_weight (some w, crossed) weight = if crossed then larger weight w else weight

abbrev pub step_veto : Crossing → Bool → Bool
step_veto (none, crossed) veto = veto || crossed
step_veto (some w, crossed) veto = veto

unfoldable pub input_weight : List Crossing → ℕ → ℕ
input_weight [] weight = weight
input_weight (s ∷ ss) weight = input_weight ss (step_weight s weight)

unfoldable pub input_veto : List Crossing → Bool → Bool
input_veto [] veto = veto
input_veto (s ∷ ss) veto = input_veto ss (step_veto s veto)

module _ {F : Type 0} ⦃f : Float F⦄ where
  -- The loop over the inputs of a voter.
  unfoldable pub voter_weight : List (VoteInput F) → ℕ → ℕ → ℕ
  voter_weight [] i weight = weight
  voter_weight (v ∷ vs) i weight =
      voter_weight vs i (larger weight (input_weight (vote_input_crossings v i) 0))

  unfoldable pub voter_veto : List (VoteInput F) → ℕ → Bool → Bool
  voter_veto [] i veto = veto
  voter_veto (v ∷ vs) i veto = voter_veto vs i (veto || input_veto (vote_input_crossings v i) false)

  -- The sum over the voters, before it is an `int64`.
  unfoldable pub total : List (Voter F) → ℕ → ℕ
  total [] i = 0
  total (v ∷ vs) i = voter_weight v.inputs i 0 + total vs i

  unfoldable pub any_veto : List (Voter F) → ℕ → Bool
  any_veto vs i = any (λ v. voter_veto (Voter.inputs v) i false) vs

-- The `int64` of a sum, which wraps around.
unfoldable pub int64 : ℕ → ℤ
int64 n =
    let low = n % 18446744073709551616 in
    if ltb low 9223372036854775808 then pos low else negsuc (18446744073709551615 - low)

-- The entry of `labels` that a bar has.
pub data Reason : Type 0 where
  veto : String → Reason
  score : Reason

abbrev pub veto_label : Option String → Option Reason
veto_label none = none
veto_label (some id) = some (veto id)

module _ {F : Type 0} ⦃f : Float F⦄ where
  unfoldable pub by_score : WeightedVoteSpec F → ℕ → Bool
  by_score spec i = leb_ℤ (pos spec.threshold) (int64 (total spec.voters i))

  -- `argmax` of the vetoes, where one of them is true.
  unfoldable pub first_veto : List (Voter F) → ℕ → Option String
  first_veto [] i = none
  first_veto (v ∷ vs) i = if voter_veto v.inputs i false then some v.voter_id else first_veto vs i

  unfoldable pub blocked_by : WeightedVoteSpec F → ℕ → Option Reason
  blocked_by spec i =
      if any_veto spec.voters i
      then veto_label (first_veto spec.voters i)
      else if by_score spec i
      then some score
      else none

  -- The mask of the vote.
  unfoldable pub weighted_vote : WeightedVoteSpec F → ℕ → Bool
  weighted_vote spec i = not (any_veto spec.voters i || by_score spec i)
