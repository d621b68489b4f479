-- ===== src/Vote/Meaning.antt =====
-- When a weighted vote lets a bar through.
use Prim.Native.String.{String}
use strategy_engine.Prelude.{
  ℕ, ◌+◌, ◌<◌, ◌≤◌, ◌≡◌, ◌↔◌, ◌⊎◌, refl, sym, ◌∙◌, subst, inl, inr, ltb, leb, ◌==◌, Bool, true,
  false, ◌||◌, none, some, List, [], ◌∷◌, any, All, All-map, if◌then◌else◌, arith, Bool-cases,
}
use strategy_engine.Prelude.Int.{pos}
use strategy_engine.Float.{Float}
use strategy_engine.Vote.Score.{
  Crossing, VoteInput, Voter, WeightedVoteSpec, larger, step_weight, input_weight, input_veto,
  vote_input_crossings, voter_weight, voter_veto, total, any_veto, int64, by_score, first_veto,
  blocked_by, weighted_vote,
}

-- The weight of a crossed step, and whether it is a crossed veto.
abbrev pub weighs : Crossing → ℕ
weighs (none, crossed) = 0
weighs (some w, crossed) = if crossed then w else 0

abbrev pub vetoes : Crossing → Bool
vetoes (none, crossed) = crossed
vetoes (some w, crossed) = false

or_left : (a b : Bool) → a ≡ true → (a || b) ≡ true
or_left a b h = ground arith

step_weight-weighs :
    (s : Crossing) (w : ℕ)
    → (w ≤ step_weight s w)
      × (weighs s ≤ step_weight s w)
      × ((step_weight s w ≡ w) ⊎ (weighs s ≡ step_weight s w))
step_weight-weighs (none, crossed) w = (omega arith, omega arith, inl refl)
step_weight-weighs (some v, true) w = elim (Bool-cases (ltb w v)) [
  | inl below ↦ rw below (ground arith, omega arith, inr refl)
  | inr above ↦ rw above (omega arith, ground arith, inl refl)
]
step_weight-weighs (some v, false) w = (omega arith, omega arith, inl refl)

input_weight-ge :
    (ss : List Crossing) (w : ℕ)
    → (w ≤ input_weight ss w) × All (λ s. weighs s ≤ input_weight ss w) ss
unfolding input_weight
input_weight-ge [] w = (omega arith, tt)
input_weight-ge (s ∷ ss) w =
    let here = step_weight-weighs s w in
    let rest = input_weight-ge ss (step_weight s w) in (omega arith, (omega arith, rest.1))

input_weight-eq :
    (ss : List Crossing) (w : ℕ)
    → (input_weight ss w ≡ w) ⊎ (any (λ s. weighs s == input_weight ss w) ss ≡ true)
unfolding input_weight
input_weight-eq [] w = inl refl
input_weight-eq (s ∷ ss) w = elim (input_weight-eq ss (step_weight s w)) [
  | inr later ↦ inr (rw later (ground arith))
  | inl same ↦ elim ((step_weight-weighs s w).2) [
    | inl kept ↦ inl (same ∙ kept)
    | inr here ↦ inr (ground arith)
  ]
]

input_veto-any : (ss : List Crossing) (v : Bool) → input_veto ss v ≡ (v || any vetoes ss)
unfolding input_veto
input_veto-any [] v = ground arith
input_veto-any ((none, crossed) ∷ ss) v = input_veto-any ss (v || crossed) ∙ ground arith
input_veto-any ((some w, crossed) ∷ ss) v = input_veto-any ss v ∙ ground arith

larger-ge : (a b : ℕ) → (a ≤ larger a b) × (b ≤ larger a b) × ((larger a b ≡ a) ⊎ (larger a b ≡ b))
larger-ge a b = elim (Bool-cases (ltb a b)) [
  | inl below ↦ rw below (ground arith, omega arith, inr refl)
  | inr above ↦ rw above (omega arith, ground arith, inl refl)
]

abbrev pub sum : List ℕ → ℕ
sum [] = 0
sum (w ∷ ws) = w + sum ws

int64_small : (n : ℕ) → n < 9223372036854775808 → int64 n ≡ pos n
unfolding int64
int64_small n h = ground arith

module _ {F : Type 0} ⦃f : Float F⦄ (i : ℕ) where
  -- Some step of the inputs is a crossed veto.
  abbrev pub vetoed : List (VoteInput F) → Bool
  vetoed = any λ v. any vetoes (vote_input_crossings v i)

  -- The greatest weight of a crossed step of the inputs, or zero.
  abbrev pub IsGreatest : List (VoteInput F) → ℕ → Type 0
  IsGreatest vs w =
      All (λ v. All (λ s. weighs s ≤ w) (vote_input_crossings v i)) vs
      × ((w ≡ 0) ⊎ (any (λ v. any (λ s. weighs s == w) (vote_input_crossings v i)) vs ≡ true))

  voter_veto-vetoed : (vs : List (VoteInput F)) (b : Bool) → voter_veto vs i b ≡ (b || vetoed vs)
  unfolding voter_veto
  voter_veto-vetoed [] b = ground arith
  voter_veto-vetoed (v ∷ vs) b =
      voter_veto-vetoed vs (b || input_veto (vote_input_crossings v i) false)
      ∙ ground (arith, input_veto-any (vote_input_crossings v i) false)

  voter_weight-ge :
      (vs : List (VoteInput F)) (w : ℕ)
      → (w ≤ voter_weight vs i w)
        × All (λ v. All (λ s. weighs s ≤ voter_weight vs i w) (vote_input_crossings v i)) vs
  unfolding voter_weight
  voter_weight-ge [] w = (omega arith, tt)
  voter_weight-ge (v ∷ vs) w =
      let mine = input_weight (vote_input_crossings v i) 0 in
      let so_far = larger w mine in
      let up = larger-ge w mine in
      let rest = voter_weight-ge vs so_far in
      let below = input_weight-ge (vote_input_crossings v i) 0 in
      (
        omega arith,
        (
          All-map (λ s. weighs s ≤ mine) (λ s. weighs s ≤ voter_weight vs i so_far)
              (λ s h. omega arith) (vote_input_crossings v i) below.1,
          rest.1,
        ),
      )

  voter_weight-eq :
      (vs : List (VoteInput F)) (w : ℕ)
      → (voter_weight vs i w ≡ w)
        ⊎ ((voter_weight vs i w ≡ 0)
            ⊎ (any (λ v. any (λ s. weighs s == voter_weight vs i w) (vote_input_crossings v i)) vs
                ≡ true))
  unfolding voter_weight
  voter_weight-eq [] w = inl refl
  voter_weight-eq (v ∷ vs) w =
      let mine = input_weight (vote_input_crossings v i) 0 in
      let end = voter_weight vs i (larger w mine) in
      elim (voter_weight-eq vs (larger w mine)) [
        | inr (inl zero_end) ↦ inr (inl zero_end)
        | inr (inr later) ↦ inr (inr (rw later (ground arith)))
        | inl same ↦ elim ((larger-ge w mine).2) [
          | inl kept ↦ inl (same ∙ kept)
          | inr own ↦ elim (input_weight-eq (vote_input_crossings v i) 0) [
            | inl none_crossed ↦ inr (inl (same ∙ own ∙ none_crossed))
            | inr found ↦ inr (
                inr (
                  let found_end : any (λ s. weighs s == end) (vote_input_crossings v i) ≡ true =
                    subst (λ (x : ℕ). any (λ s. weighs s == x) (vote_input_crossings v i) ≡ true)
                      (sym (same ∙ own)) found in
                  or_left _ _ found_end))
          ]
        ]
      ]

  voter_weight-IsGreatest : (vs : List (VoteInput F)) → IsGreatest vs (voter_weight vs i 0)
  voter_weight-IsGreatest vs = (
    (voter_weight-ge vs 0).1,
    elim (voter_weight-eq vs 0) [ inl at_zero ↦ inl at_zero | inr rest ↦ rest ],
  )

  -- The weights of the voters, one for each.
  abbrev pub Strengths : List (Voter F) → List ℕ → Type 0
  Strengths [] [] = Unit
  Strengths (v ∷ vs) (w ∷ ws) = IsGreatest v.inputs w × Strengths vs ws
  Strengths _ _ = ⊥

  total-Strengths : (vs : List (Voter F)) → (ws : List ℕ) × Strengths vs ws × (total vs i ≡ sum ws)
  unfolding total
  total-Strengths [] = ([], tt, refl)
  total-Strengths (v ∷ vs) =
      let (ws, strong, is) = total-Strengths vs in
      (
        voter_weight v.inputs i 0 ∷ ws,
        (voter_weight-IsGreatest v.inputs, strong),
        omega (arith, is),
      )

  abbrev pub vetoed_by : List (Voter F) → Bool
  vetoed_by = any λ v. vetoed (Voter.inputs v)

  any_veto-vetoed_by : (vs : List (Voter F)) → any_veto vs i ≡ vetoed_by vs
  unfolding any_veto
  any_veto-vetoed_by [] = refl
  any_veto-vetoed_by (v ∷ vs) =
      let here : voter_veto v.inputs i false ≡ vetoed v.inputs = voter_veto-vetoed v.inputs false in
      rw (here, any_veto-vetoed_by vs) refl

  first_veto-any :
      (vs : List (Voter F)) → any_veto vs i ≡ true → (id : String) × (first_veto vs i ≡ some id)
  unfolding first_veto any_veto
  first_veto-any [] h = cc
  first_veto-any (v ∷ vs) h = elim (Bool-cases (voter_veto v.inputs i false)) [
    | inl here ↦ (v.voter_id, rw here refl)
    | inr later ↦ let (id, is) = first_veto-any vs (ground arith) in (id, rw later is)
  ]

  by_score_small :
      (spec : WeightedVoteSpec F)
      → total spec.voters i < 9223372036854775808
      → by_score spec i ≡ leb spec.threshold (total spec.voters i)
  unfolding by_score
  by_score_small spec small = rw (int64_small (total spec.voters i) small) (ground arith)

  -- For a vote whose inputs have neither an exponent nor a linear ladder, and whose total is below
  -- 2 to the power of 63 on a bar: each voter has a weight, the greatest of the crossed steps of
  -- its inputs or zero, and the mask lets the bar through exactly if no crossed step is a veto and
  -- the sum of these weights is below the threshold; and exactly then the bar has no blocking
  -- label.
  pub weighted_vote_iff :
      (spec : WeightedVoteSpec F)
      → total spec.voters i < 9223372036854775808
      → (ws : List ℕ) × Strengths spec.voters ws
        × ((weighted_vote spec i ≡ true)
            ↔ ((vetoed_by spec.voters ≡ false) × (sum ws < spec.threshold)))
        × ((blocked_by spec i ≡ none) ↔ (weighted_vote spec i ≡ true))
  unfolding weighted_vote blocked_by
  weighted_vote_iff spec small =
      let (ws, strong, is) = total-Strengths spec.voters in
      let fits = by_score_small spec small in
      let same = any_veto-vetoed_by spec.voters in
      (
        ws,
        strong,
        (λ h. (ground arith, ground arith), λ h. ground arith),
        elim (Bool-cases (any_veto spec.voters i)) [
          | inl some_veto ↦ let (id, first) = first_veto-any spec.voters some_veto in ground arith
          | inr no_veto ↦ ground arith
        ],
      )
