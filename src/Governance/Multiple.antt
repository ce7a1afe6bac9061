-- ===== src/Governance/Multiple.antt =====
-- src/formulas/formulas/contract/proposal/daoProposalMultiple/status.ts and types.ts: whether a
-- multiple-choice proposal has passed or is rejected. `none` is an error that the code throws: no
-- vote weights, no other choices, or an index that no choice or weight has. Fields that the status
-- does not read are left out.
pub mod Leaders
pub mod Unbeatable
pub mod Status
use dao_dao_indexer.Prelude.{
  ℕ, zero, suc, ◌+◌, Bool, true, false, not, ◌&&◌, List, [], ◌∷◌, Option, none, some, filter,
  get_elem?, leb, ltb, ◌==◌, if◌then◌else◌,
}
use dao_dao_indexer.Prelude.Int.{ℤ, pos, negsuc, sub_ℕ, ◌+ℤ◌, ltb_ℤ}
use dao_dao_indexer.Governance.Expirations.{Expiration, Env, is_expiration_expired}
use dao_dao_indexer.Governance.Votes.{PercentageThreshold, does_vote_count_pass}

pub data MultipleChoiceOptionType : Type 0 where
  standard none_of_the_above : MultipleChoiceOptionType

pub record CheckedMultipleChoiceOption : Type 0 where
  pub index : ℕ
  pub option_type : MultipleChoiceOptionType

pub record MultipleChoiceProposal : Type 0 where
  pub allow_revoting : Bool
  pub choices : List CheckedMultipleChoiceOption
  pub expiration : Expiration
  pub min_voting_period : Option Expiration
  pub total_power : ℕ
  -- `vote_weights` of the votes and of the individual votes.
  pub votes : List ℕ
  pub individual_votes : Option (List ℕ)
  pub quorum : PercentageThreshold

pub data VoteResult : Type 0 where
  single_winner : CheckedMultipleChoiceOption → VoteResult
  tie : VoteResult

infixl 5 ◌>>=◌
abbrev pub ◌>>=◌ {ℓ κ} : {A : Type ℓ} {B : Type κ} → Option A → (A → Option B) → Option B
none >>= k = none
some a >>= k = k a

unfoldable pub total_votes : List ℕ → ℕ
total_votes [] = 0
total_votes (w ∷ ws) = w + total_votes ws

-- The `reduce` that takes the greater weight.
unfoldable pub greatest_from : ℕ → List ℕ → ℕ
greatest_from acc [] = acc
greatest_from acc (w ∷ ws) = greatest_from (if ltb acc w then w else acc) ws

-- `vote_weights.entries()` filtered by the weight, and of these the indexes.
unfoldable pub top_choices : ℕ → ℕ → List ℕ → List ℕ
top_choices index weight [] = []
top_choices index weight (w ∷ ws) =
    let rest = top_choices (index + 1) weight ws in if w == weight then index ∷ rest else rest

winner_of : List CheckedMultipleChoiceOption → List ℕ → Option VoteResult
winner_of choices [] = none
winner_of choices (i ∷ []) = do c ← get_elem? choices i; some (single_winner c)
winner_of choices (i ∷ j ∷ rest) = some tie

-- `calculateVoteResult` on the votes to consider, which its caller has found in the same way.
unfoldable pub calculate_vote_result : List CheckedMultipleChoiceOption → List ℕ → Option VoteResult
unfolding greatest_from top_choices winner_of
calculate_vote_result choices [] = none
calculate_vote_result choices (w ∷ ws) =
    winner_of choices (top_choices 0 (greatest_from 0 (w ∷ ws)) (w ∷ ws))

-- The comparison at the end of `isChoiceUnbeatable`, by the type of the choice.
beats : MultipleChoiceOptionType → ℕ → ℕ → ℤ → Bool
beats standard power second remaining = ltb_ℤ (pos second +ℤ remaining) (pos power)
beats none_of_the_above power second remaining = not (ltb_ℤ (pos power) (pos second +ℤ remaining))

second_beaten : MultipleChoiceOptionType → ℕ → ℤ → List ℕ → Option Bool
second_beaten type power remaining [] = none
second_beaten type power remaining (w ∷ ws) =
    some (beats type power (greatest_from 0 (w ∷ ws)) remaining)

unfoldable pub is_choice_unbeatable : ℕ → List ℕ → CheckedMultipleChoiceOption → Option Bool
unfolding total_votes beats second_beaten
is_choice_unbeatable total_power weights winning_choice = do
  power ← get_elem? weights winning_choice.index
  second_beaten winning_choice.option_type power (sub_ℕ total_power (total_votes weights))
      (filter (λ w. ltb w power) weights)

unfoldable pub votes_to_consider : Bool → Option (List ℕ) → List ℕ → List ℕ
votes_to_consider false (some individual) votes = individual
votes_to_consider false none votes = votes
votes_to_consider true individual votes = votes

unfoldable pub is_too_early : Env → Option Expiration → Bool
is_too_early env none = false
is_too_early env (some e) = not (is_expiration_expired env e)

abbrev is_none : MultipleChoiceOptionType → Bool
is_none standard = false
is_none none_of_the_above = true

-- `isPassed` once the quorum is met.
result_passes : Bool → ℕ → List ℕ → VoteResult → Option Bool
result_passes expired total_power weights tie = some false
result_passes expired total_power weights (single_winner c) =
    if is_none c.option_type
    then some false
    else if expired
    then some true
    else is_choice_unbeatable total_power weights c

unfoldable pub is_passed : Env → MultipleChoiceProposal → Option Bool
unfolding votes_to_consider is_too_early result_passes
is_passed env p =
    let expired = is_expiration_expired env p.expiration in
    let weights = votes_to_consider expired p.individual_votes p.votes in
    if p.allow_revoting && not expired
    then some false
    else if is_too_early env p.min_voting_period
    then some false
    else if does_vote_count_pass (total_votes weights) (pos p.total_power) p.quorum
    then calculate_vote_result p.choices weights >>= result_passes expired p.total_power weights
    else some false

-- `&&` of a test and a call that may throw.
abbrev and_then : Bool → Option Bool → Option Bool
and_then true b = b
and_then false b = some false

result_fails : Bool → ℕ → PercentageThreshold → List ℕ → VoteResult → Option Bool
result_fails expired total_power quorum weights tie =
    some (if expired then true else total_power == total_votes weights)
result_fails expired total_power quorum weights (single_winner c) =
    if does_vote_count_pass (total_votes weights) (pos total_power) quorum && expired
    then some (is_none c.option_type)
    else if not expired
    then and_then (is_none c.option_type) (is_choice_unbeatable total_power weights c)
    else some true

unfoldable pub is_rejected : Env → MultipleChoiceProposal → Option Bool
unfolding votes_to_consider result_fails
is_rejected env p =
    let expired = is_expiration_expired env p.expiration in
    let weights = votes_to_consider expired p.individual_votes p.votes in
    if p.allow_revoting && not expired
    then some false
    else calculate_vote_result p.choices weights
      >>= result_fails expired p.total_power p.quorum weights
