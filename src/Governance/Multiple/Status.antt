-- ===== src/Governance/Multiple/Status.antt =====
-- A multiple-choice proposal is not both passed and rejected.
use dao_dao_indexer.Prelude.{
  ℕ, ◌≡◌, refl, Bool, true, false, not, ◌&&◌, List, Option, none, some, if◌then◌else◌, arith,
}
use dao_dao_indexer.Prelude.Int.{pos}
use dao_dao_indexer.Governance.Expirations.{is_expiration_expired, Env}
use dao_dao_indexer.Governance.Votes.{PercentageThreshold, does_vote_count_pass}
use dao_dao_indexer.Governance.Multiple.{
  MultipleChoiceProposal, VoteResult, single_winner, tie, ◌>>=◌, total_votes, calculate_vote_result,
  votes_to_consider, is_too_early, result_passes, is_passed, result_fails, is_rejected,
}

result_exclusive :
    (expired : Bool) (total_power : ℕ) (quorum : PercentageThreshold) (weights : List ℕ)
    (r : VoteResult)
    → does_vote_count_pass (total_votes weights) (pos total_power) quorum ≡ true
    → result_passes expired total_power weights r ≡ some true
    → result_fails expired total_power quorum weights r ≡ some false
unfolding result_passes result_fails
result_exclusive expired total_power quorum weights tie q h = cc
result_exclusive expired total_power quorum weights (single_winner c) q h = ground arith

-- The guards before the two statuses.
gate :
    (revoting early met : Bool) (o : Option VoteResult) (passes fails : VoteResult → Option Bool)
    → ((r : VoteResult) → met ≡ true → passes r ≡ some true → fails r ≡ some false)
    → (if revoting
        then some false
        else if early
        then some false
        else if met
        then o >>= passes
        else some false)
      ≡ some true
    → (if revoting then some false else o >>= fails) ≡ some false
gate true early met o passes fails h k = refl
gate false true met o passes fails h k = cc
gate false false false o passes fails h k = cc
gate false false true none passes fails h k = cc
gate false false true (some r) passes fails h k = h r refl k

-- Where a proposal has passed, it is found not to be rejected, and no error is thrown in finding it.
pub is_passed-is_rejected :
    (env : Env) (p : MultipleChoiceProposal)
    → is_passed env p ≡ some true
    → is_rejected env p ≡ some false
unfolding is_passed is_rejected
is_passed-is_rejected env p h =
    let expired = is_expiration_expired env p.expiration in
    let weights = votes_to_consider expired p.individual_votes p.votes in
    gate (p.allow_revoting && not expired) (is_too_early env p.min_voting_period)
      (does_vote_count_pass (total_votes weights) (pos p.total_power) p.quorum)
      (calculate_vote_result p.choices weights) _ _
      (result_exclusive expired p.total_power p.quorum weights) h
