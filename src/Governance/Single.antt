-- ===== src/Governance/Single.antt =====
-- src/formulas/formulas/contract/proposal/daoProposalSingle/status.ts and types.ts: whether a
-- single-choice proposal has passed or is rejected. Fields that the status does not read are left
-- out.
pub mod Status
use dao_dao_indexer.Prelude.{
  ℕ, zero, suc, ◌+◌, Bool, true, false, not, ◌&&◌, Option, none, some, leb, if◌then◌else◌,
}
use dao_dao_indexer.Prelude.Int.{ℤ, pos, negsuc, sub_ℕ, ◌+ℤ◌, ltb_ℤ}
use dao_dao_indexer.Governance.Expirations.{Expiration, Env, is_expiration_expired}
use dao_dao_indexer.Governance.Votes.{
  PercentageThreshold, majority, percent, Complement, does_vote_count_pass, does_vote_count_fail,
  is_whole,
}

pub record Votes : Type 0 where
  pub yes_votes : ℕ
  pub no_votes : ℕ
  pub abstain : ℕ

pub data Threshold : Type 0 where
  absolute_percentage : PercentageThreshold → Threshold
  -- The threshold and the quorum.
  threshold_quorum : PercentageThreshold → PercentageThreshold → Threshold
  absolute_count : ℕ → Threshold

pub record SingleChoiceProposal : Type 0 where
  pub allow_revoting : Bool
  pub expiration : Expiration
  pub min_voting_period : Option Expiration
  pub threshold : Threshold
  pub total_power : ℕ
  pub votes : Votes
  pub individual_votes : Option Votes

unfoldable pub total_votes : Votes → ℕ
total_votes v = v.yes_votes + v.no_votes + v.abstain

-- `(!expired && proposal.individual_votes) || proposal.votes`.
unfoldable pub votes_to_consider : Bool → Option Votes → Votes → Votes
votes_to_consider false (some individual) votes = individual
votes_to_consider false none votes = votes
votes_to_consider true individual votes = votes

-- Whether there is a minimum voting period that has not expired.
unfoldable pub is_too_early : Env → Option Expiration → Bool
is_too_early env none = false
is_too_early env (some e) = not (is_expiration_expired env e)

-- The tests of `isPassed` on the threshold.
unfoldable pub threshold_passes : Bool → Threshold → ℕ → Votes → Bool
unfolding total_votes
threshold_passes expired (absolute_percentage p) total_power v =
    does_vote_count_pass v.yes_votes (sub_ℕ total_power v.abstain) p
threshold_passes expired (threshold_quorum threshold quorum) total_power v =
    if not (does_vote_count_pass (total_votes v) (pos total_power) quorum)
    then false
    else if expired
    then does_vote_count_pass v.yes_votes (sub_ℕ (total_votes v) v.abstain) threshold
    else does_vote_count_pass v.yes_votes (sub_ℕ total_power v.abstain) threshold
threshold_passes expired (absolute_count threshold) total_power v = leb threshold v.yes_votes

unfoldable pub is_passed : Env → SingleChoiceProposal → Bool
unfolding votes_to_consider is_too_early
is_passed env p =
    let expired = is_expiration_expired env p.expiration in
    if p.allow_revoting && not expired
    then false
    else if is_too_early env p.min_voting_period
    then false
    else threshold_passes expired p.threshold p.total_power
        (votes_to_consider expired p.individual_votes p.votes)

-- `options === 0n`, and then `BigInt(votesToConsider.no) >= 1n`.
unfoldable pub whole_fails : ℤ → ℕ → Bool
whole_fails (pos zero) no_votes = true
whole_fails (pos (suc n)) no_votes = leb 1 no_votes
whole_fails (negsuc n) no_votes = leb 1 no_votes

-- The tests against a percentage: one of the whole is treated apart.
unfoldable pub percentage_fails : Complement → ℤ → ℕ → PercentageThreshold → Bool
unfolding whole_fails is_whole
percentage_fails one_minus options no_votes majority =
    does_vote_count_fail one_minus no_votes options majority
percentage_fails one_minus options no_votes (percent p) =
    if is_whole p
    then whole_fails options no_votes
    else does_vote_count_fail one_minus no_votes options (percent p)

unfoldable pub threshold_fails : Complement → Bool → Threshold → ℕ → Votes → Bool
unfolding total_votes percentage_fails
threshold_fails one_minus expired (absolute_percentage p) total_power v =
    percentage_fails one_minus (sub_ℕ total_power v.abstain) v.no_votes p
threshold_fails one_minus expired (threshold_quorum threshold quorum) total_power v =
    if does_vote_count_pass (total_votes v) (pos total_power) quorum && expired
    then percentage_fails one_minus (sub_ℕ (total_votes v) v.abstain) v.no_votes threshold
    else if not expired
    then percentage_fails one_minus (sub_ℕ total_power v.abstain) v.no_votes threshold
    else true
threshold_fails one_minus expired (absolute_count threshold) total_power v =
    ltb_ℤ (pos v.yes_votes +ℤ sub_ℕ total_power (total_votes v)) (pos threshold)

unfoldable pub is_rejected : Complement → Env → SingleChoiceProposal → Bool
unfolding votes_to_consider
is_rejected one_minus env p =
    let expired = is_expiration_expired env p.expiration in
    if p.allow_revoting && not expired
    then false
    else threshold_fails one_minus expired p.threshold p.total_power
        (votes_to_consider expired p.individual_votes p.votes)
