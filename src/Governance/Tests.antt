-- ===== src/Governance/Tests.antt =====
-- Proposals of src/formulas/formulas/contract/proposal.
use dao_dao_indexer.Prelude.{
  ℕ, ◌+◌, ◌*◌, ◌^◌, ◌≤◌, ◌≡◌, refl, true, false, List, [], ◌∷◌, none, some, arith,
}
use dao_dao_indexer.Prelude.Int.{pos, ◌+ℤ◌}
use dao_dao_indexer.Governance.Expirations.{
  at_height, height, Env, is_expiration_expired, expiration_plus_duration,
}
use dao_dao_indexer.Governance.Votes.{Decimal, percent, does_vote_count_pass, does_vote_count_fail}
use dao_dao_indexer.Governance.Votes.Thresholds.{
  IsPrecise, IsShort, IsMoreThanShare, does_vote_count_pass-does_vote_count_fail,
}
use dao_dao_indexer.Governance.Single.{
  SingleChoiceProposal, Votes, threshold_quorum, absolute_percentage, votes_to_consider,
}
use dao_dao_indexer.Governance.Single
use dao_dao_indexer.Governance.Single.Status.{IsWithin, is_passed-is_rejected_short}
use dao_dao_indexer.Governance.Multiple
use dao_dao_indexer.Governance.Multiple.{
  MultipleChoiceProposal, CheckedMultipleChoiceOption, standard, none_of_the_above, single_winner,
  calculate_vote_result, is_choice_unbeatable,
}
use dao_dao_indexer.Governance.Multiple.Status.{is_passed-is_rejected}
use dao_dao_indexer.Governance.Multiple.Unbeatable.{is_choice_unbeatable_sound}

abbrev env_at : ℕ → Env
env_at n = record { block_height = n; date_ms = n * 1000 }

abbrev sixty_percent : Decimal
sixty_percent = record { digits = 60; places = 2 }

abbrev nine_tenths : Decimal
nine_tenths = record { digits = 9; places = 1 }

-- `(1 - 0.9).toString()` is "0.09999999999999998".
abbrev float_complement : Decimal → Decimal
float_complement p = record { digits = 9999999999999998; places = 17 }

nine_tenths-IsPrecise : IsPrecise (percent nine_tenths)
nine_tenths-IsPrecise = (10 ^ 8, refl)

ninety_passes : does_vote_count_pass 90 (pos 100) (percent nine_tenths) ≡ true
unfolding does_vote_count_pass
ninety_passes = refl

ten_fails : does_vote_count_fail float_complement 10 (pos 100) (percent nine_tenths) ≡ true
unfolding does_vote_count_fail
ten_fails = refl

does_vote_count_fail_example : IsMoreThanShare float_complement (90 + 10) 100 (percent nine_tenths)
does_vote_count_fail_example =
    does_vote_count_pass-does_vote_count_fail float_complement 90 10 100 (percent nine_tenths)
      nine_tenths-IsPrecise ninety_passes ten_fails

-- Nine tenths for it, one against.
abbrev tied_votes : Votes
tied_votes = record { yes_votes = 90; no_votes = 10; abstain = 0 }

abbrev tied_proposal : SingleChoiceProposal
tied_proposal = record {
  allow_revoting = false;
  expiration = at_height 100;
  min_voting_period = some (at_height 10);
  threshold = threshold_quorum (percent nine_tenths) (percent sixty_percent);
  total_power = 100;
  votes = tied_votes;
  individual_votes = none;
}

tied_proposal-passed : Single.is_passed (env_at 20) tied_proposal ≡ true
unfolding Single.is_passed is_expiration_expired Single.threshold_passes does_vote_count_pass
tied_proposal-passed = refl

tied_proposal-rejected : Single.is_rejected float_complement (env_at 20) tied_proposal ≡ true
unfolding Single.is_rejected is_expiration_expired Single.threshold_fails does_vote_count_pass
    does_vote_count_fail
tied_proposal-rejected = refl

tied_votes-IsWithin :
    IsWithin 100
      (votes_to_consider (is_expiration_expired (env_at 20) (at_height 100)) none tied_votes)
unfolding votes_to_consider is_expiration_expired
tied_votes-IsWithin = omega arith

is_rejected_example : IsShort float_complement (percent nine_tenths)
is_rejected_example =
    is_passed-is_rejected_short float_complement (env_at 20) tied_proposal tied_votes-IsWithin
      nine_tenths-IsPrecise tied_proposal-passed tied_proposal-rejected

abbrev option_at : ℕ → CheckedMultipleChoiceOption
option_at index = record { index = index; option_type = standard }

abbrev options : List CheckedMultipleChoiceOption
options = option_at 0 ∷ option_at 1 ∷ record { index = 2; option_type = none_of_the_above } ∷ []

abbrev choice_proposal : MultipleChoiceProposal
choice_proposal = record {
  allow_revoting = false;
  choices = options;
  expiration = at_height 100;
  min_voting_period = none;
  total_power = 10;
  votes = 1 ∷ 6 ∷ 0 ∷ [];
  individual_votes = none;
  quorum = percent sixty_percent;
}

choice_proposal-passed : Multiple.is_passed (env_at 20) choice_proposal ≡ some true
unfolding Multiple.is_passed does_vote_count_pass Multiple.total_votes is_expiration_expired
    calculate_vote_result is_choice_unbeatable ◌+ℤ◌
choice_proposal-passed = refl

is_rejected_multiple_example : Multiple.is_rejected (env_at 20) choice_proposal ≡ some false
is_rejected_multiple_example =
    is_passed-is_rejected (env_at 20) choice_proposal choice_proposal-passed

leading-wins : calculate_vote_result options (1 ∷ 6 ∷ 0 ∷ []) ≡ some (single_winner (option_at 1))
unfolding calculate_vote_result
leading-wins = refl

leading-unbeatable : is_choice_unbeatable 10 (1 ∷ 6 ∷ 0 ∷ []) (option_at 1) ≡ some true
unfolding is_choice_unbeatable ◌+ℤ◌ Multiple.greatest_from
leading-unbeatable = refl

options-within : Multiple.total_votes (4 ∷ 6 ∷ 0 ∷ []) ≤ 10
unfolding Multiple.total_votes
options-within = omega arith

is_choice_unbeatable_example :
    calculate_vote_result options (4 ∷ 6 ∷ 0 ∷ []) ≡ some (single_winner (option_at 1))
is_choice_unbeatable_example =
    is_choice_unbeatable_sound options 10 (1 ∷ 6 ∷ 0 ∷ []) (4 ∷ 6 ∷ 0 ∷ []) (option_at 1)
      leading-wins (refl, (refl, (refl, tt))) refl leading-unbeatable
      (omega arith, (omega arith, (omega arith, tt))) options-within

has_expired : is_expiration_expired (env_at 20) (at_height 15) ≡ true
unfolding is_expiration_expired
has_expired = refl

later_expired : is_expiration_expired (env_at 20) (at_height 20) ≡ true
unfolding is_expiration_expired
later_expired = refl

later_expiration : expiration_plus_duration (at_height 15) (height 5) ≡ some (at_height 20)
unfolding expiration_plus_duration
later_expiration = refl
