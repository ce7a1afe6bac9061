-- ===== src/Governance/Single/Status.antt =====
-- A single-choice proposal is both passed and rejected only where the complement of its percentage
-- is computed too small.
use native.Mathlib.Nat.{mul-div_cancel}
use dao_dao_indexer.Prelude.{
  ℕ, zero, suc, ◌+◌, ◌-◌, ◌*◌, ◌/◌, ◌^◌, ◌≤◌, ◌≡◌, Bool, true, false, not, ◌&&◌, leb→le, ==_iff,
  if◌then◌else◌, Bool-cases, inl, inr, arith,
}
use dao_dao_indexer.Prelude.Int.{pos, sub_ℕ_of_le, ◌+ℤ◌}
use dao_dao_indexer.Governance.Expirations.{Env, is_expiration_expired}
use dao_dao_indexer.Governance.Votes.{
  Decimal, PercentageThreshold, majority, percent, Complement, compares, compare_vote_count,
  does_vote_count_pass, is_whole, precision_factor, scaled_threshold,
}
use dao_dao_indexer.Governance.Votes.Thresholds.{
  IsPrecise, IsShort, pow_pos, does_vote_count_pass-does_vote_count_fail, share-IsShort,
}
use dao_dao_indexer.Governance.Single.{
  Votes, Threshold, absolute_percentage, threshold_quorum, absolute_count, SingleChoiceProposal,
  total_votes, votes_to_consider, is_too_early, threshold_passes, is_passed, whole_fails,
  percentage_fails, threshold_fails, is_rejected,
}

-- No more votes than there is power.
abbrev pub IsWithin : ℕ → Votes → Type 0
IsWithin total_power v = v.yes_votes + v.no_votes + v.abstain ≤ total_power

-- The percentage that the votes for and against are compared with has no more places than the
-- precision factor has zeros.
abbrev pub IsPreciseThreshold : Threshold → Type 0
IsPreciseThreshold (absolute_percentage p) = IsPrecise p
IsPreciseThreshold (threshold_quorum threshold quorum) = IsPrecise threshold
IsPreciseThreshold (absolute_count threshold) = Unit

-- The complement of that percentage, as it is computed, is below 1 less the percentage.
abbrev pub IsShortThreshold : Complement → Threshold → Type 0
IsShortThreshold one_minus (absolute_percentage p) = IsShort one_minus p
IsShortThreshold one_minus (threshold_quorum threshold quorum) = IsShort one_minus threshold
IsShortThreshold one_minus (absolute_count threshold) = ⊥

-- A vote for the whole needs all options.
whole_pass-fail :
    (yes_votes no_votes n : ℕ) (p : Decimal)
    → yes_votes + no_votes ≤ n
    → is_whole p ≡ true
    → does_vote_count_pass yes_votes (pos n) (percent p) ≡ true
    → whole_fails (pos n) no_votes ≡ true
    → ⊥
unfolding does_vote_count_pass whole_fails is_whole compare_vote_count compares scaled_threshold
whole_pass-fail yes_votes no_votes zero p le w a b = cc
whole_pass-fail yes_votes no_votes (suc n) p le w a b =
    let t = 10 ^ p.places in
    let same : p.digits ≡ t = (==_iff p.digits t).0 w in
    let threshold : suc n * precision_factor * p.digits / t ≡ suc n * precision_factor =
      rw same (mul-div_cancel (suc n * precision_factor) (pow_pos p.places)) in
    let passed = leb→le _ _ a in omega (arith, leb→le 1 no_votes b)

percentage-IsShort :
    (one_minus : Complement) (yes_votes no_votes n : ℕ) (p : PercentageThreshold)
    → yes_votes + no_votes ≤ n
    → IsPrecise p
    → does_vote_count_pass yes_votes (pos n) p ≡ true
    → percentage_fails one_minus (pos n) no_votes p ≡ true
    → IsShort one_minus p
unfolding percentage_fails
percentage-IsShort one_minus yes_votes no_votes n majority le x a b =
    share-IsShort one_minus (yes_votes + no_votes) n majority le
      (does_vote_count_pass-does_vote_count_fail one_minus yes_votes no_votes n majority x a b)
percentage-IsShort one_minus yes_votes no_votes n (percent p) le x a b =
    elim (Bool-cases (is_whole p)) [
      | inl w ↦ absurd (whole_pass-fail yes_votes no_votes n p le w a (rw w at b))
      | inr other ↦ share-IsShort one_minus (yes_votes + no_votes) n (percent p) le (
          does_vote_count_pass-does_vote_count_fail one_minus yes_votes no_votes n (percent p) x a
            (rw other at b))
    ]

threshold-IsShort :
    (one_minus : Complement) (expired : Bool) (t : Threshold) (total_power : ℕ) (v : Votes)
    → IsWithin total_power v
    → IsPreciseThreshold t
    → threshold_passes expired t total_power v ≡ true
    → threshold_fails one_minus expired t total_power v ≡ true
    → IsShortThreshold one_minus t
unfolding threshold_passes threshold_fails ◌+ℤ◌
threshold-IsShort one_minus expired (absolute_percentage p) total_power v h x a b =
    let options = sub_ℕ_of_le total_power v.abstain (omega arith) in
    percentage-IsShort one_minus v.yes_votes v.no_votes (total_power - v.abstain) p (omega arith) x
      (rw options at a) (rw options at b)
threshold-IsShort one_minus true (threshold_quorum t quorum) total_power v h x a b =
    let options = sub_ℕ_of_le (total_votes v) v.abstain (omega arith) in
    elim (Bool-cases (does_vote_count_pass (total_votes v) (pos total_power) quorum)) [
      | inl met ↦
          percentage-IsShort one_minus v.yes_votes v.no_votes (total_votes v - v.abstain) t
            (omega arith) x (rw (met, options) at a) (rw (met, options) at b)
      | inr missed ↦ cc (let k : false ≡ true = rw missed at a in k)
    ]
threshold-IsShort one_minus false (threshold_quorum t quorum) total_power v h x a b =
    let options = sub_ℕ_of_le total_power v.abstain (omega arith) in
    elim (Bool-cases (does_vote_count_pass (total_votes v) (pos total_power) quorum)) [
      | inl met ↦
          percentage-IsShort one_minus v.yes_votes v.no_votes (total_power - v.abstain) t
            (omega arith) x (rw (met, options) at a) (rw (met, options) at b)
      | inr missed ↦ cc (let k : false ≡ true = rw missed at a in k)
    ]
threshold-IsShort one_minus expired (absolute_count t) total_power v h x a b =
    let rest = sub_ℕ_of_le total_power (total_votes v) (omega arith) in
    absurd (ground (arith, rest))

pub gate_passes :
    (revoting early passes : Bool)
    → (if revoting then false else if early then false else passes) ≡ true
    → passes ≡ true
gate_passes revoting early passes h = ground arith

gate_fails : (revoting fails : Bool) → (if revoting then false else fails) ≡ true → fails ≡ true
gate_fails revoting fails h = ground arith

-- A proposal whose considered votes are within the total power is both passed and rejected only if
-- it compares them with a percentage p for which `1 - Number(p)`, as floats compute it, is below
-- 1 - p, as it is for 0.9: whether or not it has expired, for every kind of threshold, a percentage
-- having no more places than the precision factor has zeros. In particular no proposal with a
-- majority or an absolute count, or for the whole, is both.
pub is_passed-is_rejected_short :
    (one_minus : Complement) (env : Env) (p : SingleChoiceProposal)
    → IsWithin p.total_power
        (votes_to_consider (is_expiration_expired env p.expiration) p.individual_votes p.votes)
    → IsPreciseThreshold p.threshold
    → is_passed env p ≡ true
    → is_rejected one_minus env p ≡ true
    → IsShortThreshold one_minus p.threshold
unfolding is_passed is_rejected
is_passed-is_rejected_short one_minus env p h x a r =
    let expired = is_expiration_expired env p.expiration in
    let v = votes_to_consider expired p.individual_votes p.votes in
    threshold-IsShort one_minus expired p.threshold p.total_power v h x
      (gate_passes (p.allow_revoting && not expired) (is_too_early env p.min_voting_period) _ a)
      (gate_fails (p.allow_revoting && not expired) _ r)
