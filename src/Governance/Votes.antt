-- ===== src/Governance/Votes.antt =====
-- src/formulas/formulas/contract/proposal/utils/math.ts and the vote types of proposal/types.ts:
-- whether a count of votes passes or fails a threshold.
--
-- Votes and powers are decimal strings of unsigned integers, which the code reads by `BigInt`: ℕ
-- here. The number of options is a difference of such, which may be negative: ℤ.
pub mod Thresholds
use dao_dao_indexer.Prelude.{ℕ, zero, suc, ◌+◌, ◌*◌, ◌/◌, ◌^◌, Bool, true, false, leb, ltb, ◌==◌}
use dao_dao_indexer.Prelude.Int.{ℤ, pos, negsuc}

-- A percentage string: its digits without the point, as a number, and how many stand behind it.
pub record Decimal : Type 0 where
  pub digits : ℕ
  pub places : ℕ

pub data PercentageThreshold : Type 0 where
  majority : PercentageThreshold
  percent : Decimal → PercentageThreshold

pub data Comparison : Type 0 where
  more at_least : Comparison

abbrev pub precision_factor : ℕ
precision_factor = 10 ^ 9

-- A number of votes, which is not negative, is compared with an integer.
unfoldable pub compares : Comparison → ℕ → ℤ → Bool
compares more votes (pos t) = ltb t votes
compares at_least votes (pos t) = leb t votes
compares _ votes (negsuc t) = true

negative : ℕ → ℤ
negative zero = pos zero
negative (suc n) = negsuc n

-- `(totalPower * digits) / 10^places`; the division of `bigint`s goes towards zero.
unfoldable pub scaled_threshold : ℤ → Decimal → ℤ
unfolding negative
scaled_threshold (pos n) p = pos (n * precision_factor * p.digits / 10 ^ p.places)
scaled_threshold (negsuc n) p = negative (suc n * precision_factor * p.digits / 10 ^ p.places)

unfoldable pub compare_vote_count : ℕ → Comparison → ℤ → Decimal → Bool
unfolding compares scaled_threshold
compare_vote_count votes cmp total_power passing_percentage =
    compares cmp (votes * precision_factor) (scaled_threshold total_power passing_percentage)

-- `(1 - Number(percent)).toString()` is computed in floats, which are not exact (for 0.9 it is
-- "0.09999999999999998"): it is a parameter. Its text is taken to have no exponent.
abbrev pub Complement : Type 0
Complement = Decimal → Decimal

unfoldable pub does_vote_count_pass : ℕ → ℤ → PercentageThreshold → Bool
unfolding compare_vote_count
does_vote_count_pass yes_votes (pos zero) threshold = false
does_vote_count_pass yes_votes options majority = compares more (yes_votes * 2) options
does_vote_count_pass yes_votes options (percent p) = compare_vote_count yes_votes at_least options p

unfoldable pub does_vote_count_fail : Complement → ℕ → ℤ → PercentageThreshold → Bool
unfolding compare_vote_count
does_vote_count_fail one_minus no_votes (pos zero) threshold = true
does_vote_count_fail one_minus no_votes options majority = compares at_least (no_votes * 2) options
does_vote_count_fail one_minus no_votes options (percent p) =
    compare_vote_count no_votes more options (one_minus p)

-- `Number(percent) === 1`.
unfoldable pub is_whole : Decimal → Bool
is_whole p = p.digits == 10 ^ p.places
