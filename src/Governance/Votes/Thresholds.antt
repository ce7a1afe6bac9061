-- ===== src/Governance/Votes/Thresholds.antt =====
-- A count of votes that passes a threshold and a count that fails it: how many votes both need, and
-- when `1 - Number(percent)`, computed in floats, leaves room for both.
use native.Mathlib.Nat.{
  one-le-pow, mul-div_cancel, le_of_mul-le-mul_right, lt_of_mul-lt-mul_right, lt_of_mul-lt-mul_left,
  mul-le-mul_right, mul-lt-mul_of_pos_right, div-lt_iff_lt-mul,
}
use dao_dao_indexer.Prelude.{
  ℕ, zero, suc, ◌+◌, ◌*◌, ◌/◌, ◌^◌, ◌≤◌, ◌<◌, ◌≡◌, ap, true, leb→le, ltb→lt, arith,
}
use dao_dao_indexer.Prelude.Int.{pos}
use dao_dao_indexer.Governance.Votes.{
  PercentageThreshold, majority, percent, precision_factor, compares, scaled_threshold,
  compare_vote_count, Complement, does_vote_count_pass, does_vote_count_fail,
}

-- A percentage has no more places than the precision factor has zeros.
abbrev pub IsPrecise : PercentageThreshold → Type 0
IsPrecise majority = Unit
IsPrecise (percent p) = (q : ℕ) × (precision_factor ≡ q * 10 ^ p.places)

-- The votes are more than the share of the options that a percentage and its complement, as it is
-- computed, make together; for a majority, more than the options.
abbrev pub IsMoreThanShare : Complement → ℕ → ℕ → PercentageThreshold → Type 0
IsMoreThanShare one_minus votes n majority = n < votes
IsMoreThanShare one_minus votes n (percent p) =
    let c = one_minus p in
    n * (p.digits * 10 ^ c.places + c.digits * 10 ^ p.places)
    < votes * (10 ^ p.places * 10 ^ c.places)

-- The complement of a percentage, as it is computed, is below 1 less the percentage.
abbrev pub IsShort : Complement → PercentageThreshold → Type 0
IsShort one_minus majority = ⊥
IsShort one_minus (percent p) =
    let c = one_minus p in
    p.digits * 10 ^ c.places + c.digits * 10 ^ p.places < 10 ^ p.places * 10 ^ c.places

pub pow_pos : (n : ℕ) → 0 < 10 ^ n
pow_pos n = one-le-pow n 10 (omega arith)

-- A count at the threshold of a fraction has the share, the threshold not being rounded.
passed_share :
    (votes n f d t q : ℕ)
    → 0 < t
    → 0 < f
    → f ≡ q * t
    → n * f * d / t ≤ votes * f
    → n * d ≤ votes * t
passed_share votes n f d t zero ht hf e h = absurd (omega (arith, e))
passed_share votes n f d t (suc q) ht hf e h =
    let a : n * f * d ≡ n * suc q * d * t = rw e (omega arith) in
    let b : n * suc q * d ≤ votes * f = rw (a, mul-div_cancel (n * suc q * d) ht) at h in
    let whole : votes * f ≡ votes * (suc q * t) = ap (λ (z : ℕ). votes * z) e in
    let c : n * d * suc q ≤ votes * t * suc q = omega (arith, b, whole) in
    le_of_mul-le-mul_right c (omega arith)

-- A count above a threshold has more than the share, also where the threshold is rounded.
failed_share : (votes n f c u : ℕ) → 0 < u → 0 < f → n * f * c / u < votes * f → n * c < votes * u
failed_share votes n f c u hu hf h =
    let a : n * f * c < votes * f * u = (div-lt_iff_lt-mul hu).0 h in
    lt_of_mul-lt-mul_right f (omega (arith, a))

shares-add :
    (yes_votes no_votes n d t c u : ℕ)
    → 0 < t
    → n * d ≤ yes_votes * t
    → n * c < no_votes * u
    → n * (d * u + c * t) < (yes_votes + no_votes) * (t * u)
shares-add yes_votes no_votes n d t c u ht a b =
    let a' = mul-le-mul_right u a in let b' = mul-lt-mul_of_pos_right b ht in omega (arith, a', b')

-- Votes for that pass a threshold and votes against that fail it are together more than the share
-- of the options that the percentage and its complement make together, whatever the complement is
-- computed to be, and for a majority more than the options: where the number of options is not
-- negative, and the percentage has no more places than the precision factor has zeros. With an exact complement that is more than the options; for
-- 0.9 it is less, the floats giving 0.09999999999999998, and 90 votes for and 10 against of 100 do
-- both.
pub does_vote_count_pass-does_vote_count_fail :
    (one_minus : Complement) (yes_votes no_votes n : ℕ) (threshold : PercentageThreshold)
    → IsPrecise threshold
    → does_vote_count_pass yes_votes (pos n) threshold ≡ true
    → does_vote_count_fail one_minus no_votes (pos n) threshold ≡ true
    → IsMoreThanShare one_minus (yes_votes + no_votes) n threshold
unfolding does_vote_count_pass does_vote_count_fail compare_vote_count compares scaled_threshold
does_vote_count_pass-does_vote_count_fail one_minus yes_votes no_votes zero threshold x a b = cc
does_vote_count_pass-does_vote_count_fail one_minus yes_votes no_votes (suc n) majority x a b =
    ground arith
does_vote_count_pass-does_vote_count_fail one_minus yes_votes no_votes (suc n) (percent p) (q, e) a
      b =
    let c = one_minus p in
    let t = 10 ^ p.places in
    let u = 10 ^ c.places in
    let ht = pow_pos p.places in
    let hf = pow_pos 9 in
    let for_it =
      passed_share yes_votes (suc n) precision_factor p.digits t q ht hf e (leb→le _ _ a) in
    let against =
      failed_share no_votes (suc n) precision_factor c.digits u (pow_pos c.places) hf
        (ltb→lt _ _ b) in
    shares-add yes_votes no_votes (suc n) p.digits t c.digits u ht for_it against

-- Votes that are no more than the options are more than the share of a short complement only.
pub share-IsShort :
    (one_minus : Complement) (votes n : ℕ) (threshold : PercentageThreshold)
    → votes ≤ n
    → IsMoreThanShare one_minus votes n threshold
    → IsShort one_minus threshold
share-IsShort one_minus votes n majority le h = omega arith
share-IsShort one_minus votes n (percent p) le h =
    let k = mul-le-mul_right (10 ^ p.places * 10 ^ (one_minus p).places) le in
    lt_of_mul-lt-mul_left n (omega (arith, h, k))
