-- ===== src/Governance/Multiple/Unbeatable.antt =====
-- A choice that `isChoiceUnbeatable` finds unbeatable stays the single winner.
use mathlib.Core.Path.{subst}
use dao_dao_indexer.Prelude.{
  ℕ, zero, suc, ◌+◌, ◌-◌, ◌≤◌, ◌<◌, ◌≡◌, refl, true, List, [], ◌∷◌, some, filter, get_elem?, ltb,
  Bool-cases, inl, inr, arith, All,
}
use dao_dao_indexer.Prelude.Int.{pos, sub_ℕ, sub_ℕ_of_le, ◌+ℤ◌}
use dao_dao_indexer.Governance.Multiple.{
  standard, MultipleChoiceOptionType, CheckedMultipleChoiceOption, single_winner, total_votes,
  greatest_from, calculate_vote_result, beats, second_beaten, is_choice_unbeatable,
}
use dao_dao_indexer.Governance.Multiple.Leaders.{
  Leads, All-lt_of_le, greatest_from-ge, get_elem?-Leads, calculate_vote_result-Leads,
  Leads-calculate_vote_result,
}

-- The weight at the index is p, and the other weights are at most b.
abbrev pub LeadsBy : ℕ → ℕ → ℕ → List ℕ → Type 0
LeadsBy i p b [] = ⊥
LeadsBy zero p b (w ∷ ws) = (w ≡ p) × All (λ x. x ≤ b) ws
LeadsBy (suc i) p b (w ∷ ws) = (w ≤ b) × LeadsBy i p b ws

-- Each weight has grown or stayed.
abbrev pub LeAll : List ℕ → List ℕ → Type 0
LeAll [] [] = Unit
LeAll (w ∷ ws) (f ∷ fs) = (w ≤ f) × LeAll ws fs
LeAll [] (f ∷ fs) = ⊥
LeAll (w ∷ ws) [] = ⊥

total_votes-LeAll : (ws fs : List ℕ) → LeAll ws fs → total_votes ws ≤ total_votes fs
unfolding total_votes
total_votes-LeAll [] [] h = omega arith
total_votes-LeAll (w ∷ ws) (f ∷ fs) h = omega (arith, total_votes-LeAll ws fs h.1)
total_votes-LeAll [] (f ∷ fs) h = absurd h
total_votes-LeAll (w ∷ ws) [] h = absurd h

-- What is below p is at most b.
abbrev Below : ℕ → ℕ → List ℕ → Type 0
Below p b = All (λ x. x < p → x ≤ b)

Below-filter : (p b : ℕ) (ws : List ℕ) → All (λ x. x ≤ b) (filter (λ w. ltb w p) ws) → Below p b ws
Below-filter p b [] h = tt
Below-filter p b (w ∷ ws) h = elim (Bool-cases (ltb w p)) [
  | inl less ↦
      let k : All (λ x. x ≤ b) (w ∷ filter (λ v. ltb v p) ws) = rw less at h in
      (λ e. k.0, Below-filter p b ws k.1)
  | inr more ↦ (λ e. absurd (ground arith), Below-filter p b ws (rw more at h))
]

All-Below : (p b : ℕ) (ws : List ℕ) → Below p b ws → All (λ x. x < p) ws → All (λ x. x ≤ b) ws
All-Below p b [] h k = tt
All-Below p b (w ∷ ws) h k = (h.0 k.0, All-Below p b ws h.1 k.1)

Leads-LeadsBy : (i p b : ℕ) (ws : List ℕ) → Below p b ws → Leads i p ws → LeadsBy i p b ws
Leads-LeadsBy i p b [] h l = absurd l
Leads-LeadsBy zero p b (w ∷ ws) h l = (l.0, All-Below p b ws h.1 l.1)
Leads-LeadsBy (suc i) p b (w ∷ ws) h l = (h.0 l.0, Leads-LeadsBy i p b ws h.1 l.1)

LeadsBy-Leads : (i p b : ℕ) (ws : List ℕ) → b < p → LeadsBy i p b ws → Leads i p ws
LeadsBy-Leads i p b [] h l = absurd l
LeadsBy-Leads zero p b (w ∷ ws) h l = (l.0, All-lt_of_le b p ws h l.1)
LeadsBy-Leads (suc i) p b (w ∷ ws) h l = (omega arith, LeadsBy-Leads i p b ws h l.1)

-- Of r more votes each weight gets at most r.
All-grown :
    (b r : ℕ) (ws fs : List ℕ)
    → LeAll ws fs
    → total_votes fs ≤ total_votes ws + r
    → All (λ x. x ≤ b) ws
    → All (λ x. x ≤ b + r) fs
unfolding total_votes
All-grown b r [] [] g t h = tt
All-grown b r (w ∷ ws) (f ∷ fs) g t h =
    (omega (arith, total_votes-LeAll ws fs g.1), All-grown b r ws fs g.1 (omega arith) h.1)
All-grown b r [] (f ∷ fs) g t h = absurd g
All-grown b r (w ∷ ws) [] g t h = absurd g

LeadsBy-grown :
    (i p b r : ℕ) (ws fs : List ℕ)
    → LeAll ws fs
    → total_votes fs ≤ total_votes ws + r
    → LeadsBy i p b ws
    → (q : ℕ) × (p ≤ q) × LeadsBy i q (b + r) fs
unfolding total_votes
LeadsBy-grown i p b r [] fs g t l = absurd l
LeadsBy-grown i p b r (w ∷ ws) [] g t l = absurd g
LeadsBy-grown zero p b r (w ∷ ws) (f ∷ fs) g t l =
    (f, omega arith, (refl, All-grown b r ws fs g.1 (omega arith) l.1))
LeadsBy-grown (suc i) p b r (w ∷ ws) (f ∷ fs) g t l =
    let (q, le, k) = LeadsBy-grown i p b r ws fs g.1 (omega arith) l.1 in
    (q, le, (omega (arith, total_votes-LeAll ws fs g.1), k))

second_beaten-standard :
    (type : MultipleChoiceOptionType) (power r : ℕ) (others : List ℕ)
    → type ≡ standard
    → second_beaten type power (pos r) others ≡ some true
    → greatest_from 0 others + r < power
unfolding second_beaten beats ◌+ℤ◌
second_beaten-standard type power r [] s e = cc
second_beaten-standard type power r (w ∷ ws) s e = ground arith

-- Each choice carries the index at which it stands.
abbrev pub IsIndexed : ℕ → List CheckedMultipleChoiceOption → Type 0
IsIndexed k [] = Unit
IsIndexed k (c ∷ cs) = (c.index ≡ k) × IsIndexed (k + 1) cs

index_of_IsIndexed :
    (k i : ℕ) (choices : List CheckedMultipleChoiceOption) (c : CheckedMultipleChoiceOption)
    → IsIndexed k choices
    → get_elem? choices i ≡ some c
    → c.index ≡ k + i
index_of_IsIndexed k i [] c h e = cc
index_of_IsIndexed k zero (d ∷ ds) c h e =
    let same : d ≡ c = cc in subst (λ x. x.index ≡ k + 0) same (omega arith)
index_of_IsIndexed k (suc i) (d ∷ ds) c h e = omega (arith, index_of_IsIndexed (k + 1) i ds c h.1 e)

-- If the single winner is a standard choice of which `isChoiceUnbeatable` holds, where each choice
-- carries its index, then however the choices gain further votes within the total power, it is the
-- single winner of the outcome.
pub is_choice_unbeatable_sound :
    (choices : List CheckedMultipleChoiceOption) (total_power : ℕ) (weights final : List ℕ)
    (c : CheckedMultipleChoiceOption)
    → calculate_vote_result choices weights ≡ some (single_winner c)
    → IsIndexed 0 choices
    → c.option_type ≡ standard
    → is_choice_unbeatable total_power weights c ≡ some true
    → LeAll weights final
    → total_votes final ≤ total_power
    → calculate_vote_result choices final ≡ some (single_winner c)
unfolding is_choice_unbeatable
is_choice_unbeatable_sound choices total_power weights final c won own std unbeatable grown within =
    let (i, m, l, chosen) = calculate_vote_result-Leads choices weights c won in
    let at : c.index ≡ i = omega (arith, index_of_IsIndexed 0 i choices c own chosen) in
    let power : get_elem? weights c.index ≡ some m = rw at (get_elem?-Leads i m weights l) in
    let r = total_power - total_votes weights in
    let le = total_votes-LeAll weights final grown in
    let remaining : sub_ℕ total_power (total_votes weights) ≡ pos r =
      sub_ℕ_of_le total_power (total_votes weights) (omega arith) in
    let others = filter (λ w. ltb w m) weights in
    let second = greatest_from 0 others in
    let beaten : second + r < m =
      second_beaten-standard c.option_type m r others std (rw (power, remaining) at unbeatable) in
    let by =
      Leads-LeadsBy i m second weights (Below-filter m second weights (greatest_from-ge 0 others).1)
        l in
    let (q, more, k) = LeadsBy-grown i m second r weights final grown (omega arith) by in
    Leads-calculate_vote_result choices final c i q
      (LeadsBy-Leads i q (second + r) final (omega arith) k) chosen
