-- ===== src/Governance/Multiple/Leaders.antt =====
-- The choice that `calculateVoteResult` finds is the one whose weight is greater than all others.
use mathlib.Core.Path.{subst}
use dao_dao_indexer.Prelude.{
  ℕ, zero, suc, ◌+◌, ◌≤◌, ◌<◌, ◌≡◌, refl, ap, ◌∙◌, true, false, List, [], ◌∷◌, none, some,
  get_elem?, ltb, ◌==◌, ==_iff, if◌then◌else◌, Bool-cases, Option-cases, inl, inr, arith, All,
}
use dao_dao_indexer.Governance.Multiple.{
  CheckedMultipleChoiceOption, single_winner, greatest_from, top_choices, winner_of,
  calculate_vote_result,
}

-- The weight at the index is p, and the other weights are less.
abbrev pub Leads : ℕ → ℕ → List ℕ → Type 0
Leads i p [] = ⊥
Leads zero p (w ∷ ws) = (w ≡ p) × All (λ x. x < p) ws
Leads (suc i) p (w ∷ ws) = (w < p) × Leads i p ws

pub All-le_trans : (a b : ℕ) (ws : List ℕ) → a ≤ b → All (λ x. x ≤ a) ws → All (λ x. x ≤ b) ws
All-le_trans a b [] h k = tt
All-le_trans a b (w ∷ ws) h k = (omega arith, All-le_trans a b ws h k.1)

pub All-lt_of_le : (a b : ℕ) (ws : List ℕ) → a < b → All (λ x. x ≤ a) ws → All (λ x. x < b) ws
All-lt_of_le a b [] h k = tt
All-lt_of_le a b (w ∷ ws) h k = (omega arith, All-lt_of_le a b ws h k.1)

pub greatest_from-ge :
    (acc : ℕ) (ws : List ℕ) → (acc ≤ greatest_from acc ws) × All (λ x. x ≤ greatest_from acc ws) ws
unfolding greatest_from
greatest_from-ge acc [] = (omega arith, tt)
greatest_from-ge acc (w ∷ ws) =
    let (a, b) = greatest_from-ge (if ltb acc w then w else acc) ws in
    (ground arith, (ground arith, b))

greatest_from_self : (m : ℕ) (ws : List ℕ) → All (λ x. x < m) ws → greatest_from m ws ≡ m
unfolding greatest_from
greatest_from_self m [] h = refl
greatest_from_self m (w ∷ ws) h =
    let e : ltb m w ≡ false = ground arith in rw e (greatest_from_self m ws h.1)

pub greatest_from-Leads :
    (i m acc : ℕ) (ws : List ℕ) → acc ≤ m → Leads i m ws → greatest_from acc ws ≡ m
unfolding greatest_from
greatest_from-Leads i m acc [] h l = absurd l
greatest_from-Leads zero m acc (w ∷ ws) h l =
    let e : (if ltb acc w then w else acc) ≡ m = ground arith in
    ap (λ a. greatest_from a ws) e ∙ greatest_from_self m ws l.1
greatest_from-Leads (suc i) m acc (w ∷ ws) h l =
    greatest_from-Leads i m (if ltb acc w then w else acc) ws (ground arith) l.1

top_choices-none : (k m : ℕ) (ws : List ℕ) → All (λ x. x < m) ws → top_choices k m ws ≡ []
unfolding top_choices
top_choices-none k m [] h = refl
top_choices-none k m (w ∷ ws) h =
    let e : (w == m) ≡ false = ground arith in rw e (top_choices-none (k + 1) m ws h.1)

none-top_choices :
    (k m : ℕ) (ws : List ℕ) → All (λ x. x ≤ m) ws → top_choices k m ws ≡ [] → All (λ x. x < m) ws
unfolding top_choices
none-top_choices k m [] h e = tt
none-top_choices k m (w ∷ ws) h e = elim (Bool-cases (w == m)) [
  | inl same ↦ cc (let x : k ∷ top_choices (k + 1) m ws ≡ [] = rw same at e in x)
  | inr other ↦ (ground arith, none-top_choices (k + 1) m ws h.1 (rw other at e))
]

pub top_choices-Leads : (k i m : ℕ) (ws : List ℕ) → Leads i m ws → top_choices k m ws ≡ (k + i) ∷ []
unfolding top_choices
top_choices-Leads k i m [] l = absurd l
top_choices-Leads k zero m (w ∷ ws) l =
    let e : (w == m) ≡ true = ground arith in
    rw (e, top_choices-none (k + 1) m ws l.1) (ap (λ j. j ∷ []) (omega arith))
top_choices-Leads k (suc i) m (w ∷ ws) l =
    let e : (w == m) ≡ false = ground arith in
    rw (e, top_choices-Leads (k + 1) i m ws l.1) (ap (λ j. j ∷ []) (omega arith))

pub Leads-top_choices :
    (k m t : ℕ) (ws : List ℕ)
    → All (λ x. x ≤ m) ws
    → top_choices k m ws ≡ t ∷ []
    → (i : ℕ) × (t ≡ k + i) × Leads i m ws
unfolding top_choices
Leads-top_choices k m t [] h e = cc
Leads-top_choices k m t (w ∷ ws) h e = elim (Bool-cases (w == m)) [
  | inl same ↦
      let x : k ∷ top_choices (k + 1) m ws ≡ t ∷ [] = rw same at e in
      let empty : top_choices (k + 1) m ws ≡ [] = cc in
      let first : k ≡ t = cc in
      (0, omega arith, ((==_iff w m).0 same, none-top_choices (k + 1) m ws h.1 empty))
  | inr other ↦
      let (i, a, b) = Leads-top_choices (k + 1) m t ws h.1 (rw other at e) in
      (suc i, omega arith, (ground arith, b))
]

pub get_elem?-Leads : (i m : ℕ) (ws : List ℕ) → Leads i m ws → get_elem? ws i ≡ some m
get_elem?-Leads i m [] l = absurd l
get_elem?-Leads zero m (w ∷ ws) l = ap some l.0
get_elem?-Leads (suc i) m (w ∷ ws) l = get_elem?-Leads i m ws l.1

winner_of-single :
    (choices : List CheckedMultipleChoiceOption) (top : List ℕ) (c : CheckedMultipleChoiceOption)
    → winner_of choices top ≡ some (single_winner c)
    → (t : ℕ) × (top ≡ t ∷ []) × (get_elem? choices t ≡ some c)
unfolding winner_of
winner_of-single choices [] c e = cc
winner_of-single choices (t ∷ []) c e = elim (Option-cases (get_elem? choices t)) [
  | inl a ↦ cc (let x : none ≡ some (single_winner c) = rw a at e in x)
  | inr (d, a) ↦
      let x : some (single_winner d) ≡ some (single_winner c) = rw a at e in
      let same : d ≡ c = cc in (t, refl, a ∙ ap some same)
]
winner_of-single choices (t ∷ u ∷ rest) c e = cc

winner_of-one :
    (choices : List CheckedMultipleChoiceOption) (i : ℕ) (c : CheckedMultipleChoiceOption)
    → get_elem? choices i ≡ some c
    → winner_of choices (i ∷ []) ≡ some (single_winner c)
unfolding winner_of
winner_of-one choices i c e = rw e refl

-- A single winner is the choice at an index whose weight is greater than all others.
pub calculate_vote_result-Leads :
    (choices : List CheckedMultipleChoiceOption) (ws : List ℕ) (c : CheckedMultipleChoiceOption)
    → calculate_vote_result choices ws ≡ some (single_winner c)
    → (i : ℕ) × (m : ℕ) × Leads i m ws × (get_elem? choices i ≡ some c)
unfolding calculate_vote_result
calculate_vote_result-Leads choices [] c e = cc
calculate_vote_result-Leads choices (w ∷ ws) c e =
    let m = greatest_from 0 (w ∷ ws) in
    let (t, found, chosen) = winner_of-single choices (top_choices 0 m (w ∷ ws)) c e in
    let (i, a, l) = Leads-top_choices 0 m t (w ∷ ws) (greatest_from-ge 0 (w ∷ ws)).1 found in
    let same : t ≡ i = omega arith in
    (i, m, l, subst (λ j. get_elem? choices j ≡ some c) same chosen)

-- A choice whose weight is greater than all others is the single winner.
pub Leads-calculate_vote_result :
    (choices : List CheckedMultipleChoiceOption) (ws : List ℕ) (c : CheckedMultipleChoiceOption)
    (i m : ℕ)
    → Leads i m ws
    → get_elem? choices i ≡ some c
    → calculate_vote_result choices ws ≡ some (single_winner c)
unfolding calculate_vote_result
Leads-calculate_vote_result choices [] c i m l e = absurd l
Leads-calculate_vote_result choices (w ∷ ws) c i m l e =
    let top : top_choices 0 (greatest_from 0 (w ∷ ws)) (w ∷ ws) ≡ i ∷ [] =
      ap (λ n. top_choices 0 n (w ∷ ws)) (greatest_from-Leads i m 0 (w ∷ ws) (omega arith) l)
      ∙ top_choices-Leads 0 i m (w ∷ ws) l
      ∙ ap (λ j. j ∷ []) (omega arith) in
    ap (winner_of choices) top ∙ winner_of-one choices i c e
