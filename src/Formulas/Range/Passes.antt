-- ===== src/Formulas/Range/Passes.antt =====
-- One pass of the loops of src/formulas/utils.ts, processComputationRange: what it pushes and what
-- it leaves.
use dao_dao_indexer.Prelude.{
  ℕ, zero, suc, ◌≤◌, ◌<◌, ◌≡◌, refl, sym, ap, ◌∙◌, Bool, true, false, List, [], ◌∷◌, length,
  find_index, next_index, Option, none, some, ltb, ltb→lt, if◌then◌else◌, Bool-cases, Option-cases,
  inl, inr, All, arith,
}
use dao_dao_indexer.Formulas.Events.{Block}
use dao_dao_indexer.Formulas.Range.{
  Output, Processed, processed, is_after_point, index_after, push_first, sample_from,
}

first_or :
    (here : Bool) (rest : Option ℕ) (n : ℕ)
    → elim (if here then some 0 else next_index rest) [ none ↦ suc n | some i ↦ i ]
      ≡ (if here then 0 else suc (elim rest [ none ↦ n | some i ↦ i ]))
first_or true rest n = refl
first_or false none n = refl
first_or false (some i) n = refl

module _ {ℓ} {V : Type ℓ} where
  abbrev pub as_sample : ℕ → Option (Output V) → List (Processed V)
  as_sample at none = []
  as_sample at (some o) = processed (some at) o ∷ []

module _ {ℓ} {V : Type ℓ} (key : Block → ℕ) where
  -- The place of an output in the order: no block comes before every block.
  abbrev rank : Output V → ℕ
  rank o = elim o.block [ none ↦ 0 | some b ↦ suc (key b) ]

  -- In the order of their blocks.
  abbrev pub IsAscending : List (Output V) → Type ℓ
  IsAscending [] = Unit
  IsAscending (o ∷ os) = All (λ p. rank o ≤ rank p) os × IsAscending os

  after_rank : (at : ℕ) (o : Output V) → is_after_point key at o ≡ ltb (suc at) (rank o)
  unfolding is_after_point
  after_rank at o = elim o.block [ none ↦ ground arith | some b ↦ ground arith ]

  -- The last output in the list that is not after the point.
  unfoldable pub latest_output : ℕ → List (Output V) → Option (Output V)
  latest_output at [] = none
  latest_output at (o ∷ os) = elim (latest_output at os) [
    | some later ↦ some later
    | none ↦ if is_after_point key at o then none else some o
  ]

  index_cons :
      (at : ℕ) (o : Output V) (os : List (Output V))
      → index_after key at (o ∷ os)
        ≡ (if is_after_point key at o then 0 else suc (index_after key at os))
  unfolding index_after
  index_cons at o os =
      first_or (is_after_point key at o) (find_index (is_after_point key at) os) (length os)

  -- After an output that is later than the point, all are.
  none_from :
      (at : ℕ) (o : Output V) (os : List (Output V))
      → is_after_point key at o ≡ true
      → All (λ p. rank o ≤ rank p) os
      → latest_output at os ≡ none
  unfolding latest_output
  none_from at o [] a h = refl
  none_from at o (p ∷ os) a h =
      let above : suc at < rank o = ltb→lt _ _ (sym (after_rank at o) ∙ a) in
      let after : is_after_point key at p ≡ true = ground (arith, above, h.0, after_rank at p) in
      rw (none_from at o os a h.1, after) refl

  stays :
      (at later : ℕ) (o : Output V)
      → at ≤ later
      → is_after_point key at o ≡ false
      → is_after_point key later o ≡ false
  stays at later o le h = ground (arith, after_rank at o, after_rank later o)

  -- With no output at or before the point at the front, there is none.
  none_at_front :
      (at : ℕ) (os : List (Output V))
      → IsAscending os
      → index_after key at os ≡ 0
      → latest_output at os ≡ none
  unfolding latest_output
  none_at_front at [] h i = refl
  none_at_front at (o ∷ os) h i = elim (Bool-cases (is_after_point key at o)) [
    | inl a ↦ rw (none_from at o os a h.0, a) refl
    | inr a ↦
        absurd (cc (let k = sym (index_cons at o os) ∙ i in let l : suc _ ≡ 0 = rw a at k in l))
  ]

  -- An output before another that is not after the point is not the latest.
  latest_below :
      (at later : ℕ) (o p : Output V) (os : List (Output V))
      → at ≤ later
      → is_after_point key at p ≡ false
      → latest_output later (o ∷ p ∷ os) ≡ latest_output later (p ∷ os)
  unfolding latest_output
  latest_below at later o p os le a = elim (Option-cases (latest_output later os)) [
    | inl e ↦ rw (e, stays at later p le a) refl
    | inr (r, e) ↦ rw e refl
  ]

  latest_dropped :
      (at j : ℕ) (o : Output V) (os : List (Output V))
      → index_after key at os ≡ suc j
      → (later : ℕ) → at ≤ later
      → latest_output later (o ∷ os) ≡ latest_output later os
  unfolding index_after
  latest_dropped at j o [] i later le = absurd (cc i)
  latest_dropped at j o (p ∷ os) i later le = elim (Bool-cases (is_after_point key at p)) [
    | inl a ↦
        absurd (cc (let k = sym (index_cons at p os) ∙ i in let l : 0 ≡ suc j = rw a at k in l))
    | inr a ↦ latest_below at later o p os le a
  ]

  -- What a pass does with the index: it pushes the latest output at the point, and what it leaves
  -- has the same latest outputs from there on.
  unfoldable pub Pass : ℕ → List (Output V) → ℕ → Type ℓ
  Pass at outputs i =
      ((sample_from at i outputs).0 ≡ as_sample at (latest_output at outputs))
      × IsAscending (sample_from at i outputs).1
      × ((later : ℕ)
          → at ≤ later
          → latest_output later (sample_from at i outputs).1 ≡ latest_output later outputs)

  Pass-further :
      (at i : ℕ) (o : Output V) (os : List (Output V))
      → IsAscending (o ∷ os)
      → is_after_point key at o ≡ false
      → i ≡ index_after key at os
      → Pass at os i
      → Pass at (o ∷ os) (suc i)
  unfolding Pass sample_from push_first latest_output
  Pass-further at zero o os h a e p =
      let n = none_at_front at os h.1 (sym e) in rw (n, a) (refl, h, λ later le. refl)
  Pass-further at (suc i) o os h a e (here, order, later_same) =
      let dropped = latest_dropped at i o os (sym e) in
      (
        here ∙ ap (as_sample at) (sym (dropped at (omega arith))),
        order,
        λ later le. later_same later le ∙ sym (dropped later le),
      )

  pub pass_lem :
      (at : ℕ) (outputs : List (Output V))
      → IsAscending outputs
      → Pass at outputs (index_after key at outputs)
  unfolding Pass latest_output index_after sample_from
  pass_lem at [] h = (refl, tt, λ later le. refl)
  pass_lem at (o ∷ os) h = elim (Bool-cases (is_after_point key at o)) [
    | inl a ↦
        rw (index_cons at o os, a) (rw (none_from at o os a h.0, a) (refl, h, λ later le. refl))
    | inr a ↦
        rw (index_cons at o os, a)
          (Pass-further at (index_after key at os) o os h a refl (pass_lem at os h.1))
  ]
