-- ===== src/Formulas/Compute/Results.antt =====
-- The results that src/formulas/compute.ts, `computeRange`, stores: the value that they give at a
-- block, and how storing one changes it.
use mathlib.Core.Path.{subst}
use dao_dao_indexer.Prelude.{
  ℕ, ◌<◌, ◌≤◌, ◌≡◌, refl, sym, ap, ◌∙◌, Bool, true, false, List, [], ◌∷◌, ◌++◌, Option, none, some,
  ltb, if◌then◌else◌, Bool-cases, Option-cases, ◌⊎◌, inl, inr, arith, All,
}
use dao_dao_indexer.Prelude.Int.{pos}
use dao_dao_indexer.Formulas.Events.{Block, DependentKey}
use dao_dao_indexer.Formulas.Compute.{
  ComputationOutput, is_newer, last_result, close_last, store_result,
}
use dao_dao_indexer.Formulas.Compute.Quiet.{IsAt, IsNotLater}

-- No block is before all.
abbrev pub starts_after : ℕ → Option Block → Bool
starts_after height none = false
starts_after height (some block) = ltb height block.height

abbrev pub StartsBefore : ℕ → Option Block → Type 0
StartsBefore height none = Unit
StartsBefore height (some block) = block.height < height

StartsBefore-later :
    (height later : ℕ) (b : Option Block)
    → height ≤ later
    → StartsBefore height b
    → StartsBefore later b
StartsBefore-later height later none le h = tt
StartsBefore-later height later (some b) le h = omega arith

NotLater-StartsBefore :
    (height later : ℕ) (b : Option Block)
    → height < later
    → IsNotLater height b
    → StartsBefore later b
NotLater-StartsBefore height later none lt h = tt
NotLater-StartsBefore height later (some b) lt h = omega arith

module _ {V : Type 0} where
  abbrev or_value : Option V → Option V → Option V
  or_value none other = other
  or_value (some v) other = some v

  -- The value of the last result that does not start after the height.
  unfoldable pub value_at : ℕ → List (ComputationOutput V) → Option V
  value_at height [] = none
  value_at height (r ∷ results) =
      or_value (value_at height results)
        (if starts_after height r.block then none else some r.value)

  -- All results start before the height.
  abbrev pub AllBefore : ℕ → List (ComputationOutput V) → Type 0
  AllBefore height results = All (λ r. StartsBefore height r.block) results

  value_at-close_last :
      (height : ℕ) (dynamic : Bool) (latest : Option Block) (results : List (ComputationOutput V))
      → value_at height (close_last dynamic latest results) ≡ value_at height results
  unfolding value_at close_last
  value_at-close_last height dynamic latest [] = refl
  value_at-close_last height true latest (r ∷ results) = refl
  value_at-close_last height false none (r ∷ results) = refl
  value_at-close_last height false (some b) (r ∷ []) = refl
  value_at-close_last height false (some b) (r ∷ s ∷ results) =
      ap (λ v. or_value v (if starts_after height r.block then none else some r.value))
        (value_at-close_last height false (some b) (s ∷ results))

  AllBefore-close_last :
      (height : ℕ) (dynamic : Bool) (latest : Option Block) (results : List (ComputationOutput V))
      → AllBefore height results
      → AllBefore height (close_last dynamic latest results)
  unfolding close_last
  AllBefore-close_last height dynamic latest [] h = tt
  AllBefore-close_last height true latest (r ∷ results) h = h
  AllBefore-close_last height false none (r ∷ results) h = h
  AllBefore-close_last height false (some b) (r ∷ []) h = h
  AllBefore-close_last height false (some b) (r ∷ s ∷ results) h =
      (h.0, AllBefore-close_last height false (some b) (s ∷ results) h.1)

  value_at-append :
      (height : ℕ) (results : List (ComputationOutput V)) (r : ComputationOutput V)
      → value_at height (results ++ r ∷ [])
        ≡ (if starts_after height r.block then value_at height results else some r.value)
  unfolding value_at
  value_at-append height [] r = elim (Bool-cases (starts_after height r.block)) [
    | inl later ↦ rw later refl
    | inr now ↦ rw now refl
  ]
  value_at-append height (s ∷ results) r =
      let ih = value_at-append height results r in
      elim (Bool-cases (starts_after height r.block)) [
        | inl later ↦ rw (ih, later) refl
        | inr now ↦ rw (ih, now) refl
      ]

  AllBefore-later :
      (height later : ℕ) (results : List (ComputationOutput V))
      → height ≤ later
      → AllBefore height results
      → AllBefore later results
  AllBefore-later height later [] le h = tt
  AllBefore-later height later (r ∷ results) le h =
      (StartsBefore-later height later r.block le h.0, AllBefore-later height later results le h.1)

  AllBefore-append :
      (height : ℕ) (results : List (ComputationOutput V)) (r : ComputationOutput V)
      → AllBefore height results
      → StartsBefore height r.block
      → AllBefore height (results ++ r ∷ [])
  AllBefore-append height [] r h k = (k, tt)
  AllBefore-append height (s ∷ results) r h k = (h.0, AllBefore-append height results r h.1 k)

  some-injective : {r s : ComputationOutput V} → some r ≡ some s → r ≡ s
  some-injective h = cc

  last_result-All :
      (P : ComputationOutput V → Type 0) (results : List (ComputationOutput V))
      {r : ComputationOutput V}
      → All P results
      → last_result results ≡ some r
      → P r
  unfolding last_result
  last_result-All P [] h e = cc
  last_result-All P (s ∷ []) h e = subst P (some-injective e) h.0
  last_result-All P (s ∷ t ∷ results) h e = last_result-All P (t ∷ results) h.1 e

  -- A result of the block is newer than all that start before it.
  AllBefore-is_newer :
      (height : ℕ) (results : List (ComputationOutput V)) (latest : Option Block)
      → AllBefore height results
      → (results ≡ []) ⊎ IsAt height latest
      → is_newer (last_result results) latest ≡ true
  unfolding is_newer last_result
  AllBefore-is_newer height results latest h (inl empty) = rw (empty, last_result) refl
  AllBefore-is_newer height results none h (inr at) = absurd at
  AllBefore-is_newer height results (some b) h (inr at) =
      elim (Option-cases (last_result results)) [
        | inl none_yet ↦ rw none_yet refl
        | inr (r, last) ↦
            let before = last_result-All (λ r. StartsBefore height r.block) results h last in
            elim (Option-cases r.block) [
              | inl unset ↦ rw (last, unset) refl
              | inr (c, start) ↦
                  let lt : c.height < height = subst (StartsBefore height) start before in
                  rw (last, start) (ground (arith, at, lt))
            ]
      ]

  module _ (current : Block) (value : V) (latest : Option Block) (keys : List DependentKey)
      (results : List (ComputationOutput V)) (before : AllBefore current.height results)
      (fresh : (results ≡ []) ⊎ IsAt current.height latest) where
    abbrev stored_result : ComputationOutput V
    stored_result = record {
      block = latest;
      value = value;
      dependent_keys = keys;
      latest_block_height_valid = some (pos current.height);
    }

    abbrev after : List (ComputationOutput V)
    after = store_result false current value latest keys results

    pub after-append : after ≡ close_last false latest results ++ stored_result ∷ []
    unfolding store_result
    after-append = rw (AllBefore-is_newer current.height results latest before fresh) refl

    pub value_at-after :
        (height : ℕ)
        → value_at height after
          ≡ (if starts_after height latest then value_at height results else some value)
    value_at-after height =
        ap (value_at height) after-append
        ∙ value_at-append height (close_last false latest results) stored_result
        ∙ ap (λ v. if starts_after height latest then v else some value)
            (value_at-close_last height false latest results)

    pub AllBefore-after :
        (later : ℕ)
        → current.height < later
        → IsNotLater current.height latest
        → AllBefore later after
    AllBefore-after later lt not_later = subst (AllBefore later) (sym after-append) (
        AllBefore-append later (close_last false latest results) stored_result
          (AllBefore-close_last later false latest results
            (AllBefore-later current.height later results (omega (arith, lt)) before))
          (NotLater-StartsBefore current.height later latest lt not_later))
