-- ===== src/Computations/Revalidation.antt =====
-- src/db/models/Computation.ts, `revalidate`: a stored computation is computed again at its block.
--
-- What `compute` gives, with the error that it may throw, is an argument, as is the stored output;
-- null and undefined values are `none`. The text of a value by `JSON.stringify` and the deep equality
-- of lists of keys, `isEqual`, are parameters.
use mathlib.Core.Path.{subst}
use text.Mathlib.Text.{◌==◌}
use dao_dao_indexer.Prelude.{
  ℕ, ◌+◌, ◌≤◌, ◌≡◌, refl, sym, ap, ◌∙◌, Bool, true, false, not, ◌||◌, List, String, Option, none,
  some, if◌then◌else◌, Bool-cases, Option-cases, inl, inr, arith,
}
use dao_dao_indexer.Prelude as P
use dao_dao_indexer.Formulas.Events.{Block, DependentKey, Event}
use dao_dao_indexer.Formulas.Compute.{ComputationOutput}
use dao_dao_indexer.Computations.{Table, Computation, update_validity_up_to_block_height}
use dao_dao_indexer.Computations.Validity.{IsChecked, restart-IsChecked}

-- What becomes of the stored computation.
pub data Revalidated (V : Type 0) : Type 0 where
  destroyed : Revalidated V
  replaced : ComputationOutput V → Revalidated V
  kept : Computation → Revalidated V

abbrev same_output : Option String → Option String → Bool
same_output none none = true
same_output none (some b) = false
same_output (some a) none = false
same_output (some a) (some b) = a == b

-- No block is -1.
abbrev same_height : Option Block → ℕ → Bool
same_height none height = false
same_height (some block) height = P.◌==◌ block.height height

module _ {Row V : Type 0} (matches : DependentKey → Event Row → Bool) (stringify : V → String)
    (is_equal : List DependentKey → List DependentKey → Bool) where
  abbrev get_output_for_value : Option V → Option String
  get_output_for_value none = none
  get_output_for_value (some value) = some (stringify value)

  abbrev pub is_changed : Option String → ComputationOutput (Option V) → Computation → Bool
  is_changed output computation c =
      not (same_output (get_output_for_value computation.value) output)
      || (not (same_height computation.block c.block_height)
          || not (is_equal computation.dependent_keys c.dependencies))

  -- The end of `revalidate`, if the computation is the same.
  abbrev check_again : List (Table Row) → Computation → Bool × Revalidated (Option V)
  check_again tables c =
      if c.validity_extendable
      then (let (valid, c') =
            update_validity_up_to_block_height matches tables c.latest_block_height_valid
              (some c.block_height) c in
          (valid, kept c'))
      else (true, kept c)

  unfoldable pub revalidate :
      List (Table Row)
      → Option String
      → Option (ComputationOutput (Option V))
      → Computation
      → Bool × Revalidated (Option V)
  revalidate tables output none c = (false, destroyed)
  revalidate tables output (some computation) c =
      if is_changed output computation c
      then (false, replaced computation)
      else check_again tables c

  -- A computation that is found to be the same, and whose validity is extendable, is kept, with what
  -- a check from its block on leaves: it is right, and true is returned if and only if no dependency
  -- has an event after its block up to what was its latest valid block. (That is not before its
  -- block.)
  pub revalidate-IsChecked :
      (tables : List (Table Row)) (output : Option String)
      (computation : ComputationOutput (Option V)) (c : Computation)
      → is_changed output computation c ≡ false
      → c.validity_extendable ≡ true
      → c.block_height ≤ c.latest_block_height_valid
      → (c' : Computation) × ((revalidate tables output (some computation) c).1 ≡ kept c')
        × IsChecked matches tables c c.latest_block_height_valid
            ((revalidate tables output (some computation) c).0, c')
  unfolding revalidate
  revalidate-IsChecked tables output computation c same extendable le =
      let updated =
        update_validity_up_to_block_height matches tables c.latest_block_height_valid
          (some c.block_height) c in
      let shape : revalidate tables output (some computation) c ≡ (updated.0, kept updated.1) =
        simp (same, extendable) in
      (
        updated.1,
        ap (λ r. r.1) shape,
        subst (λ b. IsChecked matches tables c c.latest_block_height_valid (b, updated.1))
            (sym (ap (λ r. r.0) shape))
            (restart-IsChecked matches tables c c.latest_block_height_valid c.block_height
              extendable le (omega arith)),
      )
