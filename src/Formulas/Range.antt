-- ===== src/Formulas/Range.antt =====
-- src/formulas/utils.ts, processComputationRange: the outputs of a range computation, sampled at the
-- blocks or the times of a step. Heights and times are bigints that are not negative; the loop
-- counter `at` is kept as a number where the code keeps its text. A missing step or pair of times
-- is `none`, and a step of 0, which is falsy, is not a step.
pub mod Passes
pub mod Samples
pub mod Tests
use dao_dao_indexer.Prelude.{
  ℕ, zero, suc, ◌+◌, ◌-◌, Bool, true, false, ◌&&◌, List, [], ◌∷◌, ◌++◌, map, length, drop,
  find_index, Option, none, some, ltb, leb, ◌==◌, if◌then◌else◌,
}
use dao_dao_indexer.Prelude.Int.{ℤ, pos, negsuc}
use dao_dao_indexer.Formulas.Events.{Block}

-- A computation's value, with the latest block it read, if it read any.
pub record Output {ℓ} (V : Type ℓ) : Type ℓ where
  pub value : V
  pub block : Option Block

pub record Processed {ℓ} (V : Type ℓ) : Type ℓ where
  pub at : Option ℕ
  pub value : V
  pub block_height : ℤ
  pub block_time_unix_ms : ℤ

abbrev or_minus_one : (Block → ℕ) → Option Block → ℤ
or_minus_one key none = negsuc 0
or_minus_one key (some b) = pos (key b)

-- The counter after a pass.
unfoldable pub next_point : ℕ → ℕ → ℕ → ℕ
next_point end_point step at =
    if at == end_point then at + 1 else if ltb end_point (at + step) then end_point else at + step

abbrev is_every : Option ℕ → Bool
is_every none = true
is_every (some step) = step == 1

module _ {ℓ} {V : Type ℓ} where
  abbrev pub processed : Option ℕ → Output V → Processed V
  processed at o = record {
    at = at;
    value = o.value;
    block_height = or_minus_one (λ b. b.height) o.block;
    block_time_unix_ms = or_minus_one (λ b. b.time_unix_ms) o.block;
  }

  -- `(c.block?.height ?? -1) > at`, or the same of the time.
  unfoldable pub is_after_point : (Block → ℕ) → ℕ → Output V → Bool
  is_after_point key at o = elim o.block [ none ↦ false | some b ↦ ltb at (key b) ]

  -- The index of the first output after the point, or the number of outputs.
  unfoldable pub index_after : (Block → ℕ) → ℕ → List (Output V) → ℕ
  index_after key at outputs = elim (find_index (is_after_point key at) outputs) [
    | none ↦ length outputs
    | some i ↦ i
  ]

  unfoldable pub push_first : ℕ → List (Output V) → List (Processed V)
  push_first at [] = []
  push_first at (o ∷ rest) = processed (some at) o ∷ []

  -- One pass of the loop's body: what is pushed, and `outputs` after the `splice`, whose first
  -- item is the `outputs[index - 1]` of before.
  unfoldable pub sample_from : ℕ → ℕ → List (Output V) → List (Processed V) × List (Output V)
  unfolding push_first
  sample_from at zero outputs = ([], outputs)
  sample_from at (suc i) outputs = (push_first at (drop i outputs), drop i outputs)

  unfoldable pub step_loop :
      (Block → ℕ) → ℕ → ℕ → (fuel : ℕ) → ℕ → List (Output V) → List (Processed V)
  unfolding index_after sample_from next_point
  step_loop key end_point step zero at outputs = []
  step_loop key end_point step (suc fuel) at outputs = elim (leb at end_point) [
    | true ↦
        let pass = sample_from at (index_after key at outputs) outputs in
        pass.0 ++ step_loop key end_point step fuel (next_point end_point step at) pass.1
    | false ↦ []
  ]

  -- The counter rises by at least one in a pass, from a start that is not below 0.
  unfoldable pub sample_by : (Block → ℕ) → ℕ → ℕ → ℕ → List (Output V) → List (Processed V)
  unfolding step_loop
  sample_by key start end_point step outputs =
      step_loop key end_point step (end_point - start + 2) start outputs

  unfoldable pub sample_times :
      Option ℕ → Option (ℕ × Option ℕ) → Block × Block → List (Output V) → List (Processed V)
  unfolding sample_by
  sample_times (some (suc step)) (some (start, some end_point)) blocks outputs =
      sample_by (λ b. b.time_unix_ms) start end_point (suc step) outputs
  sample_times (some (suc step)) (some (start, none)) blocks outputs =
      sample_by (λ b. b.time_unix_ms) start (blocks.1).time_unix_ms (suc step) outputs
  sample_times step times blocks outputs = []

  unfoldable pub sample_blocks :
      Option ℕ
      → Option ℕ
      → Option (ℕ × Option ℕ)
      → Block × Block
      → List (Output V)
      → List (Processed V)
  unfolding sample_by sample_times
  sample_blocks (some (suc step)) time_step times blocks outputs =
      sample_by (λ b. b.height) (blocks.0).height (blocks.1).height (suc step) outputs
  sample_blocks block_step time_step times blocks outputs =
      sample_times time_step times blocks outputs

  unfoldable pub process_computation_range :
      List (Output V)
      → Option ℕ
      → Option ℕ
      → Block × Block
      → Option (ℕ × Option ℕ)
      → List (Processed V)
  unfolding sample_blocks
  process_computation_range outputs block_step time_step blocks times =
      if is_every block_step && is_every time_step
      then map (processed none) outputs
      else sample_blocks block_step time_step times blocks outputs
