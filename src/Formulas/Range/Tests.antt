-- ===== src/Formulas/Range/Tests.antt =====
-- A range of src/formulas/utils.ts, processComputationRange.
use dao_dao_indexer.Prelude.{ℕ, ◌*◌, ◌≡◌, List, [], ◌∷◌, none, some, arith}
use dao_dao_indexer.Formulas.Events.{Block}
use dao_dao_indexer.Formulas.Range.{Output, process_computation_range}
use dao_dao_indexer.Formulas.Range.Samples.{
  grid, samples, process_computation_range-samples, process_computation_range-samples_times,
}

abbrev block_at : ℕ → Block
block_at n = record { height = n; time_unix_ms = n * 10 }

abbrev output_at : ℕ → Output ℕ
output_at n = record { value = n; block = some (block_at n) }

abbrev outputs : List (Output ℕ)
outputs = output_at 2 ∷ output_at 5 ∷ output_at 6 ∷ []

process_computation_range_example :
    process_computation_range outputs (some 3) none (block_at 1, block_at 9) none
    ≡ samples (λ b. b.height) outputs (grid 1 3 3 9)
process_computation_range_example =
    process_computation_range-samples outputs 3 none (block_at 1, block_at 9) none 3
      ((omega arith, (omega arith, tt)), ((omega arith, tt), (tt, tt))) (omega arith)
      (omega arith, omega arith, omega arith)

process_computation_range_times_example :
    process_computation_range outputs none (some 30) (block_at 1, block_at 9) (some (10, none))
    ≡ samples (λ b. b.time_unix_ms) outputs (grid 10 30 3 90)
process_computation_range_times_example =
    process_computation_range-samples_times outputs 30 (block_at 1, block_at 9) 10 none 3
      ((omega arith, (omega arith, tt)), ((omega arith, tt), (tt, tt))) (omega arith)
      (omega arith, omega arith, omega arith)
