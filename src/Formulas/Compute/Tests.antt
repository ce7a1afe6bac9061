-- ===== src/Formulas/Compute/Tests.antt =====
-- Concrete computations of src/formulas/compute.ts: rows of two keys, and a formula that reads the
-- second one only while the first one is unset.
use dao_dao_indexer.Prelude.{
  ℕ, ◌≤◌, ◌≡◌, refl, Bool, true, false, List, [], ◌∷◌, map, String, Option, none, some, ◌==◌, arith,
  All,
}
use dao_dao_indexer.Prelude.Int.{pos}
use dao_dao_indexer.Prelude.Text.{lookup, insert}
use dao_dao_indexer.Formulas.Events.{Block, Event, EventCache}
use dao_dao_indexer.Formulas.Events.Latest.{IsAscending}
use dao_dao_indexer.Formulas.Compute.{
  Formula, returns, gets, exact, entry_for, find_one, ComputationOutput, dependent_key_matches,
  compute, compute_range,
}
use dao_dao_indexer.Formulas.Compute.Runs.{IsCurrent, insert-IsCurrent}
use dao_dao_indexer.Formulas.Compute.Results.{value_at}
use dao_dao_indexer.Formulas.Compute.Valid.{IsCovered}
use dao_dao_indexer.Formulas.Compute.Pointwise.{
  []-IsCurrent, compute-IsCurrent, compute_range-compute, compute_range-IsValid,
}

abbrev at_height : ℕ → Block
at_height n = record { height = n; time_unix_ms = n }

abbrev row_of : String → ℕ → ℕ → Event ℕ
row_of key n row = record { dependent_key = key; block = at_height n; row = row }

-- A row of 0 is a deletion.
abbrev is_zero : ℕ → Bool
is_zero n = n == 0

abbrev rows : List (Event ℕ)
rows = row_of "b" 2 5 ∷ row_of "a" 4 7 ∷ row_of "b" 5 6 ∷ row_of "a" 6 0 ∷ []

abbrev or_b : Option (Event ℕ) → Formula ℕ ℕ
or_b none = gets "b" (λ b. elim b [ none ↦ returns 0 | some event ↦ returns event.row ])
or_b (some event) = returns event.row

abbrev formula : Formula ℕ ℕ
formula = gets "a" or_b

abbrev outputs : List (ComputationOutput ℕ)
outputs = compute_range is_zero rows (λ b. formula) false (at_height 3) (at_height 8)

abbrev output : ℕ → ℕ → List String → ℕ → ComputationOutput ℕ
output n value keys last = record {
  block = some (at_height n);
  value = value;
  dependent_keys = map exact keys;
  latest_block_height_valid = some (pos last);
}

-- While the first key is set, a row of the second one makes no result; after it is deleted, the
-- newest block is that of the deletion.
outputs_value :
    outputs
    ≡ output 2 5 ("a" ∷ "b" ∷ []) 3 ∷ output 4 7 ("a" ∷ []) 5 ∷ output 6 6 ("a" ∷ "b" ∷ []) 6 ∷ []
unfolding compute_range lookup insert dependent_key_matches
outputs_value = refl

rows-IsAscending : IsAscending rows
rows-IsAscending = (
  (omega arith, (omega arith, (omega arith, tt))),
  ((omega arith, (omega arith, tt)), ((omega arith, tt), (tt, tt))),
)

compute_range-compute_example :
    value_at 5 outputs ≡ some (compute is_zero rows (λ b. formula) false (at_height 5) []).value
compute_range-compute_example =
    compute_range-compute is_zero rows formula (at_height 3) (at_height 8) (at_height 5)
      rows-IsAscending (omega arith) (omega arith)

abbrev cache : EventCache ℕ
cache = insert "b" (entry_for (find_one rows "b" 7)) []

cache-IsCurrent : IsCurrent rows 7 cache
cache-IsCurrent = insert-IsCurrent rows 7 "b" [] (find_one rows "b" 7) refl ([]-IsCurrent rows 7)

compute-IsCurrent_example :
    compute is_zero rows (λ b. formula) true (at_height 7) cache
    ≡ compute is_zero rows (λ b. formula) true (at_height 7) []
compute-IsCurrent_example =
    compute-IsCurrent is_zero rows (λ b. formula) true (at_height 7) cache cache-IsCurrent

compute_range-IsValid_example :
    All
      (λ r.
        (block : Block)
        → 3 ≤ block.height
        → IsCovered block.height r
        → r.value ≡ (compute is_zero rows (λ b. formula) false block []).value)
      outputs
compute_range-IsValid_example =
    compute_range-IsValid is_zero rows formula (at_height 3) (at_height 8) rows-IsAscending
      (omega arith)
