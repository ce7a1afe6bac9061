-- ===== src/Formulas/Compute/Pointwise.antt =====
-- src/formulas/compute.ts: `computeRange` against `compute` at each block of the range.
use mathlib.Core.Path.{subst}
use dao_dao_indexer.Prelude.{
  ℕ, zero, suc, ◌+◌, ◌-◌, ◌<◌, ◌≤◌, ◌≡◌, refl, sym, ap, ◌∙◌, Bool, true, false, List, [], Option,
  none, some, leb, Bool-cases, inl, inr, arith, All, All-weaken,
}
use dao_dao_indexer.Prelude.Text.{lookup}
use dao_dao_indexer.Formulas.Events.{Block, Event, EventCache}
use dao_dao_indexer.Formulas.Events.Latest.{IsAscending}
use dao_dao_indexer.Formulas.Compute.{
  Formula, ComputationOutput, RangeState, initial_block, new_run, new_range, compute, compute_block,
  compute_range_from, compute_range,
}
use dao_dao_indexer.Formulas.Compute.Runs.{
  IsCurrent, newest, eval, keys_read, rows_read, run_formula-IsRunOf,
}
use dao_dao_indexer.Formulas.Compute.Steps.{new_range-IsLoadedFor}
use dao_dao_indexer.Formulas.Compute.Between.{IsBefore}
use dao_dao_indexer.Formulas.Compute.Results.{value_at}
use dao_dao_indexer.Formulas.Compute.Valid.{IsValid, IsCovered}
use dao_dao_indexer.Formulas.Compute.Body.{IsReady, IsDone, compute_block-IsDone}

pub []-IsCurrent : {Row : Type 0} (rows : List (Event Row)) (height : ℕ) → IsCurrent rows height []
unfolding lookup
[]-IsCurrent rows height key = inl refl

module _ {Row V : Type 0} (is_deleted : Row → Bool) (rows : List (Event Row)) where
  run_output : Option Block → ℕ → Formula Row V → ComputationOutput V
  run_output latest height p = record {
    block = newest latest (rows_read rows is_deleted height p);
    value = eval rows is_deleted height p;
    dependent_keys = keys_read rows is_deleted height p;
    latest_block_height_valid = none;
  }

  compute-run_output :
      (formula : Block → Formula Row V) (dynamic : Bool) (block : Block) (cache : EventCache Row)
      → IsCurrent rows block.height cache
      → compute is_deleted rows formula dynamic block cache
        ≡ run_output (initial_block dynamic block) block.height (formula block)
  unfolding compute run_output
  compute-run_output formula dynamic block cache h =
      let ran =
        run_formula-IsRunOf rows is_deleted block.height (formula block)
          (new_run dynamic block cache) h in
      rw (ran.value, ran.keys, ran.latest) refl

  -- A computation with a cache that says of the block what the database says has the output of one
  -- with an empty cache: the value, the block and the dependent keys.
  pub compute-IsCurrent :
      (formula : Block → Formula Row V) (dynamic : Bool) (block : Block) (cache : EventCache Row)
      → IsCurrent rows block.height cache
      → compute is_deleted rows formula dynamic block cache
        ≡ compute is_deleted rows formula dynamic block []
  compute-IsCurrent formula dynamic block cache h =
      compute-run_output formula dynamic block cache h
      ∙ sym (compute-run_output formula dynamic block [] ([]-IsCurrent rows block.height))

module _ {Row V : Type 0} (is_deleted : Row → Bool) (rows : List (Event Row))
    (p : Formula Row V) where
  compute-value :
      (block : Block)
      → (compute is_deleted rows (λ b. p) false block []).value
        ≡ eval rows is_deleted block.height p
  unfolding run_output
  compute-value block =
      ap (λ o. o.value)
        (compute-run_output is_deleted rows (λ b. p) false block []
          ([]-IsCurrent rows block.height))

  module _ (rows_ascend : IsAscending rows) (block_end : Block) (start height : ℕ)
      (from : start ≤ height) (to : height ≤ block_end.height) where
    abbrev IsRight : List (ComputationOutput V) → Type 0
    IsRight results =
        (value_at height results ≡ some (eval rows is_deleted height p))
        × All (IsValid start (λ n. eval rows is_deleted n p)) results

    -- At a block after the end, or with no next block, the loop stops.
    compute_range_from-stops :
        (fuel : ℕ) (next : Option Block) (s : RangeState Row V)
        → IsBefore block_end.height next
        → compute_range_from is_deleted rows (λ b. p) false block_end fuel next s ≡ s.results
    unfolding compute_range_from
    compute_range_from-stops zero next s h = refl
    compute_range_from-stops (suc fuel) none s h = refl
    compute_range_from-stops (suc fuel) (some b) s h =
        let over : leb b.height block_end.height ≡ false = ground arith in
        rw (over, compute_range_from) refl

    done-IsRight :
        (fuel : ℕ) (current : Block) (next : Option Block) (s : RangeState Row V)
        → ((b : Block) (s' : RangeState Row V)
            → block_end.height < b.height + fuel
            → b.height ≤ block_end.height
            → IsReady is_deleted rows p block_end start b s'
            → IsRight
                (compute_range_from is_deleted rows (λ b. p) false block_end fuel (some b) s'))
        → block_end.height < current.height + suc fuel
        → IsDone is_deleted rows p block_end start current next s
        → IsRight (compute_range_from is_deleted rows (λ b. p) false block_end fuel next s)
    done-IsRight fuel current none s go enough d =
        subst IsRight (sym (compute_range_from-stops fuel none s tt))
          (d.values height from to tt, d.valid)
    done-IsRight fuel current (some b) s go enough d =
        elim (Bool-cases (leb b.height block_end.height)) [
          | inl inside ↦
              go b s (omega (arith, enough, d.later)) (ground arith) (d.ready b refl (ground arith))
          | inr over ↦
              let past : block_end.height < b.height = ground arith in
              subst IsRight (sym (compute_range_from-stops fuel (some b) s past))
                (d.values height from to (omega (arith, to, past)), d.valid)
        ]

    compute_range_from-IsRight :
        (fuel : ℕ) (current : Block) (s : RangeState Row V)
        → block_end.height < current.height + fuel
        → current.height ≤ block_end.height
        → IsReady is_deleted rows p block_end start current s
        → IsRight
            (compute_range_from is_deleted rows (λ b. p) false block_end fuel (some current) s)
    unfolding compute_range_from
    compute_range_from-IsRight zero current s enough within r = absurd (omega (arith, enough))
    compute_range_from-IsRight (suc fuel) current s enough within r =
        let inside : leb current.height block_end.height ≡ true = ground arith in
        let result = compute_block is_deleted rows (λ b. p) false block_end current s in
        let done =
          compute_block-IsDone is_deleted rows p block_end start rows_ascend current s r within in
        rw (inside, compute_range_from)
          (done-IsRight fuel current result.1 result.0 (compute_range_from-IsRight fuel) enough
            done)

  compute_range-IsRight :
      (block_start block_end : Block) (height : ℕ) (ascend : IsAscending rows)
      (from : block_start.height ≤ height) (to : height ≤ block_end.height)
      → IsRight ascend block_end block_start.height height from to
          (compute_range is_deleted rows (λ b. p) false block_start block_end)
  unfolding compute_range
  compute_range-IsRight block_start block_end height ascend from to =
      compute_range_from-IsRight ascend block_end block_start.height height from to
        (block_end.height - block_start.height + 2) block_start new_range (omega (arith, from, to))
        (omega (arith, from, to))
        (record {
          loaded = new_range-IsLoadedFor rows block_start.height block_end.height;
          begun = tt;
          values = λ n first before within. absurd (omega (arith, first, before));
          valid = tt;
          due = inl (refl, omega arith);
        })

  -- At each block of the range, the last result that does not start after the block has the value
  -- that `compute` has at the block, with an empty cache. (The rows of the database ascend by block,
  -- and the formula is not dynamic and does not depend on the block.)
  pub compute_range-compute :
      (block_start block_end block : Block)
      → IsAscending rows
      → block_start.height ≤ block.height
      → block.height ≤ block_end.height
      → value_at block.height (compute_range is_deleted rows (λ b. p) false block_start block_end)
        ≡ some (compute is_deleted rows (λ b. p) false block []).value
  compute_range-compute block_start block_end block ascend from to =
      (compute_range-IsRight block_start block_end block.height ascend from to).0
      ∙ ap some (sym (compute-value block))

  -- Each result of a range is valid in the interval that is stored with it, from its block to its
  -- `latestBlockHeightValid`: at each block there from the start of the range on, `compute` has its
  -- value. (The rows of the database ascend by block, the range is not empty, and the formula is not
  -- dynamic and does not depend on the block.)
  pub compute_range-IsValid :
      (block_start block_end : Block)
      → IsAscending rows
      → block_start.height ≤ block_end.height
      → All
          (λ r.
            (block : Block)
            → block_start.height ≤ block.height
            → IsCovered block.height r
            → r.value ≡ (compute is_deleted rows (λ b. p) false block []).value)
          (compute_range is_deleted rows (λ b. p) false block_start block_end)
  compute_range-IsValid block_start block_end ascend le =
      All-weaken (IsValid block_start.height (λ n. eval rows is_deleted n p)) _
        (λ r valid block from covered. valid block.height from covered ∙ sym (compute-value block))
        (compute_range is_deleted rows (λ b. p) false block_start block_end)
        (compute_range-IsRight block_start block_end block_end.height ascend le (omega arith)).1
