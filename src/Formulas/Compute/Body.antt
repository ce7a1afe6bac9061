-- ===== src/Formulas/Compute/Body.antt =====
-- The body of the loop of src/formulas/compute.ts, `computeRange`, in terms of what the formula
-- reads and returns.
use mathlib.Core.Path.{subst}
use dao_dao_indexer.Prelude.{
  ℕ, ◌<◌, ◌≤◌, ◌≡◌, refl, sym, ap, ◌∙◌, Bool, true, false, List, [], ◌++◌, String, Option, none,
  some, Bool-cases, ◌⊎◌, inl, inr, arith, All, ltb,
}
use dao_dao_indexer.Formulas.Events.{
  Block, DependentKey, Event, AllEvents, Loaded, add_to_cache, get_next_potential_block,
}
use dao_dao_indexer.Formulas.Events.Latest.{IsAscending}
use dao_dao_indexer.Formulas.Events.Next.{IsLater}
use dao_dao_indexer.Formulas.Events.Exact.{has_dependent}
use dao_dao_indexer.Formulas.Compute.{
  Formula, Run, RangeState, run_formula, new_run, new_keys, store_result, compute_block,
}
use dao_dao_indexer.Formulas.Compute.Runs.{
  IsCurrent, newest, eval, keys_read, rows_read, IsRunOf, run_formula-IsRunOf,
}
use dao_dao_indexer.Formulas.Compute.Quiet.{
  IsNotLater, IsAt, IsTouched, rows_read-IsUpTo, newest-IsNotLater, newest-IsAt,
}
use dao_dao_indexer.Formulas.Compute.Steps.{
  IsLoadedFor, IsLoadedFor-later, add_to_cache-IsLoadedFor, stored, has_dependent-all_keys,
  stored-IsLoadedFor,
}
use dao_dao_indexer.Formulas.Compute.Between.{IsBefore, next-IsLater, eval-IsBefore, next-IsTouched}
use dao_dao_indexer.Formulas.Compute.Valid.{IsValid, store_result-IsValid}
use dao_dao_indexer.Formulas.Compute.Results.{
  starts_after, value_at, AllBefore, value_at-after, AllBefore-after,
}

module _ {Row V : Type 0} (is_deleted : Row → Bool) (rows : List (Event Row)) (p : Formula Row V)
    (block_end : Block) (start : ℕ) where
  -- The newest block of the rows that a run reads.
  abbrev pub newest_at : ℕ → Option Block
  newest_at height = newest none (rows_read rows is_deleted height p)

  abbrev pub value_of_formula : ℕ → V
  value_of_formula height = eval rows is_deleted height p

  -- What holds before the body runs at a block: the loaded events are right, the results start
  -- before the block, give the value at each block before it and are valid in their intervals, and
  -- they are empty or the block has a row that the formula reads there.
  pub record IsReady (current : Block) (s : RangeState Row V) : Type 0 where
    pub loaded : IsLoadedFor rows current.height block_end.height s.all_dependent_keys s.all_events
    pub begun : AllBefore current.height s.results
    pub values :
        (height : ℕ)
        → start ≤ height
        → height < current.height
        → height ≤ block_end.height
        → value_at height s.results ≡ some (eval rows is_deleted height p)
    pub valid : All (IsValid start value_of_formula) s.results
    pub due :
        ((s.results ≡ []) × (current.height ≤ start))
        ⊎ IsTouched current.height (rows_read rows is_deleted current.height p)

  -- What holds after it, of the next block.
  pub record IsDone (current : Block) (next : Option Block) (s : RangeState Row V) : Type 0 where
    pub later : IsLater current.height next
    pub values :
        (height : ℕ)
        → start ≤ height
        → height ≤ block_end.height
        → IsBefore height next
        → value_at height s.results ≡ some (eval rows is_deleted height p)
    pub valid : All (IsValid start value_of_formula) s.results
    pub ready : (b : Block) → next ≡ some b → b.height ≤ block_end.height → IsReady b s

  newest_at-IsNotLater : (height : ℕ) → IsNotLater height (newest_at height)
  newest_at-IsNotLater height =
      newest-IsNotLater height none (rows_read rows is_deleted height p) tt
        (rows_read-IsUpTo rows is_deleted height p)

  due-IsAt :
      (current : Block) (s : RangeState Row V)
      → IsReady current s
      → (s.results ≡ []) ⊎ IsAt current.height (newest_at current.height)
  due-IsAt current s r = elim r.due [
    | inl (empty, at_start) ↦ inl empty
    | inr touched ↦ inr (
        newest-IsAt current.height none (rows_read rows is_deleted current.height p) tt
          (rows_read-IsUpTo rows is_deleted current.height p) touched)
  ]

  -- A block that is not later does not start after a later height, and one that is at the block
  -- starts after an earlier one.
  not_starts_after :
      (height at : ℕ) (latest : Option Block)
      → IsNotLater at latest
      → at ≤ height
      → starts_after height latest ≡ false
  not_starts_after height at none h le = refl
  not_starts_after height at (some b) h le = ground arith

  starts_after_at :
      (height at : ℕ) (latest : Option Block)
      → IsAt at latest
      → height < at
      → starts_after height latest ≡ true
  starts_after_at height at none h lt = absurd h
  starts_after_at height at (some b) h lt = ground arith

  module _ (rows_ascend : IsAscending rows) (current : Block) (s : RangeState Row V)
      (r : IsReady current s) (within : current.height ≤ block_end.height) where
    abbrev loaded : Loaded Row
    loaded =
        add_to_cache s.all_dependent_keys current (record { all_events = s.all_events; cache = [] })

    still_loaded :
        IsCurrent rows current.height loaded.cache
        × IsLoadedFor rows current.height block_end.height s.all_dependent_keys loaded.all_events
    still_loaded =
        add_to_cache-IsLoadedFor rows current block_end.height s.all_dependent_keys s.all_events
          within r.loaded

    abbrev result : V × Run Row
    result = run_formula is_deleted rows current.height p (new_run false current loaded.cache)

    ran : IsRunOf rows is_deleted current.height p (new_run false current loaded.cache) result
    ran =
        run_formula-IsRunOf rows is_deleted current.height p (new_run false current loaded.cache)
          still_loaded.0

    abbrev stored_events : AllEvents Row
    stored_events =
        stored is_deleted rows current.height block_end.height within rows_ascend p
          s.all_dependent_keys loaded.all_events still_loaded.1

    abbrev keys_now : List DependentKey
    keys_now = keys_read rows is_deleted current.height p

    abbrev new_state : RangeState Row V
    new_state = record {
      all_dependent_keys = s.all_dependent_keys ++ new_keys s.all_dependent_keys keys_now;
      all_events = stored_events;
      results =
          store_result false current (eval rows is_deleted current.height p)
            (newest_at current.height) keys_now s.results;
    }

    block_of_reads :
        compute_block is_deleted rows (λ b. p) false block_end current s
        ≡ (new_state, get_next_potential_block keys_now stored_events current)
    unfolding compute_block
    block_of_reads = rw (ran.value, ran.keys, ran.used, ran.latest) refl

    now-IsAt :
        (height : ℕ)
        → start ≤ height
        → height < current.height
        → IsAt current.height (newest_at current.height)
    now-IsAt height from lt = elim r.due [
      | inl (empty, at_start) ↦ absurd (omega (arith, from, lt, at_start))
      | inr touched ↦
          newest-IsAt current.height none (rows_read rows is_deleted current.height p) tt
            (rows_read-IsUpTo rows is_deleted current.height p) touched
    ]

    covered :
        (key : String)
        → has_dependent key keys_now ≡ true
        → has_dependent key (s.all_dependent_keys ++ new_keys s.all_dependent_keys keys_now) ≡ true
    covered key read =
        has_dependent-all_keys is_deleted rows current.height block_end.height within rows_ascend p
          s.all_dependent_keys loaded.all_events still_loaded.1 key
        ∙ elim (Bool-cases (has_dependent key s.all_dependent_keys)) [
          | inl old ↦ rw old refl
          | inr new ↦ rw new read
        ]

    now_loaded :
        IsLoadedFor rows current.height block_end.height
          (s.all_dependent_keys ++ new_keys s.all_dependent_keys keys_now)
          stored_events
    now_loaded =
        stored-IsLoadedFor is_deleted rows current.height block_end.height within rows_ascend p
          s.all_dependent_keys loaded.all_events still_loaded.1

    abbrev next_block : Option Block
    next_block = get_next_potential_block keys_now stored_events current

    new_values :
        (height : ℕ)
        → start ≤ height
        → height ≤ block_end.height
        → IsBefore height next_block
        → value_at height new_state.results ≡ some (eval rows is_deleted height p)
    new_values height from to before =
        value_at-after current (eval rows is_deleted current.height p) (newest_at current.height)
          keys_now s.results r.begun (due-IsAt current s r) height
        ∙ elim (Bool-cases (ltb height current.height)) [
          | inl past ↦
              let lt : height < current.height = ground arith in
              rw
                (starts_after_at height current.height (newest_at current.height)
                  (now-IsAt height from lt) lt)
                (r.values height from lt to)
          | inr now ↦
              let le : current.height ≤ height = ground arith in
              rw
                (not_starts_after height current.height (newest_at current.height)
                  (newest_at-IsNotLater current.height) le)
                (ap some (
                  sym (
                    eval-IsBefore is_deleted rows current block_end.height within p
                      (s.all_dependent_keys ++ new_keys s.all_dependent_keys keys_now) stored_events
                      now_loaded covered height le to before)))
        ]

    new_next-IsLater : IsLater current.height next_block
    new_next-IsLater =
        next-IsLater is_deleted rows current block_end.height within p
          (s.all_dependent_keys ++ new_keys s.all_dependent_keys keys_now) stored_events now_loaded
          covered

    new-IsValid : All (IsValid start value_of_formula) new_state.results
    new-IsValid =
        store_result-IsValid start value_of_formula current (newest_at current.height) keys_now
          s.results r.begun (due-IsAt current s r) r.valid
          (λ height from lt. r.values height from lt (omega (arith, lt, within)))
          (λ height from lt.
            starts_after_at height current.height (newest_at current.height)
              (now-IsAt height from lt) lt)

    new-IsReady :
        (b : Block) → next_block ≡ some b → b.height ≤ block_end.height → IsReady b new_state
    new-IsReady b e to =
        let lt : current.height < b.height = subst (IsLater current.height) e new_next-IsLater in
        record {
          loaded = IsLoadedFor-later (omega (arith, lt)) now_loaded;
          begun =
              AllBefore-after current (eval rows is_deleted current.height p)
                (newest_at current.height) keys_now s.results r.begun (due-IsAt current s r)
                b.height lt (newest_at-IsNotLater current.height);
          values = λ height from before within_end.
              new_values height from within_end (subst (IsBefore height) (sym e) before);
          valid = new-IsValid;
          due = inr (
              next-IsTouched is_deleted rows current block_end.height within p
                (s.all_dependent_keys ++ new_keys s.all_dependent_keys keys_now) stored_events
                now_loaded covered b e to);
        }

    -- The body keeps it all.
    pub compute_block-IsDone :
        let result = compute_block is_deleted rows (λ b. p) false block_end current s in
        IsDone current result.1 result.0
    compute_block-IsDone =
        subst (λ result. IsDone current result.1 result.0) (sym block_of_reads)
          (record {
            later = new_next-IsLater;
            values = new_values;
            valid = new-IsValid;
            ready = new-IsReady;
          })
