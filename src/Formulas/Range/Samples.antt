-- ===== src/Formulas/Range/Samples.antt =====
-- What src/formulas/utils.ts, processComputationRange, samples: the latest output at each point of
-- the step.
use dao_dao_indexer.Prelude.{
  ℕ, zero, suc, ◌+◌, ◌-◌, ◌*◌, ◌≤◌, ◌<◌, ◌≡◌, refl, ◌∙◌, true, false, List, [], ◌∷◌, ◌++◌, Option,
  none, some, leb, ◌==◌, arith,
}
use dao_dao_indexer.Formulas.Events.{Block}
use dao_dao_indexer.Formulas.Range.{
  Output, Processed, index_after, sample_from, next_point, step_loop, sample_by, sample_times,
  sample_blocks, process_computation_range,
}
use dao_dao_indexer.Formulas.Range.Passes.{IsAscending, as_sample, latest_output, Pass, pass_lem}

-- The points `start`, `start + step`, ..., and at last the end.
unfoldable pub grid : ℕ → ℕ → ℕ → ℕ → List ℕ
grid start step zero end_point = end_point ∷ []
grid start step (suc n) end_point = start ∷ grid (start + step) step n end_point

-- `n` is the least number of steps from the start that reach the end.
abbrev pub IsStepCount : ℕ → ℕ → ℕ → ℕ → Type 0
IsStepCount start step n end_point =
    (start ≤ end_point) × (end_point ≤ start + n * step) × (start + n * step < end_point + step)

next_at_end : (at step : ℕ) → next_point at step at ≡ at + 1
unfolding next_point
next_at_end at step = ground arith

next_last :
    (end_point step at : ℕ)
    → at < end_point
    → end_point ≤ at + step
    → next_point end_point step at ≡ end_point
unfolding next_point
next_last end_point step at below reach = ground arith

next_within :
    (end_point step at : ℕ)
    → 0 < step
    → at + step < end_point
    → next_point end_point step at ≡ at + step
unfolding next_point
next_within end_point step at s within = ground arith

module _ {ℓ} {V : Type ℓ} (key : Block → ℕ) where
  -- The samples of the latest outputs at points.
  unfoldable pub samples : List (Output V) → List ℕ → List (Processed V)
  samples outputs [] = []
  samples outputs (at ∷ points) =
      as_sample at (latest_output key at outputs) ++ samples outputs points

  abbrev SameFrom : ℕ → List (Output V) → List (Output V) → Type ℓ
  SameFrom at outputs all =
      (later : ℕ) → at ≤ later → latest_output key later outputs ≡ latest_output key later all

  one_pass :
      (all : List (Output V)) (end_point step fuel at : ℕ) (outputs : List (Output V))
      → IsAscending key outputs
      → SameFrom at outputs all
      → at ≤ end_point
      → step_loop key end_point step (suc fuel) at outputs
        ≡ as_sample at (latest_output key at all)
          ++ step_loop key end_point step fuel
              (next_point end_point step at)
              (sample_from at (index_after key at outputs) outputs).1
  unfolding step_loop Pass
  one_pass all end_point step fuel at outputs h same le =
      let more : leb at end_point ≡ true = ground arith in
      rw (more, step_loop, (pass_lem key at outputs h).0, same at (omega arith)) refl

  past_end :
      (end_point step fuel at : ℕ) (outputs : List (Output V))
      → end_point < at
      → step_loop key end_point step fuel at outputs ≡ []
  unfolding step_loop
  past_end end_point step zero at outputs over = refl
  past_end end_point step (suc fuel) at outputs over =
      let done : leb at end_point ≡ false = ground arith in rw (done, step_loop) refl

  -- What a pass leaves for the next one.
  left_lem :
      (all : List (Output V)) (at next : ℕ) (outputs : List (Output V))
      → IsAscending key outputs
      → SameFrom at outputs all
      → at ≤ next
      → IsAscending key (sample_from at (index_after key at outputs) outputs).1
        × SameFrom next (sample_from at (index_after key at outputs) outputs).1 all
  unfolding Pass
  left_lem all at next outputs h same le =
      let (pushes, order, later_same) = pass_lem key at outputs h in
      (order, λ later above. later_same later (omega arith) ∙ same later (omega arith))

  loop_lem :
      (all : List (Output V)) (end_point step n fuel at : ℕ) (outputs : List (Output V))
      → IsAscending key outputs
      → SameFrom at outputs all
      → 0 < step
      → n < fuel
      → IsStepCount at step n end_point
      → step_loop key end_point step fuel at outputs ≡ samples all (grid at step n end_point)
  unfolding samples grid
  loop_lem all end_point step n zero at outputs h same s f c = absurd (omega (arith, f))
  loop_lem all end_point step zero (suc fuel) at outputs h same s f (le, reach, below) =
      let here : end_point ≡ at = omega (arith, le, reach) in
      let next = next_at_end at step in
      rw
        (
          here,
          one_pass all at step fuel at outputs h same (omega arith),
          next,
          past_end at step fuel (at + 1) _ (omega arith),
        )
        refl
  loop_lem all end_point step (suc zero) (suc fuel) at outputs h same s f (le, reach, below) =
      let next : next_point end_point step at ≡ end_point =
        next_last end_point step at (omega arith) (omega arith) in
      rw
        (
          one_pass all end_point step fuel at outputs h same le,
          next,
          (let (h', same') = left_lem all at end_point outputs h same le in
              loop_lem all end_point step zero fuel end_point _ h' same' s (omega arith)
                (omega arith)),
        )
        refl
  loop_lem all end_point step (suc (suc n)) (suc fuel) at outputs h same s f (le, reach, below) =
      let next : next_point end_point step at ≡ at + step =
        next_within end_point step at s (omega arith) in
      rw
        (
          one_pass all end_point step fuel at outputs h same le,
          next,
          (let (h', same') = left_lem all at (at + step) outputs h same (omega arith) in
              loop_lem all end_point step (suc n) fuel (at + step) _ h' same' s (omega arith)
                (omega arith)),
        )
        refl

le_mul : (n step : ℕ) → 0 < step → n ≤ n * step
le_mul zero step s = omega arith
le_mul (suc n) step s = omega (arith, le_mul n step s)

steps_le :
    (start step n end_point : ℕ)
    → 0 < step
    → IsStepCount start step n end_point
    → n < end_point - start + 2
steps_le start step zero end_point s c = omega arith
steps_le start step (suc n) end_point s (le, reach, below) =
    let above = le_mul n step s in omega arith

abbrev pub end_time : Option ℕ → Block → ℕ
end_time none last = last.time_unix_ms
end_time (some t) last = t

module _ {ℓ} {V : Type ℓ} where
  -- The outputs being in the order of their blocks, the range with a block step greater than 1 and a
  -- first block not after the last one is the latest output, with its point, at the first block, at
  -- each step from it, and at the last block: at each of these that some output is not after. (With
  -- a block step of 1 and no time step, the outputs are returned as they are, without points.)
  pub process_computation_range-samples :
      (outputs : List (Output V)) (step : ℕ) (time_step : Option ℕ) (blocks : Block × Block)
      (times : Option (ℕ × Option ℕ)) (n : ℕ)
      → IsAscending (λ b. b.height) outputs
      → 1 < step
      → IsStepCount (blocks.0).height step n (blocks.1).height
      → process_computation_range outputs (some step) time_step blocks times
        ≡ samples (λ b. b.height) outputs (grid (blocks.0).height step n (blocks.1).height)
  unfolding process_computation_range sample_blocks sample_by
  process_computation_range-samples outputs zero time_step blocks times n h s c =
      absurd (omega (arith, s))
  process_computation_range-samples outputs (suc step) time_step blocks times n h s c =
      let stepped : (suc step == 1) ≡ false = ground arith in
      rw (stepped, sample_blocks)
        (loop_lem (λ b. b.height) outputs (blocks.1).height (suc step) n _ (blocks.0).height outputs
          h (λ later le. refl) (omega arith) (steps_le _ (suc step) n _ (omega arith) c) c)

  -- The outputs being in the order of their times, the range with a time step greater than 1, no
  -- block step, and a start not after the end is the latest output, with its point, at the start, at
  -- each step from it, and at the end, which is the time of the last block where none is given: at
  -- each of these that some output is not after. (With a time step of 1 and no block step, the
  -- outputs are returned as they are, without points.)
  pub process_computation_range-samples_times :
      (outputs : List (Output V)) (step : ℕ) (blocks : Block × Block) (start : ℕ)
      (end_point : Option ℕ) (n : ℕ)
      → IsAscending (λ b. b.time_unix_ms) outputs
      → 1 < step
      → IsStepCount start step n (end_time end_point blocks.1)
      → process_computation_range outputs none (some step) blocks (some (start, end_point))
        ≡ samples (λ b. b.time_unix_ms) outputs (grid start step n (end_time end_point blocks.1))
  unfolding process_computation_range sample_blocks sample_times sample_by
  process_computation_range-samples_times outputs zero blocks start end_point n h s c =
      absurd (omega (arith, s))
  process_computation_range-samples_times outputs (suc step) blocks start none n h s c =
      let stepped : (suc step == 1) ≡ false = ground arith in
      rw (stepped, sample_blocks)
        (loop_lem (λ b. b.time_unix_ms) outputs (blocks.1).time_unix_ms (suc step) n _ start outputs
          h (λ later le. refl) (omega arith) (steps_le _ (suc step) n _ (omega arith) c) c)
  process_computation_range-samples_times outputs (suc step) blocks start (some t) n h s c =
      let stepped : (suc step == 1) ≡ false = ground arith in
      rw (stepped, sample_blocks)
        (loop_lem (λ b. b.time_unix_ms) outputs t (suc step) n _ start outputs h (λ later le. refl)
          (omega arith) (steps_le _ (suc step) n _ (omega arith) c) c)
