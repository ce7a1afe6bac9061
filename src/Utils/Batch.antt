-- ===== src/Utils/Batch.antt =====
-- src/utils/misc.ts, `retry` and `batch`. The waits are left out. The callback is what its calls
-- come to, one after the other: `retry` on a list of these ends with `none` while it still waits
-- for a call that the list does not have. Whether an error is a rate limit is the parameter
-- `is_rate_limit`, of the error's text.
pub mod Retries
pub mod Batches
pub mod Tests
use dao_dao_indexer.Prelude.{
  ℕ, zero, suc, ◌+◌, Bool, true, false, ◌&&◌, List, [], ◌∷◌, Option, none, some, drop, take, length,
  ltb, if◌then◌else◌,
}

-- `bails` is an error that the callback throws through `bail`.
pub data Call (T E : Type 0) : Type 0 where
  returns : T → Call T E
  throws bails : E → Call T E

pub data Retried (T E : Type 0) : Type 0 where
  resolved : T → Retried T E
  rejected : E → Retried T E

module _ {T E : Type 0} (is_rate_limit : E → Bool) (tries : ℕ) where
  -- The loop from an attempt. `bail` sets the attempt to `tries` before it throws, and so
  -- the next attempt is one too many, if the error is no rate limit.
  unfoldable pub retry_from : ℕ → List (Call T E) → Option (Retried T E)
  retry_from attempt [] = none
  retry_from attempt (returns t ∷ calls) = some (resolved t)
  retry_from attempt (throws e ∷ calls) = elim (is_rate_limit e) [
    | true ↦ retry_from attempt calls
    | false ↦ elim (ltb tries (suc attempt)) [
      | true ↦ some (rejected e)
      | false ↦ retry_from (suc attempt) calls
    ]
  ]
  retry_from attempt (bails e ∷ calls) = elim (is_rate_limit e) [
    | true ↦ retry_from tries calls
    | false ↦ some (rejected e)
  ]

  unfoldable pub retry : List (Call T E) → Option (Retried T E)
  unfolding retry_from
  retry calls = retry_from 1 calls

-- What a batch run does: the batches whose tasks are started, in order, and whether it then throws.
pub record Ran {ℓ} (T : Type ℓ) : Type ℓ where
  pub started : List (List T)
  pub throws : Bool

module _ {ℓ} {T : Type ℓ} where
  -- The loop's slices of the list: `fuel` bounds its passes, of which there are at most as many as
  -- items where the batch size is not 0.
  unfoldable pub batches_from : ℕ → (fuel : ℕ) → List T → List (List T)
  batches_from batch_size zero list = []
  batches_from batch_size (suc fuel) [] = []
  batches_from batch_size (suc fuel) (x ∷ xs) =
      take batch_size (x ∷ xs) ∷ batches_from batch_size fuel (drop batch_size (x ∷ xs))

  -- Batch after batch, until the tasks of one do not all resolve. `resolves batch index` is whether
  -- they do, by their last try.
  unfoldable pub run_batches : (List T → ℕ → Bool) → ℕ → List (List T) → Ran T
  run_batches resolves index [] = record { started = []; throws = false }
  run_batches resolves index (items ∷ rest) = elim (resolves items index) [
    | true ↦
        let after = run_batches resolves (suc index) rest in
        record { started = items ∷ after.started; throws = after.throws }
    | false ↦ record { started = items ∷ []; throws = true }
  ]

  -- The tasks of a batch's items, each with the item's place in the batch.
  unfoldable pub all_resolve : (T → ℕ → Bool) → ℕ → List T → Bool
  all_resolve resolves index [] = true
  all_resolve resolves index (item ∷ items) =
      resolves item index && all_resolve resolves (suc index) items

  -- With `grouped`, a task for each batch.
  unfoldable pub batch_grouped : (List T → ℕ → Bool) → ℕ → List T → Ran T
  unfolding batches_from run_batches
  batch_grouped resolves batch_size list =
      run_batches resolves 0 (batches_from batch_size (length list) list)

  -- Without, a task for each item of a batch, all started before any is waited for.
  unfoldable pub batch_each : (T → ℕ → Bool) → ℕ → List T → Ran T
  unfolding batches_from run_batches all_resolve
  batch_each resolves batch_size list =
      run_batches (λ items index. all_resolve resolves 0 items) 0
        (batches_from batch_size (length list) list)
