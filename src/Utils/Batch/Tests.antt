-- ===== src/Utils/Batch/Tests.antt =====
-- Runs of `retry` and `batch` of src/utils/misc.ts.
use dao_dao_indexer.Prelude.{ℕ, ◌≡◌, refl, Bool, List, [], ◌∷◌, ◌++◌, some, ltb, ◌==◌, arith}
use dao_dao_indexer.Utils.Batch.{returns, throws, resolved, rejected, retry, batch_grouped}
use dao_dao_indexer.Utils.Batch.Retries.{counted, thrown, retry-resolves, retry-rejects}
use dao_dao_indexer.Utils.Batch.Batches.{IsRun, batch_grouped-IsRun}

-- Error 429 is a rate limit.
abbrev is_rate_limit : ℕ → Bool
is_rate_limit e = e == 429

abbrev errors : List ℕ
errors = 500 ∷ 429 ∷ 429 ∷ 429 ∷ 503 ∷ []

errors-counted : counted is_rate_limit errors ≡ 2
unfolding counted
errors-counted = refl

retry-resolves_example :
    retry {T = ℕ} is_rate_limit 3 (thrown errors ++ returns 7 ∷ []) ≡ some (resolved 7)
retry-resolves_example = retry-resolves is_rate_limit 3 errors 7 [] (omega (arith, errors-counted))

retry-rejects_example :
    retry {T = ℕ} is_rate_limit 3 (thrown errors ++ throws 404 ∷ returns 7 ∷ [])
    ≡ some (rejected 404)
retry-rejects_example =
    retry-rejects is_rate_limit 3 errors 404 (returns 7 ∷ []) refl (omega (arith, errors-counted))

abbrev items : List ℕ
items = 1 ∷ 2 ∷ 3 ∷ 4 ∷ 5 ∷ []

batch_grouped_example : IsRun 2 items (batch_grouped (λ batch index. ltb index 2) 2 items)
batch_grouped_example = batch_grouped-IsRun (λ batch index. ltb index 2) 2 items (omega arith)
