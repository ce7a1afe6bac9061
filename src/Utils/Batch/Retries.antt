-- ===== src/Utils/Batch/Retries.antt =====
-- src/utils/misc.ts, `retry`: how many failures it stands.
use dao_dao_indexer.Prelude.{
  ℕ, suc, ◌+◌, ◌≤◌, ◌<◌, ◌≡◌, refl, Bool, true, false, List, [], ◌∷◌, ◌++◌, some, ltb,
  if◌then◌else◌, Bool-cases, inl, inr, arith,
}
use dao_dao_indexer.Utils.Batch.{Call, returns, throws, resolved, rejected, retry_from, retry}

module _ {E : Type 0} (is_rate_limit : E → Bool) where
  -- The number of errors that count: those that are no rate limit.
  unfoldable pub counted : List E → ℕ
  counted [] = 0
  counted (e ∷ es) = if is_rate_limit e then counted es else suc (counted es)

module _ {T E : Type 0} where
  unfoldable pub thrown : List E → List (Call T E)
  thrown [] = []
  thrown (e ∷ es) = throws e ∷ thrown es

module _ {T E : Type 0} (is_rate_limit : E → Bool) where
  retry_from-after :
      (tries attempt : ℕ) (errors : List E) (calls : List (Call T E))
      → attempt + counted is_rate_limit errors ≤ tries
      → retry_from is_rate_limit tries attempt (thrown errors ++ calls)
        ≡ retry_from is_rate_limit tries (attempt + counted is_rate_limit errors) calls
  unfolding retry_from counted thrown
  retry_from-after tries attempt [] calls h =
      let e : attempt + 0 ≡ attempt = omega arith in rw e refl
  retry_from-after tries attempt (error ∷ errors) calls h =
      elim (Bool-cases (is_rate_limit error)) [
        | inl limited ↦ rw limited (retry_from-after tries attempt errors calls (rw limited at h))
        | inr counts ↦
            let room : attempt + suc (counted is_rate_limit errors) ≤ tries = rw counts at h in
            let more : ltb tries (suc attempt) ≡ false = ground arith in
            let e : attempt + suc (counted is_rate_limit errors)
                ≡ suc attempt + counted is_rate_limit errors =
              omega arith in
            rw (counts, more, e)
              (retry_from-after tries (suc attempt) errors calls (omega (arith, room)))
      ]

  -- After errors of which fewer than `tries` are no rate limit, a value that the callback returns
  -- is the result.
  pub retry-resolves :
      (tries : ℕ) (errors : List E) (t : T) (calls : List (Call T E))
      → counted is_rate_limit errors < tries
      → retry is_rate_limit tries (thrown errors ++ returns t ∷ calls) ≡ some (resolved t)
  unfolding retry retry_from
  retry-resolves tries errors t calls h =
      rw (retry_from-after tries 1 errors (returns t ∷ calls) (omega arith)) refl

  -- The error that makes `tries` of them that are no rate limit is thrown, whatever else the
  -- callback would come to.
  pub retry-rejects :
      (tries : ℕ) (errors : List E) (e : E) (calls : List (Call T E))
      → is_rate_limit e ≡ false
      → suc (counted is_rate_limit errors) ≡ tries
      → retry is_rate_limit tries (thrown errors ++ throws e ∷ calls) ≡ some (rejected e)
  unfolding retry retry_from
  retry-rejects tries errors e calls counts last =
      let over : ltb tries (suc (1 + counted is_rate_limit errors)) ≡ true = ground arith in
      rw (retry_from-after tries 1 errors (throws e ∷ calls) (omega arith))
        (rw (counts, over, retry_from) refl)
