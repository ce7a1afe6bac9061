-- ===== src/Utils/Batch/Batches.antt =====
-- src/utils/misc.ts, `batch`: every item is in one batch, in order.
use mathlib.Core.Path.{subst}
use mathlib.Core.List.{append_assoc}
use dao_dao_indexer.Prelude.{
  ℕ, zero, suc, ◌-◌, ◌≤◌, ◌<◌, ◌≡◌, refl, ap, ◌∙◌, Bool, true, List, [], ◌∷◌, ◌++◌, take, drop,
  take-drop, length, All, Bool-cases, ◌⊎◌, inl, inr, arith,
}
use dao_dao_indexer.Utils.Batch.{
  Ran, batches_from, run_batches, batch_grouped, batch_each, all_resolve,
}

module _ {ℓ} {T : Type ℓ} where
  unfoldable pub flatten : List (List T) → List T
  flatten [] = []
  flatten (xs ∷ xss) = xs ++ flatten xss

  length-drop : (n : ℕ) (xs : List T) → length (drop n xs) ≡ length xs - n
  length-drop zero xs = omega arith
  length-drop (suc n) [] = omega arith
  length-drop (suc n) (x ∷ xs) = omega (arith, length-drop n xs)

  length-take : (n : ℕ) (xs : List T) → length (take n xs) ≤ n
  length-take zero xs = omega arith
  length-take (suc n) [] = omega arith
  length-take (suc n) (x ∷ xs) = omega (arith, length-take n xs)

  flatten-batches :
      (batch_size fuel : ℕ) (list : List T)
      → 0 < batch_size
      → length list ≤ fuel
      → flatten (batches_from batch_size fuel list) ≡ list
  unfolding flatten batches_from
  flatten-batches size zero [] p h = refl
  flatten-batches size zero (x ∷ xs) p h = absurd (omega (arith, h))
  flatten-batches size (suc fuel) [] p h = refl
  flatten-batches size (suc fuel) (x ∷ xs) p h =
      let fits : length (drop size (x ∷ xs)) ≤ fuel = omega (arith, length-drop size (x ∷ xs)) in
      rw (flatten-batches size fuel (drop size (x ∷ xs)) p fits) (take-drop size (x ∷ xs))

  batches-IsWithin :
      (batch_size fuel : ℕ) (list : List T)
      → All (λ items. length items ≤ batch_size) (batches_from batch_size fuel list)
  unfolding batches_from
  batches-IsWithin size zero list = tt
  batches-IsWithin size (suc fuel) [] = tt
  batches-IsWithin size (suc fuel) (x ∷ xs) =
      (length-take size (x ∷ xs), batches-IsWithin size fuel (drop size (x ∷ xs)))

  -- What was started is a front of the list, the whole list if nothing was thrown, and no batch is
  -- too long.
  pub record IsRun (batch_size : ℕ) (list : List T) (ran : Ran T) : Type ℓ where
    pub left : List T
    pub front : flatten ran.started ++ left ≡ list
    pub complete : (ran.throws ≡ true) ⊎ (left ≡ [])
    pub fits : All (λ items. length items ≤ batch_size) ran.started

  run_batches-IsRun :
      (size : ℕ) (resolves : List T → ℕ → Bool) (index : ℕ) (batches : List (List T))
      → All (λ items. length items ≤ size) batches
      → IsRun size (flatten batches) (run_batches resolves index batches)
  unfolding flatten run_batches
  run_batches-IsRun size resolves index [] h = record {
    left = [];
    front = refl;
    complete = inr refl;
    fits = tt;
  }
  run_batches-IsRun size resolves index (items ∷ rest) h =
      elim (Bool-cases (resolves items index)) [
        | inl ok ↦
            let after = run_batches-IsRun size resolves (suc index) rest h.1 in
            rw (ok, run_batches)
              (record {
                left = after.left;
                front = append_assoc items _ after.left ∙ ap (λ xs. items ++ xs) after.front;
                complete = after.complete;
                fits = (h.0, after.fits);
              })
        | inr failed ↦
            rw (failed, run_batches)
              (record {
                left = flatten rest;
                front = append_assoc items [] (flatten rest);
                complete = inl refl;
                fits = (h.0, tt);
              })
      ]

  -- With a batch size that is not 0: the items whose tasks are started, batch after batch, are the
  -- front of the list, each once and in order; they are the whole list if nothing is thrown; and no
  -- batch is longer than the batch size.
  pub batch_grouped-IsRun :
      (resolves : List T → ℕ → Bool) (batch_size : ℕ) (list : List T)
      → 0 < batch_size
      → IsRun batch_size list (batch_grouped resolves batch_size list)
  unfolding batch_grouped
  batch_grouped-IsRun resolves batch_size list p =
      let whole = flatten-batches batch_size (length list) list p (omega arith) in
      subst (λ all. IsRun batch_size all (batch_grouped resolves batch_size list)) whole
        (run_batches-IsRun batch_size resolves 0 (batches_from batch_size (length list) list)
          (batches-IsWithin batch_size (length list) list))

  -- The same of the tasks of the single items.
  pub batch_each-IsRun :
      (resolves : T → ℕ → Bool) (batch_size : ℕ) (list : List T)
      → 0 < batch_size
      → IsRun batch_size list (batch_each resolves batch_size list)
  unfolding batch_each
  batch_each-IsRun resolves batch_size list p =
      let whole = flatten-batches batch_size (length list) list p (omega arith) in
      subst (λ all. IsRun batch_size all (batch_each resolves batch_size list)) whole
        (run_batches-IsRun batch_size (λ items index. all_resolve resolves 0 items) 0
          (batches_from batch_size (length list) list)
          (batches-IsWithin batch_size (length list) list))
