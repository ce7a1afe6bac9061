-- ===== src/Tracer/Exporter/Blocks.antt =====
-- The pending batch never spans two blocks.
use mathlib.Core.Path.{subst}
use dao_dao_indexer.Prelude.{
  ℕ, ◌≤◌, ◌≡◌, Bool, false, List, [], ◌∷◌, some, Bool-cases, ◌⊎◌, inl, inr, arith,
}
use dao_dao_indexer.Tracer.Exporter.{
  BatchItem, Exporter, get_last_block_height, push_items, is_full, schedule_debounce_export,
  export_batch, is_newer_than, is_newer_block, add_items, export_items,
}
use dao_dao_indexer.Tracer.Exporter.Flow.{
  IsOfBlock, append-IsOfBlock, last-IsOfBlock, export_batch-IsOfBlock, export_batch-empty,
}

module _ {D : Type 0} where
  add_items-IsOfBlock :
      (n : ℕ) (ok : ℕ → Bool) (items : List (BatchItem D)) (x : Exporter D)
      → IsOfBlock n x.pending_batch
      → IsOfBlock n items
      → IsOfBlock n (add_items ok items x).0.pending_batch
  unfolding add_items push_items schedule_debounce_export
  add_items-IsOfBlock n ok items x h k =
      let pushed = append-IsOfBlock n x.pending_batch items h k in
      elim (Bool-cases (is_full (push_items items x))) [
        | inl full ↦ rw full (export_batch-IsOfBlock n ok (push_items items x) pushed)
        | inr room ↦ rw room pushed
      ]

  -- A batch of an earlier block is newer than no block of its own.
  same_block :
      (n current : ℕ) (xs : List (BatchItem D))
      → IsOfBlock n xs
      → n ≤ current
      → is_newer_block current xs ≡ false
      → IsOfBlock current xs
  unfolding is_newer_block is_newer_than get_last_block_height
  same_block n current [] h le e = tt
  same_block n current (x ∷ xs) h le e =
      let last = last-IsOfBlock n xs x h in
      let not_newer : is_newer_than current (some n) ≡ false = rw last at e in
      let same : n ≡ current = ground arith in subst (λ m. IsOfBlock m (x ∷ xs)) same h

  -- Where the pending items are all of one block, and the items given all of a block that is not
  -- earlier, the pending items are all of one of these two blocks after the call, whether or not it
  -- throws.
  pub export_items-IsOfBlock :
      (ok : ℕ → Bool) (items : List (BatchItem D)) (n current : ℕ) (x : Exporter D)
      → IsOfBlock n x.pending_batch
      → n ≤ current
      → IsOfBlock current items
      → let y = (export_items ok items current x).0 in
        IsOfBlock n y.pending_batch ⊎ IsOfBlock current y.pending_batch
  unfolding export_items
  export_items-IsOfBlock ok [] n current x h le k = inl h
  export_items-IsOfBlock ok (item ∷ items) n current x h le k =
      elim (Bool-cases (is_newer_block current x.pending_batch)) [
        | inl newer ↦ rw newer (elim (Bool-cases (export_batch ok x).1) [
          | inl done ↦ rw done (
              inr (
                add_items-IsOfBlock current ok (item ∷ items) (export_batch ok x).0
                  (rw (export_batch-empty ok x done) tt) k))
          | inr thrown ↦ rw thrown (inl (export_batch-IsOfBlock n ok x h))
        ])
        | inr same ↦ rw same (
            inr (
              add_items-IsOfBlock current ok (item ∷ items) x
                (same_block n current x.pending_batch h le same) k))
      ]
