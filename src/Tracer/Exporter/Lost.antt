-- ===== src/Tracer/Exporter/Lost.antt =====
-- `exportItems` of src/tracer/clients/BatchedTraceExporter.ts while the export of the debounce timer
-- awaits the queues.
use mathlib.Core.List.{append-nil}
use dao_dao_indexer.Prelude.{
  ℕ, ◌≤◌, ◌<◌, ◌≡◌, refl, sym, ap, ◌∙◌, Bool, true, false, List, [], ◌∷◌, ◌++◌, length, leb, Option,
  none, some, All, arith,
}
use dao_dao_indexer.Tracer.Exporter.{
  BatchItem, Exporter, get_last_block_height, begin_at, begin_export, end_export, push_items,
  is_full, schedule_debounce_export, is_newer_than, is_newer_block, add_items, export_items,
}
use dao_dao_indexer.Tracer.Exporter.Latest.{HasPlainHandler, handed_for, added_batch-handed_for}

module _ {D : Type 0} where
  begin_export-added :
      (x : Exporter D) {last : ℕ}
      → All HasPlainHandler x.pending_batch
      → get_last_block_height x.pending_batch ≡ some last
      → (begin_export x).0.added ≡ x.added ++ handed_for x.pending_batch ∷ []
  unfolding begin_export begin_at
  begin_export-added x {last} plain e =
      rw e (ap (λ b. x.added ++ b ∷ []) (added_batch-handed_for last x.pending_batch plain e))

  begin_at-same :
      (height : Option ℕ) (x : Exporter D)
      → ((begin_at height x).0.pending_batch ≡ x.pending_batch)
        × ((begin_at height x).0.max_batch_size ≡ x.max_batch_size)
  unfolding begin_at
  begin_at-same none x = (refl, refl)
  begin_at-same (some height) x = (refl, refl)

  begin_export-same :
      (x : Exporter D)
      → ((begin_export x).0.pending_batch ≡ x.pending_batch)
        × ((begin_export x).0.max_batch_size ≡ x.max_batch_size)
  unfolding begin_export
  begin_export-same x = begin_at-same (get_last_block_height x.pending_batch) x

  -- A call that does not export only pushes the items.
  export_items-pushed :
      (ok : ℕ → Bool) (items : List (BatchItem D)) (current : ℕ) (x : Exporter D) {last : ℕ}
      → get_last_block_height x.pending_batch ≡ some last
      → current ≤ last
      → length (x.pending_batch ++ items) < x.max_batch_size
      → let (y, done) = export_items ok items current x in
        (done ≡ true) × (y.pending_batch ≡ x.pending_batch ++ items) × (y.added ≡ x.added)
  unfolding export_items is_newer_block is_newer_than add_items is_full push_items
      schedule_debounce_export
  export_items-pushed ok [] current x {last} e le room =
      (refl, sym (append-nil x.pending_batch), refl)
  export_items-pushed ok (item ∷ items) current x {last} e le room =
      let not_newer : is_newer_than current (some last) ≡ false = ground arith in
      let not_full : leb x.max_batch_size (length (x.pending_batch ++ item ∷ items)) ≡ false =
        ground arith in
      rw (e, not_newer, not_full) (refl, refl, refl)

  -- If the timer's export has begun with a batch that is not empty, and `exportItems` is called
  -- before the queues have answered, with items of a block that is not newer and too few to fill the
  -- batch, then that call succeeds; and once the queues have accepted the batch, nothing is pending,
  -- and what the queues were given is what they were given before and the batch as it was before the
  -- call, but its items with the handler and the ID of a later one of it: the new items are lost. No
  -- handler of the batch has a colon.
  pub end_export-export_items_lost :
      (ok : ℕ → Bool) (items : List (BatchItem D)) (current : ℕ) (x : Exporter D) {last : ℕ}
      → All HasPlainHandler x.pending_batch
      → get_last_block_height x.pending_batch ≡ some last
      → current ≤ last
      → length (x.pending_batch ++ items) < x.max_batch_size
      → let (y, done) = export_items ok items current (begin_export x).0 in
        let z = end_export true y in
        (done ≡ true)
        × (z.pending_batch ≡ [])
        × (z.added ≡ x.added ++ handed_for x.pending_batch ∷ [])
  unfolding end_export
  end_export-export_items_lost ok items current x {last} plain e le room =
      let begun = (begin_export x).0 in
      let (pending, size) = begin_export-same x in
      let (done, pushed, added) =
        export_items-pushed ok items current begun (rw pending e) le (rw (pending, size) room) in
      (done, refl, added ∙ begin_export-added x plain e)
