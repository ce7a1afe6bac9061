-- ===== src/Tracer/Exporter/Tests.antt =====
-- Batches of src/tracer/clients/BatchedTraceExporter.ts.
use dao_dao_indexer.Prelude.{ℕ, ◌≡◌, refl, Bool, true, false, List, [], ◌∷◌, some, arith, ◌⊎◌, All}
use dao_dao_indexer.Tracer.Exporter.{
  BatchItem, Exporter, unique_batch_data, begin_export, end_export, export_items, await_flush,
  get_last_block_height, export_batch, is_newer_block, add_items,
}
use dao_dao_indexer.Tracer.Exporter.Latest.{
  HasNoColon, HasPlainHandler, latest, handed_for, unique_batch_data-latest,
}
use dao_dao_indexer.Tracer.Exporter.Flow.{
  Conserves, IsOfBlock, export_items-Conserves, await_flush-empty,
}
use dao_dao_indexer.Tracer.Exporter.Lost.{end_export-export_items_lost}
use dao_dao_indexer.Tracer.Exporter.Blocks.{export_items-IsOfBlock}

abbrev item_of : ℕ → ℕ → BatchItem ℕ
item_of payload block_height = record {
  handler = "wasm";
  has_background = true;
  id = "a";
  payload = payload;
  block_height = block_height;
}

-- An item with the same ID and another handler, which has no background handler.
abbrev bank_item : ℕ → ℕ → BatchItem ℕ
bank_item payload block_height = record {
  handler = "bank";
  has_background = false;
  id = "a";
  payload = payload;
  block_height = block_height;
}

-- Two changes of one state, and one of another.
abbrev three_items : List (BatchItem ℕ)
three_items = item_of 1 7 ∷ bank_item 2 7 ∷ item_of 3 7 ∷ []

wasm-HasNoColon : HasNoColon "wasm"
wasm-HasNoColon = (omega arith, (omega arith, (omega arith, (omega arith, tt))))

bank-HasNoColon : HasNoColon "bank"
bank-HasNoColon = (omega arith, (omega arith, (omega arith, (omega arith, tt))))

three_items-All : All HasPlainHandler three_items
three_items-All = (wasm-HasNoColon, (bank-HasNoColon, (wasm-HasNoColon, tt)))

three_items-latest :
    latest 0 three_items
    ≡ record { handler = "bank"; has_background = false; payload = 2; index = 1 }
      ∷ record { handler = "wasm"; has_background = true; payload = 3; index = 2 }
      ∷ []
three_items-latest = refl

abbrev full_exporter : Exporter ℕ
full_exporter = record {
  pending_batch = three_items;
  debounce_timer = true;
  max_batch_size = 5;
  added = [];
}

abbrev all_ok : ℕ → Bool
all_ok n = true

unique_batch_data_example : unique_batch_data three_items ≡ latest 0 three_items
unique_batch_data_example = unique_batch_data-latest three_items three_items-All

export_items-returns : (export_items all_ok (item_of 4 8 ∷ []) 8 full_exporter).1 ≡ true
unfolding export_items export_batch begin_export is_newer_block add_items get_last_block_height
export_items-returns = refl

export_items_example :
    Conserves full_exporter
      (item_of 4 8 ∷ [])
      (export_items all_ok (item_of 4 8 ∷ []) 8 full_exporter).0
export_items_example =
    export_items-Conserves all_ok (item_of 4 8 ∷ []) 8 full_exporter three_items-All
      (wasm-HasNoColon, tt) export_items-returns

await_flush_example :
    ((await_flush all_ok full_exporter).0.pending_batch ≡ [])
    × Conserves full_exporter [] (await_flush all_ok full_exporter).0
await_flush_example = await_flush-empty all_ok full_exporter three_items-All refl

three_items-height : get_last_block_height three_items ≡ some 7
unfolding get_last_block_height
three_items-height = refl

lost_items_example :
    let (y, done) = export_items all_ok (item_of 4 7 ∷ []) 7 (begin_export full_exporter).0 in
    let z = end_export true y in
    (done ≡ true) × (z.pending_batch ≡ []) × (z.added ≡ handed_for three_items ∷ [])
lost_items_example =
    end_export-export_items_lost all_ok (item_of 4 7 ∷ []) 7 full_exporter three_items-All
      three_items-height (omega arith) (omega arith)

export_items-IsOfBlock_example :
    let y = (export_items all_ok (item_of 4 8 ∷ []) 8 full_exporter).0 in
    IsOfBlock 7 y.pending_batch ⊎ IsOfBlock 8 y.pending_batch
export_items-IsOfBlock_example =
    export_items-IsOfBlock all_ok (item_of 4 8 ∷ []) 7 8 full_exporter (refl, (refl, (refl, tt)))
      (omega arith) (refl, tt)
