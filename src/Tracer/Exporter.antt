-- ===== src/Tracer/Exporter.antt =====
-- src/tracer/clients/BatchedTraceExporter.ts: the pending batch, its export to the queues, and the
-- debounce timer.
--
-- `exportBatch` has one await, the `add` calls of the two queues: `begin_export` is what runs before
-- it and `end_export` what runs after it. The items that the queues were given are the ghost field
-- `added`. An exporter serves one manager, which awaits each `exportItems`, and the timer does not.
-- The data of an item is a parameter `D`.
pub mod Dedup
pub mod Latest
pub mod Lost
pub mod Flow
pub mod Blocks
pub mod Tests
use Prim.Native.String
use text.Mathlib.Text.{◌==◌}
use dao_dao_indexer.Prelude.{
  ℕ, ◌+◌, ◌≡◌, Bool, true, false, ◌&&◌, List, [], ◌∷◌, ◌++◌, map, length, filter, leb, ltb, String,
  Option, none, some, if◌then◌else◌,
}

-- `data: { id, ...data }` of the source is split into its two parts.
pub record BatchItem (D : Type 0) : Type 0 where
  pub handler : String
  pub has_background : Bool
  pub id : String
  pub payload : D
  pub block_height : ℕ

-- A value of the record that `reduce` builds.
pub record UniqueItem (D : Type 0) : Type 0 where
  pub handler : String
  pub has_background : Bool
  pub payload : D
  pub index : ℕ

pub record QueueItem (D : Type 0) : Type 0 where
  pub handler : String
  pub payload : D

-- One call of `ExportQueue.add`, with what `ExportBackgroundQueue.add` is given, if it is called.
pub record Added (D : Type 0) : Type 0 where
  pub block_height : ℕ
  pub all_data : List (QueueItem D)
  pub background_data : List (QueueItem D)

pub record Exporter (D : Type 0) : Type 0 where
  pub pending_batch : List (BatchItem D)
  -- Whether `debounceTimer` is set.
  pub debounce_timer : Bool
  pub max_batch_size : ℕ
  pub added : List (Added D)

is_newer_than : ℕ → Option ℕ → Bool
is_newer_than current none = false
is_newer_than current (some last) = ltb last current

module _ {D : Type 0} where
  unfoldable pub item_key : BatchItem D → String
  item_key item = String.◌++◌ item.handler (String.◌++◌ ":" item.id)

  unfoldable pub unique_item : BatchItem D → ℕ → UniqueItem D
  unique_item item index = record {
    handler = item.handler;
    has_background = item.has_background;
    payload = item.payload;
    index = index;
  }

  -- `{ ...acc, [key]: value }`: a key that is there keeps its place. (A key has a colon, so it is
  -- no array index, and entries stand in the order of insertion.)
  unfoldable pub spread :
      String → UniqueItem D → List (String × UniqueItem D) → List (String × UniqueItem D)
  spread k v [] = (k, v) ∷ []
  spread k v ((j, w) ∷ acc) = if j == k then (k, v) ∷ acc else (j, w) ∷ spread k v acc

  -- The `reduce`, with the index of the next item.
  unfoldable pub collect :
      ℕ → List (BatchItem D) → List (String × UniqueItem D) → List (String × UniqueItem D)
  collect index [] acc = acc
  collect index (item ∷ items) acc =
      collect (index + 1) items (spread (item_key item) (unique_item item index) acc)

  -- `sort((a, b) => a.index - b.index)`, as a stable insertion sort.
  unfoldable pub insert_by_index : UniqueItem D → List (UniqueItem D) → List (UniqueItem D)
  insert_by_index v [] = v ∷ []
  insert_by_index v (w ∷ ws) = if leb v.index w.index then v ∷ w ∷ ws else w ∷ insert_by_index v ws

  unfoldable pub sort_by_index : List (UniqueItem D) → List (UniqueItem D)
  sort_by_index [] = []
  sort_by_index (v ∷ vs) = insert_by_index v (sort_by_index vs)

  abbrev pub entry_value : String × UniqueItem D → UniqueItem D
  entry_value entry = entry.1

  unfoldable pub unique_batch_data : List (BatchItem D) → List (UniqueItem D)
  unique_batch_data batch = sort_by_index (map entry_value (collect 0 batch []))

  abbrev pub queue_item : UniqueItem D → QueueItem D
  queue_item v = record { handler = v.handler; payload = v.payload }

  -- `getLastBlockHeight`, null for an empty batch.
  unfoldable pub get_last_block_height : List (BatchItem D) → Option ℕ
  get_last_block_height [] = none
  get_last_block_height (item ∷ []) = some item.block_height
  get_last_block_height (item ∷ next ∷ items) = get_last_block_height (next ∷ items)

  unfoldable pub added_batch : ℕ → List (BatchItem D) → Added D
  unfolding unique_batch_data
  added_batch block_height batch =
      let unique = unique_batch_data batch in
      record {
        block_height = block_height;
        all_data = map queue_item unique;
        background_data = map queue_item (filter (λ v. v.has_background) unique);
      }

  -- `exportBatch` up to its await, with the height of the last item; false if it returns before it.
  begin_at : Option ℕ → Exporter D → Exporter D × Bool
  begin_at none x = (record x { debounce_timer = false }, false)
  begin_at (some height) x = (
    record x { debounce_timer = false; added = x.added ++ added_batch height x.pending_batch ∷ [] },
    true,
  )

  unfoldable pub begin_export : Exporter D → Exporter D × Bool
  unfolding begin_at
  begin_export x = begin_at (get_last_block_height x.pending_batch) x

  -- `exportBatch` after its await: `ok` is whether the `add` calls succeeded. On a failure it throws
  -- and keeps the batch.
  unfoldable pub end_export : Bool → Exporter D → Exporter D
  end_export true x = record x { pending_batch = [] }
  end_export false x = x

  -- The last part of `exportItems`, up to the await of `exportBatch` if it calls it: the push, and
  -- whether the batch is full.
  unfoldable pub push_items : List (BatchItem D) → Exporter D → Exporter D
  push_items items x = record x { pending_batch = x.pending_batch ++ items }

  unfoldable pub is_full : Exporter D → Bool
  is_full x = leb x.max_batch_size (length x.pending_batch)

  unfoldable pub schedule_debounce_export : Exporter D → Exporter D
  schedule_debounce_export x = record x { debounce_timer = true }

  -- `exportBatch` with nothing else running across its await; false if it throws. `ok` says of each
  -- `add`, by its number, whether it succeeds.
  finish_export : Bool → Exporter D × Bool → Exporter D × Bool
  unfolding end_export
  finish_export ok (y, false) = (y, true)
  finish_export ok (y, true) = (end_export ok y, ok)

  unfoldable pub export_batch : (ℕ → Bool) → Exporter D → Exporter D × Bool
  unfolding finish_export
  export_batch ok x = finish_export (ok (length x.added)) (begin_export x)

  -- Whether the batch is of an earlier block.
  unfoldable pub is_newer_block : ℕ → List (BatchItem D) → Bool
  unfolding is_newer_than
  is_newer_block current batch = is_newer_than current (get_last_block_height batch)

  -- `exportItems` after its first `exportBatch`.
  unfoldable pub add_items : (ℕ → Bool) → List (BatchItem D) → Exporter D → Exporter D × Bool
  unfolding push_items is_full schedule_debounce_export
  add_items ok items x =
      let y = push_items items x in
      if is_full y then export_batch ok y else (schedule_debounce_export y, true)

  -- `exportItems` with nothing else running across its awaits; false if it throws.
  unfoldable pub export_items : (ℕ → Bool) → List (BatchItem D) → ℕ → Exporter D → Exporter D × Bool
  export_items ok [] current x = (x, true)
  export_items ok (item ∷ items) current x =
      let (y, done) = export_batch ok x in
      if is_newer_block current x.pending_batch
      then if done then add_items ok (item ∷ items) y else (y, false)
      else add_items ok (item ∷ items) x

  -- `awaitFlush`.
  unfoldable pub await_flush : (ℕ → Bool) → Exporter D → Exporter D × Bool
  await_flush ok x = export_batch ok x
