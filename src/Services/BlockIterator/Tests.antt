-- ===== src/Services/BlockIterator/Tests.antt =====
-- Concrete runs of src/services/BlockIterator.ts.
use dao_dao_indexer.Prelude.{
  ℕ, ◌+◌, ◌<◌, ◌≤◌, ◌≡◌, refl, true, false, List, [], ◌∷◌, length, none, some, arith,
}
use dao_dao_indexer.Services.BlockIterator.{
  BufferedItem, buffered_block, tx_data, tx_error, on_block, on_tx, on_error, resolved, Options,
  Iterator, Event, latest_block, fetcher_runs, block_arrives, iterate_runs, stop_fetching, new, run,
}
use dao_dao_indexer.Services.BlockIterator.Places.{heights_from}
use dao_dao_indexer.Services.BlockIterator.Order.{heights_of, run-heights}
use dao_dao_indexer.Services.BlockIterator.Bounds.{run-length}

abbrev options : Options
options = record {
  start_height = 11;
  end_height = some 12;
  buffer_size = 3;
  throw_block = true;
  throw_tx = false;
}

abbrev Ev : Type 0
Ev = Event ℕ ℕ ℕ

abbrev first_block : BufferedItem ℕ ℕ ℕ
first_block = buffered_block 11 (tx_data 1 ∷ tx_error 2 ∷ tx_data 3 ∷ [])

abbrev second_block : BufferedItem ℕ ℕ ℕ
second_block = buffered_block 12 []

-- The second block arrives first.
abbrev events : List Ev
events =
    latest_block 20
    ∷ fetcher_runs
    ∷ fetcher_runs
    ∷ fetcher_runs
    ∷ block_arrives 12 second_block
    ∷ iterate_runs
    ∷ block_arrives 11 first_block
    ∷ iterate_runs
    ∷ iterate_runs
    ∷ iterate_runs
    ∷ fetcher_runs
    ∷ iterate_runs
    ∷ []

abbrev final : Iterator ℕ ℕ ℕ
final = run options events (new options)

final_calls : final.calls ≡ on_block 11 ∷ on_tx 1 11 ∷ on_error 2 ∷ on_tx 3 11 ∷ on_block 12 ∷ []
unfolding run
final_calls = refl

final_outcome : final.outcome ≡ resolved
unfolding run
final_outcome = refl

run-heights_example : heights_of options final.processed ≡ heights_from 11 2
run-heights_example =
    run-heights options events 12
      (tt, (tt, (tt, (tt, (tt, (tt, (tt, (tt, (tt, (tt, (tt, (tt, tt)))))))))))) refl (omega arith)
      final_outcome

run-length_example :
    (length final.in_flight + length final.buffer < 3 + 3) × (length final.in_flight ≤ 3)
run-length_example = run-length options (omega arith) events

-- When the fetching is stopped while the buffer is empty and a block is in flight, `iterate` ends
-- without that block.
abbrev cut_short : Iterator ℕ ℕ ℕ
cut_short =
    run options
      (latest_block 20
        ∷ fetcher_runs
        ∷ stop_fetching
        ∷ iterate_runs
        ∷ block_arrives 11 first_block
        ∷ iterate_runs
        ∷ [])
      (new options)

cut_short_outcome :
    (cut_short.outcome ≡ resolved) × (cut_short.processed ≡ []) × (length cut_short.buffer ≡ 1)
unfolding run
cut_short_outcome = (refl, refl, refl)

-- A buffer of 3 that holds 5 blocks: the three last ones were fetched while it held two.
abbrev filled : Iterator ℕ ℕ ℕ
filled =
    run (record options { end_height = none })
      (latest_block 20
        ∷ fetcher_runs
        ∷ fetcher_runs
        ∷ fetcher_runs
        ∷ block_arrives 11 first_block
        ∷ block_arrives 12 second_block
        ∷ block_arrives 13 second_block
        ∷ fetcher_runs
        ∷ iterate_runs
        ∷ fetcher_runs
        ∷ fetcher_runs
        ∷ fetcher_runs
        ∷ block_arrives 14 second_block
        ∷ block_arrives 15 second_block
        ∷ block_arrives 16 second_block
        ∷ [])
      (new (record options { end_height = none }))

length-filled : length filled.buffer ≡ 5
unfolding run
length-filled = refl
