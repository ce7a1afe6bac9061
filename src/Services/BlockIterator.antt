-- ===== src/Services/BlockIterator.antt =====
-- src/services/BlockIterator.ts: the fetcher and the loop of `iterate` over one buffer, after the
-- start height is found.
--
-- What the event loop runs between two awaits is a step. The calls of `fetchBlockData` that have not
-- set the buffer are the heights in flight, each one of which arrives with an item; its tries are
-- within the call. `processed` and `calls` are observations: the items in the order in which the loop
-- takes them, and the calls of the callbacks, none of which rejects.
pub mod Heights
pub mod Places
pub mod Order
pub mod Bounds
pub mod Tests
use dao_dao_indexer.Prelude.{
  ℕ, zero, suc, ◌+◌, Bool, true, false, not, ◌&&◌, ◌||◌, List, [], ◌∷◌, ◌++◌, length, Option, none,
  some, some_of, ltb, leb, ◌==◌, if◌then◌else◌,
}

pub data TxItem (Tx Err : Type 0) : Type 0 where
  tx_data : Tx → TxItem Tx Err
  tx_error : Err → TxItem Tx Err

pub data BufferedItem (Header Tx Err : Type 0) : Type 0 where
  buffered_block : Header → List (TxItem Tx Err) → BufferedItem Header Tx Err
  block_error : Err → BufferedItem Header Tx Err

pub data Call (Header Tx Err : Type 0) : Type 0 where
  on_block : Header → Call Header Tx Err
  on_tx : Tx → Header → Call Header Tx Err
  on_error : Err → Call Header Tx Err

-- Where the fetcher stands: in its loop, at the await in the loop, at the last await, or at the end.
pub data Fetcher : Type 0 where
  looping : Fetcher
  settling : Fetcher
  finishing : Fetcher
  stopped : Fetcher

-- Where the loop of `iterate` stands.
pub data Outcome : Type 0 where
  running : Outcome
  resolved : Outcome
  thrown : Outcome

pub record Options : Type 0 where
  pub start_height : ℕ
  pub end_height : Option ℕ
  pub buffer_size : ℕ
  pub throw_block : Bool
  pub throw_tx : Bool

module _ {Item : Type 0} where
  -- The buffer is a map by height.
  unfoldable pub get_item : ℕ → List (ℕ × Item) → Option Item
  get_item height [] = none
  get_item height ((h, item) ∷ buffer) = if h == height then some item else get_item height buffer

  unfoldable pub delete_item : ℕ → List (ℕ × Item) → List (ℕ × Item)
  delete_item height [] = []
  delete_item height ((h, item) ∷ buffer) =
      if h == height then delete_item height buffer else (h, item) ∷ delete_item height buffer

  abbrev pub set_item : ℕ → Item → List (ℕ × Item) → List (ℕ × Item)
  set_item height item buffer = (height, item) ∷ delete_item height buffer

-- One of the calls for a height ends.
unfoldable pub land : ℕ → List ℕ → List ℕ
land height [] = []
land height (h ∷ heights) = if h == height then heights else h ∷ land height heights

abbrev pub is_in_flight : ℕ → List ℕ → Bool
is_in_flight height heights = some_of (λ h. h == height) heights

-- An end height of 0 is no end height.
abbrev pub is_to_fetch : Option ℕ → ℕ → Bool
is_to_fetch none height = true
is_to_fetch (some end) height = leb height end

abbrev pub is_empty : {A : Type 0} → List A → Bool
is_empty [] = true
is_empty (x ∷ xs) = false

module _ (Header Tx Err : Type 0) where
  pub record Iterator : Type 0 where
    pub fetching : Bool
    pub fetcher : Fetcher
    pub fetch_height : ℕ
    pub fetching_blocks : ℕ
    pub in_flight : List ℕ
    pub buffer : List (ℕ × BufferedItem Header Tx Err)
    pub latest_block_height : ℕ
    pub current_height : ℕ
    pub outcome : Outcome
    pub processed : List (ℕ × BufferedItem Header Tx Err)
    pub calls : List (Call Header Tx Err)

  pub data Event : Type 0 where
    latest_block : ℕ → Event
    fetcher_runs : Event
    block_arrives : ℕ → BufferedItem Header Tx Err → Event
    iterate_runs : Event
    stop_fetching : Event

module _ {Header Tx Err : Type 0} (options : Options) where
  abbrev pub new : Iterator Header Tx Err
  new = record {
    fetching = true;
    fetcher = looping;
    fetch_height = options.start_height;
    fetching_blocks = 0;
    in_flight = [];
    buffer = [];
    latest_block_height = 0;
    current_height = options.start_height;
    outcome = running;
    processed = [];
    calls = [];
  }

  -- A pass of the fetcher's loop that fetches a block.
  unfoldable pub fetch_block : Iterator Header Tx Err → Iterator Header Tx Err
  fetch_block s =
      let begun = record s {
        in_flight = s.in_flight ++ s.fetch_height ∷ [];
        fetching_blocks = s.fetching_blocks + 1;
      } in
      if leb options.buffer_size (s.fetching_blocks + 1)
      then record begun { fetcher = settling }
      else record begun { fetch_height = s.fetch_height + 1 }

  unfoldable pub fetch_loop : Iterator Header Tx Err → Iterator Header Tx Err
  unfolding fetch_block
  fetch_loop s =
      if not (s.fetching && is_to_fetch options.end_height s.fetch_height)
      then record s { fetcher = finishing }
      else if leb options.buffer_size (length s.buffer) || ltb s.latest_block_height s.fetch_height
      then s
      else fetch_block s

  -- An await of all calls is over when none is in flight.
  abbrev pub settle : List ℕ → Iterator Header Tx Err → Iterator Header Tx Err
  settle [] s = record s {
    fetcher = looping;
    fetching_blocks = 0;
    fetch_height = s.fetch_height + 1;
  }
  settle (h ∷ heights) s = s

  abbrev pub finish : List ℕ → Iterator Header Tx Err → Iterator Header Tx Err
  finish [] s = record s { fetcher = stopped; fetching = false }
  finish (h ∷ heights) s = s

  unfoldable pub run_fetcher : Fetcher → Iterator Header Tx Err → Iterator Header Tx Err
  unfolding fetch_loop
  run_fetcher looping s = fetch_loop s
  run_fetcher settling s = settle s.in_flight s
  run_fetcher finishing s = finish s.in_flight s
  run_fetcher stopped s = s

  -- The transactions of a block in order: the calls, and whether an error is thrown.
  unfoldable pub process_txs : Header → List (TxItem Tx Err) → List (Call Header Tx Err) × Bool
  process_txs block [] = ([], false)
  process_txs block (tx_data tx ∷ txs) =
      let (calls, throws) = process_txs block txs in (on_tx tx block ∷ calls, throws)
  process_txs block (tx_error error ∷ txs) =
      let (calls, throws) = process_txs block txs in
      if options.throw_tx then (on_error error ∷ [], true) else (on_error error ∷ calls, throws)

  unfoldable pub process_item : BufferedItem Header Tx Err → List (Call Header Tx Err) × Bool
  unfolding process_txs
  process_item (block_error error) = (on_error error ∷ [], options.throw_block)
  process_item (buffered_block block txs) =
      let (calls, throws) = process_txs block txs in (on_block block ∷ calls, throws)

  -- An item that is there is deleted from the buffer and processed.
  unfoldable pub take_item :
      Option (BufferedItem Header Tx Err) → Iterator Header Tx Err → Iterator Header Tx Err
  unfolding process_item delete_item
  take_item none s = s
  take_item (some item) s =
      let (calls, throws) = process_item item in
      let taken = record s {
        buffer = delete_item s.current_height s.buffer;
        processed = s.processed ++ (s.current_height, item) ∷ [];
        calls = s.calls ++ calls;
      } in
      if throws
      then record taken { outcome = thrown; fetching = false }
      else record taken { current_height = s.current_height + 1 }

  unfoldable pub run_iterate : Outcome → Iterator Header Tx Err → Iterator Header Tx Err
  unfolding take_item get_item
  run_iterate running s =
      if s.fetching || not (is_empty s.buffer)
      then take_item (get_item s.current_height s.buffer) s
      else record s { outcome = resolved; fetching = false }
  run_iterate resolved s = s
  run_iterate thrown s = s

  unfoldable pub arrive :
      ℕ → BufferedItem Header Tx Err → Iterator Header Tx Err → Iterator Header Tx Err
  unfolding land delete_item
  arrive height item s =
      if is_in_flight height s.in_flight
      then record s { in_flight = land height s.in_flight; buffer = set_item height item s.buffer }
      else s

  unfoldable pub step : Event Header Tx Err → Iterator Header Tx Err → Iterator Header Tx Err
  unfolding run_fetcher run_iterate arrive
  step (latest_block height) s = record s { latest_block_height = height }
  step fetcher_runs s = run_fetcher s.fetcher s
  step (block_arrives height item) s = arrive height item s
  step iterate_runs s = run_iterate s.outcome s
  step stop_fetching s = record s { fetching = false }

  unfoldable pub run : List (Event Header Tx Err) → Iterator Header Tx Err → Iterator Header Tx Err
  unfolding step
  run [] s = s
  run (e ∷ events) s = run events (step e s)
