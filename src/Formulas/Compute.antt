-- ===== src/Formulas/Compute.antt =====
-- src/formulas/compute.ts, `compute` and `computeRange`, with the `get` of src/formulas/env.ts and
-- `dependentKeyMatches` of src/db/dependable.ts.
--
-- A formula is a program that reads the state by dependent keys, none of which is a prefix, and
-- then returns a value: what it reads next may depend on what it has read. The database is the list
-- of its rows, ascending by block: `find_one` is the query for the row of a key with the greatest
-- height up to a block, `find_future` the one for the rows of keys after a block up to another.
-- Whether a row records a deletion is the parameter `is_deleted`. Objects are compared by their
-- contents: a row has one key and one block. A value that is undefined, which a range keeps as
-- null, is not told apart from null.
pub mod Runs
pub mod Stored
pub mod Windows
pub mod Quiet
pub mod Used
pub mod Known
pub mod UsedStored
pub mod Steps
pub mod Between
pub mod Results
pub mod Valid
pub mod Body
pub mod Pointwise
pub mod Tests
use text.Mathlib.Text.{◌==◌}
use dao_dao_indexer.Prelude.{
  ℕ, zero, suc, ◌+◌, ◌-◌, Bool, true, false, not, ◌&&◌, ◌||◌, List, [], ◌∷◌, ◌++◌, String, Option,
  none, some, filter, some_of, ltb, leb, if◌then◌else◌,
}
use dao_dao_indexer.Prelude as P
use dao_dao_indexer.Prelude.Int.{ℤ, pos, sub_ℕ}
use dao_dao_indexer.Prelude.Text.{lookup, insert}
use dao_dao_indexer.Formulas.Events.{
  Block, DependentKey, Event, AllEvents, EventCache, Loaded, first, sort_by_height, add_to_cache,
  get_next_potential_block,
}
use dao_dao_indexer.Formulas.Events.Latest.{latest_at}

pub data Formula (Row V : Type 0) : Type 0 where
  returns : V → Formula Row V
  gets : String → (Option (Event Row) → Formula Row V) → Formula Row V

abbrev pub exact : String → DependentKey
exact key = record { key = key; prefix = false }

pub bool_eq : Bool → Bool → Bool
bool_eq true b = b
bool_eq false b = not b

unfoldable pub dependent_key_matches : DependentKey → DependentKey → Bool
unfolding bool_eq
dependent_key_matches a b = a.key == b.key && bool_eq a.prefix b.prefix

-- What an environment and its hook change while a formula runs.
pub record Run (Row : Type 0) : Type 0 where
  pub cache : EventCache Row
  pub dependent_keys : List DependentKey
  pub latest_block : Option Block
  pub events_used : List (Event Row)

module _ {Row : Type 0} where
  abbrev pub has_key : String → Event Row → Bool
  has_key key event = event.dependent_key == key

  -- The rows of a key.
  abbrev pub rows_of : String → List (Event Row) → List (Event Row)
  rows_of key rows = filter (has_key key) rows

  unfoldable pub find_one : List (Event Row) → String → ℕ → Option (Event Row)
  find_one rows key height = latest_at height (rows_of key rows)

  abbrev pub is_future : List DependentKey → ℕ → ℕ → Event Row → Bool
  is_future keys after upto event =
      some_of (λ (k : DependentKey). event.dependent_key == k.key) keys
      && (ltb after event.block.height && leb event.block.height upto)

  unfoldable pub find_future : List (Event Row) → List DependentKey → ℕ → ℕ → List (Event Row)
  find_future rows keys after upto = filter (is_future keys after upto) rows

  -- The block of `onFetch`: if latest is unset, or the event is of a later block.
  unfoldable pub newer : Option Block → Event Row → Option Block
  newer none event = some event.block
  newer (some block) event =
      if ltb block.height event.block.height then some event.block else some block

  -- The hook, on the event that `get` found, if it found one.
  unfoldable pub on_fetch : Option (Event Row) → Run Row → Run Row
  unfolding newer
  on_fetch none run = run
  on_fetch (some event) run = record run {
    events_used = run.events_used ++ event ∷ [];
    latest_block = newer run.latest_block event;
  }

  -- The cache entry, if the key has one, and else the row of the database.
  unfoldable pub cached_or :
      Option (Option (List (Event Row))) → Option (Event Row) → Option (Event Row)
  unfolding first
  cached_or none fetched = fetched
  cached_or (some none) fetched = none
  cached_or (some (some events)) fetched = first events

  abbrev pub entry_for : Option (Event Row) → Option (List (Event Row))
  entry_for none = none
  entry_for (some event) = some (event ∷ [])

  -- A key with no cache entry gets one.
  unfoldable pub remember :
      String → Option (Option (List (Event Row))) → Option (Event Row) → Run Row → Run Row
  remember key none event run = record run { cache = insert key (entry_for event) run.cache }
  remember key (some entry) event run = run

  abbrev pub undeleted : (Row → Bool) → Option (Event Row) → Option (Event Row)
  undeleted is_deleted none = none
  undeleted is_deleted (some event) = if is_deleted event.row then none else some event

  abbrev pub depends : String → Run Row → Run Row
  depends key run = record run { dependent_keys = run.dependent_keys ++ exact key ∷ [] }

  -- `get` at a block: the event that it finds, and what it changes.
  unfoldable pub get : List (Event Row) → ℕ → String → Run Row → Option (Event Row) × Run Row
  unfolding cached_or remember on_fetch find_one
  get rows height key run =
      let cached = lookup key run.cache in
      let event = cached_or cached (find_one rows key height) in
      (event, on_fetch event (remember key cached event (depends key run)))

module _ {Row V : Type 0} (is_deleted : Row → Bool) (rows : List (Event Row)) where
  unfoldable pub run_formula : ℕ → Formula Row V → Run Row → V × Run Row
  unfolding get
  run_formula height (returns value) run = (value, run)
  run_formula height (gets key rest) run =
      let (event, run') = get rows height key run in
      run_formula height (rest (undeleted is_deleted event)) run'

-- The latest block that is set before a formula runs.
abbrev pub initial_block : Bool → Block → Option Block
initial_block dynamic block = if dynamic then some block else none

abbrev pub new_run : {Row : Type 0} → Bool → Block → EventCache Row → Run Row
new_run dynamic block cache = record {
  cache = cache;
  dependent_keys = [];
  latest_block = initial_block dynamic block;
  events_used = [];
}

pub record ComputationOutput (V : Type 0) : Type 0 where
  pub block : Option Block
  pub value : V
  pub dependent_keys : List DependentKey
  pub latest_block_height_valid : Option ℤ

module _ {V : Type 0} where
  -- Whether the result is the first, or newer than the most recently stored one.
  unfoldable pub is_newer : Option (ComputationOutput V) → Option Block → Bool
  is_newer none latest = true
  is_newer (some previous) none = false
  is_newer (some previous) (some latest) = elim previous.block [
    | none ↦ true
    | some block ↦ ltb block.height latest.height
  ]

  unfoldable pub last_result : List (ComputationOutput V) → Option (ComputationOutput V)
  last_result [] = none
  last_result (r ∷ []) = some r
  last_result (r ∷ s ∷ results) = last_result (s ∷ results)

  -- The update of the previous result, when there is a new value.
  unfoldable pub close_last :
      Bool → Option Block → List (ComputationOutput V) → List (ComputationOutput V)
  close_last dynamic latest [] = []
  close_last true latest (r ∷ results) = r ∷ results
  close_last false none (r ∷ results) = r ∷ results
  close_last false (some block) (r ∷ []) =
      record r { latest_block_height_valid = some (sub_ℕ block.height 1) } ∷ []
  close_last false (some block) (r ∷ s ∷ results) = r ∷ close_last false (some block) (s ∷ results)

  unfoldable pub store_result :
      Bool
      → Block
      → V
      → Option Block
      → List DependentKey
      → List (ComputationOutput V)
      → List (ComputationOutput V)
  unfolding is_newer last_result close_last
  store_result dynamic current value latest keys results =
      if is_newer (last_result results) latest
      then close_last dynamic latest results
        ++ record {
          block = latest;
          value = value;
          dependent_keys = keys;
          latest_block_height_valid = some (pos current.height);
        }
          ∷ []
      else results

module _ {Row : Type 0} where
  -- `includes`.
  abbrev pub is_event : Event Row → Event Row → Bool
  is_event event other =
      other.dependent_key == event.dependent_key && P.◌==◌ other.block.height event.block.height

  -- An event that was used is added if it is not there.
  unfoldable pub add_used_to : Event Row → Option (List (Event Row)) → AllEvents Row → AllEvents Row
  add_used_to event none all = insert event.dependent_key (event ∷ []) all
  add_used_to event (some events) all =
      if some_of (is_event event) events
      then all
      else insert event.dependent_key (events ++ event ∷ []) all

  unfoldable pub add_used : List (Event Row) → AllEvents Row → AllEvents Row
  unfolding add_used_to
  add_used [] all = all
  add_used (event ∷ used) all =
      add_used used (add_used_to event (lookup event.dependent_key all) all)

  unfoldable pub add_future_to :
      Event Row → Option (List (Event Row)) → AllEvents Row → AllEvents Row
  add_future_to event none all = insert event.dependent_key (event ∷ []) all
  add_future_to event (some events) all = insert event.dependent_key (events ++ event ∷ []) all

  unfoldable pub add_future : List (Event Row) → AllEvents Row → AllEvents Row
  unfolding add_future_to
  add_future [] all = all
  add_future (event ∷ future) all =
      add_future future (add_future_to event (lookup event.dependent_key all) all)

-- The keys that no earlier computation had.
abbrev pub new_keys : List DependentKey → List DependentKey → List DependentKey
new_keys known keys = filter (λ a. not (some_of (dependent_key_matches a) known)) keys

-- What the loop of `computeRange` keeps.
pub record RangeState (Row V : Type 0) : Type 0 where
  pub all_dependent_keys : List DependentKey
  pub all_events : AllEvents Row
  pub results : List (ComputationOutput V)

abbrev pub new_range : {Row V : Type 0} → RangeState Row V
new_range = record { all_dependent_keys = []; all_events = []; results = [] }

module _ {Row V : Type 0} (is_deleted : Row → Bool) (rows : List (Event Row))
    (formula : Block → Formula Row V) (dynamic : Bool) where
  unfoldable pub compute : Block → EventCache Row → ComputationOutput V
  unfolding run_formula
  compute block cache =
      let (value, run) =
        run_formula is_deleted rows block.height (formula block) (new_run dynamic block cache) in
      record {
        block = run.latest_block;
        value = value;
        dependent_keys = run.dependent_keys;
        latest_block_height_valid = none;
      }

  -- The body of the loop at a block: the state after it, and the next block. With no new keys the
  -- query for future events finds none, and with no keys `add_to_cache` changes nothing.
  unfoldable pub compute_block : Block → Block → RangeState Row V → RangeState Row V × Option Block
  unfolding run_formula store_result add_used add_future find_future sort_by_height add_to_cache
      get_next_potential_block
  compute_block block_end current s =
      let loaded =
        add_to_cache s.all_dependent_keys current
          (record { all_events = s.all_events; cache = [] }) in
      let (value, run) =
        run_formula is_deleted rows current.height (formula current)
          (new_run dynamic current loaded.cache) in
      let keys = new_keys s.all_dependent_keys run.dependent_keys in
      let future = find_future rows keys current.height block_end.height in
      let all_events =
        add_future (sort_by_height future)
          (add_used (sort_by_height run.events_used) loaded.all_events) in
      (
        record {
          all_dependent_keys = s.all_dependent_keys ++ keys;
          all_events = all_events;
          results =
              store_result dynamic current value run.latest_block run.dependent_keys s.results;
        },
        get_next_potential_block run.dependent_keys all_events current,
      )

  unfoldable pub compute_range_from :
      Block → (fuel : ℕ) → Option Block → RangeState Row V → List (ComputationOutput V)
  unfolding compute_block
  compute_range_from block_end zero next s = s.results
  compute_range_from block_end (suc fuel) none s = s.results
  compute_range_from block_end (suc fuel) (some current) s =
      elim (leb current.height block_end.height) [
        | true ↦
            let (s', next) = compute_block block_end current s in
            compute_range_from block_end fuel next s'
        | false ↦ s.results
      ]

  -- The height rises in each pass.
  unfoldable pub compute_range : Block → Block → List (ComputationOutput V)
  unfolding compute_range_from
  compute_range block_start block_end =
      compute_range_from block_end (block_end.height - block_start.height + 2) (some block_start)
        new_range
