-- ===== src/Formulas/Events.antt =====
-- src/formulas/compute.ts, `addToCache` and `getNextPotentialBlock`, with the types that they use
-- from src/types (`Block`, `ComputationDependentKey`, `Cache.events`).
--
-- An event is a row of one of the dependable event tables: its dependent key, its block, and what
-- else the row holds, a parameter `Row`.
pub mod Latest
pub mod Cache
pub mod Prefixes
pub mod Answers
pub mod Next
pub mod Soonest
pub mod Sorting
pub mod Exact
pub mod Tests
use text.Mathlib.Text.{starts_with}
use dao_dao_indexer.Prelude.{
  ℕ, zero, suc, ◌-◌, ◌<◌, Bool, true, false, not, List, [], ◌∷◌, ◌++◌, map, String, Option, none,
  some, filter, find, find_index, get_elem?, drop, to_list, length, ltb, leb, if◌then◌else◌,
}
use dao_dao_indexer.Prelude.Text.{lookup, insert}

pub record Block : Type 0 where
  pub height : ℕ
  pub time_unix_ms : ℕ

pub record DependentKey : Type 0 where
  pub key : String
  pub prefix : Bool

pub record Event (Row : Type 0) : Type 0 where
  pub dependent_key : String
  pub block : Block
  pub row : Row

-- The index of the current event: the one before the first later event (`nextIndex`), and the last
-- one if no event is later.
index_before : Option ℕ → ℕ → Option ℕ
index_before (some zero) count = none
index_before (some (suc i)) count = some i
index_before none zero = none
index_before none (suc n) = some n

-- The events of each key that are loaded, ascending.
abbrev pub AllEvents : Type 0 → Type 0
AllEvents Row = List (String × List (Event Row))

-- `Cache.events`: `none` is null, for a key that is known to have no event.
abbrev pub EventCache : Type 0 → Type 0
EventCache Row = List (String × Option (List (Event Row)))

-- What `addToCache` changes.
pub record Loaded (Row : Type 0) : Type 0 where
  pub all_events : AllEvents Row
  pub cache : EventCache Row

module _ {Row : Type 0} where
  unfoldable pub is_after : ℕ → Event Row → Bool
  is_after height event = ltb height event.block.height

  unfoldable pub current_index : ℕ → List (Event Row) → Option ℕ
  unfolding index_before is_after
  current_index height events = index_before (find_index (is_after height) events) (length events)

  -- A key without prefix.
  pub cache_at : String → List (Event Row) → Option ℕ → Loaded Row → Loaded Row
  cache_at key events none s = record s { cache = insert key none s.cache }
  cache_at key events (some i) s = record s {
    all_events = insert key (drop i events) s.all_events;
    cache = insert key (some (to_list (get_elem? events i))) s.cache;
  }

  pub cache_found : ℕ → String → Option (List (Event Row)) → Loaded Row → Loaded Row
  cache_found height key none s = record s { cache = insert key none s.cache }
  cache_found height key (some events) s = cache_at key events (current_index height events) s

  pub cache_exact : ℕ → String → Loaded Row → Loaded Row
  cache_exact height key s = cache_found height key (lookup key s.all_events) s

  pub cache_exacts : ℕ → List DependentKey → Loaded Row → Loaded Row
  cache_exacts height [] s = s
  cache_exacts height (k ∷ ks) s = cache_exacts height ks (cache_exact height k.key s)

  -- A prefix: the current events of all keys that begin with it.
  pub current_event : List (Event Row) → Option ℕ → Option (Event Row)
  current_event events none = none
  current_event events (some i) = get_elem? events i

  pub prefixed : String → AllEvents Row → AllEvents Row
  prefixed prefix_key all = filter (λ entry. starts_with entry.0 prefix_key) all

  current_events : ℕ → AllEvents Row → List (Event Row)
  current_events height [] = []
  current_events height ((key, events) ∷ entries) =
      to_list (current_event events (current_index height events)) ++ current_events height entries

  slice_key : String → Option ℕ → Option (List (Event Row)) → AllEvents Row → AllEvents Row
  slice_key key (some i) (some events) all = insert key (drop i events) all
  slice_key key _ _ all = all

  pub slice_keys : ℕ → AllEvents Row → AllEvents Row → AllEvents Row
  slice_keys height [] all = all
  slice_keys height ((key, events) ∷ entries) all =
      slice_keys height entries (slice_key key (current_index height events) (lookup key all) all)

  pub cache_prefix : ℕ → String → Loaded Row → Loaded Row
  cache_prefix height prefix_key s =
      let entries = prefixed prefix_key s.all_events in
      record {
        all_events = slice_keys height entries s.all_events;
        cache = insert prefix_key (some (current_events height entries)) s.cache;
      }

  pub cache_prefixes : ℕ → List DependentKey → Loaded Row → Loaded Row
  cache_prefixes height [] s = s
  cache_prefixes height (k ∷ ks) s = cache_prefixes height ks (cache_prefix height k.key s)

  unfoldable pub add_to_cache : List DependentKey → Block → Loaded Row → Loaded Row
  unfolding cache_exacts cache_exact cache_found cache_at cache_prefixes cache_prefix prefixed
      current_events current_event slice_keys slice_key current_index
  add_to_cache keys block s =
      cache_prefixes block.height (filter (λ k. k.prefix) keys)
        (cache_exacts block.height (filter (λ k. not k.prefix) keys) s)

  -- `getNextPotentialBlock`: the update of `nextPotentialBlock` by a matching event.
  pub earlier : Option Block → Option (Event Row) → Option Block
  earlier next none = next
  earlier none (some event) = some event.block
  earlier (some block) (some event) =
      if ltb event.block.height block.height then some event.block else some block

  pub find_found : ℕ → Option (List (Event Row)) → Option (Event Row)
  find_found height none = none
  find_found height (some events) = find (is_after height) events

  pub next_exacts : ℕ → AllEvents Row → List DependentKey → Option Block → Option Block
  next_exacts height all [] next = next
  next_exacts height all (k ∷ ks) next =
      next_exacts height all ks (earlier next (find_found height (lookup k.key all)))

  -- `sort` by height, stable, as an insertion sort.
  unfoldable pub insert_by_height : Event Row → List (Event Row) → List (Event Row)
  insert_by_height e [] = e ∷ []
  insert_by_height e (f ∷ fs) =
      if leb e.block.height f.block.height then e ∷ f ∷ fs else f ∷ insert_by_height e fs

  unfoldable pub sort_by_height : List (Event Row) → List (Event Row)
  sort_by_height [] = []
  sort_by_height (e ∷ es) = insert_by_height e (sort_by_height es)

  unfoldable pub first : List (Event Row) → Option (Event Row)
  first [] = none
  first (e ∷ es) = some e

  matching_events : ℕ → AllEvents Row → List (Event Row)
  matching_events height [] = []
  matching_events height ((key, events) ∷ entries) =
      to_list (find (is_after height) events) ++ matching_events height entries

  next_prefixes : ℕ → AllEvents Row → List DependentKey → Option Block → Option Block
  next_prefixes height all [] next = next
  next_prefixes height all (k ∷ ks) next =
      next_prefixes height all ks
        (earlier next (first (sort_by_height (matching_events height (prefixed k.key all)))))

  unfoldable pub get_next_potential_block : List DependentKey → AllEvents Row → Block → Option Block
  unfolding next_exacts next_prefixes earlier find_found first sort_by_height insert_by_height
      matching_events prefixed is_after
  get_next_potential_block keys all current =
      next_prefixes current.height all (filter (λ k. k.prefix) keys)
        (next_exacts current.height all (filter (λ k. not k.prefix) keys) none)
