-- ===== src/Computations.antt =====
-- src/db/models/Computation.ts, `updateValidityUpToBlockHeight`, and src/db/computation.ts,
-- `invalidateComputationsDependentOnChanges`: up to which block a stored computation is valid.
--
-- A table is what a dependable event model stands for: the namespace of its dependent keys, with its
-- colon, and its rows. Whether a dependency of a computation matches an event, wildcards included,
-- is decided by the database, the parameter `matches`. A computation here has a block, and an update
-- of the database returns the new row. Computations/Revalidation models `revalidate`.
pub mod Queries
pub mod Validity
pub mod Revalidation
pub mod Invalidation
pub mod Tests
use text.Mathlib.Text.{starts_with}
use dao_dao_indexer.Prelude.{
  ℕ, suc, ◌+◌, ◌-◌, Bool, true, false, not, ◌&&◌, ◌||◌, List, [], ◌∷◌, ◌++◌, map, length, String,
  Option, none, some, filter, some_of, to_list, ltb, leb, if◌then◌else◌,
}
use dao_dao_indexer.Formulas.Events.{DependentKey, Event}

pub record Table (Row : Type 0) : Type 0 where
  pub namespace_prefix : String
  pub rows : List (Event Row)

pub record Computation : Type 0 where
  pub block_height : ℕ
  pub latest_block_height_valid : ℕ
  pub validity_extendable : Bool
  pub dependencies : List DependentKey

abbrev pub big_int_max : ℕ → ℕ → ℕ
big_int_max a b = if ltb a b then b else a

abbrev pub big_int_min : ℕ → ℕ → ℕ
big_int_min a b = if ltb b a then b else a

-- The first block at which an event is looked for.
unfoldable pub min_block_height : Option ℕ → Computation → ℕ
min_block_height none c = big_int_max (c.block_height + 1) (c.latest_block_height_valid + 1)
min_block_height (some start_from) c =
    big_int_max (c.block_height + 1) (big_int_min start_from (c.latest_block_height_valid + 1))

-- It is known to be valid at the block, and no block to start from is passed.
abbrev pub is_valid_already : ℕ → Option ℕ → Computation → Bool
is_valid_already up_to none c = leb up_to c.latest_block_height_valid
is_valid_already up_to (some start_from) c = false

abbrev pub namespaced_keys : String → List DependentKey → List DependentKey
namespaced_keys namespace_prefix keys =
    filter (λ (k : DependentKey). starts_with k.key namespace_prefix) keys

abbrev pub earlier_of : {Row : Type 0} → Event Row → Option (Event Row) → Option (Event Row)
earlier_of event none = some event
earlier_of event (some other) =
    if ltb other.block.height event.block.height then some other else some event

abbrev pub lower : {Row : Type 0} → Event Row → Event Row → Event Row
lower newest model = if ltb newest.block.height model.block.height then newest else model

module _ {Row : Type 0} where
  -- `reduce`, from the first event on.
  unfoldable pub reduce_newer : Event Row → List (Event Row) → Event Row
  reduce_newer newest [] = newest
  reduce_newer newest (model ∷ models) = reduce_newer (lower newest model) models

  unfoldable pub first_of : List (Event Row) → Option (Event Row)
  unfolding reduce_newer
  first_of [] = none
  first_of (event ∷ events) = some (reduce_newer event events)

pub record Invalidated : Type 0 where
  pub updated : ℕ
  pub destroyed : ℕ
  pub computations : List Computation

module _ {Row : Type 0} where
  -- `reduce`, from the height of the first change on.
  unfoldable pub earliest_block_height : ℕ → List (Event Row) → ℕ
  earliest_block_height earliest [] = earliest
  earliest_block_height earliest (event ∷ events) =
      earliest_block_height (big_int_min earliest event.block.height) events

-- The end of the check, with the first newer event.
abbrev pub as_checked : {Row : Type 0} → ℕ → Option (Event Row) → Computation → Bool × Computation
as_checked up_to none c = (true, record c { latest_block_height_valid = up_to })
as_checked up_to (some event) c =
    (false, record c { latest_block_height_valid = event.block.height - 1 })

module _ {Row : Type 0} (matches : DependentKey → Event Row → Bool) where
  abbrev pub matches_any : List DependentKey → Event Row → Bool
  matches_any keys event = some_of (λ k. matches k event) keys

  -- The first of the rows that are lowest, among those that the test selects.
  unfoldable pub lowest : (Event Row → Bool) → List (Event Row) → Option (Event Row)
  lowest p [] = none
  lowest p (event ∷ events) =
      let rest = lowest p events in if p event then earlier_of event rest else rest

  abbrev pub is_between : List DependentKey → ℕ → ℕ → Event Row → Bool
  is_between keys from to event =
      (leb from event.block.height && leb event.block.height to) && matches_any keys event

  -- The query of a model, if a dependency is in its namespace.
  unfoldable pub find_keys : List DependentKey → ℕ → ℕ → List (Event Row) → Option (Event Row)
  unfolding lowest
  find_keys [] from to rows = none
  find_keys (k ∷ keys) from to rows = lowest (is_between (k ∷ keys) from to) rows

  abbrev pub find_first : List DependentKey → ℕ → ℕ → Table Row → Option (Event Row)
  find_first dependencies from to table =
      find_keys (namespaced_keys table.namespace_prefix dependencies) from to table.rows

  unfoldable pub first_newer_events :
      List DependentKey → ℕ → ℕ → List (Table Row) → List (Event Row)
  unfolding find_keys
  first_newer_events dependencies from to [] = []
  first_newer_events dependencies from to (table ∷ tables) =
      to_list (find_first dependencies from to table)
      ++ first_newer_events dependencies from to tables

  abbrev pub first_newer_event : List DependentKey → ℕ → ℕ → List (Table Row) → Option (Event Row)
  first_newer_event dependencies from to tables =
      first_of (first_newer_events dependencies from to tables)

  -- What is returned, and the computation afterwards.
  unfoldable pub update_validity_up_to_block_height :
      List (Table Row) → ℕ → Option ℕ → Computation → Bool × Computation
  unfolding min_block_height first_newer_events first_of
  update_validity_up_to_block_height tables up_to start_from c =
      if ltb up_to c.block_height
      then (false, c)
      else if is_valid_already up_to start_from c
      then (true, c)
      else if not c.validity_extendable
      then (false, c)
      else as_checked up_to
          (first_newer_event c.dependencies (min_block_height start_from c) up_to tables) c

  -- The dependencies that changes affect, wildcards and prefixes included.
  abbrev pub is_affected : List (Event Row) → Computation → Bool
  is_affected changes c = some_of (matches_any c.dependencies) changes

  abbrev pub is_destroyed : ℕ → List (Event Row) → Computation → Bool
  is_destroyed earliest changes c = leb earliest c.block_height && is_affected changes c

  abbrev pub is_shortened : ℕ → List (Event Row) → Computation → Bool
  is_shortened earliest changes c =
      (ltb c.block_height earliest && leb earliest c.latest_block_height_valid)
      && (c.validity_extendable && is_affected changes c)

  unfoldable pub invalidate_from : ℕ → List (Event Row) → List Computation → Invalidated
  invalidate_from earliest changes computations =
      let kept = filter (λ c. not (is_destroyed earliest changes c)) computations in
      record {
        updated = length (filter (is_shortened earliest changes) kept);
        destroyed = length (filter (is_destroyed earliest changes) computations);
        computations =
            map
              (λ c.
                if is_shortened earliest changes c
                then record c { latest_block_height_valid = earliest - 1 }
                else c)
              kept;
      }

  unfoldable pub invalidate_computations_dependent_on_changes :
      List (Event Row) → List Computation → Invalidated
  unfolding earliest_block_height invalidate_from
  invalidate_computations_dependent_on_changes [] computations = record {
    updated = 0;
    destroyed = 0;
    computations = computations;
  }
  invalidate_computations_dependent_on_changes (event ∷ events) computations =
      invalidate_from (earliest_block_height event.block.height events) (event ∷ events)
        computations
