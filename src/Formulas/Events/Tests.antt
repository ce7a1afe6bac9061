-- ===== src/Formulas/Events/Tests.antt =====
-- Events of a contract, for src/formulas/compute.ts.
use mathlib.Core.List.{Memᴰ}
use dao_dao_indexer.Prelude.{
  ℕ, ◌*◌, ◌≡◌, refl, true, false, not, List, [], ◌∷◌, String, some, filter, All, arith,
}
use dao_dao_indexer.Prelude.Text.{lookup}
use dao_dao_indexer.Formulas.Events.{
  Block, DependentKey, Event, AllEvents, Loaded, current_index, current_event, prefixed,
  add_to_cache, get_next_potential_block,
}
use dao_dao_indexer.Formulas.Events.Latest.{latest_at, current_event-latest_at}
use dao_dao_indexer.Formulas.Events.Cache.{events_of, IsSliced, as_cached}
use dao_dao_indexer.Formulas.Events.Answers.{IsLoaded, add_to_cache-IsSliced, add_to_cache-IsCached}
use dao_dao_indexer.Formulas.Events.Next.{Covers, IsLater}
use dao_dao_indexer.Formulas.Events.Soonest.{
  EachCovers, EachAscending, lookup-EachAscending, get_next_potential_block-Covers,
}

abbrev block_at : ℕ → Block
block_at n = record { height = n; time_unix_ms = n * 1000 }

abbrev event_at : String → ℕ → Event ℕ
event_at key n = record { dependent_key = key; block = block_at n; row = n }

abbrev config_events : List (Event ℕ)
config_events = event_at "config" 2 ∷ event_at "config" 5 ∷ event_at "config" 9 ∷ []

abbrev balance_events : List (Event ℕ)
balance_events = event_at "balance:a" 4 ∷ event_at "balance:a" 8 ∷ []

abbrev loaded_events : AllEvents ℕ
loaded_events = ("config", config_events) ∷ ("balance:a", balance_events) ∷ []

abbrev initial : Loaded ℕ
initial = record { all_events = loaded_events; cache = [] }

abbrev config_key : DependentKey
config_key = record { key = "config"; prefix = false }

abbrev dependent_keys : List DependentKey
dependent_keys = config_key ∷ record { key = "balance:"; prefix = true } ∷ []

current_event_example :
    current_event config_events (current_index 7 config_events) ≡ latest_at 7 config_events
current_event_example =
    current_event-latest_at 7 config_events
      ((omega arith, (omega arith, tt)), ((omega arith, tt), (tt, tt)))

initial-EachAscending : EachAscending loaded_events
initial-EachAscending = (
  ((omega arith, (omega arith, tt)), ((omega arith, tt), (tt, tt))),
  (((omega arith, tt), (tt, tt)), tt),
)

initial-IsLoaded : IsLoaded loaded_events
initial-IsLoaded = record {
  ascending = λ key. lookup-EachAscending key loaded_events initial-EachAscending;
  distinct = ((refl, tt), (tt, tt));
}

add_to_cache-IsSliced_example :
    IsSliced 7 loaded_events (add_to_cache dependent_keys (block_at 7) initial).all_events
    × IsLoaded (add_to_cache dependent_keys (block_at 7) initial).all_events
add_to_cache-IsSliced_example =
    add_to_cache-IsSliced dependent_keys (block_at 7) initial initial-IsLoaded

add_to_cache-IsCached_example :
    lookup "config" (add_to_cache dependent_keys (block_at 7) initial).cache
    ≡ some (as_cached (latest_at 7 (events_of "config" loaded_events)))
add_to_cache-IsCached_example =
    add_to_cache-IsCached dependent_keys (block_at 7) initial config_key initial-IsLoaded
      (Memᴰ.head refl) refl (refl, tt)

get_next_potential_block_example :
    let next = get_next_potential_block dependent_keys loaded_events (block_at 7) in
    IsLater 7 next
    × All
        (λ k. Covers 7 next (events_of k.key loaded_events))
        (filter (λ k. not k.prefix) dependent_keys)
    × All
        (λ k. EachCovers 7 next (prefixed k.key loaded_events))
        (filter (λ k. k.prefix) dependent_keys)
get_next_potential_block_example =
    get_next_potential_block-Covers dependent_keys loaded_events (block_at 7) initial-EachAscending
