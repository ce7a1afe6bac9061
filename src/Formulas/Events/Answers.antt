-- ===== src/Formulas/Events/Answers.antt =====
-- `addToCache` over a whole list of dependent keys.
use mathlib.Core.List.{Memᴰ}
use text.Mathlib.Text.{◌==◌}
use dao_dao_indexer.Prelude.{
  ℕ, ◌≡◌, refl, ap, ◌∙◌, false, not, List, [], ◌∷◌, Option, none, some, String, drop, filter,
  All-mem, mem-filter, Option-cases, inl, inr, arith, All,
}
use dao_dao_indexer.Prelude.Text.{lookup, lookup-insert}
use dao_dao_indexer.Formulas.Events.{
  Event, DependentKey, Block, AllEvents, Loaded, cache_at, cache_found, cache_exact, cache_exacts,
  cache_prefix, cache_prefixes, prefixed, add_to_cache,
}
use dao_dao_indexer.Formulas.Events.Latest.{latest_at}
use dao_dao_indexer.Formulas.Events.Cache.{
  events_of, as_cached, AllAscending, IsSliced, IsCached, IsSliced-refl, IsSliced-trans,
  cache_exact-IsSliced, cache_exact-IsCached, cache_exact-keeps,
}
use dao_dao_indexer.Formulas.Events.Prefixes.{
  DistinctKeys, insert-DistinctKeys, slice_keys-IsSliced, slice_keys-DistinctKeys,
  prefixed-DistinctKeys, prefixed-HasEntries,
}

module _ {Row : Type 0} where
  -- What `addToCache` is given: each key once, with its events ascending.
  pub record IsLoaded (all : AllEvents Row) : Type 0 where
    pub ascending : AllAscending all
    pub distinct : DistinctKeys all

  cache_at-DistinctKeys :
      (key : String) (events : List (Event Row)) (i : Option ℕ) (s : Loaded Row)
      → DistinctKeys s.all_events
      → DistinctKeys (cache_at key events i s).all_events
  unfolding cache_at
  cache_at-DistinctKeys key events none s h = h
  cache_at-DistinctKeys key events (some i) s h =
      insert-DistinctKeys key (drop i events) s.all_events h

  cache_exact-DistinctKeys :
      (height : ℕ) (key : String) (s : Loaded Row)
      → DistinctKeys s.all_events
      → DistinctKeys (cache_exact height key s).all_events
  unfolding cache_exact cache_found
  cache_exact-DistinctKeys height key s h = elim (Option-cases (lookup key s.all_events)) [
    | inl e ↦ rw (e, cache_found) h
    | inr (events, e) ↦ rw (e, cache_found) (cache_at-DistinctKeys key events _ s h)
  ]

  cache_exact-IsLoaded :
      (height : ℕ) (key : String) (s : Loaded Row)
      → IsLoaded s.all_events
      → IsLoaded (cache_exact height key s).all_events
  cache_exact-IsLoaded height key s h = record {
    ascending = (cache_exact-IsSliced height key s h.ascending).ascending;
    distinct = cache_exact-DistinctKeys height key s h.distinct;
  }

  -- What a part of `addToCache` does to the loaded events.
  abbrev Keeps : ℕ → Loaded Row → Loaded Row → Type 0
  Keeps height s s' = IsSliced height s.all_events s'.all_events × IsLoaded s'.all_events

  cache_exacts-Keeps :
      (height : ℕ) (keys : List DependentKey) (s : Loaded Row)
      → IsLoaded s.all_events
      → Keeps height s (cache_exacts height keys s)
  unfolding cache_exacts
  cache_exacts-Keeps height [] s h = (IsSliced-refl height s.all_events h.ascending, h)
  cache_exacts-Keeps height (k ∷ ks) s h =
      let next = cache_exact-IsLoaded height k.key s h in
      let (sliced, loaded) = cache_exacts-Keeps height ks (cache_exact height k.key s) next in
      (IsSliced-trans (cache_exact-IsSliced height k.key s h.ascending) sliced, loaded)

  cache_exacts-keeps :
      (height : ℕ) (keys : List DependentKey) (j : String) (s : Loaded Row)
      → IsLoaded s.all_events
      → IsCached height j s
      → IsCached height j (cache_exacts height keys s)
  unfolding cache_exacts
  cache_exacts-keeps height [] j s h c = c
  cache_exacts-keeps height (k ∷ ks) j s h c =
      cache_exacts-keeps height ks j (cache_exact height k.key s)
        (cache_exact-IsLoaded height k.key s h) (cache_exact-keeps height k.key j s h.ascending c)

  cache_exacts-IsCached :
      (height : ℕ) (keys : List DependentKey) (s : Loaded Row)
      → IsLoaded s.all_events
      → All (λ k. IsCached height k.key (cache_exacts height keys s)) keys
  unfolding cache_exacts
  cache_exacts-IsCached height [] s h = tt
  cache_exacts-IsCached height (k ∷ ks) s h =
      let next = cache_exact-IsLoaded height k.key s h in
      (
        cache_exacts-keeps height ks k.key (cache_exact height k.key s) next
            (cache_exact-IsCached height k.key s h.ascending),
        cache_exacts-IsCached height ks (cache_exact height k.key s) next,
      )

  cache_prefix-Keeps :
      (height : ℕ) (p : String) (s : Loaded Row)
      → IsLoaded s.all_events
      → Keeps height s (cache_prefix height p s)
  unfolding cache_prefix
  cache_prefix-Keeps height p s h =
      let entries = prefixed p s.all_events in
      let sliced =
        slice_keys-IsSliced height entries s.all_events
          (prefixed-DistinctKeys p s.all_events h.distinct)
          (prefixed-HasEntries p s.all_events h.distinct) h.ascending in
      (
        sliced,
        record {
          ascending = sliced.ascending;
          distinct = slice_keys-DistinctKeys height entries s.all_events h.distinct;
        },
      )

  cache_prefixes-Keeps :
      (height : ℕ) (keys : List DependentKey) (s : Loaded Row)
      → IsLoaded s.all_events
      → Keeps height s (cache_prefixes height keys s)
  unfolding cache_prefixes
  cache_prefixes-Keeps height [] s h = (IsSliced-refl height s.all_events h.ascending, h)
  cache_prefixes-Keeps height (k ∷ ks) s h =
      let (one, next) = cache_prefix-Keeps height k.key s h in
      let (sliced, loaded) = cache_prefixes-Keeps height ks (cache_prefix height k.key s) next in
      (IsSliced-trans one sliced, loaded)

  cache_prefixes-other :
      (height : ℕ) (j : String) (keys : List DependentKey) (s : Loaded Row)
      → All (λ k. (k.key == j) ≡ false) keys
      → lookup j (cache_prefixes height keys s).cache ≡ lookup j s.cache
  unfolding cache_prefixes cache_prefix
  cache_prefixes-other height j [] s h = refl
  cache_prefixes-other height j (k ∷ ks) s h =
      cache_prefixes-other height j ks (cache_prefix height k.key s) h.1
      ∙ rw (lookup-insert, h.0) refl

  -- After `addToCache` at a block, the loaded events have the same current events at that block and
  -- at all later ones as before, for every key; they still are ascending, each key once.
  pub add_to_cache-IsSliced :
      (keys : List DependentKey) (block : Block) (s : Loaded Row)
      → IsLoaded s.all_events
      → IsSliced block.height s.all_events (add_to_cache keys block s).all_events
        × IsLoaded (add_to_cache keys block s).all_events
  unfolding add_to_cache
  add_to_cache-IsSliced keys block s h =
      let exacts = filter (λ k. not k.prefix) keys in
      let (one, next) = cache_exacts-Keeps block.height exacts s h in
      let (two, last) =
        cache_prefixes-Keeps block.height (filter (λ k. k.prefix) keys)
          (cache_exacts block.height exacts s) next in
      (IsSliced-trans one two, last)

  -- After `addToCache` at a block, the cache holds, for each of the dependent keys that is no prefix
  -- and that is not spelled like a prefix among them, the current event at that block of the events
  -- that were loaded for the key, and null exactly if there is none.
  pub add_to_cache-IsCached :
      (keys : List DependentKey) (block : Block) (s : Loaded Row) (k : DependentKey)
      → IsLoaded s.all_events
      → Memᴰ k keys
      → k.prefix ≡ false
      → All (λ p. (p.key == k.key) ≡ false) (filter (λ p. p.prefix) keys)
      → lookup k.key (add_to_cache keys block s).cache
        ≡ some (as_cached (latest_at block.height (events_of k.key s.all_events)))
  unfolding add_to_cache
  add_to_cache-IsCached keys block s k h m exact apart =
      let height = block.height in
      let exacts = filter (λ j. not j.prefix) keys in
      let there = mem-filter (λ (j : DependentKey). not j.prefix) keys m (rw exact refl) in
      let cached : IsCached height k.key (cache_exacts height exacts s) =
        All-mem (λ j. IsCached height j.key (cache_exacts height exacts s)) exacts
          (cache_exacts-IsCached height exacts s h) there in
      cache_prefixes-other height k.key (filter (λ j. j.prefix) keys) (cache_exacts height exacts s)
        apart
      ∙ cached
      ∙ ap (λ l. some (as_cached l))
          ((cache_exacts-Keeps height exacts s h).0.same k.key height (omega arith))
