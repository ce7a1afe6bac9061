-- ===== src/Formulas/Events/Cache.antt =====
-- `addToCache`: what stands in the cache for a key, and what the loaded events still say of later
-- blocks.
use mathlib.Core.Path.{subst}
use text.Mathlib.Text.{◌==◌}
use text.Mathlib.TextEquality.{eq_iff}
use dao_dao_indexer.Prelude.{
  ℕ, ◌≤◌, ◌≡◌, refl, sym, ap, ◌∙◌, false, List, [], ◌∷◌, Option, none, some, String, drop,
  Bool-cases, Option-cases, inl, inr, arith,
}
use dao_dao_indexer.Prelude.Text.{lookup, insert, lookup-insert, lookup-insert_self}
use dao_dao_indexer.Formulas.Events.{
  Event, AllEvents, Loaded, current_index, current_event, cache_at, cache_found, cache_exact,
}
use dao_dao_indexer.Formulas.Events.Latest.{
  IsAscending, latest_at, current_event-latest_at, latest_at-drop, drop-IsAscending,
  get_elem?-current_index,
}

module _ {Row : Type 0} where
  abbrev pub events_or : Option (List (Event Row)) → List (Event Row)
  events_or none = []
  events_or (some events) = events

  -- The loaded events of a key.
  abbrev pub events_of : String → AllEvents Row → List (Event Row)
  events_of key all = events_or (lookup key all)

  abbrev pub AllAscending : AllEvents Row → Type 0
  AllAscending all = (key : String) → IsAscending (events_of key all)

  -- The events that are loaded afterwards have the same current events at all blocks from the
  -- height on.
  pub record IsSliced (height : ℕ) (before after : AllEvents Row) : Type 0 where
    pub ascending : AllAscending after
    pub same :
        (key : String) (later : ℕ)
        → height ≤ later
        → latest_at later (events_of key after) ≡ latest_at later (events_of key before)

  -- What the cache is to hold for a key with this current event.
  abbrev pub as_cached : Option (Event Row) → Option (List (Event Row))
  as_cached none = none
  as_cached (some e) = some (e ∷ [])

  abbrev pub IsCached : ℕ → String → Loaded Row → Type 0
  IsCached height key s =
      lookup key s.cache ≡ some (as_cached (latest_at height (events_of key s.all_events)))

  pub insert-IsSliced :
      (height : ℕ) (key : String) (events : List (Event Row)) (i : ℕ) (all : AllEvents Row)
      → AllAscending all
      → lookup key all ≡ some events
      → current_index height events ≡ some i
      → IsSliced height all (insert key (drop i events) all)
  insert-IsSliced height key events i all h e c =
      let asc : IsAscending events = rw e at (h key) in
      record {
        ascending = λ k. elim (Bool-cases (key == k)) [
          | inl eq ↦ rw (lookup-insert, eq) (drop-IsAscending i events asc)
          | inr ne ↦ rw (lookup-insert, ne) (h k)
        ];
        same = λ k later le. elim (Bool-cases (key == k)) [
          | inl eq ↦
              rw (lookup-insert, eq, ← (eq_iff key k).0 eq, e)
                (latest_at-drop height later events i asc le c)
          | inr ne ↦ rw (lookup-insert, ne) refl
        ];
      }

  pub IsSliced-refl :
      (height : ℕ) (all : AllEvents Row) → AllAscending all → IsSliced height all all
  IsSliced-refl height all h = record { ascending = h; same = λ k later le. refl }

  pub IsSliced-trans :
      {height : ℕ} {a b c : AllEvents Row}
      → IsSliced height a b
      → IsSliced height b c
      → IsSliced height a c
  IsSliced-trans p q = record {
    ascending = q.ascending;
    same = λ k later le. q.same k later le ∙ p.same k later le;
  }

  cache_at-IsSliced :
      (height : ℕ) (key : String) (events : List (Event Row)) (i : Option ℕ) (s : Loaded Row)
      → AllAscending s.all_events
      → lookup key s.all_events ≡ some events
      → current_index height events ≡ i
      → IsSliced height s.all_events (cache_at key events i s).all_events
  unfolding cache_at
  cache_at-IsSliced height key events none s h e c = IsSliced-refl height s.all_events h
  cache_at-IsSliced height key events (some i) s h e c =
      insert-IsSliced height key events i s.all_events h e c

  pub cache_exact-IsSliced :
      (height : ℕ) (key : String) (s : Loaded Row)
      → AllAscending s.all_events
      → IsSliced height s.all_events (cache_exact height key s).all_events
  unfolding cache_exact cache_found
  cache_exact-IsSliced height key s h = elim (Option-cases (lookup key s.all_events)) [
    | inl e ↦ rw (e, cache_found) (IsSliced-refl height s.all_events h)
    | inr (events, e) ↦ rw (e, cache_found) (cache_at-IsSliced height key events _ s h e refl)
  ]

  -- The cache entry that `cache_at` writes.
  cache_at-entry :
      (height : ℕ) (key : String) (events : List (Event Row)) (i : Option ℕ) (s : Loaded Row)
      → current_index height events ≡ i
      → IsAscending events
      → lookup key (cache_at key events i s).cache ≡ some (as_cached (latest_at height events))
  unfolding cache_at current_event
  cache_at-entry height key events none s c h =
      let l : latest_at height events ≡ none =
        sym (current_event-latest_at height events h) ∙ ap (current_event events) c in
      rw l (lookup-insert_self key none s.cache)
  cache_at-entry height key events (some i) s c h =
      let (f, a, l) = get_elem?-current_index height events h c in
      rw (l, a) (lookup-insert_self key (some (f ∷ [])) s.cache)

  pub cache_exact-entry :
      (height : ℕ) (key : String) (s : Loaded Row)
      → AllAscending s.all_events
      → lookup key (cache_exact height key s).cache
        ≡ some (as_cached (latest_at height (events_of key s.all_events)))
  unfolding cache_exact cache_found
  cache_exact-entry height key s h = elim (Option-cases (lookup key s.all_events)) [
    | inl e ↦ rw (e, cache_found) (lookup-insert_self key none s.cache)
    | inr (events, e) ↦
        let asc : IsAscending events = rw e at (h key) in
        rw (e, cache_found) (cache_at-entry height key events _ s refl asc)
  ]

  pub cache_exact-IsCached :
      (height : ℕ) (key : String) (s : Loaded Row)
      → AllAscending s.all_events
      → IsCached height key (cache_exact height key s)
  cache_exact-IsCached height key s h =
      cache_exact-entry height key s h
      ∙ ap (λ l. some (as_cached l))
          (sym ((cache_exact-IsSliced height key s h).same key height (omega arith)))

  -- The entry of another key stays.
  cache_at-other :
      (key j : String) (events : List (Event Row)) (s : Loaded Row)
      → (key == j) ≡ false
      → (i : Option ℕ) → lookup j (cache_at key events i s).cache ≡ lookup j s.cache
  unfolding cache_at
  cache_at-other key j events s ne none = rw (lookup-insert, ne) refl
  cache_at-other key j events s ne (some i) = rw (lookup-insert, ne) refl

  pub cache_exact-other :
      (height : ℕ) (key j : String) (s : Loaded Row)
      → (key == j) ≡ false
      → lookup j (cache_exact height key s).cache ≡ lookup j s.cache
  unfolding cache_exact cache_found
  cache_exact-other height key j s ne = elim (Option-cases (lookup key s.all_events)) [
    | inl e ↦ rw (e, cache_found, lookup-insert, ne) refl
    | inr (events, e) ↦
        rw (e, cache_found) (cache_at-other key j events s ne (current_index height events))
  ]

  pub cache_exact-keeps :
      (height : ℕ) (key j : String) (s : Loaded Row)
      → AllAscending s.all_events
      → IsCached height j s
      → IsCached height j (cache_exact height key s)
  cache_exact-keeps height key j s h c = elim (Bool-cases (key == j)) [
    | inl eq ↦
        subst (λ k. IsCached height k (cache_exact height key s)) ((eq_iff key j).0 eq)
          (cache_exact-IsCached height key s h)
    | inr ne ↦
        cache_exact-other height key j s ne
        ∙ c
        ∙ ap (λ l. some (as_cached l))
            (sym ((cache_exact-IsSliced height key s h).same j height (omega arith)))
  ]
