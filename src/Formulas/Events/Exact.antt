-- ===== src/Formulas/Events/Exact.antt =====
-- `addToCache` and `getNextPotentialBlock` of src/formulas/compute.ts, where no dependent key is a
-- prefix.
use mathlib.Core.Path.{subst}
use text.Mathlib.Text.{◌==◌}
use text.Mathlib.TextEquality.{eq_iff}
use text.Mathlib.TextPositions.{eq_refl}
use dao_dao_indexer.Prelude.{
  ℕ, ◌≤◌, ◌≡◌, refl, ap, ◌∙◌, Bool, true, false, not, List, [], ◌∷◌, String, Option, none, some,
  filter, find, some_of, ltb, Bool-cases, Option-cases, ◌⊎◌, inl, inr, arith, All,
}
use dao_dao_indexer.Prelude.Text.{lookup, lookup-insert}
use dao_dao_indexer.Formulas.Events.{
  Block, DependentKey, Event, AllEvents, Loaded, is_after, current_index, cache_at, cache_found,
  cache_exact, cache_exacts, cache_prefixes, add_to_cache, earlier, find_found, next_exacts,
  next_prefixes, get_next_potential_block,
}
use dao_dao_indexer.Formulas.Events.Latest.{IsAscending, latest_at}
use dao_dao_indexer.Formulas.Events.Cache.{
  events_or, events_of, AllAscending, IsSliced, IsSliced-refl, IsSliced-trans, as_cached,
  cache_exact-IsSliced, cache_exact-entry, cache_exact-other,
}
use dao_dao_indexer.Formulas.Events.Next.{Covers, block_of, earlier-AtMost, find_found-Covers}
use dao_dao_indexer.Formulas.Events.Soonest.{Covers-weaken, next_exacts-keeps}

abbrev pub IsExact : List DependentKey → Type 0
IsExact = All (λ k. k.prefix ≡ false)

-- A key is among the dependent keys.
abbrev pub has_dependent : String → List DependentKey → Bool
has_dependent key keys = some_of (λ (k : DependentKey). key == k.key) keys

filter-not_prefix :
    (keys : List DependentKey) → IsExact keys → filter (λ k. not k.prefix) keys ≡ keys
filter-not_prefix [] h = refl
filter-not_prefix (k ∷ keys) h =
    let ih = filter-not_prefix keys h.1 in let exact : k.prefix ≡ false = h.0 in simp (exact, ih)

filter-prefix : (keys : List DependentKey) → IsExact keys → filter (λ k. k.prefix) keys ≡ []
filter-prefix [] h = refl
filter-prefix (k ∷ keys) h =
    let ih = filter-prefix keys h.1 in let exact : k.prefix ≡ false = h.0 in simp (exact, ih)

module _ {Row : Type 0} where
  -- What `addToCache` does: the loaded events still say the same of the block and of later ones, a
  -- key that was not loaded is not, and each cache entry is as it was, or is current and of one of
  -- the keys.
  pub record IsCachedFrom (height : ℕ) (keys : List DependentKey) (s s' : Loaded Row) : Type 0 where
    pub sliced : IsSliced height s.all_events s'.all_events
    pub missing : (j : String) → lookup j s.all_events ≡ none → lookup j s'.all_events ≡ none
    pub current :
        (j : String)
        → (lookup j s'.cache ≡ lookup j s.cache)
          ⊎ ((has_dependent j keys ≡ true)
              × (lookup j s'.cache
                  ≡ some (as_cached (latest_at height (events_of j s.all_events)))))

  lookup-cache_exact_missing :
      (height : ℕ) (key j : String) (s : Loaded Row)
      → lookup j s.all_events ≡ none
      → lookup j (cache_exact height key s).all_events ≡ none
  unfolding cache_exact cache_found cache_at
  lookup-cache_exact_missing height key j s h = elim (Option-cases (lookup key s.all_events)) [
    | inl e ↦ rw (e, cache_found) h
    | inr (events, e) ↦ elim (Option-cases (current_index height events)) [
      | inl at ↦ rw (e, cache_found, at, cache_at) h
      | inr (i, at) ↦
          let other : (key == j) ≡ false = elim (Bool-cases (key == j)) [
            | inl same ↦ absurd (cc (e, h, ap (λ k. lookup k s.all_events) ((eq_iff key j).0 same)))
            | inr other ↦ other
          ] in
          rw (e, cache_found, at, cache_at, lookup-insert, other) h
    ]
  ]

  cache_exacts-IsCachedFrom :
      (height : ℕ) (keys : List DependentKey) (s : Loaded Row)
      → AllAscending s.all_events
      → IsCachedFrom height keys s (cache_exacts height keys s)
  unfolding cache_exacts
  cache_exacts-IsCachedFrom height [] s h = record {
    sliced = IsSliced-refl height s.all_events h;
    missing = λ j e. e;
    current = λ j. inl refl;
  }
  cache_exacts-IsCachedFrom height (k ∷ keys) s h =
      let sliced = cache_exact-IsSliced height k.key s h in
      let rest =
        cache_exacts-IsCachedFrom height keys (cache_exact height k.key s) sliced.ascending in
      record {
        sliced = IsSliced-trans sliced rest.sliced;
        missing = λ j e. rest.missing j (lookup-cache_exact_missing height k.key j s e);
        current = λ j. elim (rest.current j) [
          | inl kept ↦ elim (Bool-cases (k.key == j)) [
            | inl same ↦
                let e : k.key ≡ j = (eq_iff k.key j).0 same in
                inr (
                  rw (e, eq_refl j) refl,
                  kept
                      ∙ subst
                          (λ i.
                            lookup i (cache_exact height k.key s).cache
                            ≡ some (as_cached (latest_at height (events_of i s.all_events))))
                          e (cache_exact-entry height k.key s h),
                )
            | inr other ↦ inl (kept ∙ cache_exact-other height k.key j s other)
          ]
          | inr (known, e) ↦ inr (
            elim (Bool-cases (j == k.key)) [ inl same ↦ rw same refl | inr other ↦ rw other known ],
            e ∙ ap (λ l. some (as_cached l)) (sliced.same j height (omega arith)),
          )
        ];
      }

  -- The exact keys of `addToCache`.
  pub add_to_cache-IsCachedFrom :
      (keys : List DependentKey) (block : Block) (s : Loaded Row)
      → IsExact keys
      → AllAscending s.all_events
      → IsCachedFrom block.height keys s (add_to_cache keys block s)
  unfolding add_to_cache cache_prefixes
  add_to_cache-IsCachedFrom keys block s exact h =
      rw (filter-not_prefix keys exact, filter-prefix keys exact)
        (cache_exacts-IsCachedFrom block.height keys s h)

  pub get_next_potential_block_of_exact :
      (keys : List DependentKey) (all : AllEvents Row) (current : Block)
      → IsExact keys
      → get_next_potential_block keys all current ≡ next_exacts current.height all keys none
  unfolding get_next_potential_block next_prefixes
  get_next_potential_block_of_exact keys all current exact =
      rw (filter-not_prefix keys exact, filter-prefix keys exact) refl

  pub next_exacts-AllCovers :
      (height : ℕ) (all : AllEvents Row) (keys : List DependentKey) (next : Option Block)
      → AllAscending all
      → All (λ k. Covers height (next_exacts height all keys next) (events_of k.key all)) keys
  unfolding next_exacts
  next_exacts-AllCovers height all [] next h = tt
  next_exacts-AllCovers height all (k ∷ keys) next h =
      let found = find_found height (lookup k.key all) in
      (
        Covers-weaken height (block_of found) _ (events_of k.key all)
            (λ n p. next_exacts-keeps height all keys _ n (earlier-AtMost next found n (inr p)))
            (find_found-Covers height (lookup k.key all) (h k.key)),
        next_exacts-AllCovers height all keys (earlier next found) h,
      )

  -- The block is one at which a key has an event.
  abbrev pub IsReached : AllEvents Row → List DependentKey → Block → Type 0
  IsReached all keys block =
      (k : DependentKey) × (f : Event Row) × (has_dependent k.key keys ≡ true)
      × (latest_at block.height (events_of k.key all) ≡ some f)
      × (f.block.height ≡ block.height)

  earlier-cases :
      (next : Option Block) (f : Event Row) {block : Block}
      → earlier next (some f) ≡ some block
      → (next ≡ some block) ⊎ (f.block ≡ block)
  unfolding earlier
  earlier-cases none f e = inr (ground (arith, e))
  earlier-cases (some b) f e = elim (Bool-cases (ltb f.block.height b.height)) [
    | inl before ↦ inr (ground (arith, before, e))
    | inr after ↦ inl (ground (arith, after, e))
  ]

  latest_at_of_le :
      (e : Event Row) (es : List (Event Row))
      → All (λ f. e.block.height ≤ f.block.height) es
      → (f : Event Row) × (latest_at e.block.height (e ∷ es) ≡ some f)
        × (f.block.height ≡ e.block.height)
  latest_at_of_le e [] h =
      let now : ltb e.block.height e.block.height ≡ false = ground arith in (e, rw now refl, refl)
  latest_at_of_le e (g ∷ es) h =
      let now : ltb e.block.height e.block.height ≡ false = ground arith in
      let (f, at, same) = latest_at_of_le e es h.1 in
      elim (Option-cases (latest_at e.block.height es)) [
        | inl missing ↦ elim (Bool-cases (ltb e.block.height g.block.height)) [
          | inl later ↦ (e, rw (missing, later, now) refl, refl)
          | inr still ↦ (g, rw (missing, still) refl, ground (arith, h.0))
        ]
        | inr (f', e') ↦ (f', rw e' refl, cc (at, same, e', now))
      ]

  find-latest_at :
      (height : ℕ) (es : List (Event Row)) {e : Event Row}
      → IsAscending es
      → find (is_after height) es ≡ some e
      → (f : Event Row) × (latest_at e.block.height es ≡ some f) × (f.block.height ≡ e.block.height)
  unfolding is_after
  find-latest_at height [] h found = cc
  find-latest_at height (g ∷ es) {e} h found = elim (Bool-cases (ltb height g.block.height)) [
    | inl later ↦
        let same : g ≡ e = ground (arith, later, found) in
        subst
          (λ d.
            (f : Event Row) × (latest_at d.block.height (g ∷ es) ≡ some f)
            × (f.block.height ≡ d.block.height))
          same (latest_at_of_le g es h.0)
    | inr now ↦
        let rest : find (is_after height) es ≡ some e = rw now at found in
        let (f, at, same) = find-latest_at height es h.1 rest in (f, rw at refl, same)
  ]

  earlier-IsReached :
      (height : ℕ) (all : AllEvents Row) (k : DependentKey) (keys : List DependentKey)
      (next : Option Block) (found : Option (List (Event Row))) {block : Block}
      → lookup k.key all ≡ found
      → IsAscending (events_or found)
      → earlier next (find_found height found) ≡ some block
      → (next ≡ some block) ⊎ IsReached all (k ∷ keys) block
  unfolding earlier find_found
  earlier-IsReached height all k keys next none l h e = inl e
  earlier-IsReached height all k keys next (some es) {block} l h e =
      elim (Option-cases (find (is_after height) es)) [
        | inl missing ↦ inl (rw missing at e)
        | inr (f, found) ↦
            let (g, at, same) = find-latest_at height es h found in
            let k-first : has_dependent k.key (k ∷ keys) ≡ true = rw (eq_refl k.key) refl in
            let by : (f.block ≡ block) → IsReached all (k ∷ keys) block =
              λ b. (k, g, k-first, rw (l, ← b) at, same ∙ ap (λ c. c.height) b) in
            elim (earlier-cases next f (rw found at e)) [
              | inl kept ↦ inl kept
              | inr taken ↦ inr (by taken)
            ]
      ]

  pub next_exacts-IsReached :
      (height : ℕ) (all : AllEvents Row) (keys : List DependentKey) (next : Option Block)
      {block : Block}
      → AllAscending all
      → next_exacts height all keys next ≡ some block
      → (next ≡ some block) ⊎ IsReached all keys block
  unfolding next_exacts
  next_exacts-IsReached height all [] next h e = inl e
  next_exacts-IsReached height all (k ∷ keys) next h e =
      elim (next_exacts-IsReached height all keys
        (earlier next (find_found height (lookup k.key all))) h e) [
          | inl now ↦ earlier-IsReached height all k keys next _ refl (h k.key) now
          | inr (j, f, known, at, same) ↦
              let there : has_dependent j.key (k ∷ keys) ≡ true =
                elim (Bool-cases (j.key == k.key)) [ inl b ↦ rw b refl | inr b ↦ rw b known ] in
              inr (j, f, there, at, same)
        ]
