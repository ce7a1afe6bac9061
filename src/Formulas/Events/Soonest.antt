-- ===== src/Formulas/Events/Soonest.antt =====
-- `getNextPotentialBlock` over all its keys, prefixes included.
use text.Mathlib.Text.{◌==◌, starts_with}
use dao_dao_indexer.Prelude.{
  ℕ, ◌<◌, ◌≤◌, not, List, [], ◌∷◌, ◌++◌, Option, none, some, find, to_list, filter, Bool-cases, ◌⊎◌,
  inl, inr, arith, All, String,
}
use dao_dao_indexer.Prelude.Text.{lookup}
use dao_dao_indexer.Formulas.Events.{
  Event, DependentKey, Block, AllEvents, is_after, earlier, find_found, next_exacts, next_prefixes,
  insert_by_height, sort_by_height, first, matching_events, prefixed, get_next_potential_block,
}
use dao_dao_indexer.Formulas.Events.Latest.{IsAscending}
use dao_dao_indexer.Formulas.Events.Cache.{events_of}
use dao_dao_indexer.Formulas.Events.Next.{
  AtMost, IsLater, Covers, block_of, earlier-AtMost, earlier-IsLater, find-Covers, find-IsLater,
  find_found-Covers, find_found-IsLater,
}

module _ {Row : Type 0} where
  -- Over the entries of a prefix.
  abbrev pub EachCovers : ℕ → Option Block → AllEvents Row → Type 0
  EachCovers height next [] = Unit
  EachCovers height next ((key, events) ∷ entries) =
      Covers height next events × EachCovers height next entries

  abbrev pub EachAscending : AllEvents Row → Type 0
  EachAscending [] = Unit
  EachAscending ((key, events) ∷ entries) = IsAscending events × EachAscending entries

  first-insert :
      (e : Event Row) (fs : List (Event Row)) (n : ℕ)
      → (e.block.height ≤ n) ⊎ AtMost (block_of (first fs)) n
      → AtMost (block_of (first (insert_by_height e fs))) n
  unfolding first insert_by_height
  first-insert e [] n h = ground arith
  first-insert e (f ∷ fs) n h = ground arith

  first-insert-IsLater :
      (height : ℕ) (e : Event Row) (fs : List (Event Row))
      → height < e.block.height
      → IsLater height (block_of (first fs))
      → IsLater height (block_of (first (insert_by_height e fs)))
  unfolding first insert_by_height
  first-insert-IsLater height e [] h k = h
  first-insert-IsLater height e (f ∷ fs) h k = ground arith

  first_matching : ℕ → AllEvents Row → Option (Event Row)
  first_matching height entries = first (sort_by_height (matching_events height entries))

  pub Covers-weaken :
      (height : ℕ) (a b : Option Block) (es : List (Event Row))
      → ((n : ℕ) → AtMost a n → AtMost b n)
      → Covers height a es
      → Covers height b es
  Covers-weaken height a b [] w h = tt
  Covers-weaken height a b (e ∷ es) w h =
      (λ p. w e.block.height (h.0 p), Covers-weaken height a b es w h.1)

  EachCovers-weaken :
      (height : ℕ) (a b : Option Block) (entries : AllEvents Row)
      → ((n : ℕ) → AtMost a n → AtMost b n)
      → EachCovers height a entries
      → EachCovers height b entries
  EachCovers-weaken height a b [] w h = tt
  EachCovers-weaken height a b ((key, es) ∷ entries) w h =
      (Covers-weaken height a b es w h.0, EachCovers-weaken height a b entries w h.1)

  sort-first :
      (m : Option (Event Row)) (rest : List (Event Row)) (n : ℕ)
      → AtMost (block_of m) n ⊎ AtMost (block_of (first (sort_by_height rest))) n
      → AtMost (block_of (first (sort_by_height (to_list m ++ rest)))) n
  unfolding sort_by_height
  sort-first none rest n (inr h) = h
  sort-first none rest n (inl h) = absurd h
  sort-first (some f) rest n h = first-insert f (sort_by_height rest) n h

  sort-first-IsLater :
      (height : ℕ) (m : Option (Event Row)) (rest : List (Event Row))
      → IsLater height (block_of m)
      → IsLater height (block_of (first (sort_by_height rest)))
      → IsLater height (block_of (first (sort_by_height (to_list m ++ rest))))
  unfolding sort_by_height
  sort-first-IsLater height none rest h k = k
  sort-first-IsLater height (some f) rest h k =
      first-insert-IsLater height f (sort_by_height rest) h k

  first_matching-EachCovers :
      (height : ℕ) (entries : AllEvents Row)
      → EachAscending entries
      → EachCovers height (block_of (first_matching height entries)) entries
  unfolding first_matching matching_events
  first_matching-EachCovers height [] h = tt
  first_matching-EachCovers height ((key, es) ∷ entries) h =
      let found = find (is_after height) es in
      let rest = matching_events height entries in
      (
        Covers-weaken height (block_of found) _ es (λ n p. sort-first found rest n (inl p))
            (find-Covers height es h.0),
        EachCovers-weaken height (block_of (first_matching height entries)) _ entries
            (λ n p. sort-first found rest n (inr p)) (first_matching-EachCovers height entries h.1),
      )

  first_matching-IsLater :
      (height : ℕ) (entries : AllEvents Row)
      → IsLater height (block_of (first_matching height entries))
  unfolding first_matching matching_events sort_by_height first
  first_matching-IsLater height [] = tt
  first_matching-IsLater height ((key, es) ∷ entries) =
      sort-first-IsLater height (find (is_after height) es) (matching_events height entries)
        (find-IsLater height es) (first_matching-IsLater height entries)

  prefixed-EachAscending :
      (p : String) (all : AllEvents Row) → EachAscending all → EachAscending (prefixed p all)
  unfolding prefixed
  prefixed-EachAscending p [] h = tt
  prefixed-EachAscending p ((key, es) ∷ all) h = elim (Bool-cases (starts_with key p)) [
    | inl e ↦ rw e (h.0, prefixed-EachAscending p all h.1)
    | inr e ↦ rw e (prefixed-EachAscending p all h.1)
  ]

  pub lookup-EachAscending :
      (key : String) (all : AllEvents Row) → EachAscending all → IsAscending (events_of key all)
  unfolding lookup
  lookup-EachAscending key [] h = tt
  lookup-EachAscending key ((j, es) ∷ all) h = elim (Bool-cases (j == key)) [
    | inl e ↦ rw e h.0
    | inr e ↦ rw e (lookup-EachAscending key all h.1)
  ]

  pub next_exacts-keeps :
      (height : ℕ) (all : AllEvents Row) (ks : List DependentKey) (next : Option Block) (n : ℕ)
      → AtMost next n
      → AtMost (next_exacts height all ks next) n
  unfolding next_exacts
  next_exacts-keeps height all [] next n h = h
  next_exacts-keeps height all (k ∷ ks) next n h =
      next_exacts-keeps height all ks _ n (earlier-AtMost next _ n (inl h))

  next_prefixes-keeps :
      (height : ℕ) (all : AllEvents Row) (ks : List DependentKey) (next : Option Block) (n : ℕ)
      → AtMost next n
      → AtMost (next_prefixes height all ks next) n
  unfolding next_prefixes
  next_prefixes-keeps height all [] next n h = h
  next_prefixes-keeps height all (k ∷ ks) next n h =
      next_prefixes-keeps height all ks _ n (earlier-AtMost next _ n (inl h))

  next_exacts-Covers :
      (height : ℕ) (all : AllEvents Row) (ks : List DependentKey) (next : Option Block)
      → EachAscending all
      → All (λ k. Covers height (next_exacts height all ks next) (events_of k.key all)) ks
  unfolding next_exacts
  next_exacts-Covers height all [] next h = tt
  next_exacts-Covers height all (k ∷ ks) next h =
      let found = find_found height (lookup k.key all) in
      (
        Covers-weaken height (block_of found) _ (events_of k.key all)
            (λ n p. next_exacts-keeps height all ks _ n (earlier-AtMost next found n (inr p)))
            (find_found-Covers height (lookup k.key all) (lookup-EachAscending k.key all h)),
        next_exacts-Covers height all ks (earlier next found) h,
      )

  next_prefixes-EachCovers :
      (height : ℕ) (all : AllEvents Row) (ks : List DependentKey) (next : Option Block)
      → EachAscending all
      → All (λ k. EachCovers height (next_prefixes height all ks next) (prefixed k.key all)) ks
  unfolding next_prefixes first_matching
  next_prefixes-EachCovers height all [] next h = tt
  next_prefixes-EachCovers height all (k ∷ ks) next h =
      let found = first_matching height (prefixed k.key all) in
      (
        EachCovers-weaken height (block_of found) _ (prefixed k.key all)
            (λ n p. next_prefixes-keeps height all ks _ n (earlier-AtMost next found n (inr p)))
            (first_matching-EachCovers height (prefixed k.key all)
              (prefixed-EachAscending k.key all h)),
        next_prefixes-EachCovers height all ks _ h,
      )

  pub next_exacts-IsLater :
      (height : ℕ) (all : AllEvents Row) (ks : List DependentKey) (next : Option Block)
      → IsLater height next
      → IsLater height (next_exacts height all ks next)
  unfolding next_exacts
  next_exacts-IsLater height all [] next h = h
  next_exacts-IsLater height all (k ∷ ks) next h =
      next_exacts-IsLater height all ks _
        (earlier-IsLater height next _ h (find_found-IsLater height (lookup k.key all)))

  next_prefixes-IsLater :
      (height : ℕ) (all : AllEvents Row) (ks : List DependentKey) (next : Option Block)
      → IsLater height next
      → IsLater height (next_prefixes height all ks next)
  unfolding next_prefixes first_matching
  next_prefixes-IsLater height all [] next h = h
  next_prefixes-IsLater height all (k ∷ ks) next h =
      next_prefixes-IsLater height all ks _
        (earlier-IsLater height next _ h (first_matching-IsLater height (prefixed k.key all)))

  All-Covers-keeps :
      (height : ℕ) (all : AllEvents Row) (ps : List DependentKey) (next : Option Block)
      (ks : List DependentKey)
      → All (λ k. Covers height next (events_of k.key all)) ks
      → All (λ k. Covers height (next_prefixes height all ps next) (events_of k.key all)) ks
  All-Covers-keeps height all ps next [] h = tt
  All-Covers-keeps height all ps next (k ∷ ks) h = (
    Covers-weaken height next _ (events_of k.key all)
        (λ n p. next_prefixes-keeps height all ps next n p) h.0,
    All-Covers-keeps height all ps next ks h.1,
  )

  -- The block that is returned is after the current one, and no loaded event of the dependent keys,
  -- prefixes included, is after the current block and before it; if none is returned, no loaded
  -- event of theirs is after the current block. (The events of each key ascend.)
  pub get_next_potential_block-Covers :
      (keys : List DependentKey) (all : AllEvents Row) (current : Block)
      → EachAscending all
      → let next = get_next_potential_block keys all current in
        IsLater current.height next
        × All
            (λ k. Covers current.height next (events_of k.key all))
            (filter (λ k. not k.prefix) keys)
        × All
            (λ k. EachCovers current.height next (prefixed k.key all))
            (filter (λ k. k.prefix) keys)
  unfolding get_next_potential_block
  get_next_potential_block-Covers keys all current h =
      let height = current.height in
      let exacts = filter (λ (k : DependentKey). not k.prefix) keys in
      let prefixes = filter (λ (k : DependentKey). k.prefix) keys in
      let early = next_exacts height all exacts none in
      (
        next_prefixes-IsLater height all prefixes early
            (next_exacts-IsLater height all exacts none tt),
        All-Covers-keeps height all prefixes early exacts
            (next_exacts-Covers height all exacts none h),
        next_prefixes-EachCovers height all prefixes early h,
      )
