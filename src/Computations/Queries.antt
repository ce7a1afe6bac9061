-- ===== src/Computations/Queries.antt =====
-- The query of src/db/models/Computation.ts, `updateValidityUpToBlockHeight`, for the first event of a
-- dependency in some blocks.
use dao_dao_indexer.Prelude.{
  ℕ, suc, ◌<◌, ◌≤◌, ◌≡◌, refl, Bool, true, false, List, [], ◌∷◌, ◌++◌, Option, none, some, to_list,
  ltb, Bool-cases, inl, inr, arith, All, All-weaken,
}
use dao_dao_indexer.Formulas.Events.{DependentKey, Event}
use dao_dao_indexer.Computations.{
  Table, namespaced_keys, matches_any, earlier_of, lowest, find_keys, is_between, find_keys,
  find_first, first_newer_events, lower, reduce_newer, first_of, first_newer_event,
}

module _ {Row : Type 0} where
  reduce_newer-All :
      (P : Event Row → Type 0) (e : Event Row) (es : List (Event Row))
      → P e
      → All P es
      → P (reduce_newer e es)
  unfolding reduce_newer
  reduce_newer-All P e [] p h = p
  reduce_newer-All P e (f ∷ es) p h = elim (Bool-cases (ltb e.block.height f.block.height)) [
    | inl before ↦ rw before (reduce_newer-All P e es p h.1)
    | inr after ↦ rw after (reduce_newer-All P f es h.0 h.1)
  ]

  lower-le :
      (e f : Event Row)
      → ((lower e f).block.height ≤ e.block.height) × ((lower e f).block.height ≤ f.block.height)
  lower-le e f = elim (Bool-cases (ltb e.block.height f.block.height)) [
    | inl before ↦ rw before (omega arith, ground arith)
    | inr after ↦ rw after (ground arith, omega arith)
  ]

  reduce_newer-le :
      (e : Event Row) (es : List (Event Row)) → (reduce_newer e es).block.height ≤ e.block.height
  unfolding reduce_newer
  reduce_newer-le e [] = omega arith
  reduce_newer-le e (f ∷ es) = omega (arith, reduce_newer-le (lower e f) es, (lower-le e f).0)

  reduce_newer-least :
      (e : Event Row) (es : List (Event Row))
      → All (λ f. (reduce_newer e es).block.height ≤ f.block.height) es
  unfolding reduce_newer
  reduce_newer-least e [] = tt
  reduce_newer-least e (f ∷ es) = (
    omega (arith, reduce_newer-le (lower e f) es, (lower-le e f).1),
    reduce_newer-least (lower e f) es,
  )

module _ {Row : Type 0} (matches : DependentKey → Event Row → Bool) where
  -- No row in these blocks matches one of the dependencies that are in the namespace of its table.
  abbrev pub HasNoRow : List DependentKey → ℕ → ℕ → List (Event Row) → Type 0
  HasNoRow keys from to rows =
      All (λ e. from ≤ e.block.height → e.block.height ≤ to → matches_any matches keys e ≡ false)
        rows

  abbrev pub HasNoEvent : List (Table Row) → List DependentKey → ℕ → ℕ → Type 0
  HasNoEvent tables dependencies from to =
      All (λ t. HasNoRow (namespaced_keys t.namespace_prefix dependencies) from to t.rows) tables

  -- An event that is found is one of the blocks, and none of them is before it.
  abbrev IsFirst : List DependentKey → ℕ → ℕ → List (Event Row) → Option (Event Row) → Type 0
  IsFirst keys from to rows none = HasNoRow keys from to rows
  IsFirst keys from to rows (some event) =
      (from ≤ event.block.height)
      × (event.block.height ≤ to)
      × All
          (λ e.
            from ≤ e.block.height
            → e.block.height < event.block.height
            → matches_any matches keys e ≡ false)
          rows
      × (HasNoRow keys from to rows → ⊥)

  earlier_of-IsFirst :
      (keys : List DependentKey) (from to : ℕ) (e : Event Row) (rows : List (Event Row))
      (rest : Option (Event Row))
      → is_between matches keys from to e ≡ true
      → IsFirst keys from to rows rest
      → IsFirst keys from to (e ∷ rows) (earlier_of e rest)
  earlier_of-IsFirst keys from to e rows none inside h = (
    ground arith,
    ground arith,
    (
      λ f before. absurd (omega arith),
      All-weaken
          (λ d. from ≤ d.block.height → d.block.height ≤ to → matches_any matches keys d ≡ false) _
          (λ d absent f before. absent f (ground arith)) rows h,
    ),
    λ absent. ground (arith, inside, absent.0),
  )
  earlier_of-IsFirst keys from to e rows (some other) inside (f, t, none_before, found) =
      elim (Bool-cases (ltb other.block.height e.block.height)) [
        | inl later ↦
            rw later
              (f, t, (λ f' before. absurd (ground arith), none_before), λ absent. found absent.1)
        | inr now ↦ rw now (
          ground arith,
          ground arith,
          (
            λ f' before. absurd (omega arith),
            All-weaken
                (λ d.
                  from ≤ d.block.height
                  → d.block.height < other.block.height
                  → matches_any matches keys d ≡ false)
                _ (λ d absent f' before. absent f' (ground arith)) rows none_before,
          ),
          λ absent. ground (arith, inside, absent.0),
        )
      ]

  skip-IsFirst :
      (keys : List DependentKey) (from to : ℕ) (e : Event Row) (rows : List (Event Row))
      (rest : Option (Event Row))
      → is_between matches keys from to e ≡ false
      → IsFirst keys from to rows rest
      → IsFirst keys from to (e ∷ rows) rest
  skip-IsFirst keys from to e rows none outside h = (λ f t. ground (arith, outside, f, t), h)
  skip-IsFirst keys from to e rows (some other) outside (f, t, none_before, found) = (
    f,
    t,
    (λ f' before. ground (arith, outside, f', before, t), none_before),
    λ absent. found absent.1,
  )

  lowest-IsFirst :
      (keys : List DependentKey) (from to : ℕ) (rows : List (Event Row))
      → IsFirst keys from to rows (lowest matches (is_between matches keys from to) rows)
  unfolding lowest
  lowest-IsFirst keys from to [] = tt
  lowest-IsFirst keys from to (e ∷ rows) =
      let ih = lowest-IsFirst keys from to rows in
      elim (Bool-cases (is_between matches keys from to e)) [
        | inl inside ↦ rw inside (earlier_of-IsFirst keys from to e rows _ inside ih)
        | inr outside ↦ rw outside (skip-IsFirst keys from to e rows _ outside ih)
      ]

  -- No matching row is in these blocks, before a height.
  abbrev pub NoRowBefore : List DependentKey → ℕ → ℕ → ℕ → List (Event Row) → Type 0
  NoRowBefore keys from to n rows =
      All
        (λ e.
          from ≤ e.block.height
          → e.block.height ≤ to
          → e.block.height < n
          → matches_any matches keys e ≡ false)
        rows

  abbrev pub NoEventBefore : List (Table Row) → List DependentKey → ℕ → ℕ → ℕ → Type 0
  NoEventBefore tables dependencies from to n =
      All (λ t. NoRowBefore (namespaced_keys t.namespace_prefix dependencies) from to n t.rows)
        tables

  abbrev pub IsWithin : ℕ → ℕ → Event Row → Type 0
  IsWithin from to e = (from ≤ e.block.height) × (e.block.height ≤ to)

  -- What a query finds: events of the blocks, none if and only if there is none, and the lowest.
  record IsFound (keys : List DependentKey) (from to : ℕ) (rows : List (Event Row))
      (found : Option (Event Row)) : Type 0 where
    within : All (IsWithin from to) (to_list found)
    lowest_of :
        (n : ℕ) → All (λ e. n ≤ e.block.height) (to_list found) → NoRowBefore keys from to n rows
    exists : HasNoRow keys from to rows → found ≡ none

  IsFirst-IsFound :
      (keys : List DependentKey) (from to : ℕ) (rows : List (Event Row))
      (found : Option (Event Row))
      → IsFirst keys from to rows found
      → IsFound keys from to rows found
  IsFirst-IsFound keys from to rows none h = record {
    within = tt;
    lowest_of = λ n le.
        All-weaken
          (λ d. from ≤ d.block.height → d.block.height ≤ to → matches_any matches keys d ≡ false) _
          (λ d absent f t before. absent f t) rows h;
    exists = λ absent. refl;
  }
  IsFirst-IsFound keys from to rows (some e) (f, t, none_before, there) = record {
    within = ((f, t), tt);
    lowest_of = λ n le.
        All-weaken
          (λ d.
            from ≤ d.block.height
            → d.block.height < e.block.height
            → matches_any matches keys d ≡ false)
          _ (λ d absent f' t' before. absent f' (omega (arith, le.0, before))) rows none_before;
    exists = λ absent. absurd (there absent);
  }

  no_keys : (from to : ℕ) (rows : List (Event Row)) → HasNoRow [] from to rows
  no_keys from to [] = tt
  no_keys from to (e ∷ rows) = (λ f t. refl, no_keys from to rows)

  find_keys-IsFound :
      (keys : List DependentKey) (from to : ℕ) (rows : List (Event Row))
      → IsFound keys from to rows (find_keys matches keys from to rows)
  unfolding find_keys
  find_keys-IsFound [] from to rows = IsFirst-IsFound [] from to rows none (no_keys from to rows)
  find_keys-IsFound (k ∷ keys) from to rows =
      IsFirst-IsFound (k ∷ keys) from to rows _ (lowest-IsFirst (k ∷ keys) from to rows)

  find_first-IsFound :
      (dependencies : List DependentKey) (from to : ℕ) (t : Table Row)
      → IsFound
          (namespaced_keys t.namespace_prefix dependencies)
          from
          to
          t.rows
          (find_first matches dependencies from to t)
  find_first-IsFound dependencies from to t =
      find_keys-IsFound (namespaced_keys t.namespace_prefix dependencies) from to t.rows

  record AreFound (tables : List (Table Row)) (dependencies : List DependentKey) (from to : ℕ)
      (found : List (Event Row)) : Type 0 where
    within : All (IsWithin from to) found
    lowest_of :
        (n : ℕ) → All (λ e. n ≤ e.block.height) found → NoEventBefore tables dependencies from to n
    exists : HasNoEvent tables dependencies from to → found ≡ []

  add-AreFound :
      (t : Table Row) (tables : List (Table Row)) (dependencies : List DependentKey) (from to : ℕ)
      (one : Option (Event Row)) (found : List (Event Row))
      → IsFound (namespaced_keys t.namespace_prefix dependencies) from to t.rows one
      → AreFound tables dependencies from to found
      → AreFound (t ∷ tables) dependencies from to (to_list one ++ found)
  add-AreFound t tables dependencies from to none found h k = record {
    within = k.within;
    lowest_of = λ n le. (h.lowest_of n tt, k.lowest_of n le);
    exists = λ absent. k.exists absent.1;
  }
  add-AreFound t tables dependencies from to (some e) found h k = record {
    within = (h.within.0, k.within);
    lowest_of = λ n le. (h.lowest_of n (le.0, tt), k.lowest_of n le.1);
    exists = λ absent. absurd (cc (h.exists absent.0));
  }

  first_newer_events-AreFound :
      (tables : List (Table Row)) (dependencies : List DependentKey) (from to : ℕ)
      → AreFound tables dependencies from to
          (first_newer_events matches dependencies from to tables)
  unfolding first_newer_events
  first_newer_events-AreFound [] dependencies from to = record {
    within = tt;
    lowest_of = λ n le. tt;
    exists = λ absent. refl;
  }
  first_newer_events-AreFound (t ∷ tables) dependencies from to =
      add-AreFound t tables dependencies from to _ _ (find_first-IsFound dependencies from to t)
        (first_newer_events-AreFound tables dependencies from to)

  -- The event that is found is the first of all tables.
  abbrev pub IsFirstOf : List (Table Row) → List DependentKey → ℕ → ℕ → Option (Event Row) → Type 0
  IsFirstOf tables dependencies from to none = HasNoEvent tables dependencies from to
  IsFirstOf tables dependencies from to (some e) =
      IsWithin from to e
      × NoEventBefore tables dependencies from to e.block.height
      × (HasNoEvent tables dependencies from to → ⊥)

  reduced-IsFirstOf :
      (tables : List (Table Row)) (dependencies : List DependentKey) (from to : ℕ) (e : Event Row)
      (es : List (Event Row))
      → AreFound tables dependencies from to (e ∷ es)
      → IsFirstOf tables dependencies from to (some (reduce_newer e es))
  reduced-IsFirstOf tables dependencies from to e es h = (
    reduce_newer-All (IsWithin from to) e es h.within.0 h.within.1,
    h.lowest_of (reduce_newer e es).block.height (reduce_newer-le e es, reduce_newer-least e es),
    λ absent. cc (h.exists absent),
  )

  NoEventBefore-end :
      (tables : List (Table Row)) (dependencies : List DependentKey) (from to : ℕ)
      → NoEventBefore tables dependencies from to (suc to)
      → HasNoEvent tables dependencies from to
  NoEventBefore-end [] dependencies from to h = tt
  NoEventBefore-end (t ∷ tables) dependencies from to h = (
    All-weaken
        (λ e.
          from ≤ e.block.height
          → e.block.height ≤ to
          → e.block.height < suc to
          → matches_any matches (namespaced_keys t.namespace_prefix dependencies) e ≡ false)
        _ (λ e absent f t'. absent f t' (omega (arith, t'))) t.rows h.0,
    NoEventBefore-end tables dependencies from to h.1,
  )

  first_of-IsFirstOf :
      (tables : List (Table Row)) (dependencies : List DependentKey) (from to : ℕ)
      (found : List (Event Row))
      → AreFound tables dependencies from to found
      → IsFirstOf tables dependencies from to (first_of found)
  unfolding first_of
  first_of-IsFirstOf tables dependencies from to [] h =
      NoEventBefore-end tables dependencies from to (h.lowest_of (suc to) tt)
  first_of-IsFirstOf tables dependencies from to (e ∷ es) h =
      reduced-IsFirstOf tables dependencies from to e es h

  pub first_newer_event-IsFirstOf :
      (tables : List (Table Row)) (dependencies : List DependentKey) (from to : ℕ)
      → IsFirstOf tables dependencies from to
          (first_newer_event matches dependencies from to tables)
  first_newer_event-IsFirstOf tables dependencies from to =
      first_of-IsFirstOf tables dependencies from to _
        (first_newer_events-AreFound tables dependencies from to)
