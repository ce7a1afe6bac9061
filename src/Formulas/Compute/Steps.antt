-- ===== src/Formulas/Compute/Steps.antt =====
-- What the loop of src/formulas/compute.ts, `computeRange`, keeps of the loaded events: of each
-- known key they say, of the current block and of later ones, what the database says.
use mathlib.Core.Path.{subst}
use mathlib.Core.List.{append-nil}
use dao_dao_indexer.Prelude.{
  ℕ, ◌≤◌, ◌≡◌, refl, sym, ap, ◌∙◌, Bool, true, false, ◌||◌, List, [], ◌∷◌, ◌++◌, String, Option,
  none, some, Bool-cases, inl, inr, arith, All,
}
use dao_dao_indexer.Prelude.Text.{lookup}
use dao_dao_indexer.Formulas.Events.{
  Block, DependentKey, Event, AllEvents, sort_by_height, add_to_cache,
}
use dao_dao_indexer.Formulas.Events.Latest.{IsAscending, latest_at}
use dao_dao_indexer.Formulas.Events.Cache.{events_or, events_of, AllAscending, as_cached}
use dao_dao_indexer.Formulas.Events.Exact.{IsExact, has_dependent, add_to_cache-IsCachedFrom}
use dao_dao_indexer.Formulas.Events.Sorting.{sort_by_height-IsAscending}
use dao_dao_indexer.Formulas.Compute.{
  Formula, has_key, rows_of, find_one, is_future, find_future, entry_for, new_keys, add_used,
  add_future,
}
use dao_dao_indexer.Formulas.Compute.Runs.{IsCurrent, keys_read}
use dao_dao_indexer.Formulas.Compute.Quiet.{keys_read-IsExact}
use dao_dao_indexer.Formulas.Compute.Windows.{
  window, filter-IsAscending, loaded_rows, loaded_rows-IsAscending, latest_at-loaded_rows,
}
use dao_dao_indexer.Formulas.Compute.UsedStored.{used_events, used-known, used-new, used-other}
use dao_dao_indexer.Formulas.Compute.Stored.{
  rows_of-find_future, rows_of-find_future_none, events_of-add_future, lookup-add_future,
}
use dao_dao_indexer.Formulas.Compute.Known.{
  has_dependent-append, new_keys-known, new_keys-new, new_keys-IsExact, append-IsExact,
}

-- Of each known key the loaded events say, of the blocks from `at` up to `upto`, what the database
-- says, and of another key none are loaded.
pub record IsLoadedFor {Row : Type 0} (rows : List (Event Row)) (at upto : ℕ)
    (known : List DependentKey) (all : AllEvents Row) : Type 0 where
  pub exact_keys : IsExact known
  pub ascending : AllAscending all
  pub right :
      (key : String)
      → has_dependent key known ≡ true
      → (height : ℕ) → at ≤ height
      → height ≤ upto
      → latest_at height (events_of key all) ≡ find_one rows key height
  pub missing : (key : String) → has_dependent key known ≡ false → lookup key all ≡ none

module _ {Row : Type 0} where
  as_cached-entry_for : (e : Option (Event Row)) → as_cached e ≡ entry_for e
  as_cached-entry_for none = refl
  as_cached-entry_for (some e) = refl

  rows_of-IsAscending :
      (rows : List (Event Row)) (key : String) → IsAscending rows → IsAscending (rows_of key rows)
  rows_of-IsAscending rows key h = filter-IsAscending (has_key key) rows h

  -- A later block asks for less.
  pub IsLoadedFor-later :
      {rows : List (Event Row)} {at later upto : ℕ} {known : List DependentKey}
      {all : AllEvents Row}
      → at ≤ later
      → IsLoadedFor rows at upto known all
      → IsLoadedFor rows later upto known all
  IsLoadedFor-later le g = record {
    exact_keys = g.exact_keys;
    ascending = g.ascending;
    right = λ key known height from to. g.right key known height (omega (arith, le, from)) to;
    missing = g.missing;
  }

  pub new_range-IsLoadedFor :
      (rows : List (Event Row)) (at upto : ℕ) → IsLoadedFor rows at upto [] []
  unfolding lookup
  new_range-IsLoadedFor rows at upto = record {
    exact_keys = tt;
    ascending = λ key. tt;
    right = λ key known. absurd (cc known);
    missing = λ key known. refl;
  }

  -- `addToCache` makes the cache current, and keeps what is loaded right.
  pub add_to_cache-IsLoadedFor :
      (rows : List (Event Row)) (current : Block) (upto : ℕ) (known : List DependentKey)
      (all : AllEvents Row)
      → current.height ≤ upto
      → IsLoadedFor rows current.height upto known all
      → let loaded = add_to_cache known current (record { all_events = all; cache = [] }) in
        IsCurrent rows current.height loaded.cache
        × IsLoadedFor rows current.height upto known loaded.all_events
  unfolding lookup
  add_to_cache-IsLoadedFor rows current upto known all le g =
      let c =
        add_to_cache-IsCachedFrom known current (record { all_events = all; cache = [] })
          g.exact_keys g.ascending in
      (
        λ j. elim (c.current j) [
          | inl kept ↦ inl kept
          | inr (there, e) ↦ inr (
              e
              ∙ ap (λ f. some (as_cached f)) (g.right j there current.height (omega arith) le)
              ∙ ap some (as_cached-entry_for (find_one rows j current.height)))
        ],
        record {
          exact_keys = g.exact_keys;
          ascending = c.sliced.ascending;
          right = λ key there height from to.
              c.sliced.same key height from ∙ g.right key there height from to;
          missing = λ key other. c.missing key (g.missing key other);
        },
      )

  All-rows_of :
      (key : String) (es : List (Event Row))
      → rows_of key es ≡ []
      → All (λ e. has_key key e ≡ false) es
  All-rows_of key [] h = tt
  All-rows_of key (e ∷ es) h = elim (Bool-cases (has_key key e)) [
    | inl same ↦ absurd (ground (arith, same, h))
    | inr other ↦ (other, All-rows_of key es (rw other at h))
  ]

  module _ {V : Type 0} (is_deleted : Row → Bool) (rows : List (Event Row)) (current upto : ℕ)
      (within : current ≤ upto) (rows_ascend : IsAscending rows) (p : Formula Row V)
      (known : List DependentKey) (all : AllEvents Row)
      (g : IsLoadedFor rows current upto known all) where
    abbrev keys : List DependentKey
    keys = keys_read rows is_deleted current p

    abbrev future : List (Event Row)
    future = sort_by_height (find_future rows (new_keys known keys) current upto)

    -- The loaded events after the body of the loop.
    abbrev pub stored : AllEvents Row
    stored = add_future future (add_used (used_events is_deleted rows current p) all)

    future-sorted : future ≡ find_future rows (new_keys known keys) current upto
    unfolding find_future
    future-sorted =
        sort_by_height-IsAscending (find_future rows (new_keys known keys) current upto)
          (filter-IsAscending (is_future (new_keys known keys) current upto) rows rows_ascend)

    future-none :
        (key : String) → has_dependent key (new_keys known keys) ≡ false → rows_of key future ≡ []
    future-none key other =
        ap (rows_of key) future-sorted
        ∙ rows_of-find_future_none key (new_keys known keys) current upto rows other

    stored-known :
        (key : String) → has_dependent key known ≡ true → events_of key stored ≡ events_of key all
    stored-known key there =
        events_of-add_future key future (add_used (used_events is_deleted rows current p) all)
        ∙ ap (λ l. events_of key (add_used (used_events is_deleted rows current p) all) ++ l)
            (future-none key (
              new_keys-known key known keys g.exact_keys
                (keys_read-IsExact rows is_deleted current p) there))
        ∙ append-nil (events_of key (add_used (used_events is_deleted rows current p) all))
        ∙ used-known is_deleted rows current p key all
            (g.right key there current (omega arith) within)

    stored-new :
        (key : String)
        → has_dependent key known ≡ false
        → has_dependent key keys ≡ true
        → events_of key stored ≡ loaded_rows current upto (rows_of key rows)
    unfolding find_one
    stored-new key new read =
        let asked =
          new_keys-new key known keys g.exact_keys (keys_read-IsExact rows is_deleted current p) new
          ∙ read in
        events_of-add_future key future (add_used (used_events is_deleted rows current p) all)
        ∙ ap (λ l. events_of key (add_used (used_events is_deleted rows current p) all) ++ l)
            (ap (rows_of key) future-sorted
              ∙ rows_of-find_future key (new_keys known keys) current upto rows asked)
        ∙ ap (λ l. l ++ window current upto (rows_of key rows))
            (used-new is_deleted rows current p key all (g.missing key new) read)

    stored-other :
        (key : String)
        → has_dependent key known ≡ false
        → has_dependent key keys ≡ false
        → lookup key stored ≡ none
    stored-other key new unread =
        lookup-add_future key future (add_used (used_events is_deleted rows current p) all) (
          All-rows_of key future (
            future-none key (
              new_keys-new key known keys g.exact_keys (keys_read-IsExact rows is_deleted current p)
                new
              ∙ unread)))
        ∙ used-other is_deleted rows current p key all unread
        ∙ g.missing key new

    abbrev pub all_keys : List DependentKey
    all_keys = known ++ new_keys known keys

    pub has_dependent-all_keys :
        (key : String)
        → has_dependent key all_keys ≡ (has_dependent key known || has_dependent key keys)
    has_dependent-all_keys key =
        has_dependent-append key known (new_keys known keys)
        ∙ elim (Bool-cases (has_dependent key known)) [
          | inl there ↦ rw there refl
          | inr new ↦ rw new (
              new_keys-new key known keys g.exact_keys (keys_read-IsExact rows is_deleted current p)
                new)
        ]

    stored-IsAscending : AllAscending stored
    stored-IsAscending key = elim (Bool-cases (has_dependent key known)) [
      | inl there ↦ subst IsAscending (sym (stored-known key there)) (g.ascending key)
      | inr new ↦ elim (Bool-cases (has_dependent key keys)) [
        | inl read ↦ subst IsAscending (sym (stored-new key new read)) (
            loaded_rows-IsAscending current upto (rows_of key rows) within
              (rows_of-IsAscending rows key rows_ascend))
        | inr unread ↦ subst (λ m. IsAscending (events_or m)) (sym (stored-other key new unread)) tt
      ]
    ]

    stored-right :
        (key : String)
        → has_dependent key all_keys ≡ true
        → (height : ℕ) → current ≤ height
        → height ≤ upto
        → latest_at height (events_of key stored) ≡ find_one rows key height
    unfolding find_one
    stored-right key there height from to = elim (Bool-cases (has_dependent key known)) [
      | inl old ↦ ap (latest_at height) (stored-known key old) ∙ g.right key old height from to
      | inr new ↦
          let read : has_dependent key keys ≡ true =
            sym (sym there ∙ has_dependent-all_keys key ∙ rw new refl) in
          ap (latest_at height) (stored-new key new read)
          ∙ latest_at-loaded_rows current upto height (rows_of key rows) from to
              (rows_of-IsAscending rows key rows_ascend)
    ]

    pub stored-IsLoadedFor : IsLoadedFor rows current upto all_keys stored
    stored-IsLoadedFor = record {
      exact_keys =
          append-IsExact known (new_keys known keys) g.exact_keys
            (new_keys-IsExact known keys (keys_read-IsExact rows is_deleted current p));
      ascending = stored-IsAscending;
      right = stored-right;
      missing = λ key other. elim (Bool-cases (has_dependent key known)) [
        | inl old ↦ absurd (ground (arith, other, has_dependent-all_keys key, old))
        | inr new ↦ elim (Bool-cases (has_dependent key keys)) [
          | inl read ↦ absurd (ground (arith, other, has_dependent-all_keys key, read))
          | inr unread ↦ stored-other key new unread
        ]
      ];
    }
