-- ===== src/Formulas/Compute/Runs.antt =====
-- A run of a formula of src/formulas/compute.ts, against what the formula reads and returns.
use mathlib.Core.List.{append_assoc, append-nil}
use text.Mathlib.Text.{◌==◌}
use text.Mathlib.TextEquality.{eq_iff}
use dao_dao_indexer.Prelude.{
  ℕ, ◌≡◌, refl, sym, ap, ◌∙◌, Bool, List, [], ◌∷◌, ◌++◌, String, Option, none, some, to_list, ◌⊎◌,
  inl, inr, Bool-cases,
}
use dao_dao_indexer.Prelude.Text.{lookup, insert, lookup-insert}
use dao_dao_indexer.Formulas.Events.{Block, DependentKey, Event, EventCache, first}
use dao_dao_indexer.Formulas.Compute.{
  Formula, returns, gets, exact, Run, find_one, newer, on_fetch, cached_or, entry_for, remember,
  undeleted, get, run_formula,
}

module _ {Row : Type 0} where
  newest_of : Option Block → Option (Event Row) → Option Block
  newest_of latest none = latest
  newest_of latest (some event) = newer latest event

  unfoldable pub newest : Option Block → List (Event Row) → Option Block
  newest latest [] = latest
  newest latest (event ∷ events) = newest (newer latest event) events

  newest-append :
      (latest : Option Block) (event : Option (Event Row)) (events : List (Event Row))
      → newest latest (to_list event ++ events) ≡ newest (newest_of latest event) events
  unfolding newest newest_of
  newest-append latest none events = refl
  newest-append latest (some event) events = refl

module _ {Row : Type 0} (rows : List (Event Row)) where
  -- What the cache holds is what the database says of the block.
  abbrev pub IsCurrent : ℕ → EventCache Row → Type 0
  IsCurrent height cache =
      (key : String)
      → (lookup key cache ≡ none) ⊎ (lookup key cache ≡ some (entry_for (find_one rows key height)))

  cached_or-entry_for :
      (event fetched : Option (Event Row)) → cached_or (some (entry_for event)) fetched ≡ event
  unfolding cached_or first
  cached_or-entry_for none fetched = refl
  cached_or-entry_for (some event) fetched = refl

  pub insert-IsCurrent :
      (height : ℕ) (key : String) (cache : EventCache Row) (event : Option (Event Row))
      → event ≡ find_one rows key height
      → IsCurrent height cache
      → IsCurrent height (insert key (entry_for event) cache)
  insert-IsCurrent height key cache event e h j = elim (Bool-cases (key == j)) [
    | inl same ↦
        let k : key ≡ j = (eq_iff key j).0 same in inr (rw (lookup-insert, same, e, k) refl)
    | inr other ↦ rw (lookup-insert, other) (h j)
  ]

  -- What `get` does: it finds the row of the database, and notes the key and the event.
  record Gets (height : ℕ) (key : String) (run : Run Row) (result : Option (Event Row) × Run Row)
      : Type 0 where
    found : result.0 ≡ find_one rows key height
    depended : result.1.dependent_keys ≡ run.dependent_keys ++ exact key ∷ []
    used : result.1.events_used ≡ run.events_used ++ to_list (find_one rows key height)
    latest : result.1.latest_block ≡ newest_of run.latest_block (find_one rows key height)
    current : IsCurrent height result.1.cache

  fetched-Gets :
      (height : ℕ) (key : String) (run run' : Run Row) (event : Option (Event Row))
      → event ≡ find_one rows key height
      → run'.dependent_keys ≡ run.dependent_keys ++ exact key ∷ []
      → run'.events_used ≡ run.events_used
      → run'.latest_block ≡ run.latest_block
      → IsCurrent height run'.cache
      → Gets height key run (event, on_fetch event run')
  unfolding on_fetch newest_of
  fetched-Gets height key run run' none e d u l c = record {
    found = e;
    depended = d;
    used = rw (← e) (u ∙ sym (append-nil run.events_used));
    latest = rw (← e) l;
    current = c;
  }
  fetched-Gets height key run run' (some event) e d u l c = record {
    found = e;
    depended = d;
    used = rw (← e) (ap (λ es. es ++ event ∷ []) u);
    latest = rw (← e) (ap (λ b. newer b event) l);
    current = c;
  }

  get-Gets :
      (height : ℕ) (key : String) (run : Run Row)
      → IsCurrent height run.cache
      → Gets height key run (get rows height key run)
  unfolding get remember
  get-Gets height key run h = elim (h key) [
    | inl e ↦
        rw (e, cached_or)
          (fetched-Gets height key run _ (find_one rows key height) refl refl refl refl
            (insert-IsCurrent height key run.cache _ refl h))
    | inr e ↦
        rw (e, cached_or-entry_for)
          (fetched-Gets height key run _ (find_one rows key height) refl refl refl refl h)
  ]

  module _ {V : Type 0} (is_deleted : Row → Bool) where
    -- The value of a formula at a height, by the rows that are current there.
    unfoldable pub eval : ℕ → Formula Row V → V
    eval height (returns value) = value
    eval height (gets key rest) =
        eval height (rest (undeleted is_deleted (find_one rows key height)))

    -- The keys that it reads, and the rows that it finds.
    unfoldable pub keys_read : ℕ → Formula Row V → List DependentKey
    keys_read height (returns value) = []
    keys_read height (gets key rest) =
        exact key ∷ keys_read height (rest (undeleted is_deleted (find_one rows key height)))

    unfoldable pub rows_read : ℕ → Formula Row V → List (Event Row)
    rows_read height (returns value) = []
    rows_read height (gets key rest) =
        to_list (find_one rows key height)
        ++ rows_read height (rest (undeleted is_deleted (find_one rows key height)))

    pub record IsRunOf (height : ℕ) (formula : Formula Row V) (run : Run Row) (result : V × Run Row)
        : Type 0 where
      pub value : result.0 ≡ eval height formula
      pub keys : result.1.dependent_keys ≡ run.dependent_keys ++ keys_read height formula
      pub used : result.1.events_used ≡ run.events_used ++ rows_read height formula
      pub latest : result.1.latest_block ≡ newest run.latest_block (rows_read height formula)

    gets-IsRunOf :
        (height : ℕ) (key : String) (rest : Option (Event Row) → Formula Row V) (run : Run Row)
        (result : Option (Event Row) × Run Row)
        → Gets height key run result
        → let next = rest (undeleted is_deleted (find_one rows key height)) in
          IsRunOf height next result.1 (run_formula is_deleted rows height next result.1)
          → IsRunOf height
              (gets key rest)
              run
              (run_formula is_deleted rows height (rest (undeleted is_deleted result.0)) result.1)
    unfolding keys_read rows_read eval
    gets-IsRunOf height key rest run result g ih =
        let found = find_one rows key height in
        let next = rest (undeleted is_deleted found) in
        rw g.found (record {
          value = ih.value;
          keys =
              ih.keys
              ∙ ap (λ l. l ++ keys_read height next) g.depended
              ∙ append_assoc run.dependent_keys (exact key ∷ []) (keys_read height next);
          used =
              ih.used
              ∙ ap (λ l. l ++ rows_read height next) g.used
              ∙ append_assoc run.events_used (to_list found) (rows_read height next);
          latest =
              ih.latest
              ∙ ap (λ b. newest b (rows_read height next)) g.latest
              ∙ sym (newest-append run.latest_block found (rows_read height next));
        })

    -- A run whose cache is current does what evaluation does.
    pub run_formula-IsRunOf :
        (height : ℕ) (formula : Formula Row V) (run : Run Row)
        → IsCurrent height run.cache
        → IsRunOf height formula run (run_formula is_deleted rows height formula run)
    unfolding run_formula eval keys_read rows_read newest
    run_formula-IsRunOf height (returns value) run h = record {
      value = refl;
      keys = sym (append-nil run.dependent_keys);
      used = sym (append-nil run.events_used);
      latest = refl;
    }
    run_formula-IsRunOf height (gets key rest) run h =
        let g = get-Gets height key run h in
        gets-IsRunOf height key rest run (get rows height key run) g (
          run_formula-IsRunOf height (rest (undeleted is_deleted (find_one rows key height)))
            (get rows height key run).1 g.current)
