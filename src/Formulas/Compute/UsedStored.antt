-- ===== src/Formulas/Compute/UsedStored.antt =====
-- What the events that a run of a formula of src/formulas/compute.ts uses add to the loaded ones.
use mathlib.Core.Path.{subst}
use text.Mathlib.TextPositions.{eq_refl}
use dao_dao_indexer.Prelude.{
  ℕ, ◌≡◌, refl, sym, ap, ◌∙◌, Bool, true, false, ◌||◌, List, [], ◌∷◌, String, none, some, some_of,
  to_list, ltb, Bool-cases, Option-cases, ◌⊎◌, inl, inr, arith, All-weaken,
}
use dao_dao_indexer.Prelude.Text.{lookup}
use dao_dao_indexer.Formulas.Events.{Event, AllEvents, sort_by_height}
use dao_dao_indexer.Formulas.Events.Latest.{latest_at}
use dao_dao_indexer.Formulas.Events.Cache.{events_or, events_of}
use dao_dao_indexer.Formulas.Events.Exact.{has_dependent}
use dao_dao_indexer.Formulas.Events.Sorting.{All-sort_by_height, some_of-sort_by_height}
use dao_dao_indexer.Formulas.Compute.{Formula, has_key, find_one, add_used, is_event}
use dao_dao_indexer.Formulas.Compute.Runs.{keys_read, rows_read}
use dao_dao_indexer.Formulas.Compute.Used.{some_of-rows_read, rows_read-other, rows_read-one}
use dao_dao_indexer.Formulas.Compute.Stored.{
  lookup-add_used_other, lookup-add_used_there, lookup-add_used_new,
}

or_true : (b : Bool) {c : Bool} → c ≡ true → (b || c) ≡ true
or_true true h = refl
or_true false h = h

module _ {Row : Type 0} where
  some-injective : {e f : Event Row} → some e ≡ some f → e ≡ f
  some-injective h = cc

  first-is_event : (f : Event Row) (es : List (Event Row)) → some_of (is_event f) (f ∷ es) ≡ true
  first-is_event f es =
      let same : ltb f.block.height f.block.height ≡ false = ground arith in
      rw (eq_refl f.dependent_key) (ground arith)

  latest_at-is_event :
      (height : ℕ) (es : List (Event Row)) {e : Event Row}
      → latest_at height es ≡ some e
      → some_of (is_event e) es ≡ true
  latest_at-is_event height [] at = cc
  latest_at-is_event height (f ∷ es) {e} at = elim (Option-cases (latest_at height es)) [
    | inl missing ↦ elim (Bool-cases (ltb height f.block.height)) [
      | inl later ↦ absurd (ground (arith, at, missing, later))
      | inr now ↦
          let same : f ≡ e = ground (arith, at, missing, now) in
          subst (λ d. some_of (is_event d) (f ∷ es) ≡ true) same (first-is_event f es)
    ]
    | inr (g, there) ↦
        let rest : latest_at height es ≡ some e = ground (arith, at, there) in
        or_true (is_event e f) (latest_at-is_event height es rest)
  ]

  module _ {V : Type 0} (is_deleted : Row → Bool) (rows : List (Event Row)) (current : ℕ)
      (p : Formula Row V) where
    abbrev pub used_events : List (Event Row)
    used_events = sort_by_height (rows_read rows is_deleted current p)

    pub used-none :
        (key : String) (all : AllEvents Row)
        → find_one rows key current ≡ none
        → lookup key (add_used used_events all) ≡ lookup key all
    used-none key all nothing = lookup-add_used_other key used_events all (
        All-sort_by_height (λ e. has_key key e ≡ false) (rows_read rows is_deleted current p)
          (All-weaken (λ e. (has_key key e ≡ false) ⊎ (find_one rows key current ≡ some e))
            (λ e. has_key key e ≡ false)
            (λ e h. elim h [ inl other ↦ other | inr found ↦ absurd (cc (found, nothing)) ])
            (rows_read rows is_deleted current p) (rows_read-one rows is_deleted current key p)))

    -- A key that is not read gets none.
    pub used-other :
        (key : String) (all : AllEvents Row)
        → has_dependent key (keys_read rows is_deleted current p) ≡ false
        → lookup key (add_used used_events all) ≡ lookup key all
    used-other key all other = lookup-add_used_other key used_events all (
        All-sort_by_height (λ e. has_key key e ≡ false) (rows_read rows is_deleted current p)
          (rows_read-other rows is_deleted current key p other))

    -- A known key gets no event.
    pub used-known :
        (key : String) (all : AllEvents Row)
        → latest_at current (events_of key all) ≡ find_one rows key current
        → events_of key (add_used used_events all) ≡ events_of key all
    used-known key all right = elim (Option-cases (lookup key all)) [
      | inl missing ↦
          let nothing : find_one rows key current ≡ none =
            sym right ∙ ap (λ m. latest_at current (events_or m)) missing in
          ap events_or (used-none key all nothing)
      | inr (es, there) ↦
          let latest : latest_at current es ≡ find_one rows key current =
            sym (ap (λ m. latest_at current (events_or m)) there) ∙ right in
          ap events_or (
            lookup-add_used_there key used_events all there (
              All-sort_by_height (λ e. (has_key key e ≡ false) ⊎ (some_of (is_event e) es ≡ true))
                (rows_read rows is_deleted current p)
                (All-weaken (λ e. (has_key key e ≡ false) ⊎ (find_one rows key current ≡ some e))
                  (λ e. (has_key key e ≡ false) ⊎ (some_of (is_event e) es ≡ true))
                  (λ e h. elim h [
                    | inl other ↦ inl other
                    | inr found ↦ inr (latest_at-is_event current es (latest ∙ found))
                  ])
                  (rows_read rows is_deleted current p)
                  (rows_read-one rows is_deleted current key p)))
            ∙ sym there)
    ]

    -- A new key gets its current row.
    pub used-new :
        (key : String) (all : AllEvents Row)
        → lookup key all ≡ none
        → has_dependent key (keys_read rows is_deleted current p) ≡ true
        → events_of key (add_used used_events all) ≡ to_list (find_one rows key current)
    used-new key all missing known = elim (Option-cases (find_one rows key current)) [
      | inl nothing ↦ rw (used-none key all nothing, missing, nothing) refl
      | inr (f, found) ↦
          rw
            (
              lookup-add_used_new key used_events all f missing
                  (All-sort_by_height (λ e. (has_key key e ≡ false) ⊎ (e ≡ f))
                    (rows_read rows is_deleted current p)
                    (All-weaken
                      (λ e. (has_key key e ≡ false) ⊎ (find_one rows key current ≡ some e))
                      (λ e. (has_key key e ≡ false) ⊎ (e ≡ f))
                      (λ e h. elim h [
                        | inl other ↦ inl other
                        | inr same ↦ inr (some-injective (sym same ∙ found))
                      ])
                      (rows_read rows is_deleted current p)
                      (rows_read-one rows is_deleted current key p)))
                  (some_of-sort_by_height (has_key key) (rows_read rows is_deleted current p)
                    ∙ some_of-rows_read rows is_deleted current key p known found),
              found,
            )
            refl
    ]
