-- ===== src/Formulas/Compute/Stored.antt =====
-- What src/formulas/compute.ts, `computeRange`, adds to the loaded events of each key.
use mathlib.Core.List.{append_assoc, append-nil}
use text.Mathlib.TextEquality.{eq_iff}
use text.Mathlib.TextPositions.{eq_refl}
use dao_dao_indexer.Prelude.{
  ℕ, ◌≡◌, refl, sym, ap, ◌∙◌, Bool, true, false, ◌&&◌, List, [], ◌∷◌, ◌++◌, String, Option, none,
  some, some_of, Bool-cases, ◌⊎◌, inl, inr, arith, All,
}
use dao_dao_indexer.Prelude.Text.{lookup, lookup-insert}
use dao_dao_indexer.Formulas.Events.{DependentKey, Event, AllEvents}
use dao_dao_indexer.Formulas.Events.Cache.{events_of}
use dao_dao_indexer.Formulas.Events.Exact.{has_dependent}
use dao_dao_indexer.Formulas.Compute.{
  has_key, rows_of, is_future, find_future, is_event, add_used_to, add_used, add_future_to,
  add_future,
}
use dao_dao_indexer.Formulas.Compute.Windows.{in_window, window}

module _ {Row : Type 0} where
  is_future_of :
      (key : String) (keys : List DependentKey) (after upto : ℕ) (e : Event Row) {known : Bool}
      → has_dependent key keys ≡ known
      → has_key key e ≡ true
      → is_future keys after upto e ≡ (known && in_window after upto e)
  is_future_of key keys after upto e h same =
      let k : e.dependent_key ≡ key = (eq_iff e.dependent_key key).0 same in
      let known = ap (λ j. has_dependent j keys) k ∙ h in rw known refl

  -- The future rows of a key that is asked for are those of its rows, and another key has none.
  pub rows_of-find_future :
      (key : String) (keys : List DependentKey) (after upto : ℕ) (rows : List (Event Row))
      → has_dependent key keys ≡ true
      → rows_of key (find_future rows keys after upto) ≡ window after upto (rows_of key rows)
  unfolding find_future
  rows_of-find_future key keys after upto [] h = refl
  rows_of-find_future key keys after upto (e ∷ rows) h =
      let ih = rows_of-find_future key keys after upto rows h in
      elim (Bool-cases (has_key key e)) [
        | inl same ↦
            let test = is_future_of key keys after upto e h same in
            elim (Bool-cases (in_window after upto e)) [
              | inl inside ↦ rw (test, inside, same) (rw (inside, ih) refl)
              | inr outside ↦ rw (test, outside, same) (rw (outside, ih) refl)
            ]
        | inr other ↦ elim (Bool-cases (is_future keys after upto e)) [
          | inl future ↦ rw (future, other) ih
          | inr past ↦ rw (past, other) ih
        ]
      ]

  pub rows_of-find_future_none :
      (key : String) (keys : List DependentKey) (after upto : ℕ) (rows : List (Event Row))
      → has_dependent key keys ≡ false
      → rows_of key (find_future rows keys after upto) ≡ []
  unfolding find_future
  rows_of-find_future_none key keys after upto [] h = refl
  rows_of-find_future_none key keys after upto (e ∷ rows) h =
      let ih = rows_of-find_future_none key keys after upto rows h in
      elim (Bool-cases (has_key key e)) [
        | inl same ↦ rw (is_future_of key keys after upto e h same) ih
        | inr other ↦ elim (Bool-cases (is_future keys after upto e)) [
          | inl future ↦ rw (future, other) ih
          | inr past ↦ rw past ih
        ]
      ]

  events_of-add_future_to :
      (key : String) (e : Event Row) (all : AllEvents Row) (found : Option (List (Event Row)))
      → lookup e.dependent_key all ≡ found
      → events_of key (add_future_to e found all) ≡ events_of key all ++ rows_of key (e ∷ [])
  unfolding add_future_to
  events_of-add_future_to key e all none f = elim (Bool-cases (has_key key e)) [
    | inl same ↦
        let k : e.dependent_key ≡ key = (eq_iff e.dependent_key key).0 same in
        let nothing : lookup key all ≡ none = ap (λ j. lookup j all) (sym k) ∙ f in
        rw (lookup-insert, same, nothing) refl
    | inr other ↦ rw (lookup-insert, other) (sym (append-nil _))
  ]
  events_of-add_future_to key e all (some es) f = elim (Bool-cases (has_key key e)) [
    | inl same ↦
        let k : e.dependent_key ≡ key = (eq_iff e.dependent_key key).0 same in
        let there : lookup key all ≡ some es = ap (λ j. lookup j all) (sym k) ∙ f in
        rw (lookup-insert, same, there) refl
    | inr other ↦ rw (lookup-insert, other) (sym (append-nil _))
  ]

  -- The events of each key are added at the end of its own.
  pub events_of-add_future :
      (key : String) (future : List (Event Row)) (all : AllEvents Row)
      → events_of key (add_future future all) ≡ events_of key all ++ rows_of key future
  unfolding add_future
  events_of-add_future key [] all = sym (append-nil _)
  events_of-add_future key (e ∷ future) all =
      events_of-add_future key future (add_future_to e (lookup e.dependent_key all) all)
      ∙ ap (λ l. l ++ rows_of key future) (events_of-add_future_to key e all _ refl)
      ∙ append_assoc (events_of key all) (rows_of key (e ∷ [])) (rows_of key future)
      ∙ elim (Bool-cases (has_key key e)) [ inl same ↦ rw same refl | inr other ↦ rw other refl ]

  add_future_to-other :
      (key : String) (e : Event Row) (all : AllEvents Row) (found : Option (List (Event Row)))
      → has_key key e ≡ false
      → lookup key (add_future_to e found all) ≡ lookup key all
  unfolding add_future_to
  add_future_to-other key e all none other = rw (lookup-insert, other) refl
  add_future_to-other key e all (some es) other = rw (lookup-insert, other) refl

  pub lookup-add_future :
      (key : String) (future : List (Event Row)) (all : AllEvents Row)
      → All (λ e. has_key key e ≡ false) future
      → lookup key (add_future future all) ≡ lookup key all
  unfolding add_future
  lookup-add_future key [] all h = refl
  lookup-add_future key (e ∷ future) all h =
      lookup-add_future key future (add_future_to e (lookup e.dependent_key all) all) h.1
      ∙ add_future_to-other key e all _ h.0

  add_used_to-other :
      (key : String) (e : Event Row) (all : AllEvents Row) (found : Option (List (Event Row)))
      → has_key key e ≡ false
      → lookup key (add_used_to e found all) ≡ lookup key all
  unfolding add_used_to
  add_used_to-other key e all none other = rw (lookup-insert, other) refl
  add_used_to-other key e all (some es) other = elim (Bool-cases (some_of (is_event e) es)) [
    | inl there ↦ rw there refl
    | inr missing ↦ rw (missing, lookup-insert, other) refl
  ]

  pub lookup-add_used_other :
      (key : String) (used : List (Event Row)) (all : AllEvents Row)
      → All (λ e. has_key key e ≡ false) used
      → lookup key (add_used used all) ≡ lookup key all
  unfolding add_used
  lookup-add_used_other key [] all h = refl
  lookup-add_used_other key (e ∷ used) all h =
      lookup-add_used_other key used (add_used_to e (lookup e.dependent_key all) all) h.1
      ∙ add_used_to-other key e all _ h.0

  add_used_to-there :
      (key : String) (e : Event Row) (all : AllEvents Row) {es : List (Event Row)}
      → lookup key all ≡ some es
      → has_key key e ≡ true
      → some_of (is_event e) es ≡ true
      → add_used_to e (lookup e.dependent_key all) all ≡ all
  unfolding add_used_to
  add_used_to-there key e all {es} there same includes =
      let k : e.dependent_key ≡ key = (eq_iff e.dependent_key key).0 same in
      let found = ap (λ j. lookup j all) k ∙ there in rw (found, add_used_to, includes) refl

  -- Events that are there are not added again.
  pub lookup-add_used_there :
      (key : String) (used : List (Event Row)) (all : AllEvents Row) {es : List (Event Row)}
      → lookup key all ≡ some es
      → All (λ e. (has_key key e ≡ false) ⊎ (some_of (is_event e) es ≡ true)) used
      → lookup key (add_used used all) ≡ some es
  unfolding add_used
  lookup-add_used_there key [] all there h = there
  lookup-add_used_there key (e ∷ used) all {es} there h = elim (Bool-cases (has_key key e)) [
    | inl same ↦ elim h.0 [
      | inl other ↦ absurd (cc (same, other))
      | inr includes ↦
          rw (add_used_to-there key e all there same includes)
            (lookup-add_used_there key used all there h.1)
    ]
    | inr other ↦
        lookup-add_used_there key used (add_used_to e (lookup e.dependent_key all) all)
          (add_used_to-other key e all _ other ∙ there) h.1
  ]

  add_used_to-new :
      (key : String) (e : Event Row) (all : AllEvents Row)
      → lookup key all ≡ none
      → has_key key e ≡ true
      → lookup key (add_used_to e (lookup e.dependent_key all) all) ≡ some (e ∷ [])
  unfolding add_used_to
  add_used_to-new key e all missing same =
      let k : e.dependent_key ≡ key = (eq_iff e.dependent_key key).0 same in
      let found = ap (λ j. lookup j all) k ∙ missing in
      rw (found, add_used_to, lookup-insert, same) refl

  is_event_refl : (e : Event Row) → some_of (is_event e) (e ∷ []) ≡ true
  is_event_refl e = rw (eq_refl e.dependent_key) (ground arith)

  same-is_event :
      (key : String) (event : Event Row) (used : List (Event Row))
      → All (λ e. (has_key key e ≡ false) ⊎ (e ≡ event)) used
      → All (λ e. (has_key key e ≡ false) ⊎ (some_of (is_event e) (event ∷ []) ≡ true)) used
  same-is_event key event [] h = tt
  same-is_event key event (e ∷ used) h = (
    elim h.0 [ inl other ↦ inl other | inr same ↦ inr (rw same (is_event_refl event)) ],
    same-is_event key event used h.1,
  )

  -- The events of a key that is not there are one and the same, and it is added once.
  pub lookup-add_used_new :
      (key : String) (used : List (Event Row)) (all : AllEvents Row) (event : Event Row)
      → lookup key all ≡ none
      → All (λ e. (has_key key e ≡ false) ⊎ (e ≡ event)) used
      → some_of (has_key key) used ≡ true
      → lookup key (add_used used all) ≡ some (event ∷ [])
  unfolding add_used
  lookup-add_used_new key [] all event missing h found = absurd (cc found)
  lookup-add_used_new key (e ∷ used) all event missing h found = elim (Bool-cases (has_key key e)) [
    | inl same ↦ elim h.0 [
      | inl other ↦ absurd (cc (same, other))
      | inr is ↦
          let first = add_used_to-new key e all missing same ∙ ap (λ f. some (f ∷ [])) is in
          lookup-add_used_there key used _ first (same-is_event key event used h.1)
    ]
    | inr other ↦
        lookup-add_used_new key used _ event (add_used_to-other key e all _ other ∙ missing) h.1
          (rw other at found)
  ]
