-- ===== src/Formulas/Compute/Used.antt =====
-- The events that a run of a formula of src/formulas/compute.ts uses.
use mathlib.Core.Path.{subst}
use text.Mathlib.Text.{◌==◌}
use text.Mathlib.TextEquality.{eq_iff}
use text.Mathlib.TextPositions.{eq_refl}
use dao_dao_indexer.Prelude.{
  ℕ, ◌≡◌, refl, sym, ap, ◌∙◌, Bool, true, false, List, [], ◌∷◌, ◌++◌, String, Option, none, some,
  some_of, to_list, ltb, Bool-cases, Option-cases, ◌⊎◌, inl, inr, arith, All, All-weaken,
}
use dao_dao_indexer.Formulas.Events.{DependentKey, Event}
use dao_dao_indexer.Formulas.Events.Latest.{latest_at}
use dao_dao_indexer.Formulas.Events.Exact.{has_dependent}
use dao_dao_indexer.Formulas.Compute.{
  Formula, returns, gets, has_key, rows_of, exact, find_one, undeleted,
}
use dao_dao_indexer.Formulas.Compute.Runs.{keys_read, rows_read}

module _ {Row : Type 0} where
  latest_at-All :
      (P : Event Row → Type 0) (height : ℕ) (es : List (Event Row)) {e : Event Row}
      → All P es
      → latest_at height es ≡ some e
      → P e
  latest_at-All P height [] h at = cc
  latest_at-All P height (f ∷ es) h at = elim (Option-cases (latest_at height es)) [
    | inl missing ↦ elim (Bool-cases (ltb height f.block.height)) [
      | inl later ↦ absurd (ground (arith, at, missing, later))
      | inr now ↦ let same : f ≡ _ = ground (arith, at, missing, now) in subst P same h.0
    ]
    | inr (g, e) ↦ latest_at-All P height es h.1 (ground (arith, at, e))
  ]

  has_key-filter :
      (key : String) (rows : List (Event Row)) → All (λ e. has_key key e ≡ true) (rows_of key rows)
  has_key-filter key [] = tt
  has_key-filter key (e ∷ rows) = elim (Bool-cases (has_key key e)) [
    | inl same ↦ rw same (same, has_key-filter key rows)
    | inr other ↦ rw other (has_key-filter key rows)
  ]

  some_of-append :
      (p : Event Row → Bool) (found : Option (Event Row)) (es : List (Event Row))
      → some_of p es ≡ true
      → some_of p (to_list found ++ es) ≡ true
  some_of-append p none es h = h
  some_of-append p (some f) es h = elim (Bool-cases (p f)) [ inl b ↦ rw b refl | inr b ↦ rw b h ]

has_dependent-cons :
    (key : String) (k : DependentKey) (keys : List DependentKey)
    → has_dependent key keys ≡ true
    → has_dependent key (k ∷ keys) ≡ true
has_dependent-cons key k keys h = elim (Bool-cases (key == k.key)) [
  | inl b ↦ rw b refl
  | inr b ↦ rw b h
]

first-has_dependent :
    (key : String) (keys : List DependentKey) → has_dependent key (exact key ∷ keys) ≡ true
first-has_dependent key keys = rw (eq_refl key) refl

module _ {Row : Type 0} (rows : List (Event Row)) where
  find_one-has_key :
      (key : String) (height : ℕ) {e : Event Row}
      → find_one rows key height ≡ some e
      → e.dependent_key ≡ key
  unfolding find_one
  find_one-has_key key height {e} found = (eq_iff e.dependent_key key).0 (
      latest_at-All (λ f. has_key key f ≡ true) height (rows_of key rows) (has_key-filter key rows)
        found)

  -- The event is the current one of its key, which is among the keys.
  abbrev IsUsed : ℕ → List DependentKey → Event Row → Type 0
  IsUsed height keys e =
      (find_one rows e.dependent_key height ≡ some e) × (has_dependent e.dependent_key keys ≡ true)

  found-IsUsed :
      (key : String) (height : ℕ) (keys : List DependentKey) (found : Option (Event Row))
      (es : List (Event Row))
      → find_one rows key height ≡ found
      → All (IsUsed height keys) es
      → All (IsUsed height (exact key ∷ keys)) (to_list found ++ es)
  found-IsUsed key height keys none es e h =
      All-weaken (IsUsed height keys) (IsUsed height (exact key ∷ keys))
        (λ f u. (u.0, has_dependent-cons f.dependent_key (exact key) keys u.1)) es h
  found-IsUsed key height keys (some f) es e h =
      let k = find_one-has_key key height e in
      (
        (
          ap (λ j. find_one rows j height) k ∙ e,
          ap (λ j. has_dependent j (exact key ∷ keys)) k ∙ first-has_dependent key keys,
        ),
        All-weaken (IsUsed height keys) (IsUsed height (exact key ∷ keys))
            (λ f u. (u.0, has_dependent-cons f.dependent_key (exact key) keys u.1)) es h,
      )

  module _ {V : Type 0} (is_deleted : Row → Bool) where
    rows_read-IsUsed :
        (height : ℕ) (p : Formula Row V)
        → All
            (IsUsed height (keys_read rows is_deleted height p))
            (rows_read rows is_deleted height p)
    unfolding keys_read rows_read
    rows_read-IsUsed height (returns value) = tt
    rows_read-IsUsed height (gets key rest) =
        found-IsUsed key height _ (find_one rows key height) _ refl
          (rows_read-IsUsed height (rest (undeleted is_deleted (find_one rows key height))))

    -- A row that is found of a key that is read is among the events.
    pub some_of-rows_read :
        (height : ℕ) (key : String) (p : Formula Row V) {e : Event Row}
        → has_dependent key (keys_read rows is_deleted height p) ≡ true
        → find_one rows key height ≡ some e
        → some_of (has_key key) (rows_read rows is_deleted height p) ≡ true
    unfolding keys_read rows_read
    some_of-rows_read height key (returns value) known found = cc
    some_of-rows_read height key (gets j rest) {e} known found = elim (Bool-cases (key == j)) [
      | inl eq ↦
          let k : key ≡ j = (eq_iff key j).0 eq in
          let at : find_one rows j height ≡ some e =
            ap (λ i. find_one rows i height) (sym k) ∙ found in
          let same : (e.dependent_key == key) ≡ true =
            rw (find_one-has_key key height found, eq_refl key) refl in
          rw at (rw same refl)
      | inr ne ↦
          let tail : has_dependent key (
                keys_read rows is_deleted height
                  (rest (undeleted is_deleted (find_one rows j height))))
              ≡ true =
            rw ne at known in
          some_of-append (has_key key) (find_one rows j height) _ (
            some_of-rows_read height key (rest (undeleted is_deleted (find_one rows j height))) tail
              found)
    ]

    -- No event is of a key that is not read.
    pub rows_read-other :
        (height : ℕ) (key : String) (p : Formula Row V)
        → has_dependent key (keys_read rows is_deleted height p) ≡ false
        → All (λ e. has_key key e ≡ false) (rows_read rows is_deleted height p)
    rows_read-other height key p other =
        All-weaken (IsUsed height (keys_read rows is_deleted height p)) (λ e. has_key key e ≡ false)
          (λ e u. elim (Bool-cases (has_key key e)) [
            | inl same ↦ absurd (
                cc (
                  u.1,
                  other,
                  ap (λ j. has_dependent j (keys_read rows is_deleted height p))
                      ((eq_iff e.dependent_key key).0 same),
                ))
            | inr b ↦ b
          ])
          (rows_read rows is_deleted height p) (rows_read-IsUsed height p)

    -- Each event of a key is its current row.
    pub rows_read-one :
        (height : ℕ) (key : String) (p : Formula Row V)
        → All
            (λ e. (has_key key e ≡ false) ⊎ (find_one rows key height ≡ some e))
            (rows_read rows is_deleted height p)
    rows_read-one height key p =
        All-weaken (IsUsed height (keys_read rows is_deleted height p))
          (λ e. (has_key key e ≡ false) ⊎ (find_one rows key height ≡ some e))
          (λ e u. elim (Bool-cases (has_key key e)) [
            | inl same ↦
                inr (
                  ap (λ j. find_one rows j height) (sym ((eq_iff e.dependent_key key).0 same))
                  ∙ u.0)
            | inr b ↦ inl b
          ])
          (rows_read rows is_deleted height p) (rows_read-IsUsed height p)
