-- ===== src/Formulas/Compute/Quiet.antt =====
-- Two runs of a formula of src/formulas/compute.ts, at a block and at a later one: what they have in
-- common where the rows that the first one reads are the same, and what the second one reads where
-- one of these rows has changed.
use text.Mathlib.Text.{◌==◌}
use text.Mathlib.TextEquality.{eq_iff}
use dao_dao_indexer.Prelude.{
  ℕ, ◌≤◌, ◌≡◌, refl, sym, ap, ◌∙◌, Bool, true, List, [], ◌∷◌, ◌++◌, String, Option, none, some,
  to_list, Bool-cases, ◌⊎◌, inl, inr, arith, All,
}
use dao_dao_indexer.Formulas.Events.{Block, Event}
use dao_dao_indexer.Formulas.Events.Latest.{get-latest_at}
use dao_dao_indexer.Formulas.Events.Exact.{IsExact, has_dependent}
use dao_dao_indexer.Formulas.Compute.{Formula, returns, gets, find_one, newer, rows_of, undeleted}
use dao_dao_indexer.Formulas.Compute.Runs.{newest, eval, keys_read, rows_read}

-- A block that is there is at or before the height.
abbrev pub IsNotLater : ℕ → Option Block → Type 0
IsNotLater height none = Unit
IsNotLater height (some block) = block.height ≤ height

-- A block is there, and is at the height.
abbrev pub IsAt : ℕ → Option Block → Type 0
IsAt height none = ⊥
IsAt height (some block) = block.height ≡ height

module _ {Row : Type 0} where
  -- One of the events is at the height.
  abbrev pub IsTouched : ℕ → List (Event Row) → Type 0
  IsTouched height [] = ⊥
  IsTouched height (e ∷ es) = (e.block.height ≡ height) ⊎ IsTouched height es

  abbrev pub IsUpTo : ℕ → List (Event Row) → Type 0
  IsUpTo height es = All (λ e. e.block.height ≤ height) es

  newer-IsNotLater :
      (height : ℕ) (latest : Option Block) (e : Event Row)
      → IsNotLater height latest
      → e.block.height ≤ height
      → IsNotLater height (newer latest e)
  unfolding newer
  newer-IsNotLater height none e h le = le
  newer-IsNotLater height (some b) e h le = ground arith

  pub newest-IsNotLater :
      (height : ℕ) (latest : Option Block) (es : List (Event Row))
      → IsNotLater height latest
      → IsUpTo height es
      → IsNotLater height (newest latest es)
  unfolding newest
  newest-IsNotLater height latest [] h le = h
  newest-IsNotLater height latest (e ∷ es) h le =
      newest-IsNotLater height (newer latest e) es (newer-IsNotLater height latest e h le.0) le.1

  newer-IsAt :
      (height : ℕ) (latest : Option Block) (e : Event Row)
      → IsNotLater height latest
      → IsAt height latest ⊎ (e.block.height ≡ height)
      → e.block.height ≤ height
      → IsAt height (newer latest e)
  unfolding newer
  newer-IsAt height none e h (inl at) le = absurd at
  newer-IsAt height none e h (inr at) le = at
  newer-IsAt height (some b) e h (inl at) le = ground arith
  newer-IsAt height (some b) e h (inr at) le = ground arith

  newest-stays :
      (height : ℕ) (latest : Option Block) (es : List (Event Row))
      → IsNotLater height latest
      → IsUpTo height es
      → IsAt height latest
      → IsAt height (newest latest es)
  unfolding newest
  newest-stays height latest [] h le at = at
  newest-stays height latest (e ∷ es) h le at =
      newest-stays height (newer latest e) es (newer-IsNotLater height latest e h le.0) le.1
        (newer-IsAt height latest e h (inl at) le.0)

  pub newest-IsAt :
      (height : ℕ) (latest : Option Block) (es : List (Event Row))
      → IsNotLater height latest
      → IsUpTo height es
      → IsTouched height es
      → IsAt height (newest latest es)
  unfolding newest
  newest-IsAt height latest [] h le at = absurd at
  newest-IsAt height latest (e ∷ es) h le (inl at) =
      newest-stays height (newer latest e) es (newer-IsNotLater height latest e h le.0) le.1
        (newer-IsAt height latest e h (inr at) le.0)
  newest-IsAt height latest (e ∷ es) h le (inr later) =
      newest-IsAt height (newer latest e) es (newer-IsNotLater height latest e h le.0) le.1 later

  IsUpTo-found :
      (height : ℕ) (found : Option (Event Row)) (es : List (Event Row))
      → ((f : Event Row) → found ≡ some f → f.block.height ≤ height)
      → IsUpTo height es
      → IsUpTo height (to_list found ++ es)
  IsUpTo-found height none es h le = le
  IsUpTo-found height (some f) es h le = (h f refl, le)

  IsTouched-append :
      (height : ℕ) (found : Option (Event Row)) (es : List (Event Row))
      → IsTouched height es
      → IsTouched height (to_list found ++ es)
  IsTouched-append height none es h = h
  IsTouched-append height (some f) es h = inr h

  module _ (rows : List (Event Row)) where
    -- The current row of the key is of the block.
    abbrev pub IsChanged : ℕ → String → Type 0
    IsChanged height key =
        (f : Event Row) × (find_one rows key height ≡ some f) × (f.block.height ≡ height)

    changed-IsTouched :
        (height : ℕ) (key : String) (es : List (Event Row))
        → IsChanged height key
        → IsTouched height (to_list (find_one rows key height) ++ es)
    changed-IsTouched height key es (f, found, at) = rw found (inl at)

  module _ {V : Type 0} (rows : List (Event Row)) (is_deleted : Row → Bool) where
    pub keys_read-IsExact :
        (height : ℕ) (p : Formula Row V) → IsExact (keys_read rows is_deleted height p)
    unfolding keys_read
    keys_read-IsExact height (returns value) = tt
    keys_read-IsExact height (gets key rest) =
        (refl, keys_read-IsExact height (rest (undeleted is_deleted (find_one rows key height))))

    pub rows_read-IsUpTo :
        (height : ℕ) (p : Formula Row V) → IsUpTo height (rows_read rows is_deleted height p)
    unfolding rows_read find_one
    rows_read-IsUpTo height (returns value) = tt
    rows_read-IsUpTo height (gets key rest) =
        IsUpTo-found height (find_one rows key height) _
          (λ f e. get-latest_at height (rows_of key rows) e)
          (rows_read-IsUpTo height (rest (undeleted is_deleted (find_one rows key height))))

    -- Where the rows that are read are the same, so is the value.
    pub eval-same :
        (height later : ℕ) (p : Formula Row V)
        → All
            (λ k. find_one rows k.key later ≡ find_one rows k.key height)
            (keys_read rows is_deleted height p)
        → eval rows is_deleted later p ≡ eval rows is_deleted height p
    unfolding eval keys_read
    eval-same height later (returns value) h = refl
    eval-same height later (gets key rest) h =
        rw h.0 (eval-same height later (rest (undeleted is_deleted (find_one rows key height))) h.1)

    -- Where each key that the first run reads has the same row or one of the later block, and one has
    -- one of the later block, the second run reads a row of the later block.
    pub rows_read-IsTouched :
        (height later : ℕ) (key : String) (p : Formula Row V)
        → All
            (λ k.
              (find_one rows k.key later ≡ find_one rows k.key height) ⊎ IsChanged rows later k.key)
            (keys_read rows is_deleted height p)
        → has_dependent key (keys_read rows is_deleted height p) ≡ true
        → IsChanged rows later key
        → IsTouched later (rows_read rows is_deleted later p)
    unfolding rows_read keys_read
    rows_read-IsTouched height later key (returns value) h known c = cc
    rows_read-IsTouched height later key (gets j rest) h known c = elim h.0 [
      | inr changed ↦ changed-IsTouched rows later j _ changed
      | inl same ↦ elim (Bool-cases (key == j)) [
        | inl eq ↦
            let e : key ≡ j = (eq_iff key j).0 eq in
            let (f, found, at) = c in
            changed-IsTouched rows later j _
              (f, ap (λ i. find_one rows i later) (sym e) ∙ found, at)
        | inr ne ↦
            let tail : has_dependent key (
                  keys_read rows is_deleted height
                    (rest (undeleted is_deleted (find_one rows j height))))
                ≡ true =
              rw ne at known in
            IsTouched-append later (find_one rows j later) _ (
              rw same (
                rows_read-IsTouched height later key
                  (rest (undeleted is_deleted (find_one rows j height))) h.1 tail c))
      ]
    ]
