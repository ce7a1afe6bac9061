-- ===== src/Computations/Validity.antt =====
-- src/db/models/Computation.ts, `updateValidityUpToBlockHeight`, against the events of the tables.
use mathlib.Core.Path.{subst}
use dao_dao_indexer.Prelude.{
  ℕ, suc, ◌+◌, ◌-◌, ◌<◌, ◌≤◌, ◌≡◌, refl, sym, Bool, true, false, List, [], ◌∷◌, Option, none, some,
  ltb, leb, Bool-cases, inl, inr, arith, All-weaken, All-zip,
}
use dao_dao_indexer.Formulas.Events.{DependentKey, Event}
use dao_dao_indexer.Computations.{
  Table, Computation, min_block_height, is_valid_already, namespaced_keys, matches_any, as_checked,
  first_newer_event, update_validity_up_to_block_height,
}
use dao_dao_indexer.Computations.Queries.{
  HasNoRow, HasNoEvent, NoEventBefore, IsFirstOf, first_newer_event-IsFirstOf,
}

module _ {Row : Type 0} (matches : DependentKey → Event Row → Bool) where
  -- A computation is valid from its block on, and no dependency has an event after that block, up to
  -- the latest valid one.
  pub record IsRight (tables : List (Table Row)) (c : Computation) : Type 0 where
    pub ordered : c.block_height ≤ c.latest_block_height_valid
    pub quiet :
        HasNoEvent matches tables c.dependencies (c.block_height + 1) c.latest_block_height_valid

  HasNoEvent-narrow :
      (ts : List (Table Row)) (dependencies : List DependentKey) (from to from' to' : ℕ)
      → from ≤ from'
      → to' ≤ to
      → HasNoEvent matches ts dependencies from to
      → HasNoEvent matches ts dependencies from' to'
  HasNoEvent-narrow [] dependencies from to from' to' f t h = tt
  HasNoEvent-narrow (t ∷ ts) dependencies from to from' to' f le h = (
    All-weaken
        (λ e.
          from ≤ e.block.height
          → e.block.height ≤ to
          → matches_any matches (namespaced_keys t.namespace_prefix dependencies) e ≡ false)
        _ (λ e absent f' t'. absent (omega (arith, f, f')) (omega (arith, le, t'))) t.rows h.0,
    HasNoEvent-narrow ts dependencies from to from' to' f le h.1,
  )

  -- Two stretches of blocks that meet.
  HasNoEvent-join :
      (ts : List (Table Row)) (dependencies : List DependentKey) (from middle start to : ℕ)
      → start ≤ suc middle
      → HasNoEvent matches ts dependencies from middle
      → HasNoEvent matches ts dependencies start to
      → HasNoEvent matches ts dependencies from to
  HasNoEvent-join [] dependencies from middle start to le h k = tt
  HasNoEvent-join (t ∷ ts) dependencies from middle start to le h k = (
    All-zip
        (λ e.
          from ≤ e.block.height
          → e.block.height ≤ middle
          → matches_any matches (namespaced_keys t.namespace_prefix dependencies) e ≡ false)
        (λ e.
          start ≤ e.block.height
          → e.block.height ≤ to
          → matches_any matches (namespaced_keys t.namespace_prefix dependencies) e ≡ false)
        _
        (λ e absent absent' f t'. elim (Bool-cases (leb e.block.height middle)) [
          | inl early ↦ absent f (ground arith)
          | inr late ↦ absent' (ground arith) t'
        ])
        t.rows h.0 k.0,
    HasNoEvent-join ts dependencies from middle start to le h.1 k.1,
  )

  before-HasNoEvent :
      (ts : List (Table Row)) (dependencies : List DependentKey) (from to n : ℕ)
      → NoEventBefore matches ts dependencies from to n
      → n ≤ to
      → from ≤ n
      → 1 ≤ from
      → HasNoEvent matches ts dependencies from (n - 1)
  before-HasNoEvent [] dependencies from to n h le f p = tt
  before-HasNoEvent (t ∷ ts) dependencies from to n h le f p = (
    All-weaken
        (λ e.
          from ≤ e.block.height
          → e.block.height ≤ to
          → e.block.height < n
          → matches_any matches (namespaced_keys t.namespace_prefix dependencies) e ≡ false)
        _ (λ e absent f' t'. absent f' (omega (arith, le, t')) (omega (arith, t', f, f'))) t.rows
        h.0,
    before-HasNoEvent ts dependencies from to n h.1 le f p,
  )

  HasNoRow-empty :
      (keys : List DependentKey) (rows : List (Event Row)) (from to : ℕ)
      → to < from
      → HasNoRow matches keys from to rows
  HasNoRow-empty keys [] from to lt = tt
  HasNoRow-empty keys (e ∷ rows) from to lt =
      (λ f t. absurd (omega (arith, lt, f, t)), HasNoRow-empty keys rows from to lt)

  HasNoEvent-empty :
      (ts : List (Table Row)) (dependencies : List DependentKey) (from to : ℕ)
      → to < from
      → HasNoEvent matches ts dependencies from to
  HasNoEvent-empty [] dependencies from to lt = tt
  HasNoEvent-empty (t ∷ ts) dependencies from to lt = (
    HasNoRow-empty (namespaced_keys t.namespace_prefix dependencies) t.rows from to lt,
    HasNoEvent-empty ts dependencies from to lt,
  )

  module _ (tables : List (Table Row)) (c : Computation) where
    -- There is no event of a dependency after the block of the computation, up to this one.
    abbrev pub IsQuiet : ℕ → Type 0
    IsQuiet to = HasNoEvent matches tables c.dependencies (c.block_height + 1) to

    -- The computation that is returned is right, and what is returned says whether it is valid.
    pub record IsChecked (up_to : ℕ) (result : Bool × Computation) : Type 0 where
      pub right : IsRight tables result.1
      pub valid : result.0 ≡ true → IsQuiet up_to
      pub invalid : IsQuiet up_to → result.0 ≡ true

    as_checked-IsChecked :
        (up_to m : ℕ) (found : Option (Event Row))
        → c.block_height + 1 ≤ m
        → c.block_height ≤ up_to
        → IsQuiet (m - 1)
        → IsFirstOf matches tables c.dependencies m up_to found
        → IsChecked up_to (as_checked up_to found c)
    as_checked-IsChecked up_to m none lt le before h =
        let quiet =
          HasNoEvent-join tables c.dependencies (c.block_height + 1) (m - 1) m up_to (omega arith)
            before h in
        record {
          right = record { ordered = le; quiet = quiet };
          valid = λ e. quiet;
          invalid = λ q. refl;
        }
    as_checked-IsChecked up_to m (some e) lt le before (within, first, there) =
        let early =
          before-HasNoEvent tables c.dependencies m up_to e.block.height first within.1 within.0
            (omega (arith, lt)) in
        let quiet =
          HasNoEvent-join tables c.dependencies (c.block_height + 1) (m - 1) m (e.block.height - 1)
            (omega arith) before early in
        record {
          right = record { ordered = omega (arith, lt, within.0); quiet = quiet };
          valid = λ e. cc;
          invalid = λ q. absurd (
              there (
                HasNoEvent-narrow tables c.dependencies (c.block_height + 1) up_to m up_to lt
                  (omega arith) q));
        }

    min_block_height-le :
        (start_from : Option ℕ) → c.block_height + 1 ≤ min_block_height start_from c
    unfolding min_block_height
    min_block_height-le none = ground arith
    min_block_height-le (some s) = ground arith

    restart-min_block_height :
        (start_from : ℕ)
        → start_from ≤ c.block_height + 1
        → min_block_height (some start_from) c - 1 ≡ c.block_height
    unfolding min_block_height
    restart-min_block_height start_from le = ground arith

    update_validity_up_to_block_height-IsChecked :
        (up_to : ℕ) (start_from : Option ℕ)
        → c.validity_extendable ≡ true
        → c.block_height ≤ up_to
        → is_valid_already up_to start_from c ≡ false
        → IsQuiet (min_block_height start_from c - 1)
        → IsChecked up_to (update_validity_up_to_block_height matches tables up_to start_from c)
    unfolding update_validity_up_to_block_height
    update_validity_up_to_block_height-IsChecked up_to start_from extendable le unknown before =
        let not_before : ltb up_to c.block_height ≡ false = ground arith in
        let shape : update_validity_up_to_block_height matches tables up_to start_from c
            ≡ as_checked up_to
                (first_newer_event matches c.dependencies (min_block_height start_from c) up_to
                  tables)
                c =
          simp (not_before, unknown, extendable) in
        subst (IsChecked up_to) (sym shape) (
          as_checked-IsChecked up_to (min_block_height start_from c) _
            (min_block_height-le start_from) le before
            (first_newer_event-IsFirstOf matches tables c.dependencies
              (min_block_height start_from c) up_to))

    min_block_height-latest :
        (start_from : Option ℕ)
        → c.block_height ≤ c.latest_block_height_valid
        → min_block_height start_from c - 1 ≤ c.latest_block_height_valid
    unfolding min_block_height
    min_block_height-latest none le = ground arith
    min_block_height-latest (some s) le = ground arith

    already-IsQuiet :
        (up_to : ℕ) (start_from : Option ℕ)
        → IsRight tables c
        → is_valid_already up_to start_from c ≡ true
        → IsQuiet up_to
    already-IsQuiet up_to none r known =
        HasNoEvent-narrow tables c.dependencies (c.block_height + 1) c.latest_block_height_valid
          (c.block_height + 1) up_to (omega arith) (ground arith) r.quiet
    already-IsQuiet up_to (some s) r known = cc

    min_block_height-IsQuiet :
        (start_from : Option ℕ) → IsRight tables c → IsQuiet (min_block_height start_from c - 1)
    min_block_height-IsQuiet start_from r =
        HasNoEvent-narrow tables c.dependencies (c.block_height + 1) c.latest_block_height_valid
          (c.block_height + 1) (min_block_height start_from c - 1) (omega arith)
          (min_block_height-latest start_from r.ordered) r.quiet

    -- A computation that is right stays right, in all branches.
    pub update_validity_up_to_block_height-IsRight :
        (up_to : ℕ) (start_from : Option ℕ)
        → IsRight tables c
        → IsRight tables (update_validity_up_to_block_height matches tables up_to start_from c).1
    unfolding update_validity_up_to_block_height
    update_validity_up_to_block_height-IsRight up_to start_from r =
        elim (Bool-cases (ltb up_to c.block_height)) [
          | inl before ↦ rw before r
          | inr from ↦ elim (Bool-cases (is_valid_already up_to start_from c)) [
            | inl known ↦ rw (from, known) r
            | inr unknown ↦ elim (Bool-cases c.validity_extendable) [
              | inl extendable ↦
                  (update_validity_up_to_block_height-IsChecked up_to start_from extendable
                    (ground arith) unknown (min_block_height-IsQuiet start_from r)).right
              | inr fixed ↦
                  let shape : update_validity_up_to_block_height matches tables up_to start_from c
                      ≡ (false, c) =
                    simp (from, unknown, fixed) in
                  subst (λ p. IsRight tables p.1) (sym shape) r
            ]
          ]
        ]

    -- For a computation that is right and extendable, what is returned is true if and only if the
    -- requested block is not before the computation's and no dependency has an event in between.
    pub update_validity_up_to_block_height_iff :
        (up_to : ℕ) (start_from : Option ℕ)
        → IsRight tables c
        → c.validity_extendable ≡ true
        → let result = update_validity_up_to_block_height matches tables up_to start_from c in
          (result.0 ≡ true → (c.block_height ≤ up_to) × IsQuiet up_to)
          × (c.block_height ≤ up_to → IsQuiet up_to → result.0 ≡ true)
    unfolding update_validity_up_to_block_height
    update_validity_up_to_block_height_iff up_to start_from r extendable =
        elim (Bool-cases (ltb up_to c.block_height)) [
          | inl before ↦ rw before (λ e. cc, λ le q. absurd (ground arith))
          | inr from ↦ elim (Bool-cases (is_valid_already up_to start_from c)) [
            | inl known ↦
                rw (from, known)
                  (λ e. (ground arith, already-IsQuiet up_to start_from r known), λ le q. refl)
            | inr unknown ↦
                let done =
                  update_validity_up_to_block_height-IsChecked up_to start_from extendable
                    (ground arith) unknown (min_block_height-IsQuiet start_from r) in
                (λ e. (ground arith, done.valid e), λ le q. done.invalid q)
          ]
        ]

    -- A check that starts at or before the first block of the computation is right whatever was
    -- stored: afterwards no dependency has an event up to the latest valid block, and the requested
    -- block is valid if and only if there is none up to it. (The validity is extendable, and the
    -- requested block is not before the computation's.)
    pub restart-IsChecked :
        (up_to start_from : ℕ)
        → c.validity_extendable ≡ true
        → c.block_height ≤ up_to
        → start_from ≤ c.block_height + 1
        → IsChecked up_to
            (update_validity_up_to_block_height matches tables up_to (some start_from) c)
    restart-IsChecked up_to start_from extendable le early =
        update_validity_up_to_block_height-IsChecked up_to (some start_from) extendable le refl (
          subst IsQuiet (sym (restart-min_block_height start_from early)) (
            HasNoEvent-empty tables c.dependencies (c.block_height + 1) c.block_height
              (omega arith)))
