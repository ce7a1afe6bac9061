-- ===== src/Formulas/Compute/Between.antt =====
-- The rows that a run of a formula of src/formulas/compute.ts reads, between its block and the next
-- one that `getNextPotentialBlock` returns, and at that one.
use mathlib.Core.Path.{subst}
use text.Mathlib.Text.{◌==◌}
use text.Mathlib.TextPositions.{eq_refl}
use dao_dao_indexer.Prelude.{
  ℕ, ◌<◌, ◌≤◌, ◌≡◌, refl, sym, ◌∙◌, Bool, true, false, List, [], ◌∷◌, String, Option, none, some,
  ltb, Bool-cases, Option-cases, ◌⊎◌, inl, inr, arith, All, All-weaken, All-zip,
}
use dao_dao_indexer.Formulas.Events.{
  Block, DependentKey, Event, AllEvents, next_exacts, get_next_potential_block,
}
use dao_dao_indexer.Formulas.Events.Latest.{latest_at}
use dao_dao_indexer.Formulas.Events.Cache.{events_of}
use dao_dao_indexer.Formulas.Events.Next.{AtMost, IsLater, Covers}
use dao_dao_indexer.Formulas.Events.Soonest.{next_exacts-IsLater}
use dao_dao_indexer.Formulas.Events.Exact.{
  has_dependent, get_next_potential_block_of_exact, next_exacts-AllCovers, next_exacts-IsReached,
}
use dao_dao_indexer.Formulas.Compute.{Formula, find_one}
use dao_dao_indexer.Formulas.Compute.Runs.{eval, keys_read, rows_read}
use dao_dao_indexer.Formulas.Compute.Quiet.{
  IsTouched, IsChanged, keys_read-IsExact, eval-same, rows_read-IsTouched,
}
use dao_dao_indexer.Formulas.Compute.Steps.{IsLoadedFor}

-- The height is before the next block, if there is one.
abbrev pub IsBefore : ℕ → Option Block → Type 0
IsBefore height none = Unit
IsBefore height (some block) = height < block.height

not_reached :
    (current height : ℕ) (next : Option Block) (n : ℕ)
    → current < n
    → AtMost next n
    → IsBefore height next
    → ltb height n ≡ true
not_reached current height none n lt h before = absurd h
not_reached current height (some b) n lt h before = ground arith

module _ {Row : Type 0} where
  Covers-latest_at :
      (current height : ℕ) (next : Option Block) (es : List (Event Row))
      → Covers current next es
      → current ≤ height
      → IsBefore height next
      → latest_at height es ≡ latest_at current es
  Covers-latest_at current height next [] h le before = refl
  Covers-latest_at current height next (e ∷ es) h le before =
      let ih = Covers-latest_at current height next es h.1 le before in
      elim (Bool-cases (ltb current e.block.height)) [
        | inl later ↦
            let beyond : ltb height e.block.height ≡ true =
              not_reached current height next e.block.height (ground arith) (h.0 (ground arith))
                before in
            rw (ih, later, beyond) refl
        | inr now ↦
            let still : ltb height e.block.height ≡ false = ground arith in rw (ih, now, still) refl
      ]

  -- At the next block the current event is the same, or one of that block.
  Covers-cases :
      (current : ℕ) (next : Block) (es : List (Event Row))
      → Covers current (some next) es
      → current < next.height
      → (latest_at next.height es ≡ latest_at current es)
        ⊎ ((f : Event Row) × (latest_at next.height es ≡ some f) × (f.block.height ≡ next.height))
  Covers-cases current next [] h lt = inl refl
  Covers-cases current next (e ∷ es) h lt = elim (Covers-cases current next es h.1 lt) [
    | inr (f, at, same) ↦ inr (f, rw at refl, same)
    | inl same ↦ elim (Bool-cases (ltb current e.block.height)) [
      | inr now ↦
          let still : ltb next.height e.block.height ≡ false = ground arith in
          inl (rw (same, now, still) refl)
      | inl later ↦ elim (Bool-cases (ltb next.height e.block.height)) [
        | inl beyond ↦ inl (rw (same, later, beyond) refl)
        | inr reached ↦ elim (Option-cases (latest_at current es)) [
          | inl missing ↦
              let exact : e.block.height ≡ next.height =
                let le = h.0 (ground arith) in ground arith in
              inr (e, rw (same, missing, reached) refl, exact)
          | inr (g, found) ↦ inl (rw (same, found) refl)
        ]
      ]
    ]
  ]

All-has_dependent : (keys : List DependentKey) → All (λ k. has_dependent k.key keys ≡ true) keys
All-has_dependent [] = tt
All-has_dependent (k ∷ keys) = (
  rw (eq_refl k.key) refl,
  All-weaken (λ j. has_dependent j.key keys ≡ true) (λ j. has_dependent j.key (k ∷ keys) ≡ true)
      (λ j h. elim (Bool-cases (j.key == k.key)) [ inl b ↦ rw b refl | inr b ↦ rw b h ]) keys
      (All-has_dependent keys),
)

module _ {Row V : Type 0} (is_deleted : Row → Bool) (rows : List (Event Row)) (current : Block)
    (upto : ℕ) (within : current.height ≤ upto) (p : Formula Row V) (known : List DependentKey)
    (all : AllEvents Row) (g : IsLoadedFor rows current.height upto known all)
    (covered : (key : String)
      → has_dependent key (keys_read rows is_deleted current.height p) ≡ true
      → has_dependent key known ≡ true) where
  abbrev keys : List DependentKey
  keys = keys_read rows is_deleted current.height p

  abbrev next : Option Block
  next = get_next_potential_block keys all current

  next-exact : next ≡ next_exacts current.height all keys none
  next-exact =
      get_next_potential_block_of_exact keys all current
        (keys_read-IsExact rows is_deleted current.height p)

  -- The next block is later.
  pub next-IsLater : IsLater current.height next
  next-IsLater =
      subst (IsLater current.height) (sym next-exact)
        (next_exacts-IsLater current.height all keys none tt)

  next-Covers : All (λ k. Covers current.height next (events_of k.key all)) keys
  next-Covers =
      subst (λ n. All (λ k. Covers current.height n (events_of k.key all)) keys) (sym next-exact)
        (next_exacts-AllCovers current.height all keys none g.ascending)

  -- Before it the formula has the same value.
  pub eval-IsBefore :
      (height : ℕ)
      → current.height ≤ height
      → height ≤ upto
      → IsBefore height next
      → eval rows is_deleted height p ≡ eval rows is_deleted current.height p
  eval-IsBefore height le to before = eval-same rows is_deleted current.height height p (
      All-zip (λ k. Covers current.height next (events_of k.key all))
        (λ k. has_dependent k.key keys ≡ true)
        (λ k. find_one rows k.key height ≡ find_one rows k.key current.height)
        (λ k c h.
          sym (g.right k.key (covered k.key h) height le to)
          ∙ Covers-latest_at current.height height next (events_of k.key all) c le before
          ∙ g.right k.key (covered k.key h) current.height (omega arith) within)
        keys next-Covers (All-has_dependent keys))

  -- At it the formula reads a row of that block.
  pub next-IsTouched :
      (b : Block)
      → next ≡ some b
      → b.height ≤ upto
      → IsTouched b.height (rows_read rows is_deleted b.height p)
  next-IsTouched b e to =
      let lt : current.height < b.height = subst (IsLater current.height) e next-IsLater in
      let covers : All (λ k. Covers current.height (some b) (events_of k.key all)) keys =
        subst (λ n. All (λ k. Covers current.height n (events_of k.key all)) keys) e next-Covers in
      elim (next_exacts-IsReached current.height all keys none g.ascending (sym next-exact ∙ e)) [
        | inl empty ↦ absurd (cc empty)
        | inr (k, f, known_key, at, same) ↦
            rows_read-IsTouched rows is_deleted current.height b.height k.key p
              (All-zip (λ k. Covers current.height (some b) (events_of k.key all))
                (λ k. has_dependent k.key keys ≡ true)
                (λ k.
                  (find_one rows k.key b.height ≡ find_one rows k.key current.height)
                  ⊎ IsChanged rows b.height k.key)
                (λ k c h.
                  let right = g.right k.key (covered k.key h) b.height (omega (arith, lt)) to in
                  elim (Covers-cases current.height b (events_of k.key all) c lt) [
                    | inl still ↦ inl (
                        sym right
                        ∙ still
                        ∙ g.right k.key (covered k.key h) current.height (omega arith) within)
                    | inr (f, at, same) ↦ inr (f, sym right ∙ at, same)
                  ])
                keys covers (All-has_dependent keys))
              known_key
              (
                f,
                sym (g.right k.key (covered k.key known_key) b.height (omega (arith, lt)) to) ∙ at,
                same,
              )
      ]
