-- ===== src/Formulas/Events/Prefixes.antt =====
-- `addToCache` over all its keys, prefixes included.
use mathlib.Core.Path.{subst}
use text.Mathlib.Text.{◌==◌, starts_with}
use text.Mathlib.TextEquality.{eq_iff}
use text.Mathlib.TextPositions.{eq_refl}
use dao_dao_indexer.Prelude.{
  ℕ, ◌≡◌, refl, false, List, [], ◌∷◌, Option, some, String, drop, Bool-cases, Option-cases, inl,
  inr,
}
use dao_dao_indexer.Prelude.Text.{lookup, insert, lookup-insert}
use dao_dao_indexer.Formulas.Events.{
  Event, AllEvents, current_index, slice_key, slice_keys, prefixed,
}
use dao_dao_indexer.Formulas.Events.Cache.{
  AllAscending, IsSliced, IsSliced-refl, IsSliced-trans, insert-IsSliced,
}

module _ {Row : Type 0} where
  abbrev pub NoKey : String → AllEvents Row → Type 0
  NoKey key [] = Unit
  NoKey key ((j, events) ∷ all) = ((key == j) ≡ false) × NoKey key all

  -- A record of the source has each key once.
  abbrev pub DistinctKeys : AllEvents Row → Type 0
  DistinctKeys [] = Unit
  DistinctKeys ((j, events) ∷ all) = NoKey j all × DistinctKeys all

  abbrev pub HasEntries : AllEvents Row → AllEvents Row → Type 0
  HasEntries [] all = Unit
  HasEntries ((key, events) ∷ entries) all = (lookup key all ≡ some events) × HasEntries entries all

  insert-HasEntries :
      (key : String) (v : List (Event Row)) (entries all : AllEvents Row)
      → NoKey key entries
      → HasEntries entries all
      → HasEntries entries (insert key v all)
  insert-HasEntries key v [] all d h = tt
  insert-HasEntries key v ((j, events) ∷ entries) all d h =
      (rw (lookup-insert, d.0) h.0, insert-HasEntries key v entries all d.1 h.1)

  pub slice_keys-IsSliced :
      (height : ℕ) (entries all : AllEvents Row)
      → DistinctKeys entries
      → HasEntries entries all
      → AllAscending all
      → IsSliced height all (slice_keys height entries all)
  unfolding slice_keys slice_key
  slice_keys-IsSliced height [] all d h a = IsSliced-refl height all a
  slice_keys-IsSliced height ((key, events) ∷ entries) all d h a =
      elim (Option-cases (current_index height events)) [
        | inl c ↦ rw c (slice_keys-IsSliced height entries all d.1 h.1 a)
        | inr (i, c) ↦
            let one = insert-IsSliced height key events i all a h.0 c in
            rw (c, h.0, slice_key)
              (IsSliced-trans one (
                slice_keys-IsSliced height entries (insert key (drop i events) all) d.1
                  (insert-HasEntries key (drop i events) entries all d.0 h.1) one.ascending))
      ]

  prefixed-NoKey :
      (p key : String) (all : AllEvents Row) → NoKey key all → NoKey key (prefixed p all)
  unfolding prefixed
  prefixed-NoKey p key [] h = tt
  prefixed-NoKey p key ((j, events) ∷ all) h = elim (Bool-cases (starts_with j p)) [
    | inl e ↦ rw e (h.0, prefixed-NoKey p key all h.1)
    | inr e ↦ rw e (prefixed-NoKey p key all h.1)
  ]

  pub prefixed-DistinctKeys :
      (p : String) (all : AllEvents Row) → DistinctKeys all → DistinctKeys (prefixed p all)
  unfolding prefixed
  prefixed-DistinctKeys p [] h = tt
  prefixed-DistinctKeys p ((j, events) ∷ all) h = elim (Bool-cases (starts_with j p)) [
    | inl e ↦ rw e (prefixed-NoKey p j all h.0, prefixed-DistinctKeys p all h.1)
    | inr e ↦ rw e (prefixed-DistinctKeys p all h.1)
  ]

  HasEntries-cons :
      (j : String) (events : List (Event Row)) (entries all : AllEvents Row)
      → NoKey j entries
      → HasEntries entries all
      → HasEntries entries ((j, events) ∷ all)
  unfolding lookup
  HasEntries-cons j events [] all d h = tt
  HasEntries-cons j events ((k, es) ∷ entries) all d h =
      (rw d.0 h.0, HasEntries-cons j events entries all d.1 h.1)

  pub prefixed-HasEntries :
      (p : String) (all : AllEvents Row) → DistinctKeys all → HasEntries (prefixed p all) all
  unfolding prefixed lookup
  prefixed-HasEntries p [] h = tt
  prefixed-HasEntries p ((j, events) ∷ all) h =
      let rest =
        HasEntries-cons j events (prefixed p all) all (prefixed-NoKey p j all h.0)
          (prefixed-HasEntries p all h.1) in
      elim (Bool-cases (starts_with j p)) [
        | inl e ↦ rw e (rw (eq_refl j) refl, rest)
        | inr e ↦ rw e rest
      ]

  insert-NoKey :
      (k key : String) (v : List (Event Row)) (all : AllEvents Row)
      → (k == key) ≡ false
      → NoKey k all
      → NoKey k (insert key v all)
  unfolding insert
  insert-NoKey k key v [] ne h = (ne, tt)
  insert-NoKey k key v ((j, w) ∷ all) ne h = elim (Bool-cases (j == key)) [
    | inl e ↦ rw e (ne, h.1)
    | inr e ↦ rw e (h.0, insert-NoKey k key v all ne h.1)
  ]

  pub insert-DistinctKeys :
      (key : String) (v : List (Event Row)) (all : AllEvents Row)
      → DistinctKeys all
      → DistinctKeys (insert key v all)
  unfolding insert
  insert-DistinctKeys key v [] h = (tt, tt)
  insert-DistinctKeys key v ((j, w) ∷ all) h = elim (Bool-cases (j == key)) [
    | inl e ↦ rw e (subst (λ k. NoKey k all) ((eq_iff j key).0 e) h.0, h.1)
    | inr e ↦ rw e (insert-NoKey j key v all e h.0, insert-DistinctKeys key v all h.1)
  ]

  slice_key-DistinctKeys :
      (key : String) (i : Option ℕ) (found : Option (List (Event Row))) (all : AllEvents Row)
      → DistinctKeys all
      → DistinctKeys (slice_key key i found all)
  unfolding slice_key
  slice_key-DistinctKeys key (some i) (some events) all h =
      insert-DistinctKeys key (drop i events) all h
  slice_key-DistinctKeys key _ _ all h = h

  pub slice_keys-DistinctKeys :
      (height : ℕ) (entries all : AllEvents Row)
      → DistinctKeys all
      → DistinctKeys (slice_keys height entries all)
  unfolding slice_keys
  slice_keys-DistinctKeys height [] all h = h
  slice_keys-DistinctKeys height ((key, events) ∷ entries) all h =
      slice_keys-DistinctKeys height entries _
        (slice_key-DistinctKeys key (current_index height events) (lookup key all) all h)
