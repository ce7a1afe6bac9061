-- ===== src/Formulas/Events/Latest.antt =====
-- The current event of a key, found by index among its loaded events, against a direct description;
-- and what the slicing of loaded events keeps.
use dao_dao_indexer.Prelude.{
  ℕ, zero, suc, ◌<◌, ◌≤◌, ◌≡◌, refl, sym, ◌∙◌, true, List, [], ◌∷◌, Option, none, some, next_index,
  get_elem?, drop, ltb, if◌then◌else◌, Bool-cases, Option-cases, ◌⊎◌, inl, inr, arith, All,
}
use dao_dao_indexer.Formulas.Events.{Event, is_after, index_before, current_index, current_event}

index_before-none :
    (r : Option ℕ) (n : ℕ) → index_before r n ≡ none → index_before (next_index r) (suc n) ≡ some 0
unfolding index_before
index_before-none none zero h = refl
index_before-none none (suc n) h = cc
index_before-none (some zero) n h = refl
index_before-none (some (suc i)) n h = cc

index_before-some :
    (r : Option ℕ) (n : ℕ) {i : ℕ}
    → index_before r n ≡ some i
    → index_before (next_index r) (suc n) ≡ some (suc i)
unfolding index_before
index_before-some none zero h = cc
index_before-some none (suc n) h = cc
index_before-some (some zero) n h = cc
index_before-some (some (suc j)) n h = cc

module _ {Row : Type 0} where
  abbrev pub IsAscending : List (Event Row) → Type 0
  IsAscending [] = Unit
  IsAscending (e ∷ es) = All (λ f. e.block.height ≤ f.block.height) es × IsAscending es

  abbrev pub or_event : Option (Event Row) → Option (Event Row) → Option (Event Row)
  or_event (some e) other = some e
  or_event none other = other

  -- The last of the events that are not after the height.
  abbrev pub latest_at : ℕ → List (Event Row) → Option (Event Row)
  latest_at height [] = none
  latest_at height (e ∷ es) =
      or_event (latest_at height es) (if ltb height e.block.height then none else some e)

  pub latest_at_of_after :
      (height : ℕ) (es : List (Event Row))
      → All (λ e. height < e.block.height) es
      → latest_at height es ≡ none
  latest_at_of_after height [] h = refl
  latest_at_of_after height (e ∷ es) h =
      let ih = latest_at_of_after height es h.1 in
      let later : ltb height e.block.height ≡ true = ground arith in rw (ih, later) refl

  pub All-lt :
      (height n : ℕ) (es : List (Event Row))
      → height < n
      → All (λ e. n ≤ e.block.height) es
      → All (λ e. height < e.block.height) es
  All-lt height n [] p h = tt
  All-lt height n (e ∷ es) p h = (omega arith, All-lt height n es p h.1)

  -- Both find no event, or both find the same one.
  abbrev Agrees : Option ℕ → List (Event Row) → Option (Event Row) → Type 0
  Agrees index es latest =
      ((index ≡ none) × (latest ≡ none))
      ⊎ ((i : ℕ) × (f : Event Row) × (index ≡ some i)
          × (get_elem? es i ≡ some f)
          × (latest ≡ some f))

  current_index-Agrees :
      (height : ℕ) (es : List (Event Row))
      → IsAscending es
      → Agrees (current_index height es) es (latest_at height es)
  unfolding current_index is_after index_before
  current_index-Agrees height [] h = inl (refl, refl)
  current_index-Agrees height (e ∷ es) h = elim (Bool-cases (ltb height e.block.height)) [
    | inl later ↦ rw later (
        inl (
          refl,
          rw (latest_at_of_after height es (All-lt height e.block.height es (ground arith) h.0))
              refl,
        ))
    | inr now ↦ rw now (elim (current_index-Agrees height es h.1) [
      | inl (a, b) ↦ inr (0, e, index_before-none _ _ a, refl, rw b refl)
      | inr (i, f, a, b, c) ↦ inr (suc i, f, index_before-some _ _ a, b, rw c refl)
    ])
  ]

  -- The current event that the code finds by index among events that ascend is the last one that is
  -- not after the height, and it finds none exactly if there is none.
  pub current_event-latest_at :
      (height : ℕ) (es : List (Event Row))
      → IsAscending es
      → current_event es (current_index height es) ≡ latest_at height es
  unfolding current_event
  current_event-latest_at height es h = elim (current_index-Agrees height es h) [
    | inl (a, b) ↦ rw (a, b) refl
    | inr (i, f, a, b, c) ↦ rw (a, c) b
  ]

  -- Slicing the events from the current one on changes no later current event.
  pub get-latest_at :
      (height : ℕ) (es : List (Event Row)) {f : Event Row}
      → latest_at height es ≡ some f
      → f.block.height ≤ height
  get-latest_at height [] h = cc
  get-latest_at height (e ∷ es) h = elim (Option-cases (latest_at height es)) [
    | inl a ↦ ground arith
    | inr (g, b) ↦ ground (arith, get-latest_at height es b)
  ]

  latest_at-ne-none :
      (later : ℕ) (i : ℕ) (es : List (Event Row)) {f : Event Row}
      → get_elem? es i ≡ some f
      → f.block.height ≤ later
      → (g : Event Row) × (latest_at later (drop i es) ≡ some g)
  latest_at-ne-none later i [] h le = cc
  latest_at-ne-none later zero (e ∷ es) h le = elim (Option-cases (latest_at later es)) [
    | inl a ↦ (e, ground arith)
    | inr (g, b) ↦ (g, rw b refl)
  ]
  latest_at-ne-none later (suc i) (e ∷ es) h le = latest_at-ne-none later i es h le

  latest_at-drop-some :
      (later : ℕ) (i : ℕ) (es : List (Event Row)) (g : Event Row)
      → latest_at later (drop i es) ≡ some g
      → latest_at later es ≡ some g
  latest_at-drop-some later zero es g h = h
  latest_at-drop-some later (suc i) [] g h = h
  latest_at-drop-some later (suc i) (e ∷ es) g h = rw (latest_at-drop-some later i es g h) refl

  pub latest_at-drop :
      (height later : ℕ) (es : List (Event Row)) (i : ℕ)
      → IsAscending es
      → height ≤ later
      → current_index height es ≡ some i
      → latest_at later (drop i es) ≡ latest_at later es
  latest_at-drop height later es i h le e = elim (current_index-Agrees height es h) [
    | inl (a, b) ↦ cc
    | inr (j, f, a, b, c) ↦
        let same : get_elem? es i ≡ some f = cc in
        let (g, at) =
          latest_at-ne-none later i es same (omega (arith, get-latest_at height es c)) in
        at ∙ sym (latest_at-drop-some later i es g at)
  ]

  pub drop-IsAscending : (i : ℕ) (es : List (Event Row)) → IsAscending es → IsAscending (drop i es)
  drop-IsAscending zero es h = h
  drop-IsAscending (suc i) [] h = h
  drop-IsAscending (suc i) (e ∷ es) h = drop-IsAscending i es h.1

  -- An index that is found is that of an event.
  pub get_elem?-current_index :
      (height : ℕ) (es : List (Event Row)) {i : ℕ}
      → IsAscending es
      → current_index height es ≡ some i
      → (f : Event Row) × (get_elem? es i ≡ some f) × (latest_at height es ≡ some f)
  get_elem?-current_index height es h e = elim (current_index-Agrees height es h) [
    | inl (a, b) ↦ cc
    | inr (j, f, a, b, c) ↦ (f, cc, c)
  ]
