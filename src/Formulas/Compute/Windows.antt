-- ===== src/Formulas/Compute/Windows.antt =====
-- The queries of src/formulas/compute.ts: the current row and the future ones say what is current
-- at every later block.
use dao_dao_indexer.Prelude.{
  ℕ, ◌<◌, ◌≤◌, ◌≡◌, refl, sym, ◌∙◌, Bool, true, false, ◌&&◌, List, [], ◌∷◌, ◌++◌, Option, none,
  some, filter, to_list, ltb, leb, Bool-cases, Option-cases, inl, inr, arith, All,
}
use dao_dao_indexer.Formulas.Events.{Event}
use dao_dao_indexer.Formulas.Events.Latest.{
  IsAscending, latest_at, or_event, latest_at_of_after, All-lt, get-latest_at,
}

module _ {Row : Type 0} where
  abbrev pub in_window : ℕ → ℕ → Event Row → Bool
  in_window after upto event = ltb after event.block.height && leb event.block.height upto

  abbrev pub window : ℕ → ℕ → List (Event Row) → List (Event Row)
  window after upto rows = filter (in_window after upto) rows

  or_event_assoc :
      (a b c : Option (Event Row)) → or_event (or_event a b) c ≡ or_event a (or_event b c)
  or_event_assoc none b c = refl
  or_event_assoc (some e) b c = refl

  or_event-none : (a : Option (Event Row)) → or_event a none ≡ a
  or_event-none none = refl
  or_event-none (some e) = refl

  pub latest_at-append :
      (height : ℕ) (xs ys : List (Event Row))
      → latest_at height (xs ++ ys) ≡ or_event (latest_at height ys) (latest_at height xs)
  latest_at-append height [] ys = elim (Option-cases (latest_at height ys)) [
    | inl e ↦ rw e refl
    | inr (f, e) ↦ rw e refl
  ]
  latest_at-append height (x ∷ xs) ys =
      rw (latest_at-append height xs ys)
        (or_event_assoc (latest_at height ys) (latest_at height xs) _)

  latest_at-window :
      (after upto height : ℕ) (rows : List (Event Row))
      → after ≤ height
      → height ≤ upto
      → IsAscending rows
      → latest_at height rows
        ≡ or_event (latest_at height (window after upto rows)) (latest_at after rows)
  latest_at-window after upto height [] le within h = refl
  latest_at-window after upto height (e ∷ rows) le within h =
      let ih = latest_at-window after upto height rows le within h.1 in
      elim (Bool-cases (ltb after e.block.height)) [
        | inl later ↦
            let none_yet =
              latest_at_of_after after rows (All-lt after e.block.height rows (ground arith) h.0) in
            elim (Bool-cases (leb e.block.height upto)) [
              | inl inside ↦
                  rw (later, inside, none_yet)
                    (rw (ih, none_yet, or_event-none) (sym (or_event-none _)))
              | inr outside ↦
                  let beyond : ltb height e.block.height ≡ true = ground arith in
                  rw (later, outside, none_yet, beyond) (rw (ih, none_yet, or_event-none) refl)
            ]
        | inr current ↦
            let now : ltb height e.block.height ≡ false = ground arith in
            rw (current, now) (rw ih (or_event_assoc _ _ (some e)))
      ]

  window-IsLater :
      (after upto : ℕ) (rows : List (Event Row))
      → All (λ e. after < e.block.height) (window after upto rows)
  window-IsLater after upto [] = tt
  window-IsLater after upto (e ∷ rows) = elim (Bool-cases (in_window after upto e)) [
    | inl inside ↦ rw inside (ground arith, window-IsLater after upto rows)
    | inr outside ↦ rw outside (window-IsLater after upto rows)
  ]

  All-filter :
      (p : Event Row → Bool) (n : ℕ) (rows : List (Event Row))
      → All (λ f. n ≤ f.block.height) rows
      → All (λ f. n ≤ f.block.height) (filter p rows)
  All-filter p n [] h = tt
  All-filter p n (e ∷ rows) h = elim (Bool-cases (p e)) [
    | inl inside ↦ rw inside (h.0, All-filter p n rows h.1)
    | inr outside ↦ rw outside (All-filter p n rows h.1)
  ]

  pub filter-IsAscending :
      (p : Event Row → Bool) (rows : List (Event Row))
      → IsAscending rows
      → IsAscending (filter p rows)
  filter-IsAscending p [] h = tt
  filter-IsAscending p (e ∷ rows) h = elim (Bool-cases (p e)) [
    | inl inside ↦ rw inside (All-filter p e.block.height rows h.0, filter-IsAscending p rows h.1)
    | inr outside ↦ rw outside (filter-IsAscending p rows h.1)
  ]

  -- The current row and then the future ones.
  abbrev pub loaded_rows : ℕ → ℕ → List (Event Row) → List (Event Row)
  loaded_rows after upto rows = to_list (latest_at after rows) ++ window after upto rows

  All-le :
      (n m : ℕ) (rows : List (Event Row))
      → n ≤ m
      → All (λ f. m < f.block.height) rows
      → All (λ f. n ≤ f.block.height) rows
  All-le n m [] le h = tt
  All-le n m (e ∷ rows) le h = (omega (arith, h.0), All-le n m rows le h.1)

  current_first :
      (after upto height : ℕ) (rows : List (Event Row)) (current : Option (Event Row))
      → latest_at after rows ≡ current
      → after ≤ height
      → height ≤ upto
      → IsAscending rows
      → IsAscending (to_list current ++ window after upto rows)
        × (latest_at height (to_list current ++ window after upto rows) ≡ latest_at height rows)
  current_first after upto height rows none e le within h = (
    filter-IsAscending (in_window after upto) rows h,
    sym (latest_at-window after upto height rows le within h ∙ rw (e, or_event-none) refl),
  )
  current_first after upto height rows (some event) e le within h =
      let at = get-latest_at after rows e in
      let now : ltb height event.block.height ≡ false = ground arith in
      (
        (
          All-le event.block.height after (window after upto rows) at
              (window-IsLater after upto rows),
          filter-IsAscending (in_window after upto) rows h,
        ),
        rw now (sym (latest_at-window after upto height rows le within h ∙ rw e refl)),
      )

  pub loaded_rows-IsAscending :
      (after upto : ℕ) (rows : List (Event Row))
      → after ≤ upto
      → IsAscending rows
      → IsAscending (loaded_rows after upto rows)
  loaded_rows-IsAscending after upto rows le h =
      (current_first after upto after rows _ refl (omega arith) le h).0

  -- They say of each later block what all rows say.
  pub latest_at-loaded_rows :
      (after upto height : ℕ) (rows : List (Event Row))
      → after ≤ height
      → height ≤ upto
      → IsAscending rows
      → latest_at height (loaded_rows after upto rows) ≡ latest_at height rows
  latest_at-loaded_rows after upto height rows le within h =
      (current_first after upto height rows _ refl le within h).1
