-- ===== src/Formulas/Events/Sorting.antt =====
-- The sort by height of src/formulas/compute.ts: what holds of the events, holds of them sorted.
use dao_dao_indexer.Prelude.{
  ◌≤◌, ◌≡◌, refl, ap, ◌∙◌, Bool, true, ◌||◌, List, [], ◌∷◌, some_of, leb, Bool-cases, inl, inr,
  arith, All,
}
use dao_dao_indexer.Formulas.Events.{Event, insert_by_height, sort_by_height}
use dao_dao_indexer.Formulas.Events.Latest.{IsAscending}

module _ {Row : Type 0} where
  insert_by_height-first :
      (e : Event Row) (es : List (Event Row))
      → All (λ f. e.block.height ≤ f.block.height) es
      → insert_by_height e es ≡ e ∷ es
  unfolding insert_by_height
  insert_by_height-first e [] h = refl
  insert_by_height-first e (f ∷ fs) h =
      let before : leb e.block.height f.block.height ≡ true = ground (arith, h.0) in rw before refl

  pub sort_by_height-IsAscending : (es : List (Event Row)) → IsAscending es → sort_by_height es ≡ es
  unfolding sort_by_height
  sort_by_height-IsAscending [] h = refl
  sort_by_height-IsAscending (e ∷ es) h =
      rw (sort_by_height-IsAscending es h.1) (insert_by_height-first e es h.0)

  module _ {κ} (P : Event Row → Type κ) where
    All-insert_by_height :
        (e : Event Row) (es : List (Event Row)) → P e → All P es → All P (insert_by_height e es)
    unfolding insert_by_height
    All-insert_by_height e [] p h = (p, tt)
    All-insert_by_height e (f ∷ fs) p h = elim (Bool-cases (leb e.block.height f.block.height)) [
      | inl before ↦ rw before (p, h)
      | inr after ↦ rw after (h.0, All-insert_by_height e fs p h.1)
    ]

    pub All-sort_by_height : (es : List (Event Row)) → All P es → All P (sort_by_height es)
    unfolding sort_by_height
    All-sort_by_height [] h = tt
    All-sort_by_height (e ∷ es) h =
        All-insert_by_height e (sort_by_height es) h.0 (All-sort_by_height es h.1)

  module _ (p : Event Row → Bool) where
    some_of-insert_by_height :
        (e : Event Row) (es : List (Event Row))
        → some_of p (insert_by_height e es) ≡ (p e || some_of p es)
    unfolding insert_by_height
    some_of-insert_by_height e [] = refl
    some_of-insert_by_height e (f ∷ fs) = elim (Bool-cases (leb e.block.height f.block.height)) [
      | inl before ↦ rw before refl
      | inr after ↦ rw (after, some_of-insert_by_height e fs) (ground arith)
    ]

    pub some_of-sort_by_height :
        (es : List (Event Row)) → some_of p (sort_by_height es) ≡ some_of p es
    unfolding sort_by_height
    some_of-sort_by_height [] = refl
    some_of-sort_by_height (e ∷ es) =
        some_of-insert_by_height e (sort_by_height es)
        ∙ ap (λ b. p e || b) (some_of-sort_by_height es)
