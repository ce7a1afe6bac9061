-- ===== src/Formulas/Snapshots/Pages.antt =====
-- The pages of src/formulas/formulas/utils.ts, snapshotVectorMapLoad.
use dao_dao_indexer.Prelude.{
  ℕ, zero, suc, ◌+◌, ◌<◌, ◌≡◌, refl, sym, ap, ◌∙◌, List, [], ◌∷◌, ◌++◌, map, String, Option, none,
  some, filter, drop, take, take-drop, ltb, ltb→lt, All, Bool-cases, inl, inr, arith,
}
use dao_dao_indexer.Formulas.Snapshots.{
  Loaded, ChangeSet, Active, VectorItem, page, is_active_at, load_item, snapshot_vector_map_load,
}

module _ {ℓ} {A : Type ℓ} where
  drop_empty : (n : ℕ) → [] ≡ drop {A = A} n []
  drop_empty zero = refl
  drop_empty (suc n) = refl

  drop-drop : (m n : ℕ) (xs : List A) → drop (m + n) xs ≡ drop n (drop m xs)
  drop-drop zero n xs = let e : 0 + n ≡ n = omega arith in rw e refl
  drop-drop (suc m) n [] = let e : suc m + n ≡ suc (m + n) = omega arith in rw e (drop_empty n)
  drop-drop (suc m) n (x ∷ xs) =
      let e : suc m + n ≡ suc (m + n) = omega arith in rw e (drop-drop m n xs)

  page-page :
      (offset limit : ℕ) (xs : List A)
      → page offset (some limit) xs ++ page (offset + limit) none xs ≡ page offset none xs
  unfolding page
  page-page offset limit xs = rw (drop-drop offset limit xs) (take-drop limit (drop offset xs))

  All-drop {κ} : (P : A → Type κ) (n : ℕ) (xs : List A) → All P xs → All P (drop n xs)
  All-drop P zero xs h = h
  All-drop P (suc n) [] h = tt
  All-drop P (suc n) (x ∷ xs) h = All-drop P n xs h.1

  All-take {κ} : (P : A → Type κ) (n : ℕ) (xs : List A) → All P xs → All P (take n xs)
  All-take P zero xs h = tt
  All-take P (suc n) [] h = tt
  All-take P (suc n) (x ∷ xs) h = (h.0, All-take P n xs h.1)

map-append {ℓ κ} :
    {A : Type ℓ} {B : Type κ} (f : A → B) (xs ys : List A) → map f (xs ++ ys) ≡ map f xs ++ map f ys
map-append f [] ys = refl
map-append f (x ∷ xs) ys = ap (λ zs. f x ∷ zs) (map-append f xs ys)

abbrev pub IsUnexpired : ℕ → Option ℕ → Type 0
IsUnexpired height none = Unit
IsUnexpired height (some expiration) = height < expiration

module _ {ℓ} {V : Type ℓ} (decimal : ℕ → String) (item_match : String → Loaded V)
    (active_map : String → Option (List (ℕ × Option (ChangeSet Active))))
    (active_match : String → Loaded Active) (name key : String) (height : ℕ) where
  abbrev load : Option ℕ → ℕ → List (VectorItem V)
  load limit offset =
      snapshot_vector_map_load decimal item_match active_map active_match name key height limit
        offset

  -- A page followed by all items after it is all items from the page's offset.
  pub snapshot_vector_map_load-pages :
      (offset limit : ℕ) → load (some limit) offset ++ load none (offset + limit) ≡ load none offset
  unfolding snapshot_vector_map_load
  snapshot_vector_map_load-pages offset limit =
      sym (map-append (load_item decimal item_match name key) _ _)
      ∙ ap (map (load_item decimal item_match name key)) (page-page offset limit _)

  filter-IsUnexpired :
      (ids : Active) → All (λ i. IsUnexpired height i.1) (filter (is_active_at height) ids)
  unfolding is_active_at
  filter-IsUnexpired [] = tt
  filter-IsUnexpired ((id, none) ∷ ids) = (tt, filter-IsUnexpired ids)
  filter-IsUnexpired ((id, some e) ∷ ids) = elim (Bool-cases (ltb height e)) [
    | inl later ↦ rw later (ltb→lt height e later, filter-IsUnexpired ids)
    | inr past ↦ rw past (filter-IsUnexpired ids)
  ]

  load_item-All :
      (ids : Active)
      → All (λ i. IsUnexpired height i.1) ids
      → All (λ i. IsUnexpired height i.expiration) (map (load_item decimal item_match name key) ids)
  unfolding load_item
  load_item-All [] h = tt
  load_item-All ((id, e) ∷ ids) h = (h.0, load_item-All ids h.1)

  page-All :
      (limit : Option ℕ) (offset : ℕ) (ids : Active)
      → All (λ i. IsUnexpired height i.1) ids
      → All (λ i. IsUnexpired height i.1) (page offset limit ids)
  unfolding page
  page-All none offset ids h = All-drop _ offset ids h
  page-All (some n) offset ids h = All-take _ n (drop offset ids) (All-drop _ offset ids h)

  -- No item of a page has expired at the height.
  pub snapshot_vector_map_load-IsUnexpired :
      (limit : Option ℕ) (offset : ℕ)
      → All (λ i. IsUnexpired height i.expiration) (load limit offset)
  unfolding snapshot_vector_map_load
  snapshot_vector_map_load-IsUnexpired limit offset =
      load_item-All _ (page-All limit offset _ (filter-IsUnexpired _))
