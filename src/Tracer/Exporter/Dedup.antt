-- ===== src/Tracer/Exporter/Dedup.antt =====
-- The de-duplication of a batch in `exportBatch`, by the keys that it gives the items: its `reduce`
-- and its sort keep the items that no later item has the key of.
use text.Mathlib.Text.{◌==◌}
use text.Mathlib.TextEquality.{eq_iff}
use mathlib.Core.List.{append-nil, append_assoc}
use dao_dao_indexer.Prelude.{
  ℕ, ◌+◌, ◌<◌, ◌≤◌, ◌≡◌, refl, ap, ◌∙◌, sym, Bool, true, false, List, [], ◌∷◌, ◌++◌, map, String,
  if◌then◌else◌, Bool-cases, inl, inr, arith, All, leb,
}
use dao_dao_indexer.Tracer.Exporter.{
  BatchItem, UniqueItem, item_key, unique_item, spread, collect, insert_by_index, sort_by_index,
  entry_value, unique_batch_data,
}

abbrev Entries : Type 0 → Type 0
Entries D = List (String × UniqueItem D)

eq_swap : (j k : String) → (j == k) ≡ false → (k == j) ≡ false
eq_swap j k h = ground (arith, eq_iff j k, eq_iff k j)

eq_turn : (j k : String) → (j == k) ≡ true → (k == j) ≡ true
eq_turn j k h = ground (arith, eq_iff j k, eq_iff k j)

module _ {D : Type 0} where
  abbrev pub has_key : String → List (BatchItem D) → Bool
  has_key k [] = false
  has_key k (x ∷ xs) = if item_key x == k then true else has_key k xs

  -- The items that no later item has the key of, in their order, with their indexes.
  abbrev pub latest_key : ℕ → List (BatchItem D) → List (UniqueItem D)
  latest_key index [] = []
  latest_key index (item ∷ items) =
      if has_key (item_key item) items
      then latest_key (index + 1) items
      else unique_item item index ∷ latest_key (index + 1) items

  -- The entries that none of the items replaces.
  abbrev keep : List (BatchItem D) → Entries D → Entries D
  keep items [] = []
  keep items ((j, w) ∷ acc) = if has_key j items then keep items acc else (j, w) ∷ keep items acc

  abbrev values : Entries D → List (UniqueItem D)
  values [] = []
  values ((j, w) ∷ acc) = w ∷ values acc

  abbrev BelowIndex : ℕ → UniqueItem D → Type 0
  BelowIndex n w = w.index < n

  abbrev EntryBelow : ℕ → Entries D → Type 0
  EntryBelow n [] = Unit
  EntryBelow n ((j, w) ∷ acc) = (w.index < n) × EntryBelow n acc

  abbrev NoKey : String → Entries D → Type 0
  NoKey k [] = Unit
  NoKey k ((j, w) ∷ acc) = ((j == k) ≡ false) × NoKey k acc

  abbrev Distinct : Entries D → Type 0
  Distinct [] = Unit
  Distinct ((j, w) ∷ acc) = NoKey j acc × Distinct acc

  values-map : (acc : Entries D) → map entry_value acc ≡ values acc
  values-map [] = refl
  values-map ((j, w) ∷ acc) = ap (λ l. w ∷ l) (values-map acc)

  insert-All :
      (n : ℕ) (v : UniqueItem D) (ws : List (UniqueItem D))
      → v.index < n
      → All (BelowIndex n) ws
      → All (BelowIndex n) (insert_by_index v ws)
  unfolding insert_by_index
  insert-All n v [] h k = (h, tt)
  insert-All n v (w ∷ ws) h k = elim (Bool-cases (leb v.index w.index)) [
    | inl e ↦ rw e (h, k)
    | inr e ↦ rw e (k.0, insert-All n v ws h k.1)
  ]

  sort-All :
      (n : ℕ) (vs : List (UniqueItem D))
      → All (BelowIndex n) vs
      → All (BelowIndex n) (sort_by_index vs)
  unfolding sort_by_index
  sort-All n [] h = tt
  sort-All n (v ∷ vs) h = insert-All n v (sort_by_index vs) h.0 (sort-All n vs h.1)

  -- The greatest index goes last.
  insert_last :
      (v : UniqueItem D) (ws : List (UniqueItem D))
      → All (BelowIndex v.index) ws
      → insert_by_index v ws ≡ ws ++ v ∷ []
  unfolding insert_by_index
  insert_last v [] h = refl
  insert_last v (w ∷ ws) h =
      let e : leb v.index w.index ≡ false = ground arith in
      rw e (ap (λ l. w ∷ l) (insert_last v ws h.1))

  insert-append :
      (w v : UniqueItem D) (xs : List (UniqueItem D))
      → w.index ≤ v.index
      → insert_by_index w (xs ++ v ∷ []) ≡ insert_by_index w xs ++ v ∷ []
  unfolding insert_by_index
  insert-append w v [] h = ground arith
  insert-append w v (x ∷ xs) h = elim (Bool-cases (leb w.index x.index)) [
    | inl e ↦ rw e refl
    | inr e ↦ rw e (ap (λ l. x ∷ l) (insert-append w v xs h))
  ]

  keep-All :
      (n : ℕ) (items : List (BatchItem D)) (acc : Entries D)
      → EntryBelow n acc
      → All (BelowIndex n) (values (keep items acc))
  keep-All n items [] h = tt
  keep-All n items ((j, w) ∷ acc) h = elim (Bool-cases (has_key j items)) [
    | inl e ↦ rw e (keep-All n items acc h.1)
    | inr e ↦ rw e (h.0, keep-All n items acc h.1)
  ]

  spread-NoKey :
      (j k : String) (v : UniqueItem D) (acc : Entries D)
      → (k == j) ≡ false
      → NoKey j acc
      → NoKey j (spread k v acc)
  unfolding spread
  spread-NoKey j k v [] d h = (d, tt)
  spread-NoKey j k v ((i, w) ∷ acc) d h = elim (Bool-cases (i == k)) [
    | inl e ↦ rw e (d, h.1)
    | inr e ↦ rw e (h.0, spread-NoKey j k v acc d h.1)
  ]

  spread-Distinct :
      (k : String) (v : UniqueItem D) (acc : Entries D) → Distinct acc → Distinct (spread k v acc)
  unfolding spread
  spread-Distinct k v [] h = (tt, tt)
  spread-Distinct k v ((i, w) ∷ acc) h = elim (Bool-cases (i == k)) [
    | inl e ↦ rw e (let same : i ≡ k = (eq_iff i k).0 e in rw same at h)
    | inr e ↦ rw e (spread-NoKey i k v acc (eq_swap i k e) h.0, spread-Distinct k v acc h.1)
  ]

  spread-EntryBelow :
      (n : ℕ) (k : String) (v : UniqueItem D) (acc : Entries D)
      → v.index < n
      → EntryBelow n acc
      → EntryBelow n (spread k v acc)
  unfolding spread
  spread-EntryBelow n k v [] p h = (p, tt)
  spread-EntryBelow n k v ((i, w) ∷ acc) p h = elim (Bool-cases (i == k)) [
    | inl e ↦ rw e (p, h.1)
    | inr e ↦ rw e (h.0, spread-EntryBelow n k v acc p h.1)
  ]

  EntryBelow-suc : (n : ℕ) (acc : Entries D) → EntryBelow n acc → EntryBelow (n + 1) acc
  EntryBelow-suc n [] h = tt
  EntryBelow-suc n ((i, w) ∷ acc) h = (omega arith, EntryBelow-suc n acc h.1)

  -- An item whose key no entry has replaces none.
  keep-cons_of_NoKey :
      (item : BatchItem D) (items : List (BatchItem D)) (acc : Entries D)
      → NoKey (item_key item) acc
      → keep (item ∷ items) acc ≡ keep items acc
  keep-cons_of_NoKey item items [] h = refl
  keep-cons_of_NoKey item items ((j, w) ∷ acc) h =
      let ih = keep-cons_of_NoKey item items acc h.1 in rw (eq_swap j (item_key item) h.0, ih) refl

  abbrev last_value : Bool → UniqueItem D → List (UniqueItem D)
  last_value again v = if again then [] else v ∷ []

  insert-append_last :
      (again : Bool) (w v : UniqueItem D) (xs : List (UniqueItem D))
      → w.index ≤ v.index
      → insert_by_index w (xs ++ last_value again v) ≡ insert_by_index w xs ++ last_value again v
  insert-append_last true w v xs h = rw (append-nil xs, append-nil (insert_by_index w xs)) refl
  insert-append_last false w v xs h = insert-append w v xs h

  sort-keep-spread :
      (item : BatchItem D) (items : List (BatchItem D)) (v : UniqueItem D) (acc : Entries D)
      → EntryBelow v.index acc
      → Distinct acc
      → sort_by_index (values (keep items (spread (item_key item) v acc)))
        ≡ sort_by_index (values (keep (item ∷ items) acc))
          ++ last_value (has_key (item_key item) items) v
  unfolding spread sort_by_index
  sort-keep-spread item items v [] b d = elim (Bool-cases (has_key (item_key item) items)) [
    | inl e ↦ rw e refl
    | inr e ↦ rw e (insert_last v [] tt)
  ]
  sort-keep-spread item items v ((j, w) ∷ acc) b d =
      let k = item_key item in
      let ih = sort-keep-spread item items v acc b.1 d.1 in
      elim (Bool-cases (j == k)) [
        | inl e ↦
            let same : j ≡ k = (eq_iff j k).0 e in
            let fresh : NoKey k acc = rw same at (d.0) in
            rw (e, eq_turn j k e, keep-cons_of_NoKey item items acc fresh)
              (elim (Bool-cases (has_key k items)) [
                | inl again ↦ rw again (sym (append-nil _))
                | inr final ↦ rw final (
                    insert_last v (sort_by_index (values (keep items acc)))
                      (sort-All v.index (values (keep items acc)) (keep-All v.index items acc b.1)))
              ])
        | inr e ↦
            rw (e, eq_swap j k e)
              (elim (Bool-cases (has_key j items)) [
                | inl gone ↦ rw gone ih
                | inr stays ↦ rw stays (
                    ap (insert_by_index w) ih
                    ∙ insert-append_last (has_key k items) w v
                        (sort_by_index (values (keep (item ∷ items) acc))) (omega arith))
              ])
      ]

  keep-nil : (acc : Entries D) → keep [] acc ≡ acc
  keep-nil [] = refl
  keep-nil ((j, w) ∷ acc) = ap (λ l. (j, w) ∷ l) (keep-nil acc)

  latest_key-cons :
      (n : ℕ) (item : BatchItem D) (items : List (BatchItem D))
      → last_value (has_key (item_key item) items) (unique_item item n) ++ latest_key (n + 1) items
        ≡ latest_key n (item ∷ items)
  latest_key-cons n item items = elim (Bool-cases (has_key (item_key item) items)) [
    | inl e ↦ rw e refl
    | inr e ↦ rw e refl
  ]

  sort-collect :
      (n : ℕ) (items : List (BatchItem D)) (acc : Entries D)
      → EntryBelow n acc
      → Distinct acc
      → sort_by_index (values (collect n items acc))
        ≡ sort_by_index (values (keep items acc)) ++ latest_key n items
  unfolding collect
  sort-collect n [] acc b d = rw (keep-nil acc) (sym (append-nil _))
  sort-collect n (item ∷ items) acc b d =
      let v = unique_item item n in
      let k = item_key item in
      sort-collect (n + 1) items (spread k v acc)
        (spread-EntryBelow (n + 1) k v acc (unfold unique_item in omega arith)
          (EntryBelow-suc n acc b))
        (spread-Distinct k v acc d)
      ∙ ap (λ l. l ++ latest_key (n + 1) items)
          (sort-keep-spread item items v acc (unfold unique_item in b) d)
      ∙ append_assoc (sort_by_index (values (keep (item ∷ items) acc)))
          (last_value (has_key k items) v) (latest_key (n + 1) items)
      ∙ ap (λ l. sort_by_index (values (keep (item ∷ items) acc)) ++ l)
          (latest_key-cons n item items)

  pub unique_batch_data_lem :
      (batch : List (BatchItem D)) → unique_batch_data batch ≡ latest_key 0 batch
  unfolding unique_batch_data sort_by_index
  unique_batch_data_lem batch =
      ap sort_by_index (values-map (collect 0 batch [])) ∙ sort-collect 0 batch [] tt tt
