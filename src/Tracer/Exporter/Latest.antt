-- ===== src/Tracer/Exporter/Latest.antt =====
-- What `exportBatch` keeps of a batch, against a description by the handlers and the IDs of the items
-- that does not use the keys of the code. A key is the handler and the ID with a colon between them,
-- so two items have one key exactly if they agree in both, where the handlers have no colon: those
-- of src/tracer/handlers/index.ts (bank, feegrant, gov, wasm) have none.
use Prim.Native.Char.{Char, code}
use Prim.Native.String
use text.Mathlib.Text.{◌==◌}
use text.Mathlib.TextEquality.{eq_iff}
use text.Mathlib.TextLemmas.{
  head-eq_of_cons-eq, tail-eq_of_cons-eq, append_cancel_left, nil-append, cons-append,
}
use dao_dao_indexer.Prelude.{
  ℕ, ◌+◌, ◌≡◌, ◌≢◌, refl, sym, ap, ◌∙◌, Bool, true, false, ◌&&◌, ◌||◌, not, List, [], ◌∷◌, map,
  filter, some, String, if◌then◌else◌, Bool-cases, inl, inr, arith, All,
}
use dao_dao_indexer.Tracer.Exporter.{
  BatchItem, UniqueItem, QueueItem, Added, item_key, unique_item, unique_batch_data, queue_item,
  get_last_block_height, added_batch,
}
use dao_dao_indexer.Tracer.Exporter.Dedup.{has_key, latest_key, unique_batch_data_lem}

-- No character of the text is a colon.
abbrev pub HasNoColon : String → Type 0
HasNoColon String.[] = Unit
HasNoColon (String.◌∷◌ c s) = (code c ≢ b':') × HasNoColon s

-- The key of a handler and an ID.
abbrev pair_key : String → String → String
pair_key handler id = String.◌++◌ handler (String.◌++◌ ":" id)

colon-head :
    (c : Char) (s t : String) → code c ≢ b':' → Path String (String.◌++◌ ":" t) (String.◌∷◌ c s) → ⊥
colon-head c s t h e =
    let colon : Char = ":" in
    h (sym (ap code (head-eq_of_cons-eq (sym (cons-append colon String.[] t) ∙ e))))

-- Texts with a colon between them are equal only in parts.
pair_key_inj :
    (h₁ h₂ i₁ i₂ : String)
    → HasNoColon h₁
    → HasNoColon h₂
    → pair_key h₁ i₁ ≡ pair_key h₂ i₂
    → (h₁ ≡ h₂) × (i₁ ≡ i₂)
pair_key_inj String.[] String.[] i₁ i₂ a b e = (
  refl,
  append_cancel_left ":" i₁ i₂
      (sym (nil-append (String.◌++◌ ":" i₁)) ∙ e ∙ nil-append (String.◌++◌ ":" i₂)),
)
pair_key_inj String.[] (String.◌∷◌ c h₂) i₁ i₂ a b e = absurd (
    colon-head c (pair_key h₂ i₂) i₁ b.0
      (sym (nil-append _) ∙ e ∙ cons-append c h₂ (String.◌++◌ ":" i₂)))
pair_key_inj (String.◌∷◌ c h₁) String.[] i₁ i₂ a b e = absurd (
    colon-head c (pair_key h₁ i₁) i₂ a.0
      (sym (nil-append _) ∙ sym e ∙ cons-append c h₁ (String.◌++◌ ":" i₁)))
pair_key_inj (String.◌∷◌ c h₁) (String.◌∷◌ d h₂) i₁ i₂ a b e =
    let whole : Path String (String.◌∷◌ c (pair_key h₁ i₁)) (String.◌∷◌ d (pair_key h₂ i₂)) =
      sym (cons-append c h₁ _) ∙ e ∙ cons-append d h₂ _ in
    let (same, ids) = pair_key_inj h₁ h₂ i₁ i₂ a.1 b.1 (tail-eq_of_cons-eq whole) in
    (λ k. String.◌∷◌ (head-eq_of_cons-eq whole k) (same k), ids)

both_true : (a b : Bool) → (a && b) ≡ true → (a ≡ true) × (b ≡ true)
both_true a b h = ground arith

module _ {D : Type 0} where
  abbrev pub HasPlainHandler : BatchItem D → Type 0
  HasPlainHandler item = HasNoColon item.handler

  -- The two items have one handler and one ID.
  abbrev pub is_same_item : BatchItem D → BatchItem D → Bool
  is_same_item x y = (x.handler == y.handler) && (x.id == y.id)

  -- One of the items has the handler and the ID of the item.
  abbrev pub is_superseded : BatchItem D → List (BatchItem D) → Bool
  is_superseded item [] = false
  is_superseded item (x ∷ xs) = if is_same_item x item then true else is_superseded item xs

  -- The items that no later item has the handler and the ID of, in their order, each with its index.
  abbrev pub latest : ℕ → List (BatchItem D) → List (UniqueItem D)
  latest index [] = []
  latest index (item ∷ items) =
      if is_superseded item items
      then latest (index + 1) items
      else record {
        handler = item.handler;
        has_background = item.has_background;
        payload = item.payload;
        index = index;
      }
        ∷ latest (index + 1) items

  item_key-is_same_item :
      (x y : BatchItem D)
      → HasPlainHandler x
      → HasPlainHandler y
      → (item_key x == item_key y) ≡ is_same_item x y
  unfolding item_key
  item_key-is_same_item x y a b = elim (Bool-cases (item_key x == item_key y)) [
    | inl e ↦
        let (h, i) =
          pair_key_inj x.handler y.handler x.id y.id a b ((eq_iff (item_key x) (item_key y)).0 e) in
        rw (e, (eq_iff x.handler y.handler).1 h, (eq_iff x.id y.id).1 i) refl
    | inr e ↦ elim (Bool-cases (is_same_item x y)) [
      | inl same ↦
          let (h, i) = both_true (x.handler == y.handler) (x.id == y.id) same in
          let p = (eq_iff x.handler y.handler).0 h in
          let q = (eq_iff x.id y.id).0 i in
          let k = (eq_iff (item_key x) (item_key y)).1 (λ t. pair_key (p t) (q t)) in
          cc (let clash : true ≡ false = sym k ∙ e in clash)
      | inr other ↦ rw (e, other) refl
    ]
  ]

  has_key-is_superseded :
      (item : BatchItem D) (items : List (BatchItem D))
      → HasPlainHandler item
      → All HasPlainHandler items
      → has_key (item_key item) items ≡ is_superseded item items
  has_key-is_superseded item [] a h = refl
  has_key-is_superseded item (x ∷ xs) a h =
      rw (item_key-is_same_item x item h.0 a, has_key-is_superseded item xs a h.1) refl

  latest_key-latest :
      (index : ℕ) (items : List (BatchItem D))
      → All HasPlainHandler items
      → latest_key index items ≡ latest index items
  unfolding unique_item
  latest_key-latest index [] h = refl
  latest_key-latest index (item ∷ items) h =
      rw (has_key-is_superseded item items h.0 h.1, latest_key-latest (index + 1) items h.1) refl

  -- Where no handler has a colon, what `exportBatch` makes of a batch by its `reduce` and its sort
  -- are, in the order of the batch, the items that no later item has both the handler and the ID of,
  -- each with its index in the batch.
  pub unique_batch_data-latest :
      (batch : List (BatchItem D))
      → All HasPlainHandler batch
      → unique_batch_data batch ≡ latest 0 batch
  unique_batch_data-latest batch h = unique_batch_data_lem batch ∙ latest_key-latest 0 batch h

  -- The height of the last item's block.
  abbrev last_height : List (BatchItem D) → ℕ
  last_height [] = 0
  last_height (item ∷ []) = item.block_height
  last_height (item ∷ next ∷ items) = last_height (next ∷ items)

  abbrev handed_item : BatchItem D → QueueItem D
  handed_item item = record { handler = item.handler; payload = item.payload }

  -- The handlers and payloads of the items that no later item has the handler and the ID of.
  abbrev handed_items : List (BatchItem D) → List (QueueItem D)
  handed_items [] = []
  handed_items (item ∷ items) =
      if is_superseded item items then handed_items items else handed_item item ∷ handed_items items

  -- Those of them that have a background handler.
  abbrev handed_background : List (BatchItem D) → List (QueueItem D)
  handed_background [] = []
  handed_background (item ∷ items) =
      if is_superseded item items || not item.has_background
      then handed_background items
      else handed_item item ∷ handed_background items

  -- What the queues are given for a batch: the height of its last item's block, and the data of the
  -- items that no later item of the batch supersedes.
  abbrev pub handed_for : List (BatchItem D) → Added D
  handed_for batch = record {
    block_height = last_height batch;
    all_data = handed_items batch;
    background_data = handed_background batch;
  }

  map-latest :
      (n : ℕ) (batch : List (BatchItem D)) → map queue_item (latest n batch) ≡ handed_items batch
  map-latest n [] = refl
  map-latest n (item ∷ items) = elim (Bool-cases (is_superseded item items)) [
    | inl old ↦ rw old (map-latest (n + 1) items)
    | inr new ↦ rw new (ap (λ l. handed_item item ∷ l) (map-latest (n + 1) items))
  ]

  filter-latest :
      (n : ℕ) (batch : List (BatchItem D))
      → map queue_item (filter (λ v. v.has_background) (latest n batch)) ≡ handed_background batch
  filter-latest n [] = refl
  filter-latest n (item ∷ items) = elim (Bool-cases (is_superseded item items)) [
    | inl old ↦ rw old (filter-latest (n + 1) items)
    | inr new ↦ elim (Bool-cases item.has_background) [
      | inl has ↦ rw (new, has) (ap (λ l. handed_item item ∷ l) (filter-latest (n + 1) items))
      | inr without ↦ rw (new, without) (filter-latest (n + 1) items)
    ]
  ]

  last_height_lem :
      (height : ℕ) (batch : List (BatchItem D))
      → get_last_block_height batch ≡ some height
      → height ≡ last_height batch
  unfolding get_last_block_height
  last_height_lem height [] e = cc
  last_height_lem height (item ∷ []) e = cc
  last_height_lem height (item ∷ next ∷ items) e = last_height_lem height (next ∷ items) e

  pub added_batch-handed_for :
      (height : ℕ) (batch : List (BatchItem D))
      → All HasPlainHandler batch
      → get_last_block_height batch ≡ some height
      → added_batch height batch ≡ handed_for batch
  unfolding added_batch
  added_batch-handed_for height batch h e =
      let all = ap (map queue_item) (unique_batch_data-latest batch h) ∙ map-latest 0 batch in
      let background =
        ap (λ l. map queue_item (filter (λ v. v.has_background) l))
          (unique_batch_data-latest batch h)
        ∙ filter-latest 0 batch in
      λ i. record {
        block_height = last_height_lem height batch e i;
        all_data = all i;
        background_data = background i;
      }
