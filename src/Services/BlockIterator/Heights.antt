-- ===== src/Services/BlockIterator/Heights.antt =====
-- The heights between the loop of `iterate` and the fetcher of src/services/BlockIterator.ts: each is
-- in flight or in the buffer.
use dao_dao_indexer.Prelude.{
  ℕ, suc, ◌+◌, ◌<◌, ◌≤◌, ◌≡◌, refl, sym, ap, ◌∙◌, true, false, ◌||◌, List, [], ◌∷◌, ◌++◌, length,
  none, some, ◌==◌, Bool-cases, ◌⊎◌, inl, inr, arith,
}
use dao_dao_indexer.Services.BlockIterator.{get_item, delete_item, set_item, land, is_in_flight}

land-other :
    (h k : ℕ) (heights : List ℕ)
    → (h == k) ≡ false
    → is_in_flight k (land h heights) ≡ is_in_flight k heights
unfolding land
land-other h k [] ne = refl
land-other h k (j ∷ heights) ne =
    let ih = land-other h k heights ne in
    elim (Bool-cases (j == h)) [
      | inl same ↦ let other : (j == k) ≡ false = ground arith in rw (same, other) refl
      | inr different ↦ rw different (ap (λ b. (j == k) || b) ih)
    ]

-- A height that is still in flight was in flight.
land-before :
    (h k : ℕ) (heights : List ℕ)
    → is_in_flight k (land h heights) ≡ true
    → is_in_flight k heights ≡ true
unfolding land
land-before h k [] fly = fly
land-before h k (j ∷ heights) fly = elim (Bool-cases (j == h)) [
  | inl same ↦
      let rest : is_in_flight k heights ≡ true = rw same at fly in
      elim (Bool-cases (j == k)) [ inl b ↦ rw b refl | inr b ↦ rw b rest ]
  | inr different ↦ elim (Bool-cases (j == k)) [
    | inl here ↦ rw here refl
    | inr there ↦
        let rest : is_in_flight k (land h heights) ≡ true = rw (different, there) at fly in
        rw there (land-before h k heights rest)
  ]
]

pub length-land :
    (h : ℕ) (heights : List ℕ)
    → is_in_flight h heights ≡ true
    → suc (length (land h heights)) ≡ length heights
unfolding land
length-land h [] fly = cc
length-land h (j ∷ heights) fly = elim (Bool-cases (j == h)) [
  | inl same ↦ rw same refl
  | inr different ↦
      let rest : is_in_flight h heights ≡ true = rw different at fly in
      rw different (ap suc (length-land h heights rest))
]

is_in_flight-append :
    (k h : ℕ) (heights : List ℕ)
    → is_in_flight k (heights ++ h ∷ []) ≡ (is_in_flight k heights || (h == k))
is_in_flight-append k h [] = ground arith
is_in_flight-append k h (j ∷ heights) =
    ap (λ b. (j == k) || b) (is_in_flight-append k h heights) ∙ ground arith

module _ {Item : Type 0} where
  get_item-delete_item :
      (h k : ℕ) (buffer : List (ℕ × Item))
      → (h == k) ≡ false
      → get_item k (delete_item h buffer) ≡ get_item k buffer
  unfolding get_item delete_item
  get_item-delete_item h k [] ne = refl
  get_item-delete_item h k ((j, item) ∷ buffer) ne =
      let ih = get_item-delete_item h k buffer ne in
      elim (Bool-cases (j == h)) [
        | inl same ↦ let other : (j == k) ≡ false = ground arith in rw (same, other) ih
        | inr different ↦ elim (Bool-cases (j == k)) [
          | inl here ↦ rw (different, here) refl
          | inr there ↦ rw (different, there) ih
        ]
      ]

  get_item-deleted : (h : ℕ) (buffer : List (ℕ × Item)) → get_item h (delete_item h buffer) ≡ none
  unfolding get_item delete_item
  get_item-deleted h [] = refl
  get_item-deleted h ((j, item) ∷ buffer) = elim (Bool-cases (j == h)) [
    | inl same ↦ rw same (get_item-deleted h buffer)
    | inr different ↦ rw (different, different) (get_item-deleted h buffer)
  ]

  pub length-delete_item :
      (h : ℕ) (buffer : List (ℕ × Item)) → length (delete_item h buffer) ≤ length buffer
  unfolding delete_item
  length-delete_item h [] = omega arith
  length-delete_item h ((j, item) ∷ buffer) =
      let ih = length-delete_item h buffer in
      elim (Bool-cases (j == h)) [
        | inl same ↦ rw same (omega (arith, ih))
        | inr different ↦ rw different (omega (arith, ih))
      ]

  -- The heights from the one that is awaited to the next one to fetch, and no others, are in flight
  -- or in the buffer.
  pub record IsHeld (current next : ℕ) (in_flight : List ℕ) (buffer : List (ℕ × Item))
      : Type 0 where
    pub reached : current ≤ next
    pub held :
        (h : ℕ)
        → current ≤ h
        → h < next
        → (is_in_flight h in_flight ≡ true) ⊎ (get_item h buffer ≡ none → ⊥)
    pub buffered : (h : ℕ) {item : Item} → get_item h buffer ≡ some item → h < next
    pub flying : (h : ℕ) → is_in_flight h in_flight ≡ true → h < next

  pub fetched-IsHeld :
      (current next : ℕ) (in_flight : List ℕ) (buffer : List (ℕ × Item))
      → IsHeld current next in_flight buffer
      → IsHeld current (next + 1) (in_flight ++ next ∷ []) buffer
  fetched-IsHeld current next in_flight buffer g = record {
    reached = omega (arith, g.reached);
    held = λ h from before. elim (Bool-cases (next == h)) [
      | inl new ↦ inl (is_in_flight-append h next in_flight ∙ ground (arith, new))
      | inr old ↦ elim (g.held h from (ground (arith, old, before))) [
        | inl fly ↦ inl (is_in_flight-append h next in_flight ∙ ground (arith, fly))
        | inr there ↦ inr there
      ]
    ];
    buffered = λ h e. omega (arith, g.buffered h e);
    flying = λ h e. elim (Bool-cases (is_in_flight h in_flight)) [
      | inl fly ↦ omega (arith, g.flying h fly)
      | inr no_fly ↦ ground (arith, sym (is_in_flight-append h next in_flight) ∙ e, no_fly)
    ];
  }

  pub arrived-IsHeld :
      (current next : ℕ) (in_flight : List ℕ) (buffer : List (ℕ × Item)) (height : ℕ) (item : Item)
      → is_in_flight height in_flight ≡ true
      → IsHeld current next in_flight buffer
      → IsHeld current next (land height in_flight) (set_item height item buffer)
  unfolding get_item
  arrived-IsHeld current next in_flight buffer height item fly g = record {
    reached = g.reached;
    held = λ h from before. elim (Bool-cases (height == h)) [
      | inl new ↦ inr (λ missing. let gone : some item ≡ none = rw new at missing in cc gone)
      | inr old ↦ elim (g.held h from before) [
        | inl still ↦ inl (land-other height h in_flight old ∙ still)
        | inr there ↦
            inr (λ missing.
              there (sym (get_item-delete_item height h buffer old) ∙ rw old at missing))
      ]
    ];
    buffered = λ h e. elim (Bool-cases (height == h)) [
      | inl new ↦ ground (arith, g.flying height fly, new)
      | inr old ↦ g.buffered h (sym (get_item-delete_item height h buffer old) ∙ rw old at e)
    ];
    flying = λ h e. g.flying h (land-before height h in_flight e);
  }

  pub taken-IsHeld :
      (current next : ℕ) (in_flight : List ℕ) (buffer : List (ℕ × Item)) {item : Item}
      → get_item current buffer ≡ some item
      → IsHeld current next in_flight buffer
      → IsHeld (current + 1) next in_flight (delete_item current buffer)
  taken-IsHeld current next in_flight buffer there g = record {
    reached = omega (arith, g.buffered current there);
    held = λ h from before.
        let other : (current == h) ≡ false = ground arith in
        elim (g.held h (omega (arith, from)) before) [
          | inl fly ↦ inl fly
          | inr found ↦
              inr (λ missing. found (sym (get_item-delete_item current h buffer other) ∙ missing))
        ];
    buffered = λ h e. elim (Bool-cases (current == h)) [
      | inl same ↦ ground (arith, g.buffered current there, same)
      | inr other ↦ g.buffered h (sym (get_item-delete_item current h buffer other) ∙ e)
    ];
    flying = g.flying;
  }
