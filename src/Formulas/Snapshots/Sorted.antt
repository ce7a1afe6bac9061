-- ===== src/Formulas/Snapshots/Sorted.antt =====
-- The first entry in the order of a sort of src/formulas/formulas/utils.ts that passes a test.
use mathlib.Core.List.{Memᴰ}
use dao_dao_indexer.Prelude.{
  ℕ, ◌≡◌, refl, Bool, true, false, List, [], ◌∷◌, Option, none, some, find, Bool-cases, inl, inr,
  All, All-mem,
}
use dao_dao_indexer.Formulas.Snapshots.{insert_by_key, sort_by_key}

module _ {ℓ κ} {A : Type ℓ} {P Q : A → Type κ} where
  pub All-map : ((a : A) → P a → Q a) → (xs : List A) → All P xs → All Q xs
  All-map f [] h = tt
  All-map f (x ∷ xs) h = (f x h.0, All-map f xs h.1)

module _ {ℓ} {A : Type ℓ} where
  pub All-self : (xs : List A) → All (λ a. Memᴰ a xs) xs
  All-self [] = tt
  All-self (x ∷ xs) = (Memᴰ.head refl, All-map (λ a m. Memᴰ.tail m) xs (All-self xs))

module _ {A : Type 0} (precedes : ℕ → ℕ → Bool) where
  module _ {κ} (P : ℕ × A → Type κ) where
    All-insert :
        (e : ℕ × A) (xs : List (ℕ × A)) → P e → All P xs → All P (insert_by_key precedes e xs)
    unfolding insert_by_key
    All-insert e [] p h = (p, tt)
    All-insert e (f ∷ fs) p h = elim (Bool-cases (precedes e.0 f.0)) [
      | inl b ↦ rw b (p, h)
      | inr b ↦ rw b (h.0, All-insert e fs p h.1)
    ]

    All-uninsert :
        (e : ℕ × A) (xs : List (ℕ × A)) → All P (insert_by_key precedes e xs) → P e × All P xs
    unfolding insert_by_key
    All-uninsert e [] h = (h.0, tt)
    All-uninsert e (f ∷ fs) h = elim (Bool-cases (precedes e.0 f.0)) [
      | inl b ↦ rw b at h
      | inr b ↦
          let k : P f × All P (insert_by_key precedes e fs) = rw b at h in
          let (p, rest) = All-uninsert e fs k.1 in (p, (k.0, rest))
    ]

    pub All-sort : (xs : List (ℕ × A)) → All P xs → All P (sort_by_key precedes xs)
    unfolding sort_by_key
    All-sort [] h = tt
    All-sort (x ∷ xs) h = All-insert x _ h.0 (All-sort xs h.1)

    pub All-unsort : (xs : List (ℕ × A)) → All P (sort_by_key precedes xs) → All P xs
    unfolding sort_by_key
    All-unsort [] h = tt
    All-unsort (x ∷ xs) h = let (p, rest) = All-uninsert x _ h in (p, All-unsort xs rest)

  abbrev IsSorted : List (ℕ × A) → Type 0
  IsSorted [] = Unit
  IsSorted (e ∷ es) = All (λ f. precedes e.0 f.0 ≡ true) es × IsSorted es

  -- Of the list: an entry of it that passes the test and precedes all that do, or that none
  -- passes.
  abbrev pub IsFirst : (ℕ × A → Bool) → List (ℕ × A) → Option (ℕ × A) → Type 0
  IsFirst p xs none = All (λ f. p f ≡ false) xs
  IsFirst p xs (some e) =
      Memᴰ e xs × (p e ≡ true) × All (λ f. p f ≡ true → precedes e.0 f.0 ≡ true) xs

  -- The comparison is a total order.
  module _ (refl_lem : (a : ℕ) → precedes a a ≡ true)
      (total : (a b : ℕ) → precedes a b ≡ false → precedes b a ≡ true)
      (trans : (a b c : ℕ) → precedes a b ≡ true → precedes b c ≡ true → precedes a c ≡ true) where
    insert-IsSorted :
        (e : ℕ × A) (xs : List (ℕ × A)) → IsSorted xs → IsSorted (insert_by_key precedes e xs)
    unfolding insert_by_key
    insert-IsSorted e [] h = (tt, tt)
    insert-IsSorted e (f ∷ fs) h = elim (Bool-cases (precedes e.0 f.0)) [
      | inl b ↦ rw b ((b, All-map (λ g p. trans e.0 f.0 g.0 b p) fs h.0), h)
      | inr b ↦ rw b (All-insert _ e fs (total e.0 f.0 b) h.0, insert-IsSorted e fs h.1)
    ]

    sort-IsSorted : (xs : List (ℕ × A)) → IsSorted (sort_by_key precedes xs)
    unfolding sort_by_key
    sort-IsSorted [] = tt
    sort-IsSorted (x ∷ xs) = insert-IsSorted x _ (sort-IsSorted xs)

    module _ (p : ℕ × A → Bool) where
      IsFirst-cons :
          (x : ℕ × A) (xs : List (ℕ × A)) (o : Option (ℕ × A))
          → p x ≡ false
          → IsFirst p xs o
          → IsFirst p (x ∷ xs) o
      IsFirst-cons x xs none b h = (b, h)
      IsFirst-cons x xs (some e) b (m, q, least) =
          (Memᴰ.tail m, q, (λ r. absurd (cc (b, r)), least))

      IsFirst-unsort :
          (xs : List (ℕ × A)) (o : Option (ℕ × A))
          → IsFirst p (sort_by_key precedes xs) o
          → IsFirst p xs o
      IsFirst-unsort xs none h = All-unsort _ xs h
      IsFirst-unsort xs (some e) (m, q, least) = (
        All-mem (λ f. Memᴰ f xs) (sort_by_key precedes xs) (All-sort _ xs (All-self xs)) m,
        q,
        All-unsort _ xs least,
      )

      find-IsFirst : (xs : List (ℕ × A)) → IsSorted xs → IsFirst p xs (find p xs)
      find-IsFirst [] h = tt
      find-IsFirst (x ∷ xs) h = elim (Bool-cases (p x)) [
        | inl b ↦ rw b (Memᴰ.head refl, b, (λ q. refl_lem x.0, All-map (λ f k q. k) xs h.0))
        | inr b ↦ rw b (IsFirst-cons x xs (find p xs) b (find-IsFirst xs h.1))
      ]

      pub find-sort : (xs : List (ℕ × A)) → IsFirst p xs (find p (sort_by_key precedes xs))
      find-sort xs =
          IsFirst-unsort xs (find p (sort_by_key precedes xs))
            (find-IsFirst (sort_by_key precedes xs) (sort-IsSorted xs))
