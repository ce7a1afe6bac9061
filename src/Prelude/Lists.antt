-- ===== src/Prelude/Lists.antt =====
-- Lists measured and filtered by native numbers and Boolean tests, under the library's names, and
-- what holds of every item of a list.
use Prim.Native.Nat.{ℕ, zero, suc, ◌+◌}
use mathlib.Core.Path.{◌≡◌, refl, sym, ap, ◌∙◌, subst}
use mathlib.Core.Logic.{inl, inr}
use mathlib.Core.Bool.{Bool, true, false, ◌||◌}
use mathlib.Core.List.{List, [], ◌∷◌, ◌++◌, Memᴰ}
use mathlib.Core.Option.{Option, none, some}
use native.Mathlib.Omega.{arith}
use dao_dao_indexer.Prelude.Tests.{if◌then◌else◌, Bool-cases}

abbrev pub next_index : Option ℕ → Option ℕ
next_index none = none
next_index (some i) = some (suc i)

module _ {ℓ} {A : Type ℓ} where
  abbrev pub length : List A → ℕ
  length [] = 0
  length (x ∷ xs) = suc (length xs)

  pub length-append : (xs ys : List A) → length (xs ++ ys) ≡ length xs + length ys
  length-append [] ys = omega arith
  length-append (x ∷ xs) ys = omega (arith, length-append xs ys)

  abbrev pub filter : (A → Bool) → List A → List A
  filter p [] = []
  filter p (x ∷ xs) = if p x then x ∷ filter p xs else filter p xs

  abbrev pub some_of : (A → Bool) → List A → Bool
  some_of p [] = false
  some_of p (x ∷ xs) = p x || some_of p xs

  abbrev pub find : (A → Bool) → List A → Option A
  find p [] = none
  find p (x ∷ xs) = if p x then some x else find p xs

  abbrev pub All {κ} : (A → Type κ) → List A → Type κ
  All P [] = Unit
  All P (x ∷ xs) = P x × All P xs

  abbrev pub replicate : ℕ → A → List A
  replicate zero a = []
  replicate (suc n) a = a ∷ replicate n a

  abbrev pub get_elem? : List A → ℕ → Option A
  get_elem? [] i = none
  get_elem? (x ∷ xs) zero = some x
  get_elem? (x ∷ xs) (suc i) = get_elem? xs i

  abbrev pub drop : ℕ → List A → List A
  drop zero xs = xs
  drop (suc n) [] = []
  drop (suc n) (x ∷ xs) = drop n xs

  abbrev pub take : ℕ → List A → List A
  take zero xs = []
  take (suc n) [] = []
  take (suc n) (x ∷ xs) = x ∷ take n xs

  pub take-drop : (n : ℕ) (xs : List A) → take n xs ++ drop n xs ≡ xs
  take-drop zero xs = refl
  take-drop (suc n) [] = refl
  take-drop (suc n) (x ∷ xs) = ap (λ ys. x ∷ ys) (take-drop n xs)

  abbrev pub to_list : Option A → List A
  to_list none = []
  to_list (some x) = x ∷ []

  -- `findIndex`; `none` is the code's -1.
  abbrev pub find_index : (A → Bool) → List A → Option ℕ
  find_index p [] = none
  find_index p (x ∷ xs) = if p x then some 0 else next_index (find_index p xs)

module _ {ℓ κ} {A : Type ℓ} (P : A → Type κ) where
  pub All-mem : (xs : List A) {a : A} → All P xs → Memᴰ a xs → P a
  All-mem [] h m = elim m [ ]
  All-mem (x ∷ xs) h (Memᴰ.head e) = subst P (sym e) h.0
  All-mem (x ∷ xs) h (Memᴰ.tail m) = All-mem xs h.1 m

module _ {ℓ} {A : Type ℓ} (p : A → Bool) where
  pub mem-filter : (xs : List A) {a : A} → Memᴰ a xs → p a ≡ true → Memᴰ a (filter p xs)
  mem-filter [] m h = elim m [ ]
  mem-filter (x ∷ xs) (Memᴰ.head e) h = let k : p x ≡ true = ap p (sym e) ∙ h in rw k (Memᴰ.head e)
  mem-filter (x ∷ xs) (Memᴰ.tail m) h = elim (Bool-cases (p x)) [
    | inl k ↦ rw k (Memᴰ.tail (mem-filter xs m h))
    | inr k ↦ rw k (mem-filter xs m h)
  ]

module _ {ℓ κ μ} {A : Type ℓ} (P : A → Type κ) (Q : A → Type μ) where
  pub All-weaken : ((x : A) → P x → Q x) → (xs : List A) → All P xs → All Q xs
  All-weaken f [] h = tt
  All-weaken f (x ∷ xs) h = (f x h.0, All-weaken f xs h.1)

module _ {ℓ κ μ ν} {A : Type ℓ} (P : A → Type κ) (Q : A → Type μ) (R : A → Type ν) where
  pub All-zip : ((x : A) → P x → Q x → R x) → (xs : List A) → All P xs → All Q xs → All R xs
  All-zip f [] h k = tt
  All-zip f (x ∷ xs) h k = (f x h.0 k.0, All-zip f xs h.1 k.1)
