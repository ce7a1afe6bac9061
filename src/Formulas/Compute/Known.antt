-- ===== src/Formulas/Compute/Known.antt =====
-- The keys that the loop of src/formulas/compute.ts, `computeRange`, adds to the known ones.
use text.Mathlib.Text.{◌==◌}
use text.Mathlib.TextEquality.{eq_iff}
use dao_dao_indexer.Prelude.{
  ◌≡◌, refl, ap, ◌∙◌, Bool, true, false, ◌&&◌, ◌||◌, List, [], ◌∷◌, ◌++◌, String, some_of,
  Bool-cases, inl, inr, arith,
}
use dao_dao_indexer.Formulas.Events.{DependentKey}
use dao_dao_indexer.Formulas.Events.Exact.{IsExact, has_dependent}
use dao_dao_indexer.Formulas.Compute.{bool_eq, dependent_key_matches, new_keys}

and_true : (b : Bool) → (b && true) ≡ b
and_true true = refl
and_true false = refl

matches-key :
    (k j : DependentKey)
    → k.prefix ≡ false
    → j.prefix ≡ false
    → dependent_key_matches k j ≡ (k.key == j.key)
unfolding dependent_key_matches bool_eq
matches-key k j e f = simp (e, f) (and_true (k.key == j.key))

-- The new keys are those that are read and not known.
matches-has_dependent :
    (k : DependentKey) (known : List DependentKey)
    → k.prefix ≡ false
    → IsExact known
    → some_of (dependent_key_matches k) known ≡ has_dependent k.key known
unfolding dependent_key_matches
matches-has_dependent k [] e h = refl
matches-has_dependent k (j ∷ known) e h =
    let same : dependent_key_matches k j ≡ (k.key == j.key) = matches-key k j e h.0 in
    rw (same, matches-has_dependent k known e h.1) refl

pub has_dependent-append :
    (key : String) (xs ys : List DependentKey)
    → has_dependent key (xs ++ ys) ≡ (has_dependent key xs || has_dependent key ys)
has_dependent-append key [] ys = refl
has_dependent-append key (x ∷ xs) ys = rw (has_dependent-append key xs ys) (ground arith)

dropped :
    (key : String) (known : List DependentKey) (k : DependentKey) (keys : List DependentKey)
    {b : Bool}
    → some_of (dependent_key_matches k) known ≡ true
    → has_dependent key (new_keys known keys) ≡ b
    → has_dependent key (new_keys known (k ∷ keys)) ≡ b
dropped key known k keys there h = rw there h

kept :
    (key : String) (known : List DependentKey) (k : DependentKey) (keys : List DependentKey)
    → some_of (dependent_key_matches k) known ≡ false
    → (key == k.key) ≡ false
    → has_dependent key (new_keys known (k ∷ keys)) ≡ has_dependent key (new_keys known keys)
kept key known k keys new other = rw (new, other) refl

pub new_keys-known :
    (key : String) (known keys : List DependentKey)
    → IsExact known
    → IsExact keys
    → has_dependent key known ≡ true
    → has_dependent key (new_keys known keys) ≡ false
new_keys-known key known [] e f h = refl
new_keys-known key known (k ∷ keys) e f h =
    let ih = new_keys-known key known keys e f.1 h in
    let m = matches-has_dependent k known f.0 e in
    elim (Bool-cases (has_dependent k.key known)) [
      | inl there ↦ dropped key known k keys (m ∙ there) ih
      | inr new ↦
          kept key known k keys (m ∙ new) (elim (Bool-cases (key == k.key)) [
            | inl same ↦
                absurd (cc (h, new, ap (λ j. has_dependent j known) ((eq_iff key k.key).0 same)))
            | inr other ↦ other
          ])
          ∙ ih
    ]

pub new_keys-new :
    (key : String) (known keys : List DependentKey)
    → IsExact known
    → IsExact keys
    → has_dependent key known ≡ false
    → has_dependent key (new_keys known keys) ≡ has_dependent key keys
new_keys-new key known [] e f h = refl
new_keys-new key known (k ∷ keys) e f h =
    let ih = new_keys-new key known keys e f.1 h in
    let m = matches-has_dependent k known f.0 e in
    elim (Bool-cases (has_dependent k.key known)) [
      | inl there ↦
          let other : (key == k.key) ≡ false = elim (Bool-cases (key == k.key)) [
            | inl same ↦
                absurd (cc (h, there, ap (λ j. has_dependent j known) ((eq_iff key k.key).0 same)))
            | inr other ↦ other
          ] in
          dropped key known k keys (m ∙ there) (ih ∙ rw other refl)
      | inr new ↦ rw (m ∙ new) (ap (λ b. (key == k.key) || b) ih)
    ]

pub new_keys-IsExact :
    (known keys : List DependentKey) → IsExact keys → IsExact (new_keys known keys)
new_keys-IsExact known [] h = tt
new_keys-IsExact known (k ∷ keys) h = elim (Bool-cases (some_of (dependent_key_matches k) known)) [
  | inl there ↦ rw there (new_keys-IsExact known keys h.1)
  | inr new ↦ rw new (h.0, new_keys-IsExact known keys h.1)
]

pub append-IsExact : (xs ys : List DependentKey) → IsExact xs → IsExact ys → IsExact (xs ++ ys)
append-IsExact [] ys h k = k
append-IsExact (x ∷ xs) ys h k = (h.0, append-IsExact xs ys h.1 k)
