-- ===== src/Prelude/Text.antt =====
-- Records of the source with string keys, as association lists in the order of insertion.
use text.Mathlib.Text.{◌==◌}
use text.Mathlib.TextEquality.{eq_iff}
use text.Mathlib.TextPositions.{eq_refl}
use dao_dao_indexer.Prelude.{
  ◌≡◌, refl, List, [], ◌∷◌, Option, none, some, String, arith, if◌then◌else◌,
}

abbrev Record {ℓ} : Type ℓ → Type ℓ
Record A = List (String × A)

module _ {ℓ} {A : Type ℓ} where
  -- `record[key]`.
  unfoldable pub lookup : (key : String) (entries : Record A) → Option A
  lookup key [] = none
  lookup key ((name, held) ∷ entries) = if name == key then some held else lookup key entries

  -- `record[key] = new`: a key that is there keeps its place.
  unfoldable pub insert : (key : String) (new : A) (entries : Record A) → Record A
  insert key new [] = (key, new) ∷ []
  insert key new ((name, held) ∷ entries) =
      if name == key then (key, new) ∷ entries else (name, held) ∷ insert key new entries

  pub lookup-insert :
      (key other : String) (new : A) (entries : Record A)
      → (lookup other (insert key new entries))
        ≡ (if key == other then some new else lookup other entries)
  unfolding lookup insert
  lookup-insert key other new [] = refl
  lookup-insert key other new ((name, held) ∷ entries) =
      let rest = lookup-insert key other new entries in
      ground (arith, rest, eq_iff name key, eq_iff name other, eq_iff key other)

  pub lookup-insert_self :
      (key : String) (new : A) (entries : Record A) → lookup key (insert key new entries) ≡ some new
  lookup-insert_self key new entries = rw (lookup-insert, eq_refl key) refl
