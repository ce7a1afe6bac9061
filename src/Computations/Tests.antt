-- ===== src/Computations/Tests.antt =====
-- Concrete checks of the validity of a computation, and an invalidation.
use mathlib.Core.List.{Memᴰ}
use text.Mathlib.Text.{starts_with, ◌==◌}
use dao_dao_indexer.Prelude.{
  Option, ◌&&◌, ℕ, ◌≤◌, ◌≡◌, refl, Bool, true, false, List, [], ◌∷◌, String, none, some, inl, inr,
  arith, All, if◌then◌else◌,
}
use dao_dao_indexer.Formulas.Events.{DependentKey, Event}
use dao_dao_indexer.Computations.{
  Table, Computation, update_validity_up_to_block_height,
  invalidate_computations_dependent_on_changes,
}
use dao_dao_indexer.Computations.Validity.{
  IsRight, IsQuiet, IsChecked, update_validity_up_to_block_height-IsRight,
  update_validity_up_to_block_height_iff,
}
use dao_dao_indexer.Prelude as P
use dao_dao_indexer.Formulas.Compute.{ComputationOutput, dependent_key_matches}
use dao_dao_indexer.Computations.Revalidation.{
  kept, replaced, is_changed, revalidate, revalidate-IsChecked,
}
use dao_dao_indexer.Computations.Invalidation.{
  IsGrown, invalidate_computations_dependent_on_changes-IsRight,
}

abbrev matches_key : DependentKey → Event ℕ → Bool
matches_key k event =
    if k.prefix then starts_with event.dependent_key k.key else k.key == event.dependent_key

abbrev row_of : String → ℕ → Event ℕ
row_of key n = record {
  dependent_key = key;
  block = record { height = n; time_unix_ms = n };
  row = 0;
}

abbrev bank_prefix : DependentKey
bank_prefix = record { key = "bank:a"; prefix = true }

abbrev tables : List (Table ℕ)
tables =
    record { namespace_prefix = "wasm:"; rows = row_of "wasm:a" 5 ∷ [] }
    ∷ record { namespace_prefix = "bank:"; rows = row_of "bank:a1" 3 ∷ row_of "bank:a2" 9 ∷ [] }
    ∷ []

-- Valid from block 3, and known to be valid up to block 6.
abbrev computation : Computation
computation = record {
  block_height = 3;
  latest_block_height_valid = 6;
  validity_extendable = true;
  dependencies = bank_prefix ∷ [];
}

-- The event of block 9 ends the validity at block 8.
ends_at_8 :
    update_validity_up_to_block_height matches_key tables 12 none computation
    ≡ (false, record computation { latest_block_height_valid = 8 })
unfolding update_validity_up_to_block_height
ends_at_8 = refl

computation-IsRight : IsRight matches_key tables computation
computation-IsRight = record {
  ordered = omega arith;
  quiet = (
    ((λ f t. refl), tt),
    (((λ f t. absurd (omega (arith, f))), ((λ f t. absurd (omega (arith, t))), tt)), tt),
  );
}

update_validity_up_to_block_height-IsRight_example :
    IsRight matches_key tables
      (update_validity_up_to_block_height matches_key tables 12 none computation).1
update_validity_up_to_block_height-IsRight_example =
    update_validity_up_to_block_height-IsRight matches_key tables computation 12 none
      computation-IsRight

update_validity_up_to_block_height_iff_example :
    let result = update_validity_up_to_block_height matches_key tables 8 none computation in
    (result.0 ≡ true → (3 ≤ 8) × IsQuiet matches_key tables computation 8)
    × (3 ≤ 8 → IsQuiet matches_key tables computation 8 → result.0 ≡ true)
update_validity_up_to_block_height_iff_example =
    update_validity_up_to_block_height_iff matches_key tables computation 8 none computation-IsRight
      refl

-- Nothing is known of the latest valid block of this one.
abbrev stale : Computation
stale = record computation { latest_block_height_valid = 20 }

abbrev keys_equal : List DependentKey → List DependentKey → Bool
keys_equal [] [] = true
keys_equal [] (b ∷ bs) = false
keys_equal (a ∷ rest) [] = false
keys_equal (a ∷ rest) (b ∷ bs) = dependent_key_matches a b && keys_equal rest bs

abbrev text_of : ℕ → String
text_of n = if P.◌==◌ n 0 then "0" else "1"

abbrev computed : ComputationOutput (Option ℕ)
computed = record {
  block = some (record { height = 3; time_unix_ms = 3 });
  value = some 0;
  dependent_keys = bank_prefix ∷ [];
  latest_block_height_valid = none;
}

stale_same : is_changed matches_key text_of keys_equal (some "0") computed stale ≡ false
unfolding dependent_key_matches
stale_same = refl

revalidate-IsChecked_example :
    (c' : Computation) × ((revalidate matches_key text_of keys_equal tables
        (some "0")
        (some computed)
        stale).1
      ≡ kept c')
    × IsChecked matches_key tables stale 20
        ((revalidate matches_key text_of keys_equal tables (some "0") (some computed) stale).0, c')
revalidate-IsChecked_example =
    revalidate-IsChecked matches_key text_of keys_equal tables (some "0") computed stale stale_same
      refl (omega arith)

-- Another output replaces the computation.
stale_replaced :
    revalidate matches_key text_of keys_equal tables (some "1") (some computed) stale
    ≡ (false, replaced computed)
unfolding revalidate
stale_replaced = refl

abbrev changes : List (Event ℕ)
changes = row_of "bank:a3" 5 ∷ []

abbrev grown : List (Table ℕ)
grown =
    record { namespace_prefix = "wasm:"; rows = row_of "wasm:a" 5 ∷ [] }
    ∷ record {
      namespace_prefix = "bank:";
      rows = row_of "bank:a1" 3 ∷ row_of "bank:a3" 5 ∷ row_of "bank:a2" 9 ∷ [];
    }
    ∷ []

grown-IsGrown : IsGrown changes tables grown
grown-IsGrown = (
  refl,
  (
    (inl (Memᴰ.head refl), tt),
    (
      refl,
      ((inl (Memᴰ.head refl), (inr (Memᴰ.head refl), (inl (Memᴰ.tail (Memᴰ.head refl)), tt))), tt),
    ),
  ),
)

-- The late event ends the validity at block 4.
shortened_to_4 :
    invalidate_computations_dependent_on_changes matches_key changes (computation ∷ []) ≡ record {
      updated = 1;
      destroyed = 0;
      computations = record computation { latest_block_height_valid = 4 } ∷ [];
    }
unfolding invalidate_computations_dependent_on_changes
shortened_to_4 = refl

invalidate_computations_dependent_on_changes-IsRight_example :
    All
      (λ c. c.validity_extendable ≡ true → IsRight matches_key grown c)
      (invalidate_computations_dependent_on_changes matches_key changes
        (computation ∷ [])).computations
invalidate_computations_dependent_on_changes-IsRight_example =
    invalidate_computations_dependent_on_changes-IsRight matches_key changes tables grown
      (computation ∷ []) grown-IsGrown (computation-IsRight, tt)
