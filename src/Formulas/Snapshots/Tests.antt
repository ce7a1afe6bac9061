-- ===== src/Formulas/Snapshots/Tests.antt =====
-- Loads from transformed snapshots of src/formulas/formulas/utils.ts.
use mathlib.Core.List.{Memᴰ}
use dao_dao_indexer.Prelude.{ℕ, ◌≡◌, refl, List, [], ◌∷◌, String, Option, none, some, All, arith}
use dao_dao_indexer.Formulas.Snapshots.{
  Loaded, null, value, ChangeSet, Active, VectorItem, or_empty, changelog_name,
  snapshot_item_may_load, snapshot_item_may_load_at_height, snapshot_map_may_load,
  snapshot_map_may_load_at_height, snapshot_vector_map_load, wormhole_load,
}
use dao_dao_indexer.Formulas.Snapshots.History.{
  IsSame, changelog, current_value, to_option, value_before,
  snapshot_map_may_load_at_height-value_before, snapshot_item_may_load_at_height-value_before,
}
use dao_dao_indexer.Formulas.Snapshots.Wormhole.{value_at, wormhole_load-value_at}
use dao_dao_indexer.Formulas.Snapshots.Pages.{IsUnexpired, snapshot_vector_map_load-IsUnexpired}

-- The value is set to 1 in block 3 and removed in block 6.
abbrev history : List (ℕ × Option ℕ)
history = (3, some 1) ∷ (6, none) ∷ []

abbrev changes : List (ℕ × Option (ChangeSet ℕ))
changes = (6, some (record { old = some 1 })) ∷ (3, some (record { old = none })) ∷ []

abbrev history_map : String → Option (List (ℕ × Option (ChangeSet ℕ)))
history_map name = some changes

abbrev history_match : String → Loaded ℕ
history_match name = null

changes-IsSame :
    IsSame (or_empty (history_map (changelog_name "votes" (some "a")))) (changelog none history)
unfolding or_empty changelog
changes-IsSame = (
  (Memᴰ.tail (Memᴰ.head refl), (Memᴰ.head refl, tt)),
  (Memᴰ.tail (Memᴰ.head refl), (Memᴰ.head refl, tt)),
)

history-current :
    to_option (snapshot_map_may_load history_match "votes" "a") ≡ current_value none history
unfolding to_option snapshot_map_may_load current_value
history-current = refl

snapshot_map_example :
    to_option (snapshot_map_may_load_at_height history_map history_match "votes" "a" 5)
    ≡ value_before 5 none history
snapshot_map_example =
    snapshot_map_may_load_at_height-value_before history_map history_match "votes" "a" 5 history
      ((omega arith, tt), (tt, tt)) changes-IsSame history-current

item-IsSame :
    IsSame (or_empty (history_map (changelog_name "config" none))) (changelog none history)
unfolding or_empty changelog
item-IsSame = (
  (Memᴰ.tail (Memᴰ.head refl), (Memᴰ.head refl, tt)),
  (Memᴰ.tail (Memᴰ.head refl), (Memᴰ.head refl, tt)),
)

item-current :
    to_option (snapshot_item_may_load history_match "config") ≡ current_value none history
unfolding to_option snapshot_item_may_load current_value
item-current = refl

snapshot_item_example :
    to_option (snapshot_item_may_load_at_height history_map history_match "config" 6)
    ≡ value_before 6 none history
snapshot_item_example =
    snapshot_item_may_load_at_height-value_before history_map history_match "config" 6 history
      ((omega arith, tt), (tt, tt)) item-IsSame item-current

abbrev timeline : List (ℕ × ℕ)
timeline = (10, 1) ∷ (20, 2) ∷ []

abbrev timed_map : String → Option (List (ℕ × ℕ))
timed_map name = some timeline

timeline-IsSame : IsSame (or_empty (timed_map "w:a")) timeline
unfolding or_empty
timeline-IsSame = (
  (Memᴰ.head refl, (Memᴰ.tail (Memᴰ.head refl), tt)),
  (Memᴰ.head refl, (Memᴰ.tail (Memᴰ.head refl), tt)),
)

wormhole_load_example : wormhole_load timed_map "w" "a" 15 ≡ value_at 15 timeline
wormhole_load_example =
    wormhole_load-value_at timed_map "w" "a" 15 timeline ((omega arith, tt), (tt, tt))
      timeline-IsSame

abbrev decimal : ℕ → String
decimal n = "1"

abbrev active_map : String → Option (List (ℕ × Option (ChangeSet Active)))
active_map name = none

-- The second item has expired at height 9.
abbrev active_match : String → Loaded Active
active_match name = value ((1, none) ∷ (2, some 9) ∷ (3, some 20) ∷ [])

abbrev load_vector : Option ℕ → ℕ → List (VectorItem ℕ)
load_vector limit offset =
    snapshot_vector_map_load decimal history_match active_map active_match "delegates" "a" 9 limit
      offset

snapshot_vector-IsUnexpired_example : All (λ i. IsUnexpired 9 i.expiration) (load_vector (some 2) 0)
snapshot_vector-IsUnexpired_example =
    snapshot_vector_map_load-IsUnexpired decimal history_match active_map active_match "delegates"
      "a" 9 (some 2) 0
