-- ===== src/Formulas/Snapshots.antt =====
-- src/formulas/formulas/utils.ts, the loads from transformed snapshots and wormholes. What the
-- environment finds for a contract is a parameter: `transformation_map` and
-- `transformation_match`, by the transformation's name. A key that is a number stands for its text,
-- the text of an ID is the parameter `decimal`, and the keys of the maps, which the code reads with
-- `BigInt`, are numbers.
pub mod Sorted
pub mod History
pub mod Wormhole
pub mod Pages
pub mod Tests
use Prim.Native.String.{◌++◌ as ◌+++◌}
use dao_dao_indexer.Prelude.{
  ℕ, Bool, true, false, List, [], ◌∷◌, map, String, Option, none, some, filter, find, drop, take,
  leb, ltb, if◌then◌else◌,
}

-- `V | null | undefined`.
pub data Loaded {ℓ} (V : Type ℓ) : Type ℓ where
  undefined null : Loaded V
  value : V → Loaded V

-- `{ old: V | undefined | null }`.
pub record ChangeSet {ℓ} (V : Type ℓ) : Type ℓ where
  pub old : Option V

module _ {ℓ} {A : Type ℓ} where
  -- `|| {}` and `|| []`.
  unfoldable pub or_empty : Option (List A) → List A
  or_empty none = []
  or_empty (some xs) = xs

  -- `sort` by a comparison of the keys, which is stable: `precedes a b` where `a` is not put
  -- after `b`.
  unfoldable pub insert_by_key : (ℕ → ℕ → Bool) → ℕ × A → List (ℕ × A) → List (ℕ × A)
  insert_by_key precedes e [] = e ∷ []
  insert_by_key precedes e (f ∷ fs) =
      if precedes e.0 f.0 then e ∷ f ∷ fs else f ∷ insert_by_key precedes e fs

  unfoldable pub sort_by_key : (ℕ → ℕ → Bool) → List (ℕ × A) → List (ℕ × A)
  unfolding insert_by_key
  sort_by_key precedes [] = []
  sort_by_key precedes (e ∷ es) = insert_by_key precedes e (sort_by_key precedes es)

  -- `slice(offset, limit === undefined ? undefined : offset + limit)`.
  unfoldable pub page : ℕ → Option ℕ → List A → List A
  page offset none xs = drop offset xs
  page offset (some limit) xs = take limit (drop offset xs)

unfoldable pub changelog_name : String → Option String → String
changelog_name name none = name +++ "/changelog"
changelog_name name (some key) = name +++ "/changelog" +++ ":" +++ key

module _ {ℓ} {V : Type ℓ} where
  -- `changelog && (changelog[1]?.old ?? null)`.
  unfoldable pub load_old : Option (ℕ × Option (ChangeSet V)) → Loaded V
  load_old none = undefined
  load_old (some (height, none)) = null
  load_old (some (height, some change)) = elim change.old [ none ↦ null | some v ↦ value v ]

  unfoldable pub or_current : Loaded V → Loaded V → Loaded V
  or_current undefined current = current
  or_current null current = null
  or_current (value v) current = value v

module _ {ℓ} {V : Type ℓ} (transformation_match : String → Loaded V) where
  unfoldable pub snapshot_item_may_load : String → Loaded V
  snapshot_item_may_load name = transformation_match name

  unfoldable pub snapshot_map_may_load : String → String → Loaded V
  snapshot_map_may_load name key = transformation_match (name +++ ":" +++ key)

module _ {ℓ} {V : Type ℓ}
    (transformation_map : String → Option (List (ℕ × Option (ChangeSet V)))) where
  unfoldable pub snapshot_may_load_at_height : String → Option String → ℕ → Loaded V
  unfolding or_empty sort_by_key load_old changelog_name
  snapshot_may_load_at_height name key height =
      let changelog_map = or_empty (transformation_map (changelog_name name key)) in
      load_old (find (λ change. leb height change.0) (sort_by_key leb changelog_map))

  module _ (transformation_match : String → Loaded V) where
    unfoldable pub snapshot_item_may_load_at_height : String → ℕ → Loaded V
    unfolding snapshot_may_load_at_height snapshot_item_may_load or_current
    snapshot_item_may_load_at_height name height =
        or_current (snapshot_may_load_at_height name none height)
          (snapshot_item_may_load transformation_match name)

    unfoldable pub snapshot_map_may_load_at_height : String → String → ℕ → Loaded V
    unfolding snapshot_may_load_at_height snapshot_map_may_load or_current
    snapshot_map_may_load_at_height name key height =
        or_current (snapshot_may_load_at_height name (some key) height)
          (snapshot_map_may_load transformation_match name key)

-- The IDs of the active items, each with its expiration, if it has one.
abbrev pub Active : Type 0
Active = List (ℕ × Option ℕ)

unfoldable pub or_no_ids : Loaded Active → Active
or_no_ids undefined = []
or_no_ids null = []
or_no_ids (value ids) = ids

unfoldable pub is_active_at : ℕ → ℕ × Option ℕ → Bool
is_active_at height (id, none) = true
is_active_at height (id, some expiration) = ltb height expiration

pub record VectorItem {ℓ} (V : Type ℓ) : Type ℓ where
  pub id : ℕ
  pub item : Loaded V
  pub expiration : Option ℕ

module _ {ℓ} {V : Type ℓ} (decimal : ℕ → String) (item_match : String → Loaded V) where
  unfoldable pub snapshot_vector_map_may_load_item : String → String → ℕ → Loaded V
  snapshot_vector_map_may_load_item name key id =
      item_match (name +++ "/items:" +++ key +++ ":" +++ decimal id)

  unfoldable pub load_item : String → String → ℕ × Option ℕ → VectorItem V
  unfolding snapshot_vector_map_may_load_item
  load_item name key (id, expiration) = record {
    id = id;
    item = snapshot_vector_map_may_load_item name key id;
    expiration = expiration;
  }

  -- The maps and values of the active IDs are found apart from those of the items.
  unfoldable pub snapshot_vector_map_load :
      (String → Option (List (ℕ × Option (ChangeSet Active))))
      → (String → Loaded Active)
      → String
      → String
      → ℕ
      → Option ℕ
      → ℕ
      → List (VectorItem V)
  unfolding snapshot_map_may_load_at_height or_no_ids is_active_at page load_item
  snapshot_vector_map_load active_map active_match name key height limit offset =
      let active_ids =
        or_no_ids (
          snapshot_map_may_load_at_height active_map active_match (name +++ "/active") key
            height) in
      map (load_item name key) (page offset limit (filter (is_active_at height) active_ids))

module _ {ℓ} {V : Type ℓ} where
  unfoldable pub value_of : Option (ℕ × V) → Option V
  value_of none = none
  value_of (some (timestamp, v)) = some v

module _ {ℓ} {V : Type ℓ} (timed_map : String → Option (List (ℕ × V))) where
  unfoldable pub wormhole_load : String → String → ℕ → Option V
  unfolding or_empty sort_by_key value_of
  wormhole_load name key timestamp =
      let wormhole_map = or_empty (timed_map (name +++ ":" +++ key)) in
      value_of (find (λ entry. leb entry.0 timestamp) (sort_by_key (λ a b. leb b a) wormhole_map))
