-- ===== src/Formulas/Snapshots/History.antt =====
-- The snapshot loads of src/formulas/formulas/utils.ts, against the history of the value.
use mathlib.Core.List.{Memᴰ}
use dao_dao_indexer.Prelude.{
  ℕ, ◌<◌, ◌≡◌, refl, sym, ap, ◌∙◌, true, false, List, [], ◌∷◌, String, Option, none, some, leb,
  leb→le, ltb, if◌then◌else◌, All, All-mem, arith, Bool-cases, inl, inr,
}
use dao_dao_indexer.Formulas.Snapshots.{
  Loaded, undefined, null, value, ChangeSet, or_empty, load_old, or_current, changelog_name,
  snapshot_may_load_at_height, snapshot_item_may_load, snapshot_item_may_load_at_height,
  snapshot_map_may_load, snapshot_map_may_load_at_height,
}
use dao_dao_indexer.Formulas.Snapshots.Sorted.{All-map, IsFirst, find-sort}

-- The two lists have the same entries.
abbrev pub IsSame {κ} : {A : Type κ} → List A → List A → Type κ
IsSame xs ys = All (λ x. Memᴰ x ys) xs × All (λ y. Memᴰ y xs) ys

module _ {V : Type 0} where
  -- A history: the value at the end of each block that changed it, `none` where there is none.
  abbrev pub IsHistory : List (ℕ × Option V) → Type 0
  IsHistory [] = Unit
  IsHistory (w ∷ ws) = All (λ later. w.0 < later.0) ws × IsHistory ws

  -- The value before a block, from the one before the history.
  unfoldable pub value_before : ℕ → Option V → List (ℕ × Option V) → Option V
  value_before height old [] = old
  value_before height old ((h, v) ∷ ws) = if ltb h height then value_before height v ws else old

  unfoldable pub current_value : Option V → List (ℕ × Option V) → Option V
  current_value old [] = old
  current_value old ((h, v) ∷ ws) = current_value v ws

  -- What a snapshot map records: at each block of the history the value before.
  unfoldable pub changelog : Option V → List (ℕ × Option V) → List (ℕ × Option (ChangeSet V))
  changelog old [] = []
  changelog old ((h, v) ∷ ws) = (h, some (record { old = old })) ∷ changelog v ws

  unfoldable pub to_option : Loaded V → Option V
  to_option undefined = none
  to_option null = none
  to_option (value v) = some v

  value_before-current_value :
      (height : ℕ) (old : Option V) (ws : List (ℕ × Option V))
      → All (λ e. leb height e.0 ≡ false) (changelog old ws)
      → value_before height old ws ≡ current_value old ws
  unfolding value_before current_value changelog
  value_before-current_value height old [] h = refl
  value_before-current_value height old ((k, v) ∷ ws) (here, rest) =
      let past : ltb k height ≡ true = ground arith in
      rw past (value_before-current_value height v ws rest)

  -- The changes of a history that has begun are all later.
  changelog-later :
      (n : ℕ) (old : Option V) (ws : List (ℕ × Option V))
      → All (λ w. n < w.0) ws
      → All (λ e. n < e.0) (changelog old ws)
  unfolding changelog
  changelog-later n old [] h = tt
  changelog-later n old ((k, v) ∷ ws) h = (h.0, changelog-later n v ws h.1)

  load_old_lem :
      (height : ℕ) (old : Option V)
      → to_option (load_old (some (height, some (record { old = old })))) ≡ old
  unfolding to_option load_old
  load_old_lem height none = refl
  load_old_lem height (some v) = refl

  first_change :
      (height : ℕ) (old : Option V) (ws : List (ℕ × Option V)) (e : ℕ × Option (ChangeSet V))
      → IsHistory ws
      → Memᴰ e (changelog old ws)
      → leb height e.0 ≡ true
      → All (λ f. leb height f.0 ≡ true → leb e.0 f.0 ≡ true) (changelog old ws)
      → to_option (load_old (some e)) ≡ value_before height old ws
  unfolding value_before changelog to_option load_old
  first_change height old [] e h m at least = elim m [ ]
  first_change height old ((k, v) ∷ ws) e h (Memᴰ.head same) at least =
      let reached : leb height k ≡ true = ap (λ f. leb height f.0) (sym same) ∙ at in
      let now : ltb k height ≡ false = ground arith in rw (now, same) (load_old_lem k old)
  first_change height old ((k, v) ∷ ws) e h (Memᴰ.tail m) at least =
      let later : k < e.0 =
        All-mem (λ f. k < f.0) (changelog v ws) (changelog-later k v ws h.0) m in
      let past : ltb k height ≡ true = elim (Bool-cases (leb height k)) [
        | inl reached ↦ absurd (omega (arith, later, leb→le _ _ (least.0 reached)))
        | inr below ↦ ground arith
      ] in
      rw past (first_change height v ws e h.1 m at least.1)

  null_or_value :
      (old : Option V) (current : Loaded V)
      → to_option (or_current (elim old [ none ↦ null | some v ↦ value v ]) current)
        ≡ to_option (elim old [ none ↦ null | some v ↦ value v ])
  unfolding or_current
  null_or_value none current = refl
  null_or_value (some v) current = refl

  or_current_old :
      (e : ℕ × Option (ChangeSet V)) (current : Loaded V)
      → to_option (or_current (load_old (some e)) current) ≡ to_option (load_old (some e))
  unfolding load_old or_current
  or_current_old (k, none) current = refl
  or_current_old (k, some change) current = null_or_value change.old current

  first_of :
      (height : ℕ) (ws : List (ℕ × Option V)) (xs : List (ℕ × Option (ChangeSet V)))
      (current : Loaded V) (o : Option (ℕ × Option (ChangeSet V)))
      → IsHistory ws
      → IsSame xs (changelog none ws)
      → to_option current ≡ current_value none ws
      → IsFirst leb (λ e. leb height e.0) xs o
      → to_option (or_current (load_old o) current) ≡ value_before height none ws
  unfolding load_old or_current
  first_of height ws xs current none h same c first =
      c
      ∙ sym (
          value_before-current_value height none ws (
            All-map (λ e m. All-mem (λ f. leb height f.0 ≡ false) xs first m) (changelog none ws)
              same.1))
  first_of height ws xs current (some e) h same c (m, at, least) =
      or_current_old e current
      ∙ first_change height none ws e h (All-mem (λ f. Memᴰ f (changelog none ws)) xs same.0 m) at (
          All-map (λ f k. All-mem (λ g. leb height g.0 ≡ true → leb e.0 g.0 ≡ true) xs least k)
            (changelog none ws) same.1)

  -- Where the changelog of a key holds, in any order, the changes of a history, and the current
  -- value is the last of the history, the load at a height is the value from before that block:
  -- `undefined` or `null` if there was none.
  pub snapshot_map_may_load_at_height-value_before :
      (transformation_map : String → Option (List (ℕ × Option (ChangeSet V))))
      (transformation_match : String → Loaded V) (name key : String) (height : ℕ)
      (ws : List (ℕ × Option V))
      → IsHistory ws
      → IsSame (or_empty (transformation_map (changelog_name name (some key)))) (changelog none ws)
      → to_option (snapshot_map_may_load transformation_match name key) ≡ current_value none ws
      → to_option
          (snapshot_map_may_load_at_height transformation_map transformation_match name key height)
        ≡ value_before height none ws
  unfolding snapshot_map_may_load_at_height snapshot_may_load_at_height
  snapshot_map_may_load_at_height-value_before transformation_map transformation_match name key
        height ws h same c =
      first_of height ws _ (snapshot_map_may_load transformation_match name key) _ h same c (
        find-sort leb (λ a. ground arith) (λ a b k. ground arith) (λ a b d k l. ground arith)
          (λ change. leb height change.0)
          (or_empty (transformation_map (changelog_name name (some key)))))

  -- Where the changelog of a snapshot item holds, in any order, the changes of a history, and its
  -- current value is the last of the history, the load at a height is the value from before that
  -- block: `undefined` or `null` if there was none.
  pub snapshot_item_may_load_at_height-value_before :
      (transformation_map : String → Option (List (ℕ × Option (ChangeSet V))))
      (transformation_match : String → Loaded V) (name : String) (height : ℕ)
      (ws : List (ℕ × Option V))
      → IsHistory ws
      → IsSame (or_empty (transformation_map (changelog_name name none))) (changelog none ws)
      → to_option (snapshot_item_may_load transformation_match name) ≡ current_value none ws
      → to_option
          (snapshot_item_may_load_at_height transformation_map transformation_match name height)
        ≡ value_before height none ws
  unfolding snapshot_item_may_load_at_height snapshot_may_load_at_height
  snapshot_item_may_load_at_height-value_before transformation_map transformation_match name height
        ws h same c =
      first_of height ws _ (snapshot_item_may_load transformation_match name) _ h same c (
        find-sort leb (λ a. ground arith) (λ a b k. ground arith) (λ a b d k l. ground arith)
          (λ change. leb height change.0)
          (or_empty (transformation_map (changelog_name name none))))
