-- ===== src/Formulas/Snapshots/Wormhole.antt =====
-- src/formulas/formulas/utils.ts, wormholeLoad, against the values that were set over time.
use mathlib.Core.List.{Memᴰ}
use Prim.Native.String.{◌++◌ as ◌+++◌}
use dao_dao_indexer.Prelude.{
  ℕ, ◌<◌, ◌≡◌, refl, sym, ap, ◌∙◌, true, false, List, [], ◌∷◌, String, Option, none, some, leb,
  if◌then◌else◌, All, All-mem, arith, Bool-cases, inl, inr,
}
use dao_dao_indexer.Formulas.Snapshots.{or_empty, value_of, wormhole_load}
use dao_dao_indexer.Formulas.Snapshots.Sorted.{All-map, IsFirst, find-sort}
use dao_dao_indexer.Formulas.Snapshots.History.{IsSame}

module _ {V : Type 0} where
  -- Values with the times from which they hold.
  abbrev pub IsTimeline : List (ℕ × V) → Type 0
  IsTimeline [] = Unit
  IsTimeline (w ∷ ws) = All (λ later. w.0 < later.0) ws × IsTimeline ws

  unfoldable pub value_at : ℕ → List (ℕ × V) → Option V
  value_at time [] = none
  value_at time ((from, v) ∷ ws) = elim (value_at time ws) [
    | some later ↦ some later
    | none ↦ if leb from time then some v else none
  ]

  not_yet :
      (time : ℕ) (ws : List (ℕ × V)) → All (λ w. leb w.0 time ≡ false) ws → value_at time ws ≡ none
  unfolding value_at
  not_yet time [] h = refl
  not_yet time ((from, v) ∷ ws) (here, rest) = rw (not_yet time ws rest, here) refl

  later_entries :
      (time from last : ℕ) (ws : List (ℕ × V))
      → last ≡ from
      → All (λ w. from < w.0) ws
      → All (λ w. leb w.0 time ≡ true → leb w.0 last ≡ true) ws
      → All (λ w. leb w.0 time ≡ false) ws
  later_entries time from last [] e h most = tt
  later_entries time from last (w ∷ ws) e h most =
      let beyond : leb w.0 last ≡ false = let above = h.0 in ground arith in
      (
        elim (Bool-cases (leb w.0 time)) [
          | inl begun ↦ absurd (cc (beyond, most.0 begun))
          | inr later ↦ later
        ],
        later_entries time from last ws e h.1 most.1,
      )

  latest_entry :
      (time : ℕ) (ws : List (ℕ × V)) (e : ℕ × V)
      → IsTimeline ws
      → Memᴰ e ws
      → leb e.0 time ≡ true
      → All (λ f. leb f.0 time ≡ true → leb f.0 e.0 ≡ true) ws
      → value_at time ws ≡ some e.1
  unfolding value_at
  latest_entry time [] e h m at most = elim m [ ]
  latest_entry time ((from, v) ∷ ws) e h (Memᴰ.head same) at most =
      let begun : leb from time ≡ true = ap (λ f. leb f.0 time) (sym same) ∙ at in
      let first : e.0 ≡ from = ap (λ g. g.0) same in
      let none_later = later_entries time from e.0 ws first h.0 most.1 in
      rw (not_yet time ws none_later, begun) (ap (λ f. some f.1) (sym same))
  latest_entry time ((from, v) ∷ ws) e h (Memᴰ.tail m) at most =
      rw (latest_entry time ws e h.1 m at most.1) refl

  found_lem :
      (time : ℕ) (ws xs : List (ℕ × V)) (o : Option (ℕ × V))
      → IsTimeline ws
      → IsSame xs ws
      → IsFirst (λ a b. leb b a) (λ entry. leb entry.0 time) xs o
      → value_of o ≡ value_at time ws
  unfolding value_of
  found_lem time ws xs none h same first =
      sym (
        not_yet time ws (All-map (λ e m. All-mem (λ f. leb f.0 time ≡ false) xs first m) ws same.1))
  found_lem time ws xs (some e) h same (m, at, most) = sym (
      latest_entry time ws e h (All-mem (λ f. Memᴰ f ws) xs same.0 m) at (
        All-map (λ f k. All-mem (λ g. leb g.0 time ≡ true → leb g.0 e.0 ≡ true) xs most k) ws
          same.1))

  -- Where the map of a key holds a timeline, in any order, the load at a time is the value that
  -- holds at that time, if one does.
  pub wormhole_load-value_at :
      (timed_map : String → Option (List (ℕ × V))) (name key : String) (time : ℕ)
      (ws : List (ℕ × V))
      → IsTimeline ws
      → IsSame (or_empty (timed_map (name +++ ":" +++ key))) ws
      → wormhole_load timed_map name key time ≡ value_at time ws
  unfolding wormhole_load
  wormhole_load-value_at timed_map name key time ws h same = found_lem time ws _ _ h same (
      find-sort (λ a b. leb b a) (λ a. ground arith) (λ a b k. ground arith)
        (λ a b d k l. ground arith) (λ entry. leb entry.0 time)
        (or_empty (timed_map (name +++ ":" +++ key))))
