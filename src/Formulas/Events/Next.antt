-- ===== src/Formulas/Events/Next.antt =====
-- `getNextPotentialBlock`: the block that it returns, against the events that are loaded.
use mathlib.Core.Path.{subst}
use dao_dao_indexer.Prelude.{
  ℕ, ◌<◌, ◌≤◌, ◌≡◌, refl, sym, List, [], ◌∷◌, Option, none, some, find, ltb, Bool-cases, ◌⊎◌, inl,
  inr, arith, All,
}
use dao_dao_indexer.Formulas.Events.{Event, Block, is_after, earlier, find_found}
use dao_dao_indexer.Formulas.Events.Latest.{IsAscending}
use dao_dao_indexer.Formulas.Events.Cache.{events_or}

-- The block is at or before the height; no block is not.
abbrev pub AtMost : Option Block → ℕ → Type 0
AtMost none height = ⊥
AtMost (some block) height = block.height ≤ height

-- A block that is there is after the height.
abbrev pub IsLater : ℕ → Option Block → Type 0
IsLater height none = Unit
IsLater height (some block) = height < block.height

module _ {Row : Type 0} where
  -- No later event of the list is before the block.
  abbrev pub Covers : ℕ → Option Block → List (Event Row) → Type 0
  Covers height next = All (λ e. height < e.block.height → AtMost next e.block.height)

  abbrev pub block_of : Option (Event Row) → Option Block
  block_of none = none
  block_of (some e) = some e.block

  pub earlier-AtMost :
      (next : Option Block) (e : Option (Event Row)) (n : ℕ)
      → AtMost next n ⊎ AtMost (block_of e) n
      → AtMost (earlier next e) n
  unfolding earlier
  earlier-AtMost next none n h = ground arith
  earlier-AtMost none (some e) n h = ground arith
  earlier-AtMost (some b) (some e) n h = ground arith

  pub earlier-IsLater :
      (height : ℕ) (next : Option Block) (e : Option (Event Row))
      → IsLater height next
      → IsLater height (block_of e)
      → IsLater height (earlier next e)
  unfolding earlier
  earlier-IsLater height next none h k = h
  earlier-IsLater height none (some e) h k = k
  earlier-IsLater height (some b) (some e) h k = ground arith

  Covers-earlier :
      (height : ℕ) (next : Option Block) (e : Option (Event Row)) (es : List (Event Row))
      → Covers height next es ⊎ Covers height (block_of e) es
      → Covers height (earlier next e) es
  Covers-earlier height next e [] h = tt
  Covers-earlier height next e (f ∷ fs) (inl h) = (
    λ p. earlier-AtMost next e f.block.height (inl (h.0 p)),
    Covers-earlier height next e fs (inl h.1),
  )
  Covers-earlier height next e (f ∷ fs) (inr h) = (
    λ p. earlier-AtMost next e f.block.height (inr (h.0 p)),
    Covers-earlier height next e fs (inr h.1),
  )

  first-Covers :
      (height : ℕ) (e : Event Row) (fs : List (Event Row))
      → All (λ f. e.block.height ≤ f.block.height) fs
      → Covers height (some e.block) fs
  first-Covers height e [] k = tt
  first-Covers height e (f ∷ fs) k = (λ p. k.0, first-Covers height e fs k.1)

  pub find-Covers :
      (height : ℕ) (es : List (Event Row))
      → IsAscending es
      → Covers height (block_of (find (is_after height) es)) es
  unfolding is_after
  find-Covers height [] h = tt
  find-Covers height (e ∷ es) h = elim (Bool-cases (ltb height e.block.height)) [
    | inl later ↦
        let found : find (is_after height) (e ∷ es) ≡ some e = rw later refl in
        subst (λ m. Covers height (block_of m) (e ∷ es)) (sym found)
          (λ p. omega arith, first-Covers height e es h.0)
    | inr now ↦
        let missed : find (is_after height) (e ∷ es) ≡ find (is_after height) es = rw now refl in
        subst (λ m. Covers height (block_of m) (e ∷ es)) (sym missed)
          (λ p. absurd (ground arith), find-Covers height es h.1)
  ]

  pub find-IsLater :
      (height : ℕ) (es : List (Event Row)) → IsLater height (block_of (find (is_after height) es))
  unfolding is_after
  find-IsLater height [] = tt
  find-IsLater height (e ∷ es) = elim (Bool-cases (ltb height e.block.height)) [
    | inl later ↦ rw later (ground arith)
    | inr now ↦ rw now (find-IsLater height es)
  ]

  pub find_found-Covers :
      (height : ℕ) (found : Option (List (Event Row)))
      → IsAscending (events_or found)
      → Covers height (block_of (find_found height found)) (events_or found)
  unfolding find_found
  find_found-Covers height none h = tt
  find_found-Covers height (some es) h = find-Covers height es h

  pub find_found-IsLater :
      (height : ℕ) (found : Option (List (Event Row)))
      → IsLater height (block_of (find_found height found))
  unfolding find_found
  find_found-IsLater height none = tt
  find_found-IsLater height (some es) = find-IsLater height es
