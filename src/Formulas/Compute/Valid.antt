-- ===== src/Formulas/Compute/Valid.antt =====
-- The interval of blocks that src/formulas/compute.ts, `computeRange`, stores with a result: from
-- its block to `latestBlockHeightValid`.
use mathlib.Core.Path.{subst}
use dao_dao_indexer.Prelude.{
  ℕ, zero, suc, ◌-◌, ◌<◌, ◌≤◌, ◌≡◌, refl, sym, ap, ◌∙◌, true, false, List, [], ◌∷◌, ◌++◌, Option,
  none, some, ltb, Bool-cases, ◌⊎◌, inl, inr, arith, All,
}
use dao_dao_indexer.Prelude.Int.{ℤ, pos, sub_ℕ, ◌≤ℤ◌, sub_ℕ_of_le}
use dao_dao_indexer.Formulas.Events.{Block, DependentKey}
use dao_dao_indexer.Formulas.Compute.{ComputationOutput, last_result, close_last, store_result}
use dao_dao_indexer.Formulas.Compute.Quiet.{IsAt}
use dao_dao_indexer.Formulas.Compute.Results.{starts_after, value_at, AllBefore, after-append}

abbrev pub IsUpToLast : ℕ → Option ℤ → Type 0
IsUpToLast height none = ⊥
IsUpToLast height (some last) = pos height ≤ℤ last

IsUpToLast-lt : (height n : ℕ) → IsUpToLast height (some (sub_ℕ n 1)) → height < n
IsUpToLast-lt height zero h = absurd (omega (arith, h))
IsUpToLast-lt height (suc n) h =
    let le : pos height ≤ℤ pos (suc n - 1) =
      subst (λ z. pos height ≤ℤ z) (sub_ℕ_of_le (suc n) 1 (omega arith)) h in
    omega (arith, le)

module _ {V : Type 0} where
  -- The height is in the interval of a result.
  abbrev pub IsCovered : ℕ → ComputationOutput V → Type 0
  IsCovered height r =
      (starts_after height r.block ≡ false) × IsUpToLast height r.latest_block_height_valid

  close_last-All :
      (P : ComputationOutput V → Type 0) (b : Block) (results : List (ComputationOutput V))
      → All P results
      → ((r : ComputationOutput V)
          → last_result results ≡ some r
          → P (record r { latest_block_height_valid = some (sub_ℕ b.height 1) }))
      → All P (close_last false (some b) results)
  unfolding close_last last_result
  close_last-All P b [] h last = tt
  close_last-All P b (r ∷ []) h last = (last r refl, tt)
  close_last-All P b (r ∷ s ∷ results) h last = (h.0, close_last-All P b (s ∷ results) h.1 last)

  value_at-last_result :
      (height : ℕ) (results : List (ComputationOutput V)) {r : ComputationOutput V}
      → last_result results ≡ some r
      → starts_after height r.block ≡ false
      → value_at height results ≡ some r.value
  unfolding value_at last_result
  value_at-last_result height [] e now = cc
  value_at-last_result height (s ∷ []) {r} e now =
      let same : s ≡ r = cc e in
      subst (λ t. value_at height (s ∷ []) ≡ some t.value) same
        (let still : starts_after height s.block ≡ false =
            ap (λ t. starts_after height t.block) same ∙ now in
          rw still refl)
  value_at-last_result height (s ∷ t ∷ results) e now =
      rw (value_at-last_result height (t ∷ results) e now) refl

  some-value : {v w : V} → some v ≡ some w → v ≡ w
  some-value h = cc

  module _ (start : ℕ) (value_of : ℕ → V) where
    -- At each block of its interval from the start on, a result has the value of the block.
    abbrev pub IsValid : ComputationOutput V → Type 0
    IsValid r = (height : ℕ) → start ≤ height → IsCovered height r → r.value ≡ value_of height

    closed-IsValid :
        (n : ℕ) (latest : Option Block) (results : List (ComputationOutput V))
        → All IsValid results
        → ((height : ℕ)
            → start ≤ height
            → height < n
            → value_at height results ≡ some (value_of height))
        → (results ≡ []) ⊎ IsAt n latest
        → All IsValid (close_last false latest results)
    unfolding close_last
    closed-IsValid n latest results h values (inl empty) = rw (empty, close_last) tt
    closed-IsValid n none results h values (inr at) = absurd at
    closed-IsValid n (some b) results h values (inr at) =
        close_last-All IsValid b results h (λ r last height from covered.
          let lt : height < n = omega (arith, IsUpToLast-lt height b.height covered.1, at) in
          let same : some r.value ≡ some (value_of height) =
            sym (value_at-last_result height results last covered.0) ∙ values height from lt in
          some-value same)

    append-All :
        (results : List (ComputationOutput V)) (r : ComputationOutput V)
        → All IsValid results
        → IsValid r
        → All IsValid (results ++ r ∷ [])
    append-All [] r h k = (k, tt)
    append-All (s ∷ results) r h k = (h.0, append-All results r h.1 k)

    pub store_result-IsValid :
        (current : Block) (latest : Option Block) (keys : List DependentKey)
        (results : List (ComputationOutput V))
        → AllBefore current.height results
        → (results ≡ []) ⊎ IsAt current.height latest
        → All IsValid results
        → ((height : ℕ)
            → start ≤ height
            → height < current.height
            → value_at height results ≡ some (value_of height))
        → ((height : ℕ)
            → start ≤ height
            → height < current.height
            → starts_after height latest ≡ true)
        → All IsValid (store_result false current (value_of current.height) latest keys results)
    store_result-IsValid current latest keys results before fresh h values later =
        subst (All IsValid)
          (sym (after-append current (value_of current.height) latest keys results before fresh))
          (append-All (close_last false latest results) _
            (closed-IsValid current.height latest results h values fresh)
            (λ height from covered. elim (Bool-cases (ltb height current.height)) [
              | inl past ↦ absurd (cc (later height from (ground arith), covered.0))
              | inr now ↦
                  let le : current.height ≤ height = ground arith in
                  ap value_of (omega (arith, covered.1, le))
            ]))
