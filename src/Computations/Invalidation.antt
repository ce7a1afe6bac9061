-- ===== src/Computations/Invalidation.antt =====
-- src/db/computation.ts, `invalidateComputationsDependentOnChanges`: the stored computations after
-- events of earlier blocks are written.
use mathlib.Core.Path.{subst}
use mathlib.Core.List.{Memᴰ}
use text.Mathlib.Text.{starts_with}
use dao_dao_indexer.Prelude.{
  ℕ, ◌+◌, ◌-◌, ◌<◌, ◌≤◌, ◌≡◌, refl, sym, ap, ◌∙◌, Bool, true, false, not, List, [], ◌∷◌, map,
  String, filter, some_of, if◌then◌else◌, Bool-cases, ◌⊎◌, inl, inr, arith, All, All-weaken,
  All-mem,
}
use dao_dao_indexer.Formulas.Events.{DependentKey, Event}
use dao_dao_indexer.Computations.{
  Table, Computation, big_int_min, namespaced_keys, matches_any, is_affected, earliest_block_height,
  is_destroyed, is_shortened, invalidate_from, invalidate_computations_dependent_on_changes,
}
use dao_dao_indexer.Computations.Queries.{HasNoEvent}
use dao_dao_indexer.Computations.Validity.{IsRight}

module _ {Row : Type 0} where
  -- The tables afterwards have no rows but those before and the changes.
  abbrev pub IsGrown : List (Event Row) → List (Table Row) → List (Table Row) → Type 0
  IsGrown changes [] [] = Unit
  IsGrown changes [] (u ∷ us) = ⊥
  IsGrown changes (t ∷ ts) [] = ⊥
  IsGrown changes (t ∷ ts) (u ∷ us) =
      (t.namespace_prefix ≡ u.namespace_prefix)
      × (All (λ e. Memᴰ e t.rows ⊎ Memᴰ e changes) u.rows × IsGrown changes ts us)

  earliest_block_height-le : (n : ℕ) (es : List (Event Row)) → earliest_block_height n es ≤ n
  unfolding earliest_block_height
  earliest_block_height-le n [] = omega arith
  earliest_block_height-le n (e ∷ es) =
      let le = earliest_block_height-le (big_int_min n e.block.height) es in ground (arith, le)

  -- No change is before the earliest block.
  earliest_block_height-least :
      (n : ℕ) (es : List (Event Row)) → All (λ e. earliest_block_height n es ≤ e.block.height) es
  unfolding earliest_block_height
  earliest_block_height-least n [] = tt
  earliest_block_height-least n (e ∷ es) =
      let le = earliest_block_height-le (big_int_min n e.block.height) es in
      (ground (arith, le), earliest_block_height-least (big_int_min n e.block.height) es)

  module _ (matches : DependentKey → Event Row → Bool) (changes : List (Event Row)) (earliest : ℕ)
      (least : All (λ e. earliest ≤ e.block.height) changes) where
    namespaced-matches_any :
        (prefix : String) (keys : List DependentKey) (e : Event Row)
        → matches_any matches keys e ≡ false
        → matches_any matches (namespaced_keys prefix keys) e ≡ false
    namespaced-matches_any prefix [] e h = refl
    namespaced-matches_any prefix (k ∷ keys) e h =
        let rest : matches_any matches keys e ≡ false = ground (arith, h) in
        let ih = namespaced-matches_any prefix keys e rest in
        elim (Bool-cases (starts_with k.key prefix)) [
          | inl inside ↦ rw inside (ground (arith, h, ih))
          | inr outside ↦ rw outside ih
        ]

    unaffected-All :
        (dependencies : List DependentKey) (es : List (Event Row))
        → some_of (matches_any matches dependencies) es ≡ false
        → All (λ e. matches_any matches dependencies e ≡ false) es
    unaffected-All dependencies [] h = tt
    unaffected-All dependencies (e ∷ es) h =
        let rest : some_of (matches_any matches dependencies) es ≡ false = ground (arith, h) in
        (ground (arith, h), unaffected-All dependencies es rest)

    -- No change counts for a computation: none affects it, or it is valid up to a block before them.
    abbrev IsUntouched : List DependentKey → ℕ → Type 0
    IsUntouched dependencies last =
        All (λ e. (matches_any matches dependencies e ≡ false) ⊎ (last < e.block.height)) changes

    grown-HasNoEvent :
        (ts us : List (Table Row)) (dependencies : List DependentKey) (from last last' : ℕ)
        → IsGrown changes ts us
        → last' ≤ last
        → IsUntouched dependencies last'
        → HasNoEvent matches ts dependencies from last
        → HasNoEvent matches us dependencies from last'
    grown-HasNoEvent [] [] dependencies from last last' g le h quiet = tt
    grown-HasNoEvent [] (u ∷ us) dependencies from last last' g le h quiet = absurd g
    grown-HasNoEvent (t ∷ ts) [] dependencies from last last' g le h quiet = absurd g
    grown-HasNoEvent (t ∷ ts) (u ∷ us) dependencies from last last' (same, (rows, g)) le h quiet = (
      All-weaken (λ e. Memᴰ e t.rows ⊎ Memᴰ e changes) _
          (λ e m f to. elim m [
            | inl old ↦
                ap (λ n. matches_any matches (namespaced_keys n dependencies) e) (sym same)
                ∙ All-mem
                    (λ d.
                      from ≤ d.block.height
                      → d.block.height ≤ last
                      → matches_any matches (namespaced_keys t.namespace_prefix dependencies) d
                        ≡ false)
                    t.rows quiet.0 old f (omega (arith, le, to))
            | inr new ↦
                elim (All-mem
                  (λ d. (matches_any matches dependencies d ≡ false) ⊎ (last' < d.block.height))
                  changes h new) [
                    | inl absent ↦ namespaced-matches_any u.namespace_prefix dependencies e absent
                    | inr late ↦ absurd (omega (arith, late, to))
                  ]
          ])
          u.rows rows,
      grown-HasNoEvent ts us dependencies from last last' g le h quiet.1,
    )

    late-IsUntouched :
        (dependencies : List DependentKey) (last : ℕ)
        → last < earliest
        → IsUntouched dependencies last
    late-IsUntouched dependencies last lt =
        All-weaken (λ e. earliest ≤ e.block.height) _ (λ e le. inr (omega (arith, le, lt))) changes
          least

    abbrev shorten : Computation → Computation
    shorten c =
        if is_shortened matches earliest changes c
        then record c { latest_block_height_valid = earliest - 1 }
        else c

    shortened-bounds :
        (c : Computation)
        → is_shortened matches earliest changes c ≡ true
        → (c.block_height < earliest) × (earliest ≤ c.latest_block_height_valid)
    shortened-bounds c h = (ground arith, ground arith)

    -- A computation that is kept as it is, of those that are extendable.
    kept-IsUntouched :
        (c : Computation)
        → is_destroyed matches earliest changes c ≡ false
        → is_shortened matches earliest changes c ≡ false
        → c.validity_extendable ≡ true
        → IsUntouched c.dependencies c.latest_block_height_valid
    kept-IsUntouched c kept long extendable = elim (Bool-cases (is_affected matches changes c)) [
      | inl affected ↦ late-IsUntouched c.dependencies c.latest_block_height_valid (ground arith)
      | inr unaffected ↦
          All-weaken (λ e. matches_any matches c.dependencies e ≡ false) _ (λ e absent. inl absent)
            changes (unaffected-All c.dependencies changes unaffected)
    ]

    module _ (ts us : List (Table Row)) (g : IsGrown changes ts us) where
      abbrev IsRightIfExtendable : Computation → Type 0
      IsRightIfExtendable c = c.validity_extendable ≡ true → IsRight matches us c

      shorten-IsRight :
          (c : Computation)
          → is_destroyed matches earliest changes c ≡ false
          → IsRight matches ts c
          → (shorten c).validity_extendable ≡ true
          → IsRight matches us (shorten c)
      shorten-IsRight c kept r extendable =
          elim (Bool-cases (is_shortened matches earliest changes c)) [
            | inl short ↦
                let shape : shorten c ≡ record c { latest_block_height_valid = earliest - 1 } =
                  ap (λ b. if b then record c { latest_block_height_valid = earliest - 1 } else c)
                    short in
                let (lt, le) = shortened-bounds c short in
                subst (IsRight matches us) (sym shape) (record {
                  ordered = omega (arith, lt);
                  quiet =
                      grown-HasNoEvent ts us c.dependencies (c.block_height + 1)
                        c.latest_block_height_valid (earliest - 1) g (omega (arith, le))
                        (late-IsUntouched c.dependencies (earliest - 1) (omega (arith, lt)))
                        r.quiet;
                })
            | inr long ↦
                let shape : shorten c ≡ c =
                  ap (λ b. if b then record c { latest_block_height_valid = earliest - 1 } else c)
                    long in
                let fixed : c.validity_extendable ≡ true =
                  ap (λ d. d.validity_extendable) (sym shape) ∙ extendable in
                subst (IsRight matches us) (sym shape) (record {
                  ordered = r.ordered;
                  quiet =
                      grown-HasNoEvent ts us c.dependencies (c.block_height + 1)
                        c.latest_block_height_valid c.latest_block_height_valid g (omega arith)
                        (kept-IsUntouched c kept long fixed) r.quiet;
                })
          ]

      invalidated-All :
          (cs : List Computation)
          → All (IsRight matches ts) cs
          → All IsRightIfExtendable
              (map shorten (filter (λ c. not (is_destroyed matches earliest changes c)) cs))
      invalidated-All [] h = tt
      invalidated-All (c ∷ cs) h = elim (Bool-cases (is_destroyed matches earliest changes c)) [
        | inl gone ↦ rw gone (invalidated-All cs h.1)
        | inr kept ↦ rw kept (shorten-IsRight c kept h.0, invalidated-All cs h.1)
      ]

-- If each stored computation is right by the tables before, and the tables afterwards have no rows
-- but those before and the changes, each computation that is left after the invalidation and whose
-- validity is extendable is right by the tables afterwards.
pub invalidate_computations_dependent_on_changes-IsRight :
    {Row : Type 0} (matches : DependentKey → Event Row → Bool) (changes : List (Event Row))
    (ts us : List (Table Row)) (cs : List Computation)
    → IsGrown changes ts us
    → All (IsRight matches ts) cs
    → All
        (λ c. c.validity_extendable ≡ true → IsRight matches us c)
        (invalidate_computations_dependent_on_changes matches changes cs).computations
unfolding invalidate_computations_dependent_on_changes invalidate_from
invalidate_computations_dependent_on_changes-IsRight matches [] ts us cs g h =
    All-weaken (IsRight matches ts) _
      (λ c r extendable. record {
        ordered = r.ordered;
        quiet =
            grown-HasNoEvent matches [] 0 tt ts us c.dependencies (c.block_height + 1)
              c.latest_block_height_valid c.latest_block_height_valid g (omega arith) tt r.quiet;
      })
      cs h
invalidate_computations_dependent_on_changes-IsRight matches (e ∷ es) ts us cs g h =
    invalidated-All matches (e ∷ es) (earliest_block_height e.block.height es)
      (earliest_block_height-le e.block.height es, earliest_block_height-least e.block.height es) ts
      us g cs h
