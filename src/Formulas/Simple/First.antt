-- ===== src/Formulas/Simple/First.antt =====
-- src/formulas/formulas/utils.ts, makeSimpleContractFormula: the first source that is found decides.
use dao_dao_indexer.Prelude.{
  ◌≡◌, refl, Bool, true, List, [], ◌∷◌, ◌++◌, Option, none, some, All, if◌then◌else◌, Bool-cases,
  inl, inr,
}
use dao_dao_indexer.Formulas.Simple.{
  Source, SourceOption, ContractEnv, Outcome, returns, invalid, failed_to_load, sources_of,
  read_source, transformed, load, finish, compute_simple,
}

-- What a formula gives that has loaded no value.
abbrev pub without_value : {Result : Type 0} → Option Result → Outcome Result
without_value none = failed_to_load
without_value (some value) = returns value

finish-none :
    {V Result : Type 0} (fallback : Option Result) (transform : V → Result)
    → finish fallback transform none ≡ without_value fallback
unfolding finish
finish-none none transform = refl
finish-none (some value) transform = refl

module _ {Args V : Type 0} (env : ContractEnv V) (args : Args) where
  load-first :
      (before after : List (Source Args V)) (source : Source Args V) (found : V)
      → All (λ s. read_source env args s ≡ none) before
      → read_source env args source ≡ some found
      → load env args (before ++ source ∷ after) ≡ transformed source.transform found
  unfolding load
  load-first [] after source found h e = rw (e, load) refl
  load-first (s ∷ before) after source found h e =
      rw (h.0, load) (load-first before after source found h.1 e)

  load-none :
      (sources : List (Source Args V))
      → All (λ s. read_source env args s ≡ none) sources
      → load env args sources ≡ none
  unfolding load
  load-none [] h = refl
  load-none (s ∷ sources) h = rw (h.0, load) (load-none sources h.1)

  module _ {Result : Type 0} (option : SourceOption Args V) (fallback : Option Result)
      (validate : Args → Bool) (transform : V → ContractEnv V → Result) where
    -- With arguments that are valid, and sources of which one is found and none before it, the
    -- formula finishes with what that source's transform makes of the value it holds: an undefined
    -- value is not looked for in the sources after it.
    pub compute_simple-first :
        (before after : List (Source Args V)) (source : Source Args V) (found : V)
        → validate args ≡ true
        → sources_of option ≡ before ++ source ∷ after
        → All (λ s. read_source env args s ≡ none) before
        → read_source env args source ≡ some found
        → compute_simple option fallback validate transform env args
          ≡ finish fallback (λ v. transform v env) (transformed source.transform found)
    unfolding compute_simple
    compute_simple-first before after source found valid e h f =
        rw (valid, e, load-first before after source found h f) refl

    -- With no source found, the formula returns the fallback and fails to load if there is none, and
    -- it rejects arguments that are not valid before that.
    pub compute_simple-none :
        All (λ s. read_source env args s ≡ none) (sources_of option)
        → compute_simple option fallback validate transform env args
          ≡ (if validate args then without_value fallback else invalid)
    unfolding compute_simple finish
    compute_simple-none missing = elim (Bool-cases (validate args)) [
      | inl valid ↦ rw (valid, load-none (sources_of option) missing) (finish-none fallback _)
      | inr rejected ↦ rw rejected refl
    ]
