-- ===== src/Formulas/Simple/Tests.antt =====
-- Contract formulas of src/formulas/formulas/utils.ts, makeSimpleContractFormula.
use dao_dao_indexer.Prelude.{ℕ, ◌≡◌, refl, Bool, true, List, [], ◌∷◌, String, none, some, All}
use dao_dao_indexer.Formulas.Simple.{
  Source, event, transformation, extraction, SourceOption, sources_option, transformation_option,
  ContractEnv, returns, finish, compute_simple, sources_of, read_source, transformed,
}
use dao_dao_indexer.Formulas.Simple.First.{compute_simple-first, compute_simple-none}

-- The contract has an event at `config` and no transformation of that name.
abbrev event_env : ContractEnv ℕ
event_env = record {
  get = λ key. some 5;
  get_transformation_match = λ key. none;
  get_extraction = λ key. none;
}

abbrev empty_env : ContractEnv ℕ
empty_env = record {
  get = λ key. none;
  get_transformation_match = λ key. none;
  get_extraction = λ key. none;
}

abbrev config_key : String → List String
config_key args = "config" ∷ []

abbrev config_source : SourceOption String ℕ
config_source = transformation_option config_key (some (config_key ∷ []))

abbrev event_of_config : Source String ℕ
event_of_config = record { type = event; key = config_key; transform = none }

abbrev is_valid : String → Bool
is_valid args = true

abbrev keep : ℕ → ContractEnv ℕ → ℕ
keep value env = value

config_source-sources :
    sources_of config_source
    ≡ record { type = transformation; key = config_key; transform = none } ∷ event_of_config ∷ []
unfolding sources_of
config_source-sources = refl

transformation-missing :
    read_source event_env "" (record { type = transformation; key = config_key; transform = none })
    ≡ none
unfolding read_source
transformation-missing = refl

event-found : read_source event_env "" event_of_config ≡ some 5
unfolding read_source
event-found = refl

compute_simple-first_example :
    compute_simple config_source none is_valid keep event_env ""
    ≡ finish none (λ v. v) (transformed none 5)
compute_simple-first_example =
    compute_simple-first event_env "" config_source none is_valid keep
      (record { type = transformation; key = config_key; transform = none } ∷ []) [] event_of_config
      5 refl config_source-sources (transformation-missing, tt) event-found

abbrev extraction_source : SourceOption String ℕ
extraction_source =
    sources_option (record { type = extraction; key = config_key; transform = none } ∷ [])

extraction_source-missing :
    All (λ s. read_source empty_env "" s ≡ none) (sources_of extraction_source)
unfolding sources_of read_source
extraction_source-missing = (refl, tt)

compute_simple-none_example :
    compute_simple extraction_source (some 3) is_valid keep empty_env "" ≡ returns 3
compute_simple-none_example =
    compute_simple-none empty_env "" extraction_source (some 3) is_valid keep
      extraction_source-missing
