-- ===== src/Formulas/Simple.antt =====
-- src/formulas/formulas/utils.ts, makeSimpleContractFormula and its `Source` type: a formula that
-- loads the first of its sources that the contract has. What the environment finds is a parameter.
-- `validate` is a test of the arguments, false where it throws. A value that is undefined is `none`.
pub mod First
pub mod Tests
use dao_dao_indexer.Prelude.{
  Bool, true, false, List, [], ◌∷◌, ◌++◌, map, String, Option, none, some, if◌then◌else◌,
}

pub data SourceType : Type 0 where
  event transformation extraction : SourceType

-- The key of an event, flattened, or the name of a transformation or an extraction, as a function
-- of the arguments, and the transform of what is found, if there is one.
pub record Source (Args V : Type 0) : Type 0 where
  pub type : SourceType
  pub key : Args → List String
  pub transform : Option (V → Option V)

-- The three ways to say where the value is.
pub data SourceOption (Args V : Type 0) : Type 0 where
  key_option : (Args → List String) → SourceOption Args V
  transformation_option :
      (Args → List String) → Option (List (Args → List String)) → SourceOption Args V
  sources_option : List (Source Args V) → SourceOption Args V

pub data Outcome (Result : Type 0) : Type 0 where
  returns : Result → Outcome Result
  -- An error is thrown: `validate` rejects the arguments, or nothing is loaded.
  invalid failed_to_load : Outcome Result

module _ {Args V : Type 0} where
  unfoldable pub event_source : (Args → List String) → Source Args V
  event_source key = record { type = event; key = key; transform = none }

  unfoldable pub fallback_sources : Option (List (Args → List String)) → List (Source Args V)
  unfolding event_source
  fallback_sources none = []
  fallback_sources (some keys) = map event_source keys

  unfoldable pub sources_of : SourceOption Args V → List (Source Args V)
  unfolding event_source fallback_sources
  sources_of (key_option key) = event_source key ∷ []
  sources_of (transformation_option name keys) =
      record { type = transformation; key = name; transform = none } ∷ fallback_sources keys
  sources_of (sources_option sources) = sources

-- The readers of the environment: `get`, `getTransformationMatch` and `getExtraction`.
pub record ContractEnv (V : Type 0) : Type 0 where
  pub get : List String → Option V
  pub get_transformation_match : List String → Option V
  pub get_extraction : List String → Option V

module _ {V : Type 0} where
  unfoldable pub read_by : ContractEnv V → SourceType → List String → Option V
  read_by env event key = env.get key
  read_by env transformation key = env.get_transformation_match key
  read_by env extraction key = env.get_extraction key

  unfoldable pub transformed : Option (V → Option V) → V → Option V
  transformed none v = some v
  transformed (some f) v = f v

module _ {Args V : Type 0} where
  unfoldable pub read_source : ContractEnv V → Args → Source Args V → Option V
  unfolding read_by
  read_source env args source = read_by env source.type (source.key args)

  -- The loop: it ends at the first source that is found, whatever the transform makes of it.
  unfoldable pub load : ContractEnv V → Args → List (Source Args V) → Option V
  unfolding read_source transformed
  load env args [] = none
  load env args (source ∷ sources) = elim (read_source env args source) [
    | some found ↦ transformed source.transform found
    | none ↦ load env args sources
  ]

module _ {V Result : Type 0} where
  unfoldable pub finish : Option Result → (V → Result) → Option V → Outcome Result
  finish fallback transform (some value) = returns (transform value)
  finish (some fallback) transform none = returns fallback
  finish none transform none = failed_to_load

module _ {Args V Result : Type 0} where
  unfoldable pub compute_simple :
      SourceOption Args V
      → Option Result
      → (Args → Bool)
      → (V → ContractEnv V → Result)
      → ContractEnv V
      → Args
      → Outcome Result
  unfolding sources_of load finish
  compute_simple source fallback validate transform env args =
      if validate args
      then finish fallback (λ v. transform v env) (load env args (sources_of source))
      else invalid
