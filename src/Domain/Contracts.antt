-- ===== src/Domain/Contracts.antt =====
-- domain.py: the records of manifests, catalogs, profiles and evidence. Texts that the code
-- searches, splits or redacts are `Text`; names that it only compares are `String`.
use owlmatic.Prelude.{ℕ, Bool, String, Text, List, Option}
use owlmatic.Errors.{Code}
use owlmatic.Json.{Fields}
use owlmatic.Domain.Enums.{Outcome, Effects, CheckStatus}

pub record Requirements : Type 0 where
  pub platforms : List String
  pub commands : List Text
  pub paths : List String
  pub repository : Option String

pub record Execution : Type 0 where
  pub timeout_seconds : ℕ
  pub concurrency_input : Option Text
  pub remote : Bool

pub record Verification : Type 0 where
  pub required_checks : List Text

pub record Fixture : Type 0 where
  pub inputs : Fields
  pub outcome : Outcome

pub record Manifest : Type 0 where
  pub id : String
  pub version : String
  pub description : String
  pub owner : String
  pub aliases : List String
  pub examples : List String
  pub entrypoint : List Text
  pub input_schema : String
  pub output_schema : String
  pub requirements : Requirements
  pub environments : List String
  pub effects : List String
  pub credentials : List Text
  pub execution : Execution
  pub verification : Verification
  pub tests : List Fixture

pub record Workflow : Type 0 where
  pub ref : String
  pub catalog : String
  pub id : String
  pub digest : String
  pub directory : String
  pub manifest : Manifest
  pub input_schema : Fields
  pub output_schema : Fields
  pub source_revision : Option String

pub record Profile : Type 0 where
  pub environments : List String
  pub grants : List String
  pub env : List Text
  pub credentials : List (Text × Text)
  pub max_timeout_seconds : ℕ
  pub max_log_bytes : ℕ

unfoldable pub with_grants : Profile → List String → Profile
with_grants p grants = record {
  environments = p.environments;
  grants = grants;
  env = p.env;
  credentials = p.credentials;
  max_timeout_seconds = p.max_timeout_seconds;
  max_log_bytes = p.max_log_bytes;
}

pub record Check : Type 0 where
  pub name : Text
  pub status : CheckStatus

pub record Evidence : Type 0 where
  pub run_id : String
  pub outcome : Outcome
  pub checks : List Check
  pub outputs : Fields
  pub effects : Effects

pub record CheckCounts : Type 0 where
  pub required : ℕ
  pub passed : ℕ
  pub failed : ℕ
  pub skipped : ℕ

-- The texts that the code writes into failures are constants, and are not modelled.
pub record Failure : Type 0 where
  pub code : Code

pub record Target : Type 0 where
  pub environment : String
  pub workspace : String
  pub source_revision : Option String
  pub dirty : Option Bool
