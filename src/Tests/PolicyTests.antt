-- ===== src/Tests/PolicyTests.antt =====
-- The policy at concrete inputs.
use owlmatic.Prelude.{◌≡◌, refl, true, false, Text, none, some, [], ◌∷◌, text_beq, if◌then◌else◌}
use owlmatic.Errors.{ok}
use owlmatic.Json.{Fields, end, field, str}
use owlmatic.Domain.{Workflow, Profile}
use owlmatic.Policy.{
  Ambient, Environment, Host, environment_for, check, lookup, inherit, bind, bind_value, target_of,
  longest_first, insert_secret, is_reserved, is_sensitive,
}
use owlmatic.Policy
use owlmatic.Policy.Secrets.{IsBound, environment_for-IsBound}
use owlmatic.Policy.Permission.{IsAllowed, check-IsAllowed}
use owlmatic.Redaction.{has_secret_fields, text_has_secret}
use owlmatic.Tests.EvidenceTests.{a_workflow, a_manifest, health, disk, accept_all}

-- "db" in the manifest is bound to the variable "X".
abbrev db_name : Text
db_name = b'd' ∷ b'b' ∷ []

abbrev source : Text
source = b'X' ∷ []

abbrev password : Text
password = b's' ∷ b'e' ∷ b's' ∷ []

abbrev an_ambient : Ambient
an_ambient name = if text_beq name source then some password else none

abbrev a_profile : Profile
a_profile = record {
  environments = "local" ∷ [];
  grants = "team/health@1" ∷ [];
  env = [];
  credentials = (db_name, source) ∷ [];
  max_timeout_seconds = 60;
  max_log_bytes = 1024;
}

abbrev bound_workflow : Workflow
bound_workflow = record a_workflow {
  manifest = record a_manifest {
    environments = "local" ∷ [];
    entrypoint = health ∷ [];
    credentials = db_name ∷ [];
  };
}

abbrev an_environment : Environment
an_environment = record {
  values =
      (target_of db_name, password)
      ∷ (Policy.path_name, Policy.default_path)
      ∷ (b'L' ∷ b'A' ∷ b'N' ∷ b'G' ∷ [], b'C' ∷ b'.' ∷ b'U' ∷ b'T' ∷ b'F' ∷ b'-' ∷ b'8' ∷ [])
      ∷ (
        b'P' ∷ b'Y' ∷ b'T' ∷ b'H' ∷ b'O' ∷ b'N' ∷ b'D' ∷ b'O' ∷ b'N' ∷ b'T' ∷ b'W' ∷ b'R' ∷ b'I'
            ∷ b'T' ∷ b'E' ∷ b'B' ∷ b'Y' ∷ b'T' ∷ b'E' ∷ b'C' ∷ b'O' ∷ b'D' ∷ b'E' ∷ [],
        b'1' ∷ [],
      )
      ∷ [];
  secrets = password ∷ [];
}

environment_made : environment_for bound_workflow a_profile an_ambient ≡ ok an_environment
unfolding environment_for
environment_made = refl

environment_for-IsBound_example : IsBound an_ambient a_profile db_name an_environment
environment_for-IsBound_example =
    environment_for-IsBound bound_workflow a_profile an_ambient an_environment db_name
      environment_made refl

abbrev pub a_host : Host
a_host = record {
  profiles = ("default", a_profile) ∷ [];
  platform = "linux";
  environment = an_ambient;
  workspace_exists = λ w. true;
  required_path_exists = λ w p. true;
  command_exists = λ c d p. true;
  workspace_name = λ w. w;
  payload_size = λ fs. 20;
  validate = accept_all;
  verify_bundle = λ w. ok tt;
}

abbrev an_input : Fields
an_input = field disk (str health) end

allowed : check a_host bound_workflow an_input "default" "local" "/w" false ≡ ok a_profile
unfolding check environment_for has_secret_fields text_has_secret
allowed = refl

check-IsAllowed_example :
    IsAllowed a_host bound_workflow an_input "default" "local" "/w" false a_profile
check-IsAllowed_example =
    check-IsAllowed a_host bound_workflow an_input "default" "local" "/w" false a_profile allowed
