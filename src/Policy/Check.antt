-- ===== src/Policy/Check.antt =====
-- policy.py `get_profile` and `ExecutionPolicy.check`. What the settings, the bundle store, the
-- schemas and the host answer is in `Host`.
use owlmatic.Prelude.{
  ℕ, Bool, false, ◌&&◌, ◌||◌, not, String, Text, List, [], ◌∷◌, Option, none, some, all, contains,
  ltb, truthy, ◌==◌, text_eq, string_eq, option_eq, if◌then◌else◌, is_empty,
}
use owlmatic.Errors.{
  Result, ok, err, owl, raise_if, invalid_profile, untrusted, input_too_large, invalid_input,
  environment_denied, production_profile_required, missing_workspace, incompatible_platform,
  wrong_repository, missing_path, missing_command, secret_input, ◌>>=◌, ◌>>◌,
}
use owlmatic.Json.{Fields}
use owlmatic.Domain.{Workflow, Profile, Requirements}
use owlmatic.Evidence.{Validate}
use owlmatic.Redaction.{has_secret_fields}
use owlmatic.Policy.Variables.{Ambient, Environment, lookup, environment_for, path_name, or_default}

pub record Host : Type 0 where
  pub profiles : List (String × Profile)
  pub platform : String
  pub environment : Ambient
  pub workspace_exists : String → Bool
  pub required_path_exists : String → String → Bool
  pub command_exists : Text → String → Text → Bool
  pub workspace_name : String → String
  pub payload_size : Fields → ℕ
  pub validate : Validate
  pub verify_bundle : Workflow → Result (Unit {0})

unfoldable pub find_profile : String → List (String × Profile) → Option Profile
find_profile name [] = none
find_profile name ((key, p) ∷ profiles) = if key == name then some p else find_profile name profiles

unfoldable pub get_profile : Host → String → Result Profile
unfolding find_profile
get_profile host name = elim (find_profile name host.profiles) [
  | none ↦ err (owl invalid_profile)
  | some p ↦ ok p
]

-- if requirements.platforms and self.host.platform not in requirements.platforms
unfoldable pub is_wrong_platform : Host → Requirements → Bool
is_wrong_platform host r = not (is_empty r.platforms) && not (contains host.platform r.platforms)

unfoldable pub is_wrong_repository : Host → String → Option String → Bool
is_wrong_repository host workspace none = false
is_wrong_repository host workspace (some repository) =
    truthy (some repository) && not (host.workspace_name workspace == repository)

-- (m.entrypoint[0], *requirements.commands): a manifest has an entrypoint.
abbrev pub commands_of : Workflow → List Text
commands_of w = elim w.manifest.entrypoint [
  | [] ↦ w.manifest.requirements.commands
  | command ∷ arguments ↦ command ∷ w.manifest.requirements.commands
]

-- selected.values["PATH"]
abbrev pub path_of : Environment → Text
path_of e = or_default (lookup path_name e.values)

unfoldable pub check_requirements : Host → Workflow → String → Result (Unit {0})
unfolding is_wrong_platform is_wrong_repository
check_requirements host w workspace = do
  raise_if (is_wrong_platform host w.manifest.requirements) incompatible_platform
  raise_if (is_wrong_repository host workspace w.manifest.requirements.repository) wrong_repository
  raise_if (not (all (host.required_path_exists workspace) w.manifest.requirements.paths))
      missing_path

unfoldable pub check_process : Host → Workflow → Fields → Environment → Result (Unit {0})
unfolding lookup
check_process host w inputs e = do
  raise_if
      (not (all (λ command. host.command_exists command w.directory (path_of e)) (commands_of w)))
      missing_command
  raise_if (has_secret_fields e.secrets inputs) secret_input

unfoldable pub check_environment : Workflow → Profile → String → String → Result (Unit {0})
check_environment w p profile_name environment = do
  raise_if
      (not (contains environment w.manifest.environments)
        || not (contains environment p.environments))
      environment_denied
  raise_if (environment == "production" && profile_name == "default") production_profile_required

unfoldable pub check : Host → Workflow → Fields → String → String → String → Bool → Result Profile
unfolding get_profile check_environment check_requirements check_process
check host w inputs profile_name environment workspace validation = do
  p ← get_profile host profile_name
  raise_if (not validation && not (contains w.ref p.grants)) untrusted
  raise_if (ltb 16384 (host.payload_size inputs)) input_too_large
  host.validate w.input_schema inputs invalid_input
  check_environment w p profile_name environment
  raise_if (not (host.workspace_exists workspace)) missing_workspace
  host.verify_bundle w
  check_requirements host w workspace
  selected ← environment_for w p host.environment
  check_process host w inputs selected
  ok p
