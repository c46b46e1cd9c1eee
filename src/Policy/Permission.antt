-- ===== src/Policy/Permission.antt =====
-- policy.py: what an allowed invocation meets.
use owlmatic.Prelude.{
  ◌≡◌, ◌≤◌, Bool, true, false, ◌&&◌, not, String, all, contains, ltb, arith, ◌==◌, text_eq,
  string_eq, some, eq_iff,
}
use owlmatic.Errors.{ok, >>=-eq-ok, invalid_input, Code, raise_if}
use owlmatic.Json.{Fields}
use owlmatic.Domain.{Workflow, Profile}
use owlmatic.Redaction.{has_secret_fields}
use owlmatic.Policy.Variables.{Environment, environment_for}
use owlmatic.Policy.Check.{
  Host, find_profile, get_profile, is_wrong_platform, is_wrong_repository, check_requirements,
  check_process, check_environment, check, commands_of, path_of,
}

-- An invocation that the policy allows.
pub record IsAllowed (host : Host) (w : Workflow) (inputs : Fields)
    (profile_name environment workspace : String) (validation : Bool) (p : Profile) : Type 0 where
  pub profile : find_profile profile_name host.profiles ≡ some p
  pub trusted : validation ≡ false → contains w.ref p.grants ≡ true
  pub small : host.payload_size inputs ≤ 16384
  pub valid : host.validate w.input_schema inputs invalid_input ≡ ok tt
  pub workflow_environment : contains environment w.manifest.environments ≡ true
  pub profile_environment : contains environment p.environments ≡ true
  pub not_default : environment ≡ "production" → (profile_name == "default") ≡ false
  pub workspace_there : host.workspace_exists workspace ≡ true
  pub bundle : host.verify_bundle w ≡ ok tt
  pub platform : is_wrong_platform host w.manifest.requirements ≡ false
  pub repository : is_wrong_repository host workspace w.manifest.requirements.repository ≡ false
  pub paths : all (host.required_path_exists workspace) w.manifest.requirements.paths ≡ true
  pub selected : Environment
  pub made : environment_for w p host.environment ≡ ok selected
  pub commands :
      all (λ command. host.command_exists command w.directory (path_of selected)) (commands_of w)
      ≡ true
  pub no_secret : has_secret_fields selected.secrets inputs ≡ false

raise_if-ok : (b : Bool) (c : Code) → raise_if b c ≡ ok tt → b ≡ false
raise_if-ok b c h = ground arith

get_profile-ok :
    (host : Host) (name : String) (p : Profile)
    → get_profile host name ≡ ok p
    → find_profile name host.profiles ≡ some p
unfolding get_profile
get_profile-ok host name p h = ground arith

check_environment-ok :
    (w : Workflow) (p : Profile) (profile_name environment : String)
    → check_environment w p profile_name environment ≡ ok tt
    → (contains environment w.manifest.environments ≡ true)
      × (contains environment p.environments ≡ true)
      × (environment ≡ "production" → (profile_name == "default") ≡ false)
unfolding check_environment
check_environment-ok w p profile_name environment h =
    (ground arith, ground arith, λ e. ground (arith, eq_iff environment "production"))

check_requirements-ok :
    (host : Host) (w : Workflow) (workspace : String)
    → check_requirements host w workspace ≡ ok tt
    → (is_wrong_platform host w.manifest.requirements ≡ false)
      × (is_wrong_repository host workspace w.manifest.requirements.repository ≡ false)
      × (all (host.required_path_exists workspace) w.manifest.requirements.paths ≡ true)
unfolding check_requirements
check_requirements-ok host w workspace h = (ground arith, ground arith, ground arith)

check_process-ok :
    (host : Host) (w : Workflow) (inputs : Fields) (e : Environment)
    → check_process host w inputs e ≡ ok tt
    → (all (λ command. host.command_exists command w.directory (path_of e)) (commands_of w) ≡ true)
      × (has_secret_fields e.secrets inputs ≡ false)
unfolding check_process
check_process-ok host w inputs e h = (ground arith, ground arith)

-- The policy allows an invocation only if its profile exists and, unless it is a validation, trusts
-- the exact workflow; the inputs are small, valid and free of secrets; the environment is allowed
-- by the workflow and the profile, and production not under the default profile; the bundle is
-- verified; the workspace and every required path, command, platform and repository are there.
pub check-IsAllowed :
    (host : Host) (w : Workflow) (inputs : Fields) (profile_name environment workspace : String)
    (validation : Bool) (p : Profile)
    → check host w inputs profile_name environment workspace validation ≡ ok p
    → IsAllowed host w inputs profile_name environment workspace validation p
unfolding check
check-IsAllowed host w inputs profile_name environment workspace validation p h =
    let (q, h1, r1) = >>=-eq-ok (get_profile host profile_name) _ h in
    let (_, h2, r2) =
      >>=-eq-ok (raise_if (not validation && not (contains w.ref q.grants)) _) _ r1 in
    let (_, h3, r3) = >>=-eq-ok (raise_if (ltb 16384 (host.payload_size inputs)) _) _ r2 in
    let (_, h4, r4) = >>=-eq-ok (host.validate w.input_schema inputs invalid_input) _ r3 in
    let (_, h5, r5) = >>=-eq-ok (check_environment w q profile_name environment) _ r4 in
    let (_, h6, r6) = >>=-eq-ok (raise_if (not (host.workspace_exists workspace)) _) _ r5 in
    let (_, h7, r7) = >>=-eq-ok (host.verify_bundle w) _ r6 in
    let (_, h8, r8) = >>=-eq-ok (check_requirements host w workspace) _ r7 in
    let (e, h9, r9) = >>=-eq-ok (environment_for w q host.environment) _ r8 in
    let (_, h10, r10) = >>=-eq-ok (check_process host w inputs e) _ r9 in
    let same : q ≡ p = ground arith in
    let places = check_environment-ok w q profile_name environment h5 in
    let needs = check_requirements-ok host w workspace h8 in
    let process = check_process-ok host w inputs e h10 in
    record {
      profile = ground (arith, get_profile-ok host profile_name q h1);
      trusted = λ v. ground arith;
      small = ground arith;
      valid = h4;
      workflow_environment = places.0;
      profile_environment = ground arith;
      not_default = places.2;
      workspace_there = ground arith;
      bundle = h7;
      platform = needs.0;
      repository = needs.1;
      paths = needs.2;
      selected = e;
      made = ground arith;
      commands = process.0;
      no_secret = process.1;
    }
