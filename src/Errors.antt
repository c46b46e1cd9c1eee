-- ===== src/Errors.antt =====
-- errors.py: an operation that may raise returns a `Result`. An `OwlError` is known by its code;
-- the text shown with it is not modelled. `value_error` stands for the `ValueError` of a contract
-- that does not validate, `unexpected` for any other exception; the last four are the kinds of
-- `OSError` that the code tells apart.
use owlmatic.Prelude.{◌⊎◌, inl, inr, ◌≡◌, refl, Bool, true, false}

pub data Code : Type 0 where
  invalid_transition request_conflict busy run_not_found lease_lost run_active : Code
  recovery_required storage_error worker_lost result_pending cleanup_pending cancelled output_limit
        execution_error :
      Code
  export_disabled export_too_large export_transient access_denied path_not_found : Code
  full_storage io_error invalid_request internal_error : Code
  stale_evidence duplicate_check invalid_output unproven_pass unproven_failure : Code
  process_failed : Code
  invalid_profile missing_credential invalid_credential untrusted input_too_large invalid_input :
      Code
  environment_denied production_profile_required missing_workspace incompatible_platform : Code
  wrong_repository missing_path missing_command secret_input : Code
  missing_concurrency_input start_failed invalid_retention unknown_workflow : Code
  task_id_conflict history_regressed history_changed duplicate_history : Code
  run_already_attributed measurement_disabled attribution_conflict verification_required : Code
  baseline_incomplete history_limit export_config history_unavailable : Code
  catalog_exists invalid_source secret_in_url catalog_not_found duplicate_id : Code
  workflow_not_found invalid_query invalid_view symlink guard_failed timed_out owner_lost
        process_start_failed :
      Code

pub data Error : Type 0 where
  owl : Code → Error
  value_error unexpected : Error
  permission_error file_not_found storage_full os_error : Error

-- `err` is the exception that was raised.
pub data Result {ℓ} (A : Type ℓ) : Type ℓ where
  err : Error → Result A
  ok : A → Result A

-- if test: raise OwlError(code)
abbrev pub raise_if : Bool → Code → Result (Unit {0})
raise_if true c = err (owl c)
raise_if false c = ok tt

-- if test: raise ValueError
abbrev pub reject_if : Bool → Result (Unit {0})
reject_if true = err value_error
reject_if false = ok tt

-- One statement after another: the first exception ends the call.
infixl 5 ◌>>=◌
abbrev pub ◌>>=◌ {ℓ κ} : {A : Type ℓ} {B : Type κ} → Result A → (A → Result B) → Result B
err raised >>= rest = err raised
ok value >>= rest = rest value

infixl 5 ◌>>◌
abbrev pub ◌>>◌ {ℓ} : {A : Type ℓ} → Result (Unit {0}) → Result A → Result A
first >> second = first >>= λ _. second

pub Result-cases {ℓ} :
    {A : Type ℓ} (r : Result A) → ((a : A) × (r ≡ ok a)) ⊎ ((e : Error) × (r ≡ err e))
Result-cases (err raised) = inr (raised, refl)
Result-cases (ok value) = inl (value, refl)

-- A chain that succeeds has succeeded in its first call, and in the rest.
pub >>=-eq-ok {ℓ κ} :
    {A : Type ℓ} {B : Type κ} (first : Result A) (rest : A → Result B) {result : B}
    → (first >>= rest) ≡ ok result
    → (value : A) × (first ≡ ok value) × (rest value ≡ ok result)
>>=-eq-ok (err raised) rest h = cc
>>=-eq-ok (ok value) rest h = (value, refl, h)

-- except (ValueError, OwlError)
abbrev pub is_decoding_error : Error → Bool
is_decoding_error (owl c) = true
is_decoding_error value_error = true
is_decoding_error unexpected = false
is_decoding_error permission_error = false
is_decoding_error file_not_found = false
is_decoding_error storage_full = false
is_decoding_error os_error = false
