-- ===== src/Redaction/Defs.antt =====
-- The search for secrets in a JSON value, and their replacement in evidence.
use owlmatic.Prelude.{
  Bool, false, ◌||◌, Text, List, [], ◌∷◌, map, ◌==◌, text_eq, Option, none, some, if◌then◌else◌,
}
use owlmatic.Json.{
  Value, null, bool, int, real, str, arr, obj, Items, nil, cons, Fields, end, field,
}
use owlmatic.Texts.{occurs, replace}
use owlmatic.Domain.{Check, Evidence}

-- any(secret in value for secret in secrets)
unfoldable pub text_has_secret : List Text → Text → Bool
unfolding occurs
text_has_secret [] value = false
text_has_secret (s ∷ secrets) value = occurs s value || text_has_secret secrets value

unfoldable mutual
  pub has_secret : List Text → Value → Bool
  has_secret secrets (str s) = text_has_secret secrets s
  has_secret secrets (arr xs) = has_secret_items secrets xs
  has_secret secrets (obj fs) = has_secret_fields secrets fs
  has_secret secrets null = false
  has_secret secrets (bool b) = false
  has_secret secrets (int n) = false
  has_secret secrets (real x) = false

  pub has_secret_items : List Text → Items → Bool
  has_secret_items secrets nil = false
  has_secret_items secrets (cons x xs) = has_secret secrets x || has_secret_items secrets xs

  pub has_secret_fields : List Text → Fields → Bool
  has_secret_fields secrets end = false
  has_secret_fields secrets (field k v fs) =
      text_has_secret secrets k || has_secret secrets v || has_secret_fields secrets fs

-- "[REDACTED]"
abbrev pub redacted : Text
redacted = b'[' ∷ b'R' ∷ b'E' ∷ b'D' ∷ b'A' ∷ b'C' ∷ b'T' ∷ b'E' ∷ b'D' ∷ b']' ∷ []

-- for secret in secrets: value = value.replace(secret, "[REDACTED]")
unfoldable pub clean_text : List Text → Text → Text
unfolding replace
clean_text [] value = value
clean_text (s ∷ secrets) value = clean_text secrets (replace s redacted value)

unfoldable pub find_field : Text → Fields → Option Value
find_field key end = none
find_field key (field k v fs) = if k == key then some v else find_field key fs

unfoldable pub without_field : Text → Fields → Fields
without_field key end = end
without_field key (field k v fs) =
    if k == key then without_field key fs else field k v (without_field key fs)

-- A dictionary display: the first occurrence of a key gives its place, the last one its value.
unfoldable pub merge_field : Text → Value → Fields → Fields
unfolding find_field without_field
merge_field key v fs = elim (find_field key fs) [
  | none ↦ field key v fs
  | some later ↦ field key later (without_field key fs)
]

unfoldable mutual
  pub clean : List Text → Value → Value
  clean secrets (str s) = str (clean_text secrets s)
  clean secrets (arr xs) = arr (clean_items secrets xs)
  clean secrets (obj fs) = obj (clean_fields secrets fs)
  clean secrets null = null
  clean secrets (bool b) = bool b
  clean secrets (int n) = int n
  clean secrets (real x) = real x

  pub clean_items : List Text → Items → Items
  clean_items secrets nil = nil
  clean_items secrets (cons x xs) = cons (clean secrets x) (clean_items secrets xs)

  pub clean_fields : List Text → Fields → Fields
  clean_fields secrets end = end
  clean_fields secrets (field k v fs) =
      merge_field (clean_text secrets k) (clean secrets v) (clean_fields secrets fs)

unfoldable pub clean_check : List Text → Check → Check
unfolding clean_text
clean_check secrets c = record { name = clean_text secrets c.name; status = c.status }

unfoldable pub clean_evidence : Evidence → List Text → Evidence
unfolding clean_fields clean_check
clean_evidence e secrets = record {
  run_id = e.run_id;
  outcome = e.outcome;
  checks = map (clean_check secrets) e.checks;
  outputs = clean_fields secrets e.outputs;
  effects = e.effects;
}
