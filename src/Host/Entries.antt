-- ===== src/Host/Entries.antt =====
-- infrastructure/measurement/host_events.py `Events`: its state, and what a line may write to it.
-- A `dict` is a list of its items in the order of their insertion; a `set` is a list, of
-- which only the elements are used.
use owlmatic.Prelude.{
  ℕ, zero, suc, ◌+◌, ◌/◌, ◌%◌, Bool, true, false, ◌||◌, Text, Option, none, some, List, [], ◌∷◌,
  ltb, any, ◌==◌, text_eq, nat_eq, codes, if◌then◌else◌,
}
use owlmatic.Errors.{ok}
use owlmatic.Actions.{Action}
use owlmatic.Json.{Value, null, bool, int, real, str, arr, obj}
use owlmatic.Prelude.Int.{pos, negsuc}
use owlmatic.Measurement.{TokenUsage, Issue, usage_counter_regressed}
use owlmatic.Host.Decoding.{is_truthy}

pub record Events : Type 0 where
  pub claude : Bool
  pub partial_selection : Bool
  pub usages : List (Text × TokenUsage)
  pub outputs : List (Text × Text)
  pub models : List Text
  pub complete : Bool
  pub human_prompts : ℕ
  pub issues : List Issue
  pub cumulative : Option TokenUsage
  pub initial : Option TokenUsage
  pub run_ids : List Text
  pub started : Bool

abbrev pub no_events : Bool → Bool → Events
no_events claude partial_selection = record {
  claude = claude;
  partial_selection = partial_selection;
  usages = [];
  outputs = [];
  models = [];
  complete = false;
  human_prompts = 0;
  issues = [];
  cumulative = none;
  initial = none;
  run_ids = [];
  started = false;
}

-- A dictionary: `entries.get(key)`, `entries[key] = value` and `entries.values()`.
module _ {ℓ} {V : Type ℓ} where
  unfoldable pub find_entry : Text → List (Text × V) → Option V
  find_entry key [] = none
  find_entry key ((k, v) ∷ entries) = if k == key then some v else find_entry key entries

  unfoldable pub put_entry : Text → V → List (Text × V) → List (Text × V)
  put_entry key value [] = (key, value) ∷ []
  put_entry key value ((k, v) ∷ entries) =
      let rest = put_entry key value entries in
      if k == key then (key, value) ∷ entries else (k, v) ∷ rest

  unfoldable pub values_of : List (Text × V) → List V
  values_of [] = []
  values_of ((k, v) ∷ entries) = v ∷ values_of entries

-- texts.add(text)
unfoldable pub add_text : Text → List Text → List Text
add_text t texts = if any (λ u. u == t) texts then texts else t ∷ texts

-- self.issues.add("...")
unfoldable pub add_issue : Issue → Events → Events
add_issue i e = record e { issues = i ∷ e.issues }

-- if ...: self.issues.add("...")
unfoldable pub flag : Bool → Issue → Events → Events
unfolding add_issue
flag test i e = if test then add_issue i e else e

abbrev pub modify : (Events → Events) → Action Events (Unit {0})
modify change e = (ok tt, change e)

abbrev pub is_regression : Option TokenUsage → TokenUsage → Bool
is_regression none u = false
is_regression (some p) u = ltb u.input_tokens p.input_tokens || ltb u.output_tokens p.output_tokens

unfoldable pub check_usage : Option TokenUsage → TokenUsage → Events → Events
unfolding flag
check_usage previous u e = flag (is_regression previous u) usage_counter_regressed e

-- str(n): at most `fuel` digits before the last.
unfoldable pub digits : ℕ → ℕ → List ℕ → List ℕ
digits zero n later = (b'0' + n % 10) ∷ later
digits (suc fuel) n later = elim (ltb n 10) [
  | true ↦ (b'0' + n) ∷ later
  | false ↦ digits fuel (n / 10) ((b'0' + n % 10) ∷ later)
]

unfoldable pub decimal : ℕ → Text
unfolding digits
decimal n = digits n n []

-- str(value); `repr` is Python's text of a float, a list or a dictionary.
unfoldable pub str_of : (Value → Text) → Value → Text
unfolding decimal
str_of repr (str s) = s
str_of repr (int (pos n)) = decimal n
str_of repr (int (negsuc n)) = b'-' ∷ decimal (suc n)
str_of repr (bool true) = codes "True"
str_of repr (bool false) = codes "False"
str_of repr null = codes "None"
str_of repr (real x) = repr (real x)
str_of repr (arr xs) = repr (arr xs)
str_of repr (obj fs) = repr (obj fs)

-- str(value or default)
unfoldable pub key_or : (Value → Text) → Option Value → Text → Text
unfolding str_of is_truthy
key_or repr none default = default
key_or repr (some v) default = if is_truthy (some v) then str_of repr v else default
