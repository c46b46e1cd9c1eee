-- ===== src/Host/Decoding.antt =====
-- infrastructure/measurement/decoding.py: the typed readers of a host's JSON.
use owlmatic.Prelude.{
  ℕ, ◌+◌, Bool, true, false, not, String, Text, Option, none, some, is_some, List, [], ◌∷◌, all,
  sum_by, leb, ltb, ◌&&◌, ◌||◌, ◌==◌, text_eq, nat_eq, any, codes, is_empty, if◌then◌else◌,
}
use owlmatic.Prelude.Int.{pos, negsuc}
use owlmatic.Json.{Value, null, bool, int, real, str, arr, obj, nil, cons, Fields, end, field}
use owlmatic.Errors.{Result, ok, err, value_error, unexpected, ◌>>=◌}
use owlmatic.Redaction.{find_field}
use owlmatic.Measurement.{TokenUsage, subsets, or_zero}

-- value.get(key)
unfoldable pub get : String → Fields → Option Value
unfolding find_field
get key fs = find_field (codes key) fs

unfoldable pub object_value : Option Value → Fields
object_value (some (obj fs)) = fs
object_value (some null) = end
object_value (some (bool b)) = end
object_value (some (int n)) = end
object_value (some (real x)) = end
object_value (some (str s)) = end
object_value (some (arr xs)) = end
object_value none = end

unfoldable pub text_value : Option Value → Option Text
text_value (some (str s)) = some s
text_value (some null) = none
text_value (some (bool b)) = none
text_value (some (int n)) = none
text_value (some (real x)) = none
text_value (some (arr xs)) = none
text_value (some (obj fs)) = none
text_value none = none

unfoldable pub number : Option Value → Result ℕ
number (some (int (pos n))) = ok n
number (some (int (negsuc n))) = err value_error
number (some null) = err value_error
number (some (bool b)) = err value_error
number (some (real x)) = err value_error
number (some (str s)) = err value_error
number (some (arr xs)) = err value_error
number (some (obj fs)) = err value_error
number none = err value_error

-- number(value[key]) if key in value else None
unfoldable pub optional_number : Option Value → Result (Option ℕ)
unfolding number
optional_number none = ok none
optional_number (some v) = do n ← number (some v); ok (some n)

unfoldable pub usage : Fields → Bool → Result TokenUsage
unfolding get number optional_number subsets
usage value claude = do
  incoming ← number (get "input_tokens" value)
  cached ←
      optional_number
        (get (if claude then "cache_read_input_tokens" else "cached_input_tokens") value)
  writes ←
      optional_number
        (get (if claude then "cache_creation_input_tokens" else "cache_write_input_tokens") value)
  output ← number (get "output_tokens" value)
  reasoning ← optional_number (get "reasoning_output_tokens" value)
  subsets (record {
    input_tokens = if claude then incoming + or_zero cached + or_zero writes else incoming;
    cached_input_tokens = cached;
    cache_write_input_tokens = writes;
    output_tokens = output;
    reasoning_output_tokens = reasoning;
  })

-- sum(f(v) or 0 for v in values) if all(f(v) is not None for v in values) else None
unfoldable pub sum_known : (TokenUsage → Option ℕ) → List TokenUsage → Option ℕ
sum_known f values =
    if all (λ v. is_some (f v)) values then some (sum_by (λ v. or_zero (f v)) values) else none

unfoldable pub total_of : List TokenUsage → TokenUsage
unfolding sum_known
total_of values = record {
  input_tokens = sum_by (λ v. v.input_tokens) values;
  output_tokens = sum_by (λ v. v.output_tokens) values;
  cached_input_tokens = sum_known (λ v. v.cached_input_tokens) values;
  cache_write_input_tokens = sum_known (λ v. v.cache_write_input_tokens) values;
  reasoning_output_tokens = sum_known (λ v. v.reasoning_output_tokens) values;
}

unfoldable pub total : List TokenUsage → Result (Option TokenUsage)
unfolding subsets total_of
total [] = ok none
total (v ∷ values) = do u ← subsets (total_of (v ∷ values)); ok (some u)

-- value == name
unfoldable pub says : String → Option Value → Bool
says name (some (str s)) = s == codes name
says name (some null) = false
says name (some (bool b)) = false
says name (some (int n)) = false
says name (some (real x)) = false
says name (some (arr xs)) = false
says name (some (obj fs)) = false
says name none = false

-- value in {"...", ...}: a list or an object is not hashable, and the test raises a `TypeError`.
unfoldable pub one_of : List String → Option Value → Result Bool
unfolding says
one_of names (some (arr xs)) = err unexpected
one_of names (some (obj fs)) = err unexpected
one_of names (some (str s)) = ok (any (λ name. says name (some (str s))) names)
one_of names (some null) = ok false
one_of names (some (bool b)) = ok false
one_of names (some (int n)) = ok false
one_of names (some (real x)) = ok false
one_of names none = ok false

-- isinstance(value, str)
unfoldable pub is_text : Option Value → Bool
unfolding text_value
is_text v = is_some (text_value v)

abbrev pub is_digit_1_to_9 : ℕ → Bool
is_digit_1_to_9 c = leb b'1' c && leb c b'9'

-- The literal of a number that is not 0: a digit before the exponent is not 0.
abbrev pub is_nonzero : Text → Bool
is_nonzero [] = false
is_nonzero (c ∷ x) = elim (c == b'e' || c == b'E') [
  | true ↦ false
  | false ↦ is_digit_1_to_9 c || is_nonzero x
]

-- bool(value)
unfoldable pub is_truthy : Option Value → Bool
is_truthy none = false
is_truthy (some null) = false
is_truthy (some (bool b)) = b
is_truthy (some (int (pos n))) = ltb 0 n
is_truthy (some (int (negsuc n))) = true
is_truthy (some (real x)) = is_nonzero x
is_truthy (some (str s)) = not (is_empty s)
is_truthy (some (arr nil)) = false
is_truthy (some (arr (cons x xs))) = true
is_truthy (some (obj end)) = false
is_truthy (some (obj (field k v fs))) = true
