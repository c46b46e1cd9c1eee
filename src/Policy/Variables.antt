-- ===== src/Policy/Variables.antt =====
-- policy.py `environment_for`: the environment of a workflow process, and its secrets. Names of
-- variables are ASCII texts; the ambient environment is a function.
use owlmatic.Prelude.{
  ℕ, ◌-◌, Bool, true, ◌&&◌, ◌||◌, Text, List, [], ◌∷◌, map, Option, none, some, any, contains,
  length, leb, ltb, ◌==◌, text_eq, if◌then◌else◌, is_empty, ◌++◌,
}
use owlmatic.Errors.{
  Result, ok, err, owl, invalid_profile, missing_credential, invalid_credential, ◌>>=◌,
}
use owlmatic.Domain.{Workflow, Profile}
use owlmatic.Texts.{starts_with, occurs}

abbrev pub Ambient : Type 0
Ambient = Text → Option Text

-- Variables, the latest first, and the values that must not leave the process, each once.
pub record Environment : Type 0 where
  pub values : List (Text × Text)
  pub secrets : List Text

-- values.get(name)
unfoldable pub lookup : Text → List (Text × Text) → Option Text
lookup name [] = none
lookup name ((key, value) ∷ values) = if key == name then some value else lookup name values

abbrev pub reserved_prefix : Text
reserved_prefix = b'O' ∷ b'W' ∷ b'L' ∷ b'M' ∷ b'A' ∷ b'T' ∷ b'I' ∷ b'C' ∷ b'_' ∷ []

abbrev pub credential_prefix : Text
credential_prefix =
    b'O' ∷ b'W' ∷ b'L' ∷ b'M' ∷ b'A' ∷ b'T' ∷ b'I' ∷ b'C' ∷ b'_' ∷ b'C' ∷ b'R' ∷ b'E' ∷ b'D' ∷ b'E'
    ∷ b'N' ∷ b'T' ∷ b'I' ∷ b'A' ∷ b'L' ∷ b'_' ∷ []

abbrev pub path_name : Text
path_name = b'P' ∷ b'A' ∷ b'T' ∷ b'H' ∷ []

abbrev pub default_path : Text
default_path =
    b'/' ∷ b'u' ∷ b's' ∷ b'r' ∷ b'/' ∷ b'l' ∷ b'o' ∷ b'c' ∷ b'a' ∷ b'l' ∷ b'/' ∷ b'b' ∷ b'i' ∷ b'n'
    ∷ b':' ∷ b'/' ∷ b'u' ∷ b's' ∷ b'r' ∷ b'/' ∷ b'b' ∷ b'i' ∷ b'n' ∷ b':' ∷ b'/' ∷ b'b' ∷ b'i'
    ∷ b'n' ∷ []

abbrev pub or_default : Option Text → Text
or_default none = default_path
or_default (some value) = value

abbrev pub initial : Ambient → Environment
initial ambient = record {
  values =
      (path_name, or_default (ambient path_name))
      ∷ (b'L' ∷ b'A' ∷ b'N' ∷ b'G' ∷ [], b'C' ∷ b'.' ∷ b'U' ∷ b'T' ∷ b'F' ∷ b'-' ∷ b'8' ∷ [])
      ∷ (
        b'P' ∷ b'Y' ∷ b'T' ∷ b'H' ∷ b'O' ∷ b'N' ∷ b'D' ∷ b'O' ∷ b'N' ∷ b'T' ∷ b'W' ∷ b'R' ∷ b'I'
            ∷ b'T' ∷ b'E' ∷ b'B' ∷ b'Y' ∷ b'T' ∷ b'E' ∷ b'C' ∷ b'O' ∷ b'D' ∷ b'E' ∷ [],
        b'1' ∷ [],
      )
      ∷ [];
  secrets = [];
}

-- name.startswith("OWLMATIC_") or name in {"PYTHONPATH", "PYTHONHOME"}
unfoldable pub is_reserved : Text → Bool
unfolding starts_with
is_reserved name =
    starts_with reserved_prefix name
    || name == b'P' ∷ b'Y' ∷ b'T' ∷ b'H' ∷ b'O' ∷ b'N' ∷ b'P' ∷ b'A' ∷ b'T' ∷ b'H' ∷ []
    || name == b'P' ∷ b'Y' ∷ b'T' ∷ b'H' ∷ b'O' ∷ b'N' ∷ b'H' ∷ b'O' ∷ b'M' ∷ b'E' ∷ []

-- c.upper(), for ASCII
abbrev pub upper : ℕ → ℕ
upper c = if leb 97 c && leb c 122 then c - 32 else c

unfoldable pub is_sensitive : Text → Bool
unfolding occurs
is_sensitive name =
    any (λ word. occurs word (map upper name))
      ((b'T' ∷ b'O' ∷ b'K' ∷ b'E' ∷ b'N' ∷ [])
        ∷ (b'S' ∷ b'E' ∷ b'C' ∷ b'R' ∷ b'E' ∷ b'T' ∷ [])
        ∷ (b'P' ∷ b'A' ∷ b'S' ∷ b'S' ∷ b'W' ∷ b'O' ∷ b'R' ∷ b'D' ∷ [])
        ∷ (b'K' ∷ b'E' ∷ b'Y' ∷ [])
        ∷ [])

-- secrets.add(value)
abbrev pub add : Text → List Text → List Text
add value secrets = if contains value secrets then secrets else value ∷ secrets

abbrev pub with_value : Text → Text → Bool → Environment → Environment
with_value name value secret e = record {
  values = (name, value) ∷ e.values;
  secrets = if secret then add value e.secrets else e.secrets;
}

abbrev pub inherit_one : Text → Option Text → Environment → Environment
inherit_one name none e = e
inherit_one name (some value) e = with_value name value (is_sensitive name) e

-- for name in profile.env
unfoldable pub inherit : Ambient → List Text → Environment → Result Environment
unfolding is_reserved is_sensitive
inherit ambient [] e = ok e
inherit ambient (name ∷ names) e =
    if is_reserved name
    then err (owl invalid_profile)
    else inherit ambient names (inherit_one name (ambient name) e)

-- re.sub(r"[^A-Z0-9]", "_", binding.upper())
abbrev pub normal : ℕ → ℕ
normal c = if (leb 65 c && leb c 90) || (leb 48 c && leb c 57) then c else b'_'

unfoldable pub target_of : Text → Text
target_of binding = credential_prefix ++ map (λ c. normal (upper c)) binding

-- ambient.get(source), and a missing or empty one is none
abbrev pub present : Option Text → Option Text
present none = none
present (some []) = none
present (some (c ∷ value)) = some (c ∷ value)

abbrev pub value_of : Ambient → Option Text → Option Text
value_of ambient none = none
value_of ambient (some source) = present (ambient source)

unfoldable pub bind_value : Text → Option Text → List Text → Environment → Result Environment
bind_value target none names e = err (owl missing_credential)
bind_value target (some value) names e =
    if contains target names
    then err (owl invalid_credential)
    else ok (with_value target value true e)

-- for binding in workflow.manifest.credentials
unfoldable pub bind : Ambient → Profile → List Text → List Text → Environment → Result Environment
unfolding lookup target_of bind_value
bind ambient profile [] names e = ok e
bind ambient profile (binding ∷ bindings) names e = do
  let target = target_of binding
  let value = value_of ambient (present (lookup binding profile.credentials))
  bound ← bind_value target value names e
  bind ambient profile bindings (target ∷ names) bound

unfoldable pub insert_secret : Text → List Text → List Text
insert_secret s [] = s ∷ []
insert_secret s (t ∷ secrets) =
    if ltb (length s) (length t) then t ∷ insert_secret s secrets else s ∷ t ∷ secrets

-- sorted((s for s in secrets if s), key=len, reverse=True)
unfoldable pub longest_first : List Text → List Text
unfolding insert_secret
longest_first [] = []
longest_first (s ∷ secrets) =
    if is_empty s then longest_first secrets else insert_secret s (longest_first secrets)

abbrev pub with_sorted : Environment → Environment
with_sorted e = record e { secrets = longest_first e.secrets }

unfoldable pub environment_for : Workflow → Profile → Ambient → Result Environment
unfolding inherit bind longest_first
environment_for workflow profile ambient = do
  inherited ← inherit ambient profile.env (initial ambient)
  bound ← bind ambient profile workflow.manifest.credentials [] inherited
  ok (with_sorted bound)
