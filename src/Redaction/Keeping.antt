-- ===== src/Redaction/Keeping.antt =====
-- supervisor.py, policy.py: redaction and the search for secrets.
use owlmatic.Prelude.{
  ◌≡◌, refl, ap, Bool, true, false, ◌||◌, ◌&&◌, Text, List, [], ◌∷◌, map, arith, is_none,
}
use owlmatic.Json.{
  Value, null, bool, int, real, str, arr, obj, Items, nil, cons, Fields, end, field,
}
use owlmatic.Texts.{replace-absent}
use owlmatic.Domain.{Check, Evidence}
use owlmatic.Redaction.Defs.{
  text_has_secret, has_secret, has_secret_items, has_secret_fields, clean_text, redacted,
  find_field, merge_field, clean, clean_items, clean_fields, clean_check, clean_evidence,
}

pub clean_text-absent :
    (secrets : List Text) (value : Text)
    → text_has_secret secrets value ≡ false
    → clean_text secrets value ≡ value
unfolding text_has_secret clean_text
clean_text-absent [] value h = refl
clean_text-absent (s ∷ secrets) value h =
    ground (arith, replace-absent s redacted value, clean_text-absent secrets value)

-- The keys of every object in the value are distinct, as in any JSON value that was decoded.
unfoldable mutual
  unfolding find_field

  pub has_distinct_keys : Value → Bool
  has_distinct_keys (arr xs) = items_distinct xs
  has_distinct_keys (obj fs) = fields_distinct fs
  has_distinct_keys null = true
  has_distinct_keys (bool b) = true
  has_distinct_keys (int n) = true
  has_distinct_keys (real x) = true
  has_distinct_keys (str s) = true

  pub items_distinct : Items → Bool
  items_distinct nil = true
  items_distinct (cons x xs) = has_distinct_keys x && items_distinct xs

  pub fields_distinct : Fields → Bool
  fields_distinct end = true
  fields_distinct (field k v fs) =
      is_none (find_field k fs) && has_distinct_keys v && fields_distinct fs

mutual
  unfolding has_secret has_secret_items has_secret_fields clean clean_items clean_fields
      has_distinct_keys items_distinct fields_distinct merge_field

  clean-absent_value :
      (secrets : List Text) (v : Value)
      → has_distinct_keys v ≡ true
      → has_secret secrets v ≡ false
      → clean secrets v ≡ v
  clean-absent_value secrets (str s) d h = ap str (clean_text-absent secrets s h)
  clean-absent_value secrets (arr xs) d h = ap arr (clean-absent_items secrets xs d h)
  clean-absent_value secrets (obj fs) d h = ap obj (clean-absent_fields secrets fs d h)
  clean-absent_value secrets null d h = refl
  clean-absent_value secrets (bool b) d h = refl
  clean-absent_value secrets (int n) d h = refl
  clean-absent_value secrets (real x) d h = refl

  clean-absent_items :
      (secrets : List Text) (xs : Items)
      → items_distinct xs ≡ true
      → has_secret_items secrets xs ≡ false
      → clean_items secrets xs ≡ xs
  clean-absent_items secrets nil d h = refl
  clean-absent_items secrets (cons x xs) d h =
      ground (arith, clean-absent_value secrets x, clean-absent_items secrets xs)

  clean-absent_fields :
      (secrets : List Text) (fs : Fields)
      → fields_distinct fs ≡ true
      → has_secret_fields secrets fs ≡ false
      → clean_fields secrets fs ≡ fs
  clean-absent_fields secrets end d h = refl
  clean-absent_fields secrets (field k v fs) d h = ground (
    arith,
    clean_text-absent secrets k,
    clean-absent_value secrets v,
    clean-absent_fields secrets fs,
  )

-- A JSON value in which the policy finds no secret passes the redaction of evidence unchanged.
pub clean-absent :
    (secrets : List Text) (v : Value)
    → has_distinct_keys v ≡ true
    → has_secret secrets v ≡ false
    → clean secrets v ≡ v
clean-absent secrets v d h = clean-absent_value secrets v d h

-- No name of a check holds a secret.
abbrev pub names_have_secret : List Text → List Check → Bool
names_have_secret secrets [] = false
names_have_secret secrets (c ∷ cs) = text_has_secret secrets c.name || names_have_secret secrets cs

clean_checks-absent :
    (secrets : List Text) (cs : List Check)
    → names_have_secret secrets cs ≡ false
    → map (clean_check secrets) cs ≡ cs
unfolding clean_check
clean_checks-absent secrets [] h = refl
clean_checks-absent secrets (c ∷ cs) h =
    ground (arith, clean_text-absent secrets c.name, clean_checks-absent secrets cs)

-- Evidence whose check names and outputs hold no secret is saved as it was reported.
pub clean_evidence-absent :
    (e : Evidence) (secrets : List Text)
    → fields_distinct e.outputs ≡ true
    → has_secret_fields secrets e.outputs ≡ false
    → names_have_secret secrets e.checks ≡ false
    → clean_evidence e secrets ≡ e
unfolding clean_evidence
clean_evidence-absent e secrets d h n =
    ground
      (arith, clean-absent_fields secrets e.outputs d h, clean_checks-absent secrets e.checks n)
