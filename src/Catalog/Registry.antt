-- ===== src/Catalog/Registry.antt =====
-- domain.py `Catalog` and `Settings`, and infrastructure/files.py `FileSettings`: the lock on the
-- file makes `update` one step.
use owlmatic.Prelude.{
  ℕ, String, Text, Option, none, some, List, [], ◌∷◌, ◌==◌, string_eq, if◌then◌else◌,
}
use owlmatic.Domain.{Profile}

pub data CatalogKind : Type 0 where
  local git : CatalogKind

pub record CatalogSource : Type 0 where
  pub name : String
  pub kind : CatalogKind
  pub source : Text
  pub revision : Option Text
  pub resolved : Option String

unfoldable pub at_revision : CatalogSource → Option String → CatalogSource
at_revision c resolved = record {
  name = c.name;
  kind = c.kind;
  source = c.source;
  revision = c.revision;
  resolved = resolved;
}

pub record Settings : Type 0 where
  pub catalogs : List CatalogSource
  pub retention_days : ℕ
  pub profiles : List (String × Profile)

unfoldable pub with_catalogs : Settings → List CatalogSource → Settings
with_catalogs s catalogs = record {
  catalogs = catalogs;
  retention_days = s.retention_days;
  profiles = s.profiles;
}

unfoldable pub find_profile : String → List (String × Profile) → Option Profile
find_profile name [] = none
find_profile name ((n, p) ∷ profiles) = if n == name then some p else find_profile name profiles

-- {**profiles, name: profile}
unfoldable pub put_profile : String → Profile → List (String × Profile) → List (String × Profile)
put_profile name profile [] = (name, profile) ∷ []
put_profile name profile ((n, p) ∷ profiles) =
    let rest = put_profile name profile profiles in
    if n == name then (name, profile) ∷ profiles else (n, p) ∷ rest

unfoldable pub with_profile : Settings → String → Profile → Settings
unfolding put_profile
with_profile s name profile = record {
  catalogs = s.catalogs;
  retention_days = s.retention_days;
  profiles = put_profile name profile s.profiles;
}
