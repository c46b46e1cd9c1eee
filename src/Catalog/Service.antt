-- ===== src/Catalog/Service.antt =====
-- catalog_service.py. Reading a source (a directory or a Git repository), parsing an URL, ranking
-- rows and the length of an encoded result are ports.
use owlmatic.Prelude.{
  ℕ, ◌+◌, Bool, true, false, ◌&&◌, ◌||◌, not, String, Text, Option, none, some, List, [], ◌∷◌, ◌++◌,
  map, any, all, contains, select, distinct, length, ltb, leb, codes, ◌==◌, string_eq, text_eq,
  nat_eq, if◌then◌else◌,
}
use owlmatic.Prelude.Texts.{string_of}
use owlmatic.Errors.{
  Result, ok, err, owl, raise_if, catalog_exists, invalid_source, secret_in_url, catalog_not_found,
  duplicate_id, invalid_profile, invalid_query,
}
use owlmatic.Actions.{Action, pure, lift, ◌>>=◌, ◌>>◌}
use owlmatic.Json.{Value, null, bool, int, real, str, arr, obj, Items, nil, cons}
use owlmatic.Redaction.{find_field}
use owlmatic.Texts.{starts_with}
use owlmatic.Domain.{Workflow, Profile, with_grants}
use owlmatic.Catalog.Registry.{
  CatalogKind, CatalogSource, Settings, at_revision, with_catalogs, with_profile, find_profile,
}
use owlmatic.Catalog.Rows.{Tables, Query, Rank, get, replace_catalog, search}

pub record Catalogs : Type 0 where
  pub settings : Settings
  pub tables : Tables

-- What `urlparse` finds: whether the parts are there and not empty.
pub record Url : Type 0 where
  pub is_https : Bool
  pub username : Bool
  pub password : Bool
  pub query : Bool
  pub fragment : Bool

-- domain.py `Candidate` and `SearchResult`
pub record Candidate : Type 0 where
  pub ref : String
  pub description : String
  pub environments : List String
  pub effects : List String
  pub required_inputs : List String
  pub trusted : Bool
  pub details_required : Bool

pub record SearchResult : Type 0 where
  pub results : List Candidate
  pub more : Bool

pub record SearchRequest : Type 0 where
  pub query : Text
  pub environment : Option String
  pub repository : Option String
  pub profile : String
  pub limit : ℕ

pub record CatalogPort : Type 0 where
  pub read : CatalogSource → Result (List Workflow × Option String)
  pub urlparse : Text → Url
  pub workspace_exists : Text → Bool
  pub platform : String
  pub rank : Rank
  pub size : SearchResult → ℕ

-- messages.py `CatalogReport`
pub record CatalogReport : Type 0 where
  pub catalog : String
  pub workflows : ℕ
  pub revision : Option String

abbrev pub is_named : String → CatalogSource → Bool
is_named name c = c.name == name

abbrev pub is_option : Option Text → Bool
is_option none = false
is_option (some []) = false
is_option (some (c ∷ s)) = c == b'-'

unfoldable pub check_url : CatalogPort → CatalogSource → Result (Unit {0})
unfolding starts_with
check_url port c = elim c.kind [
  | CatalogKind.local ↦ ok tt
  | CatalogKind.git ↦
      let url = port.urlparse c.source in
      if url.password || url.query || url.fragment || (url.is_https && url.username)
      then err (owl secret_in_url)
      else raise_if
          (not (
            starts_with (codes "https://") c.source
            || starts_with (codes "ssh://") c.source
            || starts_with (codes "git@") c.source
            || port.workspace_exists c.source))
          invalid_source
]

-- `_unique`
unfoldable pub check_ids : List Workflow → Result (Unit {0})
check_ids workflows = raise_if (not (distinct (map (λ w. w.id) workflows))) duplicate_id

-- The `change` that `add` gives to `settings.update`.
unfoldable pub register : CatalogSource → CatalogSource → List Workflow → Action Catalogs (Unit {0})
unfolding replace_catalog with_catalogs
register c updated workflows s =
    if any (is_named c.name) s.settings.catalogs then (err (owl catalog_exists), s) else (
      ok tt,
      record {
        settings = with_catalogs s.settings (s.settings.catalogs ++ updated ∷ []);
        tables = replace_catalog c.name workflows s.tables;
      },
    )

abbrev pub catalogs_of : Catalogs → Result (List CatalogSource) × Catalogs
catalogs_of s = (ok s.settings.catalogs, s)

-- `list`
unfoldable pub list_catalogs : Action Catalogs (List CatalogSource)
list_catalogs = catalogs_of

-- `describe`
unfoldable pub describe : String → Action Catalogs Workflow
unfolding get
describe ref s = (get ref s.tables, s)

unfoldable pub find_catalog : String → List CatalogSource → Option CatalogSource
find_catalog name [] = none
find_catalog name (c ∷ catalogs) = if c.name == name then some c else find_catalog name catalogs

abbrev pub the_catalog : Option CatalogSource → Result CatalogSource
the_catalog none = err (owl catalog_not_found)
the_catalog (some c) = ok c

-- Every catalog of the name is now at the revision.
unfoldable pub move_to : String → Option String → List CatalogSource → List CatalogSource
unfolding at_revision
move_to name revision [] = []
move_to name revision (c ∷ catalogs) =
    (if c.name == name then at_revision c revision else c) ∷ move_to name revision catalogs

abbrev pub write : (Catalogs → Catalogs) → Action Catalogs (Unit {0})
write change s = (ok tt, change s)

module _ (port : CatalogPort) where
  unfoldable pub add : CatalogSource → Action Catalogs CatalogReport
  unfolding check_url check_ids register at_revision
  add c = do
    catalogs ← catalogs_of
    lift (raise_if (any (is_named c.name) catalogs) catalog_exists)
    lift (raise_if (is_option (some c.source) || is_option c.revision) invalid_source)
    lift (check_url port c)
    (workflows, revision) ← lift (port.read c)
    lift (check_ids workflows)
    register c (at_revision c revision) workflows
    pure (record { catalog = c.name; workflows = length workflows; revision = revision })

  unfoldable pub sync : String → Action Catalogs CatalogReport
  unfolding find_catalog check_ids replace_catalog with_catalogs move_to
  sync name = do
    catalogs ← catalogs_of
    c ← lift (the_catalog (find_catalog name catalogs))
    (workflows, revision) ← lift (port.read c)
    lift (check_ids workflows)
    write (λ s. record s { tables = replace_catalog name workflows s.tables })
    write (λ s. record s {
      settings = with_catalogs s.settings (move_to name revision s.settings.catalogs);
    })
    pure (record { catalog = name; workflows = length workflows; revision = revision })

-- tuple(g for g in p.grants if g != ref), and ref unless it is revoked
unfoldable pub new_grants : String → Bool → List String → List String
new_grants ref revoke grants =
    let others = select (λ g. not (g == ref)) grants in
    if revoke then others else others ++ ref ∷ []

unfoldable pub grant :
    String → String → Bool → Option Profile → Catalogs → Result (Unit {0}) × Catalogs
unfolding with_grants new_grants with_profile
grant ref name revoke none s = (err (owl invalid_profile), s)
grant ref name revoke (some p) s = (
  ok tt,
  record s {
    settings = with_profile s.settings name (with_grants p (new_grants ref revoke p.grants));
  },
)

unfoldable pub change_trust : String → String → Bool → Action Catalogs (Unit {0})
unfolding find_profile grant
change_trust ref name revoke s = grant ref name revoke (find_profile name s.settings.profiles) s

unfoldable pub trust : String → String → Bool → Action Catalogs (Unit {0})
unfolding describe change_trust
trust ref name revoke = do w ← describe ref; change_trust ref name revoke

-- tuple(v for v in required if isinstance(v, str))
unfoldable pub texts_of : Items → List String
unfolding string_of
texts_of nil = []
texts_of (cons (str s) items) = string_of s ∷ texts_of items
texts_of (cons null items) = texts_of items
texts_of (cons (bool b) items) = texts_of items
texts_of (cons (int n) items) = texts_of items
texts_of (cons (real x) items) = texts_of items
texts_of (cons (arr xs) items) = texts_of items
texts_of (cons (obj fs) items) = texts_of items

unfoldable pub names_of : Option Value → List String
unfolding texts_of
names_of (some (arr items)) = texts_of items
names_of (some null) = []
names_of (some (bool b)) = []
names_of (some (int n)) = []
names_of (some (real x)) = []
names_of (some (str s)) = []
names_of (some (obj fs)) = []
names_of none = []

unfoldable pub candidate : Profile → Workflow → Candidate
unfolding names_of find_field
candidate p w = record {
  ref = w.ref;
  description = w.manifest.description;
  environments = w.manifest.environments;
  effects = w.manifest.effects;
  required_inputs = names_of (find_field (codes "required") w.input_schema);
  trusted = contains w.ref p.grants;
  details_required = false;
}

unfoldable pub shortened : Candidate → Candidate
shortened c = record {
  ref = c.ref;
  description = c.description;
  environments = [];
  effects = [];
  required_inputs = [];
  trusted = c.trusted;
  details_required = true;
}

abbrev pub with_more : List Candidate → SearchResult
with_more results = record { results = results; more = true }

-- str.isspace() of one code point
abbrev pub is_space : ℕ → Bool
is_space c =
    (leb 9 c && leb c 13)
    || (leb 28 c && leb c 32)
    || c == 133
    || c == 160
    || c == 5760
    || (leb 8192 c && leb c 8202)
    || (leb 8232 c && leb c 8233)
    || c == 8239
    || c == 8287
    || c == 12288

-- not query.strip()
unfoldable pub is_blank : Text → Bool
is_blank s = all is_space s

abbrev pub the_profile : Option Profile → Result Profile
the_profile none = err (owl invalid_profile)
the_profile (some p) = ok p

module _ (port : CatalogPort) where
  unfoldable pub fitted : Candidate → Candidate
  unfolding shortened
  fitted c = if ltb 2048 (port.size (with_more (c ∷ []))) then shortened c else c

  -- for candidate in candidates: ...
  unfoldable pub pick : ℕ → List Candidate → List Candidate → List Candidate
  unfolding fitted
  pick limit [] selected = selected
  pick limit (c ∷ candidates) selected = pick limit candidates (
      if ltb (length selected) limit && leb (port.size (with_more (selected ++ fitted c ∷ []))) 2048
      then selected ++ fitted c ∷ []
      else selected)

  unfoldable pub query_of : SearchRequest → Query
  unfolding string_of
  query_of r = record {
    query = string_of r.query;
    environment = r.environment;
    repository = r.repository;
    platform = some port.platform;
    limit = r.limit + 1;
    offset = 0;
  }

  unfoldable pub find : SearchRequest → Action Catalogs SearchResult
  unfolding find_profile search candidate pick is_blank query_of
  find r = do
    lift (raise_if (is_blank r.query) invalid_query)
    p ← (λ s. (the_profile (find_profile r.profile s.settings.profiles), s))
    found ← (λ s. (ok (search port.rank (query_of r) s.tables), s))
    let candidates = map (candidate p) found
    let selected = pick r.limit candidates []
    pure (record { results = selected; more = ltb (length selected) (length candidates) })
