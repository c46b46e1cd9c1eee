-- ===== src/Tests/CatalogTests.antt =====
-- Catalogs at concrete inputs.
use owlmatic.Prelude.{
  ◌+◌, ◌*◌, ◌≡◌, refl, true, false, String, none, some, List, [], ◌∷◌, All, contains, length, codes,
  string_eq,
}
use owlmatic.Errors.{ok}
use owlmatic.Domain.{Profile}
use owlmatic.Catalog.{
  Settings, Catalogs, CatalogSource, CatalogKind, CatalogPort, Candidate, SearchRequest,
  SearchResult, Entry, Tables, Query, find_profile, find_entry, get, find, replace_catalog,
  query_of, names_of,
}
use owlmatic.Catalog.Replacing.{IsStored, resting, replace_catalog-get}
use owlmatic.Catalog.Finding.{IsSelection, find-ok}
use owlmatic.Catalog.Refinement.{
  Change, replace, draft, view, intended_all, apply_all, apply_all-intended,
}
use owlmatic.Tests.EvidenceTests.{a_workflow}

abbrev old_entry : Entry
old_entry = record {
  ref = "team/old@1";
  catalog = "team";
  id = "old";
  workflow = record a_workflow { ref = "team/old@1"; id = "old" };
  active = true;
}

abbrev some_tables : Tables
some_tables = record { workflows = old_entry ∷ []; index = [] }

abbrev listed : Tables
listed = replace_catalog "team" (a_workflow ∷ []) some_tables

abbrev default_profile : Profile
default_profile = record {
  environments = [];
  grants = "team/old@1" ∷ [];
  env = [];
  credentials = [];
  max_timeout_seconds = 60;
  max_log_bytes = 1000;
}

abbrev some_settings : Settings
some_settings = record {
  catalogs = [];
  retention_days = 30;
  profiles = ("default", default_profile) ∷ [];
}

abbrev before_trust : Catalogs
before_trust = record { settings = some_settings; tables = some_tables }

abbrev after_trust : Catalogs
after_trust = record before_trust {
  settings = record some_settings {
    profiles = ("default", record default_profile { grants = [] }) ∷ [];
  };
}

replace_catalog-get_example :
    All (λ w. get w.ref listed ≡ ok w) (a_workflow ∷ [])
    × All (IsStored listed) (a_workflow ∷ [])
    × ((ref : String)
        → contains ref (a_workflow.ref ∷ []) ≡ false
        → get ref listed ≡ get ref some_tables)
    × ((ref : String) (e : Entry)
        → contains ref (a_workflow.ref ∷ []) ≡ false
        → find_entry ref some_tables.workflows ≡ some e
        → find_entry ref listed.workflows ≡ some (resting "team" e))
replace_catalog-get_example = replace_catalog-get "team" (a_workflow ∷ []) some_tables refl

abbrev some_changes : List Change
some_changes =
    replace "team" (a_workflow ∷ [])
    ∷ draft (record a_workflow { ref = "mine/new@1"; catalog = "mine" })
    ∷ replace "team" []
    ∷ []

apply_all-intended_example :
    (view (apply_all some_changes some_tables) "mine/new@1"
      ≡ intended_all some_changes (view some_tables) "mine/new@1")
    × (get "mine/new@1" (apply_all some_changes some_tables)
        ≡ owlmatic.Catalog.found (intended_all some_changes (view some_tables) "mine/new@1"))
apply_all-intended_example = apply_all-intended some_changes some_tables "mine/new@1"

abbrev a_port : CatalogPort
a_port = record {
  read = λ c. ok ([], none);
  urlparse = λ s. record {
    is_https = true;
    username = false;
    password = false;
    query = false;
    fragment = false;
  };
  workspace_exists = λ s. false;
  platform = "linux";
  rank = λ query index ref. some 1;
  size = λ r. 20 + 100 * length r.results;
}

abbrev a_search : SearchRequest
a_search = record {
  query = codes "old";
  environment = none;
  repository = none;
  profile = "default";
  limit = 2;
}

abbrev a_candidate : Candidate
a_candidate = record {
  ref = "team/old@1";
  description = old_entry.workflow.manifest.description;
  environments = old_entry.workflow.manifest.environments;
  effects = old_entry.workflow.manifest.effects;
  required_inputs = [];
  trusted = true;
  details_required = false;
}

abbrev a_selection : SearchResult
a_selection = record { results = a_candidate ∷ []; more = false }

found_old : find a_port a_search before_trust ≡ (ok a_selection, before_trust)
unfolding find
found_old = refl

find-ok_example :
    (before_trust ≡ before_trust)
    × (p : Profile) × (find_profile "default" before_trust.settings.profiles ≡ some p)
    × IsSelection a_port some_tables 2 (query_of a_port a_search) p a_selection.results
find-ok_example = find-ok a_port a_search before_trust before_trust a_selection found_old
