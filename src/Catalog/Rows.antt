-- ===== src/Catalog/Rows.antt =====
-- infrastructure/sqlite.py `SqliteWorkflows`: the tables `workflows` and `workflow_search`. How well
-- a row of the search table matches a query, if it does, is SQLite's FTS5 (`rank`, the best first).
use Prim.Native.Nat.{Ordering}
use Prim.Native.String.{compare}
use owlmatic.Prelude.{
  ℕ, Bool, true, false, ◌&&◌, ◌||◌, not, String, Option, none, some, is_some, is_empty, List, [],
  ◌∷◌, ltb, any, contains, take, drop, select, map, ◌==◌, string_eq, option_eq, if◌then◌else◌,
}
use owlmatic.Errors.{Result, ok, err, owl, workflow_not_found}
use owlmatic.Domain.{Workflow}

pub record Entry : Type 0 where
  pub ref : String
  pub catalog : String
  pub id : String
  pub workflow : Workflow
  pub active : Bool

pub record Indexed : Type 0 where
  pub ref : String
  pub name : String
  pub description : String
  pub aliases : List String
  pub examples : List String

pub record Tables : Type 0 where
  pub workflows : List Entry
  pub index : List Indexed

unfoldable pub find_entry : String → List Entry → Option Entry
find_entry ref [] = none
find_entry ref (e ∷ entries) = if e.ref == ref then some e else find_entry ref entries

abbrev pub found : Option Entry → Result Workflow
found none = err (owl workflow_not_found)
found (some e) = ok e.workflow

unfoldable pub get : String → Tables → Result Workflow
unfolding find_entry
get ref t = found (find_entry ref t.workflows)

-- UPDATE workflows SET active=0 WHERE catalog=?
unfoldable pub deactivate : String → List Entry → List Entry
deactivate name [] = []
deactivate name (e ∷ entries) =
    (if e.catalog == name then record e { active = false } else e) ∷ deactivate name entries

-- ref IN (SELECT ref FROM workflows WHERE catalog=?)
abbrev pub is_in_catalog : String → List Entry → Indexed → Bool
is_in_catalog name entries x = any (λ e. e.ref == x.ref && e.catalog == name) entries

abbrev pub new_entry : String → Workflow → Bool → Entry
new_entry name w active = record {
  ref = w.ref;
  catalog = name;
  id = w.id;
  workflow = w;
  active = active;
}

-- INSERT ... ON CONFLICT(ref) DO UPDATE SET active=1,data=excluded.data
unfoldable pub store_workflow : String → Workflow → List Entry → List Entry
store_workflow name w [] = new_entry name w true ∷ []
store_workflow name w (e ∷ entries) =
    let rest = store_workflow name w entries in
    if e.ref == w.ref then record e { active = true; workflow = w } ∷ entries else e ∷ rest

abbrev pub indexed : Workflow → Indexed
indexed w = record {
  ref = w.ref;
  name = w.id;
  description = w.manifest.description;
  aliases = w.manifest.aliases;
  examples = w.manifest.examples;
}

unfoldable pub store_all : String → List Workflow → Tables → Tables
unfolding store_workflow
store_all name [] t = t
store_all name (w ∷ workflows) t =
    store_all name workflows
      (record { workflows = store_workflow name w t.workflows; index = indexed w ∷ t.index })

unfoldable pub replace_catalog : String → List Workflow → Tables → Tables
unfolding deactivate store_all
replace_catalog name workflows t = store_all name workflows (record {
  workflows = deactivate name t.workflows;
  index = select (λ x. not (is_in_catalog name t.workflows x)) t.index;
})

abbrev pub ignored : Option Entry → Entry → List Entry → List Entry
ignored none e entries = e ∷ entries
ignored (some old) e entries = entries

-- INSERT OR IGNORE
unfoldable pub add_draft : Workflow → Tables → Tables
unfolding find_entry
add_draft w t = record t {
  workflows = ignored (find_entry w.ref t.workflows) (new_entry w.catalog w false) t.workflows;
}

pub record Query : Type 0 where
  pub query : String
  pub environment : Option String
  pub repository : Option String
  pub platform : Option String
  pub limit : ℕ
  pub offset : ℕ

abbrev pub offers : Option String → List String → Bool
offers none names = true
offers (some n) names = contains n names

abbrev pub same_repository : Option String → Option String → Bool
same_repository none own = true
same_repository (some r) none = true
same_repository (some r) (some own) = own == r

abbrev pub supports : Option String → List String → Bool
supports none platforms = true
supports (some p) platforms = is_empty platforms || contains p platforms

-- w.id=? OR w.ref=?
abbrev pub is_exact : Query → Entry → Bool
is_exact q e = e.id == q.query || e.ref == q.query

-- The WHERE clause; `score` is the row's rank in the search table.
unfoldable pub is_selected : Query → Entry → Option ℕ → Bool
is_selected q e score =
    let m = e.workflow.manifest in
    e.active
    && (is_exact q e || is_some score)
    && offers q.environment m.environments
    && same_repository q.repository m.requirements.repository
    && supports q.platform m.requirements.platforms

abbrev pub Rank : Type 0
Rank = String → List Indexed → String → Option ℕ

-- The rows that the query selects, with their ranks.
unfoldable pub select_rows : Rank → Query → List Indexed → List Entry → List (Option ℕ × Entry)
unfolding is_selected
select_rows rank q index [] = []
select_rows rank q index (e ∷ entries) =
    let rest = select_rows rank q index entries in
    let score = rank q.query index e.ref in
    if is_selected q e score then (score, e) ∷ rest else rest

-- NULL is before any score.
abbrev pub score_below : Option ℕ → Option ℕ → Bool
score_below none none = false
score_below none (some b) = true
score_below (some a) none = false
score_below (some a) (some b) = ltb a b

abbrev pub text_below : String → String → Bool
text_below a b = elim (compare a b) [ Ordering.lt ↦ true | _ ↦ false ]

-- ORDER BY CASE WHEN w.id=? OR w.ref=? THEN 0 ELSE 1 END, r.score, w.ref
unfoldable pub is_below : Query → Option ℕ × Entry → Option ℕ × Entry → Bool
is_below q (s, a) (t, b) =
    if is_exact q a
    then (if is_exact q b
        then score_below s t || (not (score_below t s) && text_below a.ref b.ref)
        else true)
    else (if is_exact q b
        then false
        else score_below s t || (not (score_below t s) && text_below a.ref b.ref))

unfoldable pub insert_row :
    Query → Option ℕ × Entry → List (Option ℕ × Entry) → List (Option ℕ × Entry)
unfolding is_below
insert_row q x [] = x ∷ []
insert_row q x (y ∷ rows) =
    let rest = insert_row q x rows in if is_below q x y then x ∷ y ∷ rows else y ∷ rest

unfoldable pub sort_rows : Query → List (Option ℕ × Entry) → List (Option ℕ × Entry)
unfolding insert_row
sort_rows q [] = []
sort_rows q (x ∷ rows) = insert_row q x (sort_rows q rows)

-- ... LIMIT ? OFFSET ?
unfoldable pub search : Rank → Query → Tables → List Workflow
unfolding select_rows sort_rows
search rank q t =
    map (λ row. row.1.workflow)
      (take q.limit (drop q.offset (sort_rows q (select_rows rank q t.index t.workflows))))
