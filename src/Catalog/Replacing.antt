-- ===== src/Catalog/Replacing.antt =====
-- infrastructure/sqlite.py `replace_catalog` and `add_draft`.
use owlmatic.Prelude.{
  select, ◌∙◌, ◌≡◌, refl, ap, true, false, not, String, Option, none, some, List, [], ◌∷◌, map, All,
  All-mono, contains, distinct, arith, eq_iff, ◌==◌, string_eq, if◌then◌else◌,
}
use owlmatic.Errors.{ok}
use owlmatic.Domain.{Workflow}
use owlmatic.Catalog.Rows.{
  Entry, Tables, find_entry, get, deactivate, is_in_catalog, new_entry, store_workflow, indexed,
  store_all, replace_catalog,
}

-- The entry that a workflow gets: an old one keeps its catalog.
abbrev pub stored : String → Workflow → Option Entry → Entry
stored name w none = new_entry name w true
stored name w (some e) = record e { active = true; workflow = w }

pub find_entry-store :
    (name ref : String) (w : Workflow) (entries : List Entry)
    → find_entry ref (store_workflow name w entries) ≡ (
        if w.ref == ref
        then some (stored name w (find_entry ref entries))
        else find_entry ref entries)
unfolding find_entry store_workflow
find_entry-store name ref w [] = ground arith
find_entry-store name ref w (e ∷ entries) = ground (
  arith,
  eq_iff e.ref w.ref,
  eq_iff e.ref ref,
  eq_iff w.ref ref,
  find_entry-store name ref w entries,
)

abbrev pub resting : String → Entry → Entry
resting name e = if e.catalog == name then record e { active = false } else e

pub find_entry-deactivate :
    (name ref : String) (entries : List Entry)
    → find_entry ref (deactivate name entries)
      ≡ (elim (find_entry ref entries) [ none ↦ none | some e ↦ some (resting name e) ])
unfolding find_entry deactivate
find_entry-deactivate name ref [] = refl
find_entry-deactivate name ref (e ∷ entries) =
    ground (arith, find_entry-deactivate name ref entries)

-- A workflow that is not among those stored keeps its entry.
find_entry-store_all_ne :
    (name ref : String) (workflows : List Workflow) (t : Tables)
    → contains ref (map (λ w. w.ref) workflows) ≡ false
    → find_entry ref (store_all name workflows t).workflows ≡ find_entry ref t.workflows
unfolding store_all
find_entry-store_all_ne name ref [] t h = refl
find_entry-store_all_ne name ref (w ∷ workflows) t h =
    let t' : Tables = record {
      workflows = store_workflow name w t.workflows;
      index = indexed w ∷ t.index;
    } in
    ground (
      arith,
      eq_iff w.ref ref,
      find_entry-store name ref w t.workflows,
      find_entry-store_all_ne name ref workflows t',
    )

abbrev pub IsStored : Tables → Workflow → Type 0
IsStored t w =
    (e : Entry) × (find_entry w.ref t.workflows ≡ some e) × (e.workflow ≡ w) × (e.active ≡ true)

store_all-IsStored :
    (name : String) (workflows : List Workflow) (t : Tables)
    → distinct (map (λ w. w.ref) workflows) ≡ true
    → All (IsStored (store_all name workflows t)) workflows
unfolding store_all
store_all-IsStored name [] t h = tt
store_all-IsStored name (w ∷ workflows) t h =
    let t' : Tables = record {
      workflows = store_workflow name w t.workflows;
      index = indexed w ∷ t.index;
    } in
    let new : contains w.ref (map (λ x. x.ref) workflows) ≡ false = ground arith in
    let e = stored name w (find_entry w.ref t.workflows) in
    let there : find_entry w.ref t'.workflows ≡ some e =
      ground (arith, eq_iff w.ref w.ref, find_entry-store name w.ref w t.workflows) in
    (
      (e, find_entry-store_all_ne name w.ref workflows t' new ∙ there, ground arith, ground arith),
      store_all-IsStored name workflows t' (ground arith),
    )

-- After a catalog is replaced by workflows of distinct references, every one of them is active and
-- is read back as it was given. Every other workflow is still read as before, so that no reference is
-- ever forgotten; it is now inactive if it belongs to the catalog, and otherwise as active as before.
pub replace_catalog-get :
    (name : String) (workflows : List Workflow) (t : Tables)
    → distinct (map (λ w. w.ref) workflows) ≡ true
    → let t' = replace_catalog name workflows t in
      All (λ w. get w.ref t' ≡ ok w) workflows
      × All (IsStored t') workflows
      × ((ref : String)
          → contains ref (map (λ w. w.ref) workflows) ≡ false
          → get ref t' ≡ get ref t)
      × ((ref : String) (e : Entry)
          → contains ref (map (λ w. w.ref) workflows) ≡ false
          → find_entry ref t.workflows ≡ some e
          → find_entry ref t'.workflows ≡ some (resting name e))
unfolding replace_catalog get
replace_catalog-get name workflows t h =
    let t0 : Tables = record {
      workflows = deactivate name t.workflows;
      index = select (λ x. not (is_in_catalog name t.workflows x)) t.index;
    } in
    let all_stored = store_all-IsStored name workflows t0 h in
    (
      All-mono (IsStored (store_all name workflows t0)) _ workflows
          (λ w (e, there, same, on). rw there (ap ok same)) all_stored,
      all_stored,
      λ ref other. ground (
        arith,
        find_entry-store_all_ne name ref workflows t0 other,
        find_entry-deactivate name ref t.workflows,
      ),
      λ ref e other there. ground (
        arith,
        find_entry-store_all_ne name ref workflows t0 other,
        find_entry-deactivate name ref t.workflows,
      ),
    )
