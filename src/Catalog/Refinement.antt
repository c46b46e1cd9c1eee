-- ===== src/Catalog/Refinement.antt =====
-- infrastructure/sqlite.py `SqliteWorkflows` against what it promises: a shelf that holds at most one
-- entry for each reference. The order of the rows and the search table are not seen.
use mathlib.Core.Path.{fun_ext}
use owlmatic.Prelude.{
  ◌≡◌, refl, ap, ◌∙◌, false, not, String, Option, none, some, List, [], ◌∷◌, select, arith, eq_iff,
  ◌==◌, string_eq, if◌then◌else◌, Option-cases, inl, inr,
}
use owlmatic.Domain.{Workflow}
use owlmatic.Catalog.Rows.{
  Entry, Tables, find_entry, found, get, deactivate, is_in_catalog, new_entry, store_workflow,
  indexed, store_all, replace_catalog, add_draft,
}
use owlmatic.Catalog.Replacing.{stored, resting, find_entry-store, find_entry-deactivate}

abbrev pub Shelf : Type 0
Shelf = String → Option Entry

abbrev pub view : Tables → Shelf
view t ref = find_entry ref t.workflows

abbrev pub rested : String → Option Entry → Option Entry
rested name none = none
rested name (some e) = some (resting name e)

abbrev pub put_on : String → Workflow → Shelf → Shelf
put_on name w shelf ref = if w.ref == ref then some (stored name w (shelf ref)) else shelf ref

-- One workflow after another: the last of a reference stays.
abbrev pub put_all : String → List Workflow → Shelf → Shelf
put_all name [] shelf = shelf
put_all name (w ∷ workflows) shelf = put_all name workflows (put_on name w shelf)

abbrev pub or_draft : Workflow → Option Entry → Option Entry
or_draft w none = some (new_entry w.catalog w false)
or_draft w (some e) = some e

pub data Change : Type 0 where
  replace : String → List Workflow → Change
  draft : Workflow → Change

-- What a change means for the shelf, and what the code does to the tables.
unfoldable pub intended : Change → Shelf → Shelf
intended (replace name workflows) shelf = put_all name workflows (λ ref. rested name (shelf ref))
intended (draft w) shelf = λ ref. if w.ref == ref then or_draft w (shelf ref) else shelf ref

unfoldable pub apply : Change → Tables → Tables
unfolding replace_catalog add_draft
apply (replace name workflows) t = replace_catalog name workflows t
apply (draft w) t = add_draft w t

unfoldable pub intended_all : List Change → Shelf → Shelf
unfolding intended
intended_all [] shelf = shelf
intended_all (c ∷ changes) shelf = intended_all changes (intended c shelf)

unfoldable pub apply_all : List Change → Tables → Tables
unfolding apply
apply_all [] t = t
apply_all (c ∷ changes) t = apply_all changes (apply c t)

view-store_all :
    (name : String) (workflows : List Workflow) (t : Tables)
    → view (store_all name workflows t) ≡ put_all name workflows (view t)
unfolding store_all
view-store_all name [] t = refl
view-store_all name (w ∷ workflows) t =
    view-store_all name workflows
      (record { workflows = store_workflow name w t.workflows; index = indexed w ∷ t.index })
    ∙ ap (put_all name workflows) (fun_ext (λ ref. find_entry-store name ref w t.workflows))

rested_lem :
    (name ref : String) (entries : List Entry)
    → find_entry ref (deactivate name entries) ≡ rested name (find_entry ref entries)
rested_lem name ref entries = elim (Option-cases (find_entry ref entries)) [
  | inl absent ↦ ground (arith, find_entry-deactivate name ref entries)
  | inr (e, there) ↦ ground (arith, find_entry-deactivate name ref entries)
]

view-replace_catalog :
    (name : String) (workflows : List Workflow) (t : Tables)
    → view (replace_catalog name workflows t) ≡ intended (replace name workflows) (view t)
unfolding replace_catalog intended
view-replace_catalog name workflows t =
    view-store_all name workflows (record {
      workflows = deactivate name t.workflows;
      index = select (λ x. not (is_in_catalog name t.workflows x)) t.index;
    })
    ∙ ap (put_all name workflows) (fun_ext (λ ref. rested_lem name ref t.workflows))

draft_lem :
    (w : Workflow) (t : Tables) (ref : String)
    → view (add_draft w t) ref ≡ (if w.ref == ref then or_draft w (view t ref) else view t ref)
unfolding add_draft find_entry
draft_lem w t ref = elim (Option-cases (find_entry w.ref t.workflows)) [
  | inl absent ↦ ground (arith, eq_iff w.ref ref)
  | inr (e, there) ↦ ground (arith, eq_iff w.ref ref)
]

view-add_draft : (w : Workflow) (t : Tables) → view (add_draft w t) ≡ intended (draft w) (view t)
unfolding add_draft intended
view-add_draft w t = fun_ext (draft_lem w t)

view-apply : (c : Change) (t : Tables) → view (apply c t) ≡ intended c (view t)
unfolding apply
view-apply (replace name workflows) t = view-replace_catalog name workflows t
view-apply (draft w) t = view-add_draft w t

view-apply_all :
    (changes : List Change) (t : Tables)
    → view (apply_all changes t) ≡ intended_all changes (view t)
unfolding apply_all intended_all
view-apply_all [] t = refl
view-apply_all (c ∷ changes) t =
    view-apply_all changes (apply c t) ∙ ap (intended_all changes) (view-apply c t)

-- The tables refine the shelf: after any sequence of catalog replacements and drafts, a reference
-- leads to exactly the entry, and `get` to exactly the answer, that the shelf has after the same
-- sequence.
pub apply_all-intended :
    (changes : List Change) (t : Tables) (ref : String)
    → (view (apply_all changes t) ref ≡ intended_all changes (view t) ref)
      × (get ref (apply_all changes t) ≡ found (intended_all changes (view t) ref))
apply_all-intended changes t ref =
    let same = ap (λ (shelf : Shelf). shelf ref) (view-apply_all changes t) in
    (same, unfold get in ap found same)
