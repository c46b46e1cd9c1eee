-- ===== src/Catalog/Finding.antt =====
-- catalog_service.py `find`: what it may return.
use mathlib.Core.Path.{ap, subst}
use owlmatic.Prelude.{
  none, ◌==◌, eq_iff, is_some, ◌||◌, String, All-mono, IsIn, ℕ, zero, suc, ◌+◌, ◌≤◌, ◌≡◌, refl,
  true, ◌&&◌, Option, some, List, [], ◌∷◌, ◌++◌, map, All, take, drop, contains, length, ltb, leb,
  arith, string_eq, Bool-cases, Option-cases, inl, inr, ◌⊎◌,
}
use owlmatic.Errors.{ok}
use owlmatic.Domain.{Profile, Workflow}
use owlmatic.Catalog.Registry.{find_profile}
use owlmatic.Catalog.Rows.{
  offers, supports, same_repository, is_exact, Entry, Indexed, Tables, Query, is_selected, Rank,
  select_rows, is_below, insert_row, sort_rows, search,
}
use owlmatic.Catalog.Service.{
  Catalogs, Candidate, SearchResult, SearchRequest, CatalogPort, candidate, shortened, with_more,
  is_blank, fitted, pick, query_of, find,
}

module _ {ℓ κ} {A : Type ℓ} (P : A → Type κ) where
  All-append : (xs : List A) (y : A) → All P xs → P y → All P (xs ++ y ∷ [])
  All-append [] y h p = (p, tt)
  All-append (x ∷ xs) y h p = (h.0, All-append xs y h.1 p)

  take-All : (n : ℕ) (xs : List A) → All P xs → All P (take n xs)
  take-All zero xs h = tt
  take-All (suc n) [] h = tt
  take-All (suc n) (x ∷ xs) h = (h.0, take-All n xs h.1)

  drop-All : (n : ℕ) (xs : List A) → All P xs → All P (drop n xs)
  drop-All zero xs h = h
  drop-All (suc n) [] h = tt
  drop-All (suc n) (x ∷ xs) h = drop-All n xs h.1

module _ (q : Query) (P : Option ℕ × Entry → Type 0) where
  insert_row-All :
      (x : Option ℕ × Entry) (rows : List (Option ℕ × Entry))
      → P x
      → All P rows
      → All P (insert_row q x rows)
  unfolding insert_row
  insert_row-All x [] p h = (p, tt)
  insert_row-All x (y ∷ rows) p h = elim (Bool-cases (is_below q x y)) [
    | inl below ↦ rw (below, insert_row) (p, h)
    | inr above ↦ rw (above, insert_row) (h.0, insert_row-All x rows p h.1)
  ]

  sort_rows-All : (rows : List (Option ℕ × Entry)) → All P rows → All P (sort_rows q rows)
  unfolding sort_rows
  sort_rows-All [] h = tt
  sort_rows-All (x ∷ rows) h = insert_row-All x (sort_rows q rows) h.0 (sort_rows-All rows h.1)

-- The row is one of the table, with its rank, and is selected.
abbrev pub IsRow : Rank → Query → List Indexed → List Entry → Option ℕ × Entry → Type 0
IsRow rank q index entries (score, e) =
    IsIn e entries × (rank q.query index e.ref ≡ score) × (is_selected q e score ≡ true)

select_rows-IsRow :
    (rank : Rank) (q : Query) (index : List Indexed) (entries : List Entry)
    → All (IsRow rank q index entries) (select_rows rank q index entries)
unfolding select_rows
select_rows-IsRow rank q index [] = tt
select_rows-IsRow rank q index (e ∷ entries) =
    let later =
      All-mono (IsRow rank q index entries) (IsRow rank q index (e ∷ entries))
        (select_rows rank q index entries) (λ row h. (inr h.0, h.1, h.2))
        (select_rows-IsRow rank q index entries) in
    elim (Bool-cases (is_selected q e (rank q.query index e.ref))) [
      | inl chosen ↦ rw (chosen, select_rows) ((inl refl, refl, chosen), later)
      | inr passed ↦ rw (passed, select_rows) later
    ]

-- A workflow of the tables whose entry is active, is named by the query or has a rank for it, and
-- fulfils the constraints that the query has.
pub record IsFound (rank : Rank) (q : Query) (t : Tables) (w : Workflow) : Type 0 where
  pub entry : Entry
  pub stored : IsIn entry t.workflows
  pub same : entry.workflow ≡ w
  pub active : entry.active ≡ true
  pub matches :
      ((entry.id ≡ q.query) ⊎ (entry.ref ≡ q.query))
      ⊎ ((n : ℕ) × (rank q.query t.index entry.ref ≡ some n))
  pub environment :
      (n : String) → q.environment ≡ some n → contains n entry.workflow.manifest.environments ≡ true
  pub repository :
      (r : String)
      → q.repository ≡ some r
      → (entry.workflow.manifest.requirements.repository ≡ none)
        ⊎ (entry.workflow.manifest.requirements.repository ≡ some r)
  pub platform :
      (n : String)
      → q.platform ≡ some n
      → (entry.workflow.manifest.requirements.platforms ≡ [])
        ⊎ (contains n entry.workflow.manifest.requirements.platforms ≡ true)

same_repository-ok :
    (r : String) (own : Option String)
    → same_repository (some r) own ≡ true
    → (own ≡ none) ⊎ (own ≡ some r)
same_repository-ok r none h = inl refl
same_repository-ok r (some own) h = inr (ap some ((eq_iff own r).0 h))

supports-ok :
    (n : String) (platforms : List String)
    → supports (some n) platforms ≡ true
    → (platforms ≡ []) ⊎ (contains n platforms ≡ true)
supports-ok n [] h = inl refl
supports-ok n (x ∷ platforms) h = inr h

matches-ok :
    (q : Query) (e : Entry) (score : Option ℕ)
    → (is_exact q e || is_some score) ≡ true
    → ((e.id ≡ q.query) ⊎ (e.ref ≡ q.query)) ⊎ ((n : ℕ) × (score ≡ some n))
matches-ok q e (some n) h = inr (n, refl)
matches-ok q e none h = elim (Bool-cases (e.id == q.query)) [
  | inl named ↦ inl (inl ((eq_iff e.id q.query).0 named))
  | inr other ↦ inl (inr ((eq_iff e.ref q.query).0 (ground arith)))
]

row-IsFound :
    (rank : Rank) (q : Query) (t : Tables) (score : Option ℕ) (e : Entry)
    → IsRow rank q t.index t.workflows (score, e)
    → IsFound rank q t e.workflow
unfolding is_selected
row-IsFound rank q t score e (there, ranked, chosen) =
    let m = e.workflow.manifest in
    let active : e.active ≡ true = ground arith in
    let matched : (is_exact q e || is_some score) ≡ true = ground arith in
    let offered : offers q.environment m.environments ≡ true = ground arith in
    let own : same_repository q.repository m.requirements.repository ≡ true = ground arith in
    let supported : supports q.platform m.requirements.platforms ≡ true = ground arith in
    record {
      entry = e;
      stored = there;
      same = refl;
      active = active;
      matches = rw ranked (matches-ok q e score matched);
      environment = λ n asked. subst (λ x. offers x m.environments ≡ true) asked offered;
      repository = λ r asked.
          same_repository-ok r m.requirements.repository
            (subst (λ x. same_repository x m.requirements.repository ≡ true) asked own);
      platform = λ n asked.
          supports-ok n m.requirements.platforms
            (subst (λ x. supports x m.requirements.platforms ≡ true) asked supported);
    }

map-IsFound :
    (rank : Rank) (q : Query) (t : Tables) (rows : List (Option ℕ × Entry))
    → All (IsRow rank q t.index t.workflows) rows
    → All (IsFound rank q t) (map (λ (row : Option ℕ × Entry). row.1.workflow) rows)
map-IsFound rank q t [] h = tt
map-IsFound rank q t ((score, e) ∷ rows) h =
    (row-IsFound rank q t score e h.0, map-IsFound rank q t rows h.1)

search-IsFound : (rank : Rank) (q : Query) (t : Tables) → All (IsFound rank q t) (search rank q t)
unfolding search
search-IsFound rank q t =
    let P = IsRow rank q t.index t.workflows in
    let rows = select_rows rank q t.index t.workflows in
    let sorted = sort_rows-All q P rows (select_rows-IsRow rank q t.index t.workflows) in
    map-IsFound rank q t _ (take-All P q.limit _ (drop-All P q.offset _ sorted))

-- A candidate speaks of a workflow that was found, and says whether the profile trusts it.
abbrev pub IsOffered : Rank → Tables → Query → Profile → Candidate → Type 0
IsOffered rank t q p c =
    (w : Workflow) × IsFound rank q t w
    × (c.ref ≡ w.ref)
    × (c.description ≡ w.manifest.description)
    × (c.trusted ≡ contains w.ref p.grants)

candidates-IsOffered :
    (rank : Rank) (t : Tables) (q : Query) (p : Profile) (workflows : List Workflow)
    → All (IsFound rank q t) workflows
    → All (IsOffered rank t q p) (map (candidate p) workflows)
unfolding candidate
candidates-IsOffered rank t q p [] h = tt
candidates-IsOffered rank t q p (w ∷ workflows) h =
    ((w, h.0, refl, refl, refl), candidates-IsOffered rank t q p workflows h.1)

fitted-IsOffered :
    (port : CatalogPort) (t : Tables) (q : Query) (p : Profile) (c : Candidate)
    → IsOffered port.rank t q p c
    → IsOffered port.rank t q p (fitted port c)
unfolding fitted shortened
fitted-IsOffered port t q p c h = elim (Bool-cases (ltb 2048 (port.size (with_more (c ∷ []))))) [
  | inl large ↦ rw (large, fitted) h
  | inr small ↦ rw (small, fitted) h
]

-- At most `limit` candidates; their encoding, with `more` set, has at most 2048 bytes, if there are any.
pub record IsSelection (port : CatalogPort) (t : Tables) (limit : ℕ) (q : Query) (p : Profile)
    (selected : List Candidate) : Type 0 where
  pub few : length selected ≤ limit
  pub small : (selected ≡ []) ⊎ (port.size (with_more selected) ≤ 2048)
  pub offered : All (IsOffered port.rank t q p) selected

length-append : (xs : List Candidate) (y : Candidate) → length (xs ++ y ∷ []) ≡ length xs + 1
length-append [] y = refl
length-append (x ∷ xs) y = ground (arith, length-append xs y)

pick-IsSelection :
    (port : CatalogPort) (t : Tables) (limit : ℕ) (q : Query) (p : Profile)
    (candidates selected : List Candidate)
    → All (IsOffered port.rank t q p) candidates
    → IsSelection port t limit q p selected
    → IsSelection port t limit q p (pick port limit candidates selected)
unfolding pick
pick-IsSelection port t limit q p [] selected h s = s
pick-IsSelection port t limit q p (c ∷ candidates) selected h s =
    let next = selected ++ fitted port c ∷ [] in
    elim (Bool-cases (ltb (length selected) limit && leb (port.size (with_more next)) 2048)) [
      | inl fits ↦
          rw (fits, pick)
            (pick-IsSelection port t limit q p candidates next h.1 (record {
              few = ground (arith, length-append selected (fitted port c));
              small = inr (ground arith);
              offered =
                  All-append (IsOffered port.rank t q p) selected (fitted port c) s.offered
                    (fitted-IsOffered port t q p c h.0);
            }))
      | inr full ↦ rw (full, pick) (pick-IsSelection port t limit q p candidates selected h.1 s)
    ]

-- A search reads the tables and changes nothing. It returns at most as many candidates as were asked
-- for; each is the workflow of a stored and active row that is named by the query or has a rank for
-- it, and that fits the environment, the repository and the platform, with the trust that the profile gives it; and, if there are any, the encoding
-- of the candidates, with `more` set, has at most 2048 bytes.
pub find-ok :
    (port : CatalogPort) (r : SearchRequest) (s s' : Catalogs) (result : SearchResult)
    → find port r s ≡ (ok result, s')
    → (s' ≡ s)
      × (p : Profile) × (find_profile r.profile s.settings.profiles ≡ some p)
      × IsSelection port s.tables r.limit (query_of port r) p result.results
unfolding find
find-ok port r s s' result h = elim (Bool-cases (is_blank r.query)) [
  | inl blank ↦ absurd (ground arith)
  | inr asked ↦ elim (Option-cases (find_profile r.profile s.settings.profiles)) [
    | inl absent ↦ absurd (ground arith)
    | inr (p, there) ↦
        let candidates = map (candidate p) (search port.rank (query_of port r) s.tables) in
        let picked = pick port r.limit candidates [] in
        let same : picked ≡ result.results = ground arith in
        let all_offered =
          candidates-IsOffered port.rank s.tables (query_of port r) p
            (search port.rank (query_of port r) s.tables)
            (search-IsFound port.rank (query_of port r) s.tables) in
        let start : IsSelection port s.tables r.limit (query_of port r) p [] = record {
          few = ground arith;
          small = inl refl;
          offered = tt;
        } in
        (
          ground arith,
          p,
          there,
          subst (IsSelection port s.tables r.limit (query_of port r) p) same (
              pick-IsSelection port s.tables r.limit (query_of port r) p candidates [] all_offered
                start),
        )
  ]
]
