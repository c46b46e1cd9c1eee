-- ===== src/Artifacts/Paging.antt =====
-- infrastructure/files.py `page`: following the cursors.
use owlmatic.Prelude.{
  true, ℕ, zero, suc, ◌+◌, ◌-◌, ◌≤◌, ◌<◌, ◌≡◌, refl, ap, sym, ◌∙◌, String, Text, Option, none, some,
  [], ◌∷◌, ◌++◌, take, drop, ltb, length, arith, Bool-cases, inl, inr,
}
use owlmatic.Texts.{decode_ascii, is_ascii, is_ascii-take, is_ascii-drop}
use owlmatic.Errors.{Result, ok, err}
use owlmatic.Artifacts.Pages.{
  InspectRequest, Page, Artifact, file, artifact_name, page_bytes, page_of, named_page, page,
}

length-drop : (n : ℕ) (s : Text) → length (drop n s) ≡ length s - n
length-drop zero s = ground arith
length-drop (suc n) [] = ground arith
length-drop (suc n) (c ∷ s) = ground (arith, length-drop n s)

sum_suc : (n m : ℕ) → suc (n + m) ≡ suc n + m
sum_suc n m = ground arith

drop_none : (n : ℕ) → drop {A = ℕ} n [] ≡ []
drop_none zero = refl
drop_none (suc n) = refl

drop-drop : (m n : ℕ) (s : Text) → drop m (drop n s) ≡ drop (n + m) s
drop-drop m zero s = ap (λ k. drop k s) (ground arith)
drop-drop zero (suc n) [] = sym (drop_none (suc n + zero))
drop-drop (suc m) (suc n) [] = sym (drop_none (suc n + suc m))
drop-drop m (suc n) (c ∷ s) = drop-drop m n s ∙ ap (λ k. drop k (c ∷ s)) (sum_suc n m)

length-take_le : (n : ℕ) (s : Text) → length (take n s) ≤ n
length-take_le zero s = ground arith
length-take_le (suc n) [] = ground arith
length-take_le (suc n) (c ∷ s) = ground (arith, length-take_le n s)

take_rest : (n : ℕ) (s : Text) → take n s ++ drop (length (take n s)) s ≡ s
take_rest zero s = refl
take_rest (suc n) [] = refl
take_rest (suc n) (c ∷ s) = ap (λ t. c ∷ t) (take_rest n s)

take_some : (n : ℕ) (s : Text) → 1 ≤ n → 0 < length s → 0 < length (take n s)
take_some zero s h k = absurd (ground arith)
take_some (suc n) [] h k = absurd (ground arith)
take_some (suc n) (c ∷ s) h k = ground arith

drop_all : (n : ℕ) (s : Text) → length s ≤ n → drop n s ≡ []
drop_all zero [] h = refl
drop_all zero (c ∷ s) h = absurd (ground arith)
drop_all (suc n) [] h = refl
drop_all (suc n) (c ∷ s) h = drop_all n s (ground arith)

-- The pages from a request on, each at the cursor that the page before it gave.
abbrev pub continued : (ℕ → Text) → Option ℕ → Text
continued more none = []
continued more (some cursor) = more cursor

abbrev pub text_of : (ℕ → Text) → Result Page → Text
text_of more (err e) = []
text_of more (ok p) = p.text ++ continued more p.next_cursor

unfoldable pub follow : ℕ → InspectRequest → (String → Artifact) → Text
unfolding page
follow zero r artifacts = []
follow (suc fuel) r artifacts =
    text_of (λ cursor. follow fuel (record r { cursor = cursor }) artifacts) (page r artifacts)

page-file :
    (r : InspectRequest) (artifacts : String → Artifact) (name : String) (content : Text)
    → artifact_name r.view ≡ some name
    → artifacts name ≡ file content
    → page r artifacts ≡ page_of r (file content)
unfolding page named_page
page-file r artifacts name content named there = rw (named, page) (rw (there, named_page) refl)

-- Reading an ASCII artifact page by page, each page at the cursor that the page before it gave, ends after
-- at most as many pages as there are bytes, and one, and gives every byte from the first cursor on
-- exactly once.
pub follow-page :
    (fuel : ℕ) (r : InspectRequest) (artifacts : String → Artifact) (name : String) (content : Text)
    → artifact_name r.view ≡ some name
    → artifacts name ≡ file content
    → is_ascii content ≡ true
    → length content - r.cursor < fuel
    → follow fuel r artifacts ≡ drop r.cursor content
unfolding follow
follow-page zero r artifacts name content named there ascii enough = absurd (ground arith)
follow-page (suc fuel) r artifacts name content named there ascii enough =
    let rest = drop r.cursor content in
    let bytes = take (page_bytes r.max_bytes) rest in
    let next = r.cursor + length bytes in
    let size = length-drop r.cursor content in
    let same =
      decode_ascii bytes
        (is_ascii-take (page_bytes r.max_bytes) rest (is_ascii-drop r.cursor content ascii)) in
    rw (page-file r artifacts name content named there) (
      unfold page_of in
      elim (Bool-cases (ltb next (length content))) [
        | inr last ↦
            rw (last, same)
              (ap (λ t. bytes ++ t) (sym (drop_all (length bytes) rest (ground (arith, size))))
                ∙ take_rest (page_bytes r.max_bytes) rest)
        | inl more ↦
            rw (more, same)
              (ap (λ t. bytes ++ t)
                  (follow-page fuel (record r { cursor = next }) artifacts name content named there
                      ascii
                      (ground (
                        arith,
                        size,
                        take_some (page_bytes r.max_bytes) rest (ground arith)
                            (ground (arith, size)),
                      ))
                    ∙ sym (drop-drop (length bytes) r.cursor content))
                ∙ take_rest (page_bytes r.max_bytes) rest)
      ])
