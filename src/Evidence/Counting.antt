-- ===== src/Evidence/Counting.antt =====
-- verification.py: counting the checks of an evidence.
use owlmatic.Prelude.{
  ◌≡◌, ◌≢◌, ◌≤◌, ◌<◌, refl, true, false, not, Text, List, [], ◌∷◌, some, any, distinct, contains,
  length, count_by, select, arith, ◌==◌, text_eq, text_beq_iff, ◌+◌,
}
use owlmatic.Domain.{Check, CheckStatus, status_eq}
use owlmatic.Evidence.Policy.{status_of, has_status, any_unproven}

-- The checks without those of one name.
abbrev without_name : Text → List Check → List Check
without_name name = select (λ c. not (c.name == name))

status_of-without :
    (name other : Text) (cs : List Check)
    → name ≢ other
    → status_of other (without_name name cs) ≡ status_of other cs
unfolding status_of
status_of-without name other [] ne = refl
status_of-without name other (c ∷ cs) ne =
    ground (
      arith,
      text_beq_iff c.name name,
      text_beq_iff c.name other,
      status_of-without name other cs ne,
    )

count-without-le :
    (name : Text) (cs : List Check)
    → count_by (has_status CheckStatus.pass) (without_name name cs)
      ≤ count_by (has_status CheckStatus.pass) cs
count-without-le name [] = omega arith
count-without-le name (c ∷ cs) = ground (arith, count-without-le name cs)

count-without :
    (name : Text) (cs : List Check)
    → status_of name cs ≡ some CheckStatus.pass
    → count_by (has_status CheckStatus.pass) (without_name name cs)
      < count_by (has_status CheckStatus.pass) cs
unfolding status_of
count-without name [] h = cc
count-without name (c ∷ cs) h = ground (arith, count-without name cs, count-without-le name cs)

any_unproven-without :
    (name : Text) (names : List Text) (cs : List Check)
    → contains name names ≡ false
    → any_unproven names cs ≡ false
    → any_unproven names (without_name name cs) ≡ false
unfolding any_unproven
any_unproven-without name [] cs fresh h = refl
any_unproven-without name (n ∷ names) cs fresh h =
    ground
      (arith, text_beq_iff n name, status_of-without name n cs, any_unproven-without name names cs)

-- If distinct required names are all proven by a list of checks, the list has at least as many
-- passed checks as there are required names.
pub length-le-passed :
    (names : List Text) (cs : List Check)
    → distinct names ≡ true
    → any_unproven names cs ≡ false
    → length names ≤ count_by (has_status CheckStatus.pass) cs
unfolding any_unproven
length-le-passed [] cs d h = omega arith
length-le-passed (n ∷ names) cs d h = ground (
  arith,
  count-without n cs,
  any_unproven-without n names cs,
  length-le-passed names (without_name n cs),
)

pub any-count :
    (s : CheckStatus) (cs : List Check)
    → any (has_status s) cs ≡ false
    → count_by (has_status s) cs ≡ 0
any-count s [] h = refl
any-count s (c ∷ cs) h = ground (arith, any-count s cs)

pub any-count_pos :
    (s : CheckStatus) (cs : List Check)
    → any (has_status s) cs ≡ true
    → 0 < count_by (has_status s) cs
any-count_pos s [] h = cc
any-count_pos s (c ∷ cs) h = ground (arith, any-count_pos s cs)

-- The three counts account for every check.
pub counts-total :
    (cs : List Check)
    → count_by (has_status CheckStatus.pass) cs
        + count_by (has_status CheckStatus.fail) cs
        + count_by (has_status CheckStatus.skip) cs
      ≡ length cs
counts-total [] = refl
counts-total (c ∷ cs) = ground (arith, counts-total cs)
