-- ===== src/Texts/Keeping.antt =====
-- `replace` and `in` of a text.
use owlmatic.Prelude.{◌≡◌, refl, false, zero, Text, [], ◌∷◌, arith}
use owlmatic.Texts.Search.{occurs, replace_from, replace}

replace_from-absent :
    (old new value : Text) → occurs old value ≡ false → replace_from old new zero value ≡ value
unfolding occurs replace_from
replace_from-absent old new [] h = refl
replace_from-absent old new (c ∷ value) h = ground (arith, replace_from-absent old new value)

pub replace-absent :
    (old new value : Text) → occurs old value ≡ false → replace old new value ≡ value
unfolding replace
replace-absent old new value h = replace_from-absent old new value h
