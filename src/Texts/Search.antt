-- ===== src/Texts/Search.antt =====
-- `startswith`, `in` and `replace` of a text.
use owlmatic.Prelude.{
  ℕ, zero, suc, ◌-◌, Bool, true, false, ◌&&◌, ◌||◌, Text, [], ◌∷◌, ◌++◌, length, nat_beq,
}

-- value.startswith(prefix)
unfoldable pub starts_with : Text → Text → Bool
starts_with [] value = true
starts_with (c ∷ prefix) [] = false
starts_with (c ∷ prefix) (d ∷ value) = nat_beq c d && starts_with prefix value

-- part in value
unfoldable pub occurs : Text → Text → Bool
unfolding starts_with
occurs part [] = starts_with part []
occurs part (c ∷ value) = starts_with part (c ∷ value) || occurs part value

-- The rest of a replacement: `skip` more code points belong to the occurrence just replaced.
unfoldable pub replace_from : Text → Text → ℕ → Text → Text
unfolding starts_with
replace_from old new skip [] = []
replace_from old new (suc skip) (c ∷ value) = replace_from old new skip value
replace_from old new zero (c ∷ value) = elim (starts_with old (c ∷ value)) [
  | true ↦ new ++ replace_from old new (length old - 1) value
  | false ↦ c ∷ replace_from old new zero value
]

-- value.replace(old, new) for a non-empty `old`: from left to right, without overlaps.
unfoldable pub replace : Text → Text → Text → Text
unfolding replace_from
replace old new value = replace_from old new zero value
