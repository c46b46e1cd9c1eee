-- ===== src/Host/Lines.antt =====
-- The lines of a history file (`readline` with a limit) and of a tool's output (`splitlines`).
use owlmatic.Prelude.{ℕ, ◌-◌, Bool, true, false, ◌&&◌, ◌||◌, Text, List, [], ◌∷◌, leb, nat_beq}

abbrev pub prepend : ℕ → List Text → List Text
prepend b [] = (b ∷ []) ∷ []
prepend b (line ∷ lines) = (b ∷ line) ∷ lines

-- The chunks that `stream.readline(limit)` returns: each ends with its newline or at the limit.
-- `left` is what the limit still allows in the chunk.
unfoldable pub read_lines : ℕ → ℕ → Text → List Text
read_lines limit left [] = []
read_lines limit left (b ∷ rest) = elim (nat_beq b b'\n' || leb left 1) [
  | true ↦ (b ∷ []) ∷ read_lines limit limit rest
  | false ↦ prepend b (read_lines limit (left - 1) rest)
]

-- A boundary of `str.splitlines`.
abbrev pub is_break : ℕ → Bool
is_break c =
    (leb 10 c && leb c 13) || (leb 28 c && leb c 30) || nat_beq c 133 || (leb 8232 c && leb c 8233)

-- `after_return`: the code point before was a carriage return, and a line feed belongs to it.
unfoldable pub split_lines : Bool → Text → List Text
split_lines after_return [] = []
split_lines after_return (c ∷ s) = elim (after_return && nat_beq c 10) [
  | true ↦ split_lines false s
  | false ↦ elim (is_break c) [
    | true ↦ [] ∷ split_lines (nat_beq c 13) s
    | false ↦ prepend c (split_lines false s)
  ]
]
