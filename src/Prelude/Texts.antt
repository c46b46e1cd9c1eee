-- ===== src/Prelude/Texts.antt =====
-- The native `String` of a list of code points. Code points that are no Unicode scalar values are
-- left out; decoded JSON has none.
use Prim.Native.Char.{char, IsScalar}
use Prim.Native.Nat.{ℕ}
use Prim.Native.String.{String}
use mathlib.Core.Path.{◌≡◌, refl}
use mathlib.Core.Bool.{Bool, true, false, ◌&&◌}
use mathlib.Core.Option.{Option, none, some}
use mathlib.Core.List.{[], ◌∷◌}
use native.Mathlib.Omega.{arith}
use owlmatic.Prelude.Tests.{ltb, Text}

pub low_IsScalar : (n : ℕ) → ltb n 55296 ≡ true → IsScalar n
low_IsScalar n h = ground arith

pub high_IsScalar : (n : ℕ) → (ltb 57343 n && ltb n 1114112) ≡ true → IsScalar n
high_IsScalar n h = ground arith

abbrev pub proof_of : (b : Bool) → Option (b ≡ true)
proof_of true = some refl
proof_of false = none

abbrev pub either :
    (n : ℕ)
    → Option (ltb n 55296 ≡ true)
    → Option ((ltb 57343 n && ltb n 1114112) ≡ true)
    → Option (IsScalar n)
either n (some low) high = some (low_IsScalar n low)
either n none (some high) = some (high_IsScalar n high)
either n none none = none

abbrev pub scalar_of : (n : ℕ) → Option (IsScalar n)
scalar_of n = either n (proof_of (ltb n 55296)) (proof_of (ltb 57343 n && ltb n 1114112))

abbrev pub add_char : (n : ℕ) → Option (IsScalar n) → String → String
add_char n none s = s
add_char n (some p) s = String.◌∷◌ (char n p) s

unfoldable pub string_of : Text → String
string_of [] = String.[]
string_of (c ∷ t) = add_char c (scalar_of c) (string_of t)
