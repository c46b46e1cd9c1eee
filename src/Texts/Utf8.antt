-- ===== src/Texts/Utf8.antt =====
-- `bytes.decode("utf-8", errors="replace")`, which infrastructure/logs.py and infrastructure/files.py
-- use: bytes that are no character become the replacement character.
use owlmatic.Prelude.{
  take, drop, zero, suc, ℕ, ◌+◌, ◌-◌, ◌*◌, ◌≡◌, refl, ap, Bool, true, ◌&&◌, Text, [], ◌∷◌, ◌++◌,
  all, leb, ltb, nat_beq, arith, if◌then◌else◌,
}

-- How many bytes of the character are missing, the bounds of the next one, and the bits so far.
pub record Partial : Type 0 where
  pub missing : ℕ
  pub low : ℕ
  pub high : ℕ
  pub bits : ℕ

abbrev pub no_partial : Partial
no_partial = record { missing = 0; low = 128; high = 191; bits = 0 }

abbrev pub begin : ℕ → ℕ → ℕ → ℕ → Text × Partial
begin missing low high bits =
    ([], record { missing = missing; low = low; high = high; bits = bits })

abbrev pub replacement : ℕ
replacement = 65533

-- The first byte of a character.
unfoldable pub first_byte : ℕ → Text × Partial
first_byte b =
    if ltb b 128
    then (b ∷ [], no_partial)
    else if ltb b 194
    then (replacement ∷ [], no_partial)
    else if ltb b 224
    then begin 1 128 191 (b - 192)
    else if nat_beq b 224
    then begin 2 160 191 0
    else if nat_beq b 237
    then begin 2 128 159 13
    else if ltb b 240
    then begin 2 128 191 (b - 224)
    else if nat_beq b 240
    then begin 3 144 191 0
    else if ltb b 244
    then begin 3 128 191 (b - 240)
    else if nat_beq b 244
    then begin 3 128 143 4
    else (replacement ∷ [], no_partial)

abbrev pub replaced : Text × Partial → Text × Partial
replaced (t, p) = (replacement ∷ t, p)

-- A further byte of a character; one that does not fit begins another character.
unfoldable pub next_byte : ℕ → Partial → Text × Partial
unfolding first_byte
next_byte b p =
    if nat_beq p.missing 0
    then first_byte b
    else if leb p.low b && leb b p.high
    then (if nat_beq p.missing 1
        then ((p.bits * 64 + (b - 128)) ∷ [], no_partial)
        else begin (p.missing - 1) 128 191 (p.bits * 64 + (b - 128)))
    else replaced (first_byte b)

unfoldable pub decode_from : Partial → Text → Text
unfolding next_byte
decode_from p [] = if nat_beq p.missing 0 then [] else replacement ∷ []
decode_from p (b ∷ bytes) = let (t, p') = next_byte b p in t ++ decode_from p' bytes

unfoldable pub decode : Text → Text
unfolding decode_from
decode bytes = decode_from no_partial bytes

abbrev pub is_ascii : Text → Bool
is_ascii bytes = all (λ b. ltb b 128) bytes

decode_from-ascii : (bytes : Text) → is_ascii bytes ≡ true → decode_from no_partial bytes ≡ bytes
unfolding decode_from next_byte first_byte
decode_from-ascii [] h = refl
decode_from-ascii (b ∷ bytes) h =
    let here : ltb b 128 ≡ true = ground arith in
    rw here (ap (λ t. b ∷ t) (decode_from-ascii bytes (ground arith)))

pub decode_ascii : (bytes : Text) → is_ascii bytes ≡ true → decode bytes ≡ bytes
unfolding decode
decode_ascii bytes h = decode_from-ascii bytes h

pub is_ascii-left : (a b : Text) → is_ascii (a ++ b) ≡ true → is_ascii a ≡ true
is_ascii-left [] b h = refl
is_ascii-left (c ∷ a) b h = ground (arith, is_ascii-left a b)

pub is_ascii-right : (a b : Text) → is_ascii (a ++ b) ≡ true → is_ascii b ≡ true
is_ascii-right [] b h = h
is_ascii-right (c ∷ a) b h = ground (arith, is_ascii-right a b)

pub is_ascii-take : (n : ℕ) (bytes : Text) → is_ascii bytes ≡ true → is_ascii (take n bytes) ≡ true
is_ascii-take zero bytes h = refl
is_ascii-take (suc n) [] h = refl
is_ascii-take (suc n) (b ∷ bytes) h = ground (arith, is_ascii-take n bytes)

pub is_ascii-drop : (n : ℕ) (bytes : Text) → is_ascii bytes ≡ true → is_ascii (drop n bytes) ≡ true
is_ascii-drop zero bytes h = h
is_ascii-drop (suc n) [] h = refl
is_ascii-drop (suc n) (b ∷ bytes) h = is_ascii-drop n bytes (ground arith)
