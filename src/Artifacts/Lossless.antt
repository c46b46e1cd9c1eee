-- ===== src/Artifacts/Lossless.antt =====
-- infrastructure/logs.py: a stream without secrets is logged as it is.
use owlmatic.Prelude.{
  ℕ, zero, suc, ◌+◌, ◌≡◌, refl, ap, sym, ◌∙◌, Bool, true, false, Text, List, [], ◌∷◌, ◌++◌, take,
  drop, ltb, length, arith, Bool-cases, inl, inr, if◌then◌else◌,
}
use owlmatic.Actions
use owlmatic.Actions.{bind-ok}
use owlmatic.Errors.{Result, ok}
use owlmatic.Texts.{
  decode, decode_ascii, is_ascii, is_ascii-left, is_ascii-right, is_ascii-take, starts_with, occurs,
}
use owlmatic.Redaction.{clean_text, text_has_secret}
use owlmatic.Redaction.Keeping.{clean_text-absent}
use owlmatic.Process.{Stream}
use owlmatic.Artifacts.Logs.{
  Line, Log, pending, with_pending, move_cut, move_all, cut_of, append, write,
}

move_cut-absent :
    (secret : Text) (offset cut : ℕ) (buffer : Text)
    → occurs secret buffer ≡ false
    → move_cut secret offset cut buffer ≡ cut
unfolding move_cut occurs
move_cut-absent secret offset cut [] h = refl
move_cut-absent secret offset cut (c ∷ rest) h =
    let not_here : starts_with secret (c ∷ rest) ≡ false = ground arith in
    rw (not_here) (move_cut-absent secret (offset + 1) cut rest (ground arith))

move_all-absent :
    (secrets : List Text) (cut : ℕ) (buffer : Text)
    → text_has_secret secrets buffer ≡ false
    → move_all secrets cut buffer ≡ cut
unfolding move_all text_has_secret
move_all-absent [] cut buffer h = refl
move_all-absent (s ∷ secrets) cut buffer h =
    rw (move_cut-absent s 0 cut buffer (ground arith))
      (move_all-absent secrets cut buffer (ground arith))

starts_with-append :
    (secret a b : Text) → starts_with secret (a ++ b) ≡ false → starts_with secret a ≡ false
unfolding starts_with
starts_with-append [] a b h = cc
starts_with-append (c ∷ secret) [] b h = refl
starts_with-append (c ∷ secret) (d ∷ a) b h = ground (arith, starts_with-append secret a b)

-- A part of a text holds no secret that the text does not hold.
occurs-append_left : (secret a b : Text) → occurs secret (a ++ b) ≡ false → occurs secret a ≡ false
unfolding occurs
occurs-append_left [] [] [] h = h
occurs-append_left [] [] (d ∷ b) h = unfold starts_with in cc
occurs-append_left (x ∷ secret) [] b h = unfold starts_with in refl
occurs-append_left secret (c ∷ a) b h =
    ground (arith, starts_with-append secret (c ∷ a) b, occurs-append_left secret a b)

occurs-append_right : (secret a b : Text) → occurs secret (a ++ b) ≡ false → occurs secret b ≡ false
unfolding occurs
occurs-append_right secret [] b h = h
occurs-append_right secret (c ∷ a) b h = ground (arith, occurs-append_right secret a b)

text_has_secret-left :
    (secrets : List Text) (a b : Text)
    → text_has_secret secrets (a ++ b) ≡ false
    → text_has_secret secrets a ≡ false
unfolding text_has_secret
text_has_secret-left [] a b h = refl
text_has_secret-left (s ∷ secrets) a b h =
    ground (arith, occurs-append_left s a b, text_has_secret-left secrets a b)

text_has_secret-right :
    (secrets : List Text) (a b : Text)
    → text_has_secret secrets (a ++ b) ≡ false
    → text_has_secret secrets b ≡ false
unfolding text_has_secret
text_has_secret-right [] a b h = refl
text_has_secret-right (s ∷ secrets) a b h =
    ground (arith, occurs-append_right s a b, text_has_secret-right secrets a b)

abbrev pub is_stream : Stream → Stream → Bool
is_stream Stream.stdout Stream.stdout = true
is_stream Stream.stdout Stream.stderr = false
is_stream Stream.stderr Stream.stdout = false
is_stream Stream.stderr Stream.stderr = true

-- The text of a stream in the log.
unfoldable pub logged : Stream → List Line → Text
logged stream [] = []
logged stream (line ∷ lines) =
    if is_stream stream line.stream then line.text ++ logged stream lines else logged stream lines

append_assoc : (a b c : Text) → a ++ b ++ c ≡ a ++ (b ++ c)
append_assoc [] b c = refl
append_assoc (x ∷ a) b c = ap (λ t. x ∷ t) (append_assoc a b c)

append_nil : (a : Text) → a ++ [] ≡ a
append_nil [] = refl
append_nil (x ∷ a) = ap (λ t. x ∷ t) (append_nil a)

take-drop : (n : ℕ) (s : Text) → take n s ++ drop n s ≡ s
take-drop zero s = refl
take-drop (suc n) [] = refl
take-drop (suc n) (c ∷ s) = ap (λ t. c ∷ t) (take-drop n s)

drop-length : (s : Text) → drop (length s) s ≡ []
drop-length [] = refl
drop-length (c ∷ s) = drop-length s

logged-append :
    (stream : Stream) (lines : List Line) (text : Text)
    → logged stream (lines ++ record { stream = stream; text = text } ∷ [])
      ≡ logged stream lines ++ text
unfolding logged
logged-append Stream.stdout [] text = append_nil text
logged-append Stream.stderr [] text = append_nil text
logged-append stream (line ∷ lines) text = elim (Bool-cases (is_stream stream line.stream)) [
  | inl own ↦
      rw (own, logged)
        (ap (λ t. line.text ++ t) (logged-append stream lines text)
          ∙ sym (append_assoc line.text (logged stream lines) text))
  | inr other ↦ rw (other, logged) (logged-append stream lines text)
]

pending_next :
    (stream : Stream) (l : Log) (n : ℕ) (lines : List Line)
    → pending stream (record l { bytes_written = n; lines = lines }) ≡ pending stream l
pending_next Stream.stdout l n lines = refl
pending_next Stream.stderr l n lines = refl

append-ok :
    (size : Stream → Text → ℕ) (stream : Stream) (ready : Text) (l l' : Log)
    → append size stream ready l ≡ (ok tt, l')
    → (logged stream l'.lines ≡ logged stream l.lines ++ decode ready)
      × (pending stream l' ≡ pending stream l)
      × (l'.secrets ≡ l.secrets)
unfolding append decode
append-ok size stream [] l l' h =
    let same : l ≡ l' = ground arith in
    (
      ap (λ (x : Log). logged stream x.lines) (sym same) ∙ sym (append_nil (logged stream l.lines)),
      ap (pending stream) (sym same),
      ap (λ (x : Log). x.secrets) (sym same),
    )
append-ok size stream (c ∷ ready) l l' h =
    let written = l.bytes_written + size stream (decode (c ∷ ready)) in
    elim (Bool-cases (ltb l.limit written)) [
      | inl large ↦ absurd (ground arith)
      | inr small ↦
          let next : Log = record l {
            bytes_written = written;
            lines = l.lines ++ record { stream = stream; text = decode (c ∷ ready) } ∷ [];
          } in
          let same : next ≡ l' = ground arith in
          (
            ap (λ (x : Log). logged stream x.lines) (sym same)
                ∙ logged-append stream l.lines (decode (c ∷ ready)),
            ap (pending stream) (sym same) ∙ pending_next stream l written _,
            ap (λ (x : Log). x.secrets) (sym same),
          )
    ]

with_pending-pending :
    (stream : Stream) (t : Text) (l : Log) → pending stream (with_pending stream t l) ≡ t
with_pending-pending Stream.stdout t l = refl
with_pending-pending Stream.stderr t l = refl

with_pending-lines :
    (stream : Stream) (t : Text) (l : Log)
    → ((with_pending stream t l).lines ≡ l.lines) × ((with_pending stream t l).secrets ≡ l.secrets)
with_pending-lines Stream.stdout t l = (refl, refl)
with_pending-lines Stream.stderr t l = (refl, refl)

-- One write of bytes in which, after those still pending, no secret occurs.
write-absent :
    (size : Stream → Text → ℕ) (stream : Stream) (bytes : Text) (final : Bool) (l l' : Log)
    → write size stream bytes final l ≡ (ok tt, l')
    → text_has_secret l.secrets (pending stream l ++ bytes) ≡ false
    → is_ascii (pending stream l ++ bytes) ≡ true
    → (logged stream l'.lines ++ pending stream l'
        ≡ logged stream l.lines ++ (pending stream l ++ bytes))
      × (l'.secrets ≡ l.secrets)
      × (final ≡ true → pending stream l' ≡ [])
      × (gone : Text) × (gone ++ pending stream l' ≡ pending stream l ++ bytes)
unfolding write cut_of
write-absent size stream bytes final l l' h clear ascii =
    let buffer = pending stream l ++ bytes in
    let cut = cut_of l buffer final in
    let parts = take-drop cut buffer in
    let clear_part : text_has_secret l.secrets (take cut buffer ++ drop cut buffer) ≡ false =
      rw parts clear in
    let same : clean_text l.secrets (take cut buffer) ≡ take cut buffer =
      clean_text-absent l.secrets (take cut buffer)
        (text_has_secret-left l.secrets (take cut buffer) (drop cut buffer) clear_part) in
    let l0 = with_pending stream (drop cut buffer) l in
    let kept = with_pending-lines stream (drop cut buffer) l in
    let (text, left, secrets) =
      append-ok size stream (clean_text l.secrets (take cut buffer)) l0 l' h in
    let left2 : pending stream l' ≡ drop cut buffer =
      left ∙ with_pending-pending stream (drop cut buffer) l in
    let text2 : logged stream l'.lines ≡ logged stream l.lines ++ take cut buffer =
      text
      ∙ ap (λ lines. logged stream lines ++ decode (clean_text l.secrets (take cut buffer))) kept.0
      ∙ ap (λ t. logged stream l.lines ++ decode t) same
      ∙ ap (λ t. logged stream l.lines ++ t)
          (decode_ascii (take cut buffer) (is_ascii-take cut buffer ascii)) in
    let whole : cut_of l buffer true ≡ length buffer =
      move_all-absent l.secrets (length buffer) buffer clear in
    (
      rw (text2, left2)
          (append_assoc (logged stream l.lines) (take cut buffer) (drop cut buffer)
            ∙ ap (λ t. logged stream l.lines ++ t) parts),
      secrets ∙ kept.1,
      λ e.
          left2
          ∙ ap (λ f. drop (cut_of l buffer f) buffer) e
          ∙ ap (λ n. drop n buffer) whole
          ∙ drop-length buffer,
      take cut buffer,
      ap (λ t. take cut buffer ++ t) left2 ∙ parts,
    )

-- Bytes that arrive in chunks, and the final write.
unfoldable pub log_stream : (Stream → Text → ℕ) → Stream → List Text → Log → Result (Unit {0}) × Log
unfolding write
log_stream size stream [] = write size stream [] true
log_stream size stream (bytes ∷ chunks) =
    Actions.◌>>=◌ (write size stream bytes false) (λ _. log_stream size stream chunks)

unfoldable pub joined_chunks : List Text → Text
joined_chunks [] = []
joined_chunks (bytes ∷ chunks) = bytes ++ joined_chunks chunks

-- A stream of ASCII bytes in which no secret occurs, not even across its chunks, is logged without
-- the loss or the change of a byte, however it is cut into chunks, if the limit of the log allows it.
pub log_stream-absent :
    (size : Stream → Text → ℕ) (stream : Stream) (chunks : List Text) (l l' : Log)
    → log_stream size stream chunks l ≡ (ok tt, l')
    → text_has_secret l.secrets (pending stream l ++ joined_chunks chunks) ≡ false
    → is_ascii (pending stream l ++ joined_chunks chunks) ≡ true
    → logged stream l'.lines ≡ logged stream l.lines ++ (pending stream l ++ joined_chunks chunks)
unfolding log_stream joined_chunks
log_stream-absent size stream [] l l' h clear ascii =
    let (text, secrets, ended, _, _) = write-absent size stream [] true l l' h clear ascii in
    sym (append_nil (logged stream l'.lines))
    ∙ ap (λ t. logged stream l'.lines ++ t) (sym (ended refl))
    ∙ text
log_stream-absent size stream (bytes ∷ chunks) l l' h clear ascii =
    let (u, first, rest) =
      bind-ok (write size stream bytes false) (λ _. log_stream size stream chunks) l l' tt h in
    let l1 = (write size stream bytes false l).1 in
    let done : write size stream bytes false l ≡ (ok tt, l1) = ground arith in
    let together = append_assoc (pending stream l) bytes (joined_chunks chunks) in
    let clear1 : text_has_secret l.secrets (pending stream l ++ bytes ++ joined_chunks chunks)
        ≡ false =
      rw together clear in
    let ascii1 : is_ascii (pending stream l ++ bytes ++ joined_chunks chunks) ≡ true =
      rw together ascii in
    let (text, secrets, ended, gone, split) =
      write-absent size stream bytes false l l1 done
        (text_has_secret-left l.secrets (pending stream l ++ bytes) (joined_chunks chunks) clear1)
        (is_ascii-left (pending stream l ++ bytes) (joined_chunks chunks) ascii1) in
    let apart =
      ap (λ t. t ++ joined_chunks chunks) (sym split)
      ∙ append_assoc gone (pending stream l1) (joined_chunks chunks) in
    let clear2 : text_has_secret l1.secrets (pending stream l1 ++ joined_chunks chunks) ≡ false =
      ap (λ ss. text_has_secret ss (pending stream l1 ++ joined_chunks chunks)) secrets
      ∙ text_has_secret-right l.secrets gone (pending stream l1 ++ joined_chunks chunks)
          (ap (text_has_secret l.secrets) (sym apart) ∙ clear1) in
    let ascii2 : is_ascii (pending stream l1 ++ joined_chunks chunks) ≡ true =
      is_ascii-right gone (pending stream l1 ++ joined_chunks chunks)
        (ap is_ascii (sym apart) ∙ ascii1) in
    let later : logged stream l1.lines ++ (pending stream l1 ++ joined_chunks chunks)
        ≡ logged stream l.lines ++ (pending stream l ++ (bytes ++ joined_chunks chunks)) =
      sym (append_assoc (logged stream l1.lines) (pending stream l1) (joined_chunks chunks))
      ∙ ap (λ t. t ++ joined_chunks chunks) text
      ∙ append_assoc (logged stream l.lines) (pending stream l ++ bytes) (joined_chunks chunks)
      ∙ ap (λ t. logged stream l.lines ++ t) together in
    log_stream-absent size stream chunks l1 l' rest clear2 ascii2 ∙ later
