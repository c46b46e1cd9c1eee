-- ===== src/Artifacts/Logs.antt =====
-- infrastructure/logs.py `RedactedLog`. What is read is bytes, the text of a line is decoded; secrets
-- are ASCII, so that the order of their lengths is that of their bytes; `size` is the length of the
-- line of JSON that is written for a stream and its text.
use owlmatic.Prelude.{
  ℕ, ◌+◌, ◌-◌, Bool, ◌&&◌, Text, List, [], ◌∷◌, ◌++◌, take, drop, max, ltb, length, contains,
  text_eq, if◌then◌else◌,
}
use owlmatic.Errors.{Result, ok, err, owl, output_limit}
use owlmatic.Texts.{decode, starts_with}
use owlmatic.Redaction.{clean_text}
use owlmatic.Policy.{longest_first}
use owlmatic.Process.{Stream}

pub record Line : Type 0 where
  pub stream : Stream
  pub text : Text

pub record Log : Type 0 where
  pub secrets : List Text
  pub keep : ℕ
  pub pending_stdout : Text
  pub pending_stderr : Text
  pub bytes_written : ℕ
  pub limit : ℕ
  pub lines : List Line

-- set(secrets)
unfoldable pub once : List Text → List Text
once [] = []
once (s ∷ secrets) = if contains s secrets then once secrets else s ∷ once secrets

-- max((len(s) for s in secrets), default=1)
unfoldable pub longest : List Text → ℕ
longest [] = 1
longest (s ∷ []) = length s
longest (s ∷ t ∷ secrets) = max (length s) (longest (t ∷ secrets))

-- `RedactedLog(...)`
unfoldable pub new_log : List Text → ℕ → Log
unfolding once longest longest_first
new_log secrets max_bytes =
    let sorted = longest_first (once secrets) in
    record {
      secrets = sorted;
      keep = longest sorted - 1;
      pending_stdout = [];
      pending_stderr = [];
      bytes_written = 0;
      limit = max_bytes;
      lines = [];
    }

abbrev pub pending : Stream → Log → Text
pending Stream.stdout l = l.pending_stdout
pending Stream.stderr l = l.pending_stderr

abbrev pub with_pending : Stream → Text → Log → Log
with_pending Stream.stdout t l = record l { pending_stdout = t }
with_pending Stream.stderr t l = record l { pending_stderr = t }

-- The occurrences of a secret from an offset on: one that the cut would split moves the cut.
unfoldable pub move_cut : Text → ℕ → ℕ → Text → ℕ
unfolding starts_with
move_cut secret offset cut [] = cut
move_cut secret offset cut (c ∷ rest) =
    move_cut secret (offset + 1)
      (if starts_with secret (c ∷ rest) && ltb offset cut && ltb cut (offset + length secret)
        then offset
        else cut)
      rest

-- for secret in self.secrets: ...
unfoldable pub move_all : List Text → ℕ → Text → ℕ
unfolding move_cut
move_all [] cut buffer = cut
move_all (s ∷ secrets) cut buffer = move_all secrets (move_cut s 0 cut buffer) buffer

unfoldable pub cut_of : Log → Text → Bool → ℕ
unfolding move_all
cut_of l buffer final =
    move_all l.secrets (if final then length buffer else length buffer - l.keep) buffer

-- The write of a line; the count of the bytes goes up before the limit is checked.
unfoldable pub append : (Stream → Text → ℕ) → Stream → Text → Log → Result (Unit {0}) × Log
unfolding decode
append size stream [] l = (ok tt, l)
append size stream (c ∷ ready) l =
    let text = decode (c ∷ ready) in
    let written = l.bytes_written + size stream text in
    if ltb l.limit written
    then (err (owl output_limit), record l { bytes_written = written })
    else (
      ok tt,
      record l {
        bytes_written = written;
        lines = l.lines ++ record { stream = stream; text = text } ∷ [];
      },
    )

unfoldable pub write : (Stream → Text → ℕ) → Stream → Text → Bool → Log → Result (Unit {0}) × Log
unfolding cut_of clean_text append
write size stream bytes final l =
    let buffer = pending stream l ++ bytes in
    let cut = cut_of l buffer final in
    append size stream (clean_text l.secrets (take cut buffer))
      (with_pending stream (drop cut buffer) l)
