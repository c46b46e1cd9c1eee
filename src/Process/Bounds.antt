-- ===== src/Process/Bounds.antt =====
-- infrastructure/process.py `_capture`: what is passed on, and when the workflow is let go.
use owlmatic.Prelude.{
  ℕ, ◌+◌, ◌≤◌, ◌≡◌, refl, Bool, true, false, ◌&&◌, not, Text, Option, none, some, codes, is_some,
  is_none, List, [], ◌∷◌, ◌++◌, sum_by, length, ltb, nat_beq, arith, Bool-cases, inl, inr,
  if◌then◌else◌,
}
use owlmatic.Prelude.Int.{ℤ}
use owlmatic.Errors.{Result, ok, err, raise_if, cancelled, timed_out, guard_failed, Result-cases}
use owlmatic.Actions.{
  after_result, Action, pure, lift, after_result, ◌>>=◌, ◌>>◌, Keeps, bind-Keeps, if-Keeps,
}
use owlmatic.Texts.{starts_with}
use owlmatic.Process.Status.{keeping, GuardStatus, int_of, from, read_line, read_bytes, feed}
use owlmatic.Process.Capture.{
  on_stream, on_status, fresh, Ready, CaptureTurn, capture, capture_turn, on_exit, drain, on_all,
  on_ready, pass_on, unwatch, acknowledge, stop_watching, beat, watches, unwatch_guard, is_zero,
  Stream, Output, Capture, feed_guard, on_status_bytes, on_stream_bytes,
}

-- The bytes that were passed on.
abbrev pub passed : List Output → ℕ
passed outputs = sum_by (λ o. length o.bytes) outputs

pub record IsCaptured (max_bytes : ℕ) (c : Capture) : Type 0 where
  pub bounded : passed c.outputs ≤ max_bytes
  pub counted : passed c.outputs ≤ c.received
  pub once : c.acknowledged ≤ 1
  pub known : is_none c.guard.child_pid ≡ true → c.acknowledged ≡ 0

passed-append :
    (outputs : List Output) (o : Output)
    → passed (outputs ++ o ∷ []) ≡ passed outputs + length o.bytes
passed-append [] o = ground arith
passed-append (x ∷ outputs) o = ground (arith, passed-append outputs o)

read_line-child :
    (line : Text) (g : GuardStatus)
    → is_none g.child_pid ≡ false
    → is_none (read_line line g).1.child_pid ≡ false
unfolding read_line
read_line-child line g h = elim (Result-cases (int_of (from 4 line))) [
  | inl (pid, good) ↦ unfold int_of in ground arith
  | inr (e, bad) ↦ unfold int_of in ground arith
]

after-child :
    (bytes : Text) (p : Result (Unit {0}) × GuardStatus)
    → ((g : GuardStatus)
        → is_none g.child_pid ≡ false
        → is_none (read_bytes bytes g).1.child_pid ≡ false)
    → is_none p.1.child_pid ≡ false
    → is_none
        (after_result (keeping bytes p).0 (λ _. read_bytes bytes) (keeping bytes p).1).1.child_pid
      ≡ false
after-child bytes (ok u, g) k h = k g h
after-child bytes (err e, g) k h = h

read_bytes-child :
    (bytes : Text) (g : GuardStatus)
    → is_none g.child_pid ≡ false
    → is_none (read_bytes bytes g).1.child_pid ≡ false
unfolding read_bytes
read_bytes-child [] g h = h
read_bytes-child (b ∷ bytes) g h = elim (Bool-cases (nat_beq b b'\n')) [
  | inr goes_on ↦
      rw (goes_on, read_bytes)
        (read_bytes-child bytes (record g { pending = g.pending ++ b ∷ [] }) h)
  | inl ends ↦
      let g' = record g { pending = [] } in
      rw (ends, read_bytes)
        (after-child bytes (read_line g.pending g') (read_bytes-child bytes)
          (read_line-child g.pending g' h))
]

feed-child :
    (bytes : Text) (g : GuardStatus)
    → is_none g.child_pid ≡ false
    → is_none (feed bytes g).1.child_pid ≡ false
unfolding feed
feed-child bytes g h = elim (Bool-cases (ltb 256 (g.received + length bytes))) [
  | inl large ↦ rw (large, feed) h
  | inr small ↦
      rw (small, feed)
        (read_bytes-child bytes (record g { received = g.received + length bytes }) h)
]

module _ (max_bytes : ℕ) where
  feed_guard-Keeps : (bytes : Text) → Keeps (IsCaptured max_bytes) (feed_guard bytes)
  unfolding feed_guard
  feed_guard-Keeps bytes c h = record {
    bounded = h.bounded;
    counted = h.counted;
    once = h.once;
    known = λ e. elim (Bool-cases (is_none c.guard.child_pid)) [
      | inl unknown ↦ h.known unknown
      | inr there ↦ absurd (ground (arith, feed-child bytes c.guard there))
    ];
  }

  unwatch-IsCaptured :
      (stream : Stream) (c : Capture)
      → IsCaptured max_bytes c
      → IsCaptured max_bytes (unwatch stream c)
  unwatch-IsCaptured Stream.stdout c h = record {
    bounded = h.bounded;
    counted = h.counted;
    once = h.once;
    known = h.known;
  }
  unwatch-IsCaptured Stream.stderr c h = record {
    bounded = h.bounded;
    counted = h.counted;
    once = h.once;
    known = h.known;
  }

  pass_on-IsCaptured :
      (o : Output) (c : Capture)
      → IsCaptured max_bytes c
      → passed c.outputs + length o.bytes ≤ max_bytes
      → passed c.outputs + length o.bytes ≤ c.received
      → IsCaptured max_bytes (pass_on o c)
  pass_on-IsCaptured o c h fits counted = record {
    bounded = ground (arith, passed-append c.outputs o);
    counted = ground (arith, passed-append c.outputs o);
    once = h.once;
    known = h.known;
  }

  on_stream-Keeps :
      (stream : Stream) (bytes : Text)
      → Keeps (IsCaptured max_bytes) (on_stream_bytes max_bytes stream bytes)
  unfolding on_stream_bytes
  on_stream-Keeps stream [] c h =
      let k = unwatch-IsCaptured stream c h in
      pass_on-IsCaptured (record { stream = stream; bytes = []; is_final = true })
        (unwatch stream c) k (ground (arith, k.bounded)) (ground (arith, k.counted))
  on_stream-Keeps stream (b ∷ bytes) c h =
      let more = record c { received = c.received + length (b ∷ bytes) } in
      let k : IsCaptured max_bytes more = record {
        bounded = h.bounded;
        counted = ground (arith, h.counted);
        once = h.once;
        known = h.known;
      } in
      elim (Bool-cases (ltb max_bytes more.received)) [
        | inl large ↦ rw (large, on_stream_bytes) k
        | inr small ↦
            rw (small, on_stream_bytes)
              (pass_on-IsCaptured (record { stream = stream; bytes = b ∷ bytes; is_final = false })
                more k (ground (arith, h.counted)) (ground (arith, h.counted)))
      ]

  stop_watching-Keeps : Keeps (IsCaptured max_bytes) stop_watching
  unfolding stop_watching
  stop_watching-Keeps c h = elim (Bool-cases (starts_with (codes "GUARD_FAILED") c.guard.result)) [
    | inl pending ↦ rw (pending, stop_watching) h
    | inr final ↦
        rw (final, stop_watching)
          (record { bounded = h.bounded; counted = h.counted; once = h.once; known = h.known })
  ]

  acknowledged-IsCaptured :
      (was_unknown : Bool) (c : Capture)
      → (was_unknown ≡ true → c.acknowledged ≡ 0)
      → IsCaptured max_bytes c
      → (was_unknown && is_some c.guard.child_pid) ≡ true
      → IsCaptured max_bytes (record c { acknowledged = c.acknowledged + 1 })
  acknowledged-IsCaptured was_unknown c k h new =
      let first : c.acknowledged ≡ 0 = k (ground arith) in
      record {
        bounded = h.bounded;
        counted = h.counted;
        once = ground arith;
        known = λ e. absurd (ground arith);
      }

  after_feed-IsCaptured :
      (was_unknown : Bool) (p : Result (Unit {0}) × Capture)
      → (was_unknown ≡ true → p.1.acknowledged ≡ 0)
      → IsCaptured max_bytes p.1
      → IsCaptured max_bytes
          (after_result p.0 (λ _. acknowledge was_unknown >> stop_watching) p.1).1
  after_feed-IsCaptured was_unknown (err e, c) k h = h
  after_feed-IsCaptured was_unknown (ok u, c) k h =
      unfold acknowledge in
      elim (Bool-cases (was_unknown && is_some c.guard.child_pid)) [
        | inl new ↦
            rw (new, acknowledge)
              (stop_watching-Keeps (record c { acknowledged = c.acknowledged + 1 })
                (acknowledged-IsCaptured was_unknown c k h new))
        | inr old ↦ rw (old, acknowledge) (stop_watching-Keeps c h)
      ]

  on_status-Keeps : (bytes : Text) → Keeps (IsCaptured max_bytes) (on_status_bytes bytes)
  unfolding on_status_bytes
  on_status-Keeps [] c h = record {
    bounded = h.bounded;
    counted = h.counted;
    once = h.once;
    known = h.known;
  }
  on_status-Keeps (b ∷ bytes) c h =
      after_feed-IsCaptured (is_none c.guard.child_pid) (feed_guard (b ∷ bytes) c)
        (λ e. unfold feed_guard in h.known e) (feed_guard-Keeps (b ∷ bytes) c h)

  on_ready-Keeps : (r : Ready) → Keeps (IsCaptured max_bytes) (on_ready max_bytes r)
  unfolding on_ready
  on_ready-Keeps (on_status bytes) = on_status-Keeps bytes
  on_ready-Keeps (on_stream stream bytes) = on_stream-Keeps stream bytes

  on_all-Keeps : (ready : List Ready) → Keeps (IsCaptured max_bytes) (on_all max_bytes ready)
  unfolding on_all
  on_all-Keeps [] = λ c h. h
  on_all-Keeps (r ∷ ready) =
      bind-Keeps (IsCaptured max_bytes) (on_ready max_bytes r) (λ _. on_all max_bytes ready)
        (on_ready-Keeps r) (λ _. on_all-Keeps ready)

  drain-Keeps : (rest : Option Text) → Keeps (IsCaptured max_bytes) (drain rest)
  unfolding drain
  drain-Keeps none c h = h
  drain-Keeps (some bytes) c h = feed_guard-Keeps bytes c h

  unwatch_guard-Keeps : Keeps (IsCaptured max_bytes) unwatch_guard
  unwatch_guard-Keeps c h = record {
    bounded = h.bounded;
    counted = h.counted;
    once = h.once;
    known = h.known;
  }

  on_exit-Keeps :
      (code : Option ℤ) (rest : Option Text) → Keeps (IsCaptured max_bytes) (on_exit code rest)
  unfolding on_exit
  on_exit-Keeps none rest = λ c h. h
  on_exit-Keeps (some code) rest =
      let last : Bool → Action Capture (Unit {0}) =
        λ watched. if watched then drain rest >> unwatch_guard else pure tt in
      let P = IsCaptured max_bytes in
      bind-Keeps P (lift (raise_if (not (is_zero code)) guard_failed)) (λ _. watches >>= last)
        (λ c h. h)
        (λ _.
          bind-Keeps P watches last (λ c h. h)
            (λ watched.
              if-Keeps P watched (drain rest >> unwatch_guard) (pure tt)
                (bind-Keeps P (drain rest) (λ _. unwatch_guard) (drain-Keeps rest)
                  (λ _. unwatch_guard-Keeps))
                (λ c h. h)))

  beat-Keeps : (due : Bool) → Keeps (IsCaptured max_bytes) (beat due)
  beat-Keeps true c h = record {
    bounded = h.bounded;
    counted = h.counted;
    once = h.once;
    known = h.known;
  }
  beat-Keeps false c h = h

  turn-Keeps : (t : CaptureTurn) → Keeps (IsCaptured max_bytes) (capture_turn max_bytes t)
  unfolding capture_turn
  turn-Keeps t =
      let P = IsCaptured max_bytes in
      let k3 : Action Capture (Unit {0}) =
        on_all max_bytes t.ready >> on_exit t.returncode t.last_read in
      let k2 : Action Capture (Unit {0}) = beat t.beat_due >> k3 in
      let k1 : Action Capture (Unit {0}) = lift (raise_if t.late timed_out) >> k2 in
      bind-Keeps P (lift (raise_if t.cancelled cancelled)) (λ _. k1) (λ c h. h)
        (λ _.
          bind-Keeps P (lift (raise_if t.late timed_out)) (λ _. k2) (λ c h. h)
            (λ _.
              bind-Keeps P (beat t.beat_due) (λ _. k3) (beat-Keeps t.beat_due)
                (λ _.
                  bind-Keeps P (on_all max_bytes t.ready) (λ _. on_exit t.returncode t.last_read)
                    (on_all-Keeps t.ready) (λ _. on_exit-Keeps t.returncode t.last_read))))

  capture-Keeps :
      (turns : List CaptureTurn) → Keeps (IsCaptured max_bytes) (capture max_bytes turns)
  unfolding capture
  capture-Keeps [] = λ c h. h
  capture-Keeps (t ∷ turns) =
      bind-Keeps (IsCaptured max_bytes) (capture_turn max_bytes t) (λ _. capture max_bytes turns)
        (turn-Keeps t) (λ _. capture-Keeps turns)

-- However the capture of a process goes and ends, the bytes that were passed to the observer are at
-- most the configured limit, and the guardian was told to let the workflow run at most once, and
-- never before the worker knew the process id.
pub capture-IsCaptured :
    (max_bytes : ℕ) (turns : List CaptureTurn)
    → IsCaptured max_bytes (capture max_bytes turns fresh).1
capture-IsCaptured max_bytes turns = capture-Keeps max_bytes turns fresh (record {
  bounded = ground arith;
  counted = ground arith;
  once = ground arith;
  known = λ e. refl;
})
