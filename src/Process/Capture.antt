-- ===== src/Process/Capture.antt =====
-- infrastructure/process.py `SubprocessWorkflow._capture`: what the selector and the guardian's
-- process answer in each turn is given; what is passed to the observer is kept in order. Exceptions
-- of the observer are not modelled here.
use owlmatic.Prelude.{
  ℕ, zero, suc, ◌+◌, Bool, true, false, ◌&&◌, not, Text, Option, none, some, is_some, is_none, List,
  [], ◌∷◌, ◌++◌, ltb, length, codes, if◌then◌else◌,
}
use owlmatic.Prelude.Int.{ℤ, pos, negsuc}
use owlmatic.Errors.{
  Result, ok, err, owl, raise_if, cancelled, timed_out, guard_failed, output_limit,
}
use owlmatic.Actions.{Action, pure, lift, ◌>>=◌, ◌>>◌}
use owlmatic.Texts.{starts_with}
use owlmatic.Process.Status.{GuardStatus, no_status, feed}

pub data Stream : Type 0 where
  stdout stderr : Stream

-- Bytes that were read; none are left where there are no bytes.
pub data Ready : Type 0 where
  on_status : Text → Ready
  on_stream : Stream → Text → Ready

pub record CaptureTurn : Type 0 where
  pub cancelled : Bool
  pub late : Bool
  pub beat_due : Bool
  pub ready : List Ready
  pub returncode : Option ℤ
  pub last_read : Option Text

pub record Output : Type 0 where
  pub stream : Stream
  pub bytes : Text
  pub is_final : Bool

-- `acknowledged` counts the writes of "S" to the control pipe.
pub record Capture : Type 0 where
  pub guard : GuardStatus
  pub received : ℕ
  pub watches_status : Bool
  pub watches_stdout : Bool
  pub watches_stderr : Bool
  pub acknowledged : ℕ
  pub heartbeats : ℕ
  pub outputs : List Output

abbrev pub fresh : Capture
fresh = record {
  guard = no_status;
  received = 0;
  watches_status = true;
  watches_stdout = true;
  watches_stderr = true;
  acknowledged = 0;
  heartbeats = 0;
  outputs = [];
}

-- state.feed(data)
unfoldable pub feed_guard : Text → Action Capture (Unit {0})
unfolding feed
feed_guard bytes c = let (r, g) = feed bytes c.guard in (r, record c { guard = g })

abbrev pub unwatch_status : Capture → Capture
unwatch_status c = record c { watches_status = false }

unfoldable pub acknowledge : Bool → Action Capture (Unit {0})
acknowledge was_unknown c =
    if was_unknown && is_some c.guard.child_pid
    then (ok tt, record c { acknowledged = c.acknowledged + 1 })
    else (ok tt, c)

unfoldable pub stop_watching : Action Capture (Unit {0})
unfolding starts_with
stop_watching c =
    (ok tt, if starts_with (codes "GUARD_FAILED") c.guard.result then c else unwatch_status c)

abbrev pub is_unknown : Capture → Result Bool × Capture
is_unknown c = (ok (is_none c.guard.child_pid), c)

unfoldable pub on_status_bytes : Text → Action Capture (Unit {0})
unfolding feed_guard acknowledge stop_watching
on_status_bytes [] = λ c. (ok tt, unwatch_status c)
on_status_bytes (b ∷ bytes) = do
  was_unknown ← is_unknown
  feed_guard (b ∷ bytes)
  acknowledge was_unknown
  stop_watching

abbrev pub unwatch : Stream → Capture → Capture
unwatch Stream.stdout c = record c { watches_stdout = false }
unwatch Stream.stderr c = record c { watches_stderr = false }

abbrev pub pass_on : Output → Capture → Capture
pass_on o c = record c { outputs = c.outputs ++ o ∷ [] }

unfoldable pub on_stream_bytes : ℕ → Stream → Text → Action Capture (Unit {0})
on_stream_bytes max_bytes stream [] c =
    (ok tt, pass_on (record { stream = stream; bytes = []; is_final = true }) (unwatch stream c))
on_stream_bytes max_bytes stream (b ∷ bytes) c =
    let c' = record c { received = c.received + length (b ∷ bytes) } in
    if ltb max_bytes c'.received
    then (err (owl output_limit), c')
    else (ok tt, pass_on (record { stream = stream; bytes = b ∷ bytes; is_final = false }) c')

unfoldable pub on_ready : ℕ → Ready → Action Capture (Unit {0})
unfolding on_status_bytes on_stream_bytes
on_ready max_bytes (on_status bytes) = on_status_bytes bytes
on_ready max_bytes (on_stream stream bytes) = on_stream_bytes max_bytes stream bytes

-- for event, _ in selector.select(timeout=0.1): ...
unfoldable pub on_all : ℕ → List Ready → Action Capture (Unit {0})
unfolding on_ready
on_all max_bytes [] = pure tt
on_all max_bytes (r ∷ ready) = do on_ready max_bytes r; on_all max_bytes ready

abbrev pub is_zero : ℤ → Bool
is_zero (pos zero) = true
is_zero (pos (suc n)) = false
is_zero (negsuc n) = false

unfoldable pub drain : Option Text → Action Capture (Unit {0})
unfolding feed_guard
drain none = pure tt
drain (some bytes) = feed_guard bytes

abbrev pub watches : Capture → Result Bool × Capture
watches c = (ok c.watches_status, c)

abbrev pub unwatch_guard : Capture → Result (Unit {0}) × Capture
unwatch_guard c = (ok tt, unwatch_status c)

-- if process.poll() is not None: ...
unfoldable pub on_exit : Option ℤ → Option Text → Action Capture (Unit {0})
unfolding drain
on_exit none last_read = pure tt
on_exit (some code) last_read = do
  lift (raise_if (not (is_zero code)) guard_failed)
  watched ← watches
  if watched then (do drain last_read; unwatch_guard) else pure tt

abbrev pub beat : Bool → Capture → Result (Unit {0}) × Capture
beat due c = (ok tt, if due then record c { heartbeats = c.heartbeats + 1 } else c)

unfoldable pub capture_turn : ℕ → CaptureTurn → Action Capture (Unit {0})
unfolding on_all on_exit
capture_turn max_bytes t = do
  lift (raise_if t.cancelled cancelled)
  lift (raise_if t.late timed_out)
  beat t.beat_due
  on_all max_bytes t.ready
  on_exit t.returncode t.last_read

-- The loop over the turns that are taken: it goes on while a stream is watched or the guardian runs.
unfoldable pub capture : ℕ → List CaptureTurn → Action Capture (Unit {0})
unfolding capture_turn
capture max_bytes [] = pure tt
capture max_bytes (t ∷ turns) = do capture_turn max_bytes t; capture max_bytes turns
