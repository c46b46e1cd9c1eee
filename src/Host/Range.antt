-- ===== src/Host/Range.antt =====
-- infrastructure/measurement/host_events.py `feed`: lines outside the selected range, and events
-- whose type is no text.
use owlmatic.Prelude.{ℕ, ◌≡◌, refl, true, false, Text, some, arith}
use owlmatic.Errors.{err, unexpected}
use owlmatic.Json.{Value, arr, Items, Fields}
use owlmatic.Host.Decoding.{one_of, says, get}
use owlmatic.Host.Entries.{Events, add_issue, flag, check_usage}
use owlmatic.Host.Feeding.{by_kind, is_task_start, mark_started, keep_count, count_tokens}
use owlmatic.Host.Claude.{feed_included, feed}

-- What only the lines of the selected range may write.
pub record IsSelected (e e' : Events) : Type 0 where
  pub usages : e'.usages ≡ e.usages
  pub outputs : e'.outputs ≡ e.outputs
  pub models : e'.models ≡ e.models
  pub complete : e'.complete ≡ e.complete
  pub human_prompts : e'.human_prompts ≡ e.human_prompts
  pub cumulative : e'.cumulative ≡ e.cumulative
  pub started : e'.started ≡ e.started
  pub run_ids : e'.run_ids ≡ e.run_ids
  pub selection : (e'.claude ≡ e.claude) × (e'.partial_selection ≡ e.partial_selection)

-- A line outside the selected range leaves every output, usage, model, prompt and cumulative count
-- of the selection as it was, whether it raises or not; it may only set the initial count or note
-- an issue.
pub feed-excluded :
    (repr : Value → Text) (event : Fields) (line : ℕ) (e : Events)
    → IsSelected e (feed repr event line false e).1
unfolding feed count_tokens check_usage flag add_issue keep_count
feed-excluded repr event line e = record {
  usages = ground arith;
  outputs = ground arith;
  models = ground arith;
  complete = ground arith;
  human_prompts = ground arith;
  cumulative = ground arith;
  started = ground arith;
  run_ids = ground arith;
  selection = (ground arith, ground arith);
}

-- A selected event whose type is a list makes the reader raise an exception that it does not catch.
pub feed-unhashable :
    (repr : Value → Text) (event : Fields) (line : ℕ) (xs : Items) (e : Events)
    → get "type" event ≡ some (arr xs)
    → (feed repr event line true e).0 ≡ err unexpected
unfolding feed count_tokens feed_included mark_started is_task_start by_kind says one_of
feed-unhashable repr event line xs e h =
    rw (h, feed, count_tokens, feed_included, mark_started, is_task_start, by_kind) refl
