-- ===== src/Host/Issues.antt =====
-- infrastructure/measurement/host_events.py: an issue that was noted stays.
use owlmatic.Prelude.{
  ℕ, ◌+◌, ◌≡◌, refl, Bool, true, false, Text, Option, none, some, arith, is_empty, Bool-cases, inl,
  inr, if◌then◌else◌,
}
use owlmatic.Errors.{Result}
use owlmatic.Actions.{Action, pure, lift, ◌>>=◌, ◌>>◌, Keeps, bind-Keeps, if-Keeps}
use owlmatic.Json.{Value, Items, nil, cons, Fields}
use owlmatic.Measurement.{TokenUsage, Issue, unsupported_partial_stream_format}
use owlmatic.Host.Decoding.{says, get, object_value, text_value}
use owlmatic.Host.Entries.{Events, add_issue, flag, modify, check_usage, key_or, decimal}
use owlmatic.Host.Feeding.{
  payload_of, message_of, keep_count, count_tokens, mark_started, note_models, add_model,
  turn_completed, event_message, item_completed, response_item, note_output, put_usage, put_output,
  note_output, turn_completed, event_message, item_completed, response_item, by_kind,
}
use owlmatic.Host.Claude.{
  block_key, items_of, has_result, feed_result, feed_assistant, keep_result, is_result,
  keep_results, feed_user, feed_claude, by_claude_kind, note_subagent, claude_of, feed_user,
  feed_included, feed, prompt_unless, keep_result, keep_results, is_result, feed_included, feed,
}

abbrev pub HasIssue : Events → Type 0
HasIssue e = is_empty e.issues ≡ false

lift-Keeps : {A : Type 0} (r : Result A) → Keeps HasIssue (lift {S = Events} r)
lift-Keeps r s p = p

modify-Keeps :
    (f : Events → Events) → ((e : Events) → HasIssue e → HasIssue (f e)) → Keeps HasIssue (modify f)
modify-Keeps f k s p = k s p

flag-HasIssue : (b : Bool) (i : Issue) (e : Events) → HasIssue e → HasIssue (flag b i e)
unfolding flag add_issue
flag-HasIssue b i e h = ground arith

check_usage-HasIssue :
    (p : Option TokenUsage) (u : TokenUsage) (e : Events)
    → HasIssue e
    → HasIssue (check_usage p u e)
unfolding check_usage
check_usage-HasIssue p u e h = flag-HasIssue _ _ e h

keep_count-HasIssue :
    (u : TokenUsage) (b : Bool) (e : Events) → HasIssue e → HasIssue (keep_count u b e)
unfolding keep_count
keep_count-HasIssue u true e h = h
keep_count-HasIssue u false e h = h

count_tokens-Keeps :
    (event : Fields) (included : Bool) → Keeps HasIssue (count_tokens event included)
unfolding count_tokens check_usage flag add_issue keep_count
count_tokens-Keeps event included s p = ground arith

mark_started-Keeps : (event : Fields) → Keeps HasIssue (mark_started event)
unfolding mark_started
mark_started-Keeps event s p = ground arith

add_model-issues : (m : Option Text) (e : Events) → (add_model m e).issues ≡ e.issues
unfolding add_model
add_model-issues none e = refl
add_model-issues (some m) e = refl

note_models-issues : (event : Fields) (e : Events) → (note_models event e).issues ≡ e.issues
unfolding note_models
note_models-issues event e = rw (add_model-issues, add_model-issues, add_model-issues) refl

note_models-HasIssue : (event : Fields) (e : Events) → HasIssue e → HasIssue (note_models event e)
note_models-HasIssue event e h = rw (note_models-issues event e) h

note_output-HasIssue :
    (key : Text) (output : Option Text) (e : Events)
    → HasIssue e
    → HasIssue (note_output key output e)
unfolding note_output put_output add_issue
note_output-HasIssue key none e h = refl
note_output-HasIssue key (some output) e h = h

module _ (repr : Value → Text) (event : Fields) (line : ℕ) where
  turn_completed-Keeps : Keeps HasIssue (turn_completed repr event line)
  unfolding turn_completed put_usage
  turn_completed-Keeps s p = ground arith

  event_message-Keeps : Keeps HasIssue (event_message repr event line)
  unfolding event_message
  event_message-Keeps s p = ground arith

  item_completed-Keeps : Keeps HasIssue (item_completed repr event line)
  unfolding item_completed
  item_completed-Keeps s p = ground (
    arith,
    note_output-HasIssue (key_or repr (get "id" (object_value (get "item" event))) (decimal line))
        (text_value (get "aggregated_output" (object_value (get "item" event)))) s p,
  )

  response_item-Keeps : Keeps HasIssue (response_item repr event line)
  unfolding response_item
  response_item-Keeps s p = ground (
    arith,
    note_output-HasIssue (key_or repr (get "call_id" (payload_of event)) (decimal line))
        (text_value (get "output" (payload_of event))) s p,
  )

  by_kind-Keeps : Keeps HasIssue (by_kind repr event line)
  unfolding by_kind
  by_kind-Keeps s p = ground (
    arith,
    turn_completed-Keeps s p,
    event_message-Keeps s p,
    item_completed-Keeps s p,
    response_item-Keeps s p,
  )

feed_result-Keeps : (event : Fields) → Keeps HasIssue (feed_result event)
unfolding feed_result check_usage flag add_issue
feed_result-Keeps event s p = ground arith

feed_assistant-Keeps : (event : Fields) → Keeps HasIssue (feed_assistant event)
unfolding feed_assistant check_usage flag add_issue put_usage
feed_assistant-Keeps event s p = ground arith

keep_result-HasIssue :
    (key : Text) (content : Option Value) (e : Events)
    → HasIssue e
    → HasIssue (keep_result key content e)
unfolding keep_result put_output add_issue
keep_result-HasIssue key content e h = ground arith

keep_results-HasIssue :
    (repr : Value → Text) (line index : ℕ) (parts : Items) (e : Events)
    → HasIssue e
    → HasIssue (keep_results repr line index parts e)
unfolding keep_results
keep_results-HasIssue repr line index nil e h = h
keep_results-HasIssue repr line index (cons part parts) e h =
    keep_results-HasIssue repr line (index + 1) parts _ (elim (Bool-cases (is_result part)) [
      | inl r ↦
          let key = block_key repr (object_value (some part)) line index in
          rw r (keep_result-HasIssue key (get "content" (object_value (some part))) e h)
      | inr r ↦ rw r h
    ])

prompt_unless-issues : (b : Bool) (e : Events) → (prompt_unless b e).issues ≡ e.issues
prompt_unless-issues true e = refl
prompt_unless-issues false e = refl

module _ (repr : Value → Text) (event : Fields) (line : ℕ) where
  feed_user-HasIssue : (e : Events) → HasIssue e → HasIssue (feed_user repr event line e)
  unfolding feed_user
  feed_user-HasIssue e h =
      let content = items_of (get "content" (message_of event)) in
      rw (prompt_unless-issues (has_result content) (keep_results repr line 0 content e))
        (keep_results-HasIssue repr line 0 content e h)

  other_claude-Keeps : Keeps HasIssue (
      if says "stream_event" (get "type" event)
      then modify (add_issue unsupported_partial_stream_format)
      else pure tt)
  unfolding add_issue
  other_claude-Keeps s p = ground arith

  by_claude_kind-Keeps : Keeps HasIssue (by_claude_kind repr event line)
  unfolding by_claude_kind
  by_claude_kind-Keeps s p = ground (
    arith,
    feed_result-Keeps event s p,
    feed_assistant-Keeps event s p,
    feed_user-HasIssue s p,
    other_claude-Keeps s p,
  )

  feed_claude-Keeps : Keeps HasIssue (feed_claude repr event line)
  unfolding feed_claude
  feed_claude-Keeps =
      bind-Keeps HasIssue (by_claude_kind repr event line) (λ _. modify (note_subagent event))
        by_claude_kind-Keeps (λ _ s p. flag-HasIssue _ _ s p)

  feed_claude_if-Keeps :
      (claude : Bool) → Keeps HasIssue (if claude then feed_claude repr event line else pure tt)
  feed_claude_if-Keeps claude =
      if-Keeps HasIssue claude (feed_claude repr event line) (pure tt) feed_claude-Keeps (λ s p. p)

  feed_included-Keeps : Keeps HasIssue (feed_included repr event line)
  unfolding feed_included
  feed_included-Keeps =
      let k4 : Bool → Action Events (Unit {0}) =
        λ claude. if claude then feed_claude repr event line else pure tt in
      let k3 : Action Events (Unit {0}) = claude_of >>= k4 in
      let k2 : Action Events (Unit {0}) = by_kind repr event line >> k3 in
      let k1 : Action Events (Unit {0}) = modify (note_models event) >> k2 in
      bind-Keeps HasIssue (mark_started event) (λ _. k1) (mark_started-Keeps event)
        (λ _.
          bind-Keeps HasIssue (modify (note_models event)) (λ _. k2) (note_models-HasIssue event)
            (λ _.
              bind-Keeps HasIssue (by_kind repr event line) (λ _. k3)
                (by_kind-Keeps repr event line)
                (λ _. bind-Keeps HasIssue claude_of k4 (λ s p. p) feed_claude_if-Keeps)))

  -- Whatever an event is, and whether it raises or not, an issue that was noted before it stays.
  pub feed-HasIssue : (included : Bool) → Keeps HasIssue (feed repr event line included)
  unfolding feed
  feed-HasIssue included =
      bind-Keeps HasIssue (count_tokens event included)
        (λ _. if included then feed_included repr event line else pure tt)
        (count_tokens-Keeps event included)
        (λ _.
          if-Keeps HasIssue included (feed_included repr event line) (pure tt) feed_included-Keeps
            (λ s p. p))
