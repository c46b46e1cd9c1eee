-- ===== src/Host/Claude.antt =====
-- infrastructure/measurement/host_events.py `Events.feed`: the events of Claude, and the whole call.
use owlmatic.Prelude.{
  ℕ, ◌+◌, Bool, true, false, ◌&&◌, ◌||◌, not, Text, Option, none, some, [], ◌∷◌, ◌++◌, is_empty,
  if◌then◌else◌,
}
use owlmatic.Errors.{Result, ok}
use owlmatic.Actions.{Action, pure, lift, ◌>>=◌, ◌>>◌}
use owlmatic.Json.{
  Value, null, bool, int, real, str, arr, obj, Items, nil, cons, Fields, end, field,
}
use owlmatic.Measurement.{
  TokenUsage, session_summary_cannot_be_sliced, mixed_models, host_reported_error,
  message_identity_missing, nontext_tool_output, unsupported_partial_stream_format,
  subagent_usage_unattributed,
}
use owlmatic.Host.Decoding.{get, object_value, text_value, usage, total, says, one_of, is_truthy}
use owlmatic.Host.Entries.{
  Events, find_entry, values_of, add_issue, flag, modify, check_usage, decimal, key_or,
}
use owlmatic.Host.Feeding.{
  is_object, message_of, count_tokens, mark_started, note_models, set_complete, put_usage,
  put_output, by_kind,
}

-- len(model_usage) > 1
abbrev pub has_two : Fields → Bool
has_two end = false
has_two (field k v end) = false
has_two (field k v (field l w fs)) = true

abbrev pub set_cumulative : TokenUsage → Events → Events
set_cumulative u e = record e { cumulative = some u }

-- kind == "result"
unfoldable pub feed_result : Fields → Action Events (Unit {0})
unfolding get object_value usage total values_of check_usage is_truthy flag
feed_result event = do
  u ← lift (usage (object_value (get "usage" event)) true)
  before ← (λ e. (total (values_of e.usages), e))
  modify (check_usage before u)
  modify (set_cumulative u)
  modify (λ e. flag e.partial_selection session_summary_cannot_be_sliced e)
  modify (flag (has_two (object_value (get "modelUsage" event))) mixed_models)
  modify (set_complete (not (is_truthy (get "is_error" event))))
  modify (flag (is_truthy (get "is_error" event)) host_reported_error)

-- if raw and key: ... elif raw: ...
unfoldable pub keep_message : Fields → Fields → Option Text → Action Events (Unit {0})
unfolding get usage one_of find_entry check_usage put_usage add_issue
keep_message message raw none =
    if is_object raw then modify (add_issue message_identity_missing) else pure tt
keep_message message raw (some key) =
    if is_object raw && not (is_empty key)
    then (do
      u ← lift (usage raw true)
      modify (λ e. check_usage (find_entry key e.usages) u e)
      modify (put_usage key u)
      stopped ← lift (one_of ("end_turn" ∷ "stop_sequence" ∷ []) (get "stop_reason" message))
      modify (set_complete stopped))
    else if is_object raw
    then modify (add_issue message_identity_missing)
    else pure tt

-- kind == "assistant"
unfoldable pub feed_assistant : Fields → Action Events (Unit {0})
unfolding get object_value text_value keep_message message_of
feed_assistant event =
    let message = message_of event in
    keep_message message (object_value (get "usage" message)) (text_value (get "id" message))

abbrev pub join_chunk : Option Text → Option Text → Option Text
join_chunk none rest = none
join_chunk (some chunk) none = none
join_chunk (some chunk) (some rest) = some (chunk ++ b'\n' ∷ rest)

-- "\n".join of the texts, if every one is a text.
unfoldable pub joined : Items → Option Text
unfolding get object_value text_value
joined nil = some []
joined (cons item nil) = text_value (get "text" (object_value (some item)))
joined (cons item (cons next items)) =
    join_chunk (text_value (get "text" (object_value (some item)))) (joined (cons next items))

-- str(block.get("tool_use_id") or f"{line}:{index}")
unfoldable pub block_key : (Value → Text) → Fields → ℕ → ℕ → Text
unfolding get key_or decimal
block_key repr block line index =
    key_or repr (get "tool_use_id" block) (decimal line ++ b':' ∷ decimal index)

unfoldable pub put_joined : Text → Option Text → Events → Events
unfolding put_output add_issue
put_joined key none e = add_issue nontext_tool_output e
put_joined key (some output) e = put_output key output e

-- The content of one tool result.
unfoldable pub keep_result : Text → Option Value → Events → Events
unfolding joined put_output put_joined
keep_result key (some (str s)) e = put_output key s e
keep_result key (some (arr items)) e = put_joined key (joined items) e
keep_result key (some null) e = e
keep_result key (some (bool b)) e = e
keep_result key (some (int n)) e = e
keep_result key (some (real x)) e = e
keep_result key (some (obj fs)) e = e
keep_result key none e = e

unfoldable pub is_result : Value → Bool
unfolding get object_value says
is_result part = says "tool_result" (get "type" (object_value (some part)))

module _ (repr : Value → Text) (line : ℕ) where
  -- for index, part in enumerate(content): ...
  unfoldable pub keep_results : ℕ → Items → Events → Events
  unfolding get object_value keep_result block_key is_result
  keep_results index nil e = e
  keep_results index (cons part parts) e = keep_results (index + 1) parts (
      if is_result part
      then keep_result (block_key repr (object_value (some part)) line index)
          (get "content" (object_value (some part))) e
      else e)

unfoldable pub has_result : Items → Bool
unfolding is_result
has_result nil = false
has_result (cons part parts) = is_result part || has_result parts

-- if not results: ...
abbrev pub prompt_unless : Bool → Events → Events
prompt_unless true e = e
prompt_unless false e = record e {
  human_prompts = e.human_prompts + 1;
  complete = false;
  started = true;
}

abbrev pub items_of : Option Value → Items
items_of (some (arr xs)) = xs
items_of (some null) = nil
items_of (some (bool b)) = nil
items_of (some (int n)) = nil
items_of (some (real x)) = nil
items_of (some (str s)) = nil
items_of (some (obj fs)) = nil
items_of none = nil

-- kind == "user"
unfoldable pub feed_user : (Value → Text) → Fields → ℕ → Events → Events
unfolding get keep_results has_result message_of
feed_user repr event line e =
    let content = items_of (get "content" (message_of event)) in
    prompt_unless (has_result content) (keep_results repr line 0 content e)

-- if event.get("parent_tool_use_id") or event.get("isSidechain"): ...
unfoldable pub note_subagent : Fields → Events → Events
unfolding get is_truthy flag
note_subagent event =
    flag (is_truthy (get "parent_tool_use_id" event) || is_truthy (get "isSidechain" event))
      subagent_usage_unattributed

-- self.claude
abbrev pub claude_of : Events → Result Bool × Events
claude_of e = (ok e.claude, e)

module _ (repr : Value → Text) (event : Fields) (line : ℕ) where
  unfoldable pub by_claude_kind : Action Events (Unit {0})
  unfolding get says feed_result feed_assistant feed_user add_issue
  by_claude_kind =
      if says "result" (get "type" event)
      then feed_result event
      else if says "assistant" (get "type" event)
      then feed_assistant event
      else if says "user" (get "type" event)
      then modify (feed_user repr event line)
      else if says "stream_event" (get "type" event)
      then modify (add_issue unsupported_partial_stream_format)
      else pure tt

  unfoldable pub feed_claude : Action Events (Unit {0})
  unfolding by_claude_kind note_subagent
  feed_claude = do by_claude_kind; modify (note_subagent event)

  -- The part of `feed` for the lines of the selected range.
  unfoldable pub feed_included : Action Events (Unit {0})
  unfolding mark_started note_models by_kind feed_claude
  feed_included = do
    mark_started event
    modify (note_models event)
    by_kind repr event line
    claude ← claude_of
    if claude then feed_claude else pure tt

  unfoldable pub feed : Bool → Action Events (Unit {0})
  unfolding count_tokens feed_included
  feed included = do count_tokens event included; if included then feed_included else pure tt
