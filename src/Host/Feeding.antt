-- ===== src/Host/Feeding.antt =====
-- infrastructure/measurement/host_events.py `Events.feed`, in the order of its statements. What an
-- event wrote before it raised stays written.
use owlmatic.Prelude.{
  ℕ, ◌+◌, Bool, true, false, ◌&&◌, ◌||◌, Text, Option, none, some, [], ◌∷◌, if◌then◌else◌,
}
use owlmatic.Errors.{Result, ok}
use owlmatic.Actions.{Action, pure, lift, ◌>>=◌, ◌>>◌}
use owlmatic.Json.{Value, Fields, end, field}
use owlmatic.Measurement.{TokenUsage, tool_output_format_unavailable}
use owlmatic.Host.Decoding.{get, object_value, text_value, usage, says, one_of}
use owlmatic.Host.Entries.{
  Events, put_entry, add_text, add_issue, modify, check_usage, decimal, key_or,
}

abbrev pub is_object : Fields → Bool
is_object end = false
is_object (field k v fs) = true

-- first or second, of two optional records
abbrev pub or_else {ℓ} : {A : Type ℓ} → Option A → Option A → Option A
or_else none second = second
or_else (some a) second = some a

unfoldable pub payload_of : Fields → Fields
unfolding get object_value
payload_of event = object_value (get "payload" event)

unfoldable pub message_of : Fields → Fields
unfolding get object_value
message_of event = object_value (get "message" event)

unfoldable pub keep_count : TokenUsage → Bool → Events → Events
keep_count u true e = record e { cumulative = some u }
keep_count u false e = record e { initial = some u }

-- if kind == "event_msg" and payload.get("type") == "token_count": ...
unfoldable pub count_tokens : Fields → Bool → Action Events (Unit {0})
unfolding get object_value says usage check_usage keep_count payload_of
count_tokens event included =
    let raw =
      object_value (get "total_token_usage" (object_value (get "info" (payload_of event)))) in
    if says "event_msg" (get "type" event)
      && says "token_count" (get "type" (payload_of event))
      && is_object raw
    then (do
      u ← lift (usage raw false)
      modify (λ e. check_usage (or_else e.cumulative e.initial) u e)
      modify (keep_count u included))
    else pure tt

-- payload.get("type") in {"task_started", "user_message"}, if the event is an "event_msg"
unfoldable pub is_task_start : Fields → Result Bool
unfolding get says one_of payload_of
is_task_start event =
    if says "event_msg" (get "type" event)
    then one_of ("task_started" ∷ "user_message" ∷ []) (get "type" (payload_of event))
    else ok false

abbrev pub set_started : Bool → Events → Events
set_started test e = record e { started = test || e.started }

unfoldable pub mark_started : Fields → Action Events (Unit {0})
unfolding get says is_task_start
mark_started event =
    if says "turn.started" (get "type" event)
    then modify (set_started true)
    else (do begins ← lift (is_task_start event); modify (set_started begins))

unfoldable pub add_model : Option Text → Events → Events
unfolding add_text
add_model none e = e
add_model (some m) e = record e { models = add_text m e.models }

unfoldable pub note_models : Fields → Events → Events
unfolding get text_value add_model message_of payload_of
note_models event e = add_model (text_value (get "model" (message_of event))) (
    add_model (text_value (get "model" (payload_of event)))
      (add_model (text_value (get "model" event)) e))

abbrev pub set_complete : Bool → Events → Events
set_complete done e = record e { complete = done }

-- self.complete = False; self.human_prompts += int(prompted)
abbrev pub reopen : Bool → Events → Events
reopen prompted e = record e {
  complete = false;
  human_prompts = if prompted then e.human_prompts + 1 else e.human_prompts;
}

unfoldable pub put_usage : Text → TokenUsage → Events → Events
unfolding put_entry
put_usage key u e = record e { usages = put_entry key u e.usages }

unfoldable pub put_output : Text → Text → Events → Events
unfolding put_entry
put_output key output e = record e { outputs = put_entry key output e.outputs }

-- The output of a tool, if it is a text.
unfoldable pub note_output : Text → Option Text → Events → Events
unfolding put_output add_issue
note_output key none e = add_issue tool_output_format_unavailable e
note_output key (some output) e = put_output key output e

module _ (repr : Value → Text) (event : Fields) (line : ℕ) where
  unfoldable pub turn_completed : Action Events (Unit {0})
  unfolding get object_value usage key_or decimal put_usage
  turn_completed = do
    u ← lift (usage (object_value (get "usage" event)) false)
    modify (put_usage (key_or repr (get "id" event) (decimal line)) u)
    modify (set_complete true)

  unfoldable pub event_message : Action Events (Unit {0})
  unfolding get says one_of payload_of
  event_message =
      if says "task_complete" (get "type" (payload_of event))
      then modify (set_complete true)
      else (do
        begins ←
            lift (one_of ("task_started" ∷ "user_message" ∷ []) (get "type" (payload_of event)))
        if begins
            then modify (reopen (says "user_message" (get "type" (payload_of event))))
            else pure tt)

  unfoldable pub item_completed : Action Events (Unit {0})
  unfolding get object_value text_value one_of key_or decimal note_output
  item_completed = do
    let item = object_value (get "item" event)
    is_tool ← lift (one_of ("command_execution" ∷ "mcp_tool_call" ∷ []) (get "type" item))
    if is_tool
        then modify (
            note_output (key_or repr (get "id" item) (decimal line))
              (text_value (get "aggregated_output" item)))
        else pure tt

  unfoldable pub response_item : Action Events (Unit {0})
  unfolding get text_value says key_or decimal note_output payload_of
  response_item =
      if says "function_call_output" (get "type" (payload_of event))
      then modify (
          note_output (key_or repr (get "call_id" (payload_of event)) (decimal line))
            (text_value (get "output" (payload_of event))))
      else pure tt

  -- if kind == "turn.completed": ... elif kind in {...}: ... elif ...
  unfoldable pub by_kind : Action Events (Unit {0})
  unfolding get says one_of event_message item_completed response_item turn_completed
  by_kind = if says "turn.completed" (get "type" event) then turn_completed else (do
    ends ← lift (one_of ("turn.started" ∷ "turn.failed" ∷ "error" ∷ []) (get "type" event))
    if ends
        then modify (reopen (says "turn.started" (get "type" event)))
        else if says "event_msg" (get "type" event)
        then event_message
        else if says "item.completed" (get "type" event)
        then item_completed
        else if says "response_item" (get "type" event)
        then response_item
        else pure tt)
