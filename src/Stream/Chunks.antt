-- ===== src/Stream/Chunks.antt =====
-- crates/translator/src/stream_state.rs, `process_json` and `process_chunk`.
use chenni_x_api.Prelude.Tests.{if◌then◌else◌}
use chenni_x_api.Prelude.{
  ◌+◌, ◌%◌, String, str_eq, ◌<>◌, true, ◌⊎◌, inl, inr, Option, none, some, List, [], ◌∷◌, ◌++◌,
}
use chenni_x_api.Common.Text.{trim, lines, strip_prefix}
use chenni_x_api.Common.Errors.{translator}
use chenni_x_api.Common.Results.{ProxyResult, ok, err, Action}
use chenni_x_api.Json.{Json, null, array, Items, no_items, item, get_field, text_of, count_at}
use chenni_x_api.Stream.ToClaude.{
  StreamState, Event, message_start, Emits, ◌then_emit◌, emit_reasoning, reasoning_of,
  emit_tool_calls, emit_text, emit_finish, stop_if_finished,
}

keep_text : Option String → String → String
keep_text none old = old
keep_text (some new) old = new

-- The id and the model, before the message has started.
unfoldable pub take_ids : Json → StreamState → StreamState
unfolding keep_text get_field text_of
take_ids v s = if s.started then s else record s {
  message_id = keep_text (text_of (get_field "id" v)) s.message_id;
  model = keep_text (text_of (get_field "model" v)) s.model;
}

-- A usage that is not null; the sum of `u64` wraps, as in a release build.
unfoldable pub buffer_usage : Option Json → StreamState → StreamState
unfolding count_at
buffer_usage none s = s
buffer_usage (some null) s = s
buffer_usage (some usage) s =
    let prompt = count_at "prompt_tokens" (some usage) in
    let completion = count_at "completion_tokens" (some usage) in
    record s {
      deferred_usage = some record {
        prompt_tokens = prompt;
        completion_tokens = completion;
        total_tokens = (prompt + completion) % 18_446_744_073_709_551_616;
      };
    }

unfoldable pub first_choice : Option Json → Option Json
first_choice (some (array (item c cs))) = some c
first_choice _ = none

abbrev pub items_of : Option Json → Items
items_of (some (array tcs)) = tcs
items_of _ = no_items

abbrev pub or_null : Option Json → Json
or_null none = null
or_null (some v) = v

unfoldable pub start_message : StreamState → Emits
start_message s = if s.started then (s, []) else (
  record s { started = true; content_block_index = 0 },
  message_start s.message_id s.model ∷ [],
)

-- The delta's four parts, in the order of the code.
unfoldable pub emit_choice : Json → StreamState → Emits
unfolding start_message emit_reasoning reasoning_of emit_tool_calls emit_text emit_finish get_field
    text_of
emit_choice choice s =
    let delta = or_null (get_field "delta" choice) in
    start_message s
    then_emit emit_reasoning (reasoning_of delta)
    then_emit emit_tool_calls (items_of (get_field "tool_calls" delta))
    then_emit emit_text (text_of (get_field "content" delta))
    then_emit emit_finish (text_of (get_field "finish_reason" choice))

unfoldable pub emit_choices : Option Json → StreamState → Emits
unfolding stop_if_finished emit_choice
emit_choices none s = stop_if_finished s
emit_choices (some choice) s = emit_choice choice s

unfoldable pub process_json : Json → StreamState → Emits
unfolding take_ids buffer_usage first_choice emit_choices get_field
process_json v s =
    emit_choices (first_choice (get_field "choices" v))
      (buffer_usage (get_field "usage" v) (take_ids v s))

-- `from_str` is `serde_json::from_str`, with the text of its error.
module _ (from_str : String → String ⊎ Json) where
  unfoldable pub process_data : String → StreamState → ProxyResult (List Event) × StreamState
  unfolding process_json stop_if_finished
  process_data data_str s =
      if str_eq data_str "[DONE]"
      then (let (s', es) = stop_if_finished s in (ok es, s'))
      else elim (from_str data_str) [
        | inl e ↦ (err (translator ("invalid JSON in SSE data: " <> e)), s)
        | inr v ↦ (let (s', es) = process_json v s in (ok es, s'))
      ]

  -- What follows `data:`; a line that is empty or has no `data:` is passed over.
  unfoldable pub process_rest : Option String → StreamState → ProxyResult (List Event) × StreamState
  unfolding process_data trim
  process_rest none s = (ok [], s)
  process_rest (some rest) s = process_data (trim rest) s

  unfoldable pub process_line : String → StreamState → ProxyResult (List Event) × StreamState
  unfolding process_rest strip_prefix trim
  process_line line s = process_rest (strip_prefix "data:" (trim line)) s

  -- The events of the lines before a bad one are lost; what they did to the state stays.
  unfoldable pub process_lines : List String → Action StreamState (List Event)
  unfolding process_line
  process_lines [] s = (ok [], s)
  process_lines (l ∷ ls) s =
      let (r, s') = process_line l s in
      let (later, s'') = process_lines ls s' in
      elim r [
        | err e ↦ (err e, s')
        | ok es ↦ elim later [ err e ↦ (err e, s'') | ok more ↦ (ok (es ++ more), s'') ]
      ]

  -- On a chunk that is UTF-8.
  unfoldable pub process_chunk : String → Action StreamState (List Event)
  unfolding process_lines lines
  process_chunk text s = process_lines (lines text) s
