-- ===== src/Stream/Events.antt =====
-- crates/translator/src/stream_state.rs, `process_event`: one Claude event.
use chenni_x_api.Prelude.Tests.{if◌then◌else◌}
use chenni_x_api.Prelude.{String, str_eq, ◌<>◌, ◌⊎◌, inl, inr, List, []}
use chenni_x_api.Common.Errors.{translator}
use chenni_x_api.Common.Results.{ProxyResult, ok, err}
use chenni_x_api.Json.{Json, get_field, field_of, text_of}
use chenni_x_api.Stream.ToClaude.{or_empty}
use chenni_x_api.Stream.ToOpenai.{
  Chunk, OaiState, Pushes, on_message_start, block_index, on_block_start, on_block_delta,
  defer_stop_reason, defer_usage, on_message_stop,
}

-- On the data as JSON, by the name of the event.
unfoldable pub on_event : String → Json → OaiState → Pushes
unfolding on_message_start block_index on_block_start on_block_delta defer_stop_reason defer_usage
    on_message_stop get_field field_of text_of
on_event event v s =
    if str_eq event "message_start"
    then (on_message_start (get_field "message" v) s, [])
    else if str_eq event "content_block_start"
    then on_block_start (or_empty (text_of (field_of "type" (get_field "content_block" v))))
        (get_field "content_block" v)
        record s { current_block_index = block_index (get_field "index" v) }
    else if str_eq event "content_block_delta"
    then on_block_delta (or_empty (text_of (field_of "type" (get_field "delta" v))))
        (get_field "delta" v) s
    else if str_eq event "message_delta"
    then (
      defer_usage (get_field "usage" v)
          (defer_stop_reason (text_of (field_of "stop_reason" (get_field "delta" v))) s),
      [],
    )
    else if str_eq event "message_stop"
    then on_message_stop s
    else (s, [])

unfoldable pub process_parsed :
    String → String ⊎ Json → OaiState → ProxyResult (List Chunk) × OaiState
unfolding on_event
process_parsed event (inl e) s = (err (translator ("invalid JSON in SSE data: " <> e)), s)
process_parsed event (inr v) s = (let (s', cs) = on_event event v s in (ok cs, s'))

-- `from_str` is `serde_json::from_str`, with the text of its error; the data is UTF-8.
module _ (from_str : String → String ⊎ Json) where
  unfoldable pub process_event : String → String → OaiState → ProxyResult (List Chunk) × OaiState
  unfolding process_parsed
  process_event event data_str s = process_parsed event (from_str data_str) s
